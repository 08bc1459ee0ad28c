-- ===== src/Service/Homework/Bodies.antt =====
-- Each homework body of internal/service/admin_homework.go has the outcome that `Outcomes` states.
use fcstask_backend.Errors.{bad_request, internal}
use fcstask_backend.Errors.Action.{bind, ok, refuse_if, wrapping}
use fcstask_backend.Errors.Ensures.{
  Ensures, bind-eq-ok, last_step, lift_step, or_else-eq-ok, query_step, refuse_if-eq-ok, same_ok,
  weaken, wrapping-Writes, write_step,
}
use fcstask_backend.Errors.Outcomes.{if_ok, wrapped_step}
use fcstask_backend.Model.{Homework, Time, Uuid, is_nil, uuid_nil}
use fcstask_backend.Prelude.{
  ==_iff, Bool, Option, String, ap, false, none, not, refl, some, str_eq, subst, sym, true, ◌∙◌,
  ◌≡◌,
}
use fcstask_backend.Repo.Homework.{HomeworkLaws, HomeworkRepo}
use fcstask_backend.Repo.Role.Interface.{RoleLaws, RoleRepo, RoleView}
use fcstask_backend.Repo.Stored.{Replaced-at, row_of-read}
use fcstask_backend.Service.Dates.{
  TimeFormat, date_layout, is_after, is_valid_date_range, or_bad_request, parse_date_ptr,
}
use fcstask_backend.Service.Homework.{
  CreateHomeworkInput, UpdateHomeworkInput, create_homework_body, delete_homework_body,
  get_homework, new_date, not_empty, publish_homework_body, require_homework_in_course,
  update_homework_body,
}
use fcstask_backend.Service.Homework.Outcomes.{
  CreatedHomework, DeletedHomework, FoundHomework, PublishedHomework, UpdatedHomework,
}
use fcstask_backend.Service.Permission.Decision.{allowed, require_scoped_permission-allowed}
use fcstask_backend.Service.Permission.Names.{permission_homework_create}

module _ (times : TimeFormat) where
  parsed :
      (o : Option Time) (message : String) {r : Option Time}
      → bind (or_bad_request o message) (λ t. ok (some t)) ≡ ok r
      → (t : Time) × (o ≡ some t) × (r ≡ some t)
  parsed none message h = cc
  parsed (some t) message h = (t, refl, sym (same h))
    where
      same : {a b : Option Time} → ok a ≡ ok b → a ≡ b
      same e = cc

  parse_date_ptr-parsed :
      (text : String) {r : Option Time}
      → str_eq text "" ≡ false
      → parse_date_ptr times text ≡ ok r
      → (t : Time) × (times.parse date_layout text ≡ some t) × (r ≡ some t)
  unfolding parse_date_ptr
  parse_date_ptr-parsed text {r} ne h =
      parsed (times.parse date_layout text) "date must be in format YYYY-MM-DD"
        (sym (rw ne refl) ∙ h)

  range-after :
      (start end : String) {s e : Time}
      → times.parse date_layout start ≡ some s
      → times.parse date_layout end ≡ some e
      → not (is_valid_date_range times start end) ≡ false
      → is_after e s ≡ true
  unfolding is_valid_date_range
  range-after start end {s} {e} hs he h = not_false _ (sym (rw (hs, he) refl) ∙ h)
    where
      not_false : (b : Bool) → not b ≡ false → b ≡ true
      not_false true h = refl
      not_false false h = cc

  pub new_date-kept :
      {D : Type 0} (homeworks : HomeworkRepo D) (roles : RoleRepo D) (text message : String)
      (date : Option Time) {r : Option Time}
      → new_date times homeworks roles text message date ≡ ok r
      → str_eq text "" ≡ true
      → r ≡ date
  unfolding new_date
  new_date-kept homeworks roles text message date {r} h e = sym (same (sym (rw e refl) ∙ h))
    where
      same : {a b : Option Time} → ok a ≡ ok b → a ≡ b
      same x = cc

module _ {D : Type 0} (homeworks : HomeworkRepo D) (rows : D → Uuid → Option Homework)
    (view : RoleView D) (stored : HomeworkLaws view homeworks rows) (d : D) where
  pub require_homework_in_course-stored :
      (hw_id course_id : Uuid) {hw : Homework}
      → require_homework_in_course homeworks hw_id course_id d ≡ ok hw
      → (rows d hw_id ≡ some hw) × (hw.course_id ≡ course_id)
  unfolding require_homework_in_course
  require_homework_in_course-stored hw_id course_id {hw} h =
      let (x, read, tested) = bind-eq-ok _ _ h in
      let (same_course, same) = if_ok _ _ _ tested in
      (
        row_of-read stored hw_id d (or_else-eq-ok _ _ (read ∙ ap ok same)),
        subst (λ y. y.course_id ≡ course_id) same ((==_iff _ _).0 same_course),
      )

module _ {D : Type 0} (times : TimeFormat) (homeworks : HomeworkRepo D) (roles : RoleRepo D)
    (rows : D → Uuid → Option Homework) (view : RoleView D) (laws : RoleLaws roles view)
    (stored : HomeworkLaws view homeworks rows) (d : D) (actor : Uuid) where
  pub get_homework-Found :
      (course_id hw_id : Uuid) {hw : Homework}
      → get_homework times homeworks roles actor course_id hw_id d ≡ ok hw
      → FoundHomework times rows view d actor course_id hw_id hw
  unfolding get_homework
  get_homework-Found course_id hw_id {hw} h =
      let (_, _, h1) =
        bind-eq-ok (refuse_if (is_nil hw_id) (bad_request "homework ID is required")) _ h in
      let (x, read, h2) = bind-eq-ok _ _ h1 in
      let (_, permitted, same) = bind-eq-ok _ _ h2 in
      subst (FoundHomework times rows view d actor course_id hw_id) (same_ok same) (record {
        stored =
            (require_homework_in_course-stored homeworks rows view stored d hw_id course_id read).0;
        own_id =
            stored.own_id d hw_id x
              (require_homework_in_course-stored homeworks rows view stored d hw_id course_id
                read).0;
        in_course =
            (require_homework_in_course-stored homeworks rows view stored d hw_id course_id read).1;
        may_read = require_scoped_permission-allowed roles view laws _ _ _ d permitted;
      })

  pub create_homework_body-Created :
      (input : CreateHomeworkInput)
      → Ensures d
          (CreatedHomework times rows view d actor input)
          (create_homework_body times homeworks roles actor input)
  unfolding create_homework_body
  create_homework_body-Created input = lift_step _ _ λ _ _. query_step _ _ λ _ permitted.
      lift_step _ _ λ _ titled. lift_step _ _ λ _ starts. lift_step _ _ λ _ _.
        lift_step _ _ λ _ ends. lift_step _ _ λ _ _. lift_step _ _ λ _ ranged.
          lift_step _ _ λ start parsed_start. lift_step _ _ λ end parsed_end.
            created input (refuse_if-eq-ok _ _ titled)
              (require_scoped_permission-allowed roles view laws _ _ _ d permitted)
              (parse_date_ptr-parsed times _ (refuse_if-eq-ok _ _ starts) parsed_start)
              (parse_date_ptr-parsed times _ (refuse_if-eq-ok _ _ ends) parsed_end)
              (refuse_if-eq-ok _ _ ranged)
    where
      created :
          (input : CreateHomeworkInput) {start end : Option Time}
          → str_eq input.title "" ≡ false
          → allowed view d actor input.course_id permission_homework_create ≡ true
          → (s : Time) × (times.parse date_layout input.start_date ≡ some s) × (start ≡ some s)
          → (e : Time) × (times.parse date_layout input.end_date ≡ some e) × (end ≡ some e)
          → not (is_valid_date_range times input.start_date input.end_date) ≡ false
          → Ensures d (CreatedHomework times rows view d actor input) (
              wrapping
                (homeworks.create (record {
                  hw_id = uuid_nil;
                  course_id = input.course_id;
                  title = input.title;
                  description = not_empty input.description;
                  position = input.position;
                  is_public = none;
                  start_date = start;
                  end_date = end;
                }))
                (internal "Failed to create homework"))
      created input {start} {end} titled permitted (s, hs, es) (e, he, ee) ranged =
          rw (es, ee)
            (wrapped_step _ _ (
              weaken (stored.creates _ d) λ hw d' inserted. record {
                permitted = permitted;
                titled = titled;
                start = s;
                end = e;
                starts = hs;
                ends = he;
                in_order = range-after times _ _ hs he ranged;
                inserted = inserted;
              }))

  pub update_homework_body-Updated :
      (course_id hw_id : Uuid) (input : UpdateHomeworkInput)
      → Ensures d
          (UpdatedHomework times rows view d actor course_id hw_id input)
          (update_homework_body times homeworks roles actor course_id hw_id input)
  unfolding update_homework_body
  update_homework_body-Updated course_id hw_id input = query_step _ _ λ old read.
      query_step _ _ λ _ permitted. lift_step _ _ λ start starts. lift_step _ _ λ end ends.
        lift_step _ _ λ _ ordered. lift_step _ _ λ title titles.
          let was = get_homework-Found course_id hw_id read in
          write_step _ _ _ (stored.updates _ d) λ d' w. record {
            old = old;
            found = was;
            permitted = require_scoped_permission-allowed roles view laws _ _ _ d permitted;
            same_id = was.own_id;
            same_course = was.in_course;
            same_visibility = refl;
            title_after = titles;
            description_after = refl;
            position_after = refl;
            in_order = refuse_if-eq-ok _ _ ordered;
            start_kept = new_date-kept times homeworks roles _ _ _ starts;
            end_kept = new_date-kept times homeworks roles _ _ _ ends;
            replaced = Replaced-at was.own_id w;
          }

  pub delete_homework_body-Deleted :
      (course_id hw_id : Uuid)
      → Ensures d
          (λ _. DeletedHomework times rows view d actor course_id hw_id)
          (delete_homework_body times homeworks roles actor course_id hw_id)
  unfolding delete_homework_body
  delete_homework_body-Deleted course_id hw_id = lift_step _ _ λ _ _. query_step _ _ λ old read.
      query_step _ _ λ _ permitted.
        last_step _ (wrapping-Writes _ _ (stored.deletes hw_id d)) λ d' w. record {
          old = old;
          found = get_homework-Found course_id hw_id read;
          permitted = require_scoped_permission-allowed roles view laws _ _ _ d permitted;
          replaced = w;
        }

  pub publish_homework_body-Published :
      (course_id hw_id : Uuid) (is_public : Bool)
      → Ensures d
          (PublishedHomework times rows view d actor course_id hw_id is_public)
          (publish_homework_body times homeworks roles actor course_id hw_id is_public)
  unfolding publish_homework_body
  publish_homework_body-Published course_id hw_id is_public = query_step _ _ λ old read.
      query_step _ _ λ _ permitted.
        let was = get_homework-Found course_id hw_id read in
        write_step _ _ _ (stored.updates _ d) λ d' w. record {
          old = old;
          found = was;
          permitted = require_scoped_permission-allowed roles view laws _ _ _ d permitted;
          shown = refl;
          replaced = Replaced-at was.own_id w;
        }
