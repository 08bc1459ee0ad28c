-- ===== src/Service/Homework/Requests.antt =====
-- Any sequence of homework requests, by anybody, keeps every stored homework sound.
use fcstask_backend.Errors.{Error}
use fcstask_backend.Errors.Action.{err, ok}
use fcstask_backend.Errors.Ensures.{same_ok}
use fcstask_backend.Errors.Outcomes.{after}
use fcstask_backend.Model.{Homework, Uuid}
use fcstask_backend.Prelude.{
  Bool, List, Option, String, [], false, if◌then◌else◌, none, not, refl, some, str_eq, subst, sym,
  true, ◌∷◌, ◌≡◌,
}
use fcstask_backend.Repo.Homework.{HomeworkLaws, HomeworkRepo, homework_table}
use fcstask_backend.Repo.Role.Interface.{RoleLaws, RoleRepo, RoleView}
use fcstask_backend.Repo.Stored.{AllRows, Inserted-All, Replaced-All}
use fcstask_backend.Service.Dates.{TimeFormat}
use fcstask_backend.Service.Homework.{
  CreateHomeworkInput, UpdateHomeworkInput, create_homework_body, delete_homework_body, new_title,
  publish_homework_body, update_homework_body,
}
use fcstask_backend.Service.Homework.Bodies.{
  create_homework_body-Created, delete_homework_body-Deleted, publish_homework_body-Published,
  update_homework_body-Updated,
}
use fcstask_backend.Service.Homework.Outcomes.{
  CreatedHomework, IsSound, PublishedHomework, UpdatedHomework,
}

pub data HomeworkRequest : Type 0 where
  create_one : (actor : Uuid) → CreateHomeworkInput → HomeworkRequest
  update_one : (actor course_id hw_id : Uuid) → UpdateHomeworkInput → HomeworkRequest
  delete_one : (actor course_id hw_id : Uuid) → HomeworkRequest
  publish_one : (actor course_id hw_id : Uuid) → Bool → HomeworkRequest

checked_title :
    (b : Bool) (text : String) (e : Error) {title : String}
    → str_eq text "" ≡ b
    → (if b then err e else ok text) ≡ ok title
    → str_eq title "" ≡ false
checked_title true text e test h = cc
checked_title false text e test h = subst (λ t. str_eq t "" ≡ false) (same_ok h) test

pub title-kept :
    (input : Option String) (old : String) {title : String}
    → new_title input old ≡ ok title
    → str_eq old "" ≡ false
    → str_eq title "" ≡ false
title-kept none old h was = subst (λ t. str_eq t "" ≡ false) (same_ok h) was
title-kept (some text) old h was = checked_title (str_eq text "") text _ refl h

module _ {D : Type 0} (times : TimeFormat) (homeworks : HomeworkRepo D) (roles : RoleRepo D) where
  unfoldable pub handle_homework : HomeworkRequest → D → D
  handle_homework (create_one actor input) d =
      (create_homework_body times homeworks roles actor input d).1
  handle_homework (update_one actor course_id hw_id input) d =
      (update_homework_body times homeworks roles actor course_id hw_id input d).1
  handle_homework (delete_one actor course_id hw_id) d =
      (delete_homework_body times homeworks roles actor course_id hw_id d).1
  handle_homework (publish_one actor course_id hw_id is_public) d =
      (publish_homework_body times homeworks roles actor course_id hw_id is_public d).1

  unfoldable pub serve_homeworks : List HomeworkRequest → D → D
  serve_homeworks [] d = d
  serve_homeworks (q ∷ qs) d = serve_homeworks qs (handle_homework q d)

  module _ (rows : D → Uuid → Option Homework) (view : RoleView D) (laws : RoleLaws roles view)
      (stored : HomeworkLaws view homeworks rows) where
    abbrev AllSound : D → Type 0
    AllSound = AllRows (homework_table rows) IsSound

    created-IsSound :
        (actor : Uuid) (input : CreateHomeworkInput) (d d' : D) (hw : Homework)
        → CreatedHomework times rows view d actor input hw d'
        → IsSound hw
    created-IsSound actor input d d' hw c =
        subst IsSound (sym c.inserted.filled)
          (record { titled = c.titled; in_order = ordered c.in_order })
      where
        ordered : {b : Bool} → b ≡ true → not b ≡ false
        ordered e = rw e refl

    updated-IsSound :
        (actor course_id hw_id : Uuid) (input : UpdateHomeworkInput) (d d' : D) (hw : Homework)
        → UpdatedHomework times rows view d actor course_id hw_id input hw d'
        → AllSound d
        → IsSound hw
    updated-IsSound actor course_id hw_id input d d' hw u all = record {
      titled = title-kept input.title _ u.title_after (all hw_id u.old u.found.stored).titled;
      in_order = u.in_order;
    }

    published-IsSound :
        (actor course_id hw_id : Uuid) (is_public : Bool) (d d' : D) (hw : Homework)
        → PublishedHomework times rows view d actor course_id hw_id is_public hw d'
        → AllSound d
        → IsSound hw
    published-IsSound actor course_id hw_id is_public d d' hw p all =
        let old = all hw_id p.old p.found.stored in
        subst IsSound (sym p.shown) (record { titled = old.titled; in_order = old.in_order })

    same_some : {a : Homework} → IsSound a → (x : Homework) → some a ≡ some x → IsSound x
    same_some p x e = subst IsSound (same e) p
      where
        same : {a b : Homework} → some a ≡ some b → a ≡ b
        same e = cc

    handle_homework-AllSound :
        (q : HomeworkRequest) (d : D) → AllSound d → AllSound (handle_homework q d)
    unfolding handle_homework
    handle_homework-AllSound (create_one actor input) d all =
        after d AllSound _
          (create_homework_body-Created times homeworks roles rows view laws stored d actor input)
          all
          λ hw d' c.
            Inserted-All (homework_table rows) IsSound d d' view _ hw
              (created-IsSound actor input d d' hw c) all c.inserted
    handle_homework-AllSound (update_one actor course_id hw_id input) d all =
        after d AllSound _
          (update_homework_body-Updated times homeworks roles rows view laws stored d actor
            course_id hw_id input)
          all
          λ hw d' u.
            Replaced-All (homework_table rows) IsSound d d' view hw_id (some hw)
              (same_some (updated-IsSound actor course_id hw_id input d d' hw u all)) all u.replaced
    handle_homework-AllSound (delete_one actor course_id hw_id) d all =
        after d AllSound _
          (delete_homework_body-Deleted times homeworks roles rows view laws stored d actor
            course_id hw_id)
          all
          λ _ d' x.
            Replaced-All (homework_table rows) IsSound d d' view hw_id none (λ y e. cc) all
              x.replaced
    handle_homework-AllSound (publish_one actor course_id hw_id is_public) d all =
        after d AllSound _
          (publish_homework_body-Published times homeworks roles rows view laws stored d actor
            course_id hw_id is_public)
          all
          λ hw d' p.
            Replaced-All (homework_table rows) IsSound d d' view hw_id (some hw)
              (same_some (published-IsSound actor course_id hw_id is_public d d' hw p all)) all
              p.replaced

    -- If every stored homework has a title and dates in order, then so it is after any sequence of
    -- requests that create, update, delete and publish homeworks, whoever makes them and whether
    -- they succeed or fail.
    pub serve_homeworks-AllSound :
        (qs : List HomeworkRequest) (d : D)
        → AllRows (homework_table rows) IsSound d
        → AllRows (homework_table rows) IsSound (serve_homeworks qs d)
    unfolding serve_homeworks
    serve_homeworks-AllSound [] d all = all
    serve_homeworks-AllSound (q ∷ qs) d all =
        serve_homeworks-AllSound qs (handle_homework q d) (handle_homework-AllSound q d all)
