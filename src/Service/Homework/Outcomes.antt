-- ===== src/Service/Homework/Outcomes.antt =====
-- What each homework method of `AdminHomeworkService` does to the stored homeworks.
-- `end` is a date after `start`, where both are given.
use fcstask_backend.Errors.Action.{ok}
use fcstask_backend.Model.{Homework, Time, Uuid, uuid_nil}
use fcstask_backend.Prelude.{Bool, Option, false, none, some, str_eq, true, ◌≡◌}
use fcstask_backend.Repo.Homework.{homework_table}
use fcstask_backend.Repo.Role.Interface.{RoleView}
use fcstask_backend.Repo.Stored.{Inserted, Replaced}
use fcstask_backend.Service.Dates.{TimeFormat, date_layout, is_after}
use fcstask_backend.Service.Homework.{
  CreateHomeworkInput, UpdateHomeworkInput, new_description, new_position, new_title, not_empty,
  out_of_order,
}
use fcstask_backend.Service.Permission.Decision.{allowed}
use fcstask_backend.Service.Permission.Names.{
  permission_homework_create, permission_homework_delete, permission_homework_publish,
  permission_homework_read, permission_homework_update,
}

abbrev pub InOrder : Option Time → Option Time → Type 0
InOrder start end = out_of_order start end ≡ false

-- What the methods keep of every homework: a title, and dates in order.
pub record IsSound (hw : Homework) : Type 0 where
  pub titled : str_eq hw.title "" ≡ false
  pub in_order : InOrder hw.start_date hw.end_date

module _ {D : Type 0} (times : TimeFormat) (rows : D → Uuid → Option Homework) (view : RoleView D)
    (d : D) (actor : Uuid) where
  -- The homework is stored, belongs to the course, and the actor may read it there.
  pub record FoundHomework (course_id hw_id : Uuid) (hw : Homework) : Type 0 where
    pub stored : rows d hw_id ≡ some hw
    pub own_id : hw.hw_id ≡ hw_id
    pub in_course : hw.course_id ≡ course_id
    pub may_read : allowed view d actor hw.course_id permission_homework_read ≡ true

  -- `CreateHomework`: both dates parse, the end is after the start, and the new row holds the input.
  pub record CreatedHomework (input : CreateHomeworkInput) (hw : Homework) (d' : D) : Type 0 where
    pub permitted : allowed view d actor input.course_id permission_homework_create ≡ true
    pub titled : str_eq input.title "" ≡ false
    pub start : Time
    pub end : Time
    pub starts : times.parse date_layout input.start_date ≡ some start
    pub ends : times.parse date_layout input.end_date ≡ some end
    pub in_order : is_after end start ≡ true
    pub inserted :
        Inserted
          (homework_table rows)
          view
          d
          (record {
            hw_id = uuid_nil;
            course_id = input.course_id;
            title = input.title;
            description = not_empty input.description;
            position = input.position;
            is_public = none;
            start_date = some start;
            end_date = some end;
          })
          hw
          d'

  -- `UpdateHomework`: the row keeps its id, its course and its visibility, and what the input leaves
  -- out; its dates are in order whether they are new or not.
  pub record UpdatedHomework (course_id hw_id : Uuid) (input : UpdateHomeworkInput) (hw : Homework)
      (d' : D) : Type 0 where
    pub old : Homework
    pub found : FoundHomework course_id hw_id old
    pub permitted : allowed view d actor old.course_id permission_homework_update ≡ true
    pub same_id : hw.hw_id ≡ hw_id
    pub same_course : hw.course_id ≡ course_id
    pub same_visibility : hw.is_public ≡ old.is_public
    pub title_after : new_title input.title old.title ≡ ok hw.title
    pub description_after : hw.description ≡ new_description input.description old.description
    pub position_after : hw.position ≡ new_position input.position old.position
    pub in_order : InOrder hw.start_date hw.end_date
    pub start_kept : str_eq input.start_date "" ≡ true → hw.start_date ≡ old.start_date
    pub end_kept : str_eq input.end_date "" ≡ true → hw.end_date ≡ old.end_date
    pub replaced : Replaced (homework_table rows) view d hw_id (some hw) d'

  -- `DeleteHomework`: the row is gone.
  pub record DeletedHomework (course_id hw_id : Uuid) (d' : D) : Type 0 where
    pub old : Homework
    pub found : FoundHomework course_id hw_id old
    pub permitted : allowed view d actor old.course_id permission_homework_delete ≡ true
    pub replaced : Replaced (homework_table rows) view d hw_id none d'

  -- `PublishHomework`: the row changes in its visibility only.
  pub record PublishedHomework (course_id hw_id : Uuid) (is_public : Bool) (hw : Homework) (d' : D)
      : Type 0 where
    pub old : Homework
    pub found : FoundHomework course_id hw_id old
    pub permitted : allowed view d actor old.course_id permission_homework_publish ≡ true
    pub shown : hw ≡ record old { is_public = some is_public }
    pub replaced : Replaced (homework_table rows) view d hw_id (some hw) d'
