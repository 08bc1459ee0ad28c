-- ===== src/Service/Permission/Names.antt =====
-- The permission names, and the sets that a student, an admin, an owner and a super admin get.
use fcstask_backend.Prelude.{List, String, [], ◌++◌, ◌∷◌}

abbrev pub permission_homework_create : String
permission_homework_create = "homework.create"

abbrev pub permission_homework_read : String
permission_homework_read = "homework.read"

abbrev pub permission_homework_update : String
permission_homework_update = "homework.update"

abbrev pub permission_homework_delete : String
permission_homework_delete = "homework.delete"

abbrev pub permission_homework_publish : String
permission_homework_publish = "homework.publish"

abbrev pub permission_deadline_read : String
permission_deadline_read = "deadline.read"

abbrev pub permission_deadline_create : String
permission_deadline_create = "deadline.create"

abbrev pub permission_deadline_update : String
permission_deadline_update = "deadline.update"

abbrev pub permission_deadline_delete : String
permission_deadline_delete = "deadline.delete"

abbrev pub permission_task_create : String
permission_task_create = "task.create"

abbrev pub permission_task_read : String
permission_task_read = "task.read"

abbrev pub permission_task_update : String
permission_task_update = "task.update"

abbrev pub permission_task_publish : String
permission_task_publish = "task.publish"

abbrev pub permission_task_delete : String
permission_task_delete = "task.delete"

abbrev pub permission_task_score_update : String
permission_task_score_update = "task.score.update"

abbrev pub permission_task_submit : String
permission_task_submit = "task.submit"

abbrev pub permission_score_export : String
permission_score_export = "scores.export"

abbrev pub permission_leaderboard_read : String
permission_leaderboard_read = "leaderboard.read"

abbrev pub permission_course_read : String
permission_course_read = "course.read"

abbrev pub permission_course_hidden_read : String
permission_course_hidden_read = "course.hidden.read"

abbrev pub permission_course_role_assign : String
permission_course_role_assign = "course.roles.assign"

abbrev pub permission_course_role_revoke : String
permission_course_role_revoke = "course.roles.revoke"

abbrev pub permission_course_role_list : String
permission_course_role_list = "course.roles.list"

abbrev pub permission_course_permission_add : String
permission_course_permission_add = "course.permissions.add"

abbrev pub permission_course_permission_remove : String
permission_course_permission_remove = "course.permissions.remove"

abbrev pub permission_course_permission_list : String
permission_course_permission_list = "course.permissions.list"

abbrev pub permission_course_invite_regenerate : String
permission_course_invite_regenerate = "course.invite.regenerate"

abbrev pub permission_course_create : String
permission_course_create = "course.create"

abbrev pub permission_course_update : String
permission_course_update = "course.update"

abbrev pub permission_super_admin_create : String
permission_super_admin_create = "super_admin.create"

abbrev pub permission_is_super_admin : String
permission_is_super_admin = "is_super_admin"

abbrev pub permission_stats_read : String
permission_stats_read = "stats.read"

abbrev pub course_student_permissions : List String
course_student_permissions =
    permission_homework_read ∷ permission_deadline_read ∷ permission_task_read
    ∷ permission_task_submit ∷ permission_leaderboard_read ∷ permission_course_read ∷ []

abbrev pub course_admin_permissions : List String
course_admin_permissions =
    permission_homework_create ∷ permission_homework_update ∷ permission_homework_delete
    ∷ permission_homework_publish ∷ permission_deadline_create ∷ permission_deadline_update
    ∷ permission_deadline_delete ∷ permission_task_create ∷ permission_task_update
    ∷ permission_task_publish ∷ permission_task_delete ∷ permission_task_score_update
    ∷ permission_score_export ∷ permission_course_read ∷ permission_course_hidden_read
    ∷ permission_course_update ∷ permission_stats_read ∷ []

abbrev pub service_super_admin_permissions : List String
service_super_admin_permissions =
    permission_is_super_admin ∷ permission_course_create ∷ permission_super_admin_create
    ∷ permission_stats_read ∷ []

abbrev pub course_owner_permissions : List String
course_owner_permissions =
    (course_student_permissions ++ course_admin_permissions)
    ++ (permission_course_role_assign ∷ permission_course_role_revoke ∷ permission_course_role_list
        ∷ permission_course_permission_add ∷ permission_course_permission_remove
        ∷ permission_course_permission_list ∷ permission_course_invite_regenerate
        ∷ permission_stats_read ∷ [])
