-- ===== src/Service/AdminRole/Requests.antt =====
-- Any sequence of the five requests about a course, by any actors.
use fcstask_backend.Errors.Outcomes.{after}
use fcstask_backend.Model.{Uuid}
use fcstask_backend.Prelude.{All, List, String, [], false, refl, ◌==◌, ◌∙◌, ◌∷◌, ◌≡◌}
use fcstask_backend.Repo.Role.Interface.{RoleLaws, RoleRepo, RoleView}
use fcstask_backend.Repo.User.{UserRepo}
use fcstask_backend.Service.AdminRole.{
  AddPermissionInput, AssignCourseAdminInput, RemoveCourseParticipantInput, RevokeCourseAdminInput,
  add_permission_body, assign_course_admin_body, remove_course_participant_body,
  remove_permission_body, revoke_course_admin_body,
}
use fcstask_backend.Service.AdminRole.Bodies.{
  add_permission_body-Added, assign_course_admin_body-Assigned,
  remove_course_participant_body-Removed, remove_permission_body-Removed,
  revoke_course_admin_body-Revoked,
}
use fcstask_backend.Service.AdminRole.Isolation.{
  AddedPermission-Isolated, AssignedAdmin-Isolated, IsSeparate, Isolated, Isolated-IsSeparate,
  RemovedParticipant-Isolated, RemovedPermission-Isolated, RevokedAdmin-Isolated, SameIn,
}
use fcstask_backend.Service.Permission.Decision.{holds}

pub data CourseRequest : Type 0 where
  assign_admin : Uuid → AssignCourseAdminInput → CourseRequest
  revoke_admin : Uuid → RevokeCourseAdminInput → CourseRequest
  drop_participant : Uuid → RemoveCourseParticipantInput → CourseRequest
  give_permission : Uuid → AddPermissionInput → CourseRequest
  take_permission : (actor course_id role_id : Uuid) → String → CourseRequest

abbrev pub course_of : CourseRequest → Uuid
course_of (assign_admin actor input) = input.course_id
course_of (revoke_admin actor input) = input.course_id
course_of (drop_participant actor input) = input.course_id
course_of (give_permission actor input) = input.course_id
course_of (take_permission actor course_id role_id permission) = course_id

module _ {D : Type 0} (roles : RoleRepo D) (users : UserRepo D) where
  unfoldable pub handle : CourseRequest → D → D
  handle (assign_admin actor input) d = (assign_course_admin_body roles users actor input d).1
  handle (revoke_admin actor input) d = (revoke_course_admin_body roles users actor input d).1
  handle (drop_participant actor input) d =
      (remove_course_participant_body roles users actor input d).1
  handle (give_permission actor input) d = (add_permission_body roles users actor input d).1
  handle (take_permission actor course_id role_id permission) d =
      (remove_permission_body roles users actor course_id role_id permission d).1

  unfoldable pub serve : List CourseRequest → D → D
  serve [] d = d
  serve (q ∷ qs) d = serve qs (handle q d)

  module _ (view : RoleView D) (laws : RoleLaws roles view) where
    module _ (d : D) (separate : IsSeparate view d) where
      same : (c : Uuid) → Isolated view d d separate c
      unfolding holds
      same c = record { among = λ u k r e. e; same_in = λ c' ne v p. refl }

      handle-Isolated : (q : CourseRequest) → Isolated view d (handle q d) separate (course_of q)
      unfolding handle
      handle-Isolated (assign_admin actor input) =
          after d (λ d'. Isolated view d d' separate input.course_id) _
            (assign_course_admin_body-Assigned roles users view laws d actor input) (same _)
            (λ role d' a. AssignedAdmin-Isolated view d d' separate actor input role a)
      handle-Isolated (revoke_admin actor input) =
          after d (λ d'. Isolated view d d' separate input.course_id) _
            (revoke_course_admin_body-Revoked roles users view laws d actor input) (same _)
            (λ _ d' a. RevokedAdmin-Isolated view d d' separate actor input a)
      handle-Isolated (drop_participant actor input) =
          after d (λ d'. Isolated view d d' separate input.course_id) _
            (remove_course_participant_body-Removed roles users view laws d actor input) (same _)
            (λ _ d' a. RemovedParticipant-Isolated view d d' separate actor input a)
      handle-Isolated (give_permission actor input) =
          after d (λ d'. Isolated view d d' separate input.course_id) _
            (add_permission_body-Added roles users view laws d actor input) (same _)
            (λ perm d' a. AddedPermission-Isolated view d d' separate actor input perm a)
      handle-Isolated (take_permission actor c r p) =
          after d (λ d'. Isolated view d d' separate c) _
            (remove_permission_body-Removed roles users view laws d actor c r p) (same _)
            (λ _ d' a. RemovedPermission-Isolated view d d' separate actor c r p a)

    -- From separate roles, whatever requests about other courses are made and by whom, nobody's
    -- permissions in course `c` change, and the roles stay separate.
    pub serve-SameIn :
        (c : Uuid) (qs : List CourseRequest) (d : D)
        → IsSeparate view d
        → All (λ q. (course_of q == c) ≡ false) qs
        → SameIn view c d (serve qs d) × IsSeparate view (serve qs d)
    unfolding serve
    serve-SameIn c [] d separate others = (λ v p. refl, separate)
    serve-SameIn c (q ∷ qs) d separate others =
        let one = handle-Isolated d separate q in
        let rest =
          serve-SameIn c qs (handle q d)
            (Isolated-IsSeparate view d (handle q d) separate (course_of q) one) others.1 in
        (λ v p. rest.0 v p ∙ one.same_in c others.0 v p, rest.1)
