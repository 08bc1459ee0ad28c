-- ===== src/Metrics/Admin.antt =====
-- internal/metrics/admin.go and internal/service/admin_metrics.go.
use fcstask_backend.Errors.Action.{Result, err, ok}
use fcstask_backend.Prelude.{Option, String, none, some}

pub data AdminAction : Type 0 where
  create_homework update_homework delete_homework publish_homework : AdminAction
  set_deadline delete_deadline : AdminAction
  create_task update_task delete_task score_task : AdminAction
  assign_role revoke_role remove_participant : AdminAction
  grant_permission revoke_permission : AdminAction
  promote_super_admin demote_super_admin : AdminAction

abbrev pub action_label : AdminAction → String
action_label create_homework = "create_homework"
action_label update_homework = "update_homework"
action_label delete_homework = "delete_homework"
action_label publish_homework = "publish_homework"
action_label set_deadline = "set_deadline"
action_label delete_deadline = "delete_deadline"
action_label create_task = "create_task"
action_label update_task = "update_task"
action_label delete_task = "delete_task"
action_label score_task = "score_task"
action_label assign_role = "assign_role"
action_label revoke_role = "revoke_role"
action_label remove_participant = "remove_participant"
action_label grant_permission = "grant_permission"
action_label revoke_permission = "revoke_permission"
action_label promote_super_admin = "promote_super_admin"
action_label demote_super_admin = "demote_super_admin"

pub data AdminOutcome : Type 0 where
  outcome_success outcome_error : AdminOutcome

abbrev pub outcome_label : AdminOutcome → String
outcome_label outcome_success = "success"
outcome_label outcome_error = "error"

-- `*prometheus.CounterVec` with the labels action and outcome.
pub record AdminMetrics (M : Type 0) : Type 0 where
  pub inc : (action outcome : String) → M → M

-- `IncAction`; a nil receiver counts nothing.
abbrev pub inc_action : {M : Type 0} → Option (AdminMetrics M) → AdminAction → AdminOutcome → M → M
inc_action none action outcome m = m
inc_action (some counters) action outcome m =
    counters.inc (action_label action) (outcome_label outcome) m

abbrev pub admin_outcome {ℓ} : {A : Type ℓ} → Result A → AdminOutcome
admin_outcome (ok a) = outcome_success
admin_outcome (err e) = outcome_error

-- `defer func() { s.adminMetrics.IncAction(action, adminOutcome(err)) }()`
abbrev pub count_action : {M A : Type 0} → Option (AdminMetrics M) → AdminAction → Result A → M → M
count_action metrics action r = inc_action metrics action (admin_outcome r)
