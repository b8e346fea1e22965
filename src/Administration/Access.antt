-- ===== src/Administration/Access.antt =====
-- `EnrollmentAdministrationService` of apps/payments/admin_services.py: freezing and resuming the
-- access to a course in ClickFunnels, for one enrollment or for an order.
use Prim.Native.String.{◌++◌ as append}
use valuecrm.Base.{
  ℕ, ⊤, Bool, true, false, not, ◌&&◌, String, Option, none, some, [], ◌∷◌, ◌==◌, nat_eq, string_eq,
  elem, is_some, if◌then◌else◌, truthy,
}
use valuecrm.Table.{Table, get, set, select, first}
use valuecrm.Model.{Db, Order}
use valuecrm.Model.Status.{OrderStatus, order_status_eq}
use valuecrm.Model.Enrollment.{EnrollmentAttempt, EnrollmentStatus, ProvisioningAttempt}
use valuecrm.Model.Audit.{AdminAuditLog, ActionType, TargetType, OutcomeCategory}
use valuecrm.Audit.{Actor, entry, record_audit}
use valuecrm.Exec.{
  Exec, Result, ok, err, does_not_exist, admin_action, pure, raise, gets, or_raise, atomic, attempt,
  write_enrollments, ◌>>=◌, ◌>>◌, maybe, lift,
}
use valuecrm.ClickFunnels.{Provider}
use valuecrm.Enrollments.{set_enrollment_suspension}
use valuecrm.Followups.{live_request}
use valuecrm.Provisioning.{enrollment_service}
use valuecrm.Transitions.{get_order, order_transition}
use valuecrm.Administration.{is_invalid_transition}
use valuecrm.Administration.Labels.{order_text, enrollment_text, access_text}

abbrev pub same_bool : Bool → Bool → Bool
same_bool true b = b
same_bool false b = not b

abbrev pub action_of : Bool → ActionType
action_of true = ActionType.freeze_enrollment
action_of false = ActionType.resume_enrollment

abbrev pub access_entry : Bool → ℕ → Actor → String → String → OutcomeCategory → AdminAuditLog
access_entry suspended k actor before after outcome =
    entry actor (action_of suspended) TargetType.enrollment_attempt k before after outcome

-- The columns that a suspension, or its end, sets.
abbrev pub switched : Bool → String → ℕ → EnrollmentAttempt → EnrollmentAttempt
switched suspended reason now e = record e {
  cf_suspended = suspended;
  cf_suspended_at = if suspended then some now else none;
  cf_suspension_reason = if suspended then reason else "";
}

-- The last transaction of `_set_attempt_suspension`.
unfoldable pub switch : Bool → ℕ → Actor → Exec ⊤
unfolding record_audit
switch suspended k actor = atomic do
  found ← gets (λ s. get k s.enrollments)
  e ← or_raise found does_not_exist
  write_enrollments (λ s. set k (switched suspended actor.reason s.clock e) s.enrollments)
  record_audit (
      access_entry suspended k actor (access_text (not suspended)) (access_text suspended)
        OutcomeCategory.success)
  pure tt

-- What ClickFunnels' answer leads to.
unfoldable pub after_call : Bool → ℕ → Actor → EnrollmentAttempt → Result ⊤ → Exec ⊤
unfolding switch record_audit
after_call suspended k actor e (ok u) = switch suspended k actor
after_call suspended k actor e (err x) =
    record_audit (
      access_entry suspended k actor (access_text e.cf_suspended) (access_text e.cf_suspended)
        OutcomeCategory.failed)
    >> raise admin_action

-- The call of ClickFunnels, for an enrollment that is to change; an exception of the service's
-- construction goes through.
unfoldable pub call_provider : Provider → Bool → ℕ → Actor → EnrollmentAttempt → String → Exec ⊤
unfolding after_call record_audit
call_provider provider suspended k actor e id = do
  service ← lift (enrollment_service provider)
  maybe service
      (record_audit (
          access_entry suspended k actor (access_text e.cf_suspended) (access_text e.cf_suspended)
            OutcomeCategory.failed)
        >> raise admin_action)
      (λ bundle. do
        answer ← attempt (set_enrollment_suspension provider bundle.0 id suspended actor.reason)
        after_call suspended k actor e answer)

abbrev pub is_enrolled : EnrollmentStatus → Bool
is_enrolled EnrollmentStatus.success = true
is_enrolled EnrollmentStatus.failure = false

-- `_set_attempt_suspension`
unfoldable pub set_attempt_suspension : Provider → Bool → ℕ → Actor → Exec ⊤
unfolding call_provider record_audit
set_attempt_suspension provider suspended k actor = do
  found ← gets (λ s. get k s.enrollments)
  e ← or_raise found does_not_exist
  let reject =
      record_audit (
        access_entry suspended k actor (enrollment_text e.status) (enrollment_text e.status)
          OutcomeCategory.rejected_invalid_state)
      >> raise admin_action
  if not (is_enrolled e.status)
      then reject
      else maybe (truthy e.cf_enrollment_id) reject λ id.
        if same_bool e.cf_suspended suspended
        then record_audit (
            access_entry suspended k actor (access_text suspended) (access_text suspended)
              OutcomeCategory.no_op_already_in_state)
          >> pure tt
        else call_provider provider suspended k actor e id

abbrev pub has_enrollment_id : ℕ → Table EnrollmentAttempt → Bool
has_enrollment_id k t = elim (get k t) [
  | none ↦ false
  | some e ↦ is_some (truthy e.cf_enrollment_id)
]

-- The enrollment of a successful provisioning attempt of the request, with an id of ClickFunnels.
abbrev pub opened_by : ℕ → Table EnrollmentAttempt → ℕ → ProvisioningAttempt → Bool
opened_by request t j a =
    a.provisioning_request == request
    && is_enrolled a.status
    && elim a.enrollment_attempt [ none ↦ false | some e ↦ has_enrollment_id e t ]

-- `find_open_access`: the key of the enrollment
abbrev pub find_open_access : Order → Db → Option ℕ
find_open_access o s = elim (first (select (live_request o.customer o.course) s.requests)) [
  | none ↦ none
  | some r ↦ elim (first (select (opened_by r.0 s.enrollments) s.provisioning_attempts)) [
    | none ↦ none
    | some a ↦ a.1.enrollment_attempt
  ]
]

abbrev pub order_entry : Bool → ℕ → Actor → String → String → OutcomeCategory → AdminAuditLog
order_entry suspended k actor before after outcome =
    entry actor (action_of suspended) TargetType.order k before after outcome

-- The statuses from which the order may be frozen, or resumed.
abbrev pub is_required : Bool → OrderStatus → Bool
is_required true st = elem st (OrderStatus.active ∷ OrderStatus.past_due ∷ [])
is_required false st = elem st (OrderStatus.suspended ∷ [])

abbrev pub mirror_status : Bool → OrderStatus
mirror_status true = OrderStatus.suspended
mirror_status false = OrderStatus.active

-- The audit row of the order, after its transition.
unfoldable pub after_mirror : Bool → ℕ → Actor → OrderStatus → Result Order → Exec ⊤
unfolding record_audit
after_mirror suspended k actor before (ok o) =
    record_audit (
      order_entry suspended k actor (order_text before) (order_text o.status)
        OutcomeCategory.success)
    >> pure tt
after_mirror suspended k actor before (err x) =
    if is_invalid_transition x
    then record_audit (
        order_entry suspended k actor (order_text before)
          (append (order_text before) " (order transition skipped — no longer eligible)")
          OutcomeCategory.success)
      >> pure tt
    else raise x

-- The last transaction of `_set_order_suspension`.
unfoldable pub mirror : Bool → ℕ → Actor → Exec ⊤
unfolding after_mirror
mirror suspended k actor = atomic do
  locked ← get_order k
  moved ← attempt (order_transition k (mirror_status suspended))
  after_mirror suspended k actor locked.status moved

-- `_set_order_suspension`: `freeze_order_enrollment` for `true`, `resume_order_enrollment` for `false`
unfoldable pub set_order_suspension : Provider → Bool → ℕ → Actor → Exec ⊤
unfolding set_attempt_suspension mirror record_audit
set_order_suspension provider suspended k actor = do
  o ← get_order k
  let reject =
      record_audit (
        order_entry suspended k actor (order_text o.status) (order_text o.status)
          OutcomeCategory.rejected_invalid_state)
      >> raise admin_action
  if not (is_required suspended o.status) then reject else do
    access ← gets (find_open_access o)
    maybe access reject
        λ e. do set_attempt_suspension provider suspended e actor; mirror suspended k actor
