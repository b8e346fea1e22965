-- ===== src/Administration/Attempts.antt =====
-- `PaymentAttemptAdministrationService.check_tara_status` of apps/payments/admin_services.py: one
-- verification on demand. What the service calls is taken as in the processing of webhooks.
use valuecrm.Base.{ℕ, ⊤, Bool, true, false, not, none, [], ◌∷◌, ◌==◌, elem, if◌then◌else◌}
use valuecrm.Model.{PaymentAttempt, EventFailure, none_failure, malformed}
use valuecrm.Model.Status.{AttemptStatus, attempt_status_eq}
use valuecrm.Model.Audit.{ActionType, TargetType, OutcomeCategory}
use valuecrm.Audit.{Actor, entry, record_audit}
use valuecrm.Exec.{
  Exec, Error, Result, ok, err, payment_id_conflict, duplicate_payment, invalid_transition,
  admin_action, pure, raise, gets, attempt, ◌>>=◌, ◌>>◌,
}
use valuecrm.Tara.{TaraStatus, Client, get_client}
use valuecrm.Verification.{Verification, candidate_payment_ids, verify}
use valuecrm.Transitions.{get_attempt, get_installment}
use valuecrm.Credit.{apply_verified_success, apply_verified_failure}
use valuecrm.Webhook.{Services, resolve_reported_events}
use valuecrm.Administration.Labels.{attempt_text}

-- `CHECKABLE_ATTEMPT_STATUSES`
abbrev pub is_checkable : AttemptStatus → Bool
is_checkable st = elem st (
    AttemptStatus.link_created ∷ AttemptStatus.pending ∷ AttemptStatus.unknown
    ∷ AttemptStatus.failed ∷ AttemptStatus.expired ∷ [])

-- The audit row of one check, with the status before it.
unfoldable pub record_check : ℕ → Actor → AttemptStatus → AttemptStatus → OutcomeCategory → Exec ⊤
unfolding record_audit
record_check k actor before after outcome =
    record_audit (
      entry actor ActionType.check_tara_status TargetType.payment_attempt k (attempt_text before)
        (attempt_text after) outcome)
    >> pure tt

-- `write_audit`, on the attempt as it stands
unfoldable pub write_audit : ℕ → Actor → AttemptStatus → OutcomeCategory → Exec ⊤
unfolding record_check
write_audit k actor before outcome = do
  a ← get_attempt k
  record_check k actor before a.status outcome

abbrev pub is_conflict : Error → Bool
is_conflict payment_id_conflict = true
is_conflict _ = false

abbrev pub is_unapplied : Error → Bool
is_unapplied duplicate_payment = true
is_unapplied invalid_transition = true
is_unapplied _ = false

-- What follows `apply_verified_success` and its `except` clauses.
unfoldable pub after_success : Services → ℕ → Actor → AttemptStatus → Result Bool → Exec ⊤
unfolding write_audit resolve_reported_events
after_success sv k actor before (ok newly) = do
  a ← get_attempt k
  if not (a.status == AttemptStatus.succeeded) then pure tt else do
    resolve_reported_events sv.env k
    i ← get_installment a.installment
    sv.lift_suspension i.order
after_success sv k actor before (err e) =
    if is_conflict e
    then (do
      write_audit k actor before OutcomeCategory.failed
      a ← get_attempt k
      if not (a.status == AttemptStatus.succeeded) then pure tt else do
        resolve_reported_events sv.env k
        i ← get_installment a.installment
        sv.lift_suspension i.order)
    else if is_unapplied e
    then write_audit k actor before OutcomeCategory.failed >> raise admin_action
    else raise e

-- What Tara's status, once it may be applied, leads to.
unfoldable pub apply_status :
    Services → ℕ → Actor → AttemptStatus → Verification → TaraStatus → Exec ⊤
unfolding after_success write_audit
apply_status sv k actor before v TaraStatus.success = do
  applied ← attempt (
      apply_verified_success sv.env (λ j newly. write_audit j actor before OutcomeCategory.success)
        k v.payment_id v.amount)
  after_success sv k actor before applied
apply_status sv k actor before v TaraStatus.failure =
    apply_verified_failure (λ j. write_audit j actor before OutcomeCategory.success) k
apply_status sv k actor before v TaraStatus.pending =
    write_audit k actor before OutcomeCategory.provider_non_final
apply_status sv k actor before v TaraStatus.unknown =
    write_audit k actor before OutcomeCategory.provider_non_final

abbrev pub is_malformed : EventFailure → Bool
is_malformed malformed = true
is_malformed _ = false

abbrev pub is_failure : EventFailure → Bool
is_failure none_failure = false
is_failure _ = true

-- What the verification's answer, or its exception, leads to.
unfoldable pub after_answer : Services → ℕ → Actor → AttemptStatus → Result Verification → Exec ⊤
unfolding apply_status record_check
after_answer sv k actor before (err e) =
    record_check k actor before before OutcomeCategory.provider_non_final
after_answer sv k actor before (ok v) =
    if is_malformed v.failure_category
    then record_check k actor before before OutcomeCategory.provider_non_final
    else if is_failure v.failure_category
    then record_check k actor before before OutcomeCategory.failed >> raise admin_action
    else apply_status sv k actor before v v.normalized

unfoldable pub after_client : Services → ℕ → Actor → PaymentAttempt → Result Client → Exec ⊤
unfolding after_answer record_check
after_client sv k actor a (err e) =
    record_check k actor a.status a.status OutcomeCategory.failed >> raise admin_action
after_client sv k actor a (ok client) = do
  answer ← gets (λ s. verify sv.env client a (candidate_payment_ids a none s))
  after_answer sv k actor a.status answer

-- `check_tara_status`
unfoldable pub check_tara_status : Services → ℕ → Actor → Exec ⊤
unfolding after_client record_check
check_tara_status sv k actor = do
  a ← get_attempt k
  if not (is_checkable a.status)
      then record_check k actor a.status a.status OutcomeCategory.rejected_invalid_state
        >> raise admin_action
      else after_client sv k actor a (get_client sv.config sv.connect)
