-- ===== src/Administration/Installments.antt =====
-- `OrderAdministrationService` of apps/payments/admin_services.py on installments:
-- `cancel_installment` and `waive_installment`.
use valuecrm.Base.{ℕ, ⊤, Bool, true, false, ◌||◌, none, ◌==◌, if◌then◌else◌}
use valuecrm.Settings.{Env}
use valuecrm.Model.{Installment}
use valuecrm.Model.Status.{InstallmentStatus, installment_status_eq}
use valuecrm.Model.Audit.{AdminAuditLog, ActionType, TargetType, OutcomeCategory}
use valuecrm.Audit.{Actor, entry, record_audit}
use valuecrm.Exec.{Exec, Result, ok, err, pure, raise, gets, atomic, attempt, ◌>>=◌, ◌>>◌}
use valuecrm.Transitions.{get_order, get_installment, installment_transition}
use valuecrm.Followups.{is_access_eligible, create_request_from_order}
use valuecrm.Credit.{update_order_status}
use valuecrm.Administration.{has_succeeded, is_invalid_transition, expire_attempts, report}
use valuecrm.Administration.Labels.{installment_text}

abbrev pub installment_entry :
    ActionType → ℕ → Actor → InstallmentStatus → InstallmentStatus → OutcomeCategory → AdminAuditLog
installment_entry action k actor before after outcome =
    entry actor action TargetType.installment k (installment_text before) (installment_text after)
      outcome

abbrev pub rejected : ActionType → ℕ → Actor → InstallmentStatus → Exec Bool
rejected action k actor before =
    record_audit
      (installment_entry action k actor before before OutcomeCategory.rejected_invalid_state)
    >> pure false

-- What follows the transition of the installment `k`, whose status was `before`; `recompute` is what
-- the action does with the order.
unfoldable pub after_move :
    ActionType → ℕ → Actor → InstallmentStatus → Exec ⊤ → Result Installment → Exec Bool
unfolding record_audit
after_move action k actor before recompute (err e) =
    if is_invalid_transition e then rejected action k actor before else raise e
after_move action k actor before recompute (ok i) = do
  recompute
  record_audit (installment_entry action k actor before i.status OutcomeCategory.success)
  pure true

-- The shape that the two actions share: the installment `k` moves to `target`.
unfoldable pub close : ActionType → InstallmentStatus → (Installment → Exec ⊤) → ℕ → Actor → Exec ⊤
unfolding after_move expire_attempts report
close action target recompute k actor = do
  done ← atomic do
    i ← get_installment k
    o ← get_order i.order
    if i.status == target
        then record_audit (
            installment_entry action k actor i.status i.status
              OutcomeCategory.no_op_already_in_state)
          >> pure true
        else do
          succeeded ← gets (has_succeeded k)
          if i.status == InstallmentStatus.paid || succeeded
              then rejected action k actor i.status
              else do
                expire_attempts k
                moved ← attempt (installment_transition k target none)
                after_move action k actor i.status (recompute i) moved
  report done

-- `cancel_installment`
unfoldable pub cancel_installment : ℕ → Actor → Exec ⊤
unfolding close
cancel_installment k actor =
    close ActionType.cancel_installment InstallmentStatus.cancelled (λ i. pure tt) k actor

-- `_update_order_status` and what a newly eligible order is due
unfoldable pub recompute_order : Env → Installment → Exec ⊤
unfolding update_order_status create_request_from_order
recompute_order env i = do
  before ← get_order i.order
  update_order_status env i.order before.status
  o ← get_order i.order
  eligible ← gets (is_access_eligible i.order o)
  if eligible then (create_request_from_order i.order >> pure tt) else pure tt

-- `waive_installment`
unfoldable pub waive_installment : Env → ℕ → Actor → Exec ⊤
unfolding close recompute_order
waive_installment env k actor =
    close ActionType.waive_installment InstallmentStatus.waived (recompute_order env) k actor
