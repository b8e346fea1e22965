-- ===== src/Administration/Orders.antt =====
-- `OrderAdministrationService` of apps/payments/admin_services.py on orders: `cancel_order` and
-- `apply_manual_disposition`.
use valuecrm.Base.{ℕ, ⊤, Bool, true, false, String, Option, none, ◌==◌, string_eq, if◌then◌else◌}
use valuecrm.Table.{select}
use valuecrm.Model.{Order, Installment, ManualDisposition}
use valuecrm.Model.Status.{OrderStatus, InstallmentStatus, order_status_eq}
use valuecrm.Model.Audit.{AdminAuditLog, ActionType, TargetType, OutcomeCategory}
use valuecrm.Audit.{Actor, entry, record_audit}
use valuecrm.Exec.{
  Exec, Result, ok, err, pure, raise, gets, atomic, attempt, for_each, when, ◌>>=◌, ◌>>◌, maybe,
}
use valuecrm.Transitions.{get_order, update_order, order_transition, installment_transition}
use valuecrm.Followups.{of_order}
use valuecrm.Administration.{is_cancellable, is_invalid_transition, expire_attempts, report}
use valuecrm.Administration.Labels.{order_text, disposition_text}

abbrev pub order_entry : ActionType → ℕ → Actor → String → String → OutcomeCategory → AdminAuditLog
order_entry action k actor before after outcome =
    entry actor action TargetType.order k before after outcome

-- The body of the loop over the installments of a cancelled order.
unfoldable pub close_installment : ℕ × Installment → Exec ⊤
unfolding expire_attempts
close_installment (j, i) =
    when (is_cancellable i.status)
      (expire_attempts j >> installment_transition j InstallmentStatus.cancelled none >> pure tt)

-- What follows the transition of the order `k`, whose status was `before`.
unfoldable pub after_cancel : ℕ → Actor → OrderStatus → Result Order → Exec Bool
unfolding close_installment record_audit
after_cancel k actor before (err e) =
    if is_invalid_transition e
    then record_audit (
        order_entry ActionType.cancel_order k actor (order_text before) (order_text before)
          OutcomeCategory.rejected_invalid_state)
      >> pure false
    else raise e
after_cancel k actor before (ok o) = do
  rows ← gets (λ s. select (of_order k) s.installments)
  for_each rows close_installment
  record_audit (
      order_entry ActionType.cancel_order k actor (order_text before) (order_text o.status)
        OutcomeCategory.success)
  pure true

-- `cancel_order`
unfoldable pub cancel_order : ℕ → Actor → Exec ⊤
unfolding after_cancel report
cancel_order k actor = do
  done ← atomic do
    o ← get_order k
    if o.status == OrderStatus.cancelled
        then record_audit (
            order_entry ActionType.cancel_order k actor (order_text o.status) (order_text o.status)
              OutcomeCategory.no_op_already_in_state)
          >> pure true
        else do
          moved ← attempt (order_transition k OrderStatus.cancelled)
          after_cancel k actor o.status moved
  report done

-- What `apply_manual_disposition` does with one of the known choices.
unfoldable pub dispose : ℕ → Actor → Order → ManualDisposition → Exec Bool
unfolding update_order record_audit
dispose k actor o disposition =
    let before = disposition_text o.manual_disposition in
    let after = disposition_text disposition in
    if before == after
    then record_audit (
        order_entry ActionType.apply_manual_disposition k actor before after
          OutcomeCategory.no_op_already_in_state)
      >> pure true
    else do
      now ← gets (λ s. s.clock)
      update_order k (λ q. record q { manual_disposition = disposition; updated_at = now })
      record_audit (
          order_entry ActionType.apply_manual_disposition k actor before after
            OutcomeCategory.success)
      pure true

-- `apply_manual_disposition`; `none` is a text that is no choice
unfoldable pub apply_manual_disposition : ℕ → Option ManualDisposition → Actor → Exec ⊤
unfolding dispose report
apply_manual_disposition k disposition actor = do
  done ← atomic do
    o ← get_order k
    maybe disposition
        (record_audit (
            order_entry ActionType.apply_manual_disposition k actor
              (disposition_text o.manual_disposition) (disposition_text o.manual_disposition)
              OutcomeCategory.rejected_invalid_state)
          >> pure false)
        (dispose k actor o)
  report done
