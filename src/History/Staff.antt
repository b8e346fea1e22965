-- ===== src/History/Staff.antt =====
-- What staff do keeps the history of orders, installments and attempts.
use valuecrm.Base.{ℕ, ⊤, Bool, true, false, String, Option, string_eq}
use valuecrm.Settings.{Env}
use valuecrm.Model.{Db, Order, Installment, PaymentAttempt, TaraWebhookEvent, ProcessingStatus}
use valuecrm.Model.Status.{OrderStatus, InstallmentStatus, AttemptStatus}
use valuecrm.Model.Audit.{AdminAuditLog, ActionType, OutcomeCategory}
use valuecrm.Exec.{pure, Exec, Result, ok, err}
use valuecrm.Exec.Preserves.{Preserves, Preserves-bind, Preserves-pure}
use valuecrm.Audit.{Actor, record_audit}
use valuecrm.Tara.{TaraStatus, Client}
use valuecrm.Verification.{Verification}
use valuecrm.Webhook.{Services}
use valuecrm.Administration.{expire_attempt, expire_attempts, report}
use valuecrm.Administration.Orders.{close_installment, after_cancel, cancel_order}
use valuecrm.Administration.Installments.{
  after_move, close, cancel_installment, recompute_order, waive_installment,
}
use valuecrm.Administration.Attempts.{
  record_check, write_audit, after_success, apply_status, after_answer, after_client,
  check_tara_status,
}
use valuecrm.Administration.Events.{
  create_pending, attempt_to_credit, after_attribution, record_attribution, attribute_webhook_event,
  retry_confirmation,
}
use valuecrm.Credit.{apply_verified_success}
use valuecrm.History.{History}
use valuecrm.History.Writes.{history_rules}
use valuecrm.History.Credit.{
  get_order-History, get_installment-History, get_attempt-History, update_order_status-History,
  success-History, failure-History,
}
use valuecrm.History.Followups.{create_request-History}
use valuecrm.History.Webhook.{resolve-History}
use valuecrm.History.Checkout.{add_attempt-History}

module _ {s₀ : Db} where
  pub record_audit-History : (row : AdminAuditLog) → Preserves (History s₀) (record_audit row)
  unfolding record_audit
  record_audit-History row = search history_rules depth 12

  pub report-History : (b : Bool) → Preserves (History s₀) (report b)
  unfolding report
  report-History true = search history_rules
  report-History false = search history_rules

  expire_attempt-History : (e : ℕ × PaymentAttempt) → Preserves (History s₀) (expire_attempt e)
  expire_attempt-History (m, a) = search history_rules depth 12

  expire_attempts-History : (i : ℕ) → Preserves (History s₀) (expire_attempts i)
  unfolding expire_attempts
  expire_attempts-History i = search (history_rules, expire_attempt-History) depth 12

ruleset staff_rules = (
  history_rules, record_audit-History, report-History, expire_attempts-History, get_order-History,
  get_installment-History, get_attempt-History,
)

module _ {s₀ : Db} where
  close_installment-History : (e : ℕ × Installment) → Preserves (History s₀) (close_installment e)
  unfolding close_installment
  close_installment-History (j, i) = search staff_rules depth 12

  after_cancel-History :
      (k : ℕ) (actor : Actor) (before : OrderStatus) (r : Result Order)
      → Preserves (History s₀) (after_cancel k actor before r)
  unfolding after_cancel
  after_cancel-History k actor before (ok o) =
      search (staff_rules, close_installment-History) depth 12
  after_cancel-History k actor before (err e) = search staff_rules depth 12

  pub cancel_order-History : (k : ℕ) (actor : Actor) → Preserves (History s₀) (cancel_order k actor)
  unfolding cancel_order
  cancel_order-History k actor = search (staff_rules, after_cancel-History) depth 14

  after_move-History :
      (action : ActionType) (k : ℕ) (actor : Actor) (before : InstallmentStatus)
      (recompute : Exec ⊤) (r : Result Installment)
      → Preserves (History s₀) recompute
      → Preserves (History s₀) (after_move action k actor before recompute r)
  unfolding after_move
  after_move-History action k actor before recompute (ok i) keeps =
      Preserves-bind recompute _ keeps (λ _. search staff_rules depth 12)
  after_move-History action k actor before recompute (err e) keeps = search staff_rules depth 12

  close-History :
      (action : ActionType) (target : InstallmentStatus) (recompute : Installment → Exec ⊤) (k : ℕ)
      (actor : Actor)
      → ((i : Installment) → Preserves (History s₀) (recompute i))
      → Preserves (History s₀) (close action target recompute k actor)
  unfolding close
  close-History action target recompute k actor keeps =
      search (staff_rules, after_move-History, keeps) depth 18

  pub cancel_installment-History :
      (k : ℕ) (actor : Actor) → Preserves (History s₀) (cancel_installment k actor)
  unfolding cancel_installment
  cancel_installment-History k actor =
      close-History ActionType.cancel_installment InstallmentStatus.cancelled (λ i. pure tt) k actor
        (λ i. Preserves-pure tt)

  recompute-History : (env : Env) (i : Installment) → Preserves (History s₀) (recompute_order env i)
  unfolding recompute_order
  recompute-History env i =
      search (staff_rules, update_order_status-History, create_request-History) depth 14

  pub waive_installment-History :
      (env : Env) (k : ℕ) (actor : Actor) → Preserves (History s₀) (waive_installment env k actor)
  unfolding waive_installment
  waive_installment-History env k actor =
      close-History ActionType.waive_installment InstallmentStatus.waived (recompute_order env) k
        actor (recompute-History env)

module _ {s₀ : Db} where
  record_check-History :
      (k : ℕ) (actor : Actor) (before after : AttemptStatus) (outcome : OutcomeCategory)
      → Preserves (History s₀) (record_check k actor before after outcome)
  unfolding record_check
  record_check-History k actor before after outcome = search staff_rules depth 12

  write_audit-History :
      (k : ℕ) (actor : Actor) (before : AttemptStatus) (outcome : OutcomeCategory)
      → Preserves (History s₀) (write_audit k actor before outcome)
  unfolding write_audit
  write_audit-History k actor before outcome = search (staff_rules, record_check-History) depth 12

module _ (sv : Services) (keeps : (s : Db) (k : ℕ) → Preserves (History s) (sv.lift_suspension k))
    {s₀ : Db} where
  after_success-History :
      (k : ℕ) (actor : Actor) (before : AttemptStatus) (r : Result Bool)
      → Preserves (History s₀) (after_success sv k actor before r)
  unfolding after_success
  after_success-History k actor before (ok newly) =
      search (staff_rules, resolve-History, keeps) depth 14
  after_success-History k actor before (err e) =
      search (staff_rules, write_audit-History, resolve-History, keeps) depth 16

  checked-History :
      (k : ℕ) (actor : Actor) (before : AttemptStatus) (v : Verification)
      → Preserves (History s₀) (
          apply_verified_success sv.env
            (λ j newly. write_audit j actor before OutcomeCategory.success)
            k
            v.payment_id
            v.amount)
  checked-History k actor before v =
      success-History sv.env _ k v.payment_id v.amount
        (λ s j newly. write_audit-History j actor before OutcomeCategory.success)

  apply_status-History :
      (k : ℕ) (actor : Actor) (before : AttemptStatus) (v : Verification) (status : TaraStatus)
      → Preserves (History s₀) (apply_status sv k actor before v status)
  unfolding apply_status
  apply_status-History k actor before v TaraStatus.success =
      search (staff_rules, checked-History, after_success-History) depth 12
  apply_status-History k actor before v TaraStatus.failure =
      failure-History _ k (λ j. write_audit-History j actor before OutcomeCategory.success)
  apply_status-History k actor before v TaraStatus.pending =
      write_audit-History k actor before OutcomeCategory.provider_non_final
  apply_status-History k actor before v TaraStatus.unknown =
      write_audit-History k actor before OutcomeCategory.provider_non_final

  after_answer-History :
      (k : ℕ) (actor : Actor) (before : AttemptStatus) (r : Result Verification)
      → Preserves (History s₀) (after_answer sv k actor before r)
  unfolding after_answer
  after_answer-History k actor before (ok v) =
      search (staff_rules, record_check-History, apply_status-History) depth 12
  after_answer-History k actor before (err e) = record_check-History _ _ _ _ _

  after_client-History :
      (k : ℕ) (actor : Actor) (a : PaymentAttempt) (r : Result Client)
      → Preserves (History s₀) (after_client sv k actor a r)
  unfolding after_client
  after_client-History k actor a (ok client) = search (staff_rules, after_answer-History) depth 12
  after_client-History k actor a (err e) = search (staff_rules, record_check-History) depth 12

  pub check_tara_status-History :
      (k : ℕ) (actor : Actor) → Preserves (History s₀) (check_tara_status sv k actor)
  unfolding check_tara_status
  check_tara_status-History k actor =
      search (staff_rules, record_check-History, after_client-History) depth 12

module _ {s₀ : Db} where
  create_pending-History :
      (new_product_id : Db → String) (i : ℕ) (row : Installment)
      → Preserves (History s₀) (create_pending new_product_id i row)
  unfolding create_pending
  create_pending-History new_product_id i row = search (staff_rules, add_attempt-History) depth 14

  attempt_to_credit-History :
      (new_product_id : Db → String) (i : ℕ) (row : Installment)
      → Preserves (History s₀) (attempt_to_credit new_product_id i row)
  unfolding attempt_to_credit
  attempt_to_credit-History new_product_id i row =
      search (staff_rules, create_pending-History) depth 12

  after_attribution-History :
      (k : ℕ) (actor : Actor) (e : TaraWebhookEvent) (m : ℕ) (r : Result Bool)
      → Preserves (History s₀) (after_attribution k actor e m r)
  unfolding after_attribution
  after_attribution-History k actor e m (ok newly) = search staff_rules depth 12
  after_attribution-History k actor e m (err x) = search staff_rules depth 12

  record_attribution-History :
      (k : ℕ) (actor : Actor) (before : ProcessingStatus) (m : ℕ) (newly : Bool)
      → Preserves (History s₀) (record_attribution k actor before m newly)
  unfolding record_attribution
  record_attribution-History k actor before m newly = search staff_rules depth 12

module _ {s₀ : Db} where
  attributed-History :
      (env : Env) (k : ℕ) (actor : Actor) (before : ProcessingStatus) (m : ℕ) (p : Option String)
      (v : Option ℕ)
      → Preserves
          (History s₀)
          (apply_verified_success env (record_attribution k actor before) m p v)
  attributed-History env k actor before m p v =
      success-History env _ m p v (λ s j newly. record_attribution-History k actor before j newly)

  pub attribute-History :
      (env : Env) (new_product_id : Db → String) (k i amount : ℕ) (actor : Actor)
      → Preserves (History s₀) (attribute_webhook_event env new_product_id k i amount actor)
  unfolding attribute_webhook_event
  attribute-History env new_product_id k i amount actor =
      search (staff_rules, attempt_to_credit-History, attributed-History, after_attribution-History)
        depth 18

  pub retry_confirmation-History :
      (env : Env) (k : ℕ) (actor : Actor) → Preserves (History s₀) (retry_confirmation env k actor)
  unfolding retry_confirmation
  retry_confirmation-History env k actor = search staff_rules depth 18
