-- ===== src/Administration/Events.antt =====
-- `ReconciliationAdministrationService` and `PaymentConfirmationAdministrationService` of
-- apps/payments/admin_services.py: the attribution of a payment that no attempt explains, and the
-- retry of a confirmation.
use Prim.Native.String.{◌++◌ as append}
use valuecrm.Base.{
  ℕ, ⊤, Bool, true, false, not, ◌||◌, String, Option, none, some, [], ◌∷◌, ◌==◌, nat_eq, string_eq,
  elem, ltb, if◌then◌else◌,
}
use valuecrm.Table.{get, set, add, fresh, select, first, exists}
use valuecrm.Settings.{Env}
use valuecrm.Model.{
  Db, Installment, PaymentAttempt, TaraWebhookEvent, PaymentConfirmation, ProcessingStatus,
  VerificationMode, VerificationResult, EventFailure, DeliveryFailure,
}
use valuecrm.Model.Status.{
  AttemptStatus, ConfirmationStatus, installment_status_eq, attempt_status_eq,
  confirmation_status_eq,
}
use valuecrm.Model.Audit.{AdminAuditLog, ActionType, TargetType, OutcomeCategory}
use valuecrm.Audit.{Actor, entry, record_audit}
use valuecrm.Exec.{
  Exec, Result, ok, err, does_not_exist, integrity, pure, raise, gets, or_raise, atomic, attempt,
  modify, write_events, write_confirmations, ◌>>=◌, ◌>>◌, maybe,
}
use valuecrm.Transitions.{get_installment, get_order, conflicts}
use valuecrm.Credit.{is_closed, apply_verified_success}
use valuecrm.Checkout.{new_attempt}
use valuecrm.Administration.{is_non_terminal, of_installment, report}
use valuecrm.Administration.Attempts.{is_conflict}
use valuecrm.Administration.Labels.{event_text, confirmation_text, delivery_text}

abbrev pub event_entry :
    ℕ → Actor → ProcessingStatus → ProcessingStatus → OutcomeCategory → AdminAuditLog
event_entry k actor before after outcome =
    entry actor ActionType.attribute_payment TargetType.tara_webhook_event k (event_text before)
      (event_text after) outcome

abbrev pub is_uncorrelated : ProcessingStatus → Bool
is_uncorrelated ProcessingStatus.uncorrelated = true
is_uncorrelated _ = false

-- The conditions under which an attribution is refused.
abbrev pub is_refused : TaraWebhookEvent → Installment → ℕ → Bool
is_refused e i confirmed_amount =
    not (is_uncorrelated e.processing_status)
    || is_closed i.status
    || ltb confirmed_amount i.expected_amount

abbrev pub open_attempt : ℕ → ℕ → PaymentAttempt → Bool
open_attempt i m a = if of_installment i m a then is_non_terminal a.status else false

-- `PaymentAttempt.objects.create(…)`, under the unique indexes
unfoldable pub create_pending : (Db → String) → ℕ → Installment → Exec ℕ
create_pending new_product_id i row = do
  a ← gets (λ s.
      let a : PaymentAttempt = new_attempt i row (new_product_id s) s.clock in
      record a { status = AttemptStatus.pending })
  m ← gets (λ s. fresh s.attempts)
  clash ← gets (λ s. exists (conflicts m a) s.attempts)
  if clash
      then raise integrity
      else do modify (λ s. record s { attempts = add a s.attempts }); pure m

-- The open attempt of the installment, or a new one.
unfoldable pub attempt_to_credit : (Db → String) → ℕ → Installment → Exec ℕ
unfolding create_pending
attempt_to_credit new_product_id i row = do
  found ← gets (λ s. first (select (open_attempt i) s.attempts))
  maybe found (create_pending new_product_id i row) (λ a. pure a.0)

-- `event.tara_payment_id or None`
abbrev pub payment_id_of : TaraWebhookEvent → Option String
payment_id_of e = if e.tara_payment_id == "" then none else some e.tara_payment_id

-- The columns that a successful attribution sets on the event.
abbrev pub attributed : ℕ → ℕ → TaraWebhookEvent → TaraWebhookEvent
attributed m now e = record e {
  processing_status = ProcessingStatus.processed;
  verification_mode = VerificationMode.server_to_server;
  verification_result = VerificationResult.success;
  failure_category = EventFailure.none_failure;
  payment_attempt = some m;
  processed_at = some now;
}

-- What follows `apply_verified_success` on the attempt `m`.
unfoldable pub after_attribution : ℕ → Actor → TaraWebhookEvent → ℕ → Result Bool → Exec Bool
unfolding record_audit
after_attribution k actor e m (ok newly) = do
  write_events (λ s. set k (attributed m s.clock e) s.events)
  pure true
after_attribution k actor e m (err x) =
    if is_conflict x
    then record_audit
        (event_entry k actor e.processing_status e.processing_status OutcomeCategory.failed)
      >> pure false
    else raise x

unfoldable pub record_attribution : ℕ → Actor → ProcessingStatus → ℕ → Bool → Exec ⊤
unfolding record_audit
record_attribution k actor before m newly =
    record_audit (event_entry k actor before ProcessingStatus.processed OutcomeCategory.success)
    >> pure tt

-- `attribute_webhook_event`
unfoldable pub attribute_webhook_event : Env → (Db → String) → ℕ → ℕ → ℕ → Actor → Exec ⊤
unfolding attempt_to_credit after_attribution record_attribution record_audit report
attribute_webhook_event env new_product_id k i confirmed_amount actor = do
  done ← atomic do
    found ← gets (λ s. get k s.events)
    e ← or_raise found does_not_exist
    row ← get_installment i
    o ← get_order row.order
    if is_refused e row confirmed_amount
        then record_audit (
            event_entry k actor e.processing_status e.processing_status
              OutcomeCategory.rejected_invalid_state)
          >> pure false
        else do
          m ← attempt_to_credit new_product_id i row
          applied ← attempt (
              apply_verified_success env (record_attribution k actor e.processing_status) m
                (payment_id_of e) (some confirmed_amount))
          after_attribution k actor e m applied
  report done

-- `previous_state_label`
abbrev pub confirmation_label : Env → PaymentConfirmation → String
confirmation_label env c = append (confirmation_text c.status) (
    append " (attempts=" (
      append (env.str c.attempt_count)
        (append ", category=" (append (delivery_text c.last_failure_category) ")"))))

abbrev pub can_be_resent : ConfirmationStatus → Bool
can_be_resent st = elem st (ConfirmationStatus.failed ∷ ConfirmationStatus.manual_review ∷ [])

abbrev pub confirmation_entry :
    Env → ℕ → Actor → PaymentConfirmation → ConfirmationStatus → OutcomeCategory → AdminAuditLog
confirmation_entry env k actor c after outcome =
    entry actor ActionType.retry_confirmation TargetType.payment_confirmation k
      (confirmation_label env c) (confirmation_text after) outcome

-- The columns of a confirmation that staff put back.
abbrev pub resendable : String → PaymentConfirmation → PaymentConfirmation
resendable recipient c = record c {
  recipient_snapshot = recipient;
  status = ConfirmationStatus.pending;
  attempt_count = 0;
  next_attempt_at = none;
  last_failure_category = DeliveryFailure.no_failure;
}

-- `retry_confirmation`
unfoldable pub retry_confirmation : Env → ℕ → Actor → Exec ⊤
unfolding record_audit report
retry_confirmation env k actor = do
  done ← atomic do
    found ← gets (λ s. get k s.confirmations)
    c ← or_raise found does_not_exist
    let reject =
        record_audit
          (confirmation_entry env k actor c c.status OutcomeCategory.rejected_invalid_state)
        >> pure false
    if c.status == ConfirmationStatus.sent
        then reject
        else if not (can_be_resent c.status)
        then reject
        else do
          customer ← gets (λ s. get c.contact s.contacts)
          contact ← or_raise customer does_not_exist
          if contact.email == "" then reject else do
            now ← gets (λ s. s.clock)
            write_confirmations (λ s.
                set k (record (resendable contact.email c) { updated_at = now }) s.confirmations)
            record_audit (
                confirmation_entry env k actor c ConfirmationStatus.pending OutcomeCategory.success)
            pure true
  report done
