-- ===== src/History/Webhook.antt =====
-- `process_webhook` keeps the history, on every path.
use valuecrm.Base.{ℕ, String, Option}
use valuecrm.Model.{Db, PaymentAttempt, TaraWebhookEvent}
use valuecrm.Exec.{
  Error, Result, ok, err, order_creation, invalid_transition, webhook_rejected, checkout, integrity,
  does_not_exist, tara, value_error, type_error, provisioning, admin_action, click_funnels,
  TaraError, pure,
}
use valuecrm.Exec.Preserves.{Preserves, Preserves-pure, Preserves-if}
use valuecrm.Settings.{Env}
use valuecrm.Tara.{TaraStatus}
use valuecrm.Verification.{Verification}
use valuecrm.Credit.{nothing_applied, apply_verified_success, apply_verified_failure}
use valuecrm.History.{History}
use valuecrm.History.Writes.{history_rules, write_events-History}
use valuecrm.History.Credit.{success-History, failure-History}
use valuecrm.Webhook.{Services, Payload, resolve_reported_events, refused_credit}
use valuecrm.Webhook.Process.{
  credit_payment, not_verified, act, settle, verify_and_apply, process_new, process_webhook,
  is_unusable,
}

module _ {s₀ : Db} where
  pub plain_success-History :
      (env : Env) (k : ℕ) (p : Option String) (v : Option ℕ)
      → Preserves (History s₀) (apply_verified_success env nothing_applied k p v)
  plain_success-History env k p v =
      success-History env nothing_applied k p v (λ s j newly. Preserves-pure tt)

  pub plain_failure-History :
      (k : ℕ) → Preserves (History s₀) (apply_verified_failure (λ _. pure tt) k)
  plain_failure-History k = failure-History (λ _. pure tt) k (λ j. Preserves-pure tt)

  pub resolve-History : (env : Env) (k : ℕ) → Preserves (History s₀) (resolve_reported_events env k)
  unfolding resolve_reported_events
  resolve-History env k = search history_rules depth 12

  refused_credit-History :
      (e : TaraWebhookEvent) (x : Error) → Preserves (History s₀) (refused_credit e x)
  refused_credit-History e Error.payment_id_conflict = search history_rules
  refused_credit-History e Error.duplicate_payment = search history_rules
  refused_credit-History e invalid_transition = search history_rules
  refused_credit-History e (tara x) = search history_rules
  refused_credit-History e x = search history_rules

  not_verified-History :
      (k : ℕ) (e : TaraWebhookEvent) (x : TaraError) → Preserves (History s₀) (not_verified k e x)
  not_verified-History k e TaraError.configuration = search history_rules
  not_verified-History k e TaraError.credential = search history_rules
  not_verified-History k e TaraError.timeout = search history_rules
  not_verified-History k e TaraError.connection = search history_rules
  not_verified-History k e TaraError.server = search history_rules
  not_verified-History k e TaraError.client = search history_rules
  not_verified-History k e TaraError.malformed = search history_rules
  not_verified-History k e TaraError.invalid_request = search history_rules
  not_verified-History k e TaraError.api = search history_rules
  not_verified-History k e TaraError.auth = search history_rules
  not_verified-History k e TaraError.business = search history_rules
  not_verified-History k e TaraError.unsupported = search history_rules

module _ (sv : Services) (keeps : (s : Db) (k : ℕ) → Preserves (History s) (sv.lift_suspension k))
    {s₀ : Db} where
  credit_payment-History :
      (j : ℕ) (a : PaymentAttempt) (payload : Payload) (v : Verification) (e : TaraWebhookEvent)
      → Preserves (History s₀) (credit_payment sv j a payload v e)
  unfolding credit_payment
  credit_payment-History j a payload v e =
      search (history_rules, plain_success-History, resolve-History) depth 14

  settle-History :
      (k : ℕ) (e : TaraWebhookEvent) (j : ℕ) (a : PaymentAttempt) (payload : Payload)
      (v : Verification) (status : TaraStatus)
      → Preserves (History s₀) (settle sv k e j a payload v status)
  unfolding settle
  settle-History k e j a payload v TaraStatus.success =
      search (history_rules, credit_payment-History, refused_credit-History) depth 14
  settle-History k e j a payload v TaraStatus.failure =
      search (history_rules, plain_failure-History) depth 12
  settle-History k e j a payload v TaraStatus.pending = search history_rules
  settle-History k e j a payload v TaraStatus.unknown = search history_rules

  act-History :
      (k : ℕ) (e : TaraWebhookEvent) (j : ℕ) (a : PaymentAttempt) (payload : Payload)
      (r : Result Verification)
      → Preserves (History s₀) (act sv k e j a payload r)
  unfolding act
  act-History k e j a payload (err (tara x)) = not_verified-History k e x
  act-History k e j a payload (err order_creation) = search history_rules
  act-History k e j a payload (err invalid_transition) = search history_rules
  act-History k e j a payload (err Error.payment_id_conflict) = search history_rules
  act-History k e j a payload (err Error.duplicate_payment) = search history_rules
  act-History k e j a payload (err webhook_rejected) = search history_rules
  act-History k e j a payload (err checkout) = search history_rules
  act-History k e j a payload (err integrity) = search history_rules
  act-History k e j a payload (err does_not_exist) = search history_rules
  act-History k e j a payload (err value_error) = search history_rules
  act-History k e j a payload (err type_error) = search history_rules
  act-History k e j a payload (err provisioning) = search history_rules
  act-History k e j a payload (err admin_action) = search history_rules
  act-History k e j a payload (err (click_funnels c)) = search history_rules
  act-History k e j a payload (ok v) =
      Preserves-if (is_unusable v.failure_category) _ _ (write_events-History _) (
        settle-History k (record e { raw_provider_status = v.raw_status }) j a payload v
          v.normalized)

  verify_and_apply-History :
      (k : ℕ) (e : TaraWebhookEvent) (j : ℕ) (a : PaymentAttempt) (payload : Payload)
      → Preserves (History s₀) (verify_and_apply sv k e j a payload)
  unfolding verify_and_apply
  verify_and_apply-History k e j a payload = search (history_rules, act-History) depth 12

  process_new-History :
      (k : ℕ) (e : TaraWebhookEvent) (payload : Payload)
      → Preserves (History s₀) (process_new sv k e payload)
  unfolding process_new
  process_new-History k e payload = search (history_rules, verify_and_apply-History) depth 12

  -- If lifting a suspension keeps the history, `process_webhook` does too, for every body and
  -- every answer of Tara, whether it returns or raises: that is, no row of orders, installments or
  -- attempts is lost, frozen columns stay, statuses move along their tables, and paid installments
  -- and recorded payment ids stay as they are.
  pub webhook-History : (raw_body : String) → Preserves (History s₀) (process_webhook sv raw_body)
  unfolding process_webhook
  webhook-History raw_body = search (history_rules, process_new-History) depth 12
