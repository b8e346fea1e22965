-- ===== src/Webhook/Trigger.antt =====
-- A webhook is a trigger only: money moves on what Tara answers, not on what the body says.
use valuecrm.Base.{ℕ, ◌≡◌, refl, ap, ◌≢◌, Option, String}
use valuecrm.Table.{Table}
use valuecrm.Model.{Db, PaymentAttempt, TaraWebhookEvent}
use valuecrm.Exec.{
  Error, Result, ok, err, order_creation, invalid_transition, webhook_rejected, checkout, integrity,
  does_not_exist, tara, value_error, type_error, provisioning, admin_action, click_funnels,
  TaraError, write_events, gets, ◌>>=◌,
}
use valuecrm.Exec.Preserves.{Preserves, preserves_rules, Preserves-if}
use valuecrm.Tara.{TaraStatus}
use valuecrm.Verification.{Verification}
use valuecrm.Webhook.{Services, Payload}
use valuecrm.Webhook.Process.{
  not_verified, ask, act, settle, verify_and_apply, process_new, process_webhook, is_unusable,
}

-- Everything but the events is as it was, in every table.
pub record SameMoney (s t : Db) : Type 0 where
  pub same : t ≡ record s { events = t.events }

SameMoney-refl : (s : Db) → SameMoney s s
SameMoney-refl s = record { same = refl }

-- Tara's answer decides nothing.
pub record IsOpen (v : Verification) : Type 0 where
  pub no_success : v.normalized ≢ TaraStatus.success
  pub no_failure : v.normalized ≢ TaraStatus.failure

module _ {s₀ : Db} where
  write_events-SameMoney :
      (f : Db → Table TaraWebhookEvent) → Preserves (SameMoney s₀) (write_events f)
  unfolding write_events
  write_events-SameMoney f = record {
    after = λ s h. record { same = ap (λ (u : Db). record u { events = f s }) h.same };
  }

  not_verified-SameMoney :
      (k : ℕ) (e : TaraWebhookEvent) (x : TaraError) → Preserves (SameMoney s₀) (not_verified k e x)
  not_verified-SameMoney k e TaraError.unsupported = search preserves_rules
  not_verified-SameMoney k e TaraError.invalid_request = search preserves_rules
  not_verified-SameMoney k e TaraError.api = search preserves_rules
  not_verified-SameMoney k e TaraError.auth = search preserves_rules
  not_verified-SameMoney k e TaraError.business = search preserves_rules
  not_verified-SameMoney k e _ = write_events-SameMoney _

  module _ (sv : Services) (k j : ℕ) (a : PaymentAttempt) (payload : Payload) where
    settle-SameMoney :
        (e : TaraWebhookEvent) (v : Verification) (status : TaraStatus)
        → status ≢ TaraStatus.success
        → status ≢ TaraStatus.failure
        → Preserves (SameMoney s₀) (settle sv k e j a payload v status)
    unfolding settle
    settle-SameMoney e v TaraStatus.success ns nf = absurd (ns refl)
    settle-SameMoney e v TaraStatus.failure ns nf = absurd (nf refl)
    settle-SameMoney e v TaraStatus.pending ns nf = search (preserves_rules, write_events-SameMoney)
    settle-SameMoney e v TaraStatus.unknown ns nf = search (preserves_rules, write_events-SameMoney)

    act-SameMoney :
        (e : TaraWebhookEvent) (r : Result Verification)
        → ((v : Verification) → r ≡ ok v → IsOpen v)
        → Preserves (SameMoney s₀) (act sv k e j a payload r)
    unfolding act
    act-SameMoney e (err (tara x)) opens = not_verified-SameMoney k e x
    act-SameMoney e (err order_creation) opens = search preserves_rules
    act-SameMoney e (err invalid_transition) opens = search preserves_rules
    act-SameMoney e (err Error.payment_id_conflict) opens = search preserves_rules
    act-SameMoney e (err Error.duplicate_payment) opens = search preserves_rules
    act-SameMoney e (err webhook_rejected) opens = search preserves_rules
    act-SameMoney e (err checkout) opens = search preserves_rules
    act-SameMoney e (err integrity) opens = search preserves_rules
    act-SameMoney e (err does_not_exist) opens = search preserves_rules
    act-SameMoney e (err type_error) opens = search preserves_rules
    act-SameMoney e (err value_error) opens = search preserves_rules
    act-SameMoney e (err provisioning) opens = search preserves_rules
    act-SameMoney e (err admin_action) opens = search preserves_rules
    act-SameMoney e (err (click_funnels c)) opens = search preserves_rules
    act-SameMoney e (ok v) opens =
        let o : IsOpen v = opens v refl in
        Preserves-if (is_unusable v.failure_category) _ _ (write_events-SameMoney _) (
          settle-SameMoney (record e { raw_provider_status = v.raw_status }) v v.normalized
            o.no_success o.no_failure)

  module _ (sv : Services)
      (opens : (a : PaymentAttempt) (p : Option String) (s : Db) (v : Verification)
        → ask sv a p s ≡ ok v
        → IsOpen v) where
    verify_and_apply-SameMoney :
        (k : ℕ) (e : TaraWebhookEvent) (j : ℕ) (a : PaymentAttempt) (payload : Payload)
        → Preserves (SameMoney s₀) (verify_and_apply sv k e j a payload)
    unfolding verify_and_apply gets ◌>>=◌
    verify_and_apply-SameMoney k e j a payload = record {
      after = λ s h.
          (act-SameMoney sv k j a payload _ (ask sv a payload.payment_id s)
              (opens a payload.payment_id s)).after
            s h;
    }

    process_new-SameMoney :
        (k : ℕ) (e : TaraWebhookEvent) (payload : Payload)
        → Preserves (SameMoney s₀) (process_new sv k e payload)
    unfolding process_new
    process_new-SameMoney k e payload =
        search (preserves_rules, write_events-SameMoney, verify_and_apply-SameMoney) depth 12

    process_webhook-SameMoney :
        (raw_body : String) → Preserves (SameMoney s₀) (process_webhook sv raw_body)
    unfolding process_webhook
    process_webhook-SameMoney raw_body =
        search (preserves_rules, write_events-SameMoney, process_new-SameMoney) depth 12

-- While no lookup at Tara says that a payment succeeded or failed, a delivered webhook, whatever its
-- body claims and however its handling ends, changes no table of the database but that of the
-- webhook events.
pub webhook-SameMoney :
    (sv : Services)
    → ((a : PaymentAttempt) (p : Option String) (s : Db) (v : Verification)
        → ask sv a p s ≡ ok v
        → IsOpen v)
    → (raw_body : String) (s : Db) → SameMoney s (process_webhook sv raw_body s).1
webhook-SameMoney sv opens raw_body s =
    (process_webhook-SameMoney sv opens raw_body).after s (SameMoney-refl s)
