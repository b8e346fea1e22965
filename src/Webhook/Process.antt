-- ===== src/Webhook/Process.antt =====
-- What `process_webhook` does with a delivery: `_verify_and_apply` and its outcomes.
use valuecrm.Base.{
  ◌&&◌, ℕ, suc, ⊤, Bool, true, false, not, String, Option, none, some, ◌==◌, nat_eq, string_eq,
  if◌then◌else◌, truthy,
}
use valuecrm.Settings.{Env}
use valuecrm.Table.{get, add, fresh, select, first}
use valuecrm.Model.{
  Db, PaymentAttempt, TaraWebhookEvent, ProcessingStatus, VerificationMode, VerificationResult,
  EventFailure, business_id_mismatch, unknown_product_id, amount_mismatch,
  provider_product_mismatch, provider_lookup_indeterminate, malformed,
}
use valuecrm.Model.Status.{attempt_status_eq}
use valuecrm.Exec.{
  Exec, Result, ok, err, does_not_exist, tara, TaraError, type_error, pure, raise, gets, lift,
  or_raise, catch, write_events, ◌>>=◌, ◌>>◌, maybe,
}
use valuecrm.Tara.{TaraStatus, TaraConfig, get_client}
use valuecrm.Verification.{Verification, candidate_payment_ids, verify}
use valuecrm.Credit.{nothing_applied, apply_verified_success, apply_verified_failure}
use valuecrm.Webhook.{
  Payload, Services, parse_payload, compute_dedup_key, new_event, save_event, close_event,
  resolve_reported_events, outcome, failed_success, refused_credit, or_text, or_amount,
}

-- The body of the `try` around `apply_verified_success`.
unfoldable pub credit_payment :
    Services
    → ℕ
    → PaymentAttempt
    → Payload
    → Verification
    → TaraWebhookEvent
    → Exec TaraWebhookEvent
credit_payment sv j attempt payload v e = do
  apply_verified_success sv.env nothing_applied j (or_text v.payment_id payload.payment_id)
      (or_amount v.amount payload.amount)
  resolve_reported_events sv.env j
  row ← gets (λ s. get attempt.installment s.installments)
  installment ← or_raise row does_not_exist
  sv.lift_suspension installment.order
  pure (record e {
    verification_result = VerificationResult.success;
    processing_status = ProcessingStatus.processed;
  })

abbrev pub is_unusable : EventFailure → Bool
is_unusable provider_product_mismatch = true
is_unusable malformed = true
is_unusable _ = false

abbrev pub is_amount_mismatch : EventFailure → Bool
is_amount_mismatch amount_mismatch = true
is_amount_mismatch _ = false

abbrev pub differs : Option ℕ → ℕ → Bool
differs none n = false
differs (some m) n = not (m == n)

-- What `_verify_and_apply` does by the status that was verified.
unfoldable pub settle :
    Services
    → ℕ
    → TaraWebhookEvent
    → ℕ
    → PaymentAttempt
    → Payload
    → Verification
    → TaraStatus
    → Exec ⊤
settle sv k e j attempt payload v TaraStatus.success =
    if is_amount_mismatch v.failure_category
    then close_event k (failed_success e amount_mismatch)
    else if differs payload.amount attempt.expected_amount
    then close_event k (failed_success e amount_mismatch)
    else do
      event ← catch (credit_payment sv j attempt payload v e) (refused_credit e)
      close_event k event
settle sv k e j attempt payload v TaraStatus.failure = do
  apply_verified_failure (λ _. pure tt) j
  close_event k (record e {
    verification_result = VerificationResult.failure;
    processing_status = ProcessingStatus.processed;
  })
settle sv k e j attempt payload v TaraStatus.pending = close_event k (record e {
  verification_result = VerificationResult.pending;
  processing_status = ProcessingStatus.processed;
})
settle sv k e j attempt payload v TaraStatus.unknown = close_event k (record e {
  verification_result = VerificationResult.unknown;
  processing_status = ProcessingStatus.processed;
})

-- What the `except` clauses around the verification make of the event.
abbrev pub not_verified : ℕ → TaraWebhookEvent → TaraError → Exec ⊤
not_verified k e TaraError.configuration =
    save_event k
      (outcome e VerificationResult.skipped ProcessingStatus.failed provider_lookup_indeterminate)
not_verified k e TaraError.credential =
    save_event k
      (outcome e VerificationResult.skipped ProcessingStatus.failed provider_lookup_indeterminate)
not_verified k e TaraError.timeout =
    save_event k
      (outcome e VerificationResult.unknown ProcessingStatus.failed provider_lookup_indeterminate)
not_verified k e TaraError.connection =
    save_event k
      (outcome e VerificationResult.unknown ProcessingStatus.failed provider_lookup_indeterminate)
not_verified k e TaraError.server =
    save_event k
      (outcome e VerificationResult.unknown ProcessingStatus.failed provider_lookup_indeterminate)
not_verified k e TaraError.client =
    save_event k
      (outcome e VerificationResult.unknown ProcessingStatus.failed provider_lookup_indeterminate)
not_verified k e TaraError.malformed =
    save_event k
      (outcome e VerificationResult.unknown ProcessingStatus.failed provider_lookup_indeterminate)
not_verified k e x = raise (tara x)

-- `get_client` and `verify`
abbrev pub ask : Services → PaymentAttempt → Option String → Db → Result Verification
ask sv attempt preferred s = elim (get_client sv.config sv.connect) [
  | err x ↦ err x
  | ok client ↦ verify sv.env client attempt (candidate_payment_ids attempt preferred s)
]

-- What `_verify_and_apply` does with the answer.
unfoldable pub act :
    Services → ℕ → TaraWebhookEvent → ℕ → PaymentAttempt → Payload → Result Verification → Exec ⊤
unfolding settle
act sv k e j attempt payload (err (tara x)) = not_verified k e x
act sv k e j attempt payload (err x) = raise x
act sv k e j attempt payload (ok v) =
    let e' : TaraWebhookEvent = record e { raw_provider_status = v.raw_status } in
    if is_unusable v.failure_category
    then close_event k
        (outcome e' VerificationResult.unknown ProcessingStatus.failed v.failure_category)
    else settle sv k e' j attempt payload v v.normalized

-- `_verify_and_apply`
unfoldable pub verify_and_apply :
    Services → ℕ → TaraWebhookEvent → ℕ → PaymentAttempt → Payload → Exec ⊤
unfolding act
verify_and_apply sv k event j attempt payload = do
  answer ← gets (ask sv attempt payload.payment_id)
  act sv k
      (record event {
        verification_mode = VerificationMode.server_to_server;
        processing_attempts = suc event.processing_attempts;
      })
      j attempt payload answer

-- `active_config is None or not compare_digest(…)`, negated
abbrev pub is_own_business : Option TaraConfig → Payload → Bool
is_own_business none payload = false
is_own_business (some config) payload = payload.business_id == config.business_id

-- `compare_digest` raises `TypeError` on two texts of which one is not ASCII.
abbrev pub is_comparable : Env → Option TaraConfig → Payload → Bool
is_comparable env none payload = true
is_comparable env (some config) payload =
    env.is_ascii payload.business_id && env.is_ascii config.business_id

-- The attempt that the payload names by its product id.
abbrev pub correlated : Payload → Db → Option (ℕ × PaymentAttempt)
correlated payload s = elim (truthy payload.product_id) [
  | none ↦ none
  | some p ↦ first (select (λ j a. a.tara_product_id == p) s.attempts)
]

abbrev pub no_attempt : Option String → EventFailure
no_attempt p = elim (truthy p) [ none ↦ EventFailure.uncorrelated | some q ↦ unknown_product_id ]

-- What `process_webhook` does with an event that it has just created.
unfoldable pub process_new : Services → ℕ → TaraWebhookEvent → Payload → Exec ⊤
unfolding verify_and_apply
process_new sv k event payload =
    if not (is_comparable sv.env sv.config payload)
    then raise type_error
    else if not (is_own_business sv.config payload)
    then close_event k (record event {
      processing_status = ProcessingStatus.rejected;
      failure_category = business_id_mismatch;
    })
    else do
      attempt ← gets (correlated payload)
      maybe attempt
          (close_event k (record event {
            processing_status = ProcessingStatus.uncorrelated;
            failure_category = no_attempt payload.product_id;
          }))
          (λ found. do
            save_event k (record event { payment_attempt = some found.0 })
            verify_and_apply sv k (record event { payment_attempt = some found.0 }) found.0 found.1
                payload)

-- `process_webhook`; it returns the key of the event
unfoldable pub process_webhook : Services → String → Exec ℕ
unfolding parse_payload process_new
process_webhook sv raw_body = do
  payload ← lift (parse_payload sv raw_body)
  let digest = sv.env.sha256_hex raw_body
  let key = compute_dedup_key sv.env payload digest
  existing ← gets (λ s. first (select (λ j e. e.dedup_key == key) s.events))
  maybe existing
      (do
        k ← gets (λ s. fresh s.events)
        event ← gets (λ s. new_event payload digest key s.clock)
        write_events (λ s. add event s.events)
        process_new sv k event payload
        pure k)
      (λ found. pure found.0)
