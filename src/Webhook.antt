-- ===== src/Webhook.antt =====
-- `WebhookProcessingService` and `resolve_reported_events` of apps/payments/services.py. Decoding a body
-- (`json.loads` and the pydantic model of integrations/payments/tara/schemas.py) and restoring suspended
-- access are parameters.
pub mod Process
pub mod Trigger
use Prim.Native.String.{◌++◌ as append}
use valuecrm.Base.{
  ℕ, suc, ⊤, Bool, true, false, not, ◌&&◌, String, Option, none, some, ◌==◌, nat_eq, string_eq,
  if◌then◌else◌, get_or, truthy, take_text, ltb,
}
use valuecrm.Table.{Table, get, set, add, fresh, select, first, update}
use valuecrm.Settings.{Env}
use valuecrm.Model.{
  Db, PaymentAttempt, TaraWebhookEvent, ProcessingStatus, VerificationMode, VerificationResult,
  EventFailure, none_failure, business_id_mismatch, unknown_product_id, amount_mismatch,
  payment_id_conflict, duplicate_payment, invalid_state_transition, provider_product_mismatch,
  provider_lookup_indeterminate, malformed,
}
use valuecrm.Model.Status.{AttemptStatus, attempt_status_eq}
use valuecrm.Exec.{
  Exec, Error, Result, ok, err, webhook_rejected, does_not_exist, tara, TaraError, pure, raise,
  gets, lift, or_raise, catch, write_events, ◌>>=◌, ◌>>◌, maybe,
}
use valuecrm.Tara.{TaraStatus, TaraConfig, Client, get_client}
use valuecrm.Verification.{Verification, candidate_payment_ids, verify}
use valuecrm.Credit.{nothing_applied, apply_verified_success, apply_verified_failure}

-- `TaraWebhookPayload`; `change_date` is the date's `isoformat()`
pub record Payload : Type 0 where
  pub business_id : String
  pub product_id : Option String
  pub payment_id : Option String
  pub status : String
  pub amount : Option ℕ
  pub change_date : Option String

-- What the service calls, and the settings that it reads.
pub record Services : Type 0 where
  pub env : Env
  pub config : Option TaraConfig
  pub connect : TaraConfig → Option Client
  pub body_size : String → ℕ
  pub decode : String → Option Payload
  -- `_lift_nonpayment_suspension`
  pub lift_suspension : ℕ → Exec ⊤

-- `TARA_WEBHOOK_MAX_BODY_BYTES`
abbrev pub max_body_bytes : ℕ
max_body_bytes = 65536

-- `_parse_payload`, without the digest that it returns beside the payload
pub parse_payload : Services → String → Result Payload
parse_payload sv raw_body =
    if ltb max_body_bytes (sv.body_size raw_body)
    then err webhook_rejected
    else elim (sv.decode raw_body) [ none ↦ err webhook_rejected | some payload ↦ ok payload ]

-- `_compute_dedup_key`
abbrev pub compute_dedup_key : Env → Payload → String → String
compute_dedup_key env payload digest = env.sha256_hex (
    append (get_or payload.payment_id "") (
      append "|" (
        append (get_or payload.product_id "") (
          append "|" (
            append payload.status
              (append "|" (append (get_or payload.change_date "") (append "|" digest))))))))

abbrev pub new_event : Payload → String → String → ℕ → TaraWebhookEvent
new_event payload digest key now = record {
  received_at = now;
  processed_at = none;
  processing_status = ProcessingStatus.received;
  verification_mode = VerificationMode.unverified_trigger;
  verification_result = VerificationResult.pending;
  failure_category = none_failure;
  business_id = payload.business_id;
  tara_product_id = get_or payload.product_id "";
  tara_payment_id = get_or payload.payment_id "";
  raw_provider_status = take_text 50 payload.status;
  amount = payload.amount;
  payload_digest = digest;
  dedup_key = key;
  payment_attempt = none;
  processing_attempts = 0;
}

-- `event.save()`
abbrev pub save_event : ℕ → TaraWebhookEvent → Exec ⊤
save_event k event = write_events (λ s. set k event s.events)

-- `event.processed_at = timezone.now()` and `event.save()`
abbrev pub close_event : ℕ → TaraWebhookEvent → Exec ⊤
close_event k event =
    write_events (λ s. set k (record event { processed_at = some s.clock }) s.events)

abbrev pub is_processed : ProcessingStatus → Bool
is_processed ProcessingStatus.processed = true
is_processed _ = false

abbrev pub is_reported : Env → String → ℕ → TaraWebhookEvent → Bool
is_reported env product_id j e =
    e.tara_product_id == product_id
    && env.iexact e.raw_provider_status "SUCCESS"
    && not (is_processed e.processing_status)

abbrev pub resolved_event : ℕ → ℕ → TaraWebhookEvent → TaraWebhookEvent
resolved_event j now e = record e {
  processing_status = ProcessingStatus.processed;
  verification_result = VerificationResult.success;
  payment_attempt = some j;
  processed_at = some now;
}

abbrev pub is_succeeded : ℕ → ℕ → PaymentAttempt → Bool
is_succeeded k j a = k == j && a.status == AttemptStatus.succeeded

-- `resolve_reported_events`
unfoldable pub resolve_reported_events : Env → ℕ → Exec ⊤
resolve_reported_events env k = do
  found ← gets (λ s. first (select (is_succeeded k) s.attempts))
  maybe found (pure tt) (λ entry.
      write_events
        (λ s. update (is_reported env entry.1.tara_product_id) (resolved_event k s.clock) s.events))

-- The columns that a branch of `_verify_and_apply` sets before the event is saved.
abbrev pub outcome :
    TaraWebhookEvent → VerificationResult → ProcessingStatus → EventFailure → TaraWebhookEvent
outcome e result status category = record e {
  verification_result = result;
  processing_status = status;
  failure_category = category;
}

abbrev pub failed_success : TaraWebhookEvent → EventFailure → TaraWebhookEvent
failed_success e category = outcome e VerificationResult.success ProcessingStatus.failed category

-- What the `except` clauses around `apply_verified_success` make of the event.
abbrev pub refused_credit : TaraWebhookEvent → Error → Exec TaraWebhookEvent
refused_credit e Error.payment_id_conflict = pure (failed_success e payment_id_conflict)
refused_credit e Error.duplicate_payment = pure (failed_success e duplicate_payment)
refused_credit e Error.invalid_transition = pure (failed_success e invalid_state_transition)
refused_credit e x = raise x

-- `verification.payment_id or payload.payment_id`
abbrev pub or_text : Option String → Option String → Option String
or_text p q = elim (truthy p) [ none ↦ q | some t ↦ some t ]

-- `verification.amount if verification.amount is not None else payload.amount`
abbrev pub or_amount : Option ℕ → Option ℕ → Option ℕ
or_amount none n = n
or_amount (some m) n = some m
