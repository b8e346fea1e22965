-- ===== src/Verification.antt =====
-- `TaraVerificationService` of apps/payments/services.py: one server-to-server verification.
pub mod Confirmed
use valuecrm.Base.{
  ℕ, ⊤, Bool, true, false, not, ◌&&◌, ◌||◌, String, Option, none, some, List, [], ◌∷◌, ◌++◌, map,
  ◌==◌, nat_eq, string_eq, elem, take, take_text, is_some, if◌then◌else◌, truthy,
}
use valuecrm.Table.{Table, select}
use valuecrm.Settings.{Env}
use valuecrm.Model.{
  Db, PaymentAttempt, TaraWebhookEvent, EventFailure, none_failure, amount_mismatch,
  provider_product_mismatch, malformed,
}
use valuecrm.Exec.{Result, ok, err}
use valuecrm.Tara.{
  TaraStatus, success, failure, pending, unknown, PaymentStatus, TransactionStatus, Client,
  normalized_status,
}

-- `TaraVerification`
pub record Verification : Type 0 where
  pub normalized : TaraStatus
  pub raw_status : String
  pub payment_id : Option String
  pub amount : Option ℕ
  pub failure_category : EventFailure

-- `MAX_CANDIDATES`
abbrev pub max_candidates : ℕ
max_candidates = 5

abbrev pub texts : List (Option String) → List String
texts [] = []
texts (none ∷ os) = texts os
texts (some p ∷ os) = p ∷ texts os

-- The loop that drops what is empty, the product id itself and what was seen.
pub unique_ids : String → List String → List String → List String
unique_ids product_id [] unique = unique
unique_ids product_id (p ∷ ids) unique =
    unique_ids product_id ids
      (if p == "" || p == product_id || elem p unique then unique else unique ++ p ∷ [])

-- The payment ids of the earlier events for the product, the newest first.
abbrev pub event_payment_ids : String → Table TaraWebhookEvent → List String
event_payment_ids product_id t = take max_candidates (
    map (λ (e : ℕ × TaraWebhookEvent). e.1.tara_payment_id)
      (select (λ j e. e.tara_product_id == product_id && not (e.tara_payment_id == "")) t))

-- `candidate_payment_ids`
unfoldable pub candidate_payment_ids : PaymentAttempt → Option String → Db → List String
unfolding unique_ids
candidate_payment_ids attempt preferred s = take max_candidates (
    unique_ids attempt.tara_product_id
      (texts (preferred ∷ attempt.tara_payment_id ∷ [])
        ++ event_payment_ids attempt.tara_product_id s.events)
      [])

-- `response.product_id == product_id`
abbrev pub is_product : Option String → String → Bool
is_product none p = false
is_product (some q) p = q == p

-- `response.amount is not None and response.amount == expected`
abbrev pub is_amount : Option ℕ → ℕ → Bool
is_amount none n = false
is_amount (some m) n = m == n

abbrev pub none_or : Option String → String → Bool
none_or none p = true
none_or (some q) p = q == p

-- `belongs_to_attempt`
abbrev pub belongs : Client → PaymentAttempt → String → PaymentStatus → Bool
belongs client attempt payment_id response =
    is_product response.product_id attempt.tara_product_id
    && none_or response.payment_id payment_id
    && none_or response.business_id client.business_id

-- What the loop does with one answer: go on, remember a refusal, return, or remember a verdict.
pub data Judgement : Type 0 where
  skip : Judgement
  reject accept note : Verification → Judgement

abbrev pub other_product : String → Verification
other_product raw = record {
  normalized = unknown;
  raw_status = raw;
  payment_id = none;
  amount = none;
  failure_category = provider_product_mismatch;
}

abbrev pub other_amount : String → String → Option ℕ → Verification
other_amount raw payment_id amount = record {
  normalized = success;
  raw_status = raw;
  payment_id = some payment_id;
  amount = amount;
  failure_category = amount_mismatch;
}

abbrev pub verdict : TaraStatus → String → Option String → Option ℕ → Verification
verdict status raw payment_id amount = record {
  normalized = status;
  raw_status = raw;
  payment_id = payment_id;
  amount = amount;
  failure_category = none_failure;
}

abbrev pub judge_status :
    TaraStatus → Client → PaymentAttempt → String → PaymentStatus → String → Judgement
judge_status unknown client attempt payment_id response raw = skip
judge_status success client attempt payment_id response raw =
    if not (belongs client attempt payment_id response)
    then reject (other_product raw)
    else if is_amount response.amount attempt.expected_amount
    then accept (verdict success raw (some payment_id) response.amount)
    else reject (other_amount raw payment_id response.amount)
judge_status status client attempt payment_id response raw =
    if not (belongs client attempt payment_id response)
    then reject (other_product raw)
    else note (verdict status raw (some payment_id) none)

unfoldable pub judge : Env → Client → PaymentAttempt → String → PaymentStatus → Judgement
judge env client attempt payment_id response =
    judge_status (normalized_status env.strip_upper response.status) client attempt payment_id
      response (take_text 50 response.status)

abbrev pub unknown_product : String → Verification
unknown_product raw = record {
  normalized = unknown;
  raw_status = raw;
  payment_id = none;
  amount = none;
  failure_category = malformed;
}

-- What the documented lookup by the product id says of the attempt.
abbrev pub by_product : Env → PaymentAttempt → TransactionStatus → Verification
by_product env attempt legacy =
    if legacy.product_id == attempt.tara_product_id
    then verdict (normalized_status env.strip_upper legacy.status) (take_text 50 legacy.status) none
        none
    else unknown_product (take_text 50 legacy.status)

unfoldable pub check_by_product : Env → Client → PaymentAttempt → Result Verification
check_by_product env client attempt =
    elim (client.check_transaction_status attempt.tara_product_id) [
      | err e ↦ err e
      | ok legacy ↦ ok (by_product env attempt legacy)
    ]

-- `rejected or …`
abbrev pub or_else : Option Verification → Verification → Verification
or_else none v = v
or_else (some u) v = u

abbrev pub conclude :
    Option Verification → Option Verification → Result Verification → Result Verification
conclude definitive (some v) legacy = ok v
conclude (some v) none legacy = ok v
conclude none none legacy = legacy

-- The loop of `verify`, on the ids that are left and what it remembers.
unfoldable pub verify_from :
    Env
    → Client
    → PaymentAttempt
    → List String
    → Option Verification
    → Option Verification
    → Result Verification
unfolding judge check_by_product
verify_from env client attempt [] definitive rejected =
    conclude definitive rejected (check_by_product env client attempt)
verify_from env client attempt (p ∷ ids) definitive rejected =
    elim (client.check_payment_status p) [
      | err e ↦ err e
      | ok response ↦ elim (judge env client attempt p response) [
        | skip ↦ verify_from env client attempt ids definitive rejected
        | reject v ↦ verify_from env client attempt ids definitive (some (or_else rejected v))
        | accept v ↦ ok v
        | note v ↦ verify_from env client attempt ids (some (or_else definitive v)) rejected
      ]
    ]

-- `verify`
unfoldable pub verify : Env → Client → PaymentAttempt → List String → Result Verification
unfolding verify_from
verify env client attempt candidates = verify_from env client attempt candidates none none
