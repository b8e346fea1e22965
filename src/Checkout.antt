-- ===== src/Checkout.antt =====
-- `CheckoutService` of apps/payments/services.py: from an order to the payment attempt that the
-- customer is sent to. The texts that are shown are not modelled. Django's `urlsplit` view of an
-- address, a fresh product id and Tara's client are parameters.
pub mod Books
pub mod Guests
pub mod Pay
pub mod Recheck
pub mod SafeLink
pub mod Tokens
use valuecrm.Base.{
  ℕ, suc, ◌-◌, ⊤, Bool, true, false, not, ◌&&◌, ◌||◌, String, Option, none, some, List, [], ◌∷◌,
  ◌==◌, nat_eq, string_eq, elem, ltb, leb, if◌then◌else◌, get_or, truthy, take_text, is_some,
}
use valuecrm.Table.{Table, get, set, add, fresh, select, first, exists}
use valuecrm.Settings.{Env, minutes, days}
use valuecrm.Model.{Db, Order, Installment, PaymentAttempt, Links}
use valuecrm.Model.Status.{
  OrderStatus, InstallmentStatus, AttemptStatus, order_status_eq, installment_status_eq,
  attempt_status_eq,
}
use valuecrm.Exec.{
  Exec, Error, Result, ok, err, invalid_transition, integrity, checkout, does_not_exist,
  value_error, tara, TaraError, pure, raise, gets, or_raise, lift, catch, atomic, modify, ◌>>=◌,
  ◌>>◌, maybe,
}
use valuecrm.Tara.{
  TaraStatus, TaraConfig, Client, LinkResponse, TransactionStatus, get_client, normalized_status,
}
use valuecrm.Transitions.{
  conflicts, get_attempt, get_installment, get_order, update_attempt, attempt_transition,
  order_transition,
}
use valuecrm.Followups.{of_order, is_settled}
use valuecrm.Credit.{is_closed, pass_invalid}
use valuecrm.Orders.{create_order, has_key}

-- What `urlsplit` says of an address; it raises `ValueError` for what is no address, and so does the
-- access to the port of an address that has no valid one.
pub record UrlParts : Type 0 where
  pub is_address : Bool
  pub is_port : Bool
  pub scheme : String
  pub has_userinfo : Bool
  pub hostname : Option String
  pub port : Option ℕ

pub record Shop : Type 0 where
  pub env : Env
  pub config : Option TaraConfig
  pub connect : TaraConfig → Option Client
  pub urlsplit : String → UrlParts
  -- `settings.PUBLIC_BASE_URL`, stripped
  pub public_base_url : String
  -- `generate_tara_product_id`
  pub new_product_id : Db → String

-- `CheckoutResult.status`
pub data CheckoutStatus : Type 0 where
  succeeded link_ready verification_pending failed not_started no_payment_due : CheckoutStatus

pub record CheckoutResult : Type 0 where
  pub status : CheckoutStatus
  pub checkout_url : Option String
  pub tara_says_pending : Bool

abbrev pub result : CheckoutStatus → CheckoutResult
result status = record { status = status; checkout_url = none; tara_says_pending = false }

abbrev pub link_to : String → CheckoutResult
link_to url = record { status = link_ready; checkout_url = some url; tara_says_pending = false }

-- `_ALLOWED_TARA_CHECKOUT_HOSTS`
abbrev pub allowed_host : Option String → Bool
allowed_host none = false
allowed_host (some h) = h == "taramoney.com"

abbrev pub default_port : Option ℕ → Bool
default_port none = true
default_port (some p) = p == 443

-- `_select_safe_checkout_url`
abbrev pub is_safe : UrlParts → Bool
is_safe parts =
    parts.is_address
    && parts.scheme == "https"
    && not parts.has_userinfo
    && allowed_host parts.hostname
    && parts.is_port
    && default_port parts.port

-- Whether the checks end in `ValueError`.
abbrev pub is_malformed : UrlParts → Bool
is_malformed parts =
    not parts.is_address
    || parts.scheme == "https"
      && not parts.has_userinfo
      && allowed_host parts.hostname
      && not parts.is_port

unfoldable pub select_safe_checkout_url : Shop → LinkResponse → Result (Option String)
select_safe_checkout_url shop response = elim (truthy response.general_link) [
  | none ↦ ok none
  | some candidate ↦
      if is_malformed (shop.urlsplit candidate)
      then err value_error
      else if is_safe (shop.urlsplit candidate)
      then ok (some candidate)
      else ok none
]

abbrev pub no_links : Links
no_links = record {
  whatsapp_link = "";
  telegram_link = "";
  dikalo_link = "";
  general_link = "";
  card_link = "";
  sms_link = "";
}

abbrev pub new_attempt : ℕ → Installment → String → ℕ → PaymentAttempt
new_attempt installment i product_id now = record {
  installment = installment;
  tara_product_id = product_id;
  tara_payment_id = none;
  expected_amount = i.expected_amount;
  currency = i.currency;
  status = AttemptStatus.created;
  raw_provider_status = "";
  provider_message = "";
  links = no_links;
  initiated_at = none;
  completed_at = none;
  reconciliation_check_count = 0;
  next_reconciliation_check_at = none;
  updated_at = now;
}

-- `PaymentAttemptService.create_attempt`, under the unique indexes of `PaymentAttempt`
unfoldable pub create_attempt : Shop → ℕ → Installment → Exec (ℕ × PaymentAttempt)
create_attempt shop installment i = do
  a ← gets (λ s. new_attempt installment i (shop.new_product_id s) s.clock)
  k ← gets (λ s. fresh s.attempts)
  clash ← gets (λ s. exists (conflicts k a) s.attempts)
  if clash
      then raise integrity
      else do modify (λ s. record s { attempts = add a s.attempts }); pure (k, a)

abbrev pub of_installment : ℕ → ℕ → PaymentAttempt → Bool
of_installment installment j a = a.installment == installment

abbrev pub is_over : AttemptStatus → Bool
is_over st = elem st (AttemptStatus.failed ∷ AttemptStatus.expired ∷ [])

-- `_get_or_create_current_attempt`
unfoldable pub get_or_create_current_attempt : Shop → ℕ → Exec (ℕ × PaymentAttempt)
unfolding create_attempt
get_or_create_current_attempt shop installment = atomic do
  i ← get_installment installment
  existing ← gets (λ s. first (select (of_installment installment) s.attempts))
  maybe existing (create_attempt shop installment i)
      (λ found. if is_over found.1.status then create_attempt shop installment i else pure found)

-- `_transition_attempt_locked`
unfoldable pub transition_attempt_locked : ℕ → AttemptStatus → String → Exec ⊤
transition_attempt_locked k new_status raw =
    atomic do get_attempt k; catch (attempt_transition k new_status raw "" >> pure tt) pass_invalid

-- The errors that `_recheck_unknown_attempt` takes for an answer that says nothing.
abbrev pub says_nothing : TaraError → Bool
says_nothing TaraError.configuration = true
says_nothing TaraError.credential = true
says_nothing TaraError.timeout = true
says_nothing TaraError.connection = true
says_nothing TaraError.server = true
says_nothing TaraError.client = true
says_nothing TaraError.malformed = true
says_nothing _ = false

-- What `_recheck_unknown_attempt` does by the status that Tara answers.
unfoldable pub rechecked : ℕ → String → TaraStatus → Exec CheckoutResult
rechecked k raw TaraStatus.success = do
  transition_attempt_locked k AttemptStatus.succeeded raw
  pure (result succeeded)
rechecked k raw TaraStatus.failure = do
  transition_attempt_locked k AttemptStatus.failed raw
  pure (result failed)
rechecked k raw TaraStatus.pending =
    pure (record { status = verification_pending; checkout_url = none; tara_says_pending = true })
rechecked k raw TaraStatus.unknown = pure (result verification_pending)

-- `get_client` and `check_transaction_status`
abbrev pub transaction_status : Shop → PaymentAttempt → Result TransactionStatus
transaction_status shop attempt = elim (get_client shop.config shop.connect) [
  | err e ↦ err e
  | ok client ↦ client.check_transaction_status attempt.tara_product_id
]

unfoldable pub recheck_answer : Shop → ℕ → Result TransactionStatus → Exec CheckoutResult
unfolding rechecked
recheck_answer shop k (ok response) =
    rechecked k (take_text 50 response.status)
      (normalized_status shop.env.strip_upper response.status)
recheck_answer shop k (err (tara e)) =
    if says_nothing e then pure (result verification_pending) else raise (tara e)
recheck_answer shop k (err e) = raise e

-- `_recheck_unknown_attempt`
unfoldable pub recheck_unknown_attempt : Shop → ℕ → PaymentAttempt → Exec CheckoutResult
unfolding recheck_answer
recheck_unknown_attempt shop k attempt = recheck_answer shop k (transaction_status shop attempt)

abbrev pub with_links : LinkResponse → PaymentAttempt → PaymentAttempt
with_links r a = record a {
  provider_message = take_text 500 r.message;
  links = record {
    whatsapp_link = get_or r.whatsapp_link "";
    telegram_link = get_or r.telegram_link "";
    dikalo_link = get_or r.dikalo_link "";
    general_link = get_or r.general_link "";
    card_link = get_or r.card_link "";
    sms_link = get_or r.sms_link "";
  };
}

-- `_persist_link_result_locked`
unfoldable pub persist_link_result_locked : ℕ → LinkResponse → Exec ⊤
persist_link_result_locked k response = atomic do
  attempt ← get_attempt k
  if not (attempt.status == AttemptStatus.created) then pure tt else do
    update_attempt k (with_links response)
    attempt_transition k AttemptStatus.link_created (take_text 50 response.status) ""
    pure tt

-- The `except` clauses of `_create_link_for_attempt`.
unfoldable pub link_error : ℕ → TaraError → Exec CheckoutResult
link_error k TaraError.timeout =
    transition_attempt_locked k AttemptStatus.unknown "" >> pure (result not_started)
link_error k TaraError.connection =
    transition_attempt_locked k AttemptStatus.unknown "" >> pure (result not_started)
link_error k TaraError.server =
    transition_attempt_locked k AttemptStatus.unknown "" >> pure (result not_started)
link_error k TaraError.malformed =
    transition_attempt_locked k AttemptStatus.unknown "" >> pure (result not_started)
link_error k TaraError.business =
    transition_attempt_locked k AttemptStatus.failed "" >> pure (result not_started)
link_error k TaraError.client =
    transition_attempt_locked k AttemptStatus.failed "" >> pure (result not_started)
link_error k TaraError.configuration = pure (result not_started)
link_error k TaraError.credential = pure (result not_started)
link_error k TaraError.invalid_request = pure (result not_started)
link_error k e = raise (tara e)

abbrev pub shown_link : Option String → CheckoutResult
shown_link none = result not_started
shown_link (some url) = link_to url

unfoldable pub link_answer : Shop → ℕ → Result LinkResponse → Exec CheckoutResult
unfolding link_error
link_answer shop k (ok response) = do
  persist_link_result_locked k response
  url ← lift (select_safe_checkout_url shop response)
  pure (shown_link url)
link_answer shop k (err (tara e)) = link_error k e
link_answer shop k (err e) = raise e

-- `get_client` and `create_payment_link`
abbrev pub payment_link : Shop → Installment → PaymentAttempt → Result LinkResponse
payment_link shop i attempt = elim (get_client shop.config shop.connect) [
  | err e ↦ err e
  | ok client ↦ client.create_payment_link attempt.tara_product_id i.expected_amount
]

-- `_create_link_for_attempt`
unfoldable pub create_link_for_attempt :
    Shop → Installment → ℕ → PaymentAttempt → Exec CheckoutResult
unfolding link_answer
create_link_for_attempt shop i k attempt = link_answer shop k (payment_link shop i attempt)
