-- ===== src/Checkout/Tokens.antt =====
-- The signed references of `CheckoutService` in apps/payments/services.py: what a customer's address
-- carries, and the order that it opens. Django's `signing` and the references of orders are
-- parameters.
pub mod Opened
use valuecrm.Base.{ℕ, Bool, String, Option, none, some, ◌==◌, nat_eq, if◌then◌else◌}
use valuecrm.Table.{select, first}
use valuecrm.Settings.{days}
use valuecrm.Model.{Order}
use valuecrm.Exec.{Exec, checkout, pure, raise, gets, or_raise, ◌>>=◌}

-- What `signing.loads` gives: the `order_reference` of the data, or an exception.
pub data Loaded : Type 0 where
  signature_expired bad_signature : Loaded
  loaded : Option ℕ → Loaded

-- Tokens are texts that only `signing` reads.
pub record Signing (Token : Type 0) : Type 0 where
  -- `order.reference`, a UUID as its number, by the key of the order
  pub reference : ℕ → ℕ
  -- `signing.dumps({"order_reference": …}, salt)` at an instant
  pub dumps : String → ℕ → ℕ → Token
  -- `signing.loads(token, salt, max_age)` at an instant
  pub loads : String → Token → ℕ → ℕ → Loaded

-- `_CHECKOUT_SIGNING_SALT`, `_INSTALLMENT_PAYMENT_SIGNING_SALT`
abbrev pub checkout_signing_salt : String
checkout_signing_salt = "apps.payments.checkout.v1"

abbrev pub installment_payment_signing_salt : String
installment_payment_signing_salt = "apps.payments.installment-payment.v1"

-- The `max_age_seconds` of `resolve_signed_reference`
abbrev pub max_reference_age : ℕ
max_reference_age = days 30

-- `INSTALLMENT_PAYMENT_LINK_MAX_AGE_SECONDS`
abbrev pub max_payment_link_age : ℕ
max_payment_link_age = days 120

-- `build_signed_reference`, at an instant
abbrev pub build_signed_reference : {Token : Type 0} → Signing Token → ℕ → ℕ → Token
build_signed_reference g k now = g.dumps checkout_signing_salt (g.reference k) now

-- `build_installment_payment_token`, at an instant
abbrev pub build_installment_payment_token : {Token : Type 0} → Signing Token → ℕ → ℕ → Token
build_installment_payment_token g k now =
    g.dumps installment_payment_signing_salt (g.reference k) now

abbrev pub has_reference : {Token : Type 0} → Signing Token → ℕ → ℕ → Order → Bool
has_reference g reference k o = g.reference k == reference

-- What both `resolve` methods do with the data.
unfoldable pub order_of : {Token : Type 0} → Signing Token → Loaded → Exec ℕ
order_of g signature_expired = raise checkout
order_of g bad_signature = raise checkout
order_of g (loaded none) = raise checkout
order_of g (loaded (some reference)) = do
  found ← gets (λ s. first (select (has_reference g reference) s.orders))
  order ← or_raise found checkout
  pure order.0

-- `resolve_signed_reference`
unfoldable pub resolve_signed_reference : {Token : Type 0} → Signing Token → Token → Exec ℕ
unfolding order_of
resolve_signed_reference g token = do
  answer ← gets (λ s. g.loads checkout_signing_salt token max_reference_age s.clock)
  order_of g answer

-- `resolve_installment_payment_token`
unfoldable pub resolve_installment_payment_token : {Token : Type 0} → Signing Token → Token → Exec ℕ
unfolding order_of
resolve_installment_payment_token g token = do
  answer ← gets (λ s. g.loads installment_payment_signing_salt token max_payment_link_age s.clock)
  order_of g answer
