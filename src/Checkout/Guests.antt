-- ===== src/Checkout/Guests.antt =====
-- The guest side of `CheckoutService` in apps/payments/services.py: the contact of a checkout, and the
-- customer's request to look again. Python's text functions and Tara's `resend_webhook` are parameters.
pub mod Resolved
use valuecrm.Base.{
  ℕ, ⊤, Bool, true, false, String, Option, none, some, [], ◌∷◌, ◌==◌, string_eq, elem, get_or,
  if◌then◌else◌,
}
use valuecrm.Table.{get, add, fresh, select, first}
use valuecrm.Model.{Contact, PaymentAttempt}
use valuecrm.Model.Status.{AttemptStatus, attempt_status_eq}
use valuecrm.Exec.{
  Exec, Error, Result, ok, err, tara, TaraError, pure, raise, gets, write_contacts, ◌>>=◌, ◌>>◌,
  maybe,
}
use valuecrm.Tara.{Client, get_client}
use valuecrm.Checkout.{Shop, of_installment}
use valuecrm.Checkout.Pay.{lowest}
use valuecrm.Followups.{of_order}

pub record Texts : Type 0 where
  -- `text.strip().lower()`
  pub strip_lower : String → String
  -- `re.sub(r"[^\d+]", "", text)`
  pub only_digits : String → String

-- `normalize_phone`
abbrev pub normalize_phone : Texts → Option String → String
normalize_phone t phone = t.only_digits (get_or phone "")

abbrev pub guest_email : Texts → Option String → String
guest_email t email = t.strip_lower (get_or email "")

-- The contact that `get_or_create` inserts.
abbrev pub guest : Texts → Option String → Option String → String → String → Contact
guest t email phone first_name last_name = record {
  email = guest_email t email;
  phone = normalize_phone t phone;
  first_name = first_name;
  last_name = last_name;
  cf_contact_id = none;
}

-- `resolve_guest_contact`
unfoldable pub resolve_guest_contact :
    Texts → Option String → Option String → String → String → Exec ℕ
resolve_guest_contact t email phone first_name last_name = do
  found ← gets (λ s. first (select (λ j c. c.email == guest_email t email) s.contacts))
  maybe found
      (do
        key ← gets (λ s. fresh s.contacts)
        write_contacts (λ s. add (guest t email phone first_name last_name) s.contacts)
        pure key)
      (λ e. pure e.0)

-- The statuses with something to redeliver.
abbrev pub waits_for_result : AttemptStatus → Bool
waits_for_result st =
    elem st (AttemptStatus.link_created ∷ AttemptStatus.pending ∷ AttemptStatus.unknown ∷ [])

-- The exceptions that `request_status_refresh` catches.
abbrev pub is_swallowed : Error → Bool
is_swallowed (tara TaraError.configuration) = true
is_swallowed (tara TaraError.credential) = true
is_swallowed (tara TaraError.timeout) = true
is_swallowed (tara TaraError.connection) = true
is_swallowed (tara TaraError.server) = true
is_swallowed (tara TaraError.client) = true
is_swallowed (tara TaraError.malformed) = true
is_swallowed (tara TaraError.invalid_request) = true
is_swallowed _ = false

unfoldable pub swallow : Result ⊤ → Exec ⊤
swallow (ok x) = pure tt
swallow (err e) = if is_swallowed e then pure tt else raise e

-- `get_client` and `resend_webhook`
abbrev pub redelivery : Shop → (Client → String → Result ⊤) → PaymentAttempt → Result ⊤
redelivery shop resend_webhook a = elim (get_client shop.config shop.connect) [
  | err e ↦ err e
  | ok client ↦ resend_webhook client a.tara_product_id
]

unfoldable pub refresh_attempt : Shop → (Client → String → Result ⊤) → PaymentAttempt → Exec ⊤
unfolding swallow
refresh_attempt shop resend_webhook a =
    if waits_for_result a.status then swallow (redelivery shop resend_webhook a) else pure tt

-- `request_status_refresh`
unfoldable pub request_status_refresh : Shop → (Client → String → Result ⊤) → ℕ → Exec ⊤
unfolding refresh_attempt
request_status_refresh shop resend_webhook order = do
  installment ← gets (λ s. lowest (select (of_order order) s.installments))
  maybe installment (pure tt) λ i. do
    newest ← gets (λ s. first (select (of_installment i.0) s.attempts))
    maybe newest (pure tt) (λ a. refresh_attempt shop resend_webhook a.1)
