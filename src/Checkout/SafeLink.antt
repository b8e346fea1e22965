-- ===== src/Checkout/SafeLink.antt =====
-- The link that a customer is sent to right after Tara made it.
use valuecrm.Base.{
  ℕ, ⊤, ◌≡◌, refl, ◌∙◌, sym, ap, true, false, String, Option, none, some, arith, if◌then◌else◌,
  truthy, Bool-cases, inl, inr, some_inj, ◌≢◌, Option-cases,
}
use valuecrm.Model.{Db, Installment, PaymentAttempt}
use valuecrm.Exec.{
  Exec, Error, Result, ok, err, tara, value_error, type_error, provisioning, admin_action,
  click_funnels, TaraError, pure, raise, lift, ◌>>◌, order_creation, invalid_transition,
  payment_id_conflict, duplicate_payment, webhook_rejected, checkout, integrity, does_not_exist,
}
use valuecrm.Exec.Laws.{bind-eq-ok}
use valuecrm.Tara.{LinkResponse}
use valuecrm.Checkout.{
  Shop, CheckoutResult, is_malformed, is_safe, select_safe_checkout_url, shown_link, link_error,
  link_answer, result, create_link_for_attempt, payment_link, persist_link_result_locked,
  not_started,
}

pure-eq : {x y : CheckoutResult} (s : Db) {t : Db} → pure x s ≡ (ok y, t) → x ≡ y
unfolding pure
pure-eq s h = cc

ok_inj : {x y : Option String} → ◌≡◌ {A = Result (Option String)} (ok x) (ok y) → x ≡ y
ok_inj h = cc

lift-eq :
    (r : Result (Option String)) (s : Db) {o : Option String} {t : Db}
    → lift r s ≡ (ok o, t)
    → r ≡ ok o
unfolding lift
lift-eq r s h = cc

then_pure :
    (m : Exec ⊤) (x : CheckoutResult) (s : Db) {y : CheckoutResult} {t : Db}
    → (m >> pure x) s ≡ (ok y, t)
    → x ≡ y
then_pure m x s h = let (z, u, first_, rest) = bind-eq-ok m _ s h in pure-eq u rest

-- An error of Tara ends in no link.
link_error-eq :
    (k : ℕ) (x : TaraError) (s : Db) {y : CheckoutResult} {t : Db}
    → link_error k x s ≡ (ok y, t)
    → result not_started ≡ y
unfolding link_error raise
link_error-eq k TaraError.timeout s h = then_pure _ (result not_started) s h
link_error-eq k TaraError.connection s h = then_pure _ (result not_started) s h
link_error-eq k TaraError.server s h = then_pure _ (result not_started) s h
link_error-eq k TaraError.malformed s h = then_pure _ (result not_started) s h
link_error-eq k TaraError.business s h = then_pure _ (result not_started) s h
link_error-eq k TaraError.client s h = then_pure _ (result not_started) s h
link_error-eq k TaraError.configuration s h = pure-eq s h
link_error-eq k TaraError.credential s h = pure-eq s h
link_error-eq k TaraError.invalid_request s h = pure-eq s h
link_error-eq k TaraError.api s h = cc
link_error-eq k TaraError.auth s h = cc
link_error-eq k TaraError.unsupported s h = cc

module _ (shop : Shop) where
  refused-none :
      (candidate : String) {u : String}
      → is_malformed (shop.urlsplit candidate) ≡ true
      → (if is_malformed (shop.urlsplit candidate)
          then err value_error
          else if is_safe (shop.urlsplit candidate)
          then ok (some candidate)
          else ok none)
        ≢ ok (some u)
  refused-none candidate bad e = ground arith

  unsafe-none :
      (candidate : String) {u : String}
      → is_malformed (shop.urlsplit candidate) ≡ false
      → is_safe (shop.urlsplit candidate) ≡ false
      → (if is_malformed (shop.urlsplit candidate)
          then err value_error
          else if is_safe (shop.urlsplit candidate)
          then ok (some candidate)
          else ok none)
        ≢ ok (some u)
  unsafe-none candidate good unsafe e = ground arith

  empty_lem :
      (response : LinkResponse) {u : String}
      → truthy response.general_link ≡ none
      → select_safe_checkout_url shop response ≢ ok (some u)
  unfolding select_safe_checkout_url
  empty_lem response empty e = ground arith

  -- The URL that is chosen from Tara's answer is one that passes the checks.
  candidate-safe :
      (candidate : String) {u : String}
      → (if is_malformed (shop.urlsplit candidate)
          then err value_error
          else if is_safe (shop.urlsplit candidate)
          then ok (some candidate)
          else ok none)
        ≡ ok (some u)
      → is_safe (shop.urlsplit u) ≡ true
  candidate-safe candidate {u} e = elim (Bool-cases (is_malformed (shop.urlsplit candidate))) [
    | inl bad ↦ absurd (refused-none candidate bad e)
    | inr good ↦ elim (Bool-cases (is_safe (shop.urlsplit candidate))) [
      | inr unsafe ↦ absurd (unsafe-none candidate good unsafe e)
      | inl safe ↦
          let same : candidate ≡ u = some_inj (ok_inj (sym (rw (good, safe) refl) ∙ e)) in
          ap (λ x. is_safe (shop.urlsplit x)) (sym same) ∙ safe
    ]
  ]

  chosen-safe :
      (response : LinkResponse) {u : String}
      → select_safe_checkout_url shop response ≡ ok (some u)
      → is_safe (shop.urlsplit u) ≡ true
  unfolding select_safe_checkout_url
  chosen-safe response {u} h = elim (Option-cases (truthy response.general_link)) [
    | inl empty ↦ absurd (empty_lem response empty h)
    | inr (candidate, given) ↦
        candidate-safe candidate (sym (rw (given, select_safe_checkout_url) refl) ∙ h)
  ]

  shown-safe :
      (o : Option String) {u : String}
      → ((v : String) → o ≡ some v → is_safe (shop.urlsplit v) ≡ true)
      → (shown_link o).checkout_url ≡ some u
      → is_safe (shop.urlsplit u) ≡ true
  shown-safe none h e = cc
  shown-safe (some v) {u} h e = h u e

-- If `_create_link_for_attempt` returns a checkout URL, then the URL passes the checks of
-- `_select_safe_checkout_url`: `https`, no user information, an allowed host and the default port.
pub create_link-safe :
    (shop : Shop) (i : Installment) (k : ℕ) (a : PaymentAttempt) (s : Db) {r : CheckoutResult}
    {t : Db} {u : String}
    → create_link_for_attempt shop i k a s ≡ (ok r, t)
    → r.checkout_url ≡ some u
    → is_safe (shop.urlsplit u) ≡ true
unfolding create_link_for_attempt link_answer raise
create_link-safe shop i k a s {r} {t} {u} h shown = look (payment_link shop i a) h
  where
    raised : (x : Error) → raise {A = CheckoutResult} x s ≢ (ok r, t)
    raised x e = cc

    no_url : result not_started ≡ r → is_safe (shop.urlsplit u) ≡ true
    no_url e = cc

    look :
        (answer : Result LinkResponse)
        → link_answer shop k answer s ≡ (ok r, t)
        → is_safe (shop.urlsplit u) ≡ true
    look (ok response) e =
        let (x, v, saved, rest) = bind-eq-ok (persist_link_result_locked k response) _ s e in
        let (o, w, chosen, last) =
          bind-eq-ok (lift (select_safe_checkout_url shop response)) (λ url. pure (shown_link url))
            v rest in
        shown-safe shop o
          (λ x same.
            chosen-safe shop response {u = x}
              (lift-eq (select_safe_checkout_url shop response) v chosen ∙ ap ok same))
          (ap (λ (y : CheckoutResult). y.checkout_url) (pure-eq w last) ∙ shown)
    look (err (tara x)) e = no_url (link_error-eq k x s e)
    look (err order_creation) e = absurd (raised order_creation e)
    look (err invalid_transition) e = absurd (raised invalid_transition e)
    look (err payment_id_conflict) e = absurd (raised payment_id_conflict e)
    look (err duplicate_payment) e = absurd (raised duplicate_payment e)
    look (err webhook_rejected) e = absurd (raised webhook_rejected e)
    look (err checkout) e = absurd (raised checkout e)
    look (err integrity) e = absurd (raised integrity e)
    look (err does_not_exist) e = absurd (raised does_not_exist e)
    look (err type_error) e = absurd (raised type_error e)
    look (err value_error) e = absurd (raised value_error e)
    look (err provisioning) e = absurd (raised provisioning e)
    look (err admin_action) e = absurd (raised admin_action e)
    look (err (click_funnels c)) e = absurd (raised (click_funnels c) e)
