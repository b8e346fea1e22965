-- ===== src/Checkout/Tokens/Opened.antt =====
-- The order that a signed reference opens, for how long, and at which of the two entrances.
use valuecrm.Base.{
  ℕ, ◌≡◌, ◌-◌, refl, arith, Bool, true, false, String, some, [], ◌∷◌, ◌==◌, nat_eq, string_eq, leb,
  if◌then◌else◌,
}
use valuecrm.Table.{Table, get, select, first}
use valuecrm.Model.{Db, Order}
use valuecrm.Exec.{Result, ok, err, checkout, pure, raise, gets, or_raise, ◌>>=◌}
use valuecrm.Checkout.Tokens.{
  Signing, signature_expired, bad_signature, loaded, checkout_signing_salt,
  installment_payment_signing_salt, max_reference_age, max_payment_link_age, build_signed_reference,
  build_installment_payment_token, has_reference, order_of, resolve_signed_reference,
  resolve_installment_payment_token,
}

-- What Django's documentation says of `signing`, and the unique column `reference`.
pub record IsSigning {Token : Type 0} (g : Signing Token) : Type 0 where
  pub same_salt :
      (salt : String) (reference age n m : ℕ)
      → g.loads salt (g.dumps salt reference n) age m
        ≡ (if leb (m - n) age then loaded (some reference) else signature_expired)
  pub other_salt :
      (salt salt' : String) (reference age n m : ℕ)
      → (salt == salt') ≡ false
      → g.loads salt (g.dumps salt' reference n) age m ≡ bad_signature
  pub unique : (j k : ℕ) → (g.reference j == g.reference k) ≡ (j == k)

-- What a token may give at an instant, when it opens the order `k` until an age.
abbrev pub opens_until : ℕ → ℕ → ℕ → Db → Result ℕ × Db
opens_until k n age s = (if leb (s.clock - n) age then ok k else err checkout, s)

-- Each token opens its own entrance until its age, and never the other one.
pub record Opened {Token : Type 0} (g : Signing Token) (k n : ℕ) (s : Db) : Type 0 where
  pub reference :
      resolve_signed_reference g (build_signed_reference g k n) s
      ≡ opens_until k n max_reference_age s
  pub payment :
      resolve_installment_payment_token g (build_installment_payment_token g k n) s
      ≡ opens_until k n max_payment_link_age s
  pub payment_refused :
      resolve_signed_reference g (build_installment_payment_token g k n) s ≡ (err checkout, s)
  pub reference_refused :
      resolve_installment_payment_token g (build_signed_reference g k n) s ≡ (err checkout, s)

module _ {Token : Type 0} (g : Signing Token) (signing : IsSigning g) where
  first-reference :
      (k : ℕ) (o : Order) (t : Table Order)
      → get k t ≡ some o
      → first (select (has_reference g (g.reference k)) t) ≡ some (k, o)
  unfolding get select
  first-reference k o [] h = ground arith
  first-reference k o ((j, r) ∷ t) h = ground (arith, first-reference k o t, signing.unique j k)

  order_of_lem :
      (k : ℕ) (o : Order) (s : Db)
      → get k s.orders ≡ some o
      → order_of g (loaded (some (g.reference k))) s ≡ (ok k, s)
  unfolding order_of gets or_raise pure ◌>>=◌
  order_of_lem k o s h = rw (first-reference k o s.orders h) refl

  aged :
      (k : ℕ) (o : Order) (s : Db) (fits : Bool)
      → get k s.orders ≡ some o
      → order_of g (if fits then loaded (some (g.reference k)) else signature_expired) s
        ≡ (if fits then ok k else err checkout, s)
  unfolding order_of raise
  aged k o s true h = order_of_lem k o s h
  aged k o s false h = refl

  -- Where Django's `signing` does what it documents and references are unique: for an order that
  -- exists, a signed reference made at an instant opens that order for thirty days and raises
  -- `CheckoutError` after that, a token for a later payment does so for 120 days, and neither of the
  -- two is taken for the other; nothing is written.
  pub resolve-Opened : (k n : ℕ) (o : Order) (s : Db) → get k s.orders ≡ some o → Opened g k n s
  unfolding resolve_signed_reference resolve_installment_payment_token order_of raise gets ◌>>=◌
  resolve-Opened k n o s h = record {
    reference =
        rw (signing.same_salt checkout_signing_salt (g.reference k) max_reference_age n s.clock)
          (aged k o s _ h);
    payment =
        rw
          (signing.same_salt installment_payment_signing_salt (g.reference k) max_payment_link_age n
            s.clock)
          (aged k o s _ h);
    payment_refused =
        rw
          (signing.other_salt checkout_signing_salt installment_payment_signing_salt (g.reference k)
            max_reference_age n s.clock refl)
          refl;
    reference_refused =
        rw
          (signing.other_salt installment_payment_signing_salt checkout_signing_salt (g.reference k)
            max_payment_link_age n s.clock refl)
          refl;
  }
