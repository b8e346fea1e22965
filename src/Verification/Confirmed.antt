-- ===== src/Verification/Confirmed.antt =====
-- A clean success of `verify` is an answer of Tara that names the attempt.
use valuecrm.Base.{
  ℕ, ◌≡◌, refl, ap, subst, ◌∙◌, sym, Bool, true, false, String, Option, none, some, List, [], ◌∷◌,
  arith, ◌==◌, nat_eq, string_eq, elem, take_text, eq_iff, if◌then◌else◌, some_inj,
}
use valuecrm.Settings.{Env}
use valuecrm.Model.{PaymentAttempt, none_failure}
use valuecrm.Exec.{Result, ok, err}
use valuecrm.Tara.{
  TaraStatus, success, failure, pending, unknown, PaymentStatus, TransactionStatus, Client,
  normalized_status,
}
use valuecrm.Verification.{
  Verification, Judgement, skip, reject, accept, note, judge_status, judge, by_product,
  unknown_product, verdict, check_by_product, is_amount, is_product, or_else, conclude, verify_from,
  verify, none_or,
}

-- Tara's own word that the attempt was paid: under a payment id among `ids`, naming the product and the
-- full amount and no other payment or business; or under the product id.
pub data Confirmed (env : Env) (client : Client) (attempt : PaymentAttempt) (ids : List String)
    (v : Verification) : Type 0 where
  by_payment_id :
      (p : String) (r : PaymentStatus)
      → elem p ids ≡ true
      → client.check_payment_status p ≡ ok r
      → normalized_status env.strip_upper r.status ≡ success
      → r.product_id ≡ some attempt.tara_product_id
      → none_or r.payment_id p ≡ true
      → none_or r.business_id client.business_id ≡ true
      → r.amount ≡ some attempt.expected_amount
      → v.payment_id ≡ some p
      → v.amount ≡ some attempt.expected_amount
      → Confirmed env client attempt ids v
  by_product_id :
      (r : TransactionStatus)
      → client.check_transaction_status attempt.tara_product_id ≡ ok r
      → r.product_id ≡ attempt.tara_product_id
      → normalized_status env.strip_upper r.status ≡ success
      → v.payment_id ≡ none
      → v.amount ≡ none
      → Confirmed env client attempt ids v

-- A success that nothing keeps from being applied.
pub record IsClean (v : Verification) : Type 0 where
  pub normalized : v.normalized ≡ success
  pub failure_category : v.failure_category ≡ none_failure

abbrev AllTainted : Option Verification → Type 0
AllTainted o = (v : Verification) → o ≡ some v → ¬ (IsClean v)

is_product-eq : (o : Option String) (q : String) → is_product o q ≡ true → o ≡ some q
is_product-eq none q h = cc
is_product-eq (some p) q h = ap some ((eq_iff p q).0 h)

is_amount-eq : (o : Option ℕ) (n : ℕ) → is_amount o n ≡ true → o ≡ some n
is_amount-eq none n h = cc
is_amount-eq (some m) n h = ground arith

module _ (client : Client) (attempt : PaymentAttempt) (p : String) (r : PaymentStatus)
    (raw : String) where
  judge-reject :
      (status : TaraStatus) {v : Verification}
      → judge_status status client attempt p r raw ≡ reject v
      → ¬ (IsClean v)
  judge-reject unknown e c = cc
  judge-reject success e c = ground arith
  judge-reject failure e c = ground arith
  judge-reject pending e c = ground arith

  judge-note :
      (status : TaraStatus) {v : Verification}
      → judge_status status client attempt p r raw ≡ note v
      → ¬ (IsClean v)
  judge-note unknown e c = cc
  judge-note success e c = ground arith
  judge-note failure e c = ground arith
  judge-note pending e c = ground arith

  judge-accept :
      (status : TaraStatus) {v : Verification}
      → judge_status status client attempt p r raw ≡ accept v
      → (status ≡ success)
        × (r.product_id ≡ some attempt.tara_product_id)
        × (none_or r.payment_id p ≡ true)
        × (none_or r.business_id client.business_id ≡ true)
        × (r.amount ≡ some attempt.expected_amount)
        × (v.payment_id ≡ some p)
        × (v.amount ≡ some attempt.expected_amount)
  judge-accept unknown e = cc
  judge-accept success e = ground (
    arith,
    is_product-eq r.product_id attempt.tara_product_id,
    is_amount-eq r.amount attempt.expected_amount,
  )
  judge-accept failure e = ground arith
  judge-accept pending e = ground arith

elem-head : (p : String) (ids : List String) → elem p (p ∷ ids) ≡ true
elem-head p ids = rw ((eq_iff p p).1 refl)

elem-tail : (x p : String) (ids : List String) → elem x ids ≡ true → elem x (p ∷ ids) ≡ true
elem-tail x p ids h = ground arith

-- The lookup by the product id, where it answers with a clean success.
by_product-Confirmed :
    (env : Env) (client : Client) (attempt : PaymentAttempt) (ids : List String) (v : Verification)
    → check_by_product env client attempt ≡ ok v
    → IsClean v
    → Confirmed env client attempt ids v
unfolding check_by_product
by_product-Confirmed env client attempt ids v h c =
    answered (client.check_transaction_status attempt.tara_product_id) refl h
  where
    unknown≢success : ¬ (unknown ≡ success)
    unknown≢success e = cc

    named :
        (r : TransactionStatus)
        → client.check_transaction_status attempt.tara_product_id ≡ ok r
        → (b : Bool) → (r.product_id == attempt.tara_product_id) ≡ b
        → ◌≡◌ {A = Verification}
            (if b
              then verdict
                  (normalized_status env.strip_upper r.status)
                  (take_text 50 r.status)
                  none
                  none
              else unknown_product (take_text 50 r.status))
            v
        → Confirmed env client attempt ids v
    named r a true e q =
        by_product_id r a ((eq_iff r.product_id attempt.tara_product_id).0 e)
          (ap (λ (x : Verification). x.normalized) q ∙ c.normalized)
          (sym (ap (λ (x : Verification). x.payment_id) q))
          (sym (ap (λ (x : Verification). x.amount) q))
    named r a false e q =
        let status : unknown ≡ v.normalized = ap (λ (x : Verification). x.normalized) q in
        absurd (unknown≢success (status ∙ c.normalized))

    answered :
        (o : Result TransactionStatus)
        → client.check_transaction_status attempt.tara_product_id ≡ o
        → ◌≡◌ {A = Result Verification}
            (elim o [ err e ↦ err e | ok legacy ↦ ok (by_product env attempt legacy) ])
            (ok v)
        → Confirmed env client attempt ids v
    answered (err e) a q = cc
    answered (ok r) a q = named r a (r.product_id == attempt.tara_product_id) refl (ground arith)

remember :
    (o : Option Verification) (u : Verification)
    → AllTainted o
    → ¬ (IsClean u)
    → AllTainted (some (or_else o u))
remember none u h t v e c = t (subst IsClean (sym (some_inj e)) c)
remember (some w) u h t v e c = h v e c

concluded :
    (env : Env) (client : Client) (attempt : PaymentAttempt) (ids : List String) (v : Verification)
    (d r : Option Verification)
    → AllTainted d
    → AllTainted r
    → conclude d r (check_by_product env client attempt) ≡ ok v
    → IsClean v
    → Confirmed env client attempt ids v
concluded env client attempt ids v d (some u) hd hr q c = absurd (hr v (ground arith) c)
concluded env client attempt ids v (some u) none hd hr q c = absurd (hd v (ground arith) c)
concluded env client attempt ids v none none hd hr q c =
    by_product-Confirmed env client attempt ids v q c

module _ (env : Env) (client : Client) (attempt : PaymentAttempt) (v : Verification) (c : IsClean v)
    (all : List String) where
  -- One round of the loop, given what the rest of the loop yields.
  round-Confirmed :
      (p : String) (ids : List String) (d r : Option Verification)
      → ((e f : Option Verification)
          → AllTainted e
          → AllTainted f
          → verify_from env client attempt ids e f ≡ ok v
          → Confirmed env client attempt all v)
      → elem p all ≡ true
      → AllTainted d
      → AllTainted r
      → verify_from env client attempt (p ∷ ids) d r ≡ ok v
      → Confirmed env client attempt all v
  unfolding verify_from
  round-Confirmed p ids d r rest among hd hr q = answered (client.check_payment_status p) refl q
    where
      judged :
          (a : PaymentStatus)
          → client.check_payment_status p ≡ ok a
          → (j : Judgement) → judge env client attempt p a ≡ j
          → ◌≡◌ {A = Result Verification}
              (elim j [
                | skip ↦ verify_from env client attempt ids d r
                | reject u ↦ verify_from env client attempt ids d (some (or_else r u))
                | accept u ↦ ok u
                | note u ↦ verify_from env client attempt ids (some (or_else d u)) r
              ])
              (ok v)
          → Confirmed env client attempt all v
      judged a e skip t h = rest d r hd hr h
      judged a e (reject u) t h =
          rest d (some (or_else r u)) hd (remember r u hr (judge-reject client attempt p a _ _ t)) h
      judged a e (accept u) t h =
          let (s, product, same_payment, business, amount, u_payment, u_amount) =
            judge-accept client attempt p a _ _ t in
          let w : u ≡ v = ground arith in
          by_payment_id p a among e s product same_payment business amount
            (sym (ap (λ (x : Verification). x.payment_id) w) ∙ u_payment)
            (sym (ap (λ (x : Verification). x.amount) w) ∙ u_amount)
      judged a e (note u) t h =
          rest (some (or_else d u)) r (remember d u hd (judge-note client attempt p a _ _ t)) hr h

      answered :
          (o : Result PaymentStatus)
          → client.check_payment_status p ≡ o
          → ◌≡◌ {A = Result Verification}
              (elim o [
                | err e ↦ err e
                | ok a ↦ elim (judge env client attempt p a) [
                  | skip ↦ verify_from env client attempt ids d r
                  | reject u ↦ verify_from env client attempt ids d (some (or_else r u))
                  | accept u ↦ ok u
                  | note u ↦ verify_from env client attempt ids (some (or_else d u)) r
                ]
              ])
              (ok v)
          → Confirmed env client attempt all v
      answered (err e) a h = cc
      answered (ok a) e h = judged a e (judge env client attempt p a) refl h

  verify_from-Confirmed :
      (ids : List String) (d r : Option Verification)
      → ((p : String) → elem p ids ≡ true → elem p all ≡ true)
      → AllTainted d
      → AllTainted r
      → verify_from env client attempt ids d r ≡ ok v
      → Confirmed env client attempt all v
  unfolding verify_from
  verify_from-Confirmed [] d r sub hd hr q = concluded env client attempt all v d r hd hr q c
  verify_from-Confirmed (p ∷ ids) d r sub hd hr q =
      round-Confirmed p ids d r
        (λ e f. verify_from-Confirmed ids e f (λ x m. sub x (elem-tail x p ids m)))
        (sub p (elem-head p ids)) hd hr q

-- If `verify` returns a success that carries no failure category, then Tara answered that the attempt
-- was paid: to a candidate payment id, naming the attempt's product and its expected amount and no
-- other payment or business, which the result then carries; or to the attempt's own product id.
pub verify-Confirmed :
    (env : Env) (client : Client) (attempt : PaymentAttempt) (ids : List String) (v : Verification)
    → verify env client attempt ids ≡ ok v
    → IsClean v
    → Confirmed env client attempt ids v
unfolding verify
verify-Confirmed env client attempt ids v h c =
    verify_from-Confirmed env client attempt v c ids ids none none (λ p m. m) (λ u e. cc)
      (λ u e. cc) h
