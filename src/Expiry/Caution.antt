-- ===== src/Expiry/Caution.antt =====
-- An order that may have been paid is left alone.
use valuecrm.Base.{
  ℕ, ◌≡◌, ◌≢◌, refl, ◌∙◌, ap, Bool, true, false, ◌&&◌, some, arith, ◌==◌, Bool-cases, inl, inr,
}
use valuecrm.Table.{get, exists-get}
use valuecrm.Model.{Db, Order, PaymentAttempt}
use valuecrm.Model.Status.{OrderStatus, order_status_eq, attempt_status_eq}
use valuecrm.Exec.{ok, pure, gets}
use valuecrm.Exec.Laws.{bind-ok, atomic-ok}
use valuecrm.Transitions.Reads.{get_order-eq}
use valuecrm.Expiry.{attempt_of_order, might_be_paid, some_might_be_paid, expire_one}

-- A single attempt in the table that might be paid is seen.
seen :
    (k j : ℕ) (a : PaymentAttempt) (s : Db)
    → get j s.attempts ≡ some a
    → attempt_of_order k s j a ≡ true
    → might_be_paid a.status ≡ true
    → some_might_be_paid k s ≡ true
seen k j a s at own paid = elim (Bool-cases (some_might_be_paid k s)) [
  | inl yes_ ↦ yes_
  | inr none_ ↦ absurd (
      clash (attempt_of_order k s j a) (might_be_paid a.status) own paid (
        exists-get (λ j a. attempt_of_order k s j a && might_be_paid a.status) j a s.attempts at
          none_))
]
  where
    clash : (b c : Bool) → b ≡ true → c ≡ true → (b && c) ≢ false
    clash b c p q h = ground arith

-- `_expire_one` leaves the whole database as it is, and reports that it expired nothing, for an order
-- one of whose attempts is succeeded, pending or unknown, whatever the order's own status.
pub expire_one-cautious :
    (k j : ℕ) (o : Order) (a : PaymentAttempt) (s : Db)
    → get k s.orders ≡ some o
    → get j s.attempts ≡ some a
    → attempt_of_order k s j a ≡ true
    → might_be_paid a.status ≡ true
    → expire_one k s ≡ (ok false, s)
unfolding expire_one gets pure
expire_one-cautious k j o a s at_order at_attempt own paid = atomic-ok _ s (
    bind-ok _ _ s (get_order-eq k s at_order)
    ∙ elim (Bool-cases (o.status == OrderStatus.pending)) [
      | inr other ↦ rw other refl
      | inl pending ↦
          let found : gets (some_might_be_paid k) s ≡ (ok true, s) =
            ap (λ b. (ok b, s)) (seen k j a s at_attempt own paid) in
          rw pending (bind-ok _ _ s found)
    ])
