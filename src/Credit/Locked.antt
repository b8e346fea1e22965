-- ===== src/Credit/Locked.antt =====
-- The rows that `apply_verified_success` locks, and what it does once it has them.
use valuecrm.Base.{
  ℕ, ◌≡◌, Bool, true, false, String, Option, some, ◌==◌, Option-cases, if◌then◌else◌, inl, inr, ◌⊎◌,
  ◌∙◌,
}
use valuecrm.Table.{get}
use valuecrm.Settings.{Env}
use valuecrm.Model.{Db, Order, Installment, PaymentAttempt}
use valuecrm.Model.Status.{AttemptStatus, attempt_status_eq}
use valuecrm.Exec.{Exec, err, does_not_exist, atomic, pure, ◌>>◌}
use valuecrm.Exec.Laws.{bind-ok, bind-err, atomic-congr, atomic-err}
use valuecrm.Transitions.Reads.{
  get_attempt-eq, get_installment-eq, get_order-eq, get_attempt_missing, get_installment_missing,
  get_order_missing,
}
use valuecrm.Credit.{Applied, credit, apply_verified_success}

-- The attempt `k` stands in the database with its installment and its order.
pub record Locked (k : ℕ) (s : Db) : Type 0 where
  pub attempt : PaymentAttempt
  pub installment : Installment
  pub order : Order
  pub at_attempt : get k s.attempts ≡ some attempt
  pub at_installment : get attempt.installment s.installments ≡ some installment
  pub at_order : get installment.order s.orders ≡ some order

-- What `apply_verified_success` does with the rows that it has locked.
unfoldable pub applied_to :
    Env → Applied → ℕ → Option String → Option ℕ → PaymentAttempt → Installment → Order → Exec Bool
applied_to env on_applied k payment_id verified_amount attempt installment order =
    if attempt.status == AttemptStatus.succeeded
    then on_applied k false >> pure false
    else credit env k attempt installment order payment_id verified_amount
      >> (on_applied k true >> pure true)

module _ (env : Env) (f : Applied) (k : ℕ) (p : Option String) (v : Option ℕ) (s : Db) where
  pub success-Locked :
      (l : Locked k s)
      → apply_verified_success env f k p v s
        ≡ atomic (applied_to env f k p v l.attempt l.installment l.order) s
  unfolding apply_verified_success applied_to
  success-Locked l = atomic-congr _ _ s (
      bind-ok _ _ s (get_attempt-eq k s l.at_attempt)
      ∙ bind-ok _ _ s (get_installment-eq l.attempt.installment s l.at_installment)
      ∙ bind-ok _ _ s (get_order-eq l.installment.order s l.at_order))

  pub success-cases :
      (Locked k s) ⊎ (apply_verified_success env f k p v s ≡ (err does_not_exist, s))
  unfolding apply_verified_success
  success-cases = elim (Option-cases (get k s.attempts)) [
    | inl no_attempt ↦ inr (atomic-err _ s (bind-err _ _ s (get_attempt_missing k s no_attempt)))
    | inr (a, at_a) ↦ elim (Option-cases (get a.installment s.installments)) [
      | inl no_installment ↦ inr (
          atomic-err _ s (
            bind-ok _ _ s (get_attempt-eq k s at_a)
            ∙ bind-err _ _ s (get_installment_missing a.installment s no_installment)))
      | inr (i, at_i) ↦ elim (Option-cases (get i.order s.orders)) [
        | inl no_order ↦ inr (
            atomic-err _ s (
              bind-ok _ _ s (get_attempt-eq k s at_a)
              ∙ bind-ok _ _ s (get_installment-eq a.installment s at_i)
              ∙ bind-err _ _ s (get_order_missing i.order s no_order)))
        | inr (o, at_o) ↦ inl (record {
          attempt = a;
          installment = i;
          order = o;
          at_attempt = at_a;
          at_installment = at_i;
          at_order = at_o;
        })
      ]
    ]
  ]
