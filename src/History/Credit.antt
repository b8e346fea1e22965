-- ===== src/History/Credit.antt =====
-- `apply_verified_success` and `apply_verified_failure` keep the history, on every path.
use valuecrm.Base.{
  ℕ, ⊤, ◌≡◌, Bool, true, false, String, Option, some, elem, get_or, [], ◌∷◌, ◌==◌, if_intro, inl,
  inr,
}
use valuecrm.Table.{get}
use valuecrm.Settings.{Env}
use valuecrm.Model.{Db, Order, Installment, PaymentAttempt}
use valuecrm.Model.Status.{
  OrderStatus, AttemptStatus, order_status_eq, installment_status_eq, attempt_status_eq,
}
use valuecrm.Exec.{Exec, Error, invalid_transition, when, ◌>>◌}
use valuecrm.Exec.Preserves.{bind_after, atomic_after, Preserves-bind, Preserves-pure, Preserves}
use valuecrm.Transitions.{attempt_transition, get_order, get_installment, get_attempt}
use valuecrm.Credit.Locked.{Locked, applied_to, success-Locked, success-cases}
use valuecrm.Credit.{
  Applied, pass_invalid, update_order_status, reopen_for_late_success, expire_other,
  link_payment_id, book, credit, apply_verified_success, apply_verified_failure,
}
use valuecrm.History.{History-trans, History, History-refl}
use valuecrm.History.Writes.{history_rules, Preserves-History}
use valuecrm.History.Link.{SameIds, SameIds-refl, reopen_if-SameIds, link-History}
use valuecrm.History.Followups.{create_followups-History}

module _ {s₀ : Db} where
  pub get_order-History : (k : ℕ) → Preserves (History s₀) (get_order k)
  unfolding get_order
  get_order-History k = search history_rules depth 12

  pub get_installment-History : (k : ℕ) → Preserves (History s₀) (get_installment k)
  unfolding get_installment
  get_installment-History k = search history_rules depth 12

  pub get_attempt-History : (k : ℕ) → Preserves (History s₀) (get_attempt k)
  unfolding get_attempt
  get_attempt-History k = search history_rules depth 12

  pub update_order_status-History :
      (env : Env) (k : ℕ) (status : OrderStatus)
      → Preserves (History s₀) (update_order_status env k status)
  unfolding update_order_status
  update_order_status-History env k status = search history_rules depth 14

  expire_other-History : (e : ℕ × PaymentAttempt) → Preserves (History s₀) (expire_other e)
  expire_other-History (j, a) = search history_rules depth 12

  pub reopen-History :
      (k : ℕ) (a : PaymentAttempt) (i : Installment)
      → Preserves (History s₀) (reopen_for_late_success k a i)
  unfolding reopen_for_late_success
  reopen-History k a i = search (history_rules, expire_other-History) depth 12

  pub pass_invalid-History : (e : Error) → Preserves (History s₀) (pass_invalid e)
  pass_invalid-History invalid_transition = search history_rules
  pass_invalid-History e = search history_rules

  -- If its callback keeps the history, `apply_verified_failure` does too, whether it returns or
  -- raises: that is, no row is lost, frozen columns stay, statuses move along their tables, and
  -- paid installments and recorded payment ids stay as they are.
  pub failure-History :
      (f : ℕ → Exec ⊤) (k : ℕ)
      → ((j : ℕ) → Preserves (History s₀) (f j))
      → Preserves (History s₀) (apply_verified_failure f k)
  unfolding apply_verified_failure
  failure-History f k keeps =
      search (history_rules, get_attempt-History, get_installment-History, pass_invalid-History)
        depth 14

pub book-History :
    {s₀ : Db} (env : Env) (k j : ℕ) (i : Installment) (o : Order) (v : ℕ)
    → Preserves (History s₀) (book env k j i o v)
unfolding book
book-History env k j i o v =
    search (history_rules, update_order_status-History, create_followups-History) depth 12

-- The attempt's transition, and all that follows it.
settled-History :
    {s₀ : Db} (env : Env) (k j : ℕ) (i : Installment) (o : Order) (v : ℕ)
    → Preserves
        (History s₀)
        (attempt_transition k AttemptStatus.succeeded "" "" >> book env k j i o v)
settled-History env k j i o v = search (history_rules, book-History) depth 12

-- Crediting an attempt that was read from the database keeps the history, on every path.
pub credit-History :
    (env : Env) (k : ℕ) (a : PaymentAttempt) (i : Installment) (o : Order) (p : Option String)
    (v : Option ℕ) (s : Db)
    → get k s.attempts ≡ some a
    → History s (credit env k a i o p v s).1
unfolding credit
credit-History env k a i o p v s h =
    bind_after (History s) (SameIds s)
      (when (elem a.status (AttemptStatus.failed ∷ AttemptStatus.expired ∷ []))
        (reopen_for_late_success k a i))
      _ s ((reopen_if-SameIds _ k a i).after s (SameIds-refl s)) (λ t q. q.history)
      λ _ t q.
        let (b, at, same) = q.ids.at k a h in
        bind_after (History s) (History s) (link_payment_id k a p) _ t
          (History-trans s t _ q.history (link-History k a b p t at same)) (λ u r. r)
          (λ _. (settled-History env k a.installment i o (get_or v i.expected_amount)).after)

-- If its callback keeps the history, then `apply_verified_success` does, whether it returns or
-- raises: that is, no order, installment or attempt of an earlier state is lost, no frozen column
-- of one changes, every status moves along its transition table, a paid installment is never
-- written again, and a payment id that is not empty stays.
pub success-History :
    {s₀ : Db} (env : Env) (f : Applied) (k : ℕ) (p : Option String) (v : Option ℕ)
    → ((s : Db) (j : ℕ) (newly : Bool) → Preserves (History s) (f j newly))
    → Preserves (History s₀) (apply_verified_success env f k p v)
success-History {s₀} env f k p v keeps = Preserves-History _ from_state s₀
  where
    applied :
        (s : Db) (l : Locked k s)
        → History s (applied_to env f k p v l.attempt l.installment l.order s).1
    applied s l =
        unfold applied_to in
        if_intro (λ (m : Exec Bool). History s (m s).1)
          (l.attempt.status == AttemptStatus.succeeded)
          (λ _.
            (Preserves-bind (f k false) _ (keeps s k false) (λ _. Preserves-pure false)).after s
              (History-refl s))
          (λ _.
            bind_after (History s) (History s) (credit env k l.attempt l.installment l.order p v) _
              s (credit-History env k l.attempt l.installment l.order p v s l.at_attempt) (λ t h. h)
              (λ _.
                (Preserves-bind (f k true) _ (keeps s k true) (λ _. Preserves-pure true)).after))

    from_state : (s : Db) → History s (apply_verified_success env f k p v s).1
    from_state s = elim (success-cases env f k p v s) [
      | inl l ↦
          rw (success-Locked env f k p v s l)
            (atomic_after (History s) _ s (History-refl s) (applied s l))
      | inr missing ↦ rw missing (History-refl s)
    ]
