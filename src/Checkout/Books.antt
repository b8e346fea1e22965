-- ===== src/Checkout/Books.antt =====
-- Paying sends the customer to an attempt; it never books a payment.
use valuecrm.Base.{ℕ, ◌≡◌, refl, ap, String, Option, none, some, if_intro, elem, ◌==◌}
use valuecrm.Table.{Table, get, add, exists}
use valuecrm.Model.{Db, Installment, PaymentAttempt}
use valuecrm.Model.Status.{AttemptStatus, attempt_status_eq}
use valuecrm.Exec.{Error, Result, ok, err, tara, TaraError, invalid_transition, modify}
use valuecrm.Exec.Preserves.{Preserves, preserves_rules}
use valuecrm.Tara.{TaraStatus, LinkResponse, TransactionStatus}
use valuecrm.Transitions.{
  get_attempt, get_installment, save_attempt, update_attempt, attempt_transition,
  attempt_transitions, moved_attempt, conflicts,
}
use valuecrm.Transitions.Outcomes.{attempt_outcome, attempt_transition-outcome}
use valuecrm.Credit.{pass_invalid}
use valuecrm.Checkout.{
  Shop, create_attempt, get_or_create_current_attempt, transition_attempt_locked, rechecked,
  recheck_answer, recheck_unknown_attempt, transaction_status, persist_link_result_locked,
  link_error, link_answer, create_link_for_attempt, payment_link,
}
use valuecrm.Checkout.Pay.{answer_with, replace_attempt, pay_with, pay_outstanding_installment}

-- Everything but the attempts is as it was, in every table.
pub record SameBooks (s t : Db) : Type 0 where
  pub same : t ≡ record s { attempts = t.attempts }

pub SameBooks-refl : (s : Db) → SameBooks s s
SameBooks-refl s = record { same = refl }

-- A write of the attempts.
write-SameBooks :
    {s t : Db} (a : Table PaymentAttempt) → SameBooks s t → SameBooks s (record t { attempts = a })
write-SameBooks a h = record { same = ap (λ (u : Db). record u { attempts = a }) h.same }

attempt_outcome-SameBooks :
    {s₀ : Db} (k : ℕ) (st : AttemptStatus) (raw message : String) (a : Option PaymentAttempt)
    (s : Db)
    → SameBooks s₀ s
    → SameBooks s₀ (attempt_outcome k st raw message a s).1
attempt_outcome-SameBooks {s₀} k st raw message none s h = h
attempt_outcome-SameBooks {s₀} k st raw message (some a) s h =
    let P : Result PaymentAttempt × Db → Type 0 = λ r. SameBooks s₀ r.1 in
    if_intro P (st == a.status) (λ _. h)
      (λ _.
        if_intro P (elem st (attempt_transitions a.status))
          (λ _.
            if_intro P (exists (conflicts k (moved_attempt a st raw message s.clock)) s.attempts)
              (λ _. h) (λ _. write-SameBooks _ h))
          (λ _. h))

module _ {s₀ : Db} where
  transition-SameBooks :
      (k : ℕ) (st : AttemptStatus) (raw message : String)
      → Preserves (SameBooks s₀) (attempt_transition k st raw message)
  transition-SameBooks k st raw message = record {
    after = λ s h.
        rw attempt_transition-outcome
          (attempt_outcome-SameBooks k st raw message (get k s.attempts) s h);
  }

  save_attempt-SameBooks :
      (k : ℕ) (a : PaymentAttempt) → Preserves (SameBooks s₀) (save_attempt k a)
  unfolding save_attempt
  save_attempt-SameBooks k a = record {
    after = λ s h.
        if_intro (λ (r : Result PaymentAttempt × Db). SameBooks s₀ r.1)
          (exists (conflicts k a) s.attempts) (λ _. h) (λ _. write-SameBooks _ h);
  }

  add_attempt-SameBooks :
      (a : PaymentAttempt)
      → Preserves (SameBooks s₀) (modify (λ s. record s { attempts = add a s.attempts }))
  unfolding modify
  add_attempt-SameBooks a = record { after = λ s h. write-SameBooks _ h }

  update_attempt-SameBooks :
      (k : ℕ) (f : PaymentAttempt → PaymentAttempt) → Preserves (SameBooks s₀) (update_attempt k f)
  unfolding update_attempt
  update_attempt-SameBooks k f = search (preserves_rules, save_attempt-SameBooks) depth 12

  get_attempt-SameBooks : (k : ℕ) → Preserves (SameBooks s₀) (get_attempt k)
  unfolding get_attempt
  get_attempt-SameBooks k = search preserves_rules

  get_installment-SameBooks : (k : ℕ) → Preserves (SameBooks s₀) (get_installment k)
  unfolding get_installment
  get_installment-SameBooks k = search preserves_rules

  pass_invalid-SameBooks : (e : Error) → Preserves (SameBooks s₀) (pass_invalid e)
  pass_invalid-SameBooks invalid_transition = search preserves_rules
  pass_invalid-SameBooks e = search preserves_rules

ruleset books_rules = (
  preserves_rules, transition-SameBooks, add_attempt-SameBooks, update_attempt-SameBooks,
  get_attempt-SameBooks, get_installment-SameBooks, pass_invalid-SameBooks,
)

module _ {s₀ : Db} where
  locked-SameBooks :
      (k : ℕ) (st : AttemptStatus) (raw : String)
      → Preserves (SameBooks s₀) (transition_attempt_locked k st raw)
  unfolding transition_attempt_locked
  locked-SameBooks k st raw = search books_rules depth 12

  create_attempt-SameBooks :
      (shop : Shop) (k : ℕ) (i : Installment) → Preserves (SameBooks s₀) (create_attempt shop k i)
  unfolding create_attempt
  create_attempt-SameBooks shop k i = search books_rules depth 12

  current_attempt-SameBooks :
      (shop : Shop) (k : ℕ) → Preserves (SameBooks s₀) (get_or_create_current_attempt shop k)
  unfolding get_or_create_current_attempt
  current_attempt-SameBooks shop k = search (books_rules, create_attempt-SameBooks) depth 12

  rechecked-SameBooks :
      (k : ℕ) (raw : String) (st : TaraStatus) → Preserves (SameBooks s₀) (rechecked k raw st)
  unfolding rechecked
  rechecked-SameBooks k raw TaraStatus.success = search (books_rules, locked-SameBooks)
  rechecked-SameBooks k raw TaraStatus.failure = search (books_rules, locked-SameBooks)
  rechecked-SameBooks k raw TaraStatus.pending = search books_rules
  rechecked-SameBooks k raw TaraStatus.unknown = search books_rules

  answer-SameBooks :
      (shop : Shop) (k : ℕ) (r : Result TransactionStatus)
      → Preserves (SameBooks s₀) (recheck_answer shop k r)
  unfolding recheck_answer
  answer-SameBooks shop k (ok r) = rechecked-SameBooks k _ _
  answer-SameBooks shop k (err (tara e)) = search books_rules
  answer-SameBooks shop k (err e) = search books_rules

  recheck-SameBooks :
      (shop : Shop) (k : ℕ) (a : PaymentAttempt)
      → Preserves (SameBooks s₀) (recheck_unknown_attempt shop k a)
  unfolding recheck_unknown_attempt
  recheck-SameBooks shop k a = answer-SameBooks shop k (transaction_status shop a)

  persist-SameBooks :
      (k : ℕ) (r : LinkResponse) → Preserves (SameBooks s₀) (persist_link_result_locked k r)
  unfolding persist_link_result_locked
  persist-SameBooks k r = search books_rules depth 14

  link_error-SameBooks : (k : ℕ) (e : TaraError) → Preserves (SameBooks s₀) (link_error k e)
  unfolding link_error
  link_error-SameBooks k TaraError.timeout = search (books_rules, locked-SameBooks)
  link_error-SameBooks k TaraError.connection = search (books_rules, locked-SameBooks)
  link_error-SameBooks k TaraError.server = search (books_rules, locked-SameBooks)
  link_error-SameBooks k TaraError.malformed = search (books_rules, locked-SameBooks)
  link_error-SameBooks k TaraError.business = search (books_rules, locked-SameBooks)
  link_error-SameBooks k TaraError.client = search (books_rules, locked-SameBooks)
  link_error-SameBooks k e = search books_rules

  link_answer-SameBooks :
      (shop : Shop) (k : ℕ) (r : Result LinkResponse)
      → Preserves (SameBooks s₀) (link_answer shop k r)
  unfolding link_answer
  link_answer-SameBooks shop k (ok r) = search (books_rules, persist-SameBooks)
  link_answer-SameBooks shop k (err (tara e)) = link_error-SameBooks k e
  link_answer-SameBooks shop k (err e) = search books_rules

  create_link-SameBooks :
      (shop : Shop) (i : Installment) (k : ℕ) (a : PaymentAttempt)
      → Preserves (SameBooks s₀) (create_link_for_attempt shop i k a)
  unfolding create_link_for_attempt
  create_link-SameBooks shop i k a = link_answer-SameBooks shop k (payment_link shop i a)

  answer_with-SameBooks :
      (shop : Shop) (i : Installment) (e : ℕ × PaymentAttempt)
      → Preserves (SameBooks s₀) (answer_with shop i e)
  unfolding answer_with
  answer_with-SameBooks shop i (k, a) =
      search (books_rules, recheck-SameBooks, create_link-SameBooks) depth 12

  replace-SameBooks :
      (shop : Shop) (j : ℕ) (i : Installment) (k : ℕ)
      → Preserves (SameBooks s₀) (replace_attempt shop j i k)
  unfolding replace_attempt
  replace-SameBooks shop j i k =
      search (books_rules, locked-SameBooks, current_attempt-SameBooks, answer_with-SameBooks) depth
        12

  pay_with-SameBooks :
      (shop : Shop) (j : ℕ) (i : Installment) (e : ℕ × PaymentAttempt)
      → Preserves (SameBooks s₀) (pay_with shop j i e)
  unfolding pay_with
  pay_with-SameBooks shop j i (k, a) =
      search (books_rules, recheck-SameBooks, replace-SameBooks, answer_with-SameBooks) depth 14

  pay_rules-SameBooks :
      (shop : Shop) (order : ℕ) → Preserves (SameBooks s₀) (pay_outstanding_installment shop order)
  unfolding pay_outstanding_installment
  pay_rules-SameBooks shop order =
      search (books_rules, current_attempt-SameBooks, pay_with-SameBooks) depth 12

-- Sending a customer to pay an order changes no table of the database but that of the payment
-- attempts, whatever Tara answers and however the call ends.
pub pay-SameBooks :
    (shop : Shop) (order : ℕ) (s : Db) → SameBooks s (pay_outstanding_installment shop order s).1
pay-SameBooks shop order s = (pay_rules-SameBooks shop order).after s (SameBooks-refl s)
