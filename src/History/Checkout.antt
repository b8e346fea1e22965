-- ===== src/History/Checkout.antt =====
-- The calls of `CheckoutService` keep the history, on every path.
use valuecrm.Base.{ℕ, String, refl, inl, inr, Option-cases}
use valuecrm.Table.{get, add}
use valuecrm.Table.Evolves.{Evolves-add}
use valuecrm.Model.{Db, Installment, PaymentAttempt}
use valuecrm.Model.Status.{AttemptStatus}
use valuecrm.Exec.{Result, ok, err, tara, TaraError, modify}
use valuecrm.Exec.Preserves.{Preserves}
use valuecrm.Tara.{TaraStatus, LinkResponse, TransactionStatus}
use valuecrm.Transitions.{update_attempt}
use valuecrm.Transitions.Reads.{update_attempt_missing}
use valuecrm.Transitions.Paths.{here}
use valuecrm.Checkout.{
  Shop, create_attempt, get_or_create_current_attempt, transition_attempt_locked, rechecked,
  recheck_answer, recheck_unknown_attempt, transaction_status, with_links,
  persist_link_result_locked, link_error, link_answer, create_link_for_attempt, payment_link,
}
use valuecrm.Checkout.Pay.{
  answer_with, replace_attempt, pay_with, pay_outstanding_installment, require_public_base_url,
  reopen_expired, checkout_order, start_checkout, pay_next_installment,
}
use valuecrm.History.{History, History-refl, AttemptKept, AttemptKept-refl}
use valuecrm.History.Writes.{history_rules, Preserves-History}
use valuecrm.History.Link.{update_attempt-History}
use valuecrm.History.Credit.{
  get_attempt-History, get_installment-History, get_order-History, pass_invalid-History,
}
use valuecrm.History.Orders.{create_order-History}

with_links-Kept :
    (r : LinkResponse) (a : PaymentAttempt) (now : ℕ)
    → AttemptKept a (record (with_links r a) { updated_at = now })
with_links-Kept r a now = record {
  path = here;
  installment = refl;
  tara_product_id = refl;
  expected_amount = refl;
  currency = refl;
  payment_id = λ p h. h;
}

module _ {s₀ : Db} where
  pub add_attempt-History :
      (a : PaymentAttempt)
      → Preserves (History s₀) (modify (λ s. record s { attempts = add a s.attempts }))
  unfolding modify
  add_attempt-History a =
      Preserves-History (modify (λ s. record s { attempts = add a s.attempts }))
        (λ s. record {
          orders = (History-refl s).orders;
          installments = (History-refl s).installments;
          attempts = Evolves-add AttemptKept-refl a s.attempts;
        })
        s₀

  create_attempt-History :
      (shop : Shop) (k : ℕ) (i : Installment) → Preserves (History s₀) (create_attempt shop k i)
  unfolding create_attempt
  create_attempt-History shop k i = search (history_rules, add_attempt-History) depth 12

  current_attempt-History :
      (shop : Shop) (k : ℕ) → Preserves (History s₀) (get_or_create_current_attempt shop k)
  unfolding get_or_create_current_attempt
  current_attempt-History shop k =
      search (history_rules, get_installment-History, create_attempt-History) depth 12

  locked-History :
      (k : ℕ) (st : AttemptStatus) (raw : String)
      → Preserves (History s₀) (transition_attempt_locked k st raw)
  unfolding transition_attempt_locked
  locked-History k st raw =
      search (history_rules, get_attempt-History, pass_invalid-History) depth 12

  rechecked-History :
      (k : ℕ) (raw : String) (st : TaraStatus) → Preserves (History s₀) (rechecked k raw st)
  unfolding rechecked
  rechecked-History k raw TaraStatus.success = search (history_rules, locked-History)
  rechecked-History k raw TaraStatus.failure = search (history_rules, locked-History)
  rechecked-History k raw TaraStatus.pending = search history_rules
  rechecked-History k raw TaraStatus.unknown = search history_rules

  answer-History :
      (shop : Shop) (k : ℕ) (r : Result TransactionStatus)
      → Preserves (History s₀) (recheck_answer shop k r)
  unfolding recheck_answer
  answer-History shop k (ok r) = rechecked-History k _ _
  answer-History shop k (err (tara e)) = search history_rules
  answer-History shop k (err e) = search history_rules

  recheck-History :
      (shop : Shop) (k : ℕ) (a : PaymentAttempt)
      → Preserves (History s₀) (recheck_unknown_attempt shop k a)
  unfolding recheck_unknown_attempt
  recheck-History shop k a = answer-History shop k (transaction_status shop a)

  pub update-History :
      (k : ℕ) (f : PaymentAttempt → PaymentAttempt)
      → ((a : PaymentAttempt) (now : ℕ) → AttemptKept a (record (f a) { updated_at = now }))
      → Preserves (History s₀) (update_attempt k f)
  update-History k f keeps =
      Preserves-History (update_attempt k f)
        (λ s. elim (Option-cases (get k s.attempts)) [
          | inl missing ↦ rw (update_attempt_missing k s f missing) (History-refl s)
          | inr (a, found) ↦ update_attempt-History k f a s found (keeps a s.clock)
        ])
        s₀

  stored_links-History :
      (k : ℕ) (r : LinkResponse) → Preserves (History s₀) (update_attempt k (with_links r))
  stored_links-History k r = update-History k (with_links r) (with_links-Kept r)

  persist-History :
      (k : ℕ) (r : LinkResponse) → Preserves (History s₀) (persist_link_result_locked k r)
  unfolding persist_link_result_locked
  persist-History k r = search (history_rules, get_attempt-History, stored_links-History) depth 14

  link_error-History : (k : ℕ) (e : TaraError) → Preserves (History s₀) (link_error k e)
  unfolding link_error
  link_error-History k TaraError.timeout = search (history_rules, locked-History)
  link_error-History k TaraError.connection = search (history_rules, locked-History)
  link_error-History k TaraError.server = search (history_rules, locked-History)
  link_error-History k TaraError.malformed = search (history_rules, locked-History)
  link_error-History k TaraError.business = search (history_rules, locked-History)
  link_error-History k TaraError.client = search (history_rules, locked-History)
  link_error-History k e = search history_rules

  link_answer-History :
      (shop : Shop) (k : ℕ) (r : Result LinkResponse)
      → Preserves (History s₀) (link_answer shop k r)
  unfolding link_answer
  link_answer-History shop k (ok r) = search (history_rules, persist-History)
  link_answer-History shop k (err (tara e)) = link_error-History k e
  link_answer-History shop k (err e) = search history_rules

  create_link-History :
      (shop : Shop) (i : Installment) (k : ℕ) (a : PaymentAttempt)
      → Preserves (History s₀) (create_link_for_attempt shop i k a)
  unfolding create_link_for_attempt
  create_link-History shop i k a = link_answer-History shop k (payment_link shop i a)

  answer_with-History :
      (shop : Shop) (i : Installment) (e : ℕ × PaymentAttempt)
      → Preserves (History s₀) (answer_with shop i e)
  unfolding answer_with
  answer_with-History shop i (k, a) =
      search (history_rules, recheck-History, create_link-History) depth 12

  replace-History :
      (shop : Shop) (j : ℕ) (i : Installment) (k : ℕ)
      → Preserves (History s₀) (replace_attempt shop j i k)
  unfolding replace_attempt
  replace-History shop j i k =
      search (history_rules, locked-History, current_attempt-History, answer_with-History) depth 12

  pay_with-History :
      (shop : Shop) (j : ℕ) (i : Installment) (e : ℕ × PaymentAttempt)
      → Preserves (History s₀) (pay_with shop j i e)
  unfolding pay_with
  pay_with-History shop j i (k, a) =
      search (history_rules, recheck-History, replace-History, answer_with-History) depth 14

  pay-History :
      (shop : Shop) (order : ℕ) → Preserves (History s₀) (pay_outstanding_installment shop order)
  unfolding pay_outstanding_installment
  pay-History shop order =
      search (history_rules, current_attempt-History, pay_with-History) depth 12

  base_url-History : (shop : Shop) → Preserves (History s₀) (require_public_base_url shop)
  unfolding require_public_base_url
  base_url-History shop = search history_rules

  reopen_expired-History : (k : ℕ) → Preserves (History s₀) (reopen_expired k)
  unfolding reopen_expired
  reopen_expired-History k = search (history_rules, get_order-History) depth 12

  checkout_order-History :
      (shop : Shop) (c p : ℕ) (key : String) → Preserves (History s₀) (checkout_order shop c p key)
  unfolding checkout_order
  checkout_order-History shop c p key = search (history_rules, create_order-History) depth 12

  -- `pay_next_installment` loses no row of orders, installments or attempts, changes no frozen
  -- column, moves statuses along their tables only, and leaves paid installments and recorded
  -- payment ids as they are, whatever Tara answers, whether it returns or raises.
  pub pay_next-History :
      (shop : Shop) (order : ℕ) → Preserves (History s₀) (pay_next_installment shop order)
  unfolding pay_next_installment
  pay_next-History shop order =
      search (history_rules, base_url-History, reopen_expired-History, pay-History) depth 12

  -- `start_checkout` loses no row of orders, installments or attempts, changes no frozen column,
  -- moves statuses along their tables only, and leaves paid installments and recorded payment ids
  -- as they are, whatever Tara answers, whether it returns or raises.
  pub start_checkout-History :
      (shop : Shop) (c p : ℕ) (key : String) → Preserves (History s₀) (start_checkout shop c p key)
  unfolding start_checkout
  start_checkout-History shop c p key =
      search
        (
          history_rules, base_url-History, checkout_order-History, reopen_expired-History,
          pay-History,
        )
        depth 12
