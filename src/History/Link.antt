-- ===== src/History/Link.antt =====
-- Linking a payment id to an attempt keeps the history, and no transition changes the id.
use valuecrm.Base.{
  truthy, ℕ, ⊤, ◌≡◌, refl, Bool, String, Option, none, some, elem, if◌then◌else◌, ◌∙◌, ap, ◌==◌,
  if_intro, Option-cases, inl, inr,
}
use valuecrm.Table.{get, exists}
use valuecrm.Table.Evolves.{Evolves, Evolves-refl, Evolves-trans, Evolves-set}
use valuecrm.Model.{Db, Installment, PaymentAttempt}
use valuecrm.Model.Status.{AttemptStatus, order_status_eq, installment_status_eq, attempt_status_eq}
use valuecrm.Exec.{Exec, payment_id_conflict, Result, when, gets, maybe, raise, pure}
use valuecrm.Exec.Preserves.{bind_after, Preserves-pure, Preserves, preserves_rules}
use valuecrm.Transitions.Outcomes.{attempt_outcome, attempt_transition-outcome}
use valuecrm.Transitions.{
  attempt_transitions, moved_attempt, conflicts, attempt_transition, update_attempt,
}
use valuecrm.Credit.{
  reopen_for_late_success, expire_other, linked_elsewhere, link_own, link_payment_id,
}
use valuecrm.Transitions.Reads.{update_attempt-eq}
use valuecrm.Transitions.Paths.{here}
use valuecrm.History.{AttemptKept, History, History-refl}
use valuecrm.History.Writes.{history_rules, save_attempt-History, attempt_transition-History}

-- No transition writes a payment id.
abbrev pub SameId : PaymentAttempt → PaymentAttempt → Type 0
SameId a b = b.tara_payment_id ≡ a.tara_payment_id

pub record SameIds (s t : Db) : Type 0 where
  pub history : History s t
  pub ids : Evolves SameId s.attempts t.attempts

pub SameIds-refl : (s : Db) → SameIds s s
SameIds-refl s = record { history = History-refl s; ids = Evolves-refl (λ a. refl) s.attempts }

attempt_outcome-ids :
    (k : ℕ) (s : Db) (new_status : AttemptStatus) (raw message : String) (a : Option PaymentAttempt)
    → get k s.attempts ≡ a
    → Evolves SameId s.attempts (attempt_outcome k new_status raw message a s).1.attempts
attempt_outcome-ids k s new_status raw message none h = Evolves-refl (λ a. refl) s.attempts
attempt_outcome-ids k s new_status raw message (some a) h =
    let same : Evolves SameId s.attempts s.attempts = Evolves-refl (λ a. refl) s.attempts in
    let moved : PaymentAttempt = moved_attempt a new_status raw message s.clock in
    let P : Result PaymentAttempt × Db → Type 0 = λ r. Evolves SameId s.attempts r.1.attempts in
    if_intro P (new_status == a.status) (λ _. same)
      λ _.
        if_intro P (elem new_status (attempt_transitions a.status))
          (λ _.
            if_intro P (exists (conflicts k moved) s.attempts) (λ _. same)
              (λ _.
                Evolves-set (λ a. refl) k a (record moved { updated_at = s.clock }) s.attempts h
                  refl))
          (λ _. same)

module _ {s₀ : Db} where
  attempt_transition-SameIds :
      (k : ℕ) (new_status : AttemptStatus) (raw message : String)
      → Preserves (SameIds s₀) (attempt_transition k new_status raw message)
  attempt_transition-SameIds k new_status raw message = record {
    after = λ s h. record {
      history = (attempt_transition-History k new_status raw message).after s h.history;
      ids = rw attempt_transition-outcome (
          Evolves-trans (λ a b c p q. q ∙ p) s₀.attempts s.attempts _ h.ids
            (attempt_outcome-ids k s new_status raw message (get k s.attempts) refl));
    };
  }

  expire_other-SameIds : (e : ℕ × PaymentAttempt) → Preserves (SameIds s₀) (expire_other e)
  expire_other-SameIds (j, a) = search (preserves_rules, attempt_transition-SameIds) depth 12

  reopen-SameIds :
      (k : ℕ) (a : PaymentAttempt) (i : Installment)
      → Preserves (SameIds s₀) (reopen_for_late_success k a i)
  unfolding reopen_for_late_success
  reopen-SameIds k a i =
      search (preserves_rules, attempt_transition-SameIds, expire_other-SameIds) depth 12

  pub reopen_if-SameIds :
      (b : Bool) (k : ℕ) (a : PaymentAttempt) (i : Installment)
      → Preserves (SameIds s₀) (when b (reopen_for_late_success k a i))
  reopen_if-SameIds b k a i = search (preserves_rules, reopen-SameIds) depth 12

-- The row that gets a payment id had none.
link_Kept :
    (a : PaymentAttempt) (p : String) (now : ℕ)
    → truthy a.tara_payment_id ≡ none
    → AttemptKept a (record a { tara_payment_id = some p; updated_at = now })
link_Kept a p now empty = record {
  path = here;
  installment = refl;
  tara_product_id = refl;
  expected_amount = refl;
  currency = refl;
  payment_id = λ q h. cc;
}

pub update_attempt-History :
    (k : ℕ) (f : PaymentAttempt → PaymentAttempt) (a : PaymentAttempt) (s : Db)
    → get k s.attempts ≡ some a
    → AttemptKept a (record (f a) { updated_at = s.clock })
    → History s (update_attempt k f s).1
update_attempt-History k f a s h kept =
    rw (update_attempt-eq k s f h) (save_attempt-History k s a (f a) h kept)

-- Linking keeps the history while the table still has the payment id that was read.
link_own-History :
    (k : ℕ) (p : String) (a : PaymentAttempt) (o : Option String) (s : Db)
    → truthy a.tara_payment_id ≡ o
    → get k s.attempts ≡ some a
    → History s (link_own k p o s).1
link_own-History k p a none s e h =
    bind_after (History s) (History s)
      (update_attempt k (λ (b : PaymentAttempt). record b { tara_payment_id = some p })) _ s
      (update_attempt-History k _ a s h (link_Kept a p s.clock e)) (λ t q. q)
      (λ _. (Preserves-pure tt).after)
link_own-History k p a (some q) s e h =
    let kept : Preserves (History s) (link_own k p (some q)) = search history_rules in
    kept.after s (History-refl s)

pub link-History :
    (k : ℕ) (attempt a : PaymentAttempt) (p : Option String) (s : Db)
    → get k s.attempts ≡ some a
    → a.tara_payment_id ≡ attempt.tara_payment_id
    → History s (link_payment_id k attempt p s).1
unfolding link_payment_id maybe pure gets raise
link-History k attempt a p s h same = elim (Option-cases (truthy p)) [
  | inl empty ↦ rw (empty, maybe) (History-refl s)
  | inr (q, e) ↦
      rw (e, maybe)
        (bind_after (History s) (λ t. t ≡ s) (gets (λ t. exists (linked_elsewhere k q) t.attempts))
          (λ clash.
            if clash
            then raise payment_id_conflict
            else link_own k q (truthy attempt.tara_payment_id))
          s refl (λ t here. rw here (History-refl s))
          λ clash t here. rw here (
            if_intro (λ (m : Exec ⊤). History s (m s).1) clash (λ _. History-refl s)
              (λ _. link_own-History k q a (truthy attempt.tara_payment_id) s (ap truthy same) h)))
]
