-- ===== src/Delivery/Outcome.antt =====
-- What one delivery attempt makes of a confirmation, as one step of its row.
use valuecrm.Base.{
  ℕ, ⊤, ◌≡◌, refl, Bool, true, false, not, none, some, arith, ◌==◌, string_eq, leb, if◌then◌else◌,
  Bool-cases, inl, inr, ap, ◌∙◌, sym,
}
use valuecrm.Table.{get, set, get-set_self, set-set, set-get}
use valuecrm.Model.{
  Db, PaymentConfirmation, invalid_recipient, transient_delivery_error, configuration_error,
  max_attempts_exceeded,
}
use valuecrm.Exec.{Result, ok, atomic, maybe, pure, write_confirmations, ◌>>=◌}
use valuecrm.Exec.Laws.{bind-ok}
use valuecrm.Delivery.{
  Sending, delivered, transient, broken, Mailer, is_claimable, max_attempts, reviewed, claimed,
  sent, to_retry, rewrite, claim, finish, process_one,
}

abbrev pub after_sending : Sending → ℕ → PaymentConfirmation → PaymentConfirmation
after_sending delivered now c = sent now c
after_sending transient now c = to_retry transient_delivery_error now c
after_sending broken now c = reviewed configuration_error now c

-- The row after one delivery attempt.
abbrev pub step : Mailer → ℕ → PaymentConfirmation → PaymentConfirmation
step send now c =
    if not (is_claimable c.status)
    then c
    else if leb max_attempts c.attempt_count
    then reviewed max_attempts_exceeded now c
    else if c.recipient_snapshot == ""
    then reviewed invalid_recipient now (claimed now c)
    else after_sending (send (claimed now c)) now (claimed now c)

-- The database with one confirmation replaced.
abbrev pub saved : ℕ → PaymentConfirmation → Db → Db
saved k c s = record s { confirmations = set k c s.confirmations }

rewrite-ok :
    (k : ℕ) (f : ℕ → PaymentConfirmation → PaymentConfirmation) (c : PaymentConfirmation) (s : Db)
    → get k s.confirmations ≡ some c
    → rewrite k f s ≡ (ok tt, saved k (f s.clock c) s)
unfolding rewrite atomic ◌>>=◌ write_confirmations
rewrite-ok k f c s h = ground arith

-- The finish after a claim: the row that the claim saved is replaced.
finish-ok :
    (k : ℕ) (f : ℕ → PaymentConfirmation → PaymentConfirmation) (c d : PaymentConfirmation) (s : Db)
    → get k s.confirmations ≡ some c
    → rewrite k f (saved k d s) ≡ (ok tt, saved k (f s.clock d) s)
finish-ok k f c d s h =
    rewrite-ok k f d (saved k d s) (get-set_self k d s.confirmations h)
    ∙ ap (λ t. (ok tt, record s { confirmations = t })) (set-set k d (f s.clock d) s.confirmations)

finished-ok :
    (k : ℕ) (x : Sending) (c d : PaymentConfirmation) (s : Db)
    → get k s.confirmations ≡ some c
    → finish k x (saved k d s) ≡ (ok tt, saved k (after_sending x s.clock d) s)
finished-ok k delivered c d s h = finish-ok k sent c d s h
finished-ok k transient c d s h = finish-ok k (to_retry transient_delivery_error) c d s h
finished-ok k broken c d s h = finish-ok k (reviewed configuration_error) c d s h

-- What a claim answers and saves, by its two tests.
claim-ok :
    (k : ℕ) (c : PaymentConfirmation) (s : Db)
    → get k s.confirmations ≡ some c
    → claim k s ≡ (
        if not (is_claimable c.status)
        then (ok none, s)
        else if leb max_attempts c.attempt_count
        then (ok none, saved k (reviewed max_attempts_exceeded s.clock c) s)
        else (ok (some (claimed s.clock c)), saved k (claimed s.clock c) s))
unfolding claim atomic ◌>>=◌ maybe write_confirmations
claim-ok k c s h = ground arith

-- For a confirmation that stands in the database, `process_one` returns, and the database is the old one
-- with that row replaced by its `step`: unless it is claimable it stays as it is; with its attempts
-- spent it goes to manual review; otherwise it counts one attempt more and, by what came of the mail,
-- is sent, put back for a retry, or handed to manual review.
pub process_one-step :
    (send : Mailer) (k : ℕ) (s : Db) {c : PaymentConfirmation}
    → get k s.confirmations ≡ some c
    → process_one send k s ≡ (ok tt, saved k (step send s.clock c) s)
unfolding process_one maybe pure
process_one-step send k s {c} h = elim (Bool-cases (is_claimable c.status)) [
  | inr closed ↦
      let e : claim k s ≡ (ok none, s) = claim-ok k c s h ∙ rw closed refl in
      bind-ok _ _ s e
      ∙ rw closed
          (ap (λ t. (ok tt, record s { confirmations = t })) (sym (set-get k c s.confirmations h)))
  | inl ready ↦ elim (Bool-cases (leb max_attempts c.attempt_count)) [
    | inl spent ↦
        let e : claim k s ≡ (ok none, saved k (reviewed max_attempts_exceeded s.clock c) s) =
          claim-ok k c s h ∙ rw (ready, spent) refl in
        bind-ok _ _ s e ∙ rw (ready, spent) refl
    | inr early ↦
        let e : claim k s ≡ (ok (some (claimed s.clock c)), saved k (claimed s.clock c) s) =
          claim-ok k c s h ∙ rw (ready, early) refl in
        bind-ok _ _ s e ∙ rw (ready, early) (mailed (c.recipient_snapshot == ""))
  ]
]
  where
    mailed :
        (empty : Bool)
        → ◌≡◌ {A = Result ⊤ × Db}
            ((if empty
                then rewrite k (reviewed invalid_recipient)
                else finish k (send (claimed s.clock c)))
              (saved k (claimed s.clock c) s))
            (
              ok tt,
              saved k
                  (if empty
                    then reviewed invalid_recipient s.clock (claimed s.clock c)
                    else after_sending (send (claimed s.clock c)) s.clock (claimed s.clock c))
                  s,
            )
    mailed true = finish-ok k (reviewed invalid_recipient) c (claimed s.clock c) s h
    mailed false = finished-ok k (send (claimed s.clock c)) c (claimed s.clock c) s h

pub process_one_missing :
    (send : Mailer) (k : ℕ) (s : Db)
    → get k s.confirmations ≡ none
    → process_one send k s ≡ (ok tt, s)
unfolding process_one claim maybe pure atomic ◌>>=◌
process_one_missing send k s h = ground arith
