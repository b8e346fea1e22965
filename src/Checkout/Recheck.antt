-- ===== src/Checkout/Recheck.antt =====
-- A payment that the customer's recheck finds paid is closed without being credited.
use valuecrm.Base.{sym, some_inj, ℕ, ◌≡◌, refl, ◌∙◌, ap, false, String, Option, some, take_text}
use valuecrm.Table.{get, set, exists, get-set_self}
use valuecrm.Settings.{Env}
use valuecrm.Model.{Db, PaymentAttempt}
use valuecrm.Model.Status.{AttemptStatus, attempt_status_eq}
use valuecrm.Exec.{ok, pure}
use valuecrm.Exec.Laws.{bind-ok, atomic-ok, catch-ok}
use valuecrm.Tara.{TaraStatus, TransactionStatus, normalized_status}
use valuecrm.Transitions.{conflicts, moved_attempt, attempt_transition}
use valuecrm.Transitions.Outcomes.{attempt_outcome, attempt_transition-outcome}
use valuecrm.Transitions.Reads.{get_attempt-eq}
use valuecrm.Credit.{nothing_applied, apply_verified_success}
use valuecrm.Credit.Locked.{Locked}
use valuecrm.Credit.Once.{success_again, succeeded-stays, Locked-later}
use valuecrm.History.{History}
use valuecrm.Checkout.{
  Shop, succeeded, result, transition_attempt_locked, rechecked, recheck_answer,
  recheck_unknown_attempt, transaction_status,
}

-- The row that a recheck that finds the attempt paid saves.
abbrev pub paid_row : PaymentAttempt → String → ℕ → PaymentAttempt
paid_row a raw now = record (moved_attempt a AttemptStatus.succeeded raw "" now) {
  updated_at = now;
}

module _ (k : ℕ) (s : Db) (a : PaymentAttempt) (raw : String) where
  transition-paid :
      get k s.attempts ≡ some a
      → a.status ≡ AttemptStatus.unknown
      → exists (conflicts k (moved_attempt a AttemptStatus.succeeded raw "" s.clock)) s.attempts
        ≡ false
      → attempt_transition k AttemptStatus.succeeded raw "" s ≡ (
        ok (paid_row a raw s.clock),
        record s { attempts = set k (paid_row a raw s.clock) s.attempts },
      )
  transition-paid h unknown clear =
      attempt_transition-outcome k AttemptStatus.succeeded raw "" s
      ∙ ap (λ o. attempt_outcome k AttemptStatus.succeeded raw "" o s) h
      ∙ rw (unknown, clear) refl

  locked-paid :
      get k s.attempts ≡ some a
      → a.status ≡ AttemptStatus.unknown
      → exists (conflicts k (moved_attempt a AttemptStatus.succeeded raw "" s.clock)) s.attempts
        ≡ false
      → transition_attempt_locked k AttemptStatus.succeeded raw s
        ≡ (ok tt, record s { attempts = set k (paid_row a raw s.clock) s.attempts })
  unfolding transition_attempt_locked pure
  locked-paid h unknown clear = atomic-ok _ s (
      bind-ok _ _ s (get_attempt-eq k s h)
      ∙ catch-ok _ _ s (bind-ok _ _ s (transition-paid h unknown clear)))

-- If a recheck of an unknown attempt learns from Tara that it was paid, and no unique index stands in
-- the way, the customer is told that the payment succeeded, every installment is as it was, and after
-- whatever else has then happened to the database that keeps the history, each call of
-- `apply_verified_success` for the attempt, whatever payment id and amount it brings, reports that
-- nothing is new and changes nothing.
pub recheck_uncredited :
    (shop : Shop) (env : Env) (k : ℕ) (s : Db) (l : Locked k s) (r : TransactionStatus)
    → l.attempt.status ≡ AttemptStatus.unknown
    → transaction_status shop l.attempt ≡ ok r
    → normalized_status shop.env.strip_upper r.status ≡ TaraStatus.success
    → exists
        (conflicts k
          (moved_attempt l.attempt AttemptStatus.succeeded (take_text 50 r.status) "" s.clock))
        s.attempts
      ≡ false
    → (t : Db) × (recheck_unknown_attempt shop k l.attempt s ≡ (ok (result succeeded), t))
      × (t.installments ≡ s.installments)
      × ((u : Db) (p : Option String) (v : Option ℕ)
          → History t u
          → apply_verified_success env nothing_applied k p v u ≡ (ok false, u))
unfolding recheck_unknown_attempt recheck_answer rechecked pure
recheck_uncredited shop env k s l r unknown answer paid clear =
    let raw : String = take_text 50 r.status in
    let row : PaymentAttempt = paid_row l.attempt raw s.clock in
    let t : Db = record s { attempts = set k row s.attempts } in
    let l' : Locked k t = record {
      attempt = row;
      installment = l.installment;
      order = l.order;
      at_attempt = get-set_self k row s.attempts l.at_attempt;
      at_installment = l.at_installment;
      at_order = l.at_order;
    } in
    (
      t,
      rw (answer, paid) (bind-ok _ _ s (locked-paid k s l.attempt raw l.at_attempt unknown clear)),
      refl,
      λ u p v later.
          let m : Locked k u = Locked-later later l' in
          let (a, at_a, kept) = later.attempts.at k row l'.at_attempt in
          let same : m.attempt ≡ a = some_inj (sym m.at_attempt ∙ at_a) in
          success_again env k p v u m
            (ap (λ (x : PaymentAttempt). x.status) same ∙ succeeded-stays refl kept.path),
    )
