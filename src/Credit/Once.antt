-- ===== src/Credit/Once.antt =====
-- A verified payment is credited once.
use valuecrm.Base.{
  some_inj, inl, inr, ℕ, ◌≡◌, refl, ◌∙◌, sym, ap, Bool, true, false, String, Option, some, ◌==◌,
  get_or, if◌then◌else◌, subst,
}
use valuecrm.Table.{get}
use valuecrm.Settings.{Env}
use valuecrm.Model.{Db, Order, Installment, PaymentAttempt}
use valuecrm.Model.Status.{
  InstallmentStatus, AttemptStatus, attempt_status_eq, installment_status_eq,
}
use valuecrm.Exec.{Result, ok, pure, ◌>>=◌, ◌>>◌}
use valuecrm.Exec.Laws.{bind-eq-ok, atomic-ok, atomic-eq-ok}
use valuecrm.Exec.Preserves.{Preserves, Preserves-bind, Preserves-pure, at_end}
use valuecrm.Transitions.{attempt_transitions}
use valuecrm.Transitions.Paths.{Follows, Follows-terminal}
use valuecrm.Transitions.Effects.{attempt_transition-ok, installment_transition-ok}
use valuecrm.Credit.{
  nothing_applied, book, credit, update_order_status, create_followups, apply_verified_success,
}
use valuecrm.Credit.Locked.{Locked, applied_to, success-Locked, success-cases}
use valuecrm.History.{History, History-refl, History-trans}
use valuecrm.History.Credit.{book-History, update_order_status-History, success-History}
use valuecrm.History.Followups.{create_followups-History}

-- In `t` the attempt `k` has succeeded and the installment `j` is paid.
pub record Credited (k j : ℕ) (t : Db) : Type 0 where
  pub attempt : PaymentAttempt
  pub installment : Installment
  pub at_attempt : get k t.attempts ≡ some attempt
  pub succeeded : attempt.status ≡ AttemptStatus.succeeded
  pub at_installment : get j t.installments ≡ some installment
  pub paid : installment.status ≡ InstallmentStatus.paid

pub succeeded-stays :
    {a b : AttemptStatus}
    → a ≡ AttemptStatus.succeeded
    → Follows attempt_transitions a b
    → b ≡ AttemptStatus.succeeded
succeeded-stays e p = Follows-terminal (rw e) p ∙ e

book-paid :
    (env : Env) (k j : ℕ) (i : Installment) (o : Order) (v : ℕ) (s : Db) {t : Db}
    → book env k j i o v s ≡ (ok tt, t)
    → (r : Installment) × (get j t.installments ≡ some r) × (r.status ≡ InstallmentStatus.paid)
unfolding book
book-paid env k j i o v s {t} h =
    let (r, u, e, rest) = bind-eq-ok _ _ s h in
    let (at, status) = installment_transition-ok j InstallmentStatus.paid (some v) s e in
    let later : History u t =
      at_end (History u)
        (update_order_status env i.order o.status >> create_followups env k j i.order o) u rest
        ((Preserves-bind _ _ (update_order_status-History env i.order o.status)
            (λ _. create_followups-History env k j i.order o)).after
          u (History-refl u)) in
    let (r', at', kept) = later.installments.at j r at in
    (r', at', ap (λ (x : Installment). x.status) (kept.paid status) ∙ status)

-- What `credit` has done when it returns.
credit-Credited :
    (env : Env) (k : ℕ) (a : PaymentAttempt) (i : Installment) (o : Order) (p : Option String)
    (v : Option ℕ) (s : Db) {t : Db}
    → credit env k a i o p v s ≡ (ok tt, t)
    → Credited k a.installment t
unfolding credit
credit-Credited env k a i o p v s {t} h =
    let (x, s₁, e₁, h₁) = bind-eq-ok _ _ s h in
    let (y, s₂, e₂, h₂) = bind-eq-ok _ _ s₁ h₁ in
    let (b, u, e₃, h₃) = bind-eq-ok _ _ s₂ h₂ in
    let (at, done) = attempt_transition-ok k AttemptStatus.succeeded "" "" s₂ e₃ in
    let amount : ℕ = get_or v i.expected_amount in
    let later : History u t =
      at_end (History u) (book env k a.installment i o amount) u h₃
        ((book-History env k a.installment i o amount).after u (History-refl u)) in
    let (b', at', kept) = later.attempts.at k b at in
    let (r, at_r, paid) = book-paid env k a.installment i o amount u h₃ in
    record {
      attempt = b';
      installment = r;
      at_attempt = at';
      succeeded = succeeded-stays done kept.path;
      at_installment = at_r;
      paid = paid;
    }

-- The rows that a call locks are still there in any later state.
pub Locked-later : {k : ℕ} {s t : Db} → History s t → Locked k s → Locked k t
Locked-later {k} {s} {t} h l =
    let (a, at_a, kept_a) = h.attempts.at k l.attempt l.at_attempt in
    let (i, at_i, kept_i) =
      h.installments.at l.attempt.installment l.installment l.at_installment in
    let (o, at_o, kept_o) = h.orders.at l.installment.order l.order l.at_order in
    record {
      attempt = a;
      installment = i;
      order = o;
      at_attempt = at_a;
      at_installment = rw kept_a.installment at_i;
      at_order = rw kept_i.order at_o;
    }

Credited-later : {k j : ℕ} {s t : Db} → History s t → Credited k j s → Credited k j t
Credited-later {k} {j} h c =
    let (a, at_a, kept_a) = h.attempts.at k c.attempt c.at_attempt in
    let (i, at_i, kept_i) = h.installments.at j c.installment c.at_installment in
    record {
      attempt = a;
      installment = i;
      at_attempt = at_a;
      succeeded = succeeded-stays c.succeeded kept_a.path;
      at_installment = at_i;
      paid = ap (λ (x : Installment). x.status) (kept_i.paid c.paid) ∙ c.paid;
    }

not_newly : (k : ℕ) (s : Db) {t : Db} → ¬ ((nothing_applied k false >> pure false) s ≡ (ok true, t))
unfolding ◌>>=◌
not_newly k s q = cc

newly_ends :
    (k : ℕ) (s : Db) {t : Db} → (nothing_applied k true >> pure true) s ≡ (ok true, t) → s ≡ t
unfolding ◌>>=◌
newly_ends k s q = cc

module _ (env : Env) (k : ℕ) (p : Option String) (v : Option ℕ) where
  -- If `apply_verified_success` returns that the payment is newly applied, its attempt,
  -- installment and order stood in the database; afterwards the attempt is succeeded and the
  -- installment is paid.
  pub success-Credited :
      (s : Db) {t : Db}
      → apply_verified_success env nothing_applied k p v s ≡ (ok true, t)
      → (l : Locked k s) × Credited k l.attempt.installment t
  unfolding applied_to
  success-Credited s {t} h = elim (success-cases env nothing_applied k p v s) [
    | inr missing ↦ cc
    | inl l ↦ (
      l,
      applied l (l.attempt.status == AttemptStatus.succeeded)
          (atomic-eq-ok _ s (sym (success-Locked env nothing_applied k p v s l) ∙ h)),
    )
  ]
    where
      applied :
          (l : Locked k s) (b : Bool)
          → ◌≡◌ {A = Result Bool × Db}
              ((if b
                  then nothing_applied k false >> pure false
                  else credit env k l.attempt l.installment l.order p v
                    >> (nothing_applied k true >> pure true))
                s)
              (ok true, t)
          → Credited k l.attempt.installment t
      applied l true q = absurd (not_newly k s q)
      applied l false q =
          let (x, u, e, r) = bind-eq-ok (credit env k l.attempt l.installment l.order p v) _ s q in
          subst (Credited k l.attempt.installment) (newly_ends k u r)
            (credit-Credited env k l.attempt l.installment l.order p v s e)

  -- Once an attempt has succeeded, applying a payment to it changes nothing.
  pub success_again :
      (s : Db) (l : Locked k s)
      → l.attempt.status ≡ AttemptStatus.succeeded
      → apply_verified_success env nothing_applied k p v s ≡ (ok false, s)
  unfolding applied_to
  success_again s l done =
      success-Locked env nothing_applied k p v s l
      ∙ atomic-ok (applied_to env nothing_applied k p v l.attempt l.installment l.order) s
          (rw done (unfold ◌>>=◌ in refl))

-- After a call of `apply_verified_success` that newly applied a payment to an attempt, and after
-- whatever else has then happened to the database that keeps the history, any further call for
-- that attempt, whatever payment id and amount it brings, reports that nothing is new and leaves
-- the database as it is.
pub credited_once :
    (env : Env) (k : ℕ) (p q : Option String) (v w : Option ℕ) (s t u : Db)
    → apply_verified_success env nothing_applied k p v s ≡ (ok true, t)
    → History t u
    → apply_verified_success env nothing_applied k q w u ≡ (ok false, u)
credited_once env k p q v w s t u h later =
    let (l, c) = success-Credited env k p v s h in
    let kept : Preserves (History s) (apply_verified_success env nothing_applied k p v) =
      success-History env nothing_applied k p v (λ s₀ j newly. Preserves-pure tt) in
    let past : History s t =
      at_end (History s) (apply_verified_success env nothing_applied k p v) s h
        (kept.after s (History-refl s)) in
    let l' : Locked k u = Locked-later (History-trans s t u past later) l in
    let c' : Credited k l.attempt.installment u = Credited-later later c in
    let same : l'.attempt ≡ c'.attempt = some_inj (sym l'.at_attempt ∙ c'.at_attempt) in
    success_again env k q w u l' (ap (λ (x : PaymentAttempt). x.status) same ∙ c'.succeeded)
