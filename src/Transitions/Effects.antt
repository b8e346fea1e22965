-- ===== src/Transitions/Effects.antt =====
-- What a `transition` that returned has left in the table.
use valuecrm.Base.{
  ℕ, ◌≡◌, if_intro, refl, ◌∙◌, sym, Bool, true, false, String, Option, none, some, arith, ◌==◌,
  nat_eq, elem, if◌then◌else◌,
}
use valuecrm.Table.{get, set, exists, get-set_self}
use valuecrm.Model.{Db, Installment, PaymentAttempt}
use valuecrm.Model.Status.{
  InstallmentStatus, AttemptStatus, order_status_eq, installment_status_eq, attempt_status_eq,
  attempt_status_beq_iff, installment_status_beq_iff,
}
use valuecrm.Exec.{Result, ok, err, integrity, invalid_transition}
use valuecrm.Transitions.{
  attempt_transitions, installment_transitions, moved_installment, conflicts, moved_attempt,
  attempt_transition, installment_transition,
}
use valuecrm.Transitions.Outcomes.{
  attempt_outcome, attempt_transition-outcome, installment_outcome, installment_transition-outcome,
}

-- The three tests of an attempt's transition, on the results that they choose between.
attempt_found :
    (k : ℕ) (new_status : AttemptStatus) (s : Db) (a row : PaymentAttempt) {b : PaymentAttempt}
    {t : Db} (same allowed clash : Bool)
    → get k s.attempts ≡ some a
    → row.status ≡ new_status
    → (new_status == a.status) ≡ same
    → ◌≡◌ {A = Result PaymentAttempt × Db}
        (if same
          then (ok a, s)
          else if allowed
          then if clash
            then (err integrity, s)
            else (ok row, record s { attempts = set k row s.attempts })
          else (err invalid_transition, s))
        (ok b, t)
    → (get k t.attempts ≡ some b) × (b.status ≡ new_status)
attempt_found k new_status s a row true allowed clash h r e q =
    ground (arith, (attempt_status_beq_iff new_status a.status).0 e)
attempt_found k new_status s a row false true true h r e q = cc
attempt_found k new_status s a row false true false h r e q =
    ground (arith, get-set_self k row s.attempts h)
attempt_found k new_status s a row false false clash h r e q = cc

-- A returning transition leaves its row in the status that was asked for.
pub attempt_transition-ok :
    (k : ℕ) (new_status : AttemptStatus) (raw message : String) (s : Db) {b : PaymentAttempt}
    {t : Db}
    → attempt_transition k new_status raw message s ≡ (ok b, t)
    → (get k t.attempts ≡ some b) × (b.status ≡ new_status)
attempt_transition-ok k new_status raw message s {b} {t} h =
    found (get k s.attempts) refl (sym (attempt_transition-outcome k new_status raw message s) ∙ h)
  where
    found :
        (o : Option PaymentAttempt)
        → get k s.attempts ≡ o
        → attempt_outcome k new_status raw message o s ≡ (ok b, t)
        → (get k t.attempts ≡ some b) × (b.status ≡ new_status)
    found none e q = cc
    found (some a) e q =
        let moved : PaymentAttempt = moved_attempt a new_status raw message s.clock in
        let row : PaymentAttempt = record moved { updated_at = s.clock } in
        attempt_found k new_status s a row (new_status == a.status)
          (elem new_status (attempt_transitions a.status)) (exists (conflicts k moved) s.attempts) e
          refl refl q

-- The two tests of an installment's transition, on the results that they choose between.
installment_found :
    (k : ℕ) (new_status : InstallmentStatus) (s : Db) (i row : Installment) {j : Installment}
    {t : Db} (same allowed : Bool)
    → get k s.installments ≡ some i
    → row.status ≡ new_status
    → (new_status == i.status) ≡ same
    → ◌≡◌ {A = Result Installment × Db}
        (if same
          then (ok i, s)
          else if allowed
          then (ok row, record s { installments = set k row s.installments })
          else (err invalid_transition, s))
        (ok j, t)
    → (get k t.installments ≡ some j) × (j.status ≡ new_status)
installment_found k new_status s i row true allowed h r e q =
    ground (arith, (installment_status_beq_iff new_status i.status).0 e)
installment_found k new_status s i row false true h r e q =
    ground (arith, get-set_self k row s.installments h)
installment_found k new_status s i row false false h r e q = cc

moved_installment-status :
    (i : Installment) (new_status : InstallmentStatus) (paid_amount : Option ℕ) (now : ℕ)
    → (moved_installment i new_status paid_amount now).status ≡ new_status
moved_installment-status i new_status paid_amount now =
    if_intro (λ (j : Installment). j.status ≡ new_status) (new_status == InstallmentStatus.paid)
      (λ _. refl) (λ _. refl)

-- A returning transition leaves its row in the status that was asked for.
pub installment_transition-ok :
    (k : ℕ) (new_status : InstallmentStatus) (paid_amount : Option ℕ) (s : Db) {j : Installment}
    {t : Db}
    → installment_transition k new_status paid_amount s ≡ (ok j, t)
    → (get k t.installments ≡ some j) × (j.status ≡ new_status)
installment_transition-ok k new_status paid_amount s {j} {t} h =
    found (get k s.installments) refl
      (sym (installment_transition-outcome k new_status paid_amount s) ∙ h)
  where
    found :
        (o : Option Installment)
        → get k s.installments ≡ o
        → installment_outcome k new_status paid_amount o s ≡ (ok j, t)
        → (get k t.installments ≡ some j) × (j.status ≡ new_status)
    found none e q = cc
    found (some i) e q =
        installment_found k new_status s i (moved_installment i new_status paid_amount s.clock)
          (new_status == i.status) (elem new_status (installment_transitions i.status)) e
          (moved_installment-status i new_status paid_amount s.clock) refl q
