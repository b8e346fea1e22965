-- ===== src/Transitions/Outcomes.antt =====
-- What each `transition` does, in one case analysis on the row that it finds.
use valuecrm.Base.{
  ℕ, ◌≡◌, String, Option, none, some, arith, ◌==◌, elem, Option-cases, if◌then◌else◌, inl, inr,
}
use valuecrm.Table.{get, set, exists}
use valuecrm.Model.{Db, Order, Installment, PaymentAttempt}
use valuecrm.Model.Status.{
  OrderStatus, InstallmentStatus, AttemptStatus, order_status_eq, installment_status_eq,
  attempt_status_eq,
}
use valuecrm.Exec.{Result, ok, err, invalid_transition, integrity, does_not_exist, atomic, ◌>>=◌}
use valuecrm.Transitions.{
  order_transitions, installment_transitions, attempt_transitions, conflicts, moved_installment,
  moved_attempt, order_transition, installment_transition, attempt_transition,
}

abbrev pub order_outcome : ℕ → OrderStatus → Option Order → Db → Result Order × Db
order_outcome k new_status none s = (err does_not_exist, s)
order_outcome k new_status (some o) s =
    let o' : Order = record o { status = new_status; updated_at = s.clock } in
    if new_status == o.status
    then (ok o, s)
    else if elem new_status (order_transitions o.status)
    then (ok o', record s { orders = set k o' s.orders })
    else (err invalid_transition, s)

pub order_transition-outcome :
    (k : ℕ) (new_status : OrderStatus) (s : Db)
    → order_transition k new_status s ≡ order_outcome k new_status (get k s.orders) s
unfolding order_transition atomic ◌>>=◌
order_transition-outcome k new_status s = elim (Option-cases (get k s.orders)) [
  | inl missing ↦ ground arith
  | inr (o, found) ↦ ground arith
]

abbrev pub installment_outcome :
    ℕ → InstallmentStatus → Option ℕ → Option Installment → Db → Result Installment × Db
installment_outcome k new_status paid_amount none s = (err does_not_exist, s)
installment_outcome k new_status paid_amount (some i) s =
    let i' : Installment = moved_installment i new_status paid_amount s.clock in
    if new_status == i.status
    then (ok i, s)
    else if elem new_status (installment_transitions i.status)
    then (ok i', record s { installments = set k i' s.installments })
    else (err invalid_transition, s)

pub installment_transition-outcome :
    (k : ℕ) (new_status : InstallmentStatus) (paid_amount : Option ℕ) (s : Db)
    → installment_transition k new_status paid_amount s
      ≡ installment_outcome k new_status paid_amount (get k s.installments) s
unfolding installment_transition atomic ◌>>=◌
installment_transition-outcome k new_status paid_amount s =
    elim (Option-cases (get k s.installments)) [
      | inl missing ↦ ground arith
      | inr (i, found) ↦ ground arith
    ]

abbrev pub attempt_outcome :
    ℕ → AttemptStatus → String → String → Option PaymentAttempt → Db → Result PaymentAttempt × Db
attempt_outcome k new_status raw message none s = (err does_not_exist, s)
attempt_outcome k new_status raw message (some a) s =
    let a' : PaymentAttempt = moved_attempt a new_status raw message s.clock in
    let b : PaymentAttempt = record a' { updated_at = s.clock } in
    if new_status == a.status
    then (ok a, s)
    else if elem new_status (attempt_transitions a.status)
    then if exists (conflicts k a') s.attempts
      then (err integrity, s)
      else (ok b, record s { attempts = set k b s.attempts })
    else (err invalid_transition, s)

pub attempt_transition-outcome :
    (k : ℕ) (new_status : AttemptStatus) (raw message : String) (s : Db)
    → attempt_transition k new_status raw message s
      ≡ attempt_outcome k new_status raw message (get k s.attempts) s
unfolding attempt_transition atomic ◌>>=◌
attempt_transition-outcome k new_status raw message s = elim (Option-cases (get k s.attempts)) [
  | inl missing ↦ ground arith
  | inr (a, found) ↦ ground arith
]
