-- ===== src/Administration/Audited.antt =====
-- What `apply_manual_disposition`, and `cancel_installment` and `waive_installment` where they are
-- refused, write and return.
use valuecrm.Base.{
  ℕ, ⊤, ◌≡◌, arith, true, false, Option, none, some, ◌==◌, string_eq, ◌||◌, ◌⊎◌, inl, inr,
  Bool-cases, ◌≢◌, if◌then◌else◌,
}
use valuecrm.Settings.{Env}
use valuecrm.Table.{get, set, add, exists-get}
use valuecrm.Model.{Db, Order, Installment, PaymentAttempt, ManualDisposition}
use valuecrm.Model.Status.{InstallmentStatus, AttemptStatus, installment_status_eq}
use valuecrm.Model.Audit.{ActionType, OutcomeCategory}
use valuecrm.Audit.{Actor, record_audit}
use valuecrm.Exec.{Exec, Result, ok, err, admin_action, atomic, write_audits, pure, maybe, ◌>>=◌}
use valuecrm.Transitions.{get_order, get_installment, update_order, save_order}
use valuecrm.Administration.{has_succeeded, report}
use valuecrm.Administration.Labels.{disposition_text}
use valuecrm.Administration.Orders.{order_entry, dispose, apply_manual_disposition}
use valuecrm.Administration.Installments.{
  installment_entry, close, cancel_installment, recompute_order, waive_installment,
}

-- The database with the audit row of a marking of the order `o`, from its disposition to `after`.
abbrev marked : ℕ → Actor → Order → Option ManualDisposition → OutcomeCategory → Db → Db
marked k actor o none outcome s = record s {
  audits =
      add
        (order_entry ActionType.apply_manual_disposition k actor
          (disposition_text o.manual_disposition) (disposition_text o.manual_disposition) outcome)
        s.audits;
}
marked k actor o (some d) outcome s = record s {
  audits =
      add
        (order_entry ActionType.apply_manual_disposition k actor
          (disposition_text o.manual_disposition) (disposition_text d) outcome)
        s.audits;
}

-- What a marking of the order `o` comes to.
abbrev pub marking : ℕ → Actor → Order → Option ManualDisposition → Db → Result ⊤ × Db
marking k actor o none s =
    (err admin_action, marked k actor o none OutcomeCategory.rejected_invalid_state s)
marking k actor o (some d) s =
    if disposition_text o.manual_disposition == disposition_text d
    then (ok tt, marked k actor o (some d) OutcomeCategory.no_op_already_in_state s)
    else (
      ok tt,
      marked k actor o (some d) OutcomeCategory.success (record s {
        orders = set k (record o { manual_disposition = d; updated_at = s.clock }) s.orders;
      }),
    )

-- Marking an order that exists, by one test: a text that is no choice is rejected with an exception
-- that leaves its audit row in place; the choice that the order has already changes nothing but the
-- audit log; any other choice is stored on the order, and on no other. Each time exactly one audit row
-- is written, which says who acted, why, on which order, from what to what, and the outcome.
pub disposition-audited :
    (k : ℕ) (d : Option ManualDisposition) (actor : Actor) (s : Db) {o : Order}
    → get k s.orders ≡ some o
    → apply_manual_disposition k d actor s ≡ marking k actor o d s
unfolding apply_manual_disposition dispose report record_audit atomic ◌>>=◌ write_audits get_order
    update_order save_order pure maybe
disposition-audited k none actor s h = ground (arith, h)
disposition-audited k (some d) actor s h = ground (arith, h)

-- The database with the audit row of a refused action on the installment `i`.
abbrev pub refused : ActionType → ℕ → Actor → Installment → Db → Db
refused action k actor i s = record s {
  audits =
      add
        (installment_entry action k actor i.status i.status OutcomeCategory.rejected_invalid_state)
        s.audits;
}

-- That the installment `i` of key `k` was paid: it says so, or one of its attempts has succeeded.
abbrev pub IsPaid : ℕ → Installment → Db → Type 0
IsPaid k i s =
    (i.status ≡ InstallmentStatus.paid)
    ⊎ ((j : ℕ) × (a : PaymentAttempt) × (get j s.attempts ≡ some a)
        × (a.installment ≡ k)
        × (a.status ≡ AttemptStatus.succeeded))

paid_or_succeeded :
    (k : ℕ) (i : Installment) (s : Db)
    → IsPaid k i s
    → (i.status == InstallmentStatus.paid || has_succeeded k s) ≡ true
paid_or_succeeded k i s (inl paid) = ground (arith, paid)
paid_or_succeeded k i s (inr (j, a, there, own, done)) = elim (Bool-cases (has_succeeded k s)) [
  | inl found ↦ ground (arith, found)
  | inr absent ↦ absurd (ground (arith, exists-get _ j a s.attempts there absent, own, done))
]

other_status : (x y : InstallmentStatus) → x ≢ y → (x == y) ≡ false
other_status x y h = elim (Bool-cases (x == y)) [
  | inl same ↦ absurd (h ((installment_status_eq.equals_iff x y).0 same))
  | inr other ↦ other
]

module _ (k : ℕ) (actor : Actor) (s : Db) {i : Installment} {o : Order}
    (h : get k s.installments ≡ some i) (q : get i.order s.orders ≡ some o) where
  close_paid :
      (action : ActionType) (target : InstallmentStatus) (recompute : Installment → Exec ⊤)
      → (i.status == target) ≡ false
      → (i.status == InstallmentStatus.paid || has_succeeded k s) ≡ true
      → close action target recompute k actor s ≡ (err admin_action, refused action k actor i s)
  unfolding close report record_audit atomic ◌>>=◌ write_audits get_order get_installment pure
  close_paid action target recompute other paid = ground (arith, h, q, other, paid)

-- An installment that exists with its order and was paid, by its status or by an attempt that has
-- succeeded, and that is neither cancelled nor waived, is not cancelled or waived by staff: both
-- actions raise, and exactly one audit row is written, which says who acted, why, on which
-- installment, and that it was rejected; nothing else changes.
pub paid-refused :
    (env : Env) (k : ℕ) (actor : Actor) (s : Db) {i : Installment} {o : Order}
    → get k s.installments ≡ some i
    → get i.order s.orders ≡ some o
    → i.status ≢ InstallmentStatus.cancelled
    → i.status ≢ InstallmentStatus.waived
    → IsPaid k i s
    → (cancel_installment k actor s
        ≡ (err admin_action, refused ActionType.cancel_installment k actor i s))
      × (waive_installment env k actor s
          ≡ (err admin_action, refused ActionType.waive_installment k actor i s))
unfolding cancel_installment waive_installment
paid-refused env k actor s {i} h q open_c open_w paid = (
  close_paid k actor s h q _ InstallmentStatus.cancelled (λ j. pure tt) (other_status _ _ open_c)
      (paid_or_succeeded k i s paid),
  close_paid k actor s h q _ InstallmentStatus.waived (recompute_order env)
      (other_status _ _ open_w) (paid_or_succeeded k i s paid),
)
