-- ===== src/History/Collection.antt =====
-- Collecting installments keeps the history of orders, installments and attempts.
use valuecrm.Base.{ℕ, ⊤, String, Option, none, some, ◌≡◌, refl, arith, Option-cases, inl, inr}
use valuecrm.Table.{get, set}
use valuecrm.Table.Evolves.{Evolves-refl, Evolves-set}
use valuecrm.Model.{Db, Order, Installment}
use valuecrm.Model.Jobs.{InstallmentReminder, ReminderKind}
use valuecrm.Exec.{Result, ok, err, modify, does_not_exist, ◌>>=◌}
use valuecrm.Exec.Preserves.{Preserves}
use valuecrm.Transitions.Paths.{here}
use valuecrm.Collection.{
  Collector, counted, to_due, mark_due, to_late, mark_late, create_reminder, deliver_row, deliver,
  remind, send_reminders, after_freeze, suspend, suspend_overdue, after_resume, resume_if_settled,
  resume, resume_settled, run, lift_nonpayment_suspension,
}
use valuecrm.Transitions.{get_order, save_order, update_order}
use valuecrm.History.{
  History, History-refl, OrderKept, OrderKept-refl, InstallmentKept-refl, AttemptKept-refl,
}
use valuecrm.History.Writes.{history_rules, Preserves-History}
use valuecrm.History.Credit.{
  get_order-History, get_installment-History, update_order_status-History,
}
use valuecrm.History.Access.{order_suspension-History}

update_order-ok :
    (k : ℕ) (f : Order → Order) (o : Order) (s : Db)
    → get k s.orders ≡ some o
    → update_order k f s ≡ (ok tt, record s { orders = set k (f o) s.orders })
unfolding update_order get_order save_order modify ◌>>=◌
update_order-ok k f o s h = ground arith

update_order_missing :
    (k : ℕ) (f : Order → Order) (s : Db)
    → get k s.orders ≡ none
    → update_order k f s ≡ (err does_not_exist, s)
unfolding update_order get_order save_order modify ◌>>=◌
update_order_missing k f s h = ground arith

module _ {s₀ : Db} where
  -- Saving columns of an order that are neither frozen nor its status.
  pub update_order-History :
      (k : ℕ) (f : Order → Order)
      → ((o : Order) → OrderKept o (f o))
      → Preserves (History s₀) (update_order k f)
  update_order-History k f kept =
      Preserves-History (update_order k f)
        (λ s. elim (Option-cases (get k s.orders)) [
          | inl missing ↦ rw (update_order_missing k f s missing) (History-refl s)
          | inr (o, found) ↦ rw (update_order-ok k f o s found) (record {
            orders = Evolves-set OrderKept-refl k o (f o) s.orders found (kept o);
            installments = Evolves-refl InstallmentKept-refl s.installments;
            attempts = Evolves-refl AttemptKept-refl s.attempts;
          })
        ])
        s₀

  stamped-History :
      (k : ℕ) (at : Option ℕ)
      → Preserves (History s₀) (update_order k (λ o. record o { suspended_for_nonpayment_at = at }))
  stamped-History k at = update_order-History k _ (λ o. record {
    path = here;
    customer = refl;
    plan = refl;
    course = refl;
    idempotency_key = refl;
    terms = refl;
    created_at = refl;
  })

  cleared-History :
      (k now : ℕ)
      → Preserves
          (History s₀)
          (update_order k (λ o. record o { suspended_for_nonpayment_at = none; updated_at = now }))
  cleared-History k now = update_order-History k _ (λ o. record {
    path = here;
    customer = refl;
    plan = refl;
    course = refl;
    idempotency_key = refl;
    terms = refl;
    created_at = refl;
  })

  counted-History : {A : Type 0} (r : Result A) → Preserves (History s₀) (counted r)
  unfolding counted
  counted-History (ok a) = search history_rules
  counted-History (err e) = search history_rules

  to_due-History : (e : ℕ × Installment) → Preserves (History s₀) (to_due e)
  to_due-History (j, i) = search (history_rules, counted-History) depth 12

  to_late-History : (e : ℕ × Order) → Preserves (History s₀) (to_late e)
  to_late-History (k, o) = search (history_rules, counted-History) depth 12

  mark_due-History : (today : ℕ) → Preserves (History s₀) (mark_due today)
  unfolding mark_due
  mark_due-History today = search (history_rules, to_due-History) depth 12

  mark_late-History : (today : ℕ) → Preserves (History s₀) (mark_late today)
  unfolding mark_late
  mark_late-History today = search (history_rules, to_late-History) depth 12

  create_reminder-History :
      (j : ℕ) (kind : ReminderKind) → Preserves (History s₀) (create_reminder j kind)
  unfolding create_reminder
  create_reminder-History j kind = search history_rules depth 14

module _ (c : Collector) {s₀ : Db} where
  deliver_row-History :
      (j : ℕ) (kind : ReminderKind) (recipient : String) (r : Option (ℕ × InstallmentReminder))
      → Preserves (History s₀) (deliver_row c j kind recipient r)
  unfolding deliver_row
  deliver_row-History j kind recipient none = search history_rules
  deliver_row-History j kind recipient (some (m, r)) = search history_rules depth 14

  deliver-History :
      (j : ℕ) (i : Installment) (kind : ReminderKind) (r : Option (ℕ × InstallmentReminder))
      → Preserves (History s₀) (deliver c j i kind r)
  unfolding deliver
  deliver-History j i kind r =
      search (history_rules, get_order-History, create_reminder-History, deliver_row-History) depth
        14

  remind-History : (today : ℕ) (e : ℕ × Installment) → Preserves (History s₀) (remind c today e)
  unfolding remind
  remind-History today (j, i) = search (history_rules, deliver-History) depth 14

  send_reminders-History : (today : ℕ) → Preserves (History s₀) (send_reminders c today)
  unfolding send_reminders
  send_reminders-History today = search (history_rules, remind-History) depth 12

  after_freeze-History :
      (now : ℕ) (e : ℕ × Installment) (r : Result ⊤)
      → Preserves (History s₀) (after_freeze c now e r)
  unfolding after_freeze
  after_freeze-History now (j, i) (ok u) =
      search (history_rules, stamped-History, get_installment-History, deliver-History) depth 14
  after_freeze-History now (j, i) (err e) = search history_rules

  suspend-History : (now : ℕ) (e : ℕ × Installment) → Preserves (History s₀) (suspend c now e)
  unfolding suspend
  suspend-History now (j, i) =
      search (history_rules, get_order-History, order_suspension-History, after_freeze-History)
        depth 14

  suspend_overdue-History : (now : ℕ) → Preserves (History s₀) (suspend_overdue c now)
  unfolding suspend_overdue
  suspend_overdue-History now = search (history_rules, suspend-History) depth 12

  after_resume-History : (k : ℕ) (r : Result ⊤) → Preserves (History s₀) (after_resume c k r)
  unfolding after_resume
  after_resume-History k (ok u) =
      search (history_rules, cleared-History, get_order-History, update_order_status-History) depth
        16
  after_resume-History k (err e) = search history_rules

  resume_if_settled-History : (k now : ℕ) → Preserves (History s₀) (resume_if_settled c k now)
  unfolding resume_if_settled
  resume_if_settled-History k now =
      search (history_rules, order_suspension-History, after_resume-History) depth 16

  resume-History : (now : ℕ) (e : ℕ × Order) → Preserves (History s₀) (resume c now e)
  unfolding resume
  resume-History now (k, o) = search (history_rules, resume_if_settled-History) depth 12

  resume_settled-History : (now : ℕ) → Preserves (History s₀) (resume_settled c now)
  unfolding resume_settled
  resume_settled-History now = search (history_rules, resume-History) depth 12

  -- A run of the collection of installments loses no row of orders, installments or attempts,
  -- changes no frozen column, moves statuses along their tables only, and leaves paid installments
  -- and recorded payment ids as they are, whatever ClickFunnels and the mails answer, and whether
  -- it returns or raises.
  pub collect-History : Preserves (History s₀) (run c)
  unfolding run
  collect-History =
      search
        (
          history_rules, mark_due-History, mark_late-History, send_reminders-History,
          suspend_overdue-History, resume_settled-History,
        )
        depth 16

  pub lift-History : (k : ℕ) → Preserves (History s₀) (lift_nonpayment_suspension c k)
  unfolding lift_nonpayment_suspension
  lift-History k = search (history_rules, resume_if_settled-History) depth 12
