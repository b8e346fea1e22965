-- ===== src/Collection.antt =====
-- `InstallmentCollectionService` of apps/payments/services.py, without its dry run. Rendering and sending
-- a mail, and the wording of reasons, are parameters.
pub mod Resume
pub mod Reminders
use valuecrm.Base.{
  ℕ, suc, ◌+◌, ⊤, Bool, true, false, not, ◌&&◌, ◌||◌, String, Option, none, some, List, [], ◌∷◌,
  ◌==◌, nat_eq, string_eq, elem, ltb, leb, any, is_some, if◌then◌else◌,
}
use valuecrm.Table.{Table, get, set, add, fresh, select, first, exists}
use valuecrm.Settings.{Env, hours}
use valuecrm.Model.{Db, Order, Installment}
use valuecrm.Model.Status.{OrderStatus, InstallmentStatus, order_status_eq, installment_status_eq}
use valuecrm.Model.Jobs.{InstallmentReminder, ReminderKind, ReminderStatus}
use valuecrm.Exec.{
  Exec, Error, Result, ok, err, does_not_exist, integrity, admin_action, pure, raise, gets,
  or_raise, atomic, attempt, count_each, write_reminders, ◌>>=◌, ◌>>◌, maybe,
}
use valuecrm.Transitions.{
  get_order, get_installment, update_order, order_transition, installment_transition,
}
use valuecrm.Followups.{of_order}
use valuecrm.Credit.{update_order_status}
use valuecrm.ClickFunnels.{Provider}
use valuecrm.Audit.{Actor}
use valuecrm.Administration.{is_invalid_transition}
use valuecrm.Administration.Access.{find_open_access, set_order_suspension}

-- What the service calls and reads.
pub record Collector : Type 0 where
  pub env : Env
  pub provider : Provider
  pub installment_reminder_days_before : ℕ
  -- `(email or "").strip()`
  pub strip : String → String
  -- whether `_render` and `send_mail` succeed
  pub send : Db → ℕ → ReminderKind → String → Bool
  -- `SYSTEM_REASON_SUSPEND.format(…)`
  pub suspend_reason : Installment → Order → String
  pub resume_reason : String

-- Who acts when nobody does.
abbrev pub automatic : String → Actor
automatic reason = record { administrator = none; reason = reason }

-- `_UNPAID_INSTALLMENT_STATUSES`
abbrev pub is_unpaid : InstallmentStatus → Bool
is_unpaid st = elem st (
    InstallmentStatus.scheduled ∷ InstallmentStatus.due ∷ InstallmentStatus.pending
    ∷ InstallmentStatus.failed ∷ [])

-- `suspension_deadline`
abbrev pub suspension_deadline : Env → Installment → ℕ
suspension_deadline env i =
    env.local_midnight (suc i.due_date) + hours env.installment_suspension_grace_hours

abbrev pub is_running : OrderStatus → Bool
is_running st = elem st (OrderStatus.active ∷ OrderStatus.past_due ∷ [])

abbrev pub order_passes : (Order → Bool) → ℕ → Db → Bool
order_passes p k s = elim (get k s.orders) [ none ↦ false | some o ↦ p o ]

-- `_collectable_installments`
abbrev pub is_collectable : Db → ℕ → Installment → Bool
is_collectable s j i = is_unpaid i.status && order_passes (λ o. is_running o.status) i.order s

-- `except InvalidStateTransitionError: pass`, otherwise counted
unfoldable pub counted : {A : Type 0} → Result A → Exec Bool
counted (ok a) = pure true
counted (err e) = if is_invalid_transition e then pure false else raise e

abbrev pub to_due : ℕ × Installment → Exec Bool
to_due (j, i) = do
  moved ← attempt (installment_transition j InstallmentStatus.due none)
  counted moved

-- `_mark_due`
unfoldable pub mark_due : ℕ → Exec ℕ
unfolding counted count_each
mark_due today = do
  rows ← gets (λ s.
      select
        (λ j i.
          is_collectable s j i && i.status == InstallmentStatus.scheduled && leb i.due_date today)
        s.installments)
  count_each rows to_due

abbrev pub to_late : ℕ × Order → Exec Bool
to_late (k, o) = do moved ← attempt (order_transition k OrderStatus.past_due); counted moved

abbrev pub has_late : ℕ → Db → ℕ → Order → Bool
has_late today s k o =
    o.status == OrderStatus.active
    && exists (λ j i. of_order k j i && is_collectable s j i && ltb i.due_date today) s.installments

-- `_mark_late`
unfoldable pub mark_late : ℕ → Exec ℕ
unfolding counted count_each
mark_late today = do rows ← gets (λ s. select (has_late today s) s.orders); count_each rows to_late

-- `_REMINDER_MAX_ATTEMPTS`
abbrev pub max_reminder_attempts : ℕ
max_reminder_attempts = 3

abbrev pub kind_beq : ReminderKind → ReminderKind → Bool
kind_beq ReminderKind.before_due ReminderKind.before_due = true
kind_beq ReminderKind.due_day ReminderKind.due_day = true
kind_beq ReminderKind.suspended ReminderKind.suspended = true
kind_beq _ _ = false

abbrev pub is_reminder_of : ℕ → ReminderKind → ℕ → InstallmentReminder → Bool
is_reminder_of j kind m r = r.installment == j && kind_beq r.kind kind

abbrev pub new_reminder : ℕ → ReminderKind → InstallmentReminder
new_reminder j kind = record {
  installment = j;
  kind = kind;
  status = ReminderStatus.failed;
  attempts = 0;
  sent_at = none;
}

-- `InstallmentReminder.objects.create(…)` under its unique constraint; `none` for an `IntegrityError`
unfoldable pub create_reminder : ℕ → ReminderKind → Exec (Option (ℕ × InstallmentReminder))
create_reminder j kind = do
  taken ← gets (λ s. exists (is_reminder_of j kind) s.reminders)
  if taken then pure none else do
    m ← gets (λ s. fresh s.reminders)
    write_reminders (λ s. add (new_reminder j kind) s.reminders)
    pure (some (m, new_reminder j kind))

-- The row after one attempt at sending.
abbrev pub after_send : Bool → ℕ → InstallmentReminder → InstallmentReminder
after_send true now r = record r {
  status = ReminderStatus.sent;
  attempts = suc r.attempts;
  sent_at = some now;
}
after_send false now r = record r { status = ReminderStatus.failed; attempts = suc r.attempts }

-- What `_deliver` does with the row of the reminder, on the recipient's address.
unfoldable pub deliver_row :
    Collector → ℕ → ReminderKind → String → Option (ℕ × InstallmentReminder) → Exec Bool
deliver_row c j kind recipient none = pure false
deliver_row c j kind recipient (some (m, r)) =
    if recipient == ""
    then write_reminders
        (λ s. set m (record r { status = ReminderStatus.skipped_no_email }) s.reminders)
      >> pure false
    else do
      sent ← gets (λ s. c.send s j kind recipient)
      write_reminders (λ s. set m (after_send sent s.clock r) s.reminders)
      pure sent

-- `_deliver`
unfoldable pub deliver :
    Collector → ℕ → Installment → ReminderKind → Option (ℕ × InstallmentReminder) → Exec Bool
unfolding deliver_row create_reminder
deliver c j i kind existing = do
  o ← get_order i.order
  customer ← gets (λ s. get o.customer s.contacts)
  contact ← or_raise customer does_not_exist
  row ← maybe existing (create_reminder j kind) (λ found. pure (some found))
  deliver_row c j kind (c.strip contact.email) row

abbrev pub reminder_kind : ℕ → Installment → ReminderKind
reminder_kind today i =
    if leb i.due_date today then ReminderKind.due_day else ReminderKind.before_due

abbrev pub is_failed : ReminderStatus → Bool
is_failed ReminderStatus.failed = true
is_failed _ = false

-- Whether an earlier reminder rules out another attempt.
abbrev pub is_done : Option (ℕ × InstallmentReminder) → Bool
is_done none = false
is_done (some (m, r)) = not (is_failed r.status) || leb max_reminder_attempts r.attempts

-- The body of the loop of `_send_reminders`.
unfoldable pub remind : Collector → ℕ → ℕ × Installment → Exec Bool
unfolding deliver
remind c today (j, i) =
    let kind = reminder_kind today i in
    if kind_beq kind ReminderKind.before_due && leb c.installment_reminder_days_before 0
    then pure false
    else do
      existing ← gets (λ s. first (select (is_reminder_of j kind) s.reminders))
      if is_done existing then pure false else deliver c j i kind existing

-- `_send_reminders`
unfoldable pub send_reminders : Collector → ℕ → Exec ℕ
unfolding remind count_each
send_reminders c today = do
  rows ← gets (λ s.
      select
        (λ j i. is_collectable s j i && leb i.due_date (today + c.installment_reminder_days_before))
        s.installments)
  count_each rows (remind c today)

-- `.order_by("sequence")`
abbrev pub insert_by_sequence : ℕ × Installment → Table Installment → Table Installment
insert_by_sequence (j, i) [] = (j, i) ∷ []
insert_by_sequence (j, i) ((m, q) ∷ t) =
    let rest = insert_by_sequence (j, i) t in
    if leb i.sequence q.sequence then (j, i) ∷ (m, q) ∷ t else (m, q) ∷ rest

abbrev pub by_sequence : Table Installment → Table Installment
by_sequence [] = []
by_sequence (e ∷ t) = insert_by_sequence e (by_sequence t)

-- `overdue_by_order.setdefault(…)`: the first installment of each order
abbrev pub first_of_orders : List ℕ → Table Installment → Table Installment
first_of_orders seen [] = []
first_of_orders seen ((j, i) ∷ t) =
    let rest = first_of_orders (i.order ∷ seen) t in
    if elem i.order seen then rest else (j, i) ∷ rest

abbrev pub is_overdue : Env → ℕ → Db → ℕ → Installment → Bool
is_overdue env now s j i =
    is_collectable s j i
    && ltb i.due_date (env.local_date now)
    && order_passes (λ o. not (is_some o.suspended_for_nonpayment_at)) i.order s
    && leb (suspension_deadline env i) now

abbrev pub is_admin_action : Error → Bool
is_admin_action admin_action = true
is_admin_action _ = false

-- What follows `freeze_order_enrollment`.
unfoldable pub after_freeze : Collector → ℕ → ℕ × Installment → Result ⊤ → Exec Bool
unfolding update_order deliver
after_freeze c now (j, i) (ok u) = do
  update_order i.order (λ o. record o { suspended_for_nonpayment_at = some now })
  row ← get_installment j
  deliver c j row ReminderKind.suspended none
  pure true
after_freeze c now (j, i) (err e) = if is_admin_action e then pure false else raise e

-- The body of the loop of `_suspend_overdue`.
unfoldable pub suspend : Collector → ℕ → ℕ × Installment → Exec Bool
unfolding after_freeze
suspend c now (j, i) = do
  o ← get_order i.order
  access ← gets (find_open_access o)
  maybe access (pure false) λ e. do
    frozen ←
        attempt (set_order_suspension c.provider true i.order (automatic (c.suspend_reason i o)))
    after_freeze c now (j, i) frozen

-- `_suspend_overdue`
unfoldable pub suspend_overdue : Collector → ℕ → Exec ℕ
unfolding suspend count_each
suspend_overdue c now = do
  rows ← gets (λ s. by_sequence (select (is_overdue c.env now s) s.installments))
  count_each (first_of_orders [] rows) (suspend c now)

-- `_still_beyond_deadline`
abbrev pub still_beyond_deadline : Env → ℕ → ℕ → Db → Bool
still_beyond_deadline env now k s =
    exists (λ j i. of_order k j i && is_unpaid i.status && leb (suspension_deadline env i) now)
      s.installments

-- What follows `resume_order_enrollment`.
unfoldable pub after_resume : Collector → ℕ → Result ⊤ → Exec Bool
unfolding update_order update_order_status
after_resume c k (err e) = if is_admin_action e then pure false else raise e
after_resume c k (ok u) = do
  atomic do
    now ← gets (λ s. s.clock)
    update_order k (λ o. record o { suspended_for_nonpayment_at = none; updated_at = now })
    locked ← get_order k
    update_order_status c.env k locked.status
  pure true

-- Whether the order was suspended by the service itself.
abbrev pub is_auto_suspended : Order → Bool
is_auto_suspended o = o.status == OrderStatus.suspended && is_some o.suspended_for_nonpayment_at

-- `resume_if_settled`
unfoldable pub resume_if_settled : Collector → ℕ → ℕ → Exec Bool
unfolding after_resume
resume_if_settled c k now = do
  found ← gets (λ s. get k s.orders)
  maybe found (pure false) λ o. if not (is_auto_suspended o) then pure false else do
    late ← gets (still_beyond_deadline c.env now k)
    if late then pure false else do
      resumed ← attempt (set_order_suspension c.provider false k (automatic c.resume_reason))
      after_resume c k resumed

-- The body of the loop of `_resume_settled`.
unfoldable pub resume : Collector → ℕ → ℕ × Order → Exec Bool
unfolding resume_if_settled
resume c now (k, o) = do
  late ← gets (still_beyond_deadline c.env now k)
  if late then pure false else resume_if_settled c k now

-- `_resume_settled`
unfoldable pub resume_settled : Collector → ℕ → Exec ℕ
unfolding resume count_each
resume_settled c now = do
  rows ← gets (λ s. select (λ k o. is_auto_suspended o) s.orders)
  count_each rows (resume c now)

-- The counters that `run` returns.
pub record Collected : Type 0 where
  pub marked_due : ℕ
  pub marked_late : ℕ
  pub reminders_sent : ℕ
  pub accesses_suspended : ℕ
  pub accesses_resumed : ℕ

-- `run`
unfoldable pub run : Collector → Exec Collected
unfolding mark_due mark_late send_reminders suspend_overdue resume_settled
run c = do
  now ← gets (λ s. s.clock)
  let today = c.env.local_date now
  due ← mark_due today
  late ← mark_late today
  reminders ← send_reminders c today
  suspended ← suspend_overdue c now
  resumed ← resume_settled c now
  pure (record {
    marked_due = due;
    marked_late = late;
    reminders_sent = reminders;
    accesses_suspended = suspended;
    accesses_resumed = resumed;
  })

-- `_lift_nonpayment_suspension`, which swallows every exception
unfoldable pub lift_nonpayment_suspension : Collector → ℕ → Exec ⊤
unfolding resume_if_settled
lift_nonpayment_suspension c k = do
  now ← gets (λ s. s.clock)
  attempt (resume_if_settled c k now)
  pure tt
