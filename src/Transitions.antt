-- ===== src/Transitions.antt =====
-- The three `transition` methods of apps/payments/services.py with their tables, and the writes
-- behind them under the database constraints of apps/payments/models.py. Each reads its row under a
-- lock, so the row that it saves is the row that stands in the table with some columns changed.
pub mod Paths
pub mod Outcomes
pub mod Reads
pub mod Effects
use valuecrm.Base.{
  ℕ, ⊤, Bool, true, false, not, ◌&&◌, ◌||◌, String, Option, none, some, List, [], ◌∷◌, ◌==◌, nat_eq,
  string_eq, elem, is_some, if◌then◌else◌, get_or,
}
use valuecrm.Table.{get, set, exists, Table}
use valuecrm.Model.{Db, Order, Installment, PaymentAttempt}
use valuecrm.Model.Status.{
  OrderStatus, InstallmentStatus, AttemptStatus, order_status_eq, installment_status_eq,
  attempt_status_eq,
}
use valuecrm.Exec.{
  Exec, ok, err, invalid_transition, integrity, does_not_exist, pure, raise, gets, or_raise, atomic,
  modify, ◌>>=◌, ◌>>◌,
}

-- `_ORDER_TRANSITIONS`
abbrev pub order_transitions : OrderStatus → List OrderStatus
order_transitions OrderStatus.pending =
    OrderStatus.active ∷ OrderStatus.cancelled ∷ OrderStatus.suspended ∷ OrderStatus.expired ∷ []
order_transitions OrderStatus.expired =
    OrderStatus.active ∷ OrderStatus.pending ∷ OrderStatus.cancelled ∷ []
order_transitions OrderStatus.active =
    OrderStatus.past_due ∷ OrderStatus.completed ∷ OrderStatus.cancelled ∷ OrderStatus.suspended
    ∷ []
order_transitions OrderStatus.past_due =
    OrderStatus.active ∷ OrderStatus.completed ∷ OrderStatus.cancelled ∷ OrderStatus.suspended ∷ []
order_transitions OrderStatus.completed = []
order_transitions OrderStatus.cancelled = []
order_transitions OrderStatus.suspended = OrderStatus.active ∷ OrderStatus.cancelled ∷ []

-- `_INSTALLMENT_TRANSITIONS`
abbrev pub installment_transitions : InstallmentStatus → List InstallmentStatus
installment_transitions InstallmentStatus.scheduled =
    InstallmentStatus.due ∷ InstallmentStatus.paid ∷ InstallmentStatus.failed
    ∷ InstallmentStatus.waived ∷ InstallmentStatus.cancelled ∷ []
installment_transitions InstallmentStatus.due =
    InstallmentStatus.pending ∷ InstallmentStatus.paid ∷ InstallmentStatus.failed
    ∷ InstallmentStatus.waived ∷ InstallmentStatus.cancelled ∷ []
installment_transitions InstallmentStatus.pending =
    InstallmentStatus.paid ∷ InstallmentStatus.failed ∷ InstallmentStatus.waived
    ∷ InstallmentStatus.cancelled ∷ []
installment_transitions InstallmentStatus.paid = []
installment_transitions InstallmentStatus.failed =
    InstallmentStatus.due ∷ InstallmentStatus.pending ∷ InstallmentStatus.paid
    ∷ InstallmentStatus.waived ∷ InstallmentStatus.cancelled ∷ []
installment_transitions InstallmentStatus.waived = []
installment_transitions InstallmentStatus.cancelled = []

-- `_PAYMENT_ATTEMPT_TRANSITIONS`
abbrev pub attempt_transitions : AttemptStatus → List AttemptStatus
attempt_transitions AttemptStatus.created =
    AttemptStatus.link_created ∷ AttemptStatus.failed ∷ AttemptStatus.expired
    ∷ AttemptStatus.unknown ∷ []
attempt_transitions AttemptStatus.link_created =
    AttemptStatus.pending ∷ AttemptStatus.succeeded ∷ AttemptStatus.failed ∷ AttemptStatus.expired
    ∷ AttemptStatus.unknown ∷ []
attempt_transitions AttemptStatus.pending =
    AttemptStatus.succeeded ∷ AttemptStatus.failed ∷ AttemptStatus.expired ∷ AttemptStatus.unknown
    ∷ []
attempt_transitions AttemptStatus.succeeded = []
attempt_transitions AttemptStatus.failed = AttemptStatus.unknown ∷ []
attempt_transitions AttemptStatus.expired = AttemptStatus.unknown ∷ []
attempt_transitions AttemptStatus.unknown =
    AttemptStatus.succeeded ∷ AttemptStatus.failed ∷ AttemptStatus.expired ∷ []

-- The condition of the constraint `one_active_payment_attempt_per_installment`.
abbrev pub is_blocking : AttemptStatus → Bool
is_blocking AttemptStatus.failed = false
is_blocking AttemptStatus.expired = false
is_blocking _ = true

abbrev pub same_payment_id : Option String → Option String → Bool
same_payment_id none _ = false
same_payment_id (some p) none = false
same_payment_id (some p) (some q) = p == q

-- A row that a unique index of `PaymentAttempt` keeps from standing beside the row `a` of key `k`.
abbrev pub conflicts : ℕ → PaymentAttempt → ℕ → PaymentAttempt → Bool
conflicts k a j b =
    not (j == k)
    && (is_blocking a.status && is_blocking b.status && a.installment == b.installment
        || same_payment_id a.tara_payment_id b.tara_payment_id
        || a.tara_product_id == b.tara_product_id)

-- `attempt.save()`
unfoldable pub save_attempt : ℕ → PaymentAttempt → Exec PaymentAttempt
save_attempt k a s =
    let a' : PaymentAttempt = record a { updated_at = s.clock } in
    if exists (conflicts k a) s.attempts
    then (err integrity, s)
    else (ok a', record s { attempts = set k a' s.attempts })

-- `attempt.save(update_fields=…)`: the columns that `f` sets, on the row as it stands
unfoldable pub update_attempt : ℕ → (PaymentAttempt → PaymentAttempt) → Exec PaymentAttempt
update_attempt k f = do
  a ← gets (λ s. get k s.attempts)
  row ← or_raise a does_not_exist
  save_attempt k (f row)

unfoldable pub save_installment : ℕ → Installment → Exec ⊤
save_installment k i = modify (λ s. record s { installments = set k i s.installments })

unfoldable pub save_order : ℕ → Order → Exec ⊤
save_order k o = modify (λ s. record s { orders = set k o s.orders })

-- `.objects.select_for_update().get(pk=…)`
unfoldable pub get_order : ℕ → Exec Order
get_order k = do o ← gets (λ s. get k s.orders); or_raise o does_not_exist

-- A locked read of the order and a save of what `f` sets.
unfoldable pub update_order : ℕ → (Order → Order) → Exec ⊤
unfolding get_order save_order
update_order k f = do o ← get_order k; save_order k (f o)

unfoldable pub get_installment : ℕ → Exec Installment
get_installment k = do i ← gets (λ s. get k s.installments); or_raise i does_not_exist

unfoldable pub get_attempt : ℕ → Exec PaymentAttempt
get_attempt k = do a ← gets (λ s. get k s.attempts); or_raise a does_not_exist

-- `OrderService.transition`
unfoldable pub order_transition : ℕ → OrderStatus → Exec Order
unfolding get_order save_order
order_transition k new_status = atomic do
  locked ← get_order k
  if new_status == locked.status
      then pure locked
      else if not (elem new_status (order_transitions locked.status))
      then raise invalid_transition
      else do
        now ← gets (λ s. s.clock)
        let row : Order = record locked { status = new_status; updated_at = now }
        save_order k row
        pure row

-- The row that `InstallmentService.transition` saves.
abbrev pub moved_installment : Installment → InstallmentStatus → Option ℕ → ℕ → Installment
moved_installment i new_status paid_amount now =
    let i' : Installment = record i { status = new_status } in
    if new_status == InstallmentStatus.paid
    then record i' { paid_amount = some (get_or paid_amount i.expected_amount); paid_at = some now }
    else i'

-- `InstallmentService.transition`
unfoldable pub installment_transition : ℕ → InstallmentStatus → Option ℕ → Exec Installment
unfolding get_installment save_installment
installment_transition k new_status paid_amount = atomic do
  locked ← get_installment k
  if new_status == locked.status
      then pure locked
      else if not (elem new_status (installment_transitions locked.status))
      then raise invalid_transition
      else do
        now ← gets (λ s. s.clock)
        let row : Installment = moved_installment locked new_status paid_amount now
        save_installment k row
        pure row

-- `x if x else d` on texts
abbrev pub or_text : String → String → String
or_text x d = if x == "" then d else x

abbrev pub completes : AttemptStatus → Bool
completes s = elem s (AttemptStatus.succeeded ∷ AttemptStatus.failed ∷ AttemptStatus.expired ∷ [])

-- The row that `PaymentAttemptService.transition` saves.
abbrev pub moved_attempt : PaymentAttempt → AttemptStatus → String → String → ℕ → PaymentAttempt
moved_attempt a new_status raw_provider_status provider_message now = record a {
  status = new_status;
  raw_provider_status = or_text raw_provider_status a.raw_provider_status;
  provider_message = or_text provider_message a.provider_message;
  initiated_at =
      if new_status == AttemptStatus.link_created && not (is_some a.initiated_at)
      then some now
      else a.initiated_at;
  completed_at = if completes new_status then some now else a.completed_at;
}

-- `PaymentAttemptService.transition`
unfoldable pub attempt_transition : ℕ → AttemptStatus → String → String → Exec PaymentAttempt
unfolding get_attempt save_attempt
attempt_transition k new_status raw_provider_status provider_message = atomic do
  locked ← get_attempt k
  if new_status == locked.status
      then pure locked
      else if not (elem new_status (attempt_transitions locked.status))
      then raise invalid_transition
      else do
        now ← gets (λ s. s.clock)
        save_attempt k (moved_attempt locked new_status raw_provider_status provider_message now)
