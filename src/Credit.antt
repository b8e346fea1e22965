-- ===== src/Credit.antt =====
-- `PaymentCreditService` of apps/payments/services.py: the application of a verified outcome.
pub mod Locked
pub mod Once
use valuecrm.Base.{
  ℕ, ⊤, Bool, true, false, not, ◌&&◌, ◌||◌, String, Option, none, some, [], ◌∷◌, ◌==◌, nat_eq,
  string_eq, elem, ltb, if◌then◌else◌, get_or, truthy,
}
use valuecrm.Table.{select, exists}
use valuecrm.Settings.{Env}
use valuecrm.Model.{Db, Order, Installment, PaymentAttempt}
use valuecrm.Model.Status.{
  OrderStatus, InstallmentStatus, AttemptStatus, order_status_eq, installment_status_eq,
  attempt_status_eq,
}
use valuecrm.Exec.{
  Exec, Error, invalid_transition, payment_id_conflict, duplicate_payment, pure, raise, gets, catch,
  atomic, on_commit, ◌>>=◌, ◌>>◌, for_each, when, maybe,
}
use valuecrm.Transitions.{
  is_blocking, get_order, get_installment, get_attempt, update_attempt, order_transition,
  installment_transition, attempt_transition,
}
use valuecrm.Followups.{
  of_order, is_settled, is_access_eligible, create_confirmation, create_request_from_order,
}

-- The `status` of the order that `OrderService.transition` returns.
abbrev pub moved_to : ℕ → OrderStatus → Exec OrderStatus
moved_to k new_status = do o ← order_transition k new_status; pure o.status

abbrev pub any_paid : ℕ → Db → Bool
any_paid k s = exists (λ j i. of_order k j i && i.status == InstallmentStatus.paid) s.installments

abbrev pub all_settled : ℕ → Db → Bool
all_settled k s =
    exists (of_order k) s.installments
    && not (exists (λ j i. of_order k j i && not (is_settled i.status)) s.installments)

abbrev pub is_closed : InstallmentStatus → Bool
is_closed st =
    elem st (InstallmentStatus.paid ∷ InstallmentStatus.waived ∷ InstallmentStatus.cancelled ∷ [])

abbrev pub still_late : Env → ℕ → Db → Bool
still_late env k s =
    exists
      (λ j i. of_order k j i && not (is_closed i.status) && ltb i.due_date (env.local_date s.clock))
      s.installments

-- `_update_order_status` on the order of the key, whose status was read under its lock
unfoldable pub update_order_status : Env → ℕ → OrderStatus → Exec ⊤
update_order_status env k status =
    if elem status (OrderStatus.cancelled ∷ OrderStatus.suspended ∷ []) then pure tt else do
      paid ← gets (any_paid k)
      settled ← gets (all_settled k)
      status₁ ←
          if (paid || settled) && elem status (OrderStatus.pending ∷ OrderStatus.expired ∷ [])
          then moved_to k OrderStatus.active
          else pure status
      late ← gets (still_late env k)
      status₂ ←
          if status₁ == OrderStatus.past_due && not late && not settled
          then moved_to k OrderStatus.active
          else pure status₁
      when (settled && not (status₂ == OrderStatus.completed))
          (order_transition k OrderStatus.completed >> pure tt)

-- An attempt that stands in the way of reopening the attempt `k`.
abbrev pub other_open : ℕ → ℕ → ℕ → PaymentAttempt → Bool
other_open k installment j a = a.installment == installment && not (j == k) && is_blocking a.status

abbrev pub expire_other : ℕ × PaymentAttempt → Exec ⊤
expire_other (j, a) =
    if a.status == AttemptStatus.succeeded
    then raise duplicate_payment
    else attempt_transition j AttemptStatus.expired "" "" >> pure tt

-- `_reopen_for_late_success`
unfoldable pub reopen_for_late_success : ℕ → PaymentAttempt → Installment → Exec ⊤
reopen_for_late_success k attempt installment =
    if installment.status == InstallmentStatus.paid then raise duplicate_payment else do
      others ← gets (λ s. select (other_open k attempt.installment) s.attempts)
      for_each others expire_other
      attempt_transition k AttemptStatus.unknown "" ""
      pure tt

abbrev pub has_payment_id : Option String → String → Bool
has_payment_id none p = false
has_payment_id (some q) p = q == p

abbrev pub linked_elsewhere : ℕ → String → ℕ → PaymentAttempt → Bool
linked_elsewhere k p j a = not (j == k) && has_payment_id a.tara_payment_id p

abbrev pub link_own : ℕ → String → Option String → Exec ⊤
link_own k p none = update_attempt k (λ a. record a { tara_payment_id = some p }) >> pure tt
link_own k p (some q) = if q == p then pure tt else raise payment_id_conflict

-- The block `if tara_payment_id:` of `apply_verified_success`, on the attempt as it was read.
unfoldable pub link_payment_id : ℕ → PaymentAttempt → Option String → Exec ⊤
link_payment_id k attempt payment_id = maybe (truthy payment_id) (pure tt) λ p. do
  conflict ← gets (λ s. exists (linked_elsewhere k p) s.attempts)
  if conflict then raise payment_id_conflict else link_own k p (truthy attempt.tara_payment_id)

-- `on_applied(attempt, newly_applied)`, if given
abbrev pub Applied : Type 0
Applied = ℕ → Bool → Exec ⊤

abbrev pub nothing_applied : Applied
nothing_applied k newly = pure tt

-- The follow-up records of a payment that was just credited.
unfoldable pub create_followups : Env → ℕ → ℕ → ℕ → Order → Exec ⊤
create_followups env k installment order row = do
  confirmation ← create_confirmation env k installment order
  eligible ← gets (is_access_eligible order row)
  request ← if eligible then (do r ← create_request_from_order order; pure (some r)) else pure none
  on_commit (confirmation, request)

-- What follows the attempt's own transition in `apply_verified_success`.
unfoldable pub book : Env → ℕ → ℕ → Installment → Order → ℕ → Exec ⊤
book env k installment_id installment order credited = do
  installment_transition installment_id InstallmentStatus.paid (some credited)
  update_order_status env installment.order order.status
  create_followups env k installment_id installment.order order

-- The part of `apply_verified_success` below its idempotent return.
unfoldable pub credit :
    Env → ℕ → PaymentAttempt → Installment → Order → Option String → Option ℕ → Exec ⊤
credit env k attempt installment order payment_id verified_amount = do
  when (elem attempt.status (AttemptStatus.failed ∷ AttemptStatus.expired ∷ []))
      (reopen_for_late_success k attempt installment)
  link_payment_id k attempt payment_id
  attempt_transition k AttemptStatus.succeeded "" ""
  book env k attempt.installment installment order
      (get_or verified_amount installment.expected_amount)

-- `apply_verified_success`; it returns whether the payment is newly applied
unfoldable pub apply_verified_success : Env → Applied → ℕ → Option String → Option ℕ → Exec Bool
apply_verified_success env on_applied k payment_id verified_amount = atomic do
  attempt ← get_attempt k
  installment ← get_installment attempt.installment
  order ← get_order installment.order
  if attempt.status == AttemptStatus.succeeded then (do on_applied k false; pure false) else do
    credit env k attempt installment order payment_id verified_amount
    on_applied k true
    pure true

-- `except InvalidStateTransitionError: pass`
abbrev pub pass_invalid : Error → Exec ⊤
pass_invalid invalid_transition = pure tt
pass_invalid e = raise e

-- `apply_verified_failure`
unfoldable pub apply_verified_failure : (ℕ → Exec ⊤) → ℕ → Exec ⊤
apply_verified_failure on_applied k = atomic do
  attempt ← get_attempt k
  get_installment attempt.installment
  catch (attempt_transition k AttemptStatus.failed "" "" >> pure tt) pass_invalid
  catch (installment_transition attempt.installment InstallmentStatus.failed none >> pure tt)
      pass_invalid
  on_applied k
