-- ===== src/Checkout/Pay.antt =====
-- The entry points of `CheckoutService`: `start_checkout`, `pay_next_installment` and what they share.
use valuecrm.Base.{
  ℕ, ◌-◌, ⊤, Bool, true, false, not, ◌&&◌, ◌||◌, String, Option, none, some, [], ◌∷◌, ◌==◌, nat_eq,
  string_eq, elem, ltb, leb, if◌then◌else◌, truthy, is_some,
}
use valuecrm.Table.{Table, get, select, first, exists}
use valuecrm.Settings.{minutes, days}
use valuecrm.Model.{Db, Order, Installment, PaymentAttempt, PaymentPlan}
use valuecrm.Model.Status.{
  OrderStatus, AttemptStatus, order_status_eq, installment_status_eq, attempt_status_eq,
}
use valuecrm.Exec.{Exec, checkout, value_error, pure, raise, gets, ◌>>=◌, ◌>>◌, maybe}
use valuecrm.Transitions.{get_order, order_transition}
use valuecrm.Followups.{of_order, is_settled}
use valuecrm.Credit.{is_closed}
use valuecrm.Orders.{create_order, has_key}
use valuecrm.Checkout.{
  Shop, CheckoutStatus, succeeded, no_payment_due, CheckoutResult, result, link_to,
  get_or_create_current_attempt, transition_attempt_locked, recheck_unknown_attempt,
  create_link_for_attempt,
}

-- `order_by("sequence").first()`
abbrev pub lower : ℕ × Installment → Option (ℕ × Installment) → ℕ × Installment
lower e none = e
lower (j, i) (some (k, o)) = if ltb i.sequence o.sequence then (j, i) else (k, o)

abbrev pub lowest : Table Installment → Option (ℕ × Installment)
lowest [] = none
lowest (e ∷ t) = some (lower e (lowest t))

-- `next_outstanding_installment`
unfoldable pub next_outstanding_installment : ℕ → Db → Option (ℕ × Installment)
next_outstanding_installment order s =
    lowest (select (λ j i. of_order order j i && not (is_closed i.status)) s.installments)

-- `_customer_never_got_this_link`
abbrev pub customer_never_got_this_link : PaymentAttempt → Bool
customer_never_got_this_link a =
    a.status == AttemptStatus.unknown && not (is_some (truthy (some a.general_link)))

abbrev pub older_than : ℕ → Option ℕ → ℕ → Bool
older_than age none now = false
older_than age (some start) now = ltb age (now - start)

-- `_stored_link_too_old`
abbrev pub stored_link_too_old : Shop → PaymentAttempt → ℕ → Bool
stored_link_too_old shop a now =
    a.status == AttemptStatus.link_created
    && older_than (minutes shop.env.checkout_link_reuse_max_age_minutes) a.initiated_at now

abbrev pub is_succeeded : CheckoutStatus → Bool
is_succeeded succeeded = true
is_succeeded _ = false

abbrev pub waits_for_payment : AttemptStatus → Bool
waits_for_payment st = elem st (AttemptStatus.link_created ∷ AttemptStatus.pending ∷ [])

-- The end of `_pay_outstanding_installment`, on the attempt that stands by then.
unfoldable pub answer_with : Shop → Installment → ℕ × PaymentAttempt → Exec CheckoutResult
answer_with shop i (k, a) =
    if a.status == AttemptStatus.succeeded
    then pure (result succeeded)
    else if waits_for_payment a.status && is_some (truthy (some a.general_link))
    then pure (link_to a.general_link)
    else if a.status == AttemptStatus.unknown
    then recheck_unknown_attempt shop k a
    else create_link_for_attempt shop i k a

-- The attempt is closed and a new one answered with.
unfoldable pub replace_attempt : Shop → ℕ → Installment → ℕ → Exec CheckoutResult
unfolding answer_with
replace_attempt shop installment i k = do
  transition_attempt_locked k AttemptStatus.expired ""
  entry ← get_or_create_current_attempt shop installment
  answer_with shop i entry

-- What `_pay_outstanding_installment` does with the current attempt.
unfoldable pub pay_with : Shop → ℕ → Installment → ℕ × PaymentAttempt → Exec CheckoutResult
unfolding replace_attempt
pay_with shop installment i (k, a) =
    if customer_never_got_this_link a
    then (do
      recheck ← recheck_unknown_attempt shop k a
      if is_succeeded recheck.status || recheck.tara_says_pending
          then pure recheck
          else replace_attempt shop installment i k)
    else (do
      now ← gets (λ s. s.clock)
      if stored_link_too_old shop a now
          then replace_attempt shop installment i k
          else answer_with shop i (k, a))

-- `_pay_outstanding_installment`
unfoldable pub pay_outstanding_installment : Shop → ℕ → Exec CheckoutResult
unfolding pay_with
pay_outstanding_installment shop order = do
  next ← gets (next_outstanding_installment order)
  maybe next (pure (result no_payment_due)) (λ found. do
    entry ← get_or_create_current_attempt shop found.0
    pay_with shop found.0 found.1 entry)

-- `_require_public_base_url`
unfoldable pub require_public_base_url : Shop → Exec ⊤
require_public_base_url shop =
    if shop.public_base_url == ""
    then raise checkout
    else if not (shop.urlsplit shop.public_base_url).is_address
    then raise value_error
    else if not ((shop.urlsplit shop.public_base_url).scheme == "https")
    then raise checkout
    else pure tt

-- An open order of the customer for the plan, unpaid, recent and at the plan's present price.
abbrev pub is_reusable : Shop → ℕ → ℕ → PaymentPlan → Db → ℕ → Order → Bool
is_reusable shop customer plan_id plan s j o =
    o.customer == customer
    && o.plan == plan_id
    && o.status == OrderStatus.pending
    && leb (s.clock - days shop.env.order_pending_expiry_days) o.created_at
    && o.installment_amount == plan.installment_amount
    && o.installment_count == plan.installment_count
    && o.currency == plan.currency
    && not (exists (λ m i. of_order j m i && is_settled i.status) s.installments)

abbrev pub reusable_for : Shop → ℕ → ℕ → Option PaymentPlan → Db → Option (ℕ × Order)
reusable_for shop customer plan_id none s = none
reusable_for shop customer plan_id (some plan) s =
    first (select (is_reusable shop customer plan_id plan s) s.orders)

-- `_find_reusable_order`
pub find_reusable_order : Shop → ℕ → ℕ → Db → Option (ℕ × Order)
find_reusable_order shop customer plan_id s =
    reusable_for shop customer plan_id (get plan_id s.plans) s

-- `if order.status == EXPIRED: order = transition(order, PENDING)`
unfoldable pub reopen_expired : ℕ → Exec Order
reopen_expired k = do
  o ← get_order k
  if o.status == OrderStatus.expired then order_transition k OrderStatus.pending else pure o

-- The order that `start_checkout` goes on with.
unfoldable pub checkout_order : Shop → ℕ → ℕ → String → Exec ℕ
unfolding find_reusable_order
checkout_order shop customer plan_id key = do
  used ← gets (λ s. exists (has_key key) s.orders)
  reusable ← gets (λ s. if used then none else find_reusable_order shop customer plan_id s)
  maybe reusable (do r ← create_order shop.env customer plan_id key none; pure r.0)
      (λ found. pure found.0)

-- `start_checkout`
unfoldable pub start_checkout : Shop → ℕ → ℕ → String → Exec CheckoutResult
unfolding require_public_base_url checkout_order reopen_expired pay_outstanding_installment
start_checkout shop customer plan_id key = do
  require_public_base_url shop
  order ← checkout_order shop customer plan_id key
  reopen_expired order
  pay_outstanding_installment shop order

-- `PAYABLE_LATER_ORDER_STATUSES`
abbrev pub payable_later : OrderStatus → Bool
payable_later st =
    elem st
      (OrderStatus.pending ∷ OrderStatus.active ∷ OrderStatus.past_due ∷ OrderStatus.suspended ∷ [])

-- `pay_next_installment`
unfoldable pub pay_next_installment : Shop → ℕ → Exec CheckoutResult
unfolding require_public_base_url reopen_expired pay_outstanding_installment
pay_next_installment shop order = do
  require_public_base_url shop
  o ← reopen_expired order
  if not (payable_later o.status) then raise checkout else pay_outstanding_installment shop order
