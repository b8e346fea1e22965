-- ===== src/Expiry.antt =====
-- `OrderExpiryService` of apps/payments/services.py.
pub mod Caution
use valuecrm.Base.{
  ℕ, suc, ◌+◌, ⊤, Bool, true, false, not, ◌&&◌, ◌||◌, String, List, [], ◌∷◌, ◌++◌, ◌==◌, nat_eq,
  string_eq, elem, leb, take, if◌then◌else◌,
}
use valuecrm.Table.{Table, select, exists}
use valuecrm.Settings.{Env, days, minutes}
use valuecrm.Model.{Db, Order, Installment, PaymentAttempt, TaraWebhookEvent}
use valuecrm.Model.Status.{OrderStatus, AttemptStatus, order_status_eq, attempt_status_eq}
use valuecrm.Exec.{Exec, pure, gets, atomic, for_each, when, ◌>>=◌, ◌>>◌}
use valuecrm.Transitions.{get_order, order_transition, attempt_transition}
use valuecrm.Followups.{of_order, is_settled}
use valuecrm.Webhook.{is_processed}

-- `filter(installment__order=order)` on the attempts
abbrev pub attempt_of_order : ℕ → Db → ℕ → PaymentAttempt → Bool
attempt_of_order k s j a = exists (λ m i. m == a.installment && i.order == k) s.installments

abbrev pub might_be_paid : AttemptStatus → Bool
might_be_paid st =
    elem st (AttemptStatus.succeeded ∷ AttemptStatus.pending ∷ AttemptStatus.unknown ∷ [])

abbrev pub some_might_be_paid : ℕ → Db → Bool
some_might_be_paid k s =
    exists (λ j a. attempt_of_order k s j a && might_be_paid a.status) s.attempts

abbrev pub has_link : ℕ → Db → Bool
has_link k s = exists (λ j a. attempt_of_order k s j a && not (a.general_link == "")) s.attempts

abbrev pub unresolved_webhook : ℕ → Db → Bool
unresolved_webhook k s =
    exists
      (λ j e.
        exists (λ m a. attempt_of_order k s m a && a.tara_product_id == e.tara_product_id)
          s.attempts
        && not (is_processed e.processing_status))
      s.events

-- `eligible_orders`
abbrev pub is_eligible : Env → Db → ℕ → Order → Bool
is_eligible env s k o =
    o.status == OrderStatus.pending
    && not (some_might_be_paid k s)
    && not (unresolved_webhook k s)
    && not (exists (λ j i. of_order k j i && is_settled i.status) s.installments)
    && (leb (o.created_at + days env.order_pending_expiry_days) s.clock
        || not (has_link k s)
          && leb (o.created_at + minutes env.order_failed_checkout_expiry_minutes) s.clock)

abbrev pub expire_open : ℕ × PaymentAttempt → Exec ⊤
expire_open (j, a) =
    when (elem a.status (AttemptStatus.created ∷ AttemptStatus.link_created ∷ []))
      (attempt_transition j AttemptStatus.expired "" "" >> pure tt)

-- `_expire_one`
unfoldable pub expire_one : ℕ → Exec Bool
expire_one k = atomic do
  o ← get_order k
  if not (o.status == OrderStatus.pending) then pure false else do
    risky ← gets (some_might_be_paid k)
    if risky then pure false else do
      attempts ← gets (λ s. select (attempt_of_order k s) s.attempts)
      for_each attempts expire_open
      order_transition k OrderStatus.expired
      pure true

-- The keys of the rows, the oldest first.
abbrev pub order_keys : Table Order → List ℕ
order_keys [] = []
order_keys ((j, o) ∷ t) = order_keys t ++ j ∷ []

-- The loop of `expire_stale_orders`, which counts the orders that it expired.
unfoldable pub expire_each : List ℕ → Exec ℕ
unfolding expire_one
expire_each [] = pure 0
expire_each (k ∷ ks) = do
  expired ← expire_one k
  n ← expire_each ks
  pure (if expired then suc n else n)

-- `expire_stale_orders`
unfoldable pub expire_stale_orders : Env → ℕ → Exec ℕ
unfolding expire_each
expire_stale_orders env limit = do
  ids ← gets (λ s. take limit (order_keys (select (is_eligible env s) s.orders)))
  expire_each ids
