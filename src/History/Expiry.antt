-- ===== src/History/Expiry.antt =====
-- Expiring orders keeps the history, on every path.
use valuecrm.Base.{ℕ, List, [], ◌∷◌}
use valuecrm.Settings.{Env}
use valuecrm.Model.{Db, PaymentAttempt}
use valuecrm.Exec.Preserves.{Preserves, Preserves-bind, Preserves-pure}
use valuecrm.Expiry.{expire_open, expire_one, expire_each, expire_stale_orders}
use valuecrm.History.{History}
use valuecrm.History.Writes.{history_rules}
use valuecrm.History.Credit.{get_order-History}

module _ {s₀ : Db} where
  expire_open-History : (e : ℕ × PaymentAttempt) → Preserves (History s₀) (expire_open e)
  expire_open-History (j, a) = search history_rules depth 12

  expire_one-History : (k : ℕ) → Preserves (History s₀) (expire_one k)
  unfolding expire_one
  expire_one-History k = search (history_rules, get_order-History, expire_open-History) depth 14

  expire_each-History : (ks : List ℕ) → Preserves (History s₀) (expire_each ks)
  unfolding expire_each
  expire_each-History [] = search history_rules
  expire_each-History (k ∷ ks) = Preserves-bind (expire_one k) _ (expire_one-History k) (λ expired.
      Preserves-bind (expire_each ks) _ (expire_each-History ks) (λ n. Preserves-pure _))

  -- `expire_stale_orders` loses no row of orders, installments or attempts, changes no frozen
  -- column, moves statuses along their tables only, and leaves paid installments and recorded
  -- payment ids as they are, whether it returns or raises.
  pub expire_stale-History :
      (env : Env) (limit : ℕ) → Preserves (History s₀) (expire_stale_orders env limit)
  unfolding expire_stale_orders
  expire_stale-History env limit = search (history_rules, expire_each-History) depth 12
