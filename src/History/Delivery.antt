-- ===== src/History/Delivery.antt =====
-- Sending confirmations keeps the history of orders, installments and attempts.
use valuecrm.Base.{ℕ}
use valuecrm.Model.{Db, PaymentConfirmation}
use valuecrm.Exec.Preserves.{Preserves}
use valuecrm.Delivery.{
  Sending, delivered, transient, broken, Mailer, rewrite, claim, finish, process_one,
  process_pending,
}
use valuecrm.History.{History}
use valuecrm.History.Writes.{history_rules}

module _ {s₀ : Db} where
  rewrite-History :
      (k : ℕ) (f : ℕ → PaymentConfirmation → PaymentConfirmation)
      → Preserves (History s₀) (rewrite k f)
  unfolding rewrite
  rewrite-History k f = search history_rules depth 14

  claim-History : (k : ℕ) → Preserves (History s₀) (claim k)
  unfolding claim
  claim-History k = search history_rules depth 16

  finish-History : (k : ℕ) (x : Sending) → Preserves (History s₀) (finish k x)
  finish-History k delivered = rewrite-History k _
  finish-History k transient = rewrite-History k _
  finish-History k broken = rewrite-History k _

  pub process_one-History : (send : Mailer) (k : ℕ) → Preserves (History s₀) (process_one send k)
  unfolding process_one
  process_one-History send k =
      search (history_rules, claim-History, rewrite-History, finish-History) depth 14

  pub deliver_pending-History :
      (send : Mailer) (limit : ℕ) → Preserves (History s₀) (process_pending send limit)
  unfolding process_pending
  deliver_pending-History send limit = search (history_rules, process_one-History) depth 12
