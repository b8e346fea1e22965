-- ===== src/History/Access.antt =====
-- Freezing and resuming access keeps the history of orders, installments and attempts.
use valuecrm.Base.{ℕ, ⊤, Bool, String}
use valuecrm.Model.{Db, Order}
use valuecrm.Model.Status.{OrderStatus}
use valuecrm.Model.Enrollment.{EnrollmentAttempt}
use valuecrm.Exec.{Result, ok, err}
use valuecrm.Exec.Preserves.{Preserves}
use valuecrm.Audit.{Actor}
use valuecrm.ClickFunnels.{Provider}
use valuecrm.Administration.Access.{
  switch, after_call, call_provider, set_attempt_suspension, after_mirror, mirror,
  set_order_suspension,
}
use valuecrm.History.{History}
use valuecrm.History.Writes.{history_rules}
use valuecrm.History.Credit.{get_order-History}
use valuecrm.History.Staff.{record_audit-History}
use valuecrm.History.Provisioning.{suspension-History}

module _ (provider : Provider) {s₀ : Db} where
  switch-History :
      (suspended : Bool) (k : ℕ) (actor : Actor) → Preserves (History s₀) (switch suspended k actor)
  unfolding switch
  switch-History suspended k actor = search (history_rules, record_audit-History) depth 14

  after_call-History :
      (suspended : Bool) (k : ℕ) (actor : Actor) (e : EnrollmentAttempt) (r : Result ⊤)
      → Preserves (History s₀) (after_call suspended k actor e r)
  unfolding after_call
  after_call-History suspended k actor e (ok u) = switch-History suspended k actor
  after_call-History suspended k actor e (err x) =
      search (history_rules, record_audit-History) depth 12

  call_provider-History :
      (suspended : Bool) (k : ℕ) (actor : Actor) (e : EnrollmentAttempt) (id : String)
      → Preserves (History s₀) (call_provider provider suspended k actor e id)
  unfolding call_provider
  call_provider-History suspended k actor e id =
      search (history_rules, record_audit-History, suspension-History, after_call-History) depth 18

  pub attempt_suspension-History :
      (suspended : Bool) (k : ℕ) (actor : Actor)
      → Preserves (History s₀) (set_attempt_suspension provider suspended k actor)
  unfolding set_attempt_suspension
  attempt_suspension-History suspended k actor =
      search (history_rules, record_audit-History, call_provider-History) depth 16

  after_mirror-History :
      (suspended : Bool) (k : ℕ) (actor : Actor) (before : OrderStatus) (r : Result Order)
      → Preserves (History s₀) (after_mirror suspended k actor before r)
  unfolding after_mirror
  after_mirror-History suspended k actor before (ok o) =
      search (history_rules, record_audit-History) depth 12
  after_mirror-History suspended k actor before (err x) =
      search (history_rules, record_audit-History) depth 12

  mirror-History :
      (suspended : Bool) (k : ℕ) (actor : Actor) → Preserves (History s₀) (mirror suspended k actor)
  unfolding mirror
  mirror-History suspended k actor =
      search (history_rules, get_order-History, after_mirror-History) depth 14

  pub order_suspension-History :
      (suspended : Bool) (k : ℕ) (actor : Actor)
      → Preserves (History s₀) (set_order_suspension provider suspended k actor)
  unfolding set_order_suspension
  order_suspension-History suspended k actor =
      search
        (
          history_rules, record_audit-History, get_order-History, attempt_suspension-History,
          mirror-History,
        )
        depth 16
