-- ===== src/History/Disposition.antt =====
-- A manual disposition, and what staff do to provisioning requests, keep the history.
use valuecrm.Base.{ℕ, refl, Option}
use valuecrm.Settings.{Env}
use valuecrm.Model.{Db, Order, ManualDisposition}
use valuecrm.Model.Enrollment.{ProvisioningRequest}
use valuecrm.Exec.Preserves.{Preserves}
use valuecrm.Transitions.{update_order}
use valuecrm.Transitions.Paths.{here}
use valuecrm.Audit.{Actor}
use valuecrm.Administration.Orders.{dispose, apply_manual_disposition}
use valuecrm.Provisioning.{update_request}
use valuecrm.Provisioning.Staff.{approve, cancel, retry_locked, retry_request}
use valuecrm.History.{History}
use valuecrm.History.Writes.{history_rules}
use valuecrm.History.Credit.{get_order-History}
use valuecrm.History.Staff.{record_audit-History, report-History}
use valuecrm.History.Collection.{update_order-History}

module _ {s₀ : Db} where
  disposed-History :
      (k : ℕ) (d : ManualDisposition) (now : ℕ)
      → Preserves
          (History s₀)
          (update_order k (λ o. record o { manual_disposition = d; updated_at = now }))
  disposed-History k d now = update_order-History k _ (λ o. record {
    path = here;
    customer = refl;
    plan = refl;
    course = refl;
    idempotency_key = refl;
    terms = refl;
    created_at = refl;
  })

  dispose-History :
      (k : ℕ) (actor : Actor) (o : Order) (d : ManualDisposition)
      → Preserves (History s₀) (dispose k actor o d)
  unfolding dispose
  dispose-History k actor o d =
      search (history_rules, record_audit-History, disposed-History) depth 14

  pub disposition-History :
      (k : ℕ) (d : Option ManualDisposition) (actor : Actor)
      → Preserves (History s₀) (apply_manual_disposition k d actor)
  unfolding apply_manual_disposition
  disposition-History k d actor =
      search
        (history_rules, get_order-History, record_audit-History, dispose-History, report-History)
        depth 16

  update_request-History :
      (k : ℕ) (f : ProvisioningRequest → ProvisioningRequest)
      → Preserves (History s₀) (update_request k f)
  unfolding update_request
  update_request-History k f = search history_rules depth 12

  pub approve-History :
      (k : ℕ) (r : ProvisioningRequest) (user : Option ℕ)
      → Preserves (History s₀) (approve k r user)
  unfolding approve
  approve-History k r user = search (history_rules, update_request-History) depth 12

  pub cancel-History : (k : ℕ) → Preserves (History s₀) (cancel k)
  unfolding cancel
  cancel-History k = update_request-History k _

  retry_locked-History :
      (env : Env) (k : ℕ) (actor : Actor) → Preserves (History s₀) (retry_locked env k actor)
  unfolding retry_locked
  retry_locked-History env k actor = search (history_rules, record_audit-History) depth 22

  pub retry_request-History :
      (env : Env) (k : ℕ) (actor : Actor) → Preserves (History s₀) (retry_request env k actor)
  unfolding retry_request
  retry_request-History env k actor = search (history_rules, retry_locked-History) depth 12
