-- ===== src/Sequences/Kept.antt =====
-- What no sequence of operations can change.
use valuecrm.Base.{refl, ℕ, ◌≡◌, true, false, String, Option, List, [], ◌∷◌}
use valuecrm.Settings.{Env}
use valuecrm.Model.{Db}
use valuecrm.Exec.{ok}
use valuecrm.ClickFunnels.{Provider}
use valuecrm.Checkout.Guests.{Texts, resolve_guest_contact}
use valuecrm.Enrollments.{enroll_contact, bulk_each, bulk_enroll}
use valuecrm.Exec.Preserves.{Preserves, Preserves-pure, Preserves-bind, Preserves-attempt}
use valuecrm.Credit.{nothing_applied, apply_verified_success}
use valuecrm.Credit.Once.{credited_once}
use valuecrm.Sequences.{
  World, world_services, world_worker, Operation, run_payment_followups, operate, after,
}
use valuecrm.History.{History, History-refl, History-trans}
use valuecrm.History.Writes.{History-frame, history_rules, sleep-History}
use valuecrm.History.Checkout.{start_checkout-History, pay_next-History}
use valuecrm.History.Webhook.{webhook-History}
use valuecrm.History.Delivery.{deliver_pending-History, process_one-History}
use valuecrm.History.Provisioning.{process_pending-History, execute-History, enroll_contact-History}
use valuecrm.History.Collection.{collect-History, lift-History}
use valuecrm.History.Expiry.{expire_stale-History}
use valuecrm.History.Reconciliation.{reconcile-History}
use valuecrm.History.Staff.{
  cancel_order-History, cancel_installment-History, waive_installment-History,
  check_tara_status-History, attribute-History, retry_confirmation-History,
}
use valuecrm.History.Access.{attempt_suspension-History, order_suspension-History}
use valuecrm.History.Disposition.{
  disposition-History, approve-History, cancel-History, retry_request-History,
}

followups-History :
    (w : World) (c r : Option ℕ) {s₀ : Db} → Preserves (History s₀) (run_payment_followups w c r)
unfolding run_payment_followups
followups-History w c r = search (history_rules, execute-History, process_one-History) depth 14

guest-History :
    (t : Texts) (email phone : Option String) (first_name last_name : String) {s₀ : Db}
    → Preserves (History s₀) (resolve_guest_contact t email phone first_name last_name)
unfolding resolve_guest_contact
guest-History t email phone first_name last_name = search history_rules depth 12

bulk_each-History :
    (provider : Provider) (subdomain : String) (workspace_id : ℕ) (cf_course_id : String)
    (emails : List String) {s₀ : Db}
    → Preserves (History s₀) (bulk_each provider subdomain workspace_id cf_course_id emails)
unfolding bulk_each
bulk_each-History provider subdomain workspace_id cf_course_id [] = search history_rules
bulk_each-History provider subdomain workspace_id cf_course_id (email ∷ emails) =
    Preserves-bind _ _
      (Preserves-attempt (enroll_contact provider subdomain workspace_id email cf_course_id)
        (enroll_contact-History provider subdomain workspace_id email cf_course_id))
      (λ dto.
        Preserves-bind _ _ (bulk_each-History provider subdomain workspace_id cf_course_id emails)
          (λ rest. Preserves-pure _))

bulk_enroll-History :
    (provider : Provider) (subdomain : String) (workspace_id : ℕ) (emails : List String)
    (cf_course_id : String) {s₀ : Db}
    → Preserves (History s₀) (bulk_enroll provider subdomain workspace_id emails cf_course_id)
unfolding bulk_enroll
bulk_enroll-History provider subdomain workspace_id emails cf_course_id =
    search (history_rules, bulk_each-History) depth 12

operate-History : (w : World) (o : Operation) {s₀ : Db} → Preserves (History s₀) (operate w o)
unfolding operate
operate-History w (Operation.wait n) = sleep-History n
operate-History w (Operation.edit contacts courses plans) {s₀ = s₀} = record {
  after = λ s h. History-frame s₀ s _ refl refl refl h;
}
operate-History w (Operation.guest email phone first_name last_name) =
    search (history_rules, guest-History) depth 12
operate-History w (Operation.enroll subdomain workspace_id email cf_course_id) =
    search (history_rules, enroll_contact-History) depth 12
operate-History w (Operation.bulk subdomain workspace_id emails cf_course_id) =
    search (history_rules, bulk_enroll-History) depth 12
operate-History w (Operation.checkout customer plan key) =
    search (history_rules, start_checkout-History) depth 12
operate-History w (Operation.pay_next k) = search (history_rules, pay_next-History) depth 12
operate-History w (Operation.webhook body) =
    let keeps : (s : Db) (k : ℕ) → Preserves (History s) ((world_services w).lift_suspension k) =
      λ s k. lift-History w.worker.collector k in
    search (history_rules, webhook-History (world_services w) keeps) depth 12
operate-History w (Operation.followups c r) = followups-History w c r
operate-History w (Operation.deliver limit) =
    search (history_rules, deliver_pending-History) depth 12
operate-History w (Operation.provision limit) =
    search (history_rules, process_pending-History) depth 12
operate-History w Operation.collect = search (history_rules, collect-History) depth 12
operate-History w (Operation.expire limit) = search (history_rules, expire_stale-History) depth 12
operate-History w (Operation.reconcile acquired) =
    search
      (
        history_rules,
        reconcile-History (world_worker w) (λ s k. lift-History w.worker.collector k)
            (λ s. Preserves-pure tt),
      )
      depth 12
operate-History w (Operation.staff_cancel_order k actor) = cancel_order-History k actor
operate-History w (Operation.staff_dispose k d actor) = disposition-History k d actor
operate-History w (Operation.staff_cancel_installment k actor) = cancel_installment-History k actor
operate-History w (Operation.staff_waive k actor) = waive_installment-History w.services.env k actor
operate-History w (Operation.staff_check k actor) =
    check_tara_status-History (world_services w) (λ s k. lift-History w.worker.collector k) k actor
operate-History w (Operation.staff_attribute e i amount actor) =
    attribute-History _ _ e i amount actor
operate-History w (Operation.staff_resend k actor) = retry_confirmation-History _ k actor
operate-History w (Operation.staff_suspend suspended k actor) =
    attempt_suspension-History _ suspended k actor
operate-History w (Operation.staff_suspend_order suspended k actor) =
    order_suspension-History _ suspended k actor
operate-History w (Operation.staff_retry k actor) = retry_request-History _ k actor
operate-History w (Operation.staff_approve k r user) = approve-History k r user
operate-History w (Operation.staff_cancel_request k) = cancel-History k

-- Whatever sequence of the modelled entry points and of edits runs, and whatever Tara, ClickFunnels
-- and the mails answer to each of them: no row of orders, installments or payment attempts is lost, no
-- frozen column of one changes, every status moves along its transition table only, a paid installment
-- is never written again, and a recorded payment id stays.
pub after-History : (os : List (World × Operation)) (s : Db) → History s (after os s)
unfolding after
after-History [] s = History-refl s
after-History ((w, o) ∷ os) s =
    History-trans s _ _ ((operate-History w o).after s (History-refl s)) (after-History os _)

-- Once a payment was newly applied to an attempt, then after any sequence of the modelled entry points
-- and of edits, whatever Tara, ClickFunnels and the mails answer to each of them, a further
-- application to that attempt, whatever payment id and amount it brings, reports that nothing is new
-- and changes nothing.
pub credited_once_after :
    (env : Env) (k : ℕ) (p q : Option String) (v x : Option ℕ) (s t : Db)
    (os : List (World × Operation))
    → apply_verified_success env nothing_applied k p v s ≡ (ok true, t)
    → apply_verified_success env nothing_applied k q x (after os t) ≡ (ok false, after os t)
credited_once_after env k p q v x s t os h =
    credited_once env k p q v x s t (after os t) h (after-History os t)
