-- ===== src/Sequences.antt =====
-- The program as a whole: the entry points of the services that write to the database, and edits by
-- staff of contacts, courses and plans, in any order, whatever each comes to and whatever time passes
-- in between. A request that raises leaves what it has written outside its transactions, as the code
-- does.
pub mod Kept
use valuecrm.Base.{
  ℕ, ◌+◌, ⊤, Bool, true, false, not, String, Option, none, some, List, [], ◌∷◌, ◌==◌, nat_eq,
  if◌then◌else◌,
}
use valuecrm.Model.{Db, Contact, Course, PaymentPlan, ManualDisposition}
use valuecrm.Model.Enrollment.{ProvisioningRequest}
use valuecrm.Exec.{Exec, Result, ok, pure, attempt, gets, sleep, ◌>>=◌, ◌>>◌, maybe}
use valuecrm.Table.{Table, get}
use valuecrm.Audit.{Actor}
use valuecrm.Checkout.{Shop}
use valuecrm.Checkout.Pay.{start_checkout, pay_next_installment}
use valuecrm.Checkout.Guests.{Texts, resolve_guest_contact}
use valuecrm.Enrollments.{enroll_contact, bulk_enroll}
use valuecrm.Webhook.{Services}
use valuecrm.Webhook.Process.{process_webhook}
use valuecrm.Delivery as Delivery
use valuecrm.Provisioning as Provisioning
use valuecrm.Provisioning.Staff.{approve, cancel, retry_request}
use valuecrm.Collection.{Collector, lift_nonpayment_suspension}
use valuecrm.Collection as Collection
use valuecrm.Expiry.{expire_stale_orders}
use valuecrm.Reconciliation.Run.{Worker}
use valuecrm.Reconciliation.Run as Run
use valuecrm.Administration.Orders.{cancel_order, apply_manual_disposition}
use valuecrm.Administration.Installments.{cancel_installment, waive_installment}
use valuecrm.Administration.Attempts.{check_tara_status}
use valuecrm.Administration.Events.{attribute_webhook_event, retry_confirmation}
use valuecrm.Administration.Access.{set_attempt_suspension, set_order_suspension}

-- Everything from outside that an operation takes: what Tara, ClickFunnels and the mails answer to it.
pub record World : Type 0 where
  pub shop : Shop
  pub services : Services
  pub worker : Worker
  pub texts : Texts
  pub new_product_id : Db → String

-- The services with the suspensions lifted as the program lifts them.
abbrev pub wired : Collector → Services → Services
wired c sv = record sv { lift_suspension = lift_nonpayment_suspension c }

abbrev pub world_services : World → Services
world_services w = wired w.worker.collector w.services

-- The hourly run, with those services, and with no write by the alerts.
abbrev pub world_worker : World → Worker
world_worker w = record w.worker {
  services = wired w.worker.collector w.worker.services;
  send_staff_alerts = pure tt;
}

-- What may happen next.
pub data Operation : Type 0 where
  wait : ℕ → Operation
  edit : (Db → Table Contact) → (Db → Table Course) → (Db → Table PaymentPlan) → Operation
  guest : Option String → Option String → String → String → Operation
  enroll : String → ℕ → String → String → Operation
  bulk : String → ℕ → List String → String → Operation
  checkout : ℕ → ℕ → String → Operation
  pay_next : ℕ → Operation
  webhook : String → Operation
  followups : Option ℕ → Option ℕ → Operation
  deliver : ℕ → Operation
  provision : ℕ → Operation
  collect : Operation
  expire : ℕ → Operation
  reconcile : Bool → Operation
  staff_cancel_order : ℕ → Actor → Operation
  staff_dispose : ℕ → Option ManualDisposition → Actor → Operation
  staff_cancel_installment : ℕ → Actor → Operation
  staff_waive : ℕ → Actor → Operation
  staff_check : ℕ → Actor → Operation
  staff_attribute : ℕ → ℕ → ℕ → Actor → Operation
  staff_resend : ℕ → Actor → Operation
  staff_suspend : Bool → ℕ → Actor → Operation
  staff_suspend_order : Bool → ℕ → Actor → Operation
  staff_retry : ℕ → Actor → Operation
  staff_approve : ℕ → ProvisioningRequest → Option ℕ → Operation
  staff_cancel_request : ℕ → Operation

-- `work` of `run_payment_followups`: the request if there is one, then the confirmation, each with an
-- `except Exception`
unfoldable pub run_payment_followups : World → Option ℕ → Option ℕ → Exec ⊤
run_payment_followups w confirmation request = do
  provisioned ← attempt (
      maybe request (pure tt) λ k. do
        found ← gets (λ s. get k s.requests)
        maybe found (pure tt) (λ r. Provisioning.execute w.worker.provider k))
  sent ← attempt (maybe confirmation (pure tt) (Delivery.process_one w.worker.mailer))
  pure tt

-- The call that an operation makes; what it returns is of no consequence here.
unfoldable pub operate : World → Operation → Exec ⊤
unfolding run_payment_followups
operate w (wait n) = sleep n
operate w (edit contacts courses plans) =
    λ s. (ok tt, record s { contacts = contacts s; courses = courses s; plans = plans s })
operate w (guest email phone first_name last_name) =
    resolve_guest_contact w.texts email phone first_name last_name >> pure tt
operate w (enroll subdomain workspace_id email cf_course_id) =
    enroll_contact w.worker.provider subdomain workspace_id email cf_course_id >> pure tt
operate w (bulk subdomain workspace_id emails cf_course_id) =
    bulk_enroll w.worker.provider subdomain workspace_id emails cf_course_id >> pure tt
operate w (checkout customer plan key) = start_checkout w.shop customer plan key >> pure tt
operate w (pay_next k) = pay_next_installment w.shop k >> pure tt
operate w (webhook body) = process_webhook (world_services w) body >> pure tt
operate w (followups confirmation request) = run_payment_followups w confirmation request
operate w (deliver limit) = Delivery.process_pending w.worker.mailer limit >> pure tt
operate w (provision limit) = Provisioning.process_pending w.worker.provider limit >> pure tt
operate w collect = Collection.run w.worker.collector >> pure tt
operate w (expire limit) = expire_stale_orders w.services.env limit >> pure tt
operate w (reconcile acquired) = Run.run (world_worker w) acquired >> pure tt
operate w (staff_cancel_order k actor) = cancel_order k actor
operate w (staff_dispose k d actor) = apply_manual_disposition k d actor
operate w (staff_cancel_installment k actor) = cancel_installment k actor
operate w (staff_waive k actor) = waive_installment w.services.env k actor
operate w (staff_check k actor) = check_tara_status (world_services w) k actor
operate w (staff_attribute e i amount actor) =
    attribute_webhook_event w.services.env w.new_product_id e i amount actor
operate w (staff_resend k actor) = retry_confirmation w.services.env k actor
operate w (staff_suspend suspended k actor) =
    set_attempt_suspension w.worker.provider suspended k actor
operate w (staff_suspend_order suspended k actor) =
    set_order_suspension w.worker.provider suspended k actor
operate w (staff_retry k actor) = retry_request w.services.env k actor
operate w (staff_approve k r user) = approve k r user
operate w (staff_cancel_request k) = cancel k

-- The database after some operations, each with what it is answered from outside: Tara may answer one
-- operation that a payment is pending and the next that it succeeded.
unfoldable pub after : List (World × Operation) → Db → Db
unfolding operate
after [] s = s
after ((w, o) ∷ os) s = after os (operate w o s).1
