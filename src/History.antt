-- ===== src/History.antt =====
-- What no service call may do to the records of a payment: rows are never lost, frozen columns never
-- change, a status moves along its transition table only, a paid installment is never written again,
-- and a payment id once recorded (a text that is not empty) stays.
pub mod Writes
pub mod Followups
pub mod Link
pub mod Credit
pub mod Webhook
pub mod Orders
pub mod Checkout
pub mod Expiry
pub mod Staff
pub mod Access
pub mod Collection
pub mod Disposition
pub mod Delivery
pub mod Reconciliation
pub mod Provisioning
use valuecrm.Base.{ℕ, ◌≡◌, refl, ◌∙◌, String, truthy, Option, truthy, some, subst, sym, ap}
use valuecrm.Table.Evolves.{Evolves, Evolves-refl, Evolves-trans}
use valuecrm.Model.{Db, Terms, Order, Installment, PaymentAttempt}
use valuecrm.Model.Status.{
  InstallmentStatus, AttemptStatus, order_status_eq, installment_status_eq, attempt_status_eq,
}
use valuecrm.Transitions.{order_transitions, installment_transitions, attempt_transitions}
use valuecrm.Transitions.Paths.{Follows, here, Follows-trans}

pub record OrderKept (o p : Order) : Type 0 where
  pub path : Follows order_transitions o.status p.status
  pub customer : p.customer ≡ o.customer
  pub plan : p.plan ≡ o.plan
  pub course : p.course ≡ o.course
  pub idempotency_key : p.idempotency_key ≡ o.idempotency_key
  pub terms : p.terms ≡ o.terms
  pub created_at : p.created_at ≡ o.created_at

pub record InstallmentKept (i j : Installment) : Type 0 where
  pub path : Follows installment_transitions i.status j.status
  pub order : j.order ≡ i.order
  pub sequence : j.sequence ≡ i.sequence
  pub expected_amount : j.expected_amount ≡ i.expected_amount
  pub currency : j.currency ≡ i.currency
  pub due_date : j.due_date ≡ i.due_date
  pub paid : i.status ≡ InstallmentStatus.paid → j ≡ i

pub record AttemptKept (a b : PaymentAttempt) : Type 0 where
  pub path : Follows attempt_transitions a.status b.status
  pub installment : b.installment ≡ a.installment
  pub tara_product_id : b.tara_product_id ≡ a.tara_product_id
  pub expected_amount : b.expected_amount ≡ a.expected_amount
  pub currency : b.currency ≡ a.currency
  pub payment_id :
      (p : String) → truthy a.tara_payment_id ≡ some p → truthy b.tara_payment_id ≡ some p

pub record History (s t : Db) : Type 0 where
  pub orders : Evolves OrderKept s.orders t.orders
  pub installments : Evolves InstallmentKept s.installments t.installments
  pub attempts : Evolves AttemptKept s.attempts t.attempts

pub OrderKept-refl : (o : Order) → OrderKept o o
OrderKept-refl o = record {
  path = here;
  customer = refl;
  plan = refl;
  course = refl;
  idempotency_key = refl;
  terms = refl;
  created_at = refl;
}

OrderKept-trans : (o p q : Order) → OrderKept o p → OrderKept p q → OrderKept o q
OrderKept-trans o p q a b = record {
  path = Follows-trans a.path b.path;
  customer = b.customer ∙ a.customer;
  plan = b.plan ∙ a.plan;
  course = b.course ∙ a.course;
  idempotency_key = b.idempotency_key ∙ a.idempotency_key;
  terms = b.terms ∙ a.terms;
  created_at = b.created_at ∙ a.created_at;
}

pub InstallmentKept-refl : (i : Installment) → InstallmentKept i i
InstallmentKept-refl i = record {
  path = here;
  order = refl;
  sequence = refl;
  expected_amount = refl;
  currency = refl;
  due_date = refl;
  paid = λ _. refl;
}

pub InstallmentKept-trans :
    (i j k : Installment) → InstallmentKept i j → InstallmentKept j k → InstallmentKept i k
InstallmentKept-trans i j k a b = record {
  path = Follows-trans a.path b.path;
  order = b.order ∙ a.order;
  sequence = b.sequence ∙ a.sequence;
  expected_amount = b.expected_amount ∙ a.expected_amount;
  currency = b.currency ∙ a.currency;
  due_date = b.due_date ∙ a.due_date;
  paid = λ h. b.paid (ap (λ (x : Installment). x.status) (a.paid h) ∙ h) ∙ a.paid h;
}

pub AttemptKept-refl : (a : PaymentAttempt) → AttemptKept a a
AttemptKept-refl a = record {
  path = here;
  installment = refl;
  tara_product_id = refl;
  expected_amount = refl;
  currency = refl;
  payment_id = λ p h. h;
}

AttemptKept-trans : (a b c : PaymentAttempt) → AttemptKept a b → AttemptKept b c → AttemptKept a c
AttemptKept-trans a b c p q = record {
  path = Follows-trans p.path q.path;
  installment = q.installment ∙ p.installment;
  tara_product_id = q.tara_product_id ∙ p.tara_product_id;
  expected_amount = q.expected_amount ∙ p.expected_amount;
  currency = q.currency ∙ p.currency;
  payment_id = λ x h. q.payment_id x (p.payment_id x h);
}

pub History-refl : (s : Db) → History s s
History-refl s = record {
  orders = Evolves-refl OrderKept-refl s.orders;
  installments = Evolves-refl InstallmentKept-refl s.installments;
  attempts = Evolves-refl AttemptKept-refl s.attempts;
}

pub History-trans : (s t u : Db) → History s t → History t u → History s u
History-trans s t u h k = record {
  orders = Evolves-trans OrderKept-trans s.orders t.orders u.orders h.orders k.orders;
  installments =
      Evolves-trans InstallmentKept-trans s.installments t.installments u.installments
        h.installments k.installments;
  attempts = Evolves-trans AttemptKept-trans s.attempts t.attempts u.attempts h.attempts k.attempts;
}
