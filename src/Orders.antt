-- ===== src/Orders.antt =====
-- `OrderService.create_order` of apps/payments/services.py with the rows that it inserts.
pub mod Schedule
pub mod Creation
use valuecrm.Base.{
  ℕ, zero, suc, ◌+◌, ◌-◌, ◌*◌, ⊤, Bool, true, false, not, ◌||◌, String, Option, none, some, List,
  [], ◌∷◌, ◌==◌, nat_eq, string_eq, if◌then◌else◌, get_or,
}
use valuecrm.Table.{Table, get, add, fresh, select, first, exists}
use valuecrm.Settings.{Env}
use valuecrm.Model.{no_disposition, Db, Terms, Order, Installment, PaymentPlan, Course}
use valuecrm.Model.Status.{OrderStatus, InstallmentStatus}
use valuecrm.Exec.{
  Exec, Error, ok, order_creation, integrity, pure, raise, gets, or_raise, catch, atomic, modify,
  ◌>>=◌, ◌>>◌, maybe,
}

-- `PaymentPlan.computed_total`
abbrev pub computed_total : PaymentPlan → ℕ
computed_total plan = plan.installment_amount * plan.installment_count

-- The terms that an order freezes.
abbrev pub frozen_terms : PaymentPlan → Course → Terms
frozen_terms plan course = record {
  plan_code = plan.code;
  plan_name = plan.name;
  course_cf_id = course.cf_course_id;
  course_name = course.name;
  currency = plan.currency;
  installment_count = plan.installment_count;
  installment_amount = plan.installment_amount;
  installment_interval_days = plan.installment_interval_days;
  total_expected_amount = computed_total plan;
  access_policy = plan.access_policy;
}

abbrev pub new_order : ℕ → ℕ → PaymentPlan → Course → String → ℕ → Order
new_order customer plan_id plan course key now = record {
  customer = customer;
  plan = plan_id;
  course = plan.course;
  idempotency_key = key;
  terms = frozen_terms plan course;
  status = OrderStatus.pending;
  manual_disposition = no_disposition;
  suspended_for_nonpayment_at = none;
  created_at = now;
  updated_at = now;
}

abbrev pub new_installment : ℕ → Order → ℕ → ℕ → Installment
new_installment k o start_date sequence = record {
  order = k;
  sequence = sequence;
  expected_amount = o.installment_amount;
  currency = o.currency;
  due_date = start_date + o.installment_interval_days * (sequence - 1);
  status = InstallmentStatus.scheduled;
  paid_amount = none;
  paid_at = none;
}

-- The list of `_create_installments`: `n` installments from a sequence number on.
unfoldable pub schedule : ℕ → Order → ℕ → ℕ → ℕ → List Installment
schedule k o start_date sequence zero = []
schedule k o start_date sequence (suc n) =
    new_installment k o start_date sequence ∷ schedule k o start_date (suc sequence) n

-- `bulk_create`, which inserts in the order of the list
unfoldable pub insert_all {ℓ} : {R : Type ℓ} → List R → Table R → Table R
insert_all [] t = t
insert_all (r ∷ rs) t = insert_all rs (add r t)

-- `_create_installments`
unfoldable pub create_installments : ℕ → Order → ℕ → Exec ⊤
unfolding schedule insert_all
create_installments k o start_date = modify (λ s. record s {
  installments = insert_all (schedule k o start_date 1 o.installment_count) s.installments;
})

abbrev pub has_key : String → ℕ → Order → Bool
has_key key j o = o.idempotency_key == key

-- What the unique index on the idempotency key and the check constraints of `Order` refuse.
abbrev pub refused : Order → Db → Bool
refused o s =
    exists (has_key o.idempotency_key) s.orders
    || o.total_expected_amount == 0
    || o.installment_count == 0

-- `Order.objects.create(…)`
unfoldable pub insert_order : Order → Exec ℕ
insert_order o = do
  bad ← gets (refused o)
  if bad then raise integrity else do
    k ← gets (λ s. fresh s.orders)
    modify (λ s. record s { orders = add o s.orders })
    pure k

-- `_check_idempotency_conflict`, and the return of the existing order
unfoldable pub existing_order : ℕ → ℕ → ℕ × Order → Exec (ℕ × Bool)
existing_order customer plan_id (k, o) =
    if not (o.customer == customer) || not (o.plan == plan_id)
    then raise order_creation
    else pure (k, false)

-- The block under `transaction.atomic()`.
unfoldable pub insert_new : ℕ → ℕ → String → ℕ → Exec (ℕ × Bool)
unfolding insert_order create_installments
insert_new customer plan_id key start_date = do
  p ← gets (λ s. get plan_id s.plans)
  plan ← or_raise p order_creation
  if not plan.is_active then raise order_creation else do
    c ← gets (λ s. get plan.course s.courses)
    course ← or_raise c order_creation
    order ← gets (λ s. new_order customer plan_id plan course key s.clock)
    k ← insert_order order
    create_installments k order start_date
    pure (k, true)

-- `except IntegrityError:`
unfoldable pub lost_race : ℕ → ℕ → String → Error → Exec (ℕ × Bool)
unfolding existing_order
lost_race customer plan_id key integrity = do
  winner ← gets (λ s. first (select (has_key key) s.orders))
  maybe winner (raise integrity) (existing_order customer plan_id)
lost_race customer plan_id key e = raise e

-- `create_order`; it returns the order's key and whether it is new
unfoldable pub create_order : Env → ℕ → ℕ → String → Option ℕ → Exec (ℕ × Bool)
unfolding existing_order insert_new lost_race
create_order env customer plan_id key start_date = do
  today ← gets (λ s. env.utc_date s.clock)
  existing ← gets (λ s. first (select (has_key key) s.orders))
  maybe existing
      (catch (atomic (insert_new customer plan_id key (get_or start_date today)))
        (lost_race customer plan_id key))
      (existing_order customer plan_id)
