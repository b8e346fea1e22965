-- ===== src/Orders/Creation.antt =====
-- What `create_order` leaves, and that a repeated call leaves it alone.
use valuecrm.Base.{
  ℕ, ◌≡◌, refl, sym, ◌∙◌, ap, Bool, true, false, not, String, Option, none, some, arith, ◌==◌,
  nat_eq, string_eq, eq_iff, if◌then◌else◌, get_or, ◌||◌, ◌*◌, beq_refl, Option-cases, Bool-cases,
  inl, inr, ◌⊎◌, ◌≢◌,
}
use valuecrm.Table.{first-select-add, get-add, get, add, fresh, select, first, exists}
use valuecrm.Settings.{Env}
use valuecrm.Model.{Db, Order, PaymentPlan, Course, Terms, ManualDisposition}
use valuecrm.Model.Status.{OrderStatus}
use valuecrm.Exec.{
  Error, ok, order_creation, integrity, atomic, catch, ◌>>=◌, maybe, pure, raise,
  invalid_transition, payment_id_conflict, duplicate_payment, webhook_rejected, checkout,
  does_not_exist, tara, value_error, type_error, provisioning, admin_action, click_funnels,
}
use valuecrm.Exec.Laws.{catch-atomic-eq-ok}
use valuecrm.Followups.{of_order}
use valuecrm.Orders.{
  new_order, schedule, insert_all, has_key, refused, existing_order, insert_new, lost_race,
  create_order,
}
use valuecrm.Orders.Schedule.{asked, rows, asked-schedule, rows-schedule, select-none}

-- The database with the order and its installments.
abbrev pub inserted : Order → ℕ → Db → Db
inserted o start_date s = record s {
  orders = add o s.orders;
  installments =
      insert_all (schedule (fresh s.orders) o start_date 1 o.installment_count) s.installments;
}

-- A plan that is for sale, with its course.
pub record ForSale (plan_id : ℕ) (s : Db) : Type 0 where
  pub plan : PaymentPlan
  pub course : Course
  pub at_plan : get plan_id s.plans ≡ some plan
  pub is_active : plan.is_active ≡ true
  pub at_course : get plan.course s.courses ≡ some course

module _ (customer plan_id : ℕ) (key : String) (start_date : ℕ) (s : Db) where
  insert_new-ok :
      {r : ℕ × Bool} {t : Db}
      → insert_new customer plan_id key start_date s ≡ (ok r, t)
      → (f : ForSale plan_id s) × (r ≡ (fresh s.orders, true))
        × (t ≡ inserted (new_order customer plan_id f.plan f.course key s.clock) start_date s)
  unfolding insert_new ◌>>=◌
  insert_new-ok {r} {t} h = elim (Option-cases (get plan_id s.plans)) [
    | inl no_plan ↦ absurd ground arith
    | inr (plan, at_plan) ↦ elim (Bool-cases plan.is_active) [
      | inr inactive ↦ absurd ground arith
      | inl active ↦ elim (Option-cases (get plan.course s.courses)) [
        | inl no_course ↦ absurd ground arith
        | inr (course, at_course) ↦
            elim (Bool-cases (refused (new_order customer plan_id plan course key s.clock) s)) [
              | inl bad ↦ absurd ground arith
              | inr fine ↦ (
                record {
                  plan = plan;
                  course = course;
                  at_plan = at_plan;
                  is_active = active;
                  at_course = at_course;
                },
                ground arith,
                ground arith,
              )
            ]
      ]
    ]
  ]

module _ (customer plan_id : ℕ) (key : String) (s : Db) where
  -- An existing order is returned to its own customer and plan only, and then again in any state.
  existing_order-ok :
      (j : ℕ) (o : Order) {k : ℕ} {b : Bool} {t : Db}
      → existing_order customer plan_id (j, o) s ≡ (ok (k, b), t)
      → (k ≡ j)
        × (b ≡ false)
        × (t ≡ s)
        × ((u : Db) → existing_order customer plan_id (j, o) u ≡ (ok (j, false), u))
  unfolding existing_order pure raise
  existing_order-ok j o {k} {b} {t} h =
      shape (not (o.customer == customer) || not (o.plan == plan_id)) h
    where
      shape :
          (c : Bool)
          → (if c then raise {A = ℕ × Bool} order_creation else pure (j, false)) s ≡ (ok (k, b), t)
          → (k ≡ j)
            × (b ≡ false)
            × (t ≡ s)
            × ((u : Db)
                → (if c then raise {A = ℕ × Bool} order_creation else pure (j, false)) u
                  ≡ (ok (j, false), u))
      shape true e = absurd cc
      shape false e = (cc, cc, cc, λ u. refl)

  lost_race-none :
      (e : Error) {x : ℕ × Bool} {t : Db}
      → first (select (has_key key) s.orders) ≡ none
      → lost_race customer plan_id key e s ≢ (ok x, t)
  unfolding lost_race ◌>>=◌ maybe
  lost_race-none integrity h q = ground arith
  lost_race-none order_creation h q = cc
  lost_race-none invalid_transition h q = cc
  lost_race-none payment_id_conflict h q = cc
  lost_race-none duplicate_payment h q = cc
  lost_race-none webhook_rejected h q = cc
  lost_race-none checkout h q = cc
  lost_race-none does_not_exist h q = cc
  lost_race-none (tara x) h q = cc
  lost_race-none value_error h q = cc
  lost_race-none type_error h q = cc
  lost_race-none provisioning h q = cc
  lost_race-none admin_action h q = cc
  lost_race-none (click_funnels x) h q = cc

  -- A new order comes from a plan for sale; otherwise the key had its order already.
  create_order-cases :
      (env : Env) (d : Option ℕ) {k : ℕ} {b : Bool} {t : Db}
      → create_order env customer plan_id key d s ≡ (ok (k, b), t)
      → ((f : ForSale plan_id s) × (k ≡ fresh s.orders)
          × (b ≡ true)
          × (t
              ≡ inserted
                  (new_order customer plan_id f.plan f.course key s.clock)
                  (get_or d (env.utc_date s.clock))
                  s))
        ⊎ ((o : Order) × (first (select (has_key key) s.orders) ≡ some (k, o))
            × (b ≡ false)
            × (t ≡ s)
            × ((u : Db) → existing_order customer plan_id (k, o) u ≡ (ok (k, false), u)))
  unfolding create_order ◌>>=◌ maybe
  create_order-cases env d {k} {b} {t} h = look (first (select (has_key key) s.orders)) refl h
    where
      look :
          (found : Option (ℕ × Order))
          → first (select (has_key key) s.orders) ≡ found
          → maybe found
              (catch
                (atomic (insert_new customer plan_id key (get_or d (env.utc_date s.clock))))
                (lost_race customer plan_id key))
              (existing_order customer plan_id)
              s
            ≡ (ok (k, b), t)
          → ((f : ForSale plan_id s) × (k ≡ fresh s.orders)
              × (b ≡ true)
              × (t
                  ≡ inserted
                      (new_order customer plan_id f.plan f.course key s.clock)
                      (get_or d (env.utc_date s.clock))
                      s))
            ⊎ ((o : Order) × (first (select (has_key key) s.orders) ≡ some (k, o))
                × (b ≡ false)
                × (t ≡ s)
                × ((u : Db) → existing_order customer plan_id (k, o) u ≡ (ok (k, false), u)))
      look none e q = elim (catch-atomic-eq-ok _ _ s q) [
        | inl returned ↦
            let (f, same, state) =
              insert_new-ok customer plan_id key (get_or d (env.utc_date s.clock)) s returned in
            inl (f, cc, cc, state)
        | inr (x, raced) ↦ absurd (lost_race-none x e raced)
      ]
      look (some (j, o)) e q =
          let (same, fresh_flag, state, again) = existing_order-ok j o q in
          inr (o, e ∙ rw same refl, fresh_flag, state, rw same again)

new_order-existing :
    (customer plan_id : ℕ) (plan : PaymentPlan) (course : Course) (key : String) (now k : ℕ)
    (t : Db)
    → existing_order customer plan_id (k, new_order customer plan_id plan course key now) t
      ≡ (ok (k, false), t)
unfolding existing_order pure
new_order-existing customer plan_id plan course key now k t =
    rw (beq_refl customer, beq_refl plan_id) refl

-- The call of `create_order` that meets its order again returns it.
again_lem :
    (env : Env) (customer plan_id : ℕ) (key : String) (d : Option ℕ) (t : Db) {k : ℕ} {o : Order}
    → first (select (has_key key) t.orders) ≡ some (k, o)
    → existing_order customer plan_id (k, o) t ≡ (ok (k, false), t)
    → create_order env customer plan_id key d t ≡ (ok (k, false), t)
unfolding create_order ◌>>=◌ maybe
again_lem env customer plan_id key d t h e = rw h e

-- A call of `create_order` that returned an order, repeated in the state that it left with the same
-- customer, plan and key and any start date, returns the same order as an existing one and changes
-- nothing.
pub create_order-again :
    (env : Env) (customer plan_id : ℕ) (key : String) (d d' : Option ℕ) (s : Db) {k : ℕ} {b : Bool}
    {t : Db}
    → create_order env customer plan_id key d s ≡ (ok (k, b), t)
    → create_order env customer plan_id key d' t ≡ (ok (k, false), t)
create_order-again env customer plan_id key d d' s {k} {b} {t} h =
    elim (create_order-cases customer plan_id key s env d h) [
      | inl (f, at, created, state) ↦
          let o : Order = new_order customer plan_id f.plan f.course key s.clock in
          let found : first (select (has_key key) (add o s.orders)) ≡ some (fresh s.orders, o) =
            first-select-add (has_key key) o s.orders ((eq_iff key key).1 refl) in
          let own : existing_order customer plan_id (fresh s.orders, o) t
              ≡ (ok (fresh s.orders, false), t) =
            new_order-existing customer plan_id f.plan f.course key s.clock (fresh s.orders) t in
          again_lem env customer plan_id key d' t
            (ap (λ (u : Db). first (select (has_key key) u.orders)) state
              ∙ found
              ∙ ap (λ j. some (j, o)) (sym at))
            (rw at own)
      | inr (o, found, old, state, again) ↦
          again_lem env customer plan_id key d' t
            (ap (λ (u : Db). first (select (has_key key) u.orders)) state ∙ found) (again t)
    ]

-- Terms that are those of the plan and the course.
pub record SameTerms (plan : PaymentPlan) (course : Course) (t : Terms) : Type 0 where
  pub plan_code : t.plan_code ≡ plan.code
  pub plan_name : t.plan_name ≡ plan.name
  pub course_cf_id : t.course_cf_id ≡ course.cf_course_id
  pub course_name : t.course_name ≡ course.name
  pub currency : t.currency ≡ plan.currency
  pub installment_count : t.installment_count ≡ plan.installment_count
  pub installment_amount : t.installment_amount ≡ plan.installment_amount
  pub installment_interval_days : t.installment_interval_days ≡ plan.installment_interval_days
  pub access_policy : t.access_policy ≡ plan.access_policy

-- A new order `k` in `t`: pending, for its customer, plan, course and key, on the terms of the plan and
-- the course, with installments that are as many as the plan has and that ask for the frozen total.
pub record Created (customer plan_id : ℕ) (key : String) (plan : PaymentPlan) (course : Course)
    (k : ℕ) (t : Db) : Type 0 where
  pub order : Order
  pub at_order : get k t.orders ≡ some order
  pub status : order.status ≡ OrderStatus.pending
  pub customer_kept : order.customer ≡ customer
  pub plan_kept : order.plan ≡ plan_id
  pub key_kept : order.idempotency_key ≡ key
  pub course_kept : order.course ≡ plan.course
  pub disposition : order.manual_disposition ≡ ManualDisposition.no_disposition
  pub never_suspended : order.suspended_for_nonpayment_at ≡ none
  pub terms : SameTerms plan course order.terms
  pub total : order.total_expected_amount ≡ plan.installment_amount * plan.installment_count
  pub count : rows (select (of_order k) t.installments) ≡ plan.installment_count
  pub asks : asked (select (of_order k) t.installments) ≡ order.total_expected_amount

created_lem :
    (customer plan_id : ℕ) (plan : PaymentPlan) (course : Course) (key : String) (d : ℕ) (s : Db)
    → exists (of_order (fresh s.orders)) s.installments ≡ false
    → Created customer plan_id key plan course
        (fresh s.orders)
        (inserted (new_order customer plan_id plan course key s.clock) d s)
created_lem customer plan_id plan course key d s free =
    let o : Order = new_order customer plan_id plan course key s.clock in
    record {
      order = o;
      at_order = ground (arith, get-add (fresh s.orders) o s.orders);
      status = refl;
      customer_kept = refl;
      plan_kept = refl;
      key_kept = refl;
      course_kept = refl;
      disposition = refl;
      never_suspended = refl;
      terms = record {
        plan_code = refl;
        plan_name = refl;
        course_cf_id = refl;
        course_name = refl;
        currency = refl;
        installment_count = refl;
        installment_amount = refl;
        installment_interval_days = refl;
        access_policy = refl;
      };
      total = refl;
      count = ground (
        arith,
        rows-schedule (fresh s.orders) o d 1 plan.installment_count s.installments,
        select-none (of_order (fresh s.orders)) s.installments free,
      );
      asks = ground (
        arith,
        asked-schedule (fresh s.orders) o d 1 plan.installment_count s.installments,
        select-none (of_order (fresh s.orders)) s.installments free,
      );
    }

-- A call of `create_order` that made a new order, in a state in which no installment refers to the
-- order's key yet, did so from an active plan of that state and from the course of that plan. The order
-- is pending, never suspended and without a disposition; it has the customer, the plan and the
-- idempotency key of the call and the course of the plan; its terms are those of the plan and of the
-- course, column by column, and its total is the plan's amount times its count; its installments are
-- as many as the plan has, and ask together for exactly that total.
pub create_order-Created :
    (env : Env) (customer plan_id : ℕ) (key : String) (d : Option ℕ) (s : Db) {k : ℕ} {t : Db}
    → exists (of_order (fresh s.orders)) s.installments ≡ false
    → create_order env customer plan_id key d s ≡ (ok (k, true), t)
    → (f : ForSale plan_id s) × Created customer plan_id key f.plan f.course k t
create_order-Created env customer plan_id key d s {k} {t} free h =
    elim (create_order-cases customer plan_id key s env d h) [
      | inl (f, at, created, state) ↦ (
        f,
        rw (at, state)
            (created_lem customer plan_id f.plan f.course key (get_or d (env.utc_date s.clock)) s
              free),
      )
      | inr (o, found, old, state, again) ↦ absurd cc
    ]
