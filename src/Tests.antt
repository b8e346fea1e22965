-- ===== src/Tests.antt =====
-- Runs of the model on a small database, and the theorems applied there.
mod Data
mod Jobs
mod Guests
mod Whole
mod Staff
use valuecrm.Base.{
  subst, sym, ◌∙◌, beq_refl, ℕ, ⊤, Bool, ◌≡◌, ◌≢◌, List, take_text, refl, true, false, String,
  Option, none, some, [], ◌∷◌,
}
use valuecrm.Model.{Db, PaymentAttempt}
use valuecrm.Model.Status.{AttemptStatus, ConfirmationStatus}
use valuecrm.Settings.{Env}
use valuecrm.Table.{get, set, exists, add, fresh, select, update}
use valuecrm.Exec.{
  Exec, Result, ok, err, atomic, ◌>>=◌, when, maybe, catch, for_each, gets, modify, on_commit,
  or_raise, pure, raise, lift, write_confirmations, write_requests, write_events,
}
use valuecrm.Exec.Preserves.{Preserves, Preserves-pure}
use valuecrm.Transitions.{
  get_attempt, get_installment, get_order, update_attempt, save_attempt, attempt_transition,
  installment_transition, order_transition, save_installment, save_order,
}
use valuecrm.Followups.{
  create_confirmation, create_request_from_order, insert_request, is_access_eligible,
  refetch_request,
}
use valuecrm.Credit.{
  nothing_applied, apply_verified_failure, apply_verified_success, credit, link_payment_id, book,
  create_followups, reopen_for_late_success, update_order_status,
}
use valuecrm.Credit.Locked.{Locked}
use valuecrm.Credit.Once.{Credited, success-Credited, credited_once}
use valuecrm.Tara.{TaraStatus, normalized_status, get_client}
use valuecrm.Verification.{
  Verification, verify, verify_from, judge, check_by_product, candidate_payment_ids, verdict,
}
use valuecrm.Verification.Confirmed.{Confirmed, verify-Confirmed}
use valuecrm.Webhook.Process.{process_webhook, ask}
use valuecrm.Webhook.Trigger.{SameMoney, IsOpen, webhook-SameMoney}
use valuecrm.Orders.{
  create_order, insert_new, insert_order, create_installments, schedule, insert_all, existing_order,
  lost_race,
}
use valuecrm.Orders.Creation.{ForSale, Created, create_order-Created, create_order-again}
use valuecrm.Checkout.{recheck_unknown_attempt, transaction_status, result, succeeded}
use valuecrm.Checkout.Pay.{pay_outstanding_installment, start_checkout, pay_next_installment}
use valuecrm.Checkout.Books.{SameBooks, pay-SameBooks}
use valuecrm.Checkout.Recheck.{recheck_uncredited}
use valuecrm.Sequences.{Operation, after}
use valuecrm.Sequences.Kept.{credited_once_after}
use Jobs.{world, world_answering, actor}
use valuecrm.History.{History, History-refl}
use valuecrm.History.Credit.{success-History, failure-History}
use valuecrm.History.Webhook.{webhook-History}
use valuecrm.History.Orders.{create_order-History}
use valuecrm.History.Checkout.{start_checkout-History, pay_next-History}
use valuecrm.Delivery.{delivered, transient, process_one, process_pending}
use valuecrm.Delivery.Outcome.{step, saved, process_one-step}
use valuecrm.Delivery.Bounds.{Deliveries, process_pending-Deliveries}
use valuecrm.Expiry.{expire_one, expire_stale_orders}
use valuecrm.Expiry.Caution.{expire_one-cautious}
use valuecrm.History.Expiry.{expire_stale-History}
use valuecrm.Checkout.SafeLink.{create_link-safe}
use valuecrm.Checkout.{
  Shop, create_link_for_attempt, link_answer, persist_link_result_locked, select_safe_checkout_url,
  link_to, is_safe, no_links,
}
use valuecrm.Checkout.Pay.{answer_with}
use Data.{
  waiting, waiting_services, mail_db, confirmation, env, plan, course, order, installment, shop_db,
  services, shop, client, silent, attempt,
}

abbrev open_db : Db
open_db = shop_db AttemptStatus.pending

abbrev paid : Db
unfolding atomic ◌>>=◌ when maybe catch for_each gets modify on_commit or_raise pure raise lift
    write_confirmations write_requests write_events get_attempt get_installment get_order
    update_attempt save_attempt attempt_transition installment_transition order_transition
    save_installment save_order get set exists add fresh select update apply_verified_success credit
    link_payment_id book create_followups reopen_for_late_success update_order_status
    create_confirmation create_request_from_order insert_request is_access_eligible refetch_request
paid = (apply_verified_success env nothing_applied 1 (some "pay") (some 500) open_db).1

newly :
    apply_verified_success env nothing_applied 1 (some "pay") (some 500) open_db ≡ (ok true, paid)
unfolding atomic ◌>>=◌ when maybe catch for_each gets modify on_commit or_raise pure raise lift
    write_confirmations write_requests write_events get_attempt get_installment get_order
    update_attempt save_attempt attempt_transition installment_transition order_transition
    save_installment save_order get set exists add fresh select update apply_verified_success credit
    link_payment_id book create_followups reopen_for_late_success update_order_status
    create_confirmation create_request_from_order insert_request is_access_eligible refetch_request
newly = refl

credited_once_example :
    apply_verified_success env nothing_applied 1 none none paid ≡ (ok false, paid)
credited_once_example =
    credited_once env 1 (some "pay") none (some 500) none open_db paid paid newly
      (History-refl paid)

success-Credited_example : (l : Locked 1 open_db) × Credited 1 l.attempt.installment paid
success-Credited_example = success-Credited env 1 (some "pay") (some 500) open_db newly

success-History_example :
    Preserves
      (History open_db)
      (apply_verified_success env nothing_applied 1 (some "pay") (some 500))
success-History_example =
    success-History env nothing_applied 1 (some "pay") (some 500) (λ s j newly. Preserves-pure tt)

failure-History_example : Preserves (History open_db) (apply_verified_failure (λ k. pure tt) 1)
failure-History_example = failure-History (λ k. pure tt) 1 (λ j. Preserves-pure tt)

webhook-History_example :
    Preserves (History open_db) (process_webhook (services (client "SUCCESS")) "{}")
webhook-History_example =
    webhook-History (services (client "SUCCESS")) (λ s k. Preserves-pure tt) "{}"

verdict_inj : {u v : Verification} → ◌≡◌ {A = Result Verification} (ok u) (ok v) → u ≡ v
verdict_inj h = cc

IsOpen-pending : IsOpen (verdict TaraStatus.pending "PENDING" none none)
IsOpen-pending = record {
  no_success = λ (q : TaraStatus.pending ≡ TaraStatus.success). absurd cc;
  no_failure = λ (q : TaraStatus.pending ≡ TaraStatus.failure). absurd cc;
}

-- What Tara says of a product decides nothing.
product_waits :
    (a : PaymentAttempt) (v : Verification) → check_by_product env waiting a ≡ ok v → IsOpen v
unfolding check_by_product normalized_status take_text
product_waits a v h =
    subst IsOpen (verdict_inj (sym (rw (beq_refl a.tara_product_id, check_by_product) refl) ∙ h))
      IsOpen-pending

answer_waits :
    (a : PaymentAttempt) (ids : List String) (v : Verification)
    → verify env waiting a ids ≡ ok v
    → IsOpen v
unfolding verify verify_from
answer_waits a [] v h = product_waits a v h
answer_waits a (p ∷ ids) v h = absurd cc

waits :
    (a : PaymentAttempt) (p : Option String) (s : Db) (v : Verification)
    → ask waiting_services a p s ≡ ok v
    → IsOpen v
unfolding get_client
waits a p s v h = answer_waits a (candidate_payment_ids a p s) v h

webhook-SameMoney_example : SameMoney open_db (process_webhook waiting_services "{}" open_db).1
webhook-SameMoney_example = webhook-SameMoney waiting_services waits "{}" open_db

confirms :
    verify env (client "SUCCESS") (attempt AttemptStatus.pending) ("pay" ∷ [])
    ≡ ok (verdict TaraStatus.success "SUCCESS" (some "pay") (some 500))
unfolding verify verify_from judge check_by_product normalized_status take_text
confirms = refl

verify-Confirmed_example :
    Confirmed env
      (client "SUCCESS")
      (attempt AttemptStatus.pending)
      ("pay" ∷ [])
      (verdict TaraStatus.success "SUCCESS" (some "pay") (some 500))
verify-Confirmed_example =
    verify-Confirmed env (client "SUCCESS") (attempt AttemptStatus.pending) ("pay" ∷ [])
      (verdict TaraStatus.success "SUCCESS" (some "pay") (some 500)) confirms
      (record { normalized = refl; failure_category = refl })

abbrev ordered : Db
unfolding atomic ◌>>=◌ when maybe catch for_each gets modify on_commit or_raise pure raise lift
    write_confirmations write_requests write_events get set exists add fresh select update
    create_order insert_new insert_order create_installments schedule insert_all existing_order
    lost_race
ordered = (create_order env 1 1 "other" none open_db).1

orders_it : create_order env 1 1 "other" none open_db ≡ (ok (2, true), ordered)
unfolding atomic ◌>>=◌ when maybe catch for_each gets modify on_commit or_raise pure raise lift
    write_confirmations write_requests write_events get set exists add fresh select update
    create_order insert_new insert_order create_installments schedule insert_all existing_order
    lost_race
orders_it = refl

create_order-Created_example :
    (f : ForSale 1 open_db) × Created 1 1 "other" f.plan f.course 2 ordered
unfolding exists fresh
create_order-Created_example = create_order-Created env 1 1 "other" none open_db refl orders_it

create_order-again_example :
    create_order env 1 1 "other" (some 9) ordered ≡ (ok (2, false), ordered)
create_order-again_example = create_order-again env 1 1 "other" none (some 9) open_db orders_it

create_order-History_example : Preserves (History open_db) (create_order env 1 1 "other" none)
create_order-History_example = create_order-History env 1 1 "other" none

abbrev lost_db : Db
lost_db = shop_db AttemptStatus.unknown

abbrev lost : Locked 1 lost_db
unfolding get
lost = record {
  attempt = attempt AttemptStatus.unknown;
  installment = installment 1;
  order = order;
  at_attempt = refl;
  at_installment = refl;
  at_order = refl;
}

recheck_uncredited_example :
    (t : Db) × (recheck_unknown_attempt (shop "SUCCESS") 1 (attempt AttemptStatus.unknown) lost_db
      ≡ (ok (result succeeded), t))
    × (t.installments ≡ lost_db.installments)
    × ((u : Db) (p : Option String) (v : Option ℕ)
        → History t u
        → apply_verified_success env nothing_applied 1 p v u ≡ (ok false, u))
unfolding exists normalized_status lost get_client take_text
recheck_uncredited_example =
    recheck_uncredited (shop "SUCCESS") env 1 lost_db lost
      (record { status = "SUCCESS"; product_id = "prod" }) refl refl refl refl

pay-SameBooks_example : SameBooks open_db (pay_outstanding_installment (shop "SUCCESS") 1 open_db).1
pay-SameBooks_example = pay-SameBooks (shop "SUCCESS") 1 open_db

start_checkout-History_example :
    Preserves (History open_db) (start_checkout (shop "SUCCESS") 1 1 "other")
start_checkout-History_example = start_checkout-History (shop "SUCCESS") 1 1 "other"

pay_next-History_example : Preserves (History open_db) (pay_next_installment (shop "SUCCESS") 1)
pay_next-History_example = pay_next-History (shop "SUCCESS") 1

process_one-step_example :
    process_one (λ c. delivered) 1 mail_db
    ≡ (ok tt, saved 1 (step (λ c. delivered) 50 confirmation) mail_db)
unfolding get
process_one-step_example = process_one-step (λ c. delivered) 1 mail_db refl

-- The confirmation is sent at its first attempt.
sends : (step (λ c. delivered) 50 confirmation).status ≡ ConfirmationStatus.sent
sends = refl

process_pending-Deliveries_example :
    Deliveries mail_db (process_pending (λ c. transient) 100 mail_db).1
process_pending-Deliveries_example = process_pending-Deliveries (λ c. transient) 100 mail_db

expire_one-cautious_example : expire_one 1 open_db ≡ (ok false, open_db)
unfolding get exists
expire_one-cautious_example =
    expire_one-cautious 1 1 order (attempt AttemptStatus.pending) open_db refl refl refl refl

expire_stale-History_example : Preserves (History open_db) (expire_stale_orders env 200)
expire_stale-History_example = expire_stale-History env 200

abbrev new_db : Db
new_db = shop_db AttemptStatus.created

abbrev linked_db : Db
unfolding create_link_for_attempt link_answer persist_link_result_locked get_client
    select_safe_checkout_url atomic ◌>>=◌ gets or_raise pure raise modify get_attempt update_attempt
    save_attempt attempt_transition get set exists take_text
linked_db =
    (create_link_for_attempt (shop "SUCCESS") (installment 1) 1 (attempt AttemptStatus.created)
      new_db).1

links :
    create_link_for_attempt
      (shop "SUCCESS")
      (installment 1)
      1
      (attempt AttemptStatus.created)
      new_db
    ≡ (ok (link_to "https://taramoney.com/pay"), linked_db)
unfolding create_link_for_attempt link_answer persist_link_result_locked get_client
    select_safe_checkout_url atomic ◌>>=◌ gets or_raise pure raise modify get_attempt update_attempt
    save_attempt attempt_transition get set exists take_text
links = refl

create_link-safe_example : is_safe ((shop "SUCCESS").urlsplit "https://taramoney.com/pay") ≡ true
create_link-safe_example =
    create_link-safe (shop "SUCCESS") (installment 1) 1 (attempt AttemptStatus.created) new_db links
      refl

-- A stored link is answered with as it is, whatever `urlsplit` says of it.
abbrev unsafe_shop : Shop
unsafe_shop = record (shop "SUCCESS") {
  urlsplit = λ u. record {
    is_address = true;
    is_port = true;
    scheme = "http";
    has_userinfo = true;
    hostname = none;
    port = some 80;
  };
}

abbrev stored : PaymentAttempt
stored = record (attempt AttemptStatus.link_created) {
  links = record no_links { general_link = "http://elsewhere" };
}

stored_unsafe :
    (answer_with unsafe_shop (installment 1) (1, stored) new_db
      ≡ (ok (link_to "http://elsewhere"), new_db))
    × (is_safe (unsafe_shop.urlsplit "http://elsewhere") ≡ false)
unfolding answer_with pure
stored_unsafe = (refl, refl)

credited_once_after_example :
    let later = after (
      (world_answering "PENDING", Operation.webhook "again")
      ∷ (world, Operation.reconcile true)
      ∷ (world, Operation.staff_check 1 actor)
      ∷ []) in
    apply_verified_success env nothing_applied 1 none none (later paid) ≡ (ok false, later paid)
credited_once_after_example =
    credited_once_after env 1 (some "pay") none (some 500) none open_db paid
      ((world_answering "PENDING", Operation.webhook "again")
        ∷ (world, Operation.reconcile true)
        ∷ (world, Operation.staff_check 1 actor)
        ∷ [])
      newly
