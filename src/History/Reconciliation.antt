-- ===== src/History/Reconciliation.antt =====
-- The hourly run keeps the history of orders, installments and attempts.
use valuecrm.Base.{ℕ, refl, ⊤, Bool, true, false, List, [], ◌∷◌}
use valuecrm.Settings.{Env}
use valuecrm.Model.{Db, Order, PaymentAttempt}
use valuecrm.Model.Jobs.{ReconciliationRun, RunStatus}
use valuecrm.Exec.{Exec, Result, ok, err}
use valuecrm.Exec.Preserves.{Preserves, Preserves-bind, Preserves-attempt, Preserves-pure}
use valuecrm.Tara.{TaraStatus, Client}
use valuecrm.Verification.{Verification}
use valuecrm.Webhook.{Services}
use valuecrm.Delivery.{Mailer}
use valuecrm.ClickFunnels.{Provider}
use valuecrm.Transitions.{update_attempt}
use valuecrm.Reconciliation.{
  Tally, checked, leave, bumped, bump_check_count, follow_credit, after_apply, after_credit,
  after_failure, settle_check, after_verification, verify_one_attempt, verify_each, verify_with,
  verify_stale_attempts,
}
use valuecrm.Reconciliation.Repair.{
  process_confirmations, process_provisioning, repair_confirmation, repair_request, repair_each,
  repair_missing_followups,
}
use valuecrm.Reconciliation.Run.{Worker, steps, run_locked, create_run, or_failed, run}
use valuecrm.History.{History}
use valuecrm.Transitions.Paths.{here}
use valuecrm.History.Checkout.{update-History}
use valuecrm.History.Writes.{history_rules}
use valuecrm.History.Credit.{get_attempt-History, get_installment-History}
use valuecrm.History.Followups.{create_confirmation-History, create_request-History}
use valuecrm.History.Webhook.{plain_success-History, plain_failure-History, resolve-History}
use valuecrm.History.Expiry.{expire_stale-History}
use valuecrm.History.Delivery.{deliver_pending-History}
use valuecrm.History.Provisioning.{process_pending-History}
use valuecrm.History.Collection.{collect-History}

module _ {s₀ : Db} where
  bumped-History : (k now : ℕ) → Preserves (History s₀) (update_attempt k (bumped now))
  bumped-History k now = update-History k (bumped now) (λ a at. record {
    path = here;
    installment = refl;
    tara_product_id = refl;
    expected_amount = refl;
    currency = refl;
    payment_id = λ p h. h;
  })

  bump-History : (k : ℕ) → Preserves (History s₀) (bump_check_count k)
  unfolding bump_check_count
  bump-History k = search (history_rules, get_attempt-History, bumped-History) depth 16

  leave-History : (t : Tally) (k : ℕ) → Preserves (History s₀) (leave t k)
  unfolding leave
  leave-History t k = search (history_rules, bump-History) depth 12

  after_credit-History :
      (t : Tally) (k : ℕ) (r : Result ⊤) → Preserves (History s₀) (after_credit t k r)
  unfolding after_credit
  after_credit-History t k (ok u) = search history_rules
  after_credit-History t k (err e) = search (history_rules, leave-History) depth 12

  after_failure-History : (r : Result ⊤) → Preserves (History s₀) (after_failure r)
  unfolding after_failure
  after_failure-History (ok u) = search history_rules
  after_failure-History (err e) = search history_rules

  confirmation-History :
      (env : Env) (e : ℕ × PaymentAttempt) → Preserves (History s₀) (repair_confirmation env e)
  confirmation-History env (k, a) =
      search (history_rules, get_installment-History, create_confirmation-History) depth 12

  request-History : (e : ℕ × Order) → Preserves (History s₀) (repair_request e)
  request-History (k, o) = search (history_rules, create_request-History) depth 12

  repair_each-History :
      {A : Type 0} (f : A → Exec Bool) (xs : List A)
      → ((x : A) → Preserves (History s₀) (f x))
      → Preserves (History s₀) (repair_each f xs)
  unfolding repair_each
  repair_each-History f [] keeps = search history_rules
  repair_each-History f (x ∷ xs) keeps =
      Preserves-bind _ _ (Preserves-attempt (f x) (keeps x))
        (λ one. Preserves-bind _ _ (repair_each-History f xs keeps) (λ rest. Preserves-pure _))

  repair-History : (env : Env) → Preserves (History s₀) (repair_missing_followups env)
  unfolding repair_missing_followups
  repair-History env =
      search (history_rules, repair_each-History, confirmation-History, request-History) depth 16

  confirmations-History : (send : Mailer) → Preserves (History s₀) (process_confirmations send)
  unfolding process_confirmations
  confirmations-History send = search (history_rules, deliver_pending-History) depth 14

  provisioning-History :
      (provider : Provider) → Preserves (History s₀) (process_provisioning provider)
  unfolding process_provisioning
  provisioning-History provider = search (history_rules, process_pending-History) depth 14

module _ (sv : Services) (keeps : (s : Db) (k : ℕ) → Preserves (History s) (sv.lift_suspension k))
    {s₀ : Db} where
  follow-History : (k : ℕ) (a : PaymentAttempt) → Preserves (History s₀) (follow_credit sv k a)
  unfolding follow_credit
  follow-History k a = search (history_rules, resolve-History, get_installment-History) depth 14

  after_apply-History :
      (k : ℕ) (a : PaymentAttempt) (r : Result Bool) → Preserves (History s₀) (after_apply sv k a r)
  unfolding after_apply
  after_apply-History k a (ok newly) =
      search (history_rules, follow-History, after_credit-History) depth 12
  after_apply-History k a (err e) = after_credit-History checked k (err e)

  settle-History :
      (k : ℕ) (a : PaymentAttempt) (v : Verification) (status : TaraStatus)
      → Preserves (History s₀) (settle_check sv k a v status)
  unfolding settle_check
  settle-History k a v TaraStatus.success =
      search (history_rules, plain_success-History, after_apply-History) depth 12
  settle-History k a v TaraStatus.failure =
      search (history_rules, plain_failure-History, after_failure-History) depth 12
  settle-History k a v TaraStatus.pending = search (history_rules, leave-History) depth 12
  settle-History k a v TaraStatus.unknown = search (history_rules, leave-History) depth 12

  after_verification-History :
      (k : ℕ) (a : PaymentAttempt) (r : Result Verification)
      → Preserves (History s₀) (after_verification sv k a r)
  unfolding after_verification
  after_verification-History k a (ok v) =
      search (history_rules, leave-History, settle-History) depth 12
  after_verification-History k a (err e) = search (history_rules, leave-History) depth 12

  verify_one-History :
      (client : Client) (k : ℕ) → Preserves (History s₀) (verify_one_attempt sv client k)
  unfolding verify_one_attempt
  verify_one-History client k = search (history_rules, after_verification-History) depth 14

  verify_each-History :
      (client : Client) (ks : List ℕ) → Preserves (History s₀) (verify_each sv client ks)
  unfolding verify_each
  verify_each-History client [] = search history_rules
  verify_each-History client (k ∷ ks) =
      Preserves-bind _ _ (verify_one-History client k)
        (λ one. Preserves-bind _ _ (verify_each-History client ks) (λ rest. Preserves-pure _))

  verify_with-History :
      (ids : List ℕ) (r : Result Client) → Preserves (History s₀) (verify_with sv ids r)
  unfolding verify_with
  verify_with-History ids (ok client) = verify_each-History client ids
  verify_with-History ids (err e) = search history_rules

  stale-History : Preserves (History s₀) (verify_stale_attempts sv)
  unfolding verify_stale_attempts
  stale-History = search (history_rules, verify_with-History) depth 12

module _ (w : Worker)
    (keeps : (s : Db) (k : ℕ) → Preserves (History s) (w.services.lift_suspension k))
    (quiet : (s : Db) → Preserves (History s) w.send_staff_alerts) {s₀ : Db} where
  steps-History : Preserves (History s₀) (steps w)
  unfolding steps
  steps-History =
      search
        (
          history_rules, stale-History, confirmations-History, provisioning-History, repair-History,
          collect-History, expire_stale-History,
        )
        depth 24

  run_locked-History : Preserves (History s₀) (run_locked w)
  unfolding run_locked
  run_locked-History = search (history_rules, steps-History) depth 16

  create_run-History : (st : RunStatus) (n : ℕ) → Preserves (History s₀) (create_run st n)
  unfolding create_run
  create_run-History st n = search history_rules depth 12

  or_failed-History : (r : Result ReconciliationRun) → Preserves (History s₀) (or_failed r)
  unfolding or_failed
  or_failed-History (ok row) = search history_rules
  or_failed-History (err e) = create_run-History _ _

  -- If lifting a suspension and alerting the team keep the history, a whole run of the
  -- reconciliation does: with all that it verifies, credits, sends, enrolls, repairs, collects and
  -- expires, and whatever Tara, ClickFunnels and the mails answer, no row of orders, installments or
  -- attempts is lost, frozen columns stay, statuses move along their tables, and paid installments
  -- and recorded payment ids stay as they are.
  pub reconcile-History : (acquired : Bool) → Preserves (History s₀) (run w acquired)
  unfolding run
  reconcile-History false = create_run-History _ _
  reconcile-History true = search (history_rules, run_locked-History, or_failed-History) depth 12
