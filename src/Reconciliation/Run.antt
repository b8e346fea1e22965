-- ===== src/Reconciliation/Run.antt =====
-- `run` and `_run_locked`, with the steps that they call.
pub mod Definitive
use valuecrm.Base.{
  ℕ, zero, suc, ◌+◌, ⊤, Bool, true, false, Option, none, some, ◌==◌, nat_eq, if◌then◌else◌,
}
use valuecrm.Table.{add, fresh, set}
use valuecrm.Model.{Db}
use valuecrm.Model.Jobs.{Counters, ReconciliationRun, RunStatus}
use valuecrm.Exec.{Exec, Error, Result, ok, err, pure, gets, attempt, write_runs, ◌>>=◌, ◌>>◌}
use valuecrm.ClickFunnels.{Provider}
use valuecrm.Tara.{Client, get_client}
use valuecrm.Webhook.{Services}
use valuecrm.Delivery.{Mailer}
use valuecrm.Collection.{Collector, Collected}
use valuecrm.Collection as Collection
use valuecrm.Expiry.{expire_stale_orders}
use valuecrm.Reconciliation.{Tally, verify_stale_attempts}
use valuecrm.Reconciliation.Repair.{
  Jobs, Repaired, Pages, pull_transaction_list, process_confirmations, process_provisioning,
  repair_missing_followups, error_of,
}

-- What the run calls.
pub record Worker : Type 0 where
  pub services : Services
  pub provider : Provider
  pub mailer : Mailer
  pub collector : Collector
  pub pages : Client → Pages
  -- `send_staff_alerts` of apps/operations/alerts.py
  pub send_staff_alerts : Exec ⊤
  -- the batch size of `expire_stale_orders`
  pub expiry_limit : ℕ

-- `_collect_installments`
abbrev pub collected_of : Result Collected → Collected
collected_of (ok r) = r
collected_of (err e) = record {
  marked_due = 0;
  marked_late = 0;
  reminders_sent = 0;
  accesses_suspended = 0;
  accesses_resumed = 0;
}

-- `_expire_stale_orders`
abbrev pub expired_of : Result ℕ → ℕ
expired_of (ok n) = n
expired_of (err e) = 0

-- The `try` of `_run_locked`: the steps in their order, with what each adds to the counters.
unfoldable pub steps : Worker → Exec Counters
unfolding verify_stale_attempts process_confirmations process_provisioning repair_missing_followups
steps w = do
  stale ← verify_stale_attempts w.services
  let tally = stale.1
  let list = pull_transaction_list (get_client w.services.config w.services.connect) w.pages
  confirmations ← process_confirmations w.mailer
  provisioned ← process_provisioning w.provider
  repaired ← repair_missing_followups w.services.env
  collected ← attempt (Collection.run w.collector)
  expired ← attempt (expire_stale_orders w.services.env w.expiry_limit)
  alerted ← attempt w.send_staff_alerts
  pure (record {
    attempts_examined = stale.0;
    status_checks = tally.status_checks;
    verified_successes = tally.verified_successes;
    verified_failures = tally.verified_failures;
    still_pending_or_unknown = tally.still_pending_or_unknown;
    confirmation_jobs_processed = confirmations.processed;
    confirmation_jobs_sent = confirmations.done;
    confirmation_jobs_failed = confirmations.failed;
    provisioning_jobs_processed = provisioned.processed;
    provisioning_jobs_completed = provisioned.done;
    provisioning_jobs_failed = provisioned.failed;
    missing_work_repaired = repaired.repaired;
    uncorrelated_transaction_list_records = list.0;
    orders_expired = expired_of expired;
    installment_reminders_sent = (collected_of collected).reminders_sent;
    accesses_suspended = (collected_of collected).accesses_suspended;
    accesses_resumed = (collected_of collected).accesses_resumed;
    safe_error_count =
        tally.safe_error_count
        + list.1
        + confirmations.errors
        + provisioned.errors
        + repaired.errors
        + error_of collected
        + error_of expired
        + error_of alerted;
  })

abbrev pub no_counters : Counters
no_counters = record {
  attempts_examined = 0;
  status_checks = 0;
  verified_successes = 0;
  verified_failures = 0;
  still_pending_or_unknown = 0;
  confirmation_jobs_processed = 0;
  confirmation_jobs_sent = 0;
  confirmation_jobs_failed = 0;
  provisioning_jobs_processed = 0;
  provisioning_jobs_completed = 0;
  provisioning_jobs_failed = 0;
  missing_work_repaired = 0;
  uncorrelated_transaction_list_records = 0;
  orders_expired = 0;
  installment_reminders_sent = 0;
  accesses_suspended = 0;
  accesses_resumed = 0;
  safe_error_count = 0;
}

-- The status that the steps' end gives the run. That they raise never happens (`Definitive`), so the
-- counters of that branch, which the code would have filled in part, are those of a run that began.
abbrev pub ended : ℕ → ℕ → Result Counters → ReconciliationRun
ended started now (ok counters) = record {
  started_at = started;
  completed_at = some now;
  run_status =
      if counters.safe_error_count == 0 then RunStatus.success else RunStatus.partial_failure;
  counters = counters;
}
ended started now (err e) = record {
  started_at = started;
  completed_at = some now;
  run_status = RunStatus.failed;
  counters = record no_counters { safe_error_count = 1 };
}

abbrev pub begun : ℕ → ReconciliationRun
begun now = record {
  started_at = now;
  completed_at = none;
  run_status = RunStatus.running;
  counters = no_counters;
}

-- `_run_locked`
unfoldable pub run_locked : Worker → Exec ReconciliationRun
unfolding steps
run_locked w = do
  started ← gets (λ s. s.clock)
  key ← gets (λ s. fresh s.runs)
  write_runs (λ s. add (begun started) s.runs)
  answer ← attempt (steps w)
  now ← gets (λ s. s.clock)
  write_runs (λ s. set key (ended started now answer) s.runs)
  pure (ended started now answer)

-- `ReconciliationRun.objects.create(…)` of a run that ends as it begins
unfoldable pub create_run : RunStatus → ℕ → Exec ReconciliationRun
create_run status errors = do
  now ← gets (λ s. s.clock)
  let row : ReconciliationRun = record {
    started_at = now;
    completed_at = some now;
    run_status = status;
    counters = record no_counters { safe_error_count = errors };
  }
  write_runs (λ s. add row s.runs)
  pure row

-- `except Exception` of `run`
unfoldable pub or_failed : Result ReconciliationRun → Exec ReconciliationRun
unfolding create_run
or_failed (ok row) = pure row
or_failed (err e) = create_run RunStatus.failed 1

-- `run`, by whether the advisory lock was free
unfoldable pub run : Worker → Bool → Exec ReconciliationRun
unfolding run_locked create_run or_failed
run w false = create_run RunStatus.skipped_overlapping 0
run w true = do answer ← attempt (run_locked w); or_failed answer
