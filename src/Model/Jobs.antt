-- ===== src/Model/Jobs.antt =====
-- `InstallmentReminder` and `ReconciliationRun` of apps/payments/models.py, the records of the
-- hourly run.
use valuecrm.Base.{ℕ, Option}

pub data ReminderKind : Type 0 where
  before_due due_day suspended : ReminderKind

pub data ReminderStatus : Type 0 where
  sent failed skipped_no_email : ReminderStatus

pub record InstallmentReminder : Type 0 where
  pub installment : ℕ
  pub kind : ReminderKind
  pub status : ReminderStatus
  pub attempts : ℕ
  pub sent_at : Option ℕ

pub data RunStatus : Type 0 where
  running success partial_failure failed skipped_overlapping : RunStatus

pub record Counters : Type 0 where
  pub attempts_examined : ℕ
  pub status_checks : ℕ
  pub verified_successes : ℕ
  pub verified_failures : ℕ
  pub still_pending_or_unknown : ℕ
  pub confirmation_jobs_processed : ℕ
  pub confirmation_jobs_sent : ℕ
  pub confirmation_jobs_failed : ℕ
  pub provisioning_jobs_processed : ℕ
  pub provisioning_jobs_completed : ℕ
  pub provisioning_jobs_failed : ℕ
  pub missing_work_repaired : ℕ
  pub uncorrelated_transaction_list_records : ℕ
  pub orders_expired : ℕ
  pub installment_reminders_sent : ℕ
  pub accesses_suspended : ℕ
  pub accesses_resumed : ℕ
  pub safe_error_count : ℕ

pub record ReconciliationRun : Type 0 where
  pub started_at : ℕ
  pub completed_at : Option ℕ
  pub run_status : RunStatus
  pub counters : Counters
