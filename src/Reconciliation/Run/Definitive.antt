-- ===== src/Reconciliation/Run/Definitive.antt =====
-- A run of the reconciliation always ends, and says how.
use valuecrm.Base.{
  ℕ, ◌≡◌, refl, ◌≢◌, ◌⊎◌, inl, inr, ap, arith, ⊤, Bool, true, false, List, [], ◌∷◌, ◌==◌, nat_eq,
  Bool-cases, is_some,
}
use valuecrm.Table.{add, fresh, set}
use valuecrm.Model.{Db, PaymentAttempt}
use valuecrm.Model.Jobs.{Counters, ReconciliationRun, RunStatus}
use valuecrm.Exec.{Exec, Result, ok, err, attempt, write_runs, pure, ◌>>=◌}
use valuecrm.Exec.Total.{Total, Total-pure, Total-bind, Total-attempt, total_rules}
use valuecrm.Tara.{Client, TaraStatus}
use valuecrm.Verification.{Verification}
use valuecrm.Settings.{Env}
use valuecrm.Webhook.{Services}
use valuecrm.Delivery.{Mailer}
use valuecrm.ClickFunnels.{Provider}
use valuecrm.Reconciliation.{
  Tally, checked, leave, after_credit, after_apply, after_failure, settle_check, after_verification,
  verify_each, verify_with, verify_one_attempt, verify_stale_attempts,
}
use valuecrm.Reconciliation.Repair.{
  process_confirmations, process_provisioning, repair_each, repair_missing_followups,
}
use valuecrm.Reconciliation.Run.{
  Worker, steps, ended, begun, run_locked, create_run, or_failed, run,
}

Total-leave : (t : Tally) (k : ℕ) → Total (leave t k)
unfolding leave
Total-leave t k = search total_rules depth 12

Total-after_credit : (t : Tally) (k : ℕ) (r : Result ⊤) → Total (after_credit t k r)
unfolding after_credit
Total-after_credit t k (ok u) = Total-pure _
Total-after_credit t k (err e) = search (total_rules, Total-leave) depth 12

Total-after_apply :
    (sv : Services) (k : ℕ) (a : PaymentAttempt) (r : Result Bool) → Total (after_apply sv k a r)
unfolding after_apply
Total-after_apply sv k a (ok newly) = search (total_rules, Total-after_credit) depth 12
Total-after_apply sv k a (err e) = Total-after_credit checked k (err e)

Total-after_failure : (r : Result ⊤) → Total (after_failure r)
unfolding after_failure
Total-after_failure (ok u) = Total-pure _
Total-after_failure (err e) = Total-pure _

Total-settle :
    (sv : Services) (k : ℕ) (a : PaymentAttempt) (v : Verification) (status : TaraStatus)
    → Total (settle_check sv k a v status)
unfolding settle_check
Total-settle sv k a v TaraStatus.success = search (total_rules, Total-after_apply) depth 12
Total-settle sv k a v TaraStatus.failure = search (total_rules, Total-after_failure) depth 12
Total-settle sv k a v TaraStatus.pending = Total-leave checked k
Total-settle sv k a v TaraStatus.unknown = Total-leave checked k

Total-after_verification :
    (sv : Services) (k : ℕ) (a : PaymentAttempt) (r : Result Verification)
    → Total (after_verification sv k a r)
unfolding after_verification
Total-after_verification sv k a (ok v) = search (total_rules, Total-leave, Total-settle) depth 12
Total-after_verification sv k a (err e) = search (total_rules, Total-leave) depth 12

Total-verify_one :
    (sv : Services) (client : Client) (k : ℕ) → Total (verify_one_attempt sv client k)
unfolding verify_one_attempt
Total-verify_one sv client k = search (total_rules, Total-after_verification) depth 14

Total-verify_each :
    (sv : Services) (client : Client) (ks : List ℕ) → Total (verify_each sv client ks)
unfolding verify_each
Total-verify_each sv client [] = Total-pure _
Total-verify_each sv client (k ∷ ks) =
    Total-bind _ _ (Total-verify_one sv client k)
      (λ one. Total-bind _ _ (Total-verify_each sv client ks) (λ rest. Total-pure _))

Total-repair_each : {A : Type 0} (f : A → Exec Bool) (xs : List A) → Total (repair_each f xs)
unfolding repair_each
Total-repair_each f [] = Total-pure _
Total-repair_each f (x ∷ xs) =
    Total-bind _ _ (Total-attempt (f x))
      (λ one. Total-bind _ _ (Total-repair_each f xs) (λ rest. Total-pure _))

Total-confirmations : (send : Mailer) → Total (process_confirmations send)
unfolding process_confirmations
Total-confirmations send = search total_rules depth 14

Total-provisioning : (provider : Provider) → Total (process_provisioning provider)
unfolding process_provisioning
Total-provisioning provider = search total_rules depth 14

Total-repair : (env : Env) → Total (repair_missing_followups env)
unfolding repair_missing_followups
Total-repair env = search (total_rules, Total-repair_each) depth 14

Total-verify_with :
    (sv : Services) (ids : List ℕ) (r : Result Client) → Total (verify_with sv ids r)
unfolding verify_with
Total-verify_with sv ids (err e) = Total-pure _
Total-verify_with sv ids (ok client) = Total-verify_each sv client ids

Total-stale : (sv : Services) → Total (verify_stale_attempts sv)
unfolding verify_stale_attempts
Total-stale sv = search (total_rules, Total-verify_with) depth 12

-- No step of a run raises.
Total-steps : (w : Worker) → Total (steps w)
unfolding steps
Total-steps w =
    search (total_rules, Total-stale, Total-confirmations, Total-provisioning, Total-repair) depth
      20

-- What the record of a run says: skipped if the lock was taken; otherwise a success with no error, or
-- a partial failure with some.
abbrev pub Outcome : Bool → ReconciliationRun → Type 0
Outcome false row = row.run_status ≡ RunStatus.skipped_overlapping
Outcome true row =
    (row.run_status ≡ RunStatus.success) × (row.counters.safe_error_count ≡ 0)
    ⊎ (row.run_status ≡ RunStatus.partial_failure) × (row.counters.safe_error_count ≢ 0)

-- The last write of a call of `run` from `s`: the row stands as a new run if the lock was taken, and
-- otherwise replaces the row that the run had begun with, after all of its steps.
abbrev pub Saved : Worker → Bool → Db → ReconciliationRun → Db → Type 0
Saved w false s row t = t ≡ record s { runs = add row s.runs }
Saved w true s row t =
    let u : Db = (steps w (record s { runs = add (begun s.clock) s.runs })).1 in
    t ≡ record u { runs = set (fresh s.runs) row u.runs }

-- How a call of `run` ended: it returned the row of a run that is completed, and saved it.
pub record Ended (w : Worker) (acquired : Bool) (s : Db) (p : Result ReconciliationRun × Db)
    : Type 0 where
  pub row : ReconciliationRun
  pub returned : p.0 ≡ ok row
  pub completed : is_some row.completed_at ≡ true
  pub outcome : Outcome acquired row
  pub saved : Saved w acquired s row p.1

outcome_lem :
    (started now : ℕ) (counters : Counters) → Outcome true (ended started now (ok counters))
outcome_lem started now counters = elim (Bool-cases (counters.safe_error_count == 0)) [
  | inl none_failed ↦ rw none_failed (inl (refl, ground arith))
  | inr some_failed ↦ rw some_failed (inr (refl, ground arith))
]

-- A run of the reconciliation never raises and never fails as a whole, whatever Tara, ClickFunnels and
-- the mails answer or raise: it returns a completed run. If the lock was taken, that run says skipped,
-- and adding it as a row is all that the call writes; otherwise it says success, and then it counts no
-- error, or partial failure, and then it counts at least one, and the last thing that the call writes,
-- after all of its steps, is that row at the key under which the run had begun.
pub run-Ended : (w : Worker) (acquired : Bool) (s : Db) → Ended w acquired s (run w acquired s)
unfolding run run_locked create_run or_failed attempt write_runs pure ◌>>=◌
run-Ended w false s = record {
  row = _;
  returned = refl;
  completed = refl;
  outcome = refl;
  saved = refl;
}
run-Ended w true s =
    let s' : Db = record s { runs = add (begun s.clock) s.runs } in
    let (counters, e) = (Total-steps w).at s' in
    let u : Db = (steps w s').1 in
    record {
      row = ended s.clock u.clock (ok counters);
      returned = ap (λ (r : Result Counters). ok (ended s.clock u.clock r)) e;
      completed = refl;
      outcome = outcome_lem s.clock u.clock counters;
      saved =
          ap
            (λ (r : Result Counters). record u {
              runs = set (fresh s.runs) (ended s.clock u.clock r) u.runs;
            })
            e;
    }
