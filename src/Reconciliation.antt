-- ===== src/Reconciliation.antt =====
-- `ReconciliationService` of apps/payments/reconciliation_services.py: the hourly run. The advisory lock,
-- Tara's list of transactions and the alerts to the team are parameters.
pub mod Repair
pub mod Run
use valuecrm.Base.{
  ℕ, zero, suc, ◌+◌, ◌-◌, ◌*◌, ⊤, Bool, true, false, not, ◌&&◌, ◌||◌, String, Option, none, some,
  List, [], ◌∷◌, ◌++◌, ◌==◌, nat_eq, string_eq, elem, ltb, leb, min, take, length, if◌then◌else◌,
}
use valuecrm.Table.{Table, get, select, exists}
use valuecrm.Settings.{Env, minutes}
use valuecrm.Model.{Db, PaymentAttempt, TaraWebhookEvent, EventFailure}
use valuecrm.Model.Status.{AttemptStatus, attempt_status_eq}
use valuecrm.Model.Jobs.{Counters}
use valuecrm.Exec.{
  Exec, Error, Result, ok, err, does_not_exist, tara, TaraError, pure, raise, gets, lift, or_raise,
  atomic, attempt, ◌>>=◌, ◌>>◌, maybe, when,
}
use valuecrm.Tara.{TaraStatus, Client, get_client}
use valuecrm.Verification.{Verification, candidate_payment_ids, verify}
use valuecrm.Transitions.{get_attempt, get_installment, update_attempt, attempt_transition}
use valuecrm.Credit.{nothing_applied, apply_verified_success, apply_verified_failure}
use valuecrm.Webhook.{Services, is_processed, resolve_reported_events}
use valuecrm.Administration.{is_invalid_transition}
use valuecrm.Administration.Attempts.{is_failure, is_conflict, is_unapplied}

-- The constants of shared/constants.py.
abbrev pub stale_batch_size : ℕ
stale_batch_size = 50

abbrev pub stale_min_age_minutes : ℕ
stale_min_age_minutes = 30

abbrev pub max_checks : ℕ
max_checks = 10

-- `RECONCILIATION_STALE_ATTEMPT_BACKOFF_MINUTES[min(new_count - 1, len(…) - 1)]`
abbrev pub check_backoff_minutes : ℕ → ℕ
check_backoff_minutes new_count =
    let index : ℕ = min (new_count - 1) 4 in
    if index == 0
    then 15
    else if index == 1
    then 30
    else if index == 2
    then 60
    else if index == 3
    then 120
    else 240

-- `_REPORTED_RECHECK_STATUSES`
abbrev pub is_recheckable : AttemptStatus → Bool
is_recheckable st =
    elem st (AttemptStatus.link_created ∷ AttemptStatus.failed ∷ AttemptStatus.expired ∷ [])

abbrev pub is_in_doubt : AttemptStatus → Bool
is_in_doubt st = elem st (AttemptStatus.pending ∷ AttemptStatus.unknown ∷ [])

abbrev pub is_checkable : AttemptStatus → Bool
is_checkable st = is_in_doubt st || is_recheckable st

-- What one check adds to the counters.
pub record Tally : Type 0 where
  pub status_checks : ℕ
  pub verified_successes : ℕ
  pub verified_failures : ℕ
  pub still_pending_or_unknown : ℕ
  pub safe_error_count : ℕ

abbrev pub no_tally : Tally
no_tally = record {
  status_checks = 0;
  verified_successes = 0;
  verified_failures = 0;
  still_pending_or_unknown = 0;
  safe_error_count = 0;
}

abbrev pub checked : Tally
checked = record no_tally { status_checks = 1 }

abbrev pub undecided : Tally
undecided = record checked { still_pending_or_unknown = 1 }

abbrev pub add_tally : Tally → Tally → Tally
add_tally a b = record {
  status_checks = a.status_checks + b.status_checks;
  verified_successes = a.verified_successes + b.verified_successes;
  verified_failures = a.verified_failures + b.verified_failures;
  still_pending_or_unknown = a.still_pending_or_unknown + b.still_pending_or_unknown;
  safe_error_count = a.safe_error_count + b.safe_error_count;
}

-- The columns that one fruitless check sets.
abbrev pub bumped : ℕ → PaymentAttempt → PaymentAttempt
bumped now a = record a {
  reconciliation_check_count = suc a.reconciliation_check_count;
  next_reconciliation_check_at =
      some (now + minutes (check_backoff_minutes (suc a.reconciliation_check_count)));
}

-- `_bump_check_count`
unfoldable pub bump_check_count : ℕ → Exec ⊤
bump_check_count k = atomic do
  a ← get_attempt k
  if not (is_checkable a.status) then pure tt else do
    now ← gets (λ s. s.clock)
    update_attempt k (bumped now)
    when (leb max_checks (suc a.reconciliation_check_count) && a.status == AttemptStatus.pending)
        (attempt_transition k AttemptStatus.unknown "" "" >> pure tt)

-- `except Exception` of the loop over the candidates: the counters stay as they stood when it was raised.
abbrev pub failed_check : Tally → Tally
failed_check t = record t { safe_error_count = 1 }

abbrev pub left : Tally → Result ⊤ → Tally
left t (ok u) = record t { still_pending_or_unknown = 1 }
left t (err e) = failed_check t

-- A check that decides nothing, at counters `t`.
unfoldable pub leave : Tally → ℕ → Exec Tally
unfolding bump_check_count
leave t k = do answer ← attempt (bump_check_count k); pure (left t answer)

-- `_RETRYABLE_STATUS_CHECK_ERRORS`
abbrev pub is_retryable : Error → Bool
is_retryable (tara TaraError.timeout) = true
is_retryable (tara TaraError.connection) = true
is_retryable (tara TaraError.server) = true
is_retryable (tara TaraError.client) = true
is_retryable (tara TaraError.malformed) = true
is_retryable _ = false

-- What the `try` around `apply_verified_success` does once that has returned and is counted.
unfoldable pub follow_credit : Services → ℕ → PaymentAttempt → Exec ⊤
follow_credit sv k a = do
  resolve_reported_events sv.env k
  i ← get_installment a.installment
  sv.lift_suspension i.order

-- The handlers of that `try`, at counters `t`; an exception that none of them names goes to the loop.
unfoldable pub after_credit : Tally → ℕ → Result ⊤ → Exec Tally
unfolding leave
after_credit t k (ok u) = pure t
after_credit t k (err e) =
    if is_conflict e || is_unapplied e then leave t k else pure (failed_check t)

unfoldable pub after_apply : Services → ℕ → PaymentAttempt → Result Bool → Exec Tally
unfolding follow_credit after_credit
after_apply sv k a (ok newly) = do
  followed ← attempt (follow_credit sv k a)
  after_credit (record checked { verified_successes = 1 }) k followed
after_apply sv k a (err e) = after_credit checked k (err e)

unfoldable pub after_failure : Result ⊤ → Exec Tally
after_failure (ok u) = pure (record checked { verified_failures = 1 })
after_failure (err e) = pure (if is_invalid_transition e then undecided else failed_check checked)

-- What Tara's status leads to.
unfoldable pub settle_check : Services → ℕ → PaymentAttempt → Verification → TaraStatus → Exec Tally
unfolding after_apply after_failure leave
settle_check sv k a v TaraStatus.success = do
  applied ← attempt (apply_verified_success sv.env nothing_applied k v.payment_id v.amount)
  after_apply sv k a applied
settle_check sv k a v TaraStatus.failure = do
  applied ← attempt (apply_verified_failure (λ j. pure tt) k)
  after_failure applied
settle_check sv k a v TaraStatus.pending = leave checked k
settle_check sv k a v TaraStatus.unknown = leave checked k

-- What the verification's answer leads to.
unfoldable pub after_verification : Services → ℕ → PaymentAttempt → Result Verification → Exec Tally
unfolding settle_check leave
after_verification sv k a (err e) =
    if is_retryable e then leave checked k else pure (failed_check checked)
after_verification sv k a (ok v) =
    if is_failure v.failure_category then leave checked k else settle_check sv k a v v.normalized

-- `_verify_one_attempt`, with the `except Exception` of the loop that calls it
unfoldable pub verify_one_attempt : Services → Client → ℕ → Exec Tally
unfolding after_verification
verify_one_attempt sv client k = do
  found ← gets (λ s. get k s.attempts)
  maybe found (pure no_tally) λ a. if not (is_checkable a.status) then pure no_tally else do
    answer ← gets (λ s. verify sv.env client a (candidate_payment_ids a none s))
    after_verification sv k a answer

-- The loop of `_verify_stale_attempts`.
unfoldable pub verify_each : Services → Client → List ℕ → Exec Tally
unfolding verify_one_attempt
verify_each sv client [] = pure no_tally
verify_each sv client (k ∷ ks) = do
  one ← verify_one_attempt sv client k
  rest ← verify_each sv client ks
  pure (add_tally one rest)

-- An event that reports a success which is not confirmed.
abbrev pub reports : Env → ℕ → String → ℕ → TaraWebhookEvent → Bool
reports env cutoff product_id j e =
    e.tara_product_id == product_id
    && env.iexact e.raw_provider_status "SUCCESS"
    && leb e.received_at cutoff
    && not (is_processed e.processing_status)

abbrev pub is_due_check : ℕ → Option ℕ → Bool
is_due_check now none = true
is_due_check now (some t) = leb t now

-- The filters that select the candidates.
abbrev pub is_candidate : Env → Db → ℕ → PaymentAttempt → Bool
is_candidate env s k a =
    let cutoff = s.clock - minutes stale_min_age_minutes in
    (is_in_doubt a.status && leb a.updated_at cutoff
      || is_recheckable a.status && exists (reports env cutoff a.tara_product_id) s.events)
    && is_due_check s.clock a.next_reconciliation_check_at
    && ltb a.reconciliation_check_count max_checks

-- `.order_by("updated_at")`
abbrev pub insert_by_update : ℕ × PaymentAttempt → Table PaymentAttempt → Table PaymentAttempt
insert_by_update (j, a) [] = (j, a) ∷ []
insert_by_update (j, a) ((m, b) ∷ t) =
    let rest = insert_by_update (j, a) t in
    if leb a.updated_at b.updated_at then (j, a) ∷ (m, b) ∷ t else (m, b) ∷ rest

abbrev pub by_update : Table PaymentAttempt → Table PaymentAttempt
by_update [] = []
by_update (e ∷ t) = insert_by_update e (by_update t)

abbrev pub keys {ℓ} : {R : Type ℓ} → Table R → List ℕ
keys [] = []
keys ((j, r) ∷ t) = j ∷ keys t

abbrev pub candidates : Env → Db → List ℕ
candidates env s = take stale_batch_size (keys (by_update (select (is_candidate env s) s.attempts)))

-- The checks of the candidates, where there is a client.
unfoldable pub verify_with : Services → List ℕ → Result Client → Exec Tally
unfolding verify_each
verify_with sv ids (err e) = pure (record no_tally { safe_error_count = 1 })
verify_with sv ids (ok client) = verify_each sv client ids

-- `_verify_stale_attempts`: how many attempts it examined, and what came of them
unfoldable pub verify_stale_attempts : Services → Exec (ℕ × Tally)
unfolding verify_with
verify_stale_attempts sv = do
  ids ← gets (candidates sv.env)
  if length ids == 0
      then pure (0, no_tally)
      else do tally ← verify_with sv ids (get_client sv.config sv.connect); pure (length ids, tally)
