-- ===== src/Provisioning/Staff.antt =====
-- What staff may do to a provisioning request: `approve`, `cancel` and `retry_request` of
-- apps/provisioning/services.py.
use Prim.Native.String.{◌++◌ as append}
use valuecrm.Base.{
  ℕ, ◌≡◌, ⊤, Bool, true, false, not, String, Option, some, [], ◌∷◌, ◌==◌, arith, elem,
  if◌then◌else◌,
}
use valuecrm.Table.{get, set, add}
use valuecrm.Settings.{Env}
use valuecrm.Model.{Db, Order}
use valuecrm.Model.Status.{RequestStatus, request_status_eq}
use valuecrm.Model.Enrollment.{ProvisioningRequest, RequestFailure}
use valuecrm.Model.Audit.{AdminAuditLog, ActionType, TargetType, OutcomeCategory}
use valuecrm.Exec.{
  Exec, ok, err, provisioning, does_not_exist, pure, raise, gets, or_raise, atomic, write_requests,
  write_audits, ◌>>=◌, ◌>>◌,
}
use valuecrm.Audit.{Actor, entry, record_audit}
use valuecrm.Followups.{is_access_eligible}
use valuecrm.Provisioning.{update_request}

-- `approve`, on the request as the caller read it
unfoldable pub approve : ℕ → ProvisioningRequest → Option ℕ → Exec ⊤
unfolding update_request
approve k r user =
    if not (r.status == RequestStatus.awaiting_approval) then raise provisioning else do
      now ← gets (λ s. s.clock)
      update_request k (λ q. record q {
        approved_by = user;
        approved_at = some now;
        status = RequestStatus.pending;
      })

-- `cancel`
unfoldable pub cancel : ℕ → Exec ⊤
unfolding update_request
cancel k = update_request k (λ q. record q { status = RequestStatus.cancelled })

abbrev pub status_text : RequestStatus → String
status_text RequestStatus.pending = "PENDING"
status_text RequestStatus.awaiting_approval = "AWAITING_APPROVAL"
status_text RequestStatus.in_progress = "IN_PROGRESS"
status_text RequestStatus.completed = "COMPLETED"
status_text RequestStatus.failed = "FAILED"
status_text RequestStatus.manual_review = "MANUAL_REVIEW"
status_text RequestStatus.cancelled = "CANCELLED"

-- `req.failure_category or 'n/a'`
abbrev pub category_text : RequestFailure → String
category_text RequestFailure.no_failure = "n/a"
category_text RequestFailure.transient_provider_error = "TRANSIENT_PROVIDER_ERROR"
category_text RequestFailure.missing_contact_identifier = "MISSING_CONTACT_IDENTIFIER"
category_text RequestFailure.missing_course_snapshot = "MISSING_COURSE_SNAPSHOT"
category_text RequestFailure.configuration_error = "CONFIGURATION_ERROR"
category_text RequestFailure.authorization_error = "AUTHORIZATION_ERROR"
category_text RequestFailure.malformed_request = "MALFORMED_REQUEST"
category_text RequestFailure.max_attempts_exceeded = "MAX_ATTEMPTS_EXCEEDED"

abbrev pub state_label : Env → ProvisioningRequest → String
state_label env r = append (status_text r.status) (
    append " (attempts=" (
      append (env.str r.attempt_count)
        (append ", category=" (append (category_text r.failure_category) ")"))))

abbrev pub retry_entry :
    Env → ℕ → ProvisioningRequest → Actor → RequestStatus → OutcomeCategory → AdminAuditLog
retry_entry env k r actor after outcome =
    entry actor ActionType.retry_provisioning TargetType.provisioning_request k (state_label env r)
      (status_text after) outcome

abbrev pub can_be_retried : RequestStatus → Bool
can_be_retried st = elem st (RequestStatus.failed ∷ RequestStatus.manual_review ∷ [])

-- `attempt_count` and `status` of a request that staff put back.
abbrev pub reset : ProvisioningRequest → ProvisioningRequest
reset r = record r { status = RequestStatus.pending; attempt_count = 0 }

-- The transaction of `retry_request`: whether it put the request back.
unfoldable pub retry_locked : Env → ℕ → Actor → Exec Bool
unfolding record_audit
retry_locked env k actor = atomic do
  r ← gets (λ s. get k s.requests)
  req ← or_raise r does_not_exist
  let reject =
      record_audit (retry_entry env k req actor req.status OutcomeCategory.rejected_invalid_state)
      >> pure false
  if req.status == RequestStatus.completed
      then reject
      else if not (can_be_retried req.status)
      then reject
      else do
        o ← gets (λ s. get req.order s.orders)
        order ← or_raise o does_not_exist
        eligible ← gets (is_access_eligible req.order order)
        if not eligible then reject else do
          write_requests (λ s. set k (reset req) s.requests)
          record_audit (retry_entry env k req actor RequestStatus.pending OutcomeCategory.success)
          pure true

-- `retry_request`, which raises only after its transaction has committed
unfoldable pub retry_request : Env → ℕ → Actor → Exec ⊤
unfolding retry_locked
retry_request env k actor = do
  done ← retry_locked env k actor
  if done then pure tt else raise provisioning

-- Whether a request may be put back.
abbrev pub retry_allowed : ℕ → ProvisioningRequest → Order → Db → Bool
retry_allowed k r o s = if can_be_retried r.status then is_access_eligible r.order o s else false

-- For a request of an order that exists, `retry_request` either puts it back, with no attempts
-- counted, or raises and leaves it, by one test: its status is failed or manual review and its order
-- is eligible for access. In both cases it writes exactly one audit row, with the state before and
-- the outcome, and a rejection keeps that row; nothing else changes.
pub retry_request-audited :
    (env : Env) (k : ℕ) (actor : Actor) (s : Db) {r : ProvisioningRequest} {o : Order}
    → get k s.requests ≡ some r
    → get r.order s.orders ≡ some o
    → retry_request env k actor s ≡ (
        if retry_allowed k r o s
        then (
          ok tt,
          record s {
            requests = set k (reset r) s.requests;
            audits =
                add
                  (retry_entry env k r actor RequestStatus.pending OutcomeCategory.success)
                  s.audits;
          },
        )
        else (
          err provisioning,
          record s {
            audits =
                add
                  (retry_entry env k r actor r.status OutcomeCategory.rejected_invalid_state)
                  s.audits;
          },
        ))
unfolding retry_request retry_locked record_audit atomic ◌>>=◌ write_requests write_audits
retry_request-audited env k actor s {r} {o} h q = ground (arith, h, q)
