-- ===== src/Provisioning.antt =====
-- `ProvisioningService` of apps/provisioning/services.py, below the creation of requests: claiming a
-- request, enrolling its contact with bounded retries, and what staff may do.
pub mod Retry
pub mod Once
pub mod Outcome
pub mod Execution
pub mod Staff
use valuecrm.Base.{
  ℕ, zero, suc, ◌+◌, ⊤, Bool, true, false, not, ◌&&◌, String, Option, none, some, List, [], ◌∷◌,
  ◌++◌, ◌==◌, nat_eq, string_eq, elem, ltb, leb, take, length, if◌then◌else◌, truthy,
}
use valuecrm.Table.{Table, get, set, add, select, exists}
use valuecrm.Model.{Db, Contact, Order}
use valuecrm.Model.Status.{RequestStatus, request_status_eq}
use valuecrm.Model.Enrollment.{
  ProvisioningRequest, ProvisioningAttempt, EnrollmentStatus, RequestFailure,
}
use valuecrm.Exec.{
  Exec, Error, Result, ok, err, does_not_exist, value_error, provisioning, click_funnels,
  auth_error, rate_limit_error, api_error, pure, raise, gets, lift, or_raise, atomic, attempt,
  sleep, for_each, write_requests, write_provisioning_attempts, ◌>>=◌, ◌>>◌, maybe,
}
use valuecrm.ClickFunnels.{Provider}
use valuecrm.Enrollments.{EnrollmentResultDto, is_success, enroll_contact}

-- `PROVISIONING_MAX_REQUEST_ATTEMPTS`, `PROVISIONING_MAX_INLINE_RETRIES`
abbrev pub max_request_attempts : ℕ
max_request_attempts = 5

abbrev pub max_inline_retries : ℕ
max_inline_retries = 2

-- `PROVISIONING_INLINE_RETRY_BACKOFF_SECONDS[attempts]`
abbrev pub backoff_seconds : ℕ → Option ℕ
backoff_seconds zero = some 1
backoff_seconds (suc zero) = some 3
backoff_seconds (suc (suc n)) = none

-- `_NON_RETRYABLE_CATEGORIES`
abbrev pub is_non_retryable : RequestFailure → Bool
is_non_retryable RequestFailure.missing_contact_identifier = true
is_non_retryable RequestFailure.missing_course_snapshot = true
is_non_retryable RequestFailure.configuration_error = true
is_non_retryable RequestFailure.authorization_error = true
is_non_retryable RequestFailure.malformed_request = true
is_non_retryable _ = false

-- `_CLAIMABLE_STATUSES`
abbrev pub is_claimable : RequestStatus → Bool
is_claimable st = elem st (RequestStatus.pending ∷ RequestStatus.failed ∷ [])

-- What `_enroll_with_retry` returns.
pub record Tried : Type 0 where
  pub status : EnrollmentStatus
  pub enrollment_attempt : Option ℕ
  pub error : String
  pub category : RequestFailure

abbrev pub failed_try : Option ℕ → String → RequestFailure → Tried
failed_try id error category = record {
  status = EnrollmentStatus.failure;
  enrollment_attempt = id;
  error = error;
  category = category;
}

-- What one call makes the loop do: return, or go on with `last_error`.
pub data Verdict : Type 0 where
  finished : Tried → Verdict
  retry : String → Verdict

-- `status_code and 500 <= status_code < 600`
abbrev pub is_server_status : Option ℕ → Bool
is_server_status none = false
is_server_status (some code) = leb 500 code && ltb code 600

-- The branches of the `try` in `_enroll_with_retry`.
unfoldable pub judge : Provider → Result EnrollmentResultDto → Verdict
judge provider (ok r) =
    if is_success r
    then finished (record {
      status = EnrollmentStatus.success;
      enrollment_attempt = r.enrollment_attempt_id;
      error = "";
      category = RequestFailure.no_failure;
    })
    else finished (
        failed_try r.enrollment_attempt_id
          (if r.error_message == "" then "Enrollment failed" else r.error_message)
          RequestFailure.transient_provider_error)
judge provider (err (click_funnels auth_error)) = finished (
    failed_try none (provider.str_error (click_funnels auth_error))
      RequestFailure.authorization_error)
judge provider (err (click_funnels rate_limit_error)) =
    retry (provider.str_error (click_funnels rate_limit_error))
judge provider (err (click_funnels (api_error code))) =
    if is_server_status code
    then retry (provider.str_error (click_funnels (api_error code)))
    else finished (
        failed_try none (provider.str_error (click_funnels (api_error code)))
          RequestFailure.malformed_request)
judge provider (err e) =
    finished (failed_try none (provider.str_error e) RequestFailure.configuration_error)

-- What follows a verdict, before the next round `again`.
unfoldable pub next_round : Verdict → ℕ → Exec (Option Tried) → Exec (Option Tried)
next_round (finished t) attempts again = pure (some t)
next_round (retry error) attempts again =
    if leb max_inline_retries attempts
    then pure (some (failed_try none error RequestFailure.transient_provider_error))
    else do pause ← or_raise (backoff_seconds attempts) value_error; sleep pause; again

-- The `while True` of `_enroll_with_retry`, on fuel; `none` when the fuel is spent.
unfoldable pub enroll_loop : Provider → Exec EnrollmentResultDto → ℕ → ℕ → Exec (Option Tried)
unfolding next_round
enroll_loop provider call zero attempts = pure none
enroll_loop provider call (suc fuel) attempts =
    let again = enroll_loop provider call fuel (suc attempts) in
    do answer ← attempt call; next_round (judge provider answer) attempts again

-- `_enroll_with_retry`
unfoldable pub enroll_with_retry : Provider → Exec EnrollmentResultDto → Exec (Option Tried)
unfolding enroll_loop
enroll_with_retry provider call = enroll_loop provider call (suc max_inline_retries) 0

-- The call that it repeats; `int(config.workspace_id)` stands inside the `try`.
unfoldable pub enrollment_call :
    Provider → String → String → String → String → Exec EnrollmentResultDto
unfolding enroll_contact
enrollment_call provider subdomain workspace_id email cf_course_id = do
  id ← or_raise (provider.int workspace_id) value_error
  enroll_contact provider subdomain id email cf_course_id

-- `request.save(update_fields=…)`: the columns that `f` sets, on the row as it stands
unfoldable pub update_request : ℕ → (ProvisioningRequest → ProvisioningRequest) → Exec ⊤
update_request k f = do
  r ← gets (λ s. get k s.requests)
  row ← or_raise r does_not_exist
  write_requests (λ s. set k (f row) s.requests)

abbrev pub reviewed : String → RequestFailure → ProvisioningRequest → ProvisioningRequest
reviewed error category r = record r {
  status = RequestStatus.manual_review;
  last_error = error;
  failure_category = category;
}

abbrev pub claimed : ProvisioningRequest → ProvisioningRequest
claimed r = record r { status = RequestStatus.in_progress; attempt_count = suc r.attempt_count }

abbrev pub exhausted : ProvisioningRequest → ProvisioningRequest
exhausted r =
    reviewed "Maximum provisioning attempts exceeded." RequestFailure.max_attempts_exceeded r

-- `_claim`
unfoldable pub claim : ℕ → Exec (Option ProvisioningRequest)
unfolding update_request
claim k = atomic do
  r ← gets (λ s. get k s.requests)
  maybe r (pure none) λ row.
      if not (is_claimable row.status)
      then pure none
      else if leb max_request_attempts row.attempt_count
      then write_requests (λ s. set k (exhausted row) s.requests) >> pure none
      else write_requests (λ s. set k (claimed row) s.requests) >> pure (some (claimed row))

-- `_finish_non_retryable`
abbrev pub finish_non_retryable : ℕ → String → RequestFailure → Exec ⊤
finish_non_retryable k error category = update_request k (reviewed error category)

-- `_build_enrollment_service`: the subdomain and the workspace id of the active configuration;
-- `ClickFunnelsClient.from_configuration` decrypts the access token, and what that raises is raised
abbrev pub enrollment_service : Provider → Result (Option (String × String))
enrollment_service provider = elim provider.config [
  | none ↦ ok none
  | some c ↦ elim (truthy c.workspace_id) [
    | none ↦ ok none
    | some id ↦ elim (truthy c.workspace_subdomain) [
      | none ↦ ok none
      | some subdomain ↦ elim (provider.decrypt_value c.api_access_token) [
        | err e ↦ err e
        | ok token ↦ ok (some (subdomain, id))
      ]
    ]
  ]
]

abbrev pub succeeded_for : ℕ → ℕ → ℕ → ProvisioningAttempt → Bool
succeeded_for k course j a =
    a.provisioning_request == k
    && elim a.status [ EnrollmentStatus.success ↦ true | EnrollmentStatus.failure ↦ false ]
    && a.course == course

-- The columns that the end of `execute` sets.
abbrev pub completed : ProvisioningRequest → ProvisioningRequest
completed r = record r {
  status = RequestStatus.completed;
  last_error = "";
  failure_category = RequestFailure.no_failure;
}

abbrev pub failed : String → ProvisioningRequest → ProvisioningRequest
failed error r = record r {
  status = RequestStatus.failed;
  last_error = error;
  failure_category = RequestFailure.transient_provider_error;
}

abbrev pub concluded : Tried → ProvisioningRequest → ProvisioningRequest
concluded t r = elim t.status [
  | EnrollmentStatus.success ↦ completed r
  | EnrollmentStatus.failure ↦
      if is_non_retryable t.category then reviewed t.error t.category r else failed t.error r
]

-- What `execute` does with the outcome of an enrollment.
unfoldable pub record_try : ℕ → ℕ → Option Tried → Exec ⊤
unfolding update_request
record_try k course tried = do
  t ← or_raise tried value_error
  write_provisioning_attempts (λ s.
      add
        (record {
          provisioning_request = k;
          course = course;
          enrollment_attempt = t.enrollment_attempt;
          status = t.status;
        })
        s.provisioning_attempts)
  update_request k (concluded t)

-- The enrollment of a course that has no success yet.
unfoldable pub enroll_new :
    Provider → ℕ → ProvisioningRequest → String × String → String → String → Exec ⊤
unfolding record_try enroll_with_retry enrollment_call
enroll_new provider k r (subdomain, workspace_id) email cf_course_id = do
  tried ←
      enroll_with_retry provider
        (enrollment_call provider subdomain workspace_id email cf_course_id)
  record_try k r.course tried

-- The loop over `courses`, which holds the one course of the request, and the end of `execute`.
unfoldable pub enroll_course :
    Provider → ℕ → ProvisioningRequest → String × String → String → String → Exec ⊤
unfolding update_request enroll_new
enroll_course provider k r bundle email cf_course_id = do
  done ← gets (λ s. exists (succeeded_for k r.course) s.provisioning_attempts)
  if done then update_request k completed else enroll_new provider k r bundle email cf_course_id

-- `execute` after the claim
unfoldable pub perform : Provider → ℕ → ProvisioningRequest → Exec ⊤
unfolding enroll_course update_request
perform provider k r = do
  c ← gets (λ s. get r.contact s.contacts)
  contact ← or_raise c does_not_exist
  if contact.email == ""
      then finish_non_retryable k "Contact has no email address on file."
          RequestFailure.missing_contact_identifier
      else do
        o ← gets (λ s. get r.order s.orders)
        order ← or_raise o does_not_exist
        if order.course_cf_id == ""
            then finish_non_retryable k "Order has no course_cf_id snapshot."
                RequestFailure.missing_course_snapshot
            else do
              service ← lift (enrollment_service provider)
              maybe service
                  (finish_non_retryable k
                    "No active ClickFunnels configuration/workspace available."
                    RequestFailure.configuration_error)
                  (λ bundle. enroll_course provider k r bundle contact.email order.course_cf_id)

abbrev pub refresh : ℕ → Exec ⊤
refresh k = do r ← gets (λ s. get k s.requests); row ← or_raise r does_not_exist; pure tt

-- `execute`
unfoldable pub execute : Provider → ℕ → Exec ⊤
unfolding claim perform
execute provider k = do c ← claim k; maybe c (refresh k) (λ r. perform provider k r)

-- The keys of the rows, the oldest first.
abbrev pub request_keys : Table ProvisioningRequest → List ℕ
request_keys [] = []
request_keys ((j, r) ∷ t) = request_keys t ++ j ∷ []

-- `process_pending`; it returns how many requests it took up
unfoldable pub process_pending : Provider → ℕ → Exec ℕ
unfolding execute
process_pending provider limit = do
  ids ← gets (λ s. take limit (request_keys (select (λ j r. is_claimable r.status) s.requests)))
  for_each ids (λ k. refresh k >> execute provider k)
  pure (length ids)
