-- ===== src/Enrollments.antt =====
-- `EnrollmentService` of apps/enrollments/services.py.
pub mod Answered
use Prim.Native.String.{◌++◌ as append}
use valuecrm.Base.{
  ℕ, suc, ◌+◌, ⊤, Bool, true, false, String, Option, none, some, List, [], ◌∷◌, ◌==◌, string_eq,
  map, length, ltb, if◌then◌else◌,
}
use valuecrm.Table.{add, fresh, select, first}
use valuecrm.Model.{Db, Contact, Course}
use valuecrm.Model.Enrollment.{EnrollmentAttempt, EnrollmentStatus}
use valuecrm.Exec.{
  Exec, Error, Result, ok, err, value_error, integrity, click_funnels, auth_error, rate_limit_error,
  api_error, pure, raise, gets, lift, or_raise, attempt, write_enrollments, ◌>>=◌, ◌>>◌, maybe,
}
use valuecrm.ClickFunnels.{ClickFunnelsClient, Provider}
use valuecrm.Contacts.{get_by_email, get_or_create_remote_contact}

-- `EnrollmentResultDto`
pub record EnrollmentResultDto : Type 0 where
  pub contact_email : String
  pub course_id : String
  pub status : EnrollmentStatus
  pub enrollment_attempt_id : Option ℕ
  pub cf_enrollment_id : Option String
  pub error_message : String

abbrev pub failure : String → String → Option ℕ → String → EnrollmentResultDto
failure email cf_course_id attempt_id message = record {
  contact_email = email;
  course_id = cf_course_id;
  status = EnrollmentStatus.failure;
  enrollment_attempt_id = attempt_id;
  cf_enrollment_id = none;
  error_message = message;
}

abbrev pub new_enrollment : ℕ → ℕ → EnrollmentStatus → Option String → String → EnrollmentAttempt
new_enrollment contact course status cf_enrollment_id error_log = record {
  contact = contact;
  course = course;
  status = status;
  cf_enrollment_id = cf_enrollment_id;
  error_log = error_log;
  cf_suspended = false;
  cf_suspended_at = none;
  cf_suspension_reason = "";
}

-- `EnrollmentAttempt.objects.create(…)`
unfoldable pub insert_enrollment : EnrollmentAttempt → Exec ℕ
insert_enrollment row = do
  key ← gets (λ s. fresh s.enrollments)
  write_enrollments (λ s. add row s.enrollments)
  pure key

-- Whether `e.response_body` is there and null: an error of ClickFunnels has a body only where an HTTP
-- status other than 401 and 429 came with it.
abbrev pub lacks_body : Error → Bool
lacks_body (click_funnels auth_error) = true
lacks_body (click_funnels rate_limit_error) = true
lacks_body (click_funnels (api_error none)) = true
lacks_body _ = false

module _ (provider : Provider) (subdomain : String) (workspace_id : ℕ) where
  -- The call of ClickFunnels for a contact that is known there.
  unfoldable pub enroll_remotely : Contact → String → Exec String
  enroll_remotely contact cf_course_id = do
    cf_contact_id ← or_raise contact.cf_contact_id value_error
    contact_id ← or_raise (provider.int cf_contact_id) value_error
    course_id ← or_raise (provider.int cf_course_id) value_error
    answer ← gets (λ s. provider.client.enroll_contact_in_course s subdomain contact_id course_id)
    lift answer

  -- `except Exception as e` of `enroll_contact`, with the contact where it was found. The row takes
  -- the `response_body` of the exception, and its column takes no null.
  unfoldable pub record_failure : Option ℕ → ℕ → String → String → Error → Exec EnrollmentResultDto
  unfolding insert_enrollment
  record_failure contact course email cf_course_id e =
      maybe contact (pure (failure email cf_course_id none (provider.str_error e))) λ key.
        if lacks_body e then raise integrity else do
          attempt_id ←
              insert_enrollment
                (new_enrollment key course EnrollmentStatus.failure none (provider.str_error e))
          pure (failure email cf_course_id (some attempt_id) (provider.str_error e))

  unfoldable pub record_answer : ℕ → ℕ → String → String → Result String → Exec EnrollmentResultDto
  unfolding insert_enrollment record_failure
  record_answer contact course email cf_course_id (ok id) = do
    attempt_id ←
        insert_enrollment (new_enrollment contact course EnrollmentStatus.success (some id) "")
    pure (record {
      contact_email = email;
      course_id = cf_course_id;
      status = EnrollmentStatus.success;
      enrollment_attempt_id = some attempt_id;
      cf_enrollment_id = some id;
      error_message = "";
    })
  record_answer contact course email cf_course_id (err e) =
      record_failure (some contact) course email cf_course_id e

  abbrev pub key_of : Option (ℕ × Contact) → Option ℕ
  key_of none = none
  key_of (some (k, c)) = some k

  unfoldable pub enroll_found :
      ℕ → String → String → Result (ℕ × Contact) → Exec EnrollmentResultDto
  unfolding enroll_remotely record_failure record_answer
  enroll_found course email cf_course_id (ok (contact, row)) = do
    answer ← attempt (enroll_remotely row cf_course_id)
    record_answer contact course email cf_course_id answer
  enroll_found course email cf_course_id (err e) = do
    known ← get_by_email email
    record_failure (key_of known) course email cf_course_id e

  -- `enroll_contact`
  unfoldable pub enroll_contact : String → String → Exec EnrollmentResultDto
  unfolding enroll_found get_or_create_remote_contact
  enroll_contact email cf_course_id = do
    course ← gets (λ s. first (select (λ j (c : Course). c.cf_course_id == cf_course_id) s.courses))
    maybe course
        (pure
          (failure email cf_course_id none (append "Course " (append cf_course_id " not found."))))
        λ row. do
          contact ←
              attempt (get_or_create_remote_contact provider.client subdomain workspace_id email)
          enroll_found row.0 email cf_course_id contact

-- `set_enrollment_suspension`
unfoldable pub set_enrollment_suspension : Provider → String → String → Bool → String → Exec ⊤
set_enrollment_suspension provider subdomain cf_enrollment_id suspended reason = do
  id ← or_raise (provider.int cf_enrollment_id) value_error
  answer ← gets (λ s. provider.client.update_enrollment_suspension s subdomain id suspended reason)
  lift answer

-- `MAX_BULK_ENROLLMENT_SIZE`
abbrev pub max_bulk_enrollment_size : ℕ
max_bulk_enrollment_size = 50

-- The body of the loop of `bulk_enroll`: an exception becomes a failed result.
abbrev pub bulk_result :
    Provider → String → String → Result EnrollmentResultDto → EnrollmentResultDto
bulk_result provider email cf_course_id (ok dto) = dto
bulk_result provider email cf_course_id (err e) =
    failure email cf_course_id none (append "Unexpected Error: " (provider.str_error e))

unfoldable pub bulk_each :
    Provider → String → ℕ → String → List String → Exec (List EnrollmentResultDto)
unfolding enroll_contact
bulk_each provider subdomain workspace_id cf_course_id [] = pure []
bulk_each provider subdomain workspace_id cf_course_id (email ∷ emails) = do
  dto ← attempt (enroll_contact provider subdomain workspace_id email cf_course_id)
  rest ← bulk_each provider subdomain workspace_id cf_course_id emails
  pure (bulk_result provider email cf_course_id dto ∷ rest)

abbrev pub is_success : EnrollmentResultDto → Bool
is_success r = elim r.status [ EnrollmentStatus.success ↦ true | EnrollmentStatus.failure ↦ false ]

abbrev pub count_success : List EnrollmentResultDto → ℕ
count_success [] = 0
count_success (r ∷ rs) = (if is_success r then 1 else 0) + count_success rs

abbrev pub count_failure : List EnrollmentResultDto → ℕ
count_failure [] = 0
count_failure (r ∷ rs) = (if is_success r then 0 else 1) + count_failure rs

-- The dictionary that `bulk_enroll` returns.
pub record BulkResult : Type 0 where
  pub total : ℕ
  pub success_count : ℕ
  pub failure_count : ℕ
  pub results : List EnrollmentResultDto

-- `bulk_enroll`
unfoldable pub bulk_enroll : Provider → String → ℕ → List String → String → Exec BulkResult
unfolding bulk_each
bulk_enroll provider subdomain workspace_id emails cf_course_id =
    if ltb max_bulk_enrollment_size (length emails) then raise value_error else do
      results ← bulk_each provider subdomain workspace_id cf_course_id emails
      pure (record {
        total = length emails;
        success_count = count_success results;
        failure_count = count_failure results;
        results = results;
      })
