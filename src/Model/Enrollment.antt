-- ===== src/Model/Enrollment.antt =====
-- The rows of apps/enrollments/models.py and apps/provisioning/models.py.
use valuecrm.Base.{ℕ, Bool, String, Option}
use valuecrm.Model.Status.{RequestStatus}

pub data EnrollmentStatus : Type 0 where
  success failure : EnrollmentStatus

pub record EnrollmentAttempt : Type 0 where
  pub contact : ℕ
  pub course : ℕ
  pub status : EnrollmentStatus
  pub cf_enrollment_id : Option String
  pub error_log : String
  pub cf_suspended : Bool
  pub cf_suspended_at : Option ℕ
  pub cf_suspension_reason : String

pub data RequestFailure : Type 0 where
  no_failure transient_provider_error missing_contact_identifier : RequestFailure
  missing_course_snapshot configuration_error authorization_error : RequestFailure
  malformed_request max_attempts_exceeded : RequestFailure

pub record ProvisioningRequest : Type 0 where
  pub order : ℕ
  pub course : ℕ
  pub contact : ℕ
  pub status : RequestStatus
  pub approved_by : Option ℕ
  pub approved_at : Option ℕ
  pub attempt_count : ℕ
  pub last_error : String
  pub failure_category : RequestFailure

pub record ProvisioningAttempt : Type 0 where
  pub provisioning_request : ℕ
  pub course : ℕ
  pub enrollment_attempt : Option ℕ
  pub status : EnrollmentStatus
