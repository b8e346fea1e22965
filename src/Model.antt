-- ===== src/Model.antt =====
-- The rows of apps/payments/models.py, apps/provisioning/models.py, apps/contacts/models.py and
-- apps/courses/models.py, one record for each model, and the database that holds them. A foreign
-- key is the key of a row; an amount is a number of hundredths (`decimal_places=2`); an instant is a
-- number of seconds and a date a number of days; a nullable column is an `Option`.
pub mod Status
pub mod Enrollment
pub mod Audit
pub mod Jobs
use valuecrm.Base.{ℕ, Bool, String, Option, List}
use valuecrm.Table.{Table}
use Status.{OrderStatus, InstallmentStatus, AttemptStatus, ConfirmationStatus}
use Enrollment.{EnrollmentAttempt, ProvisioningRequest, ProvisioningAttempt}
use Audit.{AdminAuditLog}
use Jobs.{InstallmentReminder, ReconciliationRun}

pub data AccessPolicy : Type 0 where
  first_installment full_payment : AccessPolicy

pub data ManualDisposition : Type 0 where
  no_disposition needs_review approved_for_retry denied_by_admin : ManualDisposition
  customer_cancelled disputed : ManualDisposition

pub record Contact : Type 0 where
  pub email : String
  pub phone : String
  pub first_name : String
  pub last_name : String
  pub cf_contact_id : Option String

pub record Course : Type 0 where
  pub cf_course_id : String
  pub name : String

pub record PaymentPlan : Type 0 where
  pub code : String
  pub name : String
  pub course : ℕ
  pub currency : String
  pub installment_count : ℕ
  pub installment_amount : ℕ
  pub installment_interval_days : ℕ
  pub access_policy : AccessPolicy
  pub is_active : Bool

-- The frozen snapshot of the purchased terms.
pub record Terms : Type 0 where
  pub plan_code : String
  pub plan_name : String
  pub course_cf_id : String
  pub course_name : String
  pub currency : String
  pub installment_count : ℕ
  pub installment_amount : ℕ
  pub installment_interval_days : ℕ
  pub total_expected_amount : ℕ
  pub access_policy : AccessPolicy

pub record Order : Type 0 where
  pub customer : ℕ
  pub plan : ℕ
  pub course : ℕ
  pub idempotency_key : String
  pub terms : Terms
  pub open terms use *
  pub status : OrderStatus
  pub manual_disposition : ManualDisposition
  pub suspended_for_nonpayment_at : Option ℕ
  pub created_at : ℕ
  pub updated_at : ℕ

pub record Installment : Type 0 where
  pub order : ℕ
  pub sequence : ℕ
  pub expected_amount : ℕ
  pub currency : String
  pub due_date : ℕ
  pub status : InstallmentStatus
  pub paid_amount : Option ℕ
  pub paid_at : Option ℕ

-- The payment links that the provider returned.
pub record Links : Type 0 where
  pub whatsapp_link : String
  pub telegram_link : String
  pub dikalo_link : String
  pub general_link : String
  pub card_link : String
  pub sms_link : String

pub record PaymentAttempt : Type 0 where
  pub installment : ℕ
  pub tara_product_id : String
  pub tara_payment_id : Option String
  pub expected_amount : ℕ
  pub currency : String
  pub status : AttemptStatus
  pub raw_provider_status : String
  pub provider_message : String
  pub links : Links
  pub open links use *
  pub initiated_at : Option ℕ
  pub completed_at : Option ℕ
  pub reconciliation_check_count : ℕ
  pub next_reconciliation_check_at : Option ℕ
  pub updated_at : ℕ

pub data ProcessingStatus : Type 0 where
  received processed uncorrelated rejected failed : ProcessingStatus

pub data VerificationMode : Type 0 where
  unverified_trigger server_to_server : VerificationMode

pub data VerificationResult : Type 0 where
  pending success failure unknown skipped : VerificationResult

pub data EventFailure : Type 0 where
  none_failure business_id_mismatch unknown_product_id uncorrelated amount_mismatch : EventFailure
  payment_id_conflict duplicate_payment invalid_state_transition : EventFailure
  provider_product_mismatch provider_lookup_indeterminate malformed : EventFailure

pub record TaraWebhookEvent : Type 0 where
  pub received_at : ℕ
  pub processed_at : Option ℕ
  pub processing_status : ProcessingStatus
  pub verification_mode : VerificationMode
  pub verification_result : VerificationResult
  pub failure_category : EventFailure
  pub business_id : String
  pub tara_product_id : String
  pub tara_payment_id : String
  pub raw_provider_status : String
  pub amount : Option ℕ
  pub payload_digest : String
  pub dedup_key : String
  pub payment_attempt : Option ℕ
  pub processing_attempts : ℕ

pub data DeliveryFailure : Type 0 where
  no_failure invalid_recipient transient_delivery_error configuration_error : DeliveryFailure
  max_attempts_exceeded : DeliveryFailure

pub record PaymentConfirmation : Type 0 where
  pub contact : ℕ
  pub order : ℕ
  pub installment : ℕ
  pub payment_attempt : ℕ
  pub recipient_snapshot : String
  pub idempotency_key : String
  pub status : ConfirmationStatus
  pub attempt_count : ℕ
  pub next_attempt_at : Option ℕ
  pub sent_at : Option ℕ
  pub last_failure_category : DeliveryFailure
  pub updated_at : ℕ

-- The database as the payment services see it; the instant at which the running operation happens;
-- and the follow-ups registered with `transaction.on_commit`, as `run_payment_followups` takes them.
pub record Db : Type 0 where
  pub contacts : Table Contact
  pub courses : Table Course
  pub plans : Table PaymentPlan
  pub orders : Table Order
  pub installments : Table Installment
  pub attempts : Table PaymentAttempt
  pub events : Table TaraWebhookEvent
  pub confirmations : Table PaymentConfirmation
  pub requests : Table ProvisioningRequest
  pub provisioning_attempts : Table ProvisioningAttempt
  pub enrollments : Table EnrollmentAttempt
  pub audits : Table AdminAuditLog
  pub reminders : Table InstallmentReminder
  pub runs : Table ReconciliationRun
  pub clock : ℕ
  pub followups : List (ℕ × Option ℕ)
