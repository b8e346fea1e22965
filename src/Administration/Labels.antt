-- ===== src/Administration/Labels.antt =====
-- The values of the status columns, as the audit log holds them.
use valuecrm.Base.{String, Bool, true, false}
use valuecrm.Model.{
  ManualDisposition, no_disposition, needs_review, approved_for_retry, denied_by_admin,
  customer_cancelled, disputed, ProcessingStatus, DeliveryFailure,
}
use valuecrm.Model.Status.{OrderStatus, InstallmentStatus, AttemptStatus, ConfirmationStatus}
use valuecrm.Model.Enrollment.{EnrollmentStatus}

abbrev pub order_text : OrderStatus → String
order_text OrderStatus.pending = "PENDING"
order_text OrderStatus.active = "ACTIVE"
order_text OrderStatus.past_due = "PAST_DUE"
order_text OrderStatus.completed = "COMPLETED"
order_text OrderStatus.cancelled = "CANCELLED"
order_text OrderStatus.suspended = "SUSPENDED"
order_text OrderStatus.expired = "EXPIRED"

abbrev pub installment_text : InstallmentStatus → String
installment_text InstallmentStatus.scheduled = "SCHEDULED"
installment_text InstallmentStatus.due = "DUE"
installment_text InstallmentStatus.pending = "PENDING"
installment_text InstallmentStatus.paid = "PAID"
installment_text InstallmentStatus.failed = "FAILED"
installment_text InstallmentStatus.waived = "WAIVED"
installment_text InstallmentStatus.cancelled = "CANCELLED"

abbrev pub attempt_text : AttemptStatus → String
attempt_text AttemptStatus.created = "CREATED"
attempt_text AttemptStatus.link_created = "LINK_CREATED"
attempt_text AttemptStatus.pending = "PENDING"
attempt_text AttemptStatus.succeeded = "SUCCEEDED"
attempt_text AttemptStatus.failed = "FAILED"
attempt_text AttemptStatus.expired = "EXPIRED"
attempt_text AttemptStatus.unknown = "UNKNOWN"

abbrev pub event_text : ProcessingStatus → String
event_text ProcessingStatus.received = "RECEIVED"
event_text ProcessingStatus.processed = "PROCESSED"
event_text ProcessingStatus.uncorrelated = "UNCORRELATED"
event_text ProcessingStatus.rejected = "REJECTED"
event_text ProcessingStatus.failed = "FAILED"

abbrev pub confirmation_text : ConfirmationStatus → String
confirmation_text ConfirmationStatus.pending = "PENDING"
confirmation_text ConfirmationStatus.sending = "SENDING"
confirmation_text ConfirmationStatus.sent = "SENT"
confirmation_text ConfirmationStatus.failed = "FAILED"
confirmation_text ConfirmationStatus.manual_review = "MANUAL_REVIEW"

-- `confirmation.last_failure_category or 'n/a'`
abbrev pub delivery_text : DeliveryFailure → String
delivery_text DeliveryFailure.no_failure = "n/a"
delivery_text DeliveryFailure.invalid_recipient = "INVALID_RECIPIENT"
delivery_text DeliveryFailure.transient_delivery_error = "TRANSIENT_DELIVERY_ERROR"
delivery_text DeliveryFailure.configuration_error = "CONFIGURATION_ERROR"
delivery_text DeliveryFailure.max_attempts_exceeded = "MAX_ATTEMPTS_EXCEEDED"

abbrev pub disposition_text : ManualDisposition → String
disposition_text no_disposition = "NONE"
disposition_text needs_review = "NEEDS_REVIEW"
disposition_text approved_for_retry = "APPROVED_FOR_RETRY"
disposition_text denied_by_admin = "DENIED_BY_ADMIN"
disposition_text customer_cancelled = "CUSTOMER_CANCELLED"
disposition_text disputed = "DISPUTED"

abbrev pub enrollment_text : EnrollmentStatus → String
enrollment_text EnrollmentStatus.success = "SUCCESS"
enrollment_text EnrollmentStatus.failure = "FAILURE"

-- `state_label`
abbrev pub access_text : Bool → String
access_text true = "SUSPENDED"
access_text false = "ACTIVE"
