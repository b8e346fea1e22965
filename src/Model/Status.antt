-- ===== src/Model/Status.antt =====
-- The status enumerations of apps/payments/models.py and apps/provisioning/models.py, with Python's
-- `==` on them, and the transition tables of apps/payments/services.py.
use valuecrm.Base.{ℕ, ◌≡◌, ◌↔◌, Bool, true, arith, nat_beq, HasEq}

pub data OrderStatus : Type 0 where
  pending active past_due completed cancelled suspended expired : OrderStatus

pub data InstallmentStatus : Type 0 where
  scheduled due pending paid failed waived cancelled : InstallmentStatus

pub data AttemptStatus : Type 0 where
  created link_created pending succeeded failed expired unknown : AttemptStatus

pub data ConfirmationStatus : Type 0 where
  pending sending sent failed manual_review : ConfirmationStatus

pub data RequestStatus : Type 0 where
  pending awaiting_approval in_progress completed failed manual_review cancelled : RequestStatus

abbrev order_status_rank : OrderStatus → ℕ
order_status_rank OrderStatus.pending = 0
order_status_rank OrderStatus.active = 1
order_status_rank OrderStatus.past_due = 2
order_status_rank OrderStatus.completed = 3
order_status_rank OrderStatus.cancelled = 4
order_status_rank OrderStatus.suspended = 5
order_status_rank OrderStatus.expired = 6

abbrev installment_status_rank : InstallmentStatus → ℕ
installment_status_rank InstallmentStatus.scheduled = 0
installment_status_rank InstallmentStatus.due = 1
installment_status_rank InstallmentStatus.pending = 2
installment_status_rank InstallmentStatus.paid = 3
installment_status_rank InstallmentStatus.failed = 4
installment_status_rank InstallmentStatus.waived = 5
installment_status_rank InstallmentStatus.cancelled = 6

abbrev attempt_status_rank : AttemptStatus → ℕ
attempt_status_rank AttemptStatus.created = 0
attempt_status_rank AttemptStatus.link_created = 1
attempt_status_rank AttemptStatus.pending = 2
attempt_status_rank AttemptStatus.succeeded = 3
attempt_status_rank AttemptStatus.failed = 4
attempt_status_rank AttemptStatus.expired = 5
attempt_status_rank AttemptStatus.unknown = 6

abbrev confirmation_status_rank : ConfirmationStatus → ℕ
confirmation_status_rank ConfirmationStatus.pending = 0
confirmation_status_rank ConfirmationStatus.sending = 1
confirmation_status_rank ConfirmationStatus.sent = 2
confirmation_status_rank ConfirmationStatus.failed = 3
confirmation_status_rank ConfirmationStatus.manual_review = 4

abbrev request_status_rank : RequestStatus → ℕ
request_status_rank RequestStatus.pending = 0
request_status_rank RequestStatus.awaiting_approval = 1
request_status_rank RequestStatus.in_progress = 2
request_status_rank RequestStatus.completed = 3
request_status_rank RequestStatus.failed = 4
request_status_rank RequestStatus.manual_review = 5
request_status_rank RequestStatus.cancelled = 6

abbrev order_status_beq : OrderStatus → OrderStatus → Bool
order_status_beq a b = nat_beq (order_status_rank a) (order_status_rank b)

abbrev installment_status_beq : InstallmentStatus → InstallmentStatus → Bool
installment_status_beq a b = nat_beq (installment_status_rank a) (installment_status_rank b)

abbrev attempt_status_beq : AttemptStatus → AttemptStatus → Bool
attempt_status_beq a b = nat_beq (attempt_status_rank a) (attempt_status_rank b)

abbrev confirmation_status_beq : ConfirmationStatus → ConfirmationStatus → Bool
confirmation_status_beq a b = nat_beq (confirmation_status_rank a) (confirmation_status_rank b)

abbrev request_status_beq : RequestStatus → RequestStatus → Bool
request_status_beq a b = nat_beq (request_status_rank a) (request_status_rank b)

pub order_status_beq_iff : (a b : OrderStatus) → (order_status_beq a b ≡ true) ↔ (a ≡ b)
order_status_beq_iff a b = ground arith

pub installment_status_beq_iff :
    (a b : InstallmentStatus) → (installment_status_beq a b ≡ true) ↔ (a ≡ b)
installment_status_beq_iff a b = ground arith

pub attempt_status_beq_iff : (a b : AttemptStatus) → (attempt_status_beq a b ≡ true) ↔ (a ≡ b)
attempt_status_beq_iff a b = ground arith

pub confirmation_status_beq_iff :
    (a b : ConfirmationStatus) → (confirmation_status_beq a b ≡ true) ↔ (a ≡ b)
confirmation_status_beq_iff a b = ground arith

pub request_status_beq_iff : (a b : RequestStatus) → (request_status_beq a b ≡ true) ↔ (a ≡ b)
request_status_beq_iff a b = ground arith

instance abbrev pub order_status_eq : HasEq OrderStatus
order_status_eq = record { equals = order_status_beq; equals_iff = order_status_beq_iff }

instance abbrev pub installment_status_eq : HasEq InstallmentStatus
installment_status_eq = record {
  equals = installment_status_beq;
  equals_iff = installment_status_beq_iff;
}

instance abbrev pub attempt_status_eq : HasEq AttemptStatus
attempt_status_eq = record { equals = attempt_status_beq; equals_iff = attempt_status_beq_iff }

instance abbrev pub confirmation_status_eq : HasEq ConfirmationStatus
confirmation_status_eq = record {
  equals = confirmation_status_beq;
  equals_iff = confirmation_status_beq_iff;
}

instance abbrev pub request_status_eq : HasEq RequestStatus
request_status_eq = record { equals = request_status_beq; equals_iff = request_status_beq_iff }
