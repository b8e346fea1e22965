-- ===== src/Model/Audit.antt =====
-- `AdminAuditLog` of apps/payments/models.py.
use valuecrm.Base.{ℕ, String, Option}

pub data ActionType : Type 0 where
  check_tara_status retry_confirmation retry_provisioning cancel_order : ActionType
  cancel_installment waive_installment apply_manual_disposition : ActionType
  freeze_enrollment resume_enrollment attribute_payment : ActionType

pub data TargetType : Type 0 where
  order installment payment_attempt payment_confirmation : TargetType
  provisioning_request enrollment_attempt tara_webhook_event : TargetType

pub data OutcomeCategory : Type 0 where
  success no_op_already_in_state rejected_invalid_state : OutcomeCategory
  rejected_permission provider_non_final failed : OutcomeCategory

-- The key `target` stands for `target_reference`; the other foreign keys follow from it.
pub record AdminAuditLog : Type 0 where
  pub administrator : Option ℕ
  pub action_type : ActionType
  pub target_type : TargetType
  pub target : ℕ
  pub previous_state : String
  pub resulting_state : String
  pub reason : String
  pub outcome_category : OutcomeCategory
