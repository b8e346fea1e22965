-- ===== src/Audit.antt =====
-- `AdminAuditService` of apps/payments/admin_services.py. The user name and the remote address that
-- a row also holds are copies of what the caller passed, and are left out.
use valuecrm.Base.{ℕ, String, Option}
use valuecrm.Table.{add, fresh}
use valuecrm.Model.Audit.{AdminAuditLog, ActionType, TargetType, OutcomeCategory}
use valuecrm.Exec.{Exec, gets, pure, write_audits, ◌>>=◌, ◌>>◌}

-- Who acts, and why.
pub record Actor : Type 0 where
  pub administrator : Option ℕ
  pub reason : String

abbrev pub entry :
    Actor → ActionType → TargetType → ℕ → String → String → OutcomeCategory → AdminAuditLog
entry actor action target_type target before after outcome = record {
  administrator = actor.administrator;
  action_type = action;
  target_type = target_type;
  target = target;
  previous_state = before;
  resulting_state = after;
  reason = actor.reason;
  outcome_category = outcome;
}

-- `record`
unfoldable pub record_audit : AdminAuditLog → Exec ℕ
record_audit row = do
  key ← gets (λ s. fresh s.audits)
  write_audits (λ s. add row s.audits)
  pure key
