-- ===== src/Administration.antt =====
-- Staff actions of apps/payments/admin_services.py. A rejection is recorded in the audit log and
-- raised only after the transaction with that record has committed.
pub mod Labels
pub mod Audited
pub mod Orders
pub mod Installments
pub mod Attempts
pub mod Events
pub mod Access
use valuecrm.Base.{ℕ, ⊤, Bool, true, false, [], ◌∷◌, ◌==◌, nat_eq, elem, if◌then◌else◌}
use valuecrm.Table.{select, exists}
use valuecrm.Model.{Db, Installment, PaymentAttempt}
use valuecrm.Model.Status.{
  AttemptStatus, InstallmentStatus, attempt_status_eq, installment_status_eq,
}
use valuecrm.Exec.{
  Exec, Error, invalid_transition, admin_action, pure, raise, gets, for_each, when, ◌>>=◌, ◌>>◌,
}
use valuecrm.Transitions.{attempt_transition}

-- `_NON_TERMINAL_ATTEMPT_STATUSES`
abbrev pub is_non_terminal : AttemptStatus → Bool
is_non_terminal st = elem st (
    AttemptStatus.created ∷ AttemptStatus.link_created ∷ AttemptStatus.pending
    ∷ AttemptStatus.unknown ∷ [])

-- `_ORDER_ELIGIBLE_INSTALLMENT_STATUSES`
abbrev pub is_cancellable : InstallmentStatus → Bool
is_cancellable st = elem st (
    InstallmentStatus.scheduled ∷ InstallmentStatus.due ∷ InstallmentStatus.pending
    ∷ InstallmentStatus.failed ∷ [])

abbrev pub is_invalid_transition : Error → Bool
is_invalid_transition invalid_transition = true
is_invalid_transition _ = false

abbrev pub of_installment : ℕ → ℕ → PaymentAttempt → Bool
of_installment i m a = a.installment == i

abbrev pub expire_attempt : ℕ × PaymentAttempt → Exec ⊤
expire_attempt (m, a) =
    when (is_non_terminal a.status) (attempt_transition m AttemptStatus.expired "" "" >> pure tt)

-- `for attempt in installment.payment_attempts`: what is open expires
unfoldable pub expire_attempts : ℕ → Exec ⊤
expire_attempts i = do
  attempts ← gets (λ s. select (of_installment i) s.attempts)
  for_each attempts expire_attempt

-- `installment.payment_attempts.filter(status=SUCCEEDED).exists()`
abbrev pub has_succeeded : ℕ → Db → Bool
has_succeeded i s =
    exists (λ m a. if of_installment i m a then a.status == AttemptStatus.succeeded else false)
      s.attempts

-- What follows the transaction: `if error_message is not None: raise AdminActionError(…)`
unfoldable pub report : Bool → Exec ⊤
report true = pure tt
report false = raise admin_action
