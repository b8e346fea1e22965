-- ===== src/Reconciliation/Repair.antt =====
-- The other steps of the hourly run: the workers it drives, and the repair of missing follow-ups.
use valuecrm.Base.{
  ℕ, zero, suc, ◌+◌, Bool, true, false, not, ◌&&◌, List, [], ◌∷◌, ◌==◌, nat_eq, elem, ltb, take,
  length, if◌then◌else◌,
}
use valuecrm.Table.{Table, select, exists}
use valuecrm.Settings.{Env}
use valuecrm.Model.{Db, Order, PaymentAttempt, PaymentConfirmation}
use valuecrm.Model.Status.{
  AttemptStatus, InstallmentStatus, ConfirmationStatus, RequestStatus, attempt_status_eq,
  installment_status_eq, confirmation_status_eq, request_status_eq,
}
use valuecrm.Model.Enrollment.{ProvisioningRequest}
use valuecrm.Exec.{Exec, Result, ok, err, pure, gets, attempt, ◌>>=◌, ◌>>◌}
use valuecrm.Transitions.{get_installment}
use valuecrm.Followups.{
  of_order, is_access_eligible, create_confirmation, create_request_from_order,
}
use valuecrm.Reconciliation.{keys}
use valuecrm.Delivery as Delivery
use valuecrm.Provisioning as Provisioning
use valuecrm.ClickFunnels.{Provider}
use valuecrm.Tara.{Client}

-- `RECONCILIATION_REPAIR_BATCH_SIZE`, `RECONCILIATION_CONFIRMATION_BATCH_SIZE` and
-- `RECONCILIATION_PROVISIONING_BATCH_SIZE`
abbrev pub batch_size : ℕ
batch_size = 100

-- What one step adds to its counters: the jobs it took up, those done, those failed, and errors.
pub record Jobs : Type 0 where
  pub processed : ℕ
  pub done : ℕ
  pub failed : ℕ
  pub errors : ℕ

abbrev pub error_of : {A : Type 0} → Result A → ℕ
error_of (ok a) = 0
error_of (err e) = 1

abbrev pub count_rows {ℓ} : {R : Type ℓ} → (ℕ → R → Bool) → Table R → ℕ
count_rows p t = length (select p t)

abbrev pub confirmation_in : List ℕ → (ConfirmationStatus → Bool) → ℕ → PaymentConfirmation → Bool
confirmation_in ids p j c = elem j ids && p c.status

abbrev pub request_in : List ℕ → (RequestStatus → Bool) → ℕ → ProvisioningRequest → Bool
request_in ids p j r = elem j ids && p r.status

-- `_process_confirmations`
unfoldable pub process_confirmations : Delivery.Mailer → Exec Jobs
process_confirmations send = do
  ids ← gets (λ s. take batch_size (keys (select (Delivery.is_pending s.clock) s.confirmations)))
  if length ids == 0 then pure (record { processed = 0; done = 0; failed = 0; errors = 0 }) else do
    answer ← attempt (Delivery.process_pending send batch_size)
    sent ← gets (λ s.
        count_rows (confirmation_in ids (λ st. st == ConfirmationStatus.sent)) s.confirmations)
    lost ← gets (λ s.
        count_rows
          (confirmation_in ids
            (λ st. elem st (ConfirmationStatus.failed ∷ ConfirmationStatus.manual_review ∷ [])))
          s.confirmations)
    pure (record { processed = length ids; done = sent; failed = lost; errors = error_of answer })

-- `_process_provisioning`
unfoldable pub process_provisioning : Provider → Exec Jobs
process_provisioning provider = do
  ids ←
      gets (λ s.
        take batch_size (keys (select (λ j r. Provisioning.is_claimable r.status) s.requests)))
  if length ids == 0 then pure (record { processed = 0; done = 0; failed = 0; errors = 0 }) else do
    answer ← attempt (Provisioning.process_pending provider batch_size)
    completed ←
        gets (λ s. count_rows (request_in ids (λ st. st == RequestStatus.completed)) s.requests)
    lost ← gets (λ s.
        count_rows
          (request_in ids (λ st. elem st (RequestStatus.failed ∷ RequestStatus.manual_review ∷ [])))
          s.requests)
    pure (record {
      processed = length ids;
      done = completed;
      failed = lost;
      errors = error_of answer;
    })

-- `RECONCILIATION_TRANSACTION_LIST_PAGE_SIZE` and `RECONCILIATION_TRANSACTION_LIST_MAX_PAGES`
abbrev pub page_size : ℕ
page_size = 50

abbrev pub max_pages : ℕ
max_pages = 20

-- `list_paid_transactions`: how many items stand on the page that starts there
abbrev pub Pages : Type 0
Pages = ℕ → Result ℕ

-- The loop over pages of `_pull_transaction_list_for_reporting`: the items and the errors.
unfoldable pub pull_pages : Pages → ℕ → ℕ → ℕ × ℕ
pull_pages pages zero start = (0, 0)
pull_pages pages (suc fuel) start =
    let rest = pull_pages pages fuel (start + page_size) in
    elim (pages start) [
      | err e ↦ (0, 1)
      | ok n ↦ if ltb n page_size then (n, 0) else (n + rest.0, rest.1)
    ]

-- `_pull_transaction_list_for_reporting`, where there is a client: it writes nothing
abbrev pub pull_transaction_list : Result Client → (Client → Pages) → ℕ × ℕ
pull_transaction_list (err e) pages = (0, 1)
pull_transaction_list (ok client) pages = pull_pages (pages client) max_pages 0

-- A successful attempt that no confirmation names.
abbrev pub lacks_confirmation : Db → ℕ → PaymentAttempt → Bool
lacks_confirmation s k a =
    a.status == AttemptStatus.succeeded
    && not (exists (λ j c. c.payment_attempt == k) s.confirmations)

-- What one loop of the repair found and did: repaired, or an error.
pub record Repaired : Type 0 where
  pub repaired : ℕ
  pub errors : ℕ

abbrev pub repair_confirmation : Env → ℕ × PaymentAttempt → Exec Bool
repair_confirmation env (k, a) = do
  i ← get_installment a.installment
  create_confirmation env k a.installment i.order
  pure true

abbrev pub has_paid : Db → ℕ → Bool
has_paid s k = exists (λ j i. of_order k j i && i.status == InstallmentStatus.paid) s.installments

-- An order with a paid installment that no provisioning request names.
abbrev pub lacks_request : Db → ℕ → Order → Bool
lacks_request s k o = has_paid s k && not (exists (λ j r. r.order == k) s.requests)

abbrev pub repair_request : ℕ × Order → Exec Bool
repair_request (k, o) = do
  eligible ← gets (is_access_eligible k o)
  if eligible then (create_request_from_order k >> pure true) else pure false

-- The counters of one item, with `except Exception`.
abbrev pub repaired_of : Result Bool → Repaired
repaired_of (ok true) = record { repaired = 1; errors = 0 }
repaired_of (ok false) = record { repaired = 0; errors = 0 }
repaired_of (err e) = record { repaired = 0; errors = 1 }

unfoldable pub repair_each : {A : Type 0} → (A → Exec Bool) → List A → Exec Repaired
repair_each f [] = pure (record { repaired = 0; errors = 0 })
repair_each f (x ∷ xs) = do
  one ← attempt (f x)
  rest ← repair_each f xs
  pure (record {
    repaired = (repaired_of one).repaired + rest.repaired;
    errors = (repaired_of one).errors + rest.errors;
  })

-- `_repair_missing_followups`
unfoldable pub repair_missing_followups : Env → Exec Repaired
unfolding repair_each
repair_missing_followups env = do
  attempts ← gets (λ s. take batch_size (select (lacks_confirmation s) s.attempts))
  one ← repair_each (repair_confirmation env) attempts
  orders ← gets (λ s. take batch_size (select (lacks_request s) s.orders))
  two ← repair_each repair_request orders
  pure (record { repaired = one.repaired + two.repaired; errors = one.errors + two.errors })
