-- ===== src/Followups.antt =====
-- The durable follow-up work of a verified payment: `PaymentConfirmationService.create_confirmation`
-- of apps/payments/services.py, `create_request_from_order` of apps/provisioning/services.py and
-- `Order.is_access_eligible` of apps/payments/models.py.
use Prim.Native.String.{◌++◌ as append}
use valuecrm.Base.{
  String, ℕ, Bool, not, ◌&&◌, none, [], ◌∷◌, ◌==◌, nat_eq, string_eq, elem, if◌then◌else◌,
}
use valuecrm.Table.{Table, get, add, fresh, select, exists, first}
use valuecrm.Settings.{Env}
use valuecrm.Model.{
  Db, AccessPolicy, first_installment, full_payment, Order, Installment, PaymentConfirmation,
  no_failure,
}
use valuecrm.Model.Enrollment.{ProvisioningRequest, RequestFailure}
use valuecrm.Model.Status.{
  InstallmentStatus, ConfirmationStatus, RequestStatus, installment_status_eq, request_status_eq,
}
use valuecrm.Exec.{
  Exec, does_not_exist, integrity, pure, raise, gets, or_raise, catch, Error, atomic,
  write_confirmations, write_requests, ◌>>=◌, ◌>>◌, maybe,
}

-- `order.installments`
abbrev pub of_order : ℕ → ℕ → Installment → Bool
of_order k j i = i.order == k

abbrev pub is_settled : InstallmentStatus → Bool
is_settled st = elem st (InstallmentStatus.paid ∷ InstallmentStatus.waived ∷ [])

abbrev eligible_under : AccessPolicy → ℕ → Table Installment → Bool
eligible_under first_installment k t =
    exists (λ j i. of_order k j i && i.status == InstallmentStatus.paid) t
eligible_under full_payment k t =
    exists (of_order k) t && not (exists (λ j i. of_order k j i && not (is_settled i.status)) t)

-- `Order.is_access_eligible`
unfoldable pub is_access_eligible : ℕ → Order → Db → Bool
is_access_eligible k o s = eligible_under o.access_policy k s.installments

abbrev pub new_confirmation : ℕ → ℕ → ℕ → ℕ → String → String → ℕ → PaymentConfirmation
new_confirmation customer order installment attempt recipient key now = record {
  contact = customer;
  order = order;
  installment = installment;
  payment_attempt = attempt;
  recipient_snapshot = recipient;
  idempotency_key = key;
  status = ConfirmationStatus.pending;
  attempt_count = 0;
  next_attempt_at = none;
  sent_at = none;
  last_failure_category = no_failure;
  updated_at = now;
}

-- `PaymentConfirmationService.create_confirmation` on the attempt, installment and order of the keys
unfoldable pub create_confirmation : Env → ℕ → ℕ → ℕ → Exec ℕ
create_confirmation env attempt installment order = do
  o ← gets (λ s. get order s.orders)
  row ← or_raise o does_not_exist
  c ← gets (λ s. get row.customer s.contacts)
  contact ← or_raise c does_not_exist
  let key =
      env.sha256_hex
        (append "PAYMENT_CONFIRMATION|" (append (env.str attempt) (append "|EMAIL|" contact.email)))
  existing ← gets (λ s. first (select (λ j p. p.idempotency_key == key) s.confirmations))
  maybe existing
      (do
        k ← gets (λ s. fresh s.confirmations)
        write_confirmations (λ s.
            add (new_confirmation row.customer order installment attempt contact.email key s.clock)
              s.confirmations)
        pure k)
      (λ found. pure found.0)

-- A request that `unique_active_contact_course_provisioning_request` counts.
abbrev pub live_request : ℕ → ℕ → ℕ → ProvisioningRequest → Bool
live_request contact course j r =
    r.contact == contact && r.course == course && not (r.status == RequestStatus.cancelled)

abbrev pub new_request : ℕ → Order → ProvisioningRequest
new_request k o = record {
  order = k;
  course = o.course;
  contact = o.customer;
  status = RequestStatus.pending;
  approved_by = none;
  approved_at = none;
  attempt_count = 0;
  last_error = "";
  failure_category = RequestFailure.no_failure;
}

-- `ProvisioningRequest.objects.create(…)` under the unique constraint
unfoldable pub insert_request : ℕ → Order → Exec ℕ
insert_request k o = do
  taken ← gets (λ s. exists (live_request o.customer o.course) s.requests)
  if taken then raise integrity else do
    key ← gets (λ s. fresh s.requests)
    write_requests (λ s. add (new_request k o) s.requests)
    pure key

-- `except IntegrityError:` fetches the winner
unfoldable pub refetch_request : Order → Error → Exec ℕ
refetch_request o integrity = do
  winner ← gets (λ s. first (select (live_request o.customer o.course) s.requests))
  row ← or_raise winner integrity
  pure row.0
refetch_request o e = raise e

-- `ProvisioningService.create_request_from_order`
unfoldable pub create_request_from_order : ℕ → Exec ℕ
unfolding insert_request refetch_request
create_request_from_order k = do
  o ← gets (λ s. get k s.orders)
  row ← or_raise o does_not_exist
  existing ← gets (λ s. first (select (live_request row.customer row.course) s.requests))
  maybe existing (catch (atomic (insert_request k row)) (refetch_request row))
      (λ found. pure found.0)
