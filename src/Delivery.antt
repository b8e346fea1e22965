-- ===== src/Delivery.antt =====
-- `PaymentConfirmationDeliveryService` of apps/payments/services.py. Rendering and sending a mail is a
-- parameter: what came of it.
pub mod Outcome
pub mod Bounds
use valuecrm.Base.{
  ℕ, suc, ◌+◌, ◌-◌, ⊤, Bool, true, false, not, ◌&&◌, ◌||◌, String, Option, none, some, List, [],
  ◌∷◌, ◌++◌, ◌==◌, nat_eq, string_eq, elem, ltb, leb, min, take, length, if◌then◌else◌,
}
use valuecrm.Table.{Table, get, set, select, update}
use valuecrm.Settings.{minutes}
use valuecrm.Model.{
  Db, PaymentConfirmation, DeliveryFailure, no_failure, invalid_recipient, transient_delivery_error,
  configuration_error, max_attempts_exceeded,
}
use valuecrm.Model.Status.{ConfirmationStatus, confirmation_status_eq}
use valuecrm.Exec.{
  Exec, does_not_exist, pure, gets, or_raise, atomic, write_confirmations, for_each, ◌>>=◌, ◌>>◌,
  maybe,
}

-- `PAYMENT_CONFIRMATION_MAX_ATTEMPTS`
abbrev pub max_attempts : ℕ
max_attempts = 5

-- `PAYMENT_CONFIRMATION_RETRY_BACKOFF_MINUTES[min(attempt_count - 1, len(…) - 1)]`
abbrev pub backoff_minutes : ℕ → ℕ
backoff_minutes n =
    let index : ℕ = min (n - 1) 3 in
    if index == 0 then 1 else if index == 1 then 5 else if index == 2 then 15 else 60

-- What came of rendering and sending: sent, a transport error, or any other exception.
pub data Sending : Type 0 where
  delivered transient broken : Sending

abbrev pub Mailer : Type 0
Mailer = PaymentConfirmation → Sending

-- `_CLAIMABLE_STATUSES`
abbrev pub is_claimable : ConfirmationStatus → Bool
is_claimable st = elem st (ConfirmationStatus.pending ∷ ConfirmationStatus.failed ∷ [])

abbrev pub reviewed : DeliveryFailure → ℕ → PaymentConfirmation → PaymentConfirmation
reviewed category now c = record c {
  status = ConfirmationStatus.manual_review;
  last_failure_category = category;
  next_attempt_at = none;
  updated_at = now;
}

abbrev pub claimed : ℕ → PaymentConfirmation → PaymentConfirmation
claimed now c = record c {
  status = ConfirmationStatus.sending;
  attempt_count = suc c.attempt_count;
  updated_at = now;
}

abbrev pub sent : ℕ → PaymentConfirmation → PaymentConfirmation
sent now c = record c {
  status = ConfirmationStatus.sent;
  sent_at = some now;
  last_failure_category = no_failure;
  next_attempt_at = none;
  updated_at = now;
}

abbrev pub to_retry : DeliveryFailure → ℕ → PaymentConfirmation → PaymentConfirmation
to_retry category now c =
    if leb max_attempts c.attempt_count then reviewed max_attempts_exceeded now c else record c {
      status = ConfirmationStatus.failed;
      last_failure_category = category;
      next_attempt_at = some (now + minutes (backoff_minutes c.attempt_count));
      updated_at = now;
    }

-- `confirmation.save(…)`
abbrev pub save_confirmation : ℕ → PaymentConfirmation → Exec ⊤
save_confirmation k c = write_confirmations (λ s. set k c s.confirmations)

-- A locked read and a save of the row.
unfoldable pub rewrite : ℕ → (ℕ → PaymentConfirmation → PaymentConfirmation) → Exec ⊤
rewrite k f = atomic do
  c ← gets (λ s. get k s.confirmations)
  row ← or_raise c does_not_exist
  now ← gets (λ s. s.clock)
  save_confirmation k (f now row)

-- `_claim`
unfoldable pub claim : ℕ → Exec (Option PaymentConfirmation)
claim k = atomic do
  c ← gets (λ s. get k s.confirmations)
  now ← gets (λ s. s.clock)
  maybe c (pure none) λ row.
      if not (is_claimable row.status)
      then pure none
      else if leb max_attempts row.attempt_count
      then save_confirmation k (reviewed max_attempts_exceeded now row) >> pure none
      else save_confirmation k (claimed now row) >> pure (some (claimed now row))

-- `_mark_sent`
abbrev pub mark_sent : ℕ → Exec ⊤
mark_sent k = rewrite k sent

-- `_finish_retryable_failure`
abbrev pub finish_retryable_failure : ℕ → DeliveryFailure → Exec ⊤
finish_retryable_failure k category = rewrite k (to_retry category)

-- `_finish_manual_review`
abbrev pub finish_manual_review : ℕ → DeliveryFailure → Exec ⊤
finish_manual_review k category = rewrite k (reviewed category)

abbrev pub finish : ℕ → Sending → Exec ⊤
finish k delivered = mark_sent k
finish k transient = finish_retryable_failure k transient_delivery_error
finish k broken = finish_manual_review k configuration_error

-- `_process_one`
unfoldable pub process_one : Mailer → ℕ → Exec ⊤
unfolding claim rewrite
process_one send k = do
  c ← claim k
  maybe c (pure tt) λ row.
      if row.recipient_snapshot == ""
      then finish_manual_review k invalid_recipient
      else finish k (send row)

-- `STUCK_SENDING_AFTER`
abbrev pub is_stuck : ℕ → ℕ → PaymentConfirmation → Bool
is_stuck now j c = c.status == ConfirmationStatus.sending && ltb c.updated_at (now - minutes 15)

abbrev pub released : ℕ → PaymentConfirmation → PaymentConfirmation
released now c = record c {
  status = ConfirmationStatus.failed;
  next_attempt_at = some now;
  updated_at = now;
}

-- `release_stuck_sends`
unfoldable pub release_stuck_sends : Exec ⊤
release_stuck_sends =
    write_confirmations (λ s. update (is_stuck s.clock) (released s.clock) s.confirmations)

abbrev pub is_ripe : ℕ → Option ℕ → Bool
is_ripe now none = true
is_ripe now (some t) = leb t now

abbrev pub is_pending : ℕ → ℕ → PaymentConfirmation → Bool
is_pending now j c = is_claimable c.status && is_ripe now c.next_attempt_at

-- The keys of the rows, the oldest first.
abbrev pub oldest_first : Table PaymentConfirmation → List ℕ
oldest_first [] = []
oldest_first ((j, c) ∷ t) = oldest_first t ++ j ∷ []

-- `process_pending`; it returns how many confirmations it took up
unfoldable pub process_pending : Mailer → ℕ → Exec ℕ
unfolding process_one release_stuck_sends
process_pending send limit = do
  release_stuck_sends
  ids ← gets (λ s. take limit (oldest_first (select (is_pending s.clock) s.confirmations)))
  for_each ids (process_one send)
  pure (length ids)
