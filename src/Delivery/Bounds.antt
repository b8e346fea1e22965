-- ===== src/Delivery/Bounds.antt =====
-- What a run of the delivery may do to the confirmations.
use valuecrm.Base.{
  ℕ, suc, ◌≡◌, ◌≤◌, refl, ◌∙◌, ap, true, false, not, arith, ◌==◌, string_eq, leb, if_intro,
  Option-cases, inl, inr,
}
use valuecrm.Table.{Table, get}
use valuecrm.Table.Evolves.{Evolves, Evolves-refl, Evolves-trans, Evolves-set, Evolves-update}
use valuecrm.Model.{Db, PaymentConfirmation, DeliveryFailure, max_attempts_exceeded}
use valuecrm.Model.Status.{ConfirmationStatus, confirmation_status_eq}
use valuecrm.Exec.{write_confirmations}
use valuecrm.Exec.Preserves.{Preserves, preserves_rules}
use valuecrm.Delivery.{
  Sending, delivered, transient, broken, Mailer, is_claimable, max_attempts, reviewed, claimed,
  is_stuck, released, release_stuck_sends, process_one, process_pending,
}
use valuecrm.Delivery.Outcome.{after_sending, step, process_one-step, process_one_missing}

-- A later state of a confirmation: what identifies it and whom it goes to are the same, it never has
-- more attempts than allowed, and once sent it stays as it was.
pub record Delivered (c d : PaymentConfirmation) : Type 0 where
  pub idempotency_key : d.idempotency_key ≡ c.idempotency_key
  pub recipient : d.recipient_snapshot ≡ c.recipient_snapshot
  pub payment_attempt : d.payment_attempt ≡ c.payment_attempt
  pub bounded : c.attempt_count ≤ max_attempts → d.attempt_count ≤ max_attempts
  pub kept : c.status ≡ ConfirmationStatus.sent → d ≡ c

Delivered-refl : (c : PaymentConfirmation) → Delivered c c
Delivered-refl c = record {
  idempotency_key = refl;
  recipient = refl;
  payment_attempt = refl;
  bounded = λ h. h;
  kept = λ h. refl;
}

Delivered-trans : (b c d : PaymentConfirmation) → Delivered b c → Delivered c d → Delivered b d
Delivered-trans b c d p q = record {
  idempotency_key = q.idempotency_key ∙ p.idempotency_key;
  recipient = q.recipient ∙ p.recipient;
  payment_attempt = q.payment_attempt ∙ p.payment_attempt;
  bounded = λ h. q.bounded (p.bounded h);
  kept = λ h. q.kept (ap (λ (x : PaymentConfirmation). x.status) (p.kept h) ∙ h) ∙ p.kept h;
}

-- A claimable confirmation was not sent.
open_row :
    (c : PaymentConfirmation)
    → not (is_claimable c.status) ≡ false
    → ¬ (c.status ≡ ConfirmationStatus.sent)
open_row c h e = cc

reviewed-Delivered :
    (c : PaymentConfirmation) (category : DeliveryFailure) (now : ℕ)
    → not (is_claimable c.status) ≡ false
    → Delivered c (reviewed category now c)
reviewed-Delivered c category now ready = record {
  idempotency_key = refl;
  recipient = refl;
  payment_attempt = refl;
  bounded = λ h. h;
  kept = λ h. absurd (open_row c ready h);
}

-- A row that was claimed within the bound, in any state that the attempt may leave it in.
after_claim-Delivered :
    (c : PaymentConfirmation) (now : ℕ) (x : Sending)
    → not (is_claimable c.status) ≡ false
    → leb max_attempts c.attempt_count ≡ false
    → Delivered c (after_sending x now (claimed now c))
after_claim-Delivered c now delivered ready early = record {
  idempotency_key = refl;
  recipient = refl;
  payment_attempt = refl;
  bounded = λ h. ground arith;
  kept = λ h. absurd (open_row c ready h);
}
after_claim-Delivered c now transient ready early =
    if_intro (Delivered c) (leb max_attempts (suc c.attempt_count))
      (λ last. record {
        idempotency_key = refl;
        recipient = refl;
        payment_attempt = refl;
        bounded = λ h. ground arith;
        kept = λ h. absurd (open_row c ready h);
      })
      (λ more. record {
        idempotency_key = refl;
        recipient = refl;
        payment_attempt = refl;
        bounded = λ h. ground arith;
        kept = λ h. absurd (open_row c ready h);
      })
after_claim-Delivered c now broken ready early = record {
  idempotency_key = refl;
  recipient = refl;
  payment_attempt = refl;
  bounded = λ h. ground arith;
  kept = λ h. absurd (open_row c ready h);
}

step-Delivered : (send : Mailer) (now : ℕ) (c : PaymentConfirmation) → Delivered c (step send now c)
step-Delivered send now c =
    if_intro (Delivered c) (not (is_claimable c.status)) (λ closed. Delivered-refl c)
      (λ ready.
        if_intro (Delivered c) (leb max_attempts c.attempt_count)
          (λ spent. reviewed-Delivered c max_attempts_exceeded now ready)
          (λ early.
            if_intro (Delivered c) (c.recipient_snapshot == "")
              (λ empty. record {
                idempotency_key = refl;
                recipient = refl;
                payment_attempt = refl;
                bounded = λ h. ground arith;
                kept = λ h. absurd (open_row c ready h);
              })
              (λ full. after_claim-Delivered c now (send (claimed now c)) ready early)))

-- No confirmation is lost, and each is a later state of itself.
pub record Deliveries (s t : Db) : Type 0 where
  pub rows : Evolves Delivered s.confirmations t.confirmations

Deliveries-trans :
    (s t : Db) (rows : Table PaymentConfirmation)
    → Deliveries s t
    → Evolves Delivered t.confirmations rows
    → Deliveries s (record t { confirmations = rows })
Deliveries-trans s t rows h e = record {
  rows = Evolves-trans Delivered-trans s.confirmations t.confirmations rows h.rows e;
}

-- What is stuck was not sent.
released-Delivered :
    (now k : ℕ) (c : PaymentConfirmation) → is_stuck now k c ≡ true → Delivered c (released now c)
released-Delivered now k c stuck = record {
  idempotency_key = refl;
  recipient = refl;
  payment_attempt = refl;
  bounded = λ h. h;
  kept = λ h. absurd ground arith;
}

module _ {s₀ : Db} where
  process_one-Delivered : (send : Mailer) (k : ℕ) → Preserves (Deliveries s₀) (process_one send k)
  process_one-Delivered send k = record {
    after = λ s h. elim (Option-cases (get k s.confirmations)) [
      | inl missing ↦ rw (process_one_missing send k s missing) h
      | inr (c, found) ↦ rw (process_one-step send k s found) (
          Deliveries-trans s₀ s _ h (
            Evolves-set Delivered-refl k c (step send s.clock c) s.confirmations found
              (step-Delivered send s.clock c)))
    ];
  }

  release-Delivered : Preserves (Deliveries s₀) release_stuck_sends
  unfolding release_stuck_sends write_confirmations
  release-Delivered = record {
    after = λ s h. Deliveries-trans s₀ s _ h (
        Evolves-update Delivered-refl (is_stuck s.clock) (released s.clock)
          (released-Delivered s.clock) s.confirmations);
  }

  process_pending-Delivered :
      (send : Mailer) (limit : ℕ) → Preserves (Deliveries s₀) (process_pending send limit)
  unfolding process_pending
  process_pending-Delivered send limit =
      search (preserves_rules, process_one-Delivered, release-Delivered) depth 12

-- A run of `process_pending`, whatever comes of its mails, loses no confirmation; of each it keeps the
-- idempotency key, the recipient and the payment attempt, it makes no more than the allowed attempts,
-- and one that is sent stays exactly as it is, so that it is not sent again.
pub process_pending-Deliveries :
    (send : Mailer) (limit : ℕ) (s : Db) → Deliveries s (process_pending send limit s).1
process_pending-Deliveries send limit s =
    (process_pending-Delivered send limit).after s
      (record { rows = Evolves-refl Delivered-refl s.confirmations })
