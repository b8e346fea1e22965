-- ===== src/History/Writes.antt =====
-- Each write of the services keeps the history.
use valuecrm.Base.{
  ℕ, ◌≡◌, refl, true, String, Option, none, some, ◌≢◌, [], ◌==◌, elem, if_intro, subst,
}
use valuecrm.Table.{Table, get, set, exists}
use valuecrm.Table.Evolves.{Evolves-set}
use valuecrm.Model.{
  Db, Order, Installment, PaymentAttempt, Contact, TaraWebhookEvent, PaymentConfirmation,
}
use valuecrm.Model.Status.{
  OrderStatus, InstallmentStatus, AttemptStatus, order_status_eq, installment_status_eq,
  attempt_status_eq,
}
use valuecrm.Model.Enrollment.{EnrollmentAttempt, ProvisioningRequest, ProvisioningAttempt}
use valuecrm.Model.Audit.{AdminAuditLog}
use valuecrm.Model.Jobs.{InstallmentReminder, ReconciliationRun}
use valuecrm.Exec.{
  Result, Exec, write_events, write_confirmations, write_requests, on_commit,
  write_provisioning_attempts, write_enrollments, write_contacts, write_audits, write_reminders,
  write_runs, sleep,
}
use valuecrm.Exec.Preserves.{Preserves, preserves_rules}
use valuecrm.Transitions.{
  save_attempt, order_transitions, installment_transitions, attempt_transitions, conflicts,
  moved_installment, moved_attempt, order_transition, installment_transition, attempt_transition,
}
use valuecrm.Transitions.Paths.{Follows-one}
use valuecrm.Transitions.Outcomes.{
  order_outcome, installment_outcome, attempt_outcome, order_transition-outcome,
  installment_transition-outcome, attempt_transition-outcome,
}
use valuecrm.History.{
  History, OrderKept, InstallmentKept, AttemptKept, OrderKept-refl, InstallmentKept-refl,
  AttemptKept-refl, History-refl, History-trans,
}

-- From any step that keeps the history, the rule for a call in a longer one.
pub Preserves-History :
    {A : Type 0} (m : Exec A)
    → ((s : Db) → History s (m s).1)
    → (s₀ : Db) → Preserves (History s₀) m
Preserves-History m step s₀ = record { after = λ s h. History-trans s₀ s (m s).1 h (step s) }

-- A paid installment has no move, so the row that is saved never replaces one.
paid_stuck :
    (i : Installment) (new_status : InstallmentStatus)
    → elem new_status (installment_transitions i.status) ≡ true
    → i.status ≢ InstallmentStatus.paid
paid_stuck i new_status allowed paid =
    let stuck : elem new_status [] ≡ true =
      subst (λ st. elem new_status (installment_transitions st) ≡ true) paid allowed in
    cc

installment_moved-Kept :
    (i : Installment) (new_status : InstallmentStatus) (paid_amount : Option ℕ) (now : ℕ)
    → elem new_status (installment_transitions i.status) ≡ true
    → InstallmentKept i (moved_installment i new_status paid_amount now)
installment_moved-Kept i new_status paid_amount now allowed =
    if_intro (λ (j : Installment). InstallmentKept i j) (new_status == InstallmentStatus.paid)
      (λ pays. record {
        path = Follows-one allowed;
        order = refl;
        sequence = refl;
        expected_amount = refl;
        currency = refl;
        due_date = refl;
        paid = λ p. absurd (paid_stuck i new_status allowed p);
      })
      (λ moves. record {
        path = Follows-one allowed;
        order = refl;
        sequence = refl;
        expected_amount = refl;
        currency = refl;
        due_date = refl;
        paid = λ p. absurd (paid_stuck i new_status allowed p);
      })

module _ (k : ℕ) (s : Db) where
  pub History-set_order :
      (o p : Order)
      → get k s.orders ≡ some o
      → OrderKept o p
      → History s (record s { orders = set k p s.orders })
  History-set_order o p h kept = record {
    orders = Evolves-set OrderKept-refl k o p s.orders h kept;
    installments = (History-refl s).installments;
    attempts = (History-refl s).attempts;
  }

  pub History-set_installment :
      (i j : Installment)
      → get k s.installments ≡ some i
      → InstallmentKept i j
      → History s (record s { installments = set k j s.installments })
  History-set_installment i j h kept = record {
    orders = (History-refl s).orders;
    installments = Evolves-set InstallmentKept-refl k i j s.installments h kept;
    attempts = (History-refl s).attempts;
  }

  pub History-set_attempt :
      (a b : PaymentAttempt)
      → get k s.attempts ≡ some a
      → AttemptKept a b
      → History s (record s { attempts = set k b s.attempts })
  History-set_attempt a b h kept = record {
    orders = (History-refl s).orders;
    installments = (History-refl s).installments;
    attempts = Evolves-set AttemptKept-refl k a b s.attempts h kept;
  }

  order_outcome-History :
      (new_status : OrderStatus) (o : Option Order)
      → get k s.orders ≡ o
      → History s (order_outcome k new_status o s).1
  order_outcome-History new_status none h = History-refl s
  order_outcome-History new_status (some o) h =
      let row : Order = record o { status = new_status; updated_at = s.clock } in
      if_intro (λ (r : Result Order × Db). History s r.1) (new_status == o.status)
        (λ same. History-refl s)
        λ other.
          if_intro (λ (r : Result Order × Db). History s r.1)
            (elem new_status (order_transitions o.status))
            (λ allowed. History-set_order o row h (record {
              path = Follows-one allowed;
              customer = refl;
              plan = refl;
              course = refl;
              idempotency_key = refl;
              terms = refl;
              created_at = refl;
            }))
            (λ refused. History-refl s)

  installment_outcome-History :
      (new_status : InstallmentStatus) (paid_amount : Option ℕ) (i : Option Installment)
      → get k s.installments ≡ i
      → History s (installment_outcome k new_status paid_amount i s).1
  installment_outcome-History new_status paid_amount none h = History-refl s
  installment_outcome-History new_status paid_amount (some i) h =
      let row : Installment = moved_installment i new_status paid_amount s.clock in
      if_intro (λ (r : Result Installment × Db). History s r.1) (new_status == i.status)
        (λ same. History-refl s)
        λ other.
          if_intro (λ (r : Result Installment × Db). History s r.1)
            (elem new_status (installment_transitions i.status))
            (λ allowed.
              History-set_installment i row h
                (installment_moved-Kept i new_status paid_amount s.clock allowed))
            (λ refused. History-refl s)

  attempt_outcome-History :
      (new_status : AttemptStatus) (raw message : String) (a : Option PaymentAttempt)
      → get k s.attempts ≡ a
      → History s (attempt_outcome k new_status raw message a s).1
  attempt_outcome-History new_status raw message none h = History-refl s
  attempt_outcome-History new_status raw message (some a) h =
      let moved : PaymentAttempt = moved_attempt a new_status raw message s.clock in
      let row : PaymentAttempt = record moved { updated_at = s.clock } in
      if_intro (λ (r : Result PaymentAttempt × Db). History s r.1) (new_status == a.status)
        (λ same. History-refl s)
        λ other.
          if_intro (λ (r : Result PaymentAttempt × Db). History s r.1)
            (elem new_status (attempt_transitions a.status))
            (λ allowed.
              if_intro (λ (r : Result PaymentAttempt × Db). History s r.1)
                (exists (conflicts k moved) s.attempts) (λ clash. History-refl s)
                (λ clear. History-set_attempt a row h (record {
                  path = Follows-one allowed;
                  installment = refl;
                  tara_product_id = refl;
                  expected_amount = refl;
                  currency = refl;
                  payment_id = λ p e. e;
                })))
            (λ refused. History-refl s)

  -- An attempt that is saved in place of the row `a`.
  pub save_attempt-History :
      (a b : PaymentAttempt)
      → get k s.attempts ≡ some a
      → AttemptKept a (record b { updated_at = s.clock })
      → History s (save_attempt k b s).1
  unfolding save_attempt
  save_attempt-History a b h kept =
      if_intro (λ (r : Result PaymentAttempt × Db). History s r.1)
        (exists (conflicts k b) s.attempts) (λ clash. History-refl s)
        (λ clear. History-set_attempt a (record b { updated_at = s.clock }) h kept)

module _ {s₀ : Db} where
  pub order_transition-History :
      (k : ℕ) (new_status : OrderStatus) → Preserves (History s₀) (order_transition k new_status)
  order_transition-History k new_status =
      Preserves-History (order_transition k new_status)
        (λ s.
          rw order_transition-outcome (order_outcome-History k s new_status (get k s.orders) refl))
        s₀

  pub installment_transition-History :
      (k : ℕ) (new_status : InstallmentStatus) (paid_amount : Option ℕ)
      → Preserves (History s₀) (installment_transition k new_status paid_amount)
  installment_transition-History k new_status paid_amount =
      Preserves-History (installment_transition k new_status paid_amount)
        (λ s.
          rw installment_transition-outcome
            (installment_outcome-History k s new_status paid_amount (get k s.installments) refl))
        s₀

  pub attempt_transition-History :
      (k : ℕ) (new_status : AttemptStatus) (raw message : String)
      → Preserves (History s₀) (attempt_transition k new_status raw message)
  attempt_transition-History k new_status raw message =
      Preserves-History (attempt_transition k new_status raw message)
        (λ s.
          rw attempt_transition-outcome
            (attempt_outcome-History k s new_status raw message (get k s.attempts) refl))
        s₀

-- A write to the other tables keeps the history.
pub History-frame :
    (s t u : Db)
    → u.orders ≡ t.orders
    → u.installments ≡ t.installments
    → u.attempts ≡ t.attempts
    → History s t
    → History s u
History-frame s t u o i a h = record {
  orders = rw o h.orders;
  installments = rw i h.installments;
  attempts = rw a h.attempts;
}

module _ {s₀ : Db} where
  pub write_events-History :
      (f : Db → Table TaraWebhookEvent) → Preserves (History s₀) (write_events f)
  unfolding write_events
  write_events-History f = record {
    after = λ s h. History-frame s₀ s (write_events f s).1 refl refl refl h;
  }

  pub write_confirmations-History :
      (f : Db → Table PaymentConfirmation) → Preserves (History s₀) (write_confirmations f)
  unfolding write_confirmations
  write_confirmations-History f = record {
    after = λ s h. History-frame s₀ s (write_confirmations f s).1 refl refl refl h;
  }

  pub write_requests-History :
      (f : Db → Table ProvisioningRequest) → Preserves (History s₀) (write_requests f)
  unfolding write_requests
  write_requests-History f = record {
    after = λ s h. History-frame s₀ s (write_requests f s).1 refl refl refl h;
  }

  pub on_commit-History : (job : ℕ × Option ℕ) → Preserves (History s₀) (on_commit job)
  unfolding on_commit
  on_commit-History job = record {
    after = λ s h. History-frame s₀ s (on_commit job s).1 refl refl refl h;
  }

  pub write_provisioning_attempts-History :
      (f : Db → Table ProvisioningAttempt) → Preserves (History s₀) (write_provisioning_attempts f)
  unfolding write_provisioning_attempts
  write_provisioning_attempts-History f = record {
    after = λ s h. History-frame s₀ s (write_provisioning_attempts f s).1 refl refl refl h;
  }

  pub write_enrollments-History :
      (f : Db → Table EnrollmentAttempt) → Preserves (History s₀) (write_enrollments f)
  unfolding write_enrollments
  write_enrollments-History f = record {
    after = λ s h. History-frame s₀ s (write_enrollments f s).1 refl refl refl h;
  }

  pub write_contacts-History : (f : Db → Table Contact) → Preserves (History s₀) (write_contacts f)
  unfolding write_contacts
  write_contacts-History f = record {
    after = λ s h. History-frame s₀ s (write_contacts f s).1 refl refl refl h;
  }

  pub write_audits-History :
      (f : Db → Table AdminAuditLog) → Preserves (History s₀) (write_audits f)
  unfolding write_audits
  write_audits-History f = record {
    after = λ s h. History-frame s₀ s (write_audits f s).1 refl refl refl h;
  }

  pub write_reminders-History :
      (f : Db → Table InstallmentReminder) → Preserves (History s₀) (write_reminders f)
  unfolding write_reminders
  write_reminders-History f = record {
    after = λ s h. History-frame s₀ s (write_reminders f s).1 refl refl refl h;
  }

  pub write_runs-History :
      (f : Db → Table ReconciliationRun) → Preserves (History s₀) (write_runs f)
  unfolding write_runs
  write_runs-History f = record {
    after = λ s h. History-frame s₀ s (write_runs f s).1 refl refl refl h;
  }

  pub sleep-History : (n : ℕ) → Preserves (History s₀) (sleep n)
  unfolding sleep
  sleep-History n = record { after = λ s h. History-frame s₀ s (sleep n s).1 refl refl refl h }

pub ruleset history_rules = (
  preserves_rules, order_transition-History, installment_transition-History,
  attempt_transition-History, write_events-History, write_confirmations-History,
  write_requests-History, on_commit-History, write_provisioning_attempts-History,
  write_enrollments-History, write_contacts-History, write_audits-History, write_reminders-History,
  write_runs-History, sleep-History,
)
