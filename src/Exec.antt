-- ===== src/Exec.antt =====
-- A service call: it reads and writes the database, and returns or raises. What was written before a
-- raise stays written, unless an enclosing `atomic` rolls it back.
pub mod Preserves
pub mod Laws
pub mod Total
use valuecrm.Base.{
  ℕ, suc, ◌+◌, ⊤, Bool, true, false, Option, none, some, List, [], ◌∷◌, if◌then◌else◌,
}
use valuecrm.Table.{Table}
use valuecrm.Model.{Db, Contact, TaraWebhookEvent, PaymentConfirmation}
use valuecrm.Model.Enrollment.{EnrollmentAttempt, ProvisioningRequest, ProvisioningAttempt}
use valuecrm.Model.Audit.{AdminAuditLog}
use valuecrm.Model.Jobs.{InstallmentReminder, ReconciliationRun}

-- integrations/payments/tara/exceptions.py
pub data TaraError : Type 0 where
  configuration credential invalid_request timeout connection api auth client server : TaraError
  malformed business unsupported : TaraError

-- integrations/clickfunnels/exceptions.py; `api_error` carries the HTTP status, where there is one
pub data ClickFunnelsError : Type 0 where
  auth_error rate_limit_error : ClickFunnelsError
  api_error : Option ℕ → ClickFunnelsError

-- The exceptions of apps/payments/services.py, apps/payments/admin_services.py and
-- apps/provisioning/services.py, Django's `IntegrityError` and `DoesNotExist`, Python's `ValueError` and `TypeError`,
-- and those of the two clients.
pub data Error : Type 0 where
  order_creation invalid_transition payment_id_conflict duplicate_payment : Error
  webhook_rejected checkout integrity does_not_exist : Error
  value_error type_error provisioning admin_action : Error
  tara : TaraError → Error
  click_funnels : ClickFunnelsError → Error

pub data Result {ℓ} (A : Type ℓ) : Type ℓ where
  ok : A → Result A
  err : Error → Result A

abbrev pub Exec : Type 0 → Type 0
Exec A = Db → Result A × Db

module _ {A : Type 0} where
  unfoldable pub pure : A → Exec A
  pure a s = (ok a, s)

  unfoldable pub raise : Error → Exec A
  raise e s = (err e, s)

  unfoldable pub gets : (Db → A) → Exec A
  gets f s = (ok (f s), s)

  -- a call that neither reads nor writes the database
  unfoldable pub lift : Result A → Exec A
  lift r s = (r, s)

  unfoldable pub or_raise : Option A → Error → Exec A
  or_raise none e s = (err e, s)
  or_raise (some a) e s = (ok a, s)

  -- `with transaction.atomic():`
  unfoldable pub atomic : Exec A → Exec A
  atomic m s = let (r, s') = m s in elim r [ ok a ↦ (ok a, s') | err e ↦ (err e, s) ]

  -- `try: m` with the handlers `h`, which raises again what no `except` names
  unfoldable pub catch : Exec A → (Error → Exec A) → Exec A
  catch m h s = let (r, s') = m s in elim r [ ok a ↦ (ok a, s') | err e ↦ h e s' ]

unfoldable pub modify : (Db → Db) → Exec ⊤
modify f s = (ok tt, f s)

module _ {A B : Type 0} where
  infixl 10 ◌>>=◌ ◌>>◌
  -- opening this opens the ways to build an action too
  unfoldable pub ◌>>=◌ : Exec A → (A → Exec B) → Exec B
  unfolding pure raise gets lift or_raise modify
  ◌>>=◌ m f s = let (r, s') = m s in elim r [ ok a ↦ f a s' | err e ↦ (err e, s') ]

  abbrev pub ◌>>◌ : Exec A → Exec B → Exec B
  m >> k = m >>= λ _. k

  -- `if o is None: m` else the rest with the value
  unfoldable pub maybe : Option A → Exec B → (A → Exec B) → Exec B
  maybe none m k = m
  maybe (some a) m k = k a

-- `try: m`, keeping an exception as a value for the handlers
unfoldable pub attempt : {A : Type 0} → Exec A → Exec (Result A)
attempt m s = let (r, s') = m s in (ok r, s')

-- `for x in xs: f(x)`
unfoldable pub for_each : {A : Type 0} → List A → (A → Exec ⊤) → Exec ⊤
unfolding ◌>>=◌
for_each [] f = pure tt
for_each (x ∷ xs) f = f x >> for_each xs f

-- The loop that counts the items for which `f` answers yes.
unfoldable pub count_each : {A : Type 0} → List A → (A → Exec Bool) → Exec ℕ
unfolding ◌>>=◌
count_each [] f = pure 0
count_each (x ∷ xs) f = do counted ← f x; n ← count_each xs f; pure (if counted then suc n else n)

-- `if b: m`
unfoldable pub when : Bool → Exec ⊤ → Exec ⊤
when true m = m
when false m = pure tt

-- Writes to one table, by its new contents.
unfoldable pub write_events : (Db → Table TaraWebhookEvent) → Exec ⊤
write_events f s = (ok tt, record s { events = f s })

unfoldable pub write_confirmations : (Db → Table PaymentConfirmation) → Exec ⊤
write_confirmations f s = (ok tt, record s { confirmations = f s })

unfoldable pub write_requests : (Db → Table ProvisioningRequest) → Exec ⊤
write_requests f s = (ok tt, record s { requests = f s })

-- `transaction.on_commit`
unfoldable pub on_commit : ℕ × Option ℕ → Exec ⊤
on_commit job s = (ok tt, record s { followups = job ∷ s.followups })

unfoldable pub write_provisioning_attempts : (Db → Table ProvisioningAttempt) → Exec ⊤
write_provisioning_attempts f s = (ok tt, record s { provisioning_attempts = f s })

unfoldable pub write_enrollments : (Db → Table EnrollmentAttempt) → Exec ⊤
write_enrollments f s = (ok tt, record s { enrollments = f s })

unfoldable pub write_contacts : (Db → Table Contact) → Exec ⊤
write_contacts f s = (ok tt, record s { contacts = f s })

unfoldable pub write_audits : (Db → Table AdminAuditLog) → Exec ⊤
write_audits f s = (ok tt, record s { audits = f s })

unfoldable pub write_reminders : (Db → Table InstallmentReminder) → Exec ⊤
write_reminders f s = (ok tt, record s { reminders = f s })

unfoldable pub write_runs : (Db → Table ReconciliationRun) → Exec ⊤
write_runs f s = (ok tt, record s { runs = f s })

-- `time.sleep`
unfoldable pub sleep : ℕ → Exec ⊤
sleep n s = (ok tt, record s { clock = s.clock + n })
