-- ===== src/Lib.antt =====
-- ValueCRM sells courses by payment plans: a customer's order has installments, each installment
-- is paid through attempts at the payment provider Tara, and a verified payment gives access to
-- the course at ClickFunnels. This library models the services of apps/payments, apps/provisioning
-- and apps/enrollments on a model of the database: what customers, Tara, the staff and the hourly
-- run do to payments and to the access that they pay for.
--
-- The parts and their files:
--   Base            names, numbers, options, lists and equality tests that all modules share
--   Table           a database table: rows under keys, newest first; Table/Evolves: how one changes
--   Model           the rows of apps/payments/models.py, apps/contacts/models.py and
--                   apps/courses/models.py; Model/Status: statuses; Model/Enrollment: the rows of
--                   apps/provisioning/models.py and apps/enrollments/models.py; Model/Audit:
--                   AdminAuditLog; Model/Jobs: InstallmentReminder and ReconciliationRun
--   Exec            a service call: state passing with exceptions, transaction.atomic and except;
--                   Exec/Preserves: the rules by which a call keeps a property on every path;
--                   Exec/Total: those by which a call always returns
--   Settings, Tara  settings, calendar and hashing; the answers of integrations/payments/tara
--   Transitions     OrderService.transition, InstallmentService.transition and
--                   PaymentAttemptService.transition with their tables and the constraints on attempts
--   Orders          OrderService.create_order and _create_installments
--   Checkout        CheckoutService: from an order to a payment attempt and its link;
--                   Checkout/Guests: resolve_guest_contact and request_status_refresh;
--                   Checkout/Tokens: the signed references of orders
--   Followups       PaymentConfirmationService.create_confirmation, and create_request_from_order of
--                   apps/provisioning/services.py
--   Credit          PaymentCreditService: apply_verified_success and apply_verified_failure
--   Verification    TaraVerificationService: candidate payment ids and verify
--   Webhook         WebhookProcessingService: the event records and resolve_reported_events;
--                   Webhook/Process: process_webhook and _verify_and_apply
--   Delivery        PaymentConfirmationDeliveryService: claims, retries and manual review
--   Expiry          OrderExpiryService: which unpaid orders expire, and how
--   ClickFunnels    what the services rely on of integrations/clickfunnels/client.py
--   Contacts        ContactService.get_or_create_remote_contact of apps/contacts/services.py
--   Enrollments     EnrollmentService of apps/enrollments/services.py
--   Provisioning    ProvisioningService of apps/provisioning/services.py: claims, the retry loop of
--                   _enroll_with_retry, execute, process_pending; Provisioning/Staff: approve,
--                   cancel, retry_request
--   Audit           AdminAuditService.record of apps/payments/admin_services.py
--   Administration  the staff actions of that file: Orders (cancel_order, apply_manual_disposition),
--                   Installments (cancel_installment, waive_installment), Attempts
--                   (check_tara_status), Events (attribute_webhook_event, retry_confirmation),
--                   Access (freezing and resuming enrollments), Labels (the texts of statuses);
--                   Audited: what markings and refused actions write
--   Collection      InstallmentCollectionService: due and late marks, reminders, suspension for
--                   non-payment and its lifting
--   Reconciliation  ReconciliationService of apps/payments/reconciliation_services.py: the check of
--                   stale attempts; Reconciliation/Repair: the follow-up jobs and their repair;
--                   Reconciliation/Run: the run, its steps and its record
--   Sequences       run_payment_followups, the modelled entry points and edits of contacts, courses and
--                   plans as operations, and their sequences
--   History         what no call may do to orders, installments and attempts, and that none does
--   Tests           a small database, runs of the model and the theorems applied there
--
-- How the parts interact: checkout creates an order and asks Tara for a link under an attempt;
-- Tara's webhook triggers a verification of that attempt, server to server; a verified success is
-- credited by Credit, which moves the attempt, its installment and its order along the tables of
-- Transitions and creates the follow-ups in the same transaction. After the commit, and again in
-- the hourly run of Reconciliation, Provisioning enrolls the customer at ClickFunnels and Delivery
-- sends the mail. Collection suspends the access of a customer who does not pay through
-- Administration/Access, and takes that back when a payment settles the order; Credit's callers
-- trigger this too. Staff actions use the same transitions and credit, and write their audit row
-- in the same transaction.
--
-- How code becomes a definition: a method is a function of the same name, private methods without
-- their underscore. `Exec A` takes the database to a result and a database: what was written
-- before an exception stays, unless an enclosing transaction takes it back. A row is read under
-- its lock, and concurrent calls are calls one after the other. One call happens at one instant,
-- the `clock` of the database, which the pauses between retries and the time between calls move
-- on. Amounts are numbers of hundredths, instants seconds and dates days; they are numbers without
-- bound, as the program's integers and decimals are for the amounts that the columns hold. A
-- query's `first` is by descending key where the code orders by descending creation time. Two
-- loops have a bound: `while True` of _enroll_with_retry runs on fuel of
-- PROVISIONING_MAX_INLINE_RETRIES + 1 rounds, which is enough since each round but the last uses
-- up one retry, and the transaction pull runs over RECONCILIATION_TRANSACTION_LIST_MAX_PAGES
-- pages, as in the code. Every other loop runs over a list. The thread of run_payment_followups is
-- a later operation.
--
-- Parameters, since their code is not the repository's: the answers of Tara and of ClickFunnels,
-- the Postgres advisory lock, Django's `urlsplit` view of an address, Django's `signing`, JSON and
-- pydantic decoding, `hashlib`, the cipher of stored credentials (decrypt_value of
-- shared/security.py, which may raise), the test for ASCII texts, the calendar of the business time zone, Unicode upper case. A
-- theorem holds for every choice of them, or names what it relies on.
--
-- Not modelled: logging, messages for people, the addresses around signed references, e-mail
-- rendering, the HTTP requests and pydantic decoding of the clients, the dry run of the collection
-- (it lists texts), the staff alerts and pages of apps/operations, apps/configuration, the
-- synchronisation of courses, and the columns that no modelled service reads.
pub mod Base
pub mod Table
pub mod Model
pub mod Exec
pub mod Transitions
pub mod History
pub mod Settings
pub mod Followups
pub mod Credit
pub mod Tara
pub mod Verification
pub mod Webhook
pub mod Orders
pub mod Checkout
pub mod Delivery
pub mod Expiry
pub mod ClickFunnels
pub mod Contacts
pub mod Enrollments
pub mod Provisioning
pub mod Audit
pub mod Administration
pub mod Collection
pub mod Reconciliation
pub mod Sequences
pub mod Tests
