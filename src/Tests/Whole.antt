-- ===== src/Tests/Whole.antt =====
-- Tests of provisioning, collection, reconciliation and of sequences of operations.
use valuecrm.Base.{List, ◌≡◌, refl, arith, true, false, [], ◌∷◌, length}
use valuecrm.Followups.{is_access_eligible}
use valuecrm.Table.{exists, get, set, add}
use valuecrm.Model.Status.{OrderStatus, AttemptStatus, RequestStatus}
use valuecrm.Model.Audit.{OutcomeCategory}
use valuecrm.Exec.{sleep, ok}
use valuecrm.Enrollments.{enroll_contact}
use valuecrm.Enrollments.Answered.{Answered, told, enroll_contact-Answered}
use valuecrm.Provisioning.{enroll_with_retry, enrollment_call, execute, process_pending}
use valuecrm.Provisioning.Retry.{Counts, Ends, enroll_with_retry-Ends}
use valuecrm.Provisioning.Once.{Once, enroll_with_retry-Once}
use valuecrm.Provisioning.Execution.{Executed, execute-Executed, Requests, process_pending-Requests}
use valuecrm.Provisioning.Staff.{retry_request, retry_entry, reset, retry_request-audited}
use valuecrm.Collection.{resume_if_settled, send_reminders}
use valuecrm.Collection.Resume.{Blocked, resume_if_settled-guarded}
use valuecrm.Collection.Reminders.{Later, reminders-Later}
use valuecrm.Reconciliation.Run.{run}
use valuecrm.Reconciliation.Run.Definitive.{Ended, run-Ended}
use valuecrm.Sequences.{World, Operation, after}
use valuecrm.Sequences.Kept.{after-History}
use valuecrm.History.{History}
use valuecrm.Tests.Data.{env, shop_db, order}
use valuecrm.Tests.Jobs.{
  provider, open_client, closed_client, request, course_db, collector, worker, world,
  world_answering, actor, due_db, manual_db, limited,
}

enroll_contact-Answered_example :
    Answered
      (told (provider open_client) "shop" 5 "a@b.c" "cf" (course_db RequestStatus.pending)).0
      (course_db RequestStatus.pending)
      (enroll_contact
        (provider open_client)
        "shop"
        5
        "a@b.c"
        "cf"
        (course_db RequestStatus.pending))
enroll_contact-Answered_example =
    enroll_contact-Answered (provider open_client) "shop" 5 (course_db RequestStatus.pending)
      "a@b.c" "cf"

enroll_with_retry-Once_example : Once (course_db RequestStatus.pending) (
    enroll_with_retry
      (provider closed_client)
      (enrollment_call (provider closed_client) "shop" "5" "a@b.c" "cf")
      (course_db RequestStatus.pending))
enroll_with_retry-Once_example =
    enroll_with_retry-Once (provider closed_client) "5" (course_db RequestStatus.pending) "shop"
      "a@b.c" "cf"

execute-Executed_example :
    Executed
      (provider open_client)
      1
      (request RequestStatus.pending)
      (course_db RequestStatus.pending)
      (execute (provider open_client) 1 (course_db RequestStatus.pending))
unfolding get
execute-Executed_example =
    execute-Executed (provider open_client) 1 (request RequestStatus.pending)
      (course_db RequestStatus.pending) refl

process_pending-Requests_example :
    Requests
      (course_db RequestStatus.failed)
      (process_pending (provider closed_client) 10 (course_db RequestStatus.failed)).1
process_pending-Requests_example =
    process_pending-Requests (provider closed_client) 10 (course_db RequestStatus.failed)

resume_if_settled-guarded_example :
    resume_if_settled collector 1 50 manual_db ≡ (ok false, manual_db)
unfolding get
resume_if_settled-guarded_example =
    resume_if_settled-guarded collector 1 50 manual_db
      (Blocked.manual (record order { status = OrderStatus.suspended }) refl refl)

limited-Counts : Counts (λ s. length s.enrollments) limited
unfolding add sleep
limited-Counts = record { one = λ s. omega arith; asleep = λ s n. refl }

enroll_with_retry-Ends_example :
    Ends
      (λ s. length s.enrollments)
      (enroll_with_retry (provider open_client) limited)
      (course_db RequestStatus.pending)
      3
enroll_with_retry-Ends_example =
    enroll_with_retry-Ends (λ s. length s.enrollments) (provider open_client) limited limited-Counts
      (course_db RequestStatus.pending)

retry_request-audited_example : retry_request env 1 actor (course_db RequestStatus.failed) ≡ (
  ok tt,
  record (course_db RequestStatus.failed) {
    requests =
        set 1 (reset (request RequestStatus.failed)) (course_db RequestStatus.failed).requests;
    audits =
        add
          (retry_entry env 1
            (request RequestStatus.failed)
            actor
            RequestStatus.pending
            OutcomeCategory.success)
          [];
  },
)
unfolding get exists is_access_eligible
retry_request-audited_example =
    retry_request-audited env 1 actor (course_db RequestStatus.failed)
      {r = request RequestStatus.failed} {o = order} refl refl

reminders-Later_example : Later due_db (send_reminders collector 50 due_db).1
reminders-Later_example = reminders-Later collector 50 due_db tt

run-Ended_example :
    Ended worker true
      (shop_db AttemptStatus.pending)
      (run worker true (shop_db AttemptStatus.pending))
run-Ended_example = run-Ended worker true (shop_db AttemptStatus.pending)

abbrev one_day : List (World × Operation)
one_day =
    (world, Operation.webhook "paid")
    ∷ (world, Operation.wait 3600)
    ∷ (world_answering "PENDING", Operation.reconcile true)
    ∷ (world, Operation.enroll "shop" 5 "a@b.c" "cf")
    ∷ (world, Operation.staff_cancel_order 1 actor)
    ∷ []

after-History_example :
    History
      (shop_db AttemptStatus.link_created)
      (after one_day (shop_db AttemptStatus.link_created))
after-History_example = after-History one_day (shop_db AttemptStatus.link_created)
