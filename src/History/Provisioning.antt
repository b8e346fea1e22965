-- ===== src/History/Provisioning.antt =====
-- Provisioning and enrollments keep the history of orders, installments and attempts.
use valuecrm.Base.{ℕ, Bool, String, Option, none, some, zero, suc, leb}
use valuecrm.Model.{Db, Contact}
use valuecrm.Model.Enrollment.{EnrollmentAttempt, ProvisioningRequest}
use valuecrm.Exec.{Exec, Error, Result, ok, err}
use valuecrm.Exec.Preserves.{
  Preserves, Preserves-attempt, Preserves-bind, Preserves-pure, Preserves-if, Preserves-or_raise,
}
use valuecrm.ClickFunnels.{Provider, ClickFunnelsClient, RemoteContact}
use valuecrm.Contacts.{save_contact, get_or_create_remote_contact}
use valuecrm.Enrollments.{
  EnrollmentResultDto, insert_enrollment, enroll_remotely, record_failure, record_answer,
  enroll_found, enroll_contact, set_enrollment_suspension,
}
use valuecrm.Provisioning.{
  max_inline_retries, Tried, Verdict, finished, retry, judge, next_round, enroll_loop,
  enroll_with_retry, enrollment_call, update_request, claim, record_try, enroll_new, enroll_course,
  perform, execute, process_pending,
}
use valuecrm.History.{History}
use valuecrm.History.Writes.{history_rules, sleep-History}

module _ {s₀ : Db} where
  save_contact-History :
      (c : Option (ℕ × Contact)) (email : String) (dto : RemoteContact)
      → Preserves (History s₀) (save_contact c email dto)
  unfolding save_contact
  save_contact-History none email dto = search history_rules
  save_contact-History (some (k, c)) email dto = search history_rules

  remote-History :
      (client : ClickFunnelsClient) (subdomain : String) (workspace_id : ℕ) (email : String)
      → Preserves (History s₀) (get_or_create_remote_contact client subdomain workspace_id email)
  unfolding get_or_create_remote_contact
  remote-History client subdomain workspace_id email =
      search (history_rules, save_contact-History) depth 12

  insert_enrollment-History :
      (row : EnrollmentAttempt) → Preserves (History s₀) (insert_enrollment row)
  unfolding insert_enrollment
  insert_enrollment-History row = search history_rules depth 12

  pub suspension-History :
      (provider : Provider) (subdomain id : String) (suspended : Bool) (reason : String)
      → Preserves (History s₀) (set_enrollment_suspension provider subdomain id suspended reason)
  unfolding set_enrollment_suspension
  suspension-History provider subdomain id suspended reason = search history_rules depth 12

module _ (provider : Provider) (subdomain : String) (workspace_id : ℕ) {s₀ : Db} where
  remotely-History :
      (c : Contact) (cf_course_id : String)
      → Preserves (History s₀) (enroll_remotely provider subdomain workspace_id c cf_course_id)
  unfolding enroll_remotely
  remotely-History c cf_course_id = search history_rules depth 12

  record_failure-History :
      (contact : Option ℕ) (course : ℕ) (email cf_course_id : String) (e : Error)
      → Preserves
          (History s₀)
          (record_failure provider subdomain workspace_id contact course email cf_course_id e)
  unfolding record_failure
  record_failure-History contact course email cf_course_id e =
      search (history_rules, insert_enrollment-History) depth 12

  record_answer-History :
      (contact course : ℕ) (email cf_course_id : String) (r : Result String)
      → Preserves
          (History s₀)
          (record_answer provider subdomain workspace_id contact course email cf_course_id r)
  unfolding record_answer
  record_answer-History contact course email cf_course_id (ok id) =
      search (history_rules, insert_enrollment-History) depth 12
  record_answer-History contact course email cf_course_id (err e) =
      record_failure-History (some contact) course email cf_course_id e

  enroll_found-History :
      (course : ℕ) (email cf_course_id : String) (r : Result (ℕ × Contact))
      → Preserves
          (History s₀)
          (enroll_found provider subdomain workspace_id course email cf_course_id r)
  unfolding enroll_found
  enroll_found-History course email cf_course_id (ok (contact, row)) =
      search (history_rules, remotely-History, record_answer-History) depth 12
  enroll_found-History course email cf_course_id (err e) =
      search (history_rules, record_failure-History) depth 12

  pub enroll_contact-History :
      (email cf_course_id : String)
      → Preserves (History s₀) (enroll_contact provider subdomain workspace_id email cf_course_id)
  unfolding enroll_contact
  enroll_contact-History email cf_course_id =
      search (history_rules, remote-History, enroll_found-History) depth 14

module _ (provider : Provider) {s₀ : Db} where
  next_round-History :
      (v : Verdict) (attempts : ℕ) (again : Exec (Option Tried))
      → Preserves (History s₀) again
      → Preserves (History s₀) (next_round v attempts again)
  unfolding next_round
  next_round-History (finished t) attempts again k = search history_rules
  next_round-History (retry error) attempts again k =
      Preserves-if (leb max_inline_retries attempts) _ _ (Preserves-pure _) (
        Preserves-bind _ _ (Preserves-or_raise _ _)
          (λ pause. Preserves-bind _ _ (sleep-History pause) (λ _. k)))

  loop-History :
      (call : Exec EnrollmentResultDto) (fuel attempts : ℕ)
      → Preserves (History s₀) call
      → Preserves (History s₀) (enroll_loop provider call fuel attempts)
  unfolding enroll_loop
  loop-History call zero attempts k = search history_rules
  loop-History call (suc fuel) attempts k = Preserves-bind _ _ (Preserves-attempt call k) (λ answer.
      next_round-History (judge provider answer) attempts _
        (loop-History call fuel (suc attempts) k))

  call-History :
      (subdomain workspace_id email cf_course_id : String)
      → Preserves (History s₀) (
          enroll_with_retry provider
            (enrollment_call provider subdomain workspace_id email cf_course_id))
  unfolding enroll_with_retry enrollment_call
  call-History subdomain workspace_id email cf_course_id =
      loop-History _ 3 0 (search (history_rules, enroll_contact-History) depth 12)

  update_request-History :
      (k : ℕ) (f : ProvisioningRequest → ProvisioningRequest)
      → Preserves (History s₀) (update_request k f)
  unfolding update_request
  update_request-History k f = search history_rules depth 12

  record_try-History :
      (k course : ℕ) (t : Option Tried) → Preserves (History s₀) (record_try k course t)
  unfolding record_try
  record_try-History k course t = search (history_rules, update_request-History) depth 12

  enroll_new-History :
      (k : ℕ) (r : ProvisioningRequest) (b : String × String) (email id : String)
      → Preserves (History s₀) (enroll_new provider k r b email id)
  unfolding enroll_new
  enroll_new-History k r (subdomain, workspace_id) email id =
      search (history_rules, call-History, record_try-History) depth 12

  enroll_course-History :
      (k : ℕ) (r : ProvisioningRequest) (b : String × String) (email id : String)
      → Preserves (History s₀) (enroll_course provider k r b email id)
  unfolding enroll_course
  enroll_course-History k r b email id =
      search (history_rules, update_request-History, enroll_new-History) depth 12

  perform-History :
      (k : ℕ) (r : ProvisioningRequest) → Preserves (History s₀) (perform provider k r)
  unfolding perform
  perform-History k r =
      search (history_rules, update_request-History, enroll_course-History) depth 16

  claim-History : (k : ℕ) → Preserves (History s₀) (claim k)
  unfolding claim
  claim-History k = search history_rules depth 14

  -- Executing a provisioning request loses no order, installment or payment attempt, and changes
  -- none of them but along its path, whatever ClickFunnels answers.
  pub execute-History : (k : ℕ) → Preserves (History s₀) (execute provider k)
  unfolding execute
  execute-History k = search (history_rules, claim-History, perform-History) depth 12

  pub process_pending-History :
      (limit : ℕ) → Preserves (History s₀) (process_pending provider limit)
  unfolding process_pending
  process_pending-History limit = search (history_rules, execute-History) depth 12
