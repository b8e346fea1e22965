-- ===== src/Enrollments/Answered.antt =====
-- What an enrollment answers: what it can raise, and that a success has its record.
use valuecrm.Base.{
  ℕ, suc, ◌≤◌, ◌≡◌, refl, arith, String, Option, none, some, length, Option-cases, inl, inr, nat_eq,
  string_eq, ◌==◌, true, ap, ◌∙◌, Bool-cases, ◌⊎◌,
}
use valuecrm.Table.{Table, get, add, fresh, get-add, select, first}
use valuecrm.Model.{Db, Contact, Course}
use valuecrm.Model.Enrollment.{EnrollmentAttempt, EnrollmentStatus}
use valuecrm.Exec.{
  Exec, Error, Result, ok, err, integrity, attempt, maybe, write_contacts, write_enrollments, ◌>>=◌,
}
use valuecrm.Exec.Laws.{bind-ok, bind-err}
use valuecrm.Exec.Preserves.{Preserves, preserves_rules}
use valuecrm.ClickFunnels.{Provider, ClickFunnelsClient, RemoteContact}
use valuecrm.Contacts.{get_or_create_remote_contact, save_contact}
use valuecrm.Enrollments.{
  EnrollmentResultDto, lacks_body, enroll_contact, enroll_found, enroll_remotely, record_answer,
  record_failure, insert_enrollment, new_enrollment,
}

-- Only contacts may have changed, of what an enrollment is about.
pub record Untouched (s t : Db) : Type 0 where
  pub enrollments : t.enrollments ≡ s.enrollments
  pub requests : t.requests ≡ s.requests
  pub provisioning_attempts : t.provisioning_attempts ≡ s.provisioning_attempts
  pub clock : t.clock ≡ s.clock

Untouched-refl : (s : Db) → Untouched s s
Untouched-refl s = record {
  enrollments = refl;
  requests = refl;
  provisioning_attempts = refl;
  clock = refl;
}

module _ {s₀ : Db} where
  write_contacts-Untouched : (f : Db → Table Contact) → Preserves (Untouched s₀) (write_contacts f)
  unfolding write_contacts
  write_contacts-Untouched f = record {
    after = λ s h. record {
      enrollments = h.enrollments;
      requests = h.requests;
      provisioning_attempts = h.provisioning_attempts;
      clock = h.clock;
    };
  }

  save_contact-Untouched :
      (c : Option (ℕ × Contact)) (email : String) (dto : RemoteContact)
      → Preserves (Untouched s₀) (save_contact c email dto)
  unfolding save_contact
  save_contact-Untouched none email dto = search (preserves_rules, write_contacts-Untouched)
  save_contact-Untouched (some (k, c)) email dto =
      search (preserves_rules, write_contacts-Untouched)

  remote-Untouched :
      (client : ClickFunnelsClient) (subdomain : String) (workspace_id : ℕ) (email : String)
      → Preserves (Untouched s₀) (get_or_create_remote_contact client subdomain workspace_id email)
  unfolding get_or_create_remote_contact
  remote-Untouched client subdomain workspace_id email =
      search (preserves_rules, save_contact-Untouched) depth 12

  enroll_remotely-Untouched :
      (provider : Provider) (subdomain : String) (workspace_id : ℕ) (c : Contact)
      (cf_course_id : String)
      → Preserves (Untouched s₀) (enroll_remotely provider subdomain workspace_id c cf_course_id)
  unfolding enroll_remotely
  enroll_remotely-Untouched provider subdomain workspace_id c cf_course_id =
      search preserves_rules depth 12

-- The calls of ClickFunnels that an enrollment makes: for the contact, and for the course.
abbrev pub told : Provider → String → ℕ → String → String → Exec String
told provider subdomain workspace_id email cf_course_id = do
  contact ← get_or_create_remote_contact provider.client subdomain workspace_id email
  enroll_remotely provider subdomain workspace_id contact.1 cf_course_id

-- A result that says success names an enrollment attempt that is recorded as a success.
abbrev pub Recorded : EnrollmentStatus → Option ℕ → Db → Type 0
Recorded status id t =
    status ≡ EnrollmentStatus.success
    → (k : ℕ) × (e : EnrollmentAttempt) × (id ≡ some k)
      × (get k t.enrollments ≡ some e)
      × (e.status ≡ EnrollmentStatus.success)

-- What an enrollment leaves when it starts from `s` and its calls of ClickFunnels come to `r`: it
-- wrote at most one enrollment, and answers, or raises an integrity error, with no enrollment
-- written, because those calls raised an error without a response body.
pub record Answered (r : Result String) (s : Db) (p : Result EnrollmentResultDto × Db)
    : Type 0 where
  pub answer :
      ((dto : EnrollmentResultDto) × (p.0 ≡ ok dto)
        × Recorded dto.status dto.enrollment_attempt_id p.1)
      ⊎ ((e : Error) × (r ≡ err e)
          × (lacks_body e ≡ true)
          × (p.0 ≡ err integrity)
          × (p.1.enrollments ≡ s.enrollments))
  pub one : length p.1.enrollments ≤ suc (length s.enrollments)
  pub requests : p.1.requests ≡ s.requests
  pub provisioning_attempts : p.1.provisioning_attempts ≡ s.provisioning_attempts
  pub clock : p.1.clock ≡ s.clock

module _ (provider : Provider) (subdomain : String) (workspace_id : ℕ) (r : Result String)
    (s : Db) where
  failure-Answered :
      (contact : Option ℕ) (course : ℕ) (email cf_course_id : String) (e : Error) (u : Db)
      → r ≡ err e
      → Untouched s u
      → Answered r s
          (record_failure provider subdomain workspace_id contact course email cf_course_id e u)
  unfolding record_failure insert_enrollment write_enrollments maybe ◌>>=◌ add
  failure-Answered none course email cf_course_id e u cause h = record {
    answer = inl (_, refl, λ q. absurd cc);
    one = ground (arith, h.enrollments);
    requests = h.requests;
    provisioning_attempts = h.provisioning_attempts;
    clock = h.clock;
  }
  failure-Answered (some key) course email cf_course_id e u cause h =
      elim (Bool-cases (lacks_body e)) [
        | inl without ↦ rw without (record {
          answer = inr (e, cause, without, refl, h.enrollments);
          one = ground (arith, h.enrollments);
          requests = h.requests;
          provisioning_attempts = h.provisioning_attempts;
          clock = h.clock;
        })
        | inr there ↦ rw there (record {
          answer = inl (_, refl, λ q. absurd cc);
          one = ground (arith, h.enrollments);
          requests = h.requests;
          provisioning_attempts = h.provisioning_attempts;
          clock = h.clock;
        })
      ]

  answer-Answered :
      (contact course : ℕ) (email cf_course_id : String) (a : Result String) (u : Db)
      → r ≡ a
      → Untouched s u
      → Answered r s
          (record_answer provider subdomain workspace_id contact course email cf_course_id a u)
  unfolding record_answer insert_enrollment write_enrollments ◌>>=◌ add
  answer-Answered contact course email cf_course_id (ok id) u cause h =
      let row = new_enrollment contact course EnrollmentStatus.success (some id) "" in
      record {
        answer = inl (
          _,
          refl,
          λ q. (
            fresh u.enrollments,
            row,
            refl,
            ground (arith, get-add (fresh u.enrollments) row u.enrollments),
            refl,
          ),
        );
        one = ground (arith, h.enrollments);
        requests = h.requests;
        provisioning_attempts = h.provisioning_attempts;
        clock = h.clock;
      }
  answer-Answered contact course email cf_course_id (err e) u cause h =
      failure-Answered (some contact) course email cf_course_id e u cause h

  found-Answered :
      (course : ℕ) (email cf_course_id : String) (a : Result (ℕ × Contact)) (u : Db)
      → get_or_create_remote_contact provider.client subdomain workspace_id email s ≡ (a, u)
      → r ≡ (told provider subdomain workspace_id email cf_course_id s).0
      → Untouched s u
      → Answered r s (enroll_found provider subdomain workspace_id course email cf_course_id a u)
  unfolding enroll_found attempt ◌>>=◌
  found-Answered course email cf_course_id (ok (contact, row)) u e cause h =
      let first_call = get_or_create_remote_contact provider.client subdomain workspace_id email in
      let then_call : ℕ × Contact → Exec String =
        λ c. enroll_remotely provider subdomain workspace_id c.1 cf_course_id in
      answer-Answered contact course email cf_course_id _ _
        (cause ∙ ap (λ (p : Result String × Db). p.0) (bind-ok first_call then_call s e))
        ((enroll_remotely-Untouched provider subdomain workspace_id row cf_course_id).after u h)
  found-Answered course email cf_course_id (err x) u e cause h =
      let first_call = get_or_create_remote_contact provider.client subdomain workspace_id email in
      let then_call : ℕ × Contact → Exec String =
        λ c. enroll_remotely provider subdomain workspace_id c.1 cf_course_id in
      failure-Answered _ course email cf_course_id x u
        (cause ∙ ap (λ (p : Result String × Db). p.0) (bind-err first_call then_call s e)) h

-- An enrollment answers with a result, whatever ClickFunnels answers or raises, unless the calls of
-- ClickFunnels that it makes raised an error without a response body: then it may raise an integrity
-- error, with no enrollment written, and it raises nothing else. It has written at most one
-- enrollment attempt, the requests and their attempts are as they were, no time was slept, and a
-- result that says success names an enrollment attempt that is recorded as a success.
pub enroll_contact-Answered :
    (provider : Provider) (subdomain : String) (workspace_id : ℕ) (s : Db)
    (email cf_course_id : String)
    → Answered
        (told provider subdomain workspace_id email cf_course_id s).0
        s
        (enroll_contact provider subdomain workspace_id email cf_course_id s)
unfolding enroll_contact attempt ◌>>=◌ maybe
enroll_contact-Answered provider subdomain workspace_id s email cf_course_id =
    elim (Option-cases
      (first (select (λ j (c : Course). c.cf_course_id == cf_course_id) s.courses))) [
        | inl missing ↦ rw missing (record {
          answer = inl (_, refl, λ q. absurd cc);
          one = omega arith;
          requests = refl;
          provisioning_attempts = refl;
          clock = refl;
        })
        | inr (row, found) ↦ rw found (
            found-Answered provider subdomain workspace_id _ s row.0 email cf_course_id _ _ refl
              refl
              ((remote-Untouched provider.client subdomain workspace_id email).after s
                (Untouched-refl s)))
      ]
