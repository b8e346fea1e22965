-- ===== src/Provisioning/Once.antt =====
-- The retry loop around the enrollment service of the repository, which turns an exception of
-- ClickFunnels into a result or into another exception.
use valuecrm.Base.{
  suc, ◌≤◌, ◌≡◌, refl, sym, subst, arith, String, Option, some, length, Option-cases, inl, inr, ◌⊎◌,
  string_eq,
}
use valuecrm.Model.{Db}
use valuecrm.Model.Enrollment.{EnrollmentStatus, RequestFailure}
use valuecrm.Exec.{Exec, integrity, Result, ok, err, or_raise, attempt, pure, ◌>>=◌}
use valuecrm.ClickFunnels.{Provider}
use valuecrm.Enrollments.{EnrollmentResultDto}
use valuecrm.Enrollments.Answered.{Answered, Recorded, enroll_contact-Answered}
use valuecrm.Provisioning.{
  Tried, judge, next_round, enroll_loop, enroll_with_retry, enrollment_call,
}

-- What an enrollment for a request leaves: it returned a result, after one call and no pause, that
-- wrote at most one enrollment; a success is recorded; a failure is one of the provider, to be tried
-- again, or one of the configuration, with no enrollment written.
pub record Once (s : Db) (p : Result (Option Tried) × Db) : Type 0 where
  pub tried : Tried
  pub returned : p.0 ≡ ok (some tried)
  pub one : length p.1.enrollments ≤ suc (length s.enrollments)
  pub recorded : Recorded tried.status tried.enrollment_attempt p.1
  pub category :
      tried.status ≡ EnrollmentStatus.failure
      → (tried.category ≡ RequestFailure.transient_provider_error)
        ⊎ (tried.category ≡ RequestFailure.configuration_error) × (p.1.enrollments ≡ s.enrollments)
  pub requests : p.1.requests ≡ s.requests
  pub provisioning_attempts : p.1.provisioning_attempts ≡ s.provisioning_attempts
  pub clock : p.1.clock ≡ s.clock

module _ (provider : Provider) (s : Db) where
  by_status :
      (r : Result String) (again : Exec (Option Tried)) (dto : EnrollmentResultDto) (u : Db)
      (st : EnrollmentStatus)
      → dto.status ≡ st
      → Answered r s (ok dto, u)
      → Recorded dto.status dto.enrollment_attempt_id u
      → Once s (next_round (judge provider (ok dto)) 0 again u)
  unfolding next_round judge pure
  by_status r again dto u EnrollmentStatus.success e h good = rw e (record {
    tried = _;
    returned = refl;
    one = h.one;
    recorded = λ q. good e;
    category = λ q. absurd cc;
    requests = h.requests;
    provisioning_attempts = h.provisioning_attempts;
    clock = h.clock;
  })
  by_status r again dto u EnrollmentStatus.failure e h good = rw e (record {
    tried = _;
    returned = refl;
    one = h.one;
    recorded = λ q. absurd cc;
    category = λ q. inl refl;
    requests = h.requests;
    provisioning_attempts = h.provisioning_attempts;
    clock = h.clock;
  })

  raised-Once :
      (r : Result String) (again : Exec (Option Tried)) (u : Db)
      → Answered r s (err integrity, u)
      → u.enrollments ≡ s.enrollments
      → Once s (next_round (judge provider (err integrity)) 0 again u)
  unfolding next_round judge pure
  raised-Once r again u h same = record {
    tried = _;
    returned = refl;
    one = h.one;
    recorded = λ q. absurd cc;
    category = λ q. inr (refl, same);
    requests = h.requests;
    provisioning_attempts = h.provisioning_attempts;
    clock = h.clock;
  }

  Answered-Once :
      (r : Result String) (again : Exec (Option Tried)) (a : Result EnrollmentResultDto) (u : Db)
      → Answered r s (a, u)
      → Once s (next_round (judge provider a) 0 again u)
  Answered-Once r again a u h = elim h.answer [
    | inl (dto, e, good) ↦
        subst (λ x. Once s (next_round (judge provider x) 0 again u)) (sym e)
          (by_status r again dto u dto.status refl (subst (λ x. Answered r s (x, u)) e h) good)
    | inr (x, cause, without, e, same) ↦
        subst (λ y. Once s (next_round (judge provider y) 0 again u)) (sym e)
          (raised-Once r again u (subst (λ y. Answered r s (y, u)) e h) same)
  ]

-- Around the enrollment service of the repository the loop returns after one call, with no retry and
-- no pause, whatever ClickFunnels answers or raises: one enrollment attempt is written at the most, a
-- success is recorded as one, and a failure is a transient one of the provider, or one of the
-- configuration, and then no enrollment attempt is written.
pub enroll_with_retry-Once :
    (provider : Provider) (workspace_id : String) (s : Db) (subdomain email cf_course_id : String)
    → Once s (
        enroll_with_retry provider
          (enrollment_call provider subdomain workspace_id email cf_course_id)
          s)
unfolding enroll_with_retry enroll_loop enrollment_call attempt or_raise next_round judge pure ◌>>=◌
enroll_with_retry-Once provider workspace_id s subdomain email cf_course_id =
    elim (Option-cases (provider.int workspace_id)) [
      | inl refused ↦ rw refused (record {
        tried = _;
        returned = refl;
        one = omega arith;
        recorded = λ q. absurd cc;
        category = λ q. inr (refl, refl);
        requests = refl;
        provisioning_attempts = refl;
        clock = refl;
      })
      | inr (id, number) ↦ rw number (
          Answered-Once provider s _ _ _ _
            (enroll_contact-Answered provider subdomain id s email cf_course_id))
    ]
