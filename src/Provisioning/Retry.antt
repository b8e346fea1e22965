-- ===== src/Provisioning/Retry.antt =====
-- The retry loop of an enrollment ends, and how often it calls.
use valuecrm.Base.{
  ℕ, zero, suc, ◌+◌, ◌≤◌, ◌≡◌, refl, subst, String, arith, true, false, Option, some, leb,
}
use valuecrm.Model.{Db}
use valuecrm.Exec.{Exec, ok, or_raise, pure, sleep, attempt, ◌>>=◌}
use valuecrm.ClickFunnels.{Provider}
use valuecrm.Enrollments.{EnrollmentResultDto}
use valuecrm.Provisioning.{
  Tried, Verdict, finished, retry, judge, next_round, enroll_loop, enroll_with_retry,
  max_inline_retries, backoff_seconds,
}

-- What a call counts: `measure` grows by at most one with each call of `call`, and sleeping leaves it.
pub record Counts (measure : Db → ℕ) (call : Exec EnrollmentResultDto) : Type 0 where
  pub one : (s : Db) → measure (call s).1 ≤ measure s + 1
  pub asleep : (s : Db) (n : ℕ) → measure (sleep n s).1 ≡ measure s

-- A loop from one state: it returns a result, and the measure has grown by at most the bound.
pub record Ends (measure : Db → ℕ) (m : Exec (Option Tried)) (s : Db) (bound : ℕ) : Type 0 where
  pub tried : Tried
  pub returned : (m s).0 ≡ ok (some tried)
  pub counted : measure (m s).1 ≤ measure s + bound

module _ (measure : Db → ℕ) (call : Exec EnrollmentResultDto) (counts : Counts measure call) where
  slept :
      (n bound attempts : ℕ) (again : Exec (Option Tried)) (u : Db) (error : String)
      → leb max_inline_retries attempts ≡ false
      → backoff_seconds attempts ≡ some n
      → Ends measure again (sleep n u).1 bound
      → Ends measure (next_round (retry error) attempts again) u bound
  unfolding next_round or_raise ◌>>=◌ sleep
  slept n bound attempts again u error more pause h =
      rw (more, pause)
        (record {
          tried = h.tried;
          returned = h.returned;
          counted =
              subst (λ x. measure (again (sleep n u).1).1 ≤ x + bound) (counts.asleep u n)
                h.counted;
        })

  round :
      (v : Verdict) (bound attempts : ℕ) (again : Exec (Option Tried)) (u : Db)
      → (leb max_inline_retries attempts ≡ false → (w : Db) → Ends measure again w bound)
      → Ends measure (next_round v attempts again) u bound
  unfolding next_round pure
  round (finished t) bound attempts again u h = record {
    tried = t;
    returned = refl;
    counted = omega arith;
  }
  round (retry error) bound zero again u h = slept 1 bound 0 again u error refl refl (h refl _)
  round (retry error) bound (suc zero) again u h =
      slept 3 bound 1 again u error refl refl (h refl _)
  round (retry error) bound (suc (suc k)) again u h =
      let last : leb max_inline_retries (suc (suc k)) ≡ true = ground arith in
      rw last (record { tried = _; returned = refl; counted = omega arith })

  composed :
      (provider : Provider) (fuel attempts bound : ℕ) (s : Db)
      → Ends measure
          (next_round
            (judge provider (call s).0)
            attempts
            (enroll_loop provider call fuel (suc attempts)))
          (call s).1
          bound
      → Ends measure (enroll_loop provider call (suc fuel) attempts) s (suc bound)
  unfolding enroll_loop attempt ◌>>=◌
  composed provider fuel attempts bound s h = record {
    tried = h.tried;
    returned = h.returned;
    counted = omega (arith, h.counted, counts.one s);
  }

  -- From a round at which so many retries are left, the loop ends within its fuel.
  loop-Ends :
      (provider : Provider) (fuel attempts : ℕ) (s : Db)
      → attempts + fuel ≡ max_inline_retries
      → Ends measure (enroll_loop provider call (suc fuel) attempts) s (suc fuel)
  loop-Ends provider zero attempts s e = composed provider 0 attempts 0 s (
      round (judge provider (call s).0) 0 attempts (enroll_loop provider call 0 (suc attempts))
        (call s).1 (λ more w. absurd ground arith))
  loop-Ends provider (suc fuel) attempts s e = composed provider (suc fuel) attempts (suc fuel) s (
      round (judge provider (call s).0) (suc fuel) attempts
        (enroll_loop provider call (suc fuel) (suc attempts)) (call s).1
        (λ more w. loop-Ends provider fuel (suc attempts) w (omega arith)))

-- The retry loop around an enrollment ends: whatever the calls answer or raise, it returns a result
-- and raises nothing, and whatever a call may count, three calls of it are the most.
pub enroll_with_retry-Ends :
    (measure : Db → ℕ) (provider : Provider) (call : Exec EnrollmentResultDto)
    → Counts measure call
    → (s : Db) → Ends measure (enroll_with_retry provider call) s 3
unfolding enroll_with_retry
enroll_with_retry-Ends measure provider call counts s =
    loop-Ends measure call counts provider 2 0 s refl
