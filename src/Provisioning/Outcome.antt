-- ===== src/Provisioning/Outcome.antt =====
-- Where an execution leaves a provisioning request.
use valuecrm.Base.{
  ℕ, ◌≡◌, refl, sym, subst, ◌∙◌, ap, arith, ⊤, Bool, true, String, Option, none, some, [], ◌∷◌,
  elem, Option-cases, Bool-cases, inl, inr, if_intro, ◌==◌, string_eq,
}
use valuecrm.Table.{get, set, exists, set-get}
use valuecrm.Model.{Db, Contact, Order}
use valuecrm.Model.Status.{RequestStatus, request_status_eq}
use valuecrm.Model.Enrollment.{EnrollmentStatus, RequestFailure, ProvisioningRequest}
use valuecrm.Exec.{
  Error, Result, ok, err, does_not_exist, lift, or_raise, maybe, write_requests,
  write_provisioning_attempts, ◌>>=◌,
}
use valuecrm.Exec.Laws.{bind-ok}
use valuecrm.ClickFunnels.{Provider}
use valuecrm.Provisioning.{
  Tried, is_non_retryable, update_request, reviewed, completed, concluded, succeeded_for,
  enrollment_service, enroll_with_retry, enrollment_call, enroll_course, enroll_new, record_try,
  perform,
}
use valuecrm.Provisioning.Once.{Once, enroll_with_retry-Once}

-- The statuses in which an execution may leave a request that it took up.
abbrev pub is_ended : RequestStatus → Bool
is_ended st =
    elem st (RequestStatus.completed ∷ RequestStatus.failed ∷ RequestStatus.manual_review ∷ [])

-- The rows that the foreign keys of a request name are there, and the access token of the
-- configuration decrypts.
pub record Known (provider : Provider) (r : ProvisioningRequest) (s : Db) : Type 0 where
  pub service : Option (String × String)
  pub decrypted : enrollment_service provider ≡ ok service
  pub contact : Contact
  pub contact_found : get r.contact s.contacts ≡ some contact
  pub order : Order
  pub order_found : get r.order s.orders ≡ some order

-- The same request, with other columns of its progress.
pub record SameRequest (r q : ProvisioningRequest) : Type 0 where
  pub order : q.order ≡ r.order
  pub course : q.course ≡ r.course
  pub contact : q.contact ≡ r.contact
  pub attempt_count : q.attempt_count ≡ r.attempt_count

-- What work on the claimed request `r` of key `k` leaves: of the requests only that row has changed;
-- where the foreign keys name rows and the token decrypts, the work returned and the request has ended.
pub record Performed (provider : Provider) (k : ℕ) (r : ProvisioningRequest) (s : Db)
    (p : Result ⊤ × Db) : Type 0 where
  pub row : ProvisioningRequest
  pub saved : p.1.requests ≡ set k row s.requests
  pub same : SameRequest r row
  pub ended : Known provider r s → is_ended row.status ≡ true
  pub returned : Known provider r s → p.0 ≡ ok tt

update_request-ok :
    (k : ℕ) (f : ProvisioningRequest → ProvisioningRequest) (r : ProvisioningRequest) (s : Db)
    → get k s.requests ≡ some r
    → update_request k f s ≡ (ok tt, record s { requests = set k (f r) s.requests })
unfolding update_request ◌>>=◌ write_requests
update_request-ok k f r s h = ground arith

-- The last write of an execution, in a state in which the requests are those of `s`.
last_write :
    (provider : Provider) (k : ℕ) (f : ProvisioningRequest → ProvisioningRequest)
    (r : ProvisioningRequest) (s u : Db)
    → get k s.requests ≡ some r
    → u.requests ≡ s.requests
    → SameRequest r (f r)
    → is_ended (f r).status ≡ true
    → Performed provider k r s (update_request k f u)
last_write provider k f r s u h same kept done =
    let found : get k u.requests ≡ some r = ap (get k) same ∙ h in
    rw (update_request-ok k f r u found) (record {
      row = f r;
      saved = ap (set k (f r)) same;
      same = kept;
      ended = λ known. done;
      returned = λ known. refl;
    })

-- An exception before anything is written.
raised :
    (provider : Provider) (k : ℕ) (r : ProvisioningRequest) (s : Db) (e : Error)
    → get k s.requests ≡ some r
    → ¬ Known provider r s
    → Performed provider k r s (err e, s)
raised provider k r s e h unknown = record {
  row = r;
  saved = sym (set-get k r s.requests h);
  same = record { order = refl; course = refl; contact = refl; attempt_count = refl };
  ended = λ known. absurd (unknown known);
  returned = λ known. absurd (unknown known);
}

completed-SameRequest : (r : ProvisioningRequest) → SameRequest r (completed r)
completed-SameRequest r = record {
  order = refl;
  course = refl;
  contact = refl;
  attempt_count = refl;
}

reviewed-SameRequest :
    (error : String) (category : RequestFailure) (r : ProvisioningRequest)
    → SameRequest r (reviewed error category r)
reviewed-SameRequest error category r = record {
  order = refl;
  course = refl;
  contact = refl;
  attempt_count = refl;
}

-- A request after an attempt, by what came of it.
concluded_lem :
    (status : EnrollmentStatus) (id : Option ℕ) (error : String) (category : RequestFailure)
    (r : ProvisioningRequest)
    → let q =
        concluded
          (record { status = status; enrollment_attempt = id; error = error; category = category })
          r in
      SameRequest r q × (is_ended q.status ≡ true)
concluded_lem EnrollmentStatus.success id error category r = (completed-SameRequest r, refl)
concluded_lem EnrollmentStatus.failure id error category r =
    if_intro (λ (q : ProvisioningRequest). SameRequest r q × (is_ended q.status ≡ true))
      (is_non_retryable category) (λ final. (reviewed-SameRequest error category r, refl))
      (λ again.
        (record { order = refl; course = refl; contact = refl; attempt_count = refl }, refl))

module _ (provider : Provider) (k : ℕ) (r : ProvisioningRequest) (s : Db)
    (h : get k s.requests ≡ some r) where
  tried_write :
      (t : Tried) (u : Db)
      → u.requests ≡ s.requests
      → SameRequest r (concluded t r)
      → is_ended (concluded t r).status ≡ true
      → Performed provider k r s (record_try k r.course (some t) u)
  unfolding record_try or_raise write_provisioning_attempts ◌>>=◌
  tried_write t u same kept done = last_write provider k (concluded t) r s _ h same kept done

  new-Performed :
      (subdomain workspace_id email cf_course_id : String)
      → Once s (
          enroll_with_retry provider
            (enrollment_call provider subdomain workspace_id email cf_course_id)
            s)
      → Performed provider k r s
          (enroll_new provider k r (subdomain, workspace_id) email cf_course_id s)
  unfolding enroll_new
  new-Performed subdomain workspace_id email cf_course_id o =
      let m =
        enroll_with_retry provider
          (enrollment_call provider subdomain workspace_id email cf_course_id) in
      let e : m s ≡ (ok (some o.tried), (m s).1) =
        ap (λ (x : Result (Option Tried)). (x, (m s).1)) o.returned in
      let t = o.tried in
      let (kept, done) = concluded_lem t.status t.enrollment_attempt t.error t.category r in
      subst (Performed provider k r s) (sym (bind-ok m (record_try k r.course) s e))
        (tried_write t (m s).1 o.requests kept done)

  course-Performed :
      (bundle : String × String) (email cf_course_id : String)
      → Performed provider k r s (enroll_course provider k r bundle email cf_course_id s)
  unfolding enroll_course ◌>>=◌
  course-Performed (subdomain, workspace_id) email cf_course_id =
      elim (Bool-cases (exists (succeeded_for k r.course) s.provisioning_attempts)) [
        | inl old ↦
            rw old (last_write provider k completed r s s h refl (completed-SameRequest r) refl)
        | inr new ↦ rw new (
            new-Performed subdomain workspace_id email cf_course_id
              (enroll_with_retry-Once provider workspace_id s subdomain email cf_course_id))
      ]

  final-Performed :
      (error : String) (category : RequestFailure)
      → Performed provider k r s (update_request k (reviewed error category) s)
  final-Performed error category =
      last_write provider k (reviewed error category) r s s h refl
        (reviewed-SameRequest error category r) refl

  service-Performed :
      (o : Result (Option (String × String))) (email cf_course_id error : String)
      (category : RequestFailure)
      → enrollment_service provider ≡ o
      → Performed provider k r s (
          (lift o >>= λ service.
          maybe service
            (update_request k (reviewed error category))
            (λ bundle. enroll_course provider k r bundle email cf_course_id))
            s)
  unfolding maybe ◌>>=◌
  service-Performed (err e) email cf_course_id error category q =
      raised provider k r s e h (λ known. cc (known.decrypted))
  service-Performed (ok none) email cf_course_id error category q = final-Performed error category
  service-Performed (ok (some bundle)) email cf_course_id error category q =
      course-Performed bundle email cf_course_id

  pub perform-Performed : Performed provider k r s (perform provider k r s)
  unfolding perform or_raise ◌>>=◌
  perform-Performed = elim (Option-cases (get r.contact s.contacts)) [
    | inl missing ↦
        rw missing (raised provider k r s does_not_exist h (λ known. cc (known.contact_found)))
    | inr (contact, found) ↦ rw found (elim (Bool-cases (contact.email == "")) [
      | inl empty ↦ rw empty (final-Performed _ _)
      | inr full ↦ rw full (elim (Option-cases (get r.order s.orders)) [
        | inl missing ↦
            rw missing (raised provider k r s does_not_exist h (λ known. cc (known.order_found)))
        | inr (order, there) ↦ rw there (elim (Bool-cases (order.course_cf_id == "")) [
          | inl empty ↦ rw empty (final-Performed _ _)
          | inr full ↦ rw full (service-Performed _ _ _ _ _ refl)
        ])
      ])
    ])
  ]
