-- ===== src/Provisioning/Execution.antt =====
-- What executing provisioning requests does to them.
use valuecrm.Base.{
  ℕ, ◌≤◌, ◌≡◌, refl, sym, subst, ◌∙◌, ap, arith, ⊤, true, false, not, none, some, leb, Option-cases,
  Bool-cases, inl, inr, if◌then◌else◌,
}
use valuecrm.Table.{get, set, get-set_self, set-set, set-get}
use valuecrm.Table.Evolves.{Evolves, Evolves-refl, Evolves-trans, Evolves-set}
use valuecrm.Model.{Db}
use valuecrm.Model.Enrollment.{ProvisioningRequest}
use valuecrm.Exec.{Result, ok, err, does_not_exist, maybe, pure, atomic, write_requests, ◌>>=◌}
use valuecrm.Exec.Preserves.{Preserves, preserves_rules}
use valuecrm.Exec.Laws.{bind-ok}
use valuecrm.ClickFunnels.{Provider}
use valuecrm.Provisioning.{
  is_claimable, max_request_attempts, claimed, exhausted, perform, claim, refresh, execute,
  process_pending,
}
use valuecrm.Provisioning.Outcome.{is_ended, Known, Performed, perform-Performed}

-- A later state of a request: what it is for is the same, it has never more attempts than allowed,
-- and unless it waits to be executed it is as it was.
pub record Provisioned (r q : ProvisioningRequest) : Type 0 where
  pub order : q.order ≡ r.order
  pub course : q.course ≡ r.course
  pub contact : q.contact ≡ r.contact
  pub bounded : r.attempt_count ≤ max_request_attempts → q.attempt_count ≤ max_request_attempts
  pub kept : is_claimable r.status ≡ false → q ≡ r

Provisioned-refl : (r : ProvisioningRequest) → Provisioned r r
Provisioned-refl r = record {
  order = refl;
  course = refl;
  contact = refl;
  bounded = λ h. h;
  kept = λ h. refl;
}

Provisioned-trans :
    (p q r : ProvisioningRequest) → Provisioned p q → Provisioned q r → Provisioned p r
Provisioned-trans p q r a b = record {
  order = b.order ∙ a.order;
  course = b.course ∙ a.course;
  contact = b.contact ∙ a.contact;
  bounded = λ h. b.bounded (a.bounded h);
  kept = λ h.
      b.kept (ap (λ (x : ProvisioningRequest). is_claimable x.status) (a.kept h) ∙ h) ∙ a.kept h;
}

-- What an execution of the request `r` of key `k` leaves: of the requests only that row may have
-- changed, to a later state of it; where it waited to be executed its foreign keys name rows and the token decrypts, the
-- execution returned and the request has ended.
pub record Executed (provider : Provider) (k : ℕ) (r : ProvisioningRequest) (s : Db)
    (p : Result ⊤ × Db) : Type 0 where
  pub row : ProvisioningRequest
  pub saved : p.1.requests ≡ set k row s.requests
  pub later : Provisioned r row
  pub ended : is_claimable r.status ≡ true → Known provider r s → is_ended row.status ≡ true
  pub returned : Known provider r s → p.0 ≡ ok tt

abbrev saved_request : ℕ → ProvisioningRequest → Db → Db
saved_request k r s = record s { requests = set k r s.requests }

claim-ok :
    (k : ℕ) (r : ProvisioningRequest) (s : Db)
    → get k s.requests ≡ some r
    → claim k s ≡ (
        if not (is_claimable r.status)
        then (ok none, s)
        else if leb max_request_attempts r.attempt_count
        then (ok none, saved_request k (exhausted r) s)
        else (ok (some (claimed r)), saved_request k (claimed r) s))
unfolding claim atomic ◌>>=◌ maybe write_requests
claim-ok k r s h = ground arith

refresh-ok :
    (k : ℕ) (r : ProvisioningRequest) (s : Db)
    → get k s.requests ≡ some r
    → refresh k s ≡ (ok tt, s)
unfolding ◌>>=◌
refresh-ok k r s h = ground arith

module _ (provider : Provider) (k : ℕ) (r : ProvisioningRequest) (s : Db)
    (h : get k s.requests ≡ some r) where
  closed_lem : is_claimable r.status ≡ false → execute provider k s ≡ (ok tt, s)
  unfolding execute maybe
  closed_lem closed =
      let e : claim k s ≡ (ok none, s) = claim-ok k r s h ∙ rw closed refl in
      bind-ok _ _ s e ∙ refresh-ok k r s h

  spent_lem :
      is_claimable r.status ≡ true
      → leb max_request_attempts r.attempt_count ≡ true
      → execute provider k s ≡ (ok tt, saved_request k (exhausted r) s)
  unfolding execute maybe
  spent_lem ready spent =
      let e : claim k s ≡ (ok none, saved_request k (exhausted r) s) =
        claim-ok k r s h ∙ rw (ready, spent) refl in
      bind-ok _ _ s e
      ∙ refresh-ok k (exhausted r) (saved_request k (exhausted r) s)
          (get-set_self k (exhausted r) s.requests h)

  early_lem :
      is_claimable r.status ≡ true
      → leb max_request_attempts r.attempt_count ≡ false
      → execute provider k s ≡ perform provider k (claimed r) (saved_request k (claimed r) s)
  unfolding execute maybe
  early_lem ready early =
      let e : claim k s ≡ (ok (some (claimed r)), saved_request k (claimed r) s) =
        claim-ok k r s h ∙ rw (ready, early) refl in
      bind-ok _ _ s e

  performed_lem :
      is_claimable r.status ≡ true
      → leb max_request_attempts r.attempt_count ≡ false
      → (p : Result ⊤ × Db) → Performed provider k (claimed r) (saved_request k (claimed r) s) p
      → Executed provider k r s p
  performed_lem ready early p w = record {
    row = w.row;
    saved = w.saved ∙ set-set k (claimed r) w.row s.requests;
    later = record {
      order = w.same.order;
      course = w.same.course;
      contact = w.same.contact;
      bounded = λ b. ground (arith, w.same.attempt_count);
      kept = λ closed. absurd cc;
    };
    ended = λ _ known. w.ended (record {
      service = _;
      decrypted = known.decrypted;
      contact = _;
      contact_found = known.contact_found;
      order = _;
      order_found = known.order_found;
    });
    returned = λ known. w.returned (record {
      service = _;
      decrypted = known.decrypted;
      contact = _;
      contact_found = known.contact_found;
      order = _;
      order_found = known.order_found;
    });
  }

  -- Executing a request changes no other request and never what the request is for, which row or
  -- contact or course. One that does not wait to be executed stays as it is; the attempts stay
  -- within their bound. Where its order and its contact exist and the access token of the
  -- configuration decrypts, the execution returns, and a request that waited has then ended: it is
  -- completed, failed or in manual review, and never left in progress, whatever ClickFunnels answers
  -- or raises.
  pub execute-Executed : Executed provider k r s (execute provider k s)
  execute-Executed = elim (Bool-cases (is_claimable r.status)) [
    | inr closed ↦ rw (closed_lem closed) (record {
      row = r;
      saved = sym (set-get k r s.requests h);
      later = Provisioned-refl r;
      ended = λ ready known. absurd cc;
      returned = λ known. refl;
    })
    | inl ready ↦ elim (Bool-cases (leb max_request_attempts r.attempt_count)) [
      | inl spent ↦ rw (spent_lem ready spent) (record {
        row = exhausted r;
        saved = refl;
        later = record {
          order = refl;
          course = refl;
          contact = refl;
          bounded = λ b. b;
          kept = λ closed. absurd cc;
        };
        ended = λ _ known. refl;
        returned = λ known. refl;
      })
      | inr early ↦ rw (early_lem ready early) (
          performed_lem ready early _ (
            perform-Performed provider k (claimed r) (saved_request k (claimed r) s)
              (get-set_self k (claimed r) s.requests h)))
    ]
  ]

-- No request is lost, and each is a later state of itself.
pub record Requests (s t : Db) : Type 0 where
  pub rows : Evolves Provisioned s.requests t.requests

pub Requests-refl : (s : Db) → Requests s s
Requests-refl s = record { rows = Evolves-refl Provisioned-refl s.requests }

missing_lem :
    (provider : Provider) (k : ℕ) (s : Db)
    → get k s.requests ≡ none
    → execute provider k s ≡ (err does_not_exist, s)
unfolding execute claim maybe pure atomic ◌>>=◌
missing_lem provider k s h = ground arith

module _ {s₀ : Db} where
  execute-Provisioned : (provider : Provider) (k : ℕ) → Preserves (Requests s₀) (execute provider k)
  execute-Provisioned provider k = record {
    after = λ s h. elim (Option-cases (get k s.requests)) [
      | inl missing ↦ rw (missing_lem provider k s missing) h
      | inr (r, found) ↦
          let e = execute-Executed provider k r s found in
          record {
            rows = Evolves-trans Provisioned-trans s₀.requests s.requests _ h.rows (
                subst (Evolves Provisioned s.requests) (sym e.saved)
                  (Evolves-set Provisioned-refl k r e.row s.requests found e.later));
          }
    ];
  }

  process_pending-Provisioned :
      (provider : Provider) (limit : ℕ) → Preserves (Requests s₀) (process_pending provider limit)
  unfolding process_pending
  process_pending-Provisioned provider limit =
      search (preserves_rules, execute-Provisioned) depth 12

-- A run of `process_pending`, whatever ClickFunnels answers, loses no request; of each it keeps the
-- order, the course and the contact, it makes no more than the allowed attempts, and one that does
-- not wait to be executed (such as a completed one) stays exactly as it is.
pub process_pending-Requests :
    (provider : Provider) (limit : ℕ) (s : Db) → Requests s (process_pending provider limit s).1
process_pending-Requests provider limit s =
    (process_pending-Provisioned provider limit).after s (Requests-refl s)
