-- ===== src/Collection/Reminders.antt =====
-- What the collection of installments does to the reminders.
use valuecrm.Base.{
  ℕ, suc, ◌≤◌, ◌≡◌, refl, sym, ◌∙◌, ap, subst, arith, Bool, true, false, String, Option, none, some,
  ◌==◌, nat_eq, string_eq, if_intro, if◌then◌else◌, Bool-cases, inl, inr,
}
use valuecrm.Table.{get, set, add, fresh, get-add, select, first, exists}
use valuecrm.Table.Keys.{HasKeys, get-first-select, set-HasKeys, add-HasKeys}
use valuecrm.Table.Evolves.{Evolves, Evolves-refl, Evolves-trans, Evolves-set, Evolves-add}
use valuecrm.Model.{Db, Installment}
use valuecrm.Model.Jobs.{InstallmentReminder, ReminderKind, ReminderStatus}
use valuecrm.Exec.{Exec, ok, does_not_exist, gets, pure, maybe, or_raise, write_reminders, ◌>>=◌}
use valuecrm.Exec.Laws.{bind-ok}
use valuecrm.Transitions.{get_order}
use valuecrm.Exec.Preserves.{
  Preserves, bind_after, Preserves-if, Preserves-pure, Preserves-or_raise, preserves_rules,
}
use valuecrm.Collection.{
  Collector, is_reminder_of, new_reminder, after_send, is_done, is_failed, max_reminder_attempts,
  create_reminder, deliver_row, deliver, remind, send_reminders, reminder_kind,
}

-- A later state of a reminder: what it is about is the same, it never has more attempts than allowed,
-- and once sent, or skipped for want of an address, it stays as it was.
pub record Reminded (r q : InstallmentReminder) : Type 0 where
  pub installment : q.installment ≡ r.installment
  pub kind : q.kind ≡ r.kind
  pub bounded : r.attempts ≤ max_reminder_attempts → q.attempts ≤ max_reminder_attempts
  pub kept : is_failed r.status ≡ false → q ≡ r

Reminded-refl : (r : InstallmentReminder) → Reminded r r
Reminded-refl r = record { installment = refl; kind = refl; bounded = λ h. h; kept = λ h. refl }

Reminded-trans : (p q r : InstallmentReminder) → Reminded p q → Reminded q r → Reminded p r
Reminded-trans p q r a b = record {
  installment = b.installment ∙ a.installment;
  kind = b.kind ∙ a.kind;
  bounded = λ h. b.bounded (a.bounded h);
  kept =
      λ h. b.kept (ap (λ (x : InstallmentReminder). is_failed x.status) (a.kept h) ∙ h) ∙ a.kept h;
}

-- No reminder is lost, and each is a later state of itself.
pub record Reminders (s t : Db) : Type 0 where
  pub rows : Evolves Reminded s.reminders t.reminders

Reminders-refl : (s : Db) → Reminders s s
Reminders-refl s = record { rows = Evolves-refl Reminded-refl s.reminders }

-- The row of a reminder that stands in the table and may be tried once more.
pub record Open (s : Db) (m : ℕ) (r : InstallmentReminder) : Type 0 where
  pub stands : get m s.reminders ≡ some r
  pub failed : is_failed r.status ≡ true
  pub early : suc r.attempts ≤ max_reminder_attempts

sent-Reminded :
    (sent : Bool) (now : ℕ) (r : InstallmentReminder)
    → is_failed r.status ≡ true
    → suc r.attempts ≤ max_reminder_attempts
    → Reminded r (after_send sent now r)
sent-Reminded true now r failed early = record {
  installment = refl;
  kind = refl;
  bounded = λ h. early;
  kept = λ h. absurd cc;
}
sent-Reminded false now r failed early = record {
  installment = refl;
  kind = refl;
  bounded = λ h. early;
  kept = λ h. absurd cc;
}

skipped-Reminded :
    (r : InstallmentReminder)
    → is_failed r.status ≡ true
    → Reminded r (record r { status = ReminderStatus.skipped_no_email })
skipped-Reminded r failed = record {
  installment = refl;
  kind = refl;
  bounded = λ h. h;
  kept = λ h. absurd cc;
}

set-Reminders :
    (s : Db) (m : ℕ) (r q : InstallmentReminder)
    → get m s.reminders ≡ some r
    → Reminded r q
    → Reminders s (record s { reminders = set m q s.reminders })
set-Reminders s m r q h k = record { rows = Evolves-set Reminded-refl m r q s.reminders h k }

-- The reminders after some steps from `s₀`: no key stands twice, and no reminder is lost.
pub record Later (s₀ t : Db) : Type 0 where
  pub keys : HasKeys t.reminders
  pub later : Reminders s₀ t

Later-set :
    (s₀ s : Db) (m : ℕ) (r q : InstallmentReminder)
    → Later s₀ s
    → get m s.reminders ≡ some r
    → Reminded r q
    → Later s₀ (record s { reminders = set m q s.reminders })
Later-set s₀ s m r q l h k = record {
  keys = set-HasKeys m q s.reminders l.keys;
  later = record {
    rows =
        Evolves-trans Reminded-trans s₀.reminders s.reminders _ l.later.rows
          (Evolves-set Reminded-refl m r q s.reminders h k);
  };
}

create_taken :
    (j : ℕ) (kind : ReminderKind) (s : Db)
    → exists (is_reminder_of j kind) s.reminders ≡ true
    → create_reminder j kind s ≡ (ok none, s)
unfolding create_reminder write_reminders ◌>>=◌
create_taken j kind s h = ground (arith, h)

create_free :
    (j : ℕ) (kind : ReminderKind) (s : Db)
    → exists (is_reminder_of j kind) s.reminders ≡ false
    → create_reminder j kind s ≡ (
      ok (some (fresh s.reminders, new_reminder j kind)),
      record s { reminders = add (new_reminder j kind) s.reminders },
    )
unfolding create_reminder write_reminders ◌>>=◌
create_free j kind s h = ground (arith, h)

module _ (c : Collector) (s₀ : Db) where
  deliver_row-Later :
      (j : ℕ) (kind : ReminderKind) (recipient : String) (m : ℕ) (r : InstallmentReminder) (s : Db)
      → Open s m r
      → Later s₀ s
      → Later s₀ (deliver_row c j kind recipient (some (m, r)) s).1
  unfolding deliver_row write_reminders ◌>>=◌
  deliver_row-Later j kind recipient m r s o l = elim (Bool-cases (recipient == "")) [
    | inl empty ↦ rw empty (Later-set s₀ s m r _ l o.stands (skipped-Reminded r o.failed))
    | inr full ↦ rw full (
        Later-set s₀ s m r _ l o.stands
          (sent-Reminded (c.send s j kind recipient) s.clock r o.failed o.early))
  ]

  -- A reminder that is created is open.
  created-Later :
      (j : ℕ) (kind : ReminderKind) (recipient : String) (s : Db)
      → Later s₀ s
      → Later s₀ ((create_reminder j kind >>= deliver_row c j kind recipient) s).1
  unfolding deliver_row pure
  created-Later j kind recipient s l =
      elim (Bool-cases (exists (is_reminder_of j kind) s.reminders)) [
        | inl taken ↦ rw (bind-ok _ _ s (create_taken j kind s taken)) l
        | inr free ↦
            let m = fresh s.reminders in
            let r = new_reminder j kind in
            rw (bind-ok _ _ s (create_free j kind s free)) (
              deliver_row-Later j kind recipient m r (record s { reminders = add r s.reminders })
                (record {
                  stands = ground (arith, get-add m r s.reminders);
                  failed = refl;
                  early = omega arith;
                })
                (record {
                  keys = add-HasKeys r s.reminders l.keys;
                  later = record {
                    rows =
                        Evolves-trans Reminded-trans s₀.reminders s.reminders _ l.later.rows
                          (Evolves-add Reminded-refl r s.reminders);
                  };
                }))
      ]

  -- The row that `_deliver` works on, by whether there is an earlier one.
  delivered-Later :
      (j : ℕ) (kind : ReminderKind) (recipient : String) (o : Option (ℕ × InstallmentReminder))
      (s : Db)
      → first (select (is_reminder_of j kind) s.reminders) ≡ o
      → is_done o ≡ false
      → Later s₀ s
      → Later s₀
          ((maybe o (create_reminder j kind) (λ found. pure (some found))
              >>= deliver_row c j kind recipient)
            s).1
  unfolding maybe pure
  delivered-Later j kind recipient none s e new l = created-Later j kind recipient s l
  delivered-Later j kind recipient (some (m, r)) s e more l =
      rw (bind-ok (pure (some (m, r))) (deliver_row c j kind recipient) s refl) (
        deliver_row-Later j kind recipient m r s
          (record {
            stands = get-first-select (is_reminder_of j kind) m r s.reminders l.keys e;
            failed = ground (arith, more);
            early = ground (arith, more);
          })
          l)

-- Reading an order or a contact leaves the database as it is.
get_order-Same : (k : ℕ) (s : Db) → Preserves (λ u. u ≡ s) (get_order k)
unfolding get_order
get_order-Same k s = search preserves_rules

module _ (c : Collector) (s₀ : Db) where
  deliver-Later :
      (j : ℕ) (i : Installment) (kind : ReminderKind) (o : Option (ℕ × InstallmentReminder))
      (s : Db)
      → first (select (is_reminder_of j kind) s.reminders) ≡ o
      → is_done o ≡ false
      → Later s₀ s
      → Later s₀ (deliver c j i kind o s).1
  unfolding deliver gets
  deliver-Later j i kind o s e more l =
      bind_after (Later s₀) (λ u. u ≡ s) (get_order i.order) _ s
        ((get_order-Same i.order s).after s refl) (λ t q. subst (Later s₀) (sym q) l)
        λ order t q.
          bind_after (Later s₀) (λ u. u ≡ s) (gets (λ u. get order.customer u.contacts)) _ t q
            (λ u r. subst (Later s₀) (sym r) l)
            λ customer u r.
              bind_after (Later s₀) (λ w. w ≡ s) (or_raise customer does_not_exist) _ u
                ((Preserves-or_raise {P = λ w. w ≡ s} customer does_not_exist).after u r)
                (λ w x. subst (Later s₀) (sym x) l)
                λ contact w x.
                  subst
                    (λ w.
                      Later s₀
                        ((maybe o (create_reminder j kind) (λ found. pure (some found))
                            >>= deliver_row c j kind (c.strip contact.email))
                          w).1)
                    (sym x) (delivered-Later c s₀ j kind (c.strip contact.email) o s e more l)

  remind_open-Later :
      (j : ℕ) (i : Installment) (kind : ReminderKind)
      → Preserves (Later s₀) (
          gets (λ s. first (select (is_reminder_of j kind) s.reminders)) >>= λ existing.
          if is_done existing then pure false else deliver c j i kind existing)
  unfolding pure ◌>>=◌
  remind_open-Later j i kind = record {
    after = λ s l.
        let existing = first (select (is_reminder_of j kind) s.reminders) in
        if_intro (λ (m : Exec Bool). Later s₀ (m s).1) (is_done existing) {x = pure false}
          {y = deliver c j i kind existing} (λ _. l)
          (λ more. deliver-Later j i kind existing s refl more l);
  }

  remind-Later : (today : ℕ) (e : ℕ × Installment) → Preserves (Later s₀) (remind c today e)
  unfolding remind
  remind-Later today (j, i) =
      Preserves-if _ _ _ (Preserves-pure false) (remind_open-Later j i (reminder_kind today i))

  send_reminders-Later : (today : ℕ) → Preserves (Later s₀) (send_reminders c today)
  unfolding send_reminders
  send_reminders-Later today = search (preserves_rules, remind-Later) depth 12

-- Sending the reminders of a day, whatever comes of the mails, loses no reminder; it makes at most
-- three attempts at each, and one that was sent, or skipped for want of an address, stays exactly as
-- it is, so that it is not sent again. The table has no key twice, before and so after.
pub reminders-Later :
    (c : Collector) (today : ℕ) (s : Db)
    → HasKeys s.reminders
    → Later s (send_reminders c today s).1
reminders-Later c today s h =
    (send_reminders-Later c s today).after s (record { keys = h; later = Reminders-refl s })
