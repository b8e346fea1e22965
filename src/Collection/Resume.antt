-- ===== src/Collection/Resume.antt =====
-- When an automatic suspension is not lifted.
use valuecrm.Base.{
  is_some, ◌==◌, ◌&&◌, ℕ, suc, ◌+◌, ◌≤◌, ◌≡◌, ◌≢◌, refl, arith, true, false, none, some, Bool-cases,
  Option-cases, inl, inr, nat_eq,
}
use valuecrm.Table.{get, exists-get}
use valuecrm.Settings.{hours}
use valuecrm.Model.{Db, Order, Installment}
use valuecrm.Model.Status.{OrderStatus, InstallmentStatus, order_status_eq}
use valuecrm.Exec.{ok, maybe, pure, ◌>>=◌}
use valuecrm.Collection.{
  Collector, is_unpaid, is_auto_suspended, still_beyond_deadline, resume_if_settled,
}

-- A reason to leave the order of key `k` as it is: it does not exist or is not suspended; no automatic
-- suspension is noted on it, so that staff have suspended it themselves; or one of its installments
-- that is not settled in any way is past the end of the local day after it was due by the hours of
-- grace.
pub data Blocked (c : Collector) (k now : ℕ) (s : Db) : Type 0 where
  missing : get k s.orders ≡ none → Blocked c k now s
  running :
      (o : Order) → get k s.orders ≡ some o → o.status ≢ OrderStatus.suspended → Blocked c k now s
  manual :
      (o : Order)
      → get k s.orders ≡ some o
      → o.suspended_for_nonpayment_at ≡ none
      → Blocked c k now s
  late :
      (j : ℕ) (i : Installment)
      → get j s.installments ≡ some i
      → i.order ≡ k
      → i.status ≢ InstallmentStatus.paid
      → i.status ≢ InstallmentStatus.waived
      → i.status ≢ InstallmentStatus.cancelled
      → c.env.local_midnight (suc i.due_date) + hours c.env.installment_suspension_grace_hours ≤ now
      → Blocked c k now s

unsettled :
    (st : InstallmentStatus)
    → st ≢ InstallmentStatus.paid
    → st ≢ InstallmentStatus.waived
    → st ≢ InstallmentStatus.cancelled
    → is_unpaid st ≡ true
unsettled InstallmentStatus.scheduled p w x = refl
unsettled InstallmentStatus.due p w x = refl
unsettled InstallmentStatus.pending p w x = refl
unsettled InstallmentStatus.failed p w x = refl
unsettled InstallmentStatus.paid p w x = absurd (p refl)
unsettled InstallmentStatus.waived p w x = absurd (w refl)
unsettled InstallmentStatus.cancelled p w x = absurd (x refl)

running_lem : (o : Order) → o.status ≢ OrderStatus.suspended → is_auto_suspended o ≡ false
running_lem o h = shape o.status h
  where
    shape :
        (st : OrderStatus)
        → st ≢ OrderStatus.suspended
        → (st == OrderStatus.suspended && is_some o.suspended_for_nonpayment_at) ≡ false
    shape OrderStatus.pending h = refl
    shape OrderStatus.active h = refl
    shape OrderStatus.past_due h = refl
    shape OrderStatus.completed h = refl
    shape OrderStatus.cancelled h = refl
    shape OrderStatus.expired h = refl
    shape OrderStatus.suspended h = absurd (h refl)

module _ (c : Collector) (k now : ℕ) (s : Db) where
  left_alone :
      (o : Order)
      → get k s.orders ≡ some o
      → is_auto_suspended o ≡ false
      → resume_if_settled c k now s ≡ (ok false, s)
  unfolding resume_if_settled maybe pure ◌>>=◌
  left_alone o found off = rw (found, off) refl

  beyond : still_beyond_deadline c.env now k s ≡ true → resume_if_settled c k now s ≡ (ok false, s)
  unfolding resume_if_settled maybe pure ◌>>=◌
  beyond h = elim (Option-cases (get k s.orders)) [
    | inl nothing ↦ rw nothing refl
    | inr (o, found) ↦ elim (Bool-cases (is_auto_suspended o)) [
      | inr off ↦ rw (found, off) refl
      | inl on ↦ rw (found, on, h) refl
    ]
  ]

  -- Nothing is lifted, and nothing at all is written or asked of ClickFunnels, for an order that does
  -- not exist, that is not suspended, that staff have suspended themselves (no automatic suspension
  -- is noted), or that has an installment that is neither paid nor waived nor cancelled and whose
  -- grace after the end of its due day is over.
  pub resume_if_settled-guarded : Blocked c k now s → resume_if_settled c k now s ≡ (ok false, s)
  unfolding resume_if_settled maybe pure ◌>>=◌
  resume_if_settled-guarded (missing none_there) = rw none_there refl
  resume_if_settled-guarded (running o found going) = left_alone o found (running_lem o going)
  resume_if_settled-guarded (manual o found by_staff) =
      left_alone o found (ground (arith, by_staff))
  resume_if_settled-guarded (late j i found own p w x over) =
      elim (Bool-cases (still_beyond_deadline c.env now k s)) [
        | inl past ↦ beyond past
        | inr within ↦
            let open_row : is_unpaid i.status ≡ true = unsettled i.status p w x in
            absurd
              (ground (arith, exists-get _ j i s.installments found within, open_row, own, over))
      ]
