-- ===== src/Orders/Schedule.antt =====
-- The installments of a new order.
use valuecrm.Base.{ℕ, zero, suc, ◌+◌, ◌*◌, ◌≡◌, refl, [], ◌∷◌, arith, nat_eq, false, Bool}
use valuecrm.Table.{Table, select, add, exists}
use valuecrm.Model.{Order, Installment}
use valuecrm.Followups.{of_order}
use valuecrm.Orders.{schedule, new_installment, insert_all}

-- What a list of table rows asks for in all.
abbrev pub asked : Table Installment → ℕ
asked [] = 0
asked ((j, i) ∷ t) = i.expected_amount + asked t

abbrev pub rows : Table Installment → ℕ
rows [] = 0
rows (e ∷ t) = suc (rows t)

pub select-none :
    (p : ℕ → Installment → Bool) (t : Table Installment) → exists p t ≡ false → select p t ≡ []
unfolding select exists
select-none p [] h = refl
select-none p ((j, i) ∷ t) h = ground (arith, select-none p t)

module _ (k : ℕ) (o : Order) (start_date : ℕ) where
  -- What the rows of an order ask for, once `n` installments have been added to a table.
  pub asked-schedule :
      (q n : ℕ) (t : Table Installment)
      → asked (select (of_order k) (insert_all (schedule k o start_date q n) t))
        ≡ o.installment_amount * n + asked (select (of_order k) t)
  unfolding schedule insert_all add select
  asked-schedule q zero t = ground arith
  asked-schedule q (suc n) t =
      grind (arith, asked-schedule (suc q) n (add (new_installment k o start_date q) t))

  pub rows-schedule :
      (q n : ℕ) (t : Table Installment)
      → rows (select (of_order k) (insert_all (schedule k o start_date q n) t))
        ≡ n + rows (select (of_order k) t)
  unfolding schedule insert_all add select
  rows-schedule q zero t = ground arith
  rows-schedule q (suc n) t =
      grind (arith, rows-schedule (suc q) n (add (new_installment k o start_date q) t))
