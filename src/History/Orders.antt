-- ===== src/History/Orders.antt =====
-- `create_order` keeps the history: it adds rows and changes none.
use valuecrm.Base.{ℕ, String, Option, List, [], ◌∷◌}
use valuecrm.Table.{Table, add}
use valuecrm.Table.Evolves.{Evolves, Evolves-refl, Evolves-trans, Evolves-add}
use valuecrm.Settings.{Env}
use valuecrm.Model.{Db, Order, Installment}
use valuecrm.Exec.{Error, integrity, modify}
use valuecrm.Exec.Preserves.{Preserves}
use valuecrm.Orders.{
  schedule, insert_all, create_installments, insert_order, existing_order, insert_new, lost_race,
  create_order,
}
use valuecrm.History.{
  History, History-refl, OrderKept-refl, InstallmentKept, InstallmentKept-refl,
  InstallmentKept-trans,
}
use valuecrm.History.Writes.{history_rules, Preserves-History}

insert_all-Evolves :
    (is : List Installment) (t : Table Installment) → Evolves InstallmentKept t (insert_all is t)
unfolding insert_all
insert_all-Evolves [] t = Evolves-refl InstallmentKept-refl t
insert_all-Evolves (i ∷ is) t =
    Evolves-trans InstallmentKept-trans t (add i t) (insert_all is (add i t))
      (Evolves-add InstallmentKept-refl i t) (insert_all-Evolves is (add i t))

module _ {s₀ : Db} where
  add_order-History :
      (o : Order) → Preserves (History s₀) (modify (λ s. record s { orders = add o s.orders }))
  unfolding modify
  add_order-History o =
      Preserves-History (modify (λ s. record s { orders = add o s.orders }))
        (λ s. record {
          orders = Evolves-add OrderKept-refl o s.orders;
          installments = (History-refl s).installments;
          attempts = (History-refl s).attempts;
        })
        s₀

  create_installments-History :
      (k : ℕ) (o : Order) (d : ℕ) → Preserves (History s₀) (create_installments k o d)
  unfolding create_installments modify
  create_installments-History k o d =
      Preserves-History (create_installments k o d)
        (λ s. record {
          orders = (History-refl s).orders;
          installments = insert_all-Evolves (schedule k o d 1 o.installment_count) s.installments;
          attempts = (History-refl s).attempts;
        })
        s₀

  insert_order-History : (o : Order) → Preserves (History s₀) (insert_order o)
  unfolding insert_order
  insert_order-History o = search (history_rules, add_order-History) depth 12

  existing_order-History : (c p : ℕ) (e : ℕ × Order) → Preserves (History s₀) (existing_order c p e)
  unfolding existing_order
  existing_order-History c p (k, o) = search history_rules

  insert_new-History :
      (c p : ℕ) (key : String) (d : ℕ) → Preserves (History s₀) (insert_new c p key d)
  unfolding insert_new
  insert_new-History c p key d =
      search (history_rules, insert_order-History, create_installments-History) depth 14

  lost_race-History :
      (c p : ℕ) (key : String) (e : Error) → Preserves (History s₀) (lost_race c p key e)
  unfolding lost_race
  lost_race-History c p key integrity = search (history_rules, existing_order-History) depth 12
  lost_race-History c p key e = search history_rules

  -- `create_order` loses no row of orders, installments or attempts, changes no frozen column,
  -- moves statuses along their tables only, and leaves paid installments and recorded payment ids
  -- as they are, whether it returns or raises.
  pub create_order-History :
      (env : Env) (c p : ℕ) (key : String) (d : Option ℕ)
      → Preserves (History s₀) (create_order env c p key d)
  unfolding create_order
  create_order-History env c p key d =
      search (history_rules, insert_new-History, lost_race-History, existing_order-History) depth 12
