-- ===== src/History/Followups.antt =====
-- The follow-up records of a payment are created beside its history.
use valuecrm.Base.{ℕ}
use valuecrm.Settings.{Env}
use valuecrm.Model.{Db, Order}
use valuecrm.Exec.{Error, integrity}
use valuecrm.Exec.Preserves.{Preserves}
use valuecrm.Followups.{
  create_confirmation, insert_request, refetch_request, create_request_from_order,
}
use valuecrm.Credit.{create_followups}
use valuecrm.History.{History}
use valuecrm.History.Writes.{history_rules}

module _ {s₀ : Db} where
  pub create_confirmation-History :
      (env : Env) (k i o : ℕ) → Preserves (History s₀) (create_confirmation env k i o)
  unfolding create_confirmation
  create_confirmation-History env k i o = search history_rules depth 12

  insert_request-History : (k : ℕ) (o : Order) → Preserves (History s₀) (insert_request k o)
  unfolding insert_request
  insert_request-History k o = search history_rules depth 12

  refetch_request-History : (o : Order) (e : Error) → Preserves (History s₀) (refetch_request o e)
  unfolding refetch_request
  refetch_request-History o integrity = search history_rules depth 12
  refetch_request-History o e = search history_rules depth 12

  pub create_request-History : (k : ℕ) → Preserves (History s₀) (create_request_from_order k)
  unfolding create_request_from_order
  create_request-History k =
      search (history_rules, insert_request-History, refetch_request-History) depth 12

  pub create_followups-History :
      (env : Env) (k i o : ℕ) (row : Order)
      → Preserves (History s₀) (create_followups env k i o row)
  unfolding create_followups
  create_followups-History env k i o row =
      search (history_rules, create_confirmation-History, create_request-History) depth 12
