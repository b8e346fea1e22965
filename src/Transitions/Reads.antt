-- ===== src/Transitions/Reads.antt =====
-- Locked reads and updates, by what stands in the table.
use valuecrm.Base.{ℕ, ◌≡◌, refl, ◌∙◌, none, some}
use valuecrm.Table.{get}
use valuecrm.Model.{Db, Order, Installment, PaymentAttempt}
use valuecrm.Exec.{ok, err, does_not_exist, or_raise, gets, ◌>>=◌}
use valuecrm.Exec.Laws.{bind-ok, bind-err}
use valuecrm.Transitions.{get_attempt, get_installment, get_order, save_attempt, update_attempt}

module _ (k : ℕ) (s : Db) where
  pub get_attempt-eq :
      {a : PaymentAttempt} → get k s.attempts ≡ some a → get_attempt k s ≡ (ok a, s)
  unfolding get_attempt ◌>>=◌
  get_attempt-eq h = rw (h, ◌>>=◌)

  pub get_installment-eq :
      {i : Installment} → get k s.installments ≡ some i → get_installment k s ≡ (ok i, s)
  unfolding get_installment ◌>>=◌
  get_installment-eq h = rw (h, ◌>>=◌)

  pub get_order-eq : {o : Order} → get k s.orders ≡ some o → get_order k s ≡ (ok o, s)
  unfolding get_order ◌>>=◌
  get_order-eq h = rw (h, ◌>>=◌)

  pub get_attempt_missing : get k s.attempts ≡ none → get_attempt k s ≡ (err does_not_exist, s)
  unfolding get_attempt ◌>>=◌
  get_attempt_missing h = rw (h, ◌>>=◌)

  pub get_installment_missing :
      get k s.installments ≡ none → get_installment k s ≡ (err does_not_exist, s)
  unfolding get_installment ◌>>=◌
  get_installment_missing h = rw (h, ◌>>=◌)

  pub get_order_missing : get k s.orders ≡ none → get_order k s ≡ (err does_not_exist, s)
  unfolding get_order ◌>>=◌
  get_order_missing h = rw (h, ◌>>=◌)

  pub update_attempt-eq :
      (f : PaymentAttempt → PaymentAttempt) {a : PaymentAttempt}
      → get k s.attempts ≡ some a
      → update_attempt k f s ≡ save_attempt k (f a) s
  unfolding update_attempt or_raise gets
  update_attempt-eq f h = bind-ok _ _ s refl ∙ bind-ok _ _ s (rw h)

  pub update_attempt_missing :
      (f : PaymentAttempt → PaymentAttempt)
      → get k s.attempts ≡ none
      → update_attempt k f s ≡ (err does_not_exist, s)
  unfolding update_attempt or_raise gets
  update_attempt_missing f h = bind-ok _ _ s refl ∙ bind-err _ _ s (rw h)
