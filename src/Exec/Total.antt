-- ===== src/Exec/Total.antt =====
-- Calls that return from every state: a rule for each way to build one.
use valuecrm.Base.{◌≡◌, refl, Bool, true, false, Option, none, some, if◌then◌else◌}
use valuecrm.Model.{Db}
use valuecrm.Exec.{Exec, Result, ok, err, pure, gets, attempt, ◌>>=◌, maybe}

pub record Total {A : Type 0} (m : Exec A) : Type 0 where
  pub at : (s : Db) → (a : A) × ((m s).0 ≡ ok a)

module _ {A : Type 0} where
  pub Total-pure : (a : A) → Total (pure a)
  unfolding pure
  Total-pure a = record { at = λ s. (a, refl) }

  pub Total-gets : (f : Db → A) → Total (gets f)
  unfolding gets
  Total-gets f = record { at = λ s. (f s, refl) }

  pub Total-attempt : (m : Exec A) → Total (attempt m)
  unfolding attempt
  Total-attempt m = record { at = λ s. ((m s).0, refl) }

  pub Total-if : (b : Bool) (m n : Exec A) → Total m → Total n → Total (if b then m else n)
  Total-if true m n k l = k
  Total-if false m n k l = l

module _ {A B : Type 0} where
  continued :
      (f : A → Exec B) (p : Result A × Db) (a : A)
      → p.0 ≡ ok a
      → ((x : A) → Total (f x))
      → (b : B) × ((◌>>=◌ (λ _. p) f p.1).0 ≡ ok b)
  unfolding ◌>>=◌
  continued f (ok x, t) a e k = (k x).at t
  continued f (err x, t) a e k = absurd cc

  pub Total-bind :
      (m : Exec A) (f : A → Exec B) → Total m → ((x : A) → Total (f x)) → Total (m >>= f)
  unfolding ◌>>=◌
  Total-bind m f k l = record { at = λ s. let (a, e) = k.at s in continued f (m s) a e l }

  pub Total-maybe :
      (o : Option A) (m : Exec B) (f : A → Exec B)
      → Total m
      → ((a : A) → Total (f a))
      → Total (maybe o m f)
  unfolding maybe
  Total-maybe none m f k l = k
  Total-maybe (some a) m f k l = l a

pub ruleset total_rules = (Total-pure, Total-gets, Total-attempt, Total-if, Total-bind, Total-maybe)
