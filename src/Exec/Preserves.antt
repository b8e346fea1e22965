-- ===== src/Exec/Preserves.antt =====
-- What a call leaves true, whether it returns or raises: a rule for each way to build a call.
use valuecrm.Base.{
  ◌≡◌, ap, subst, ⊤, Bool, true, false, Option, none, some, List, [], ◌∷◌, if◌then◌else◌,
}
use valuecrm.Model.{Db}
use valuecrm.Exec.{
  Exec, Error, Result, ok, err, pure, raise, gets, lift, or_raise, atomic, catch, attempt, ◌>>=◌,
  maybe, for_each, count_each, when,
}

pub record Preserves {ℓ} {A : Type 0} (P : Db → Type ℓ) (m : Exec A) : Type ℓ where
  pub after : (s : Db) → P s → P (m s).1

rolled_back {ℓ} :
    {A : Type 0} (P : Db → Type ℓ) (r : Result A) (s s' : Db)
    → P s
    → P s'
    → P (atomic (λ _. (r, s')) s).1
unfolding atomic
rolled_back P (ok a) s s' h h' = h'
rolled_back P (err e) s s' h h' = h

module _ {ℓ} {P : Db → Type ℓ} {A : Type 0} where
  pub Preserves-pure : (a : A) → Preserves P (pure a)
  unfolding pure
  Preserves-pure a = record { after = λ s h. h }

  pub Preserves-raise : (e : Error) → Preserves P (raise {A = A} e)
  unfolding raise
  Preserves-raise e = record { after = λ s h. h }

  pub Preserves-gets : (f : Db → A) → Preserves P (gets f)
  unfolding gets
  Preserves-gets f = record { after = λ s h. h }

  pub Preserves-lift : (r : Result A) → Preserves P (lift r)
  unfolding lift
  Preserves-lift r = record { after = λ s h. h }

  pub Preserves-or_raise : (o : Option A) (e : Error) → Preserves P (or_raise o e)
  unfolding or_raise
  Preserves-or_raise none e = record { after = λ s h. h }
  Preserves-or_raise (some a) e = record { after = λ s h. h }

  pub Preserves-atomic : (m : Exec A) → Preserves P m → Preserves P (atomic m)
  unfolding atomic
  Preserves-atomic m k = record {
    after = λ s h. let (r, s') = m s in rolled_back P r s s' h (k.after s h);
  }

  handled :
      (h : Error → Exec A) (r : Result A) (s : Db)
      → ((e : Error) → Preserves P (h e))
      → P s
      → P (catch (λ _. (r, s)) h s).1
  unfolding catch
  handled h (ok a) s k p = p
  handled h (err e) s k p = (k e).after s p

  pub Preserves-catch :
      (m : Exec A) (h : Error → Exec A)
      → Preserves P m
      → ((e : Error) → Preserves P (h e))
      → Preserves P (catch m h)
  unfolding catch
  Preserves-catch m h k l = record {
    after = λ s p. let (r, s') = m s in handled h r s' l (k.after s p);
  }

  pub Preserves-if :
      (b : Bool) (m n : Exec A) → Preserves P m → Preserves P n → Preserves P (if b then m else n)
  Preserves-if true m n k l = k
  Preserves-if false m n k l = l

module _ {ℓ} {P : Db → Type ℓ} {A B : Type 0} where
  continued :
      (f : A → Exec B) (r : Result A) (s : Db)
      → ((a : A) → Preserves P (f a))
      → P s
      → P (◌>>=◌ (λ _. (r, s)) f s).1
  unfolding ◌>>=◌
  continued f (ok a) s k h = (k a).after s h
  continued f (err e) s k h = h

  pub Preserves-bind :
      (m : Exec A) (f : A → Exec B)
      → Preserves P m
      → ((a : A) → Preserves P (f a))
      → Preserves P (m >>= f)
  unfolding ◌>>=◌
  Preserves-bind m f k l = record {
    after = λ s h. let (r, s') = m s in continued f r s' l (k.after s h);
  }

  pub Preserves-maybe :
      (o : Option A) (m : Exec B) (f : A → Exec B)
      → Preserves P m
      → ((a : A) → Preserves P (f a))
      → Preserves P (maybe o m f)
  unfolding maybe
  Preserves-maybe none m f k l = k
  Preserves-maybe (some a) m f k l = l a

-- The rule for a bind from one state: the first call leaves `Q`, under which the rest leaves `P`.
pub bind_after {ℓ κ} :
    {A B : Type 0} (P : Db → Type ℓ) (Q : Db → Type κ) (m : Exec A) (f : A → Exec B) (s : Db)
    → Q (m s).1
    → ((t : Db) → Q t → P t)
    → ((a : A) (t : Db) → Q t → P (f a t).1)
    → P ((m >>= f) s).1
unfolding ◌>>=◌
bind_after {A} {B} P Q m f s q weaken rest = shape (m s) q
  where
    shape : (p : Result A × Db) → Q p.1 → P ((◌>>=◌ (λ _. p) f) s).1
    shape (ok a, t) h = rest a t h
    shape (err e, t) h = weaken t h

-- The rule for a transaction from one state.
pub atomic_after {ℓ} :
    {A : Type 0} (P : Db → Type ℓ) (m : Exec A) (s : Db) → P s → P (m s).1 → P (atomic m s).1
unfolding atomic
atomic_after P m s h k = let (r, t) = m s in rolled_back P r s t h k

-- What a call leaves true holds of the state in which it ended.
pub at_end {ℓ} :
    {A : Type 0} (P : Db → Type ℓ) (m : Exec A) (s : Db) {r : Result A} {t : Db}
    → m s ≡ (r, t)
    → P (m s).1
    → P t
at_end P m s h p = subst P (ap (λ q. q.1) h) p

pub Preserves-attempt {ℓ} :
    {P : Db → Type ℓ} {A : Type 0} (m : Exec A) → Preserves P m → Preserves P (attempt m)
unfolding attempt
Preserves-attempt m k = record { after = λ s h. k.after s h }

pub Preserves-when {ℓ} :
    {P : Db → Type ℓ} (b : Bool) (m : Exec ⊤) → Preserves P m → Preserves P (when b m)
unfolding when
Preserves-when true m k = k
Preserves-when false m k = Preserves-pure tt

pub Preserves-for_each {ℓ} :
    {P : Db → Type ℓ} {A : Type 0} (xs : List A) (f : A → Exec ⊤)
    → ((x : A) → Preserves P (f x))
    → Preserves P (for_each xs f)
unfolding for_each
Preserves-for_each [] f k = Preserves-pure tt
Preserves-for_each (x ∷ xs) f k = Preserves-bind (f x) _ (k x) (λ _. Preserves-for_each xs f k)

pub Preserves-count_each {ℓ} :
    {P : Db → Type ℓ} {A : Type 0} (xs : List A) (f : A → Exec Bool)
    → ((x : A) → Preserves P (f x))
    → Preserves P (count_each xs f)
unfolding count_each
Preserves-count_each [] f k = Preserves-pure _
Preserves-count_each (x ∷ xs) f k = Preserves-bind (f x) _ (k x) (λ counted.
    Preserves-bind (count_each xs f) _ (Preserves-count_each xs f k) (λ n. Preserves-pure _))

pub ruleset preserves_rules = (
  Preserves-pure, Preserves-raise, Preserves-gets, Preserves-lift, Preserves-or_raise,
  Preserves-atomic, Preserves-catch, Preserves-if, Preserves-for_each, Preserves-bind,
  Preserves-maybe, Preserves-when, Preserves-attempt, Preserves-count_each,
)
