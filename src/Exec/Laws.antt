-- ===== src/Exec/Laws.antt =====
-- A chain of calls, stepped through with the calls shut.
use valuecrm.Base.{◌≡◌, refl, ◌⊎◌, inl, inr, sym, ap, ◌∙◌}
use valuecrm.Model.{Db}
use valuecrm.Exec.{Exec, Error, Result, ok, err, atomic, catch, ◌>>=◌}

module _ {A B : Type 0} where
  abbrev bind_result : (A → Exec B) → Result A × Db → Result B × Db
  bind_result f (ok a, s) = f a s
  bind_result f (err e, s) = (err e, s)

  bind-eq-bind_result : (m : Exec A) (f : A → Exec B) (s : Db) → (m >>= f) s ≡ bind_result f (m s)
  unfolding ◌>>=◌
  bind-eq-bind_result m f s = shape (m s)
    where
      shape : (p : Result A × Db) → (◌>>=◌ (λ _. p) f) s ≡ bind_result f p
      shape (ok a, t) = refl
      shape (err e, t) = refl

  pub bind-ok :
      (m : Exec A) (f : A → Exec B) (s : Db) {a : A} {t : Db}
      → m s ≡ (ok a, t)
      → (m >>= f) s ≡ f a t
  bind-ok m f s h = rw bind-eq-bind_result (ap (bind_result f) h)

  pub bind-err :
      (m : Exec A) (f : A → Exec B) (s : Db) {e : Error} {t : Db}
      → m s ≡ (err e, t)
      → (m >>= f) s ≡ (err e, t)
  bind-err m f s h = rw bind-eq-bind_result (ap (bind_result f) h)

  -- A chain that returned has returned at its first call, and then at the rest.
  pub bind-eq-ok :
      (m : Exec A) (f : A → Exec B) (s : Db) {b : B} {t : Db}
      → (m >>= f) s ≡ (ok b, t)
      → (a : A) × (u : Db) × (m s ≡ (ok a, u)) × (f a u ≡ (ok b, t))
  bind-eq-ok m f s {b} {t} h = shape (m s) refl (sym (bind-eq-bind_result m f s) ∙ h)
    where
      shape :
          (p : Result A × Db)
          → m s ≡ p
          → bind_result f p ≡ (ok b, t)
          → (a : A) × (u : Db) × (m s ≡ (ok a, u)) × (f a u ≡ (ok b, t))
      shape (ok a, u) e q = (a, u, e, q)
      shape (err x, u) e q = cc

module _ {A : Type 0} where
  pub catch-ok :
      (m : Exec A) (h : Error → Exec A) (s : Db) {a : A} {t : Db}
      → m s ≡ (ok a, t)
      → catch m h s ≡ (ok a, t)
  unfolding catch
  catch-ok m h s {a} {t} q = shape (m s) q
    where
      shape : (p : Result A × Db) → p ≡ (ok a, t) → catch (λ _. p) h s ≡ (ok a, t)
      shape (ok b, u) e = e
      shape (err x, u) e = cc

  -- A guarded transaction that returned: its body returned, or a handler did from the old state.
  pub catch-atomic-eq-ok :
      (m : Exec A) (h : Error → Exec A) (s : Db) {a : A} {t : Db}
      → catch (atomic m) h s ≡ (ok a, t)
      → (m s ≡ (ok a, t)) ⊎ ((e : Error) × (h e s ≡ (ok a, t)))
  unfolding catch atomic
  catch-atomic-eq-ok m h s {a} {t} q = shape (m s) q
    where
      shape :
          (p : Result A × Db)
          → catch (atomic (λ _. p)) h s ≡ (ok a, t)
          → (p ≡ (ok a, t)) ⊎ ((e : Error) × (h e s ≡ (ok a, t)))
      shape (ok b, u) e = inl e
      shape (err x, u) e = inr (x, e)

  abbrev atomic_result : Db → Result A × Db → Result A × Db
  atomic_result s (ok a, t) = (ok a, t)
  atomic_result s (err e, t) = (err e, s)

  pub atomic-eq-atomic_result : (m : Exec A) (s : Db) → atomic m s ≡ atomic_result s (m s)
  unfolding atomic
  atomic-eq-atomic_result m s = shape (m s)
    where
      shape : (p : Result A × Db) → atomic (λ _. p) s ≡ atomic_result s p
      shape (ok a, t) = refl
      shape (err e, t) = refl

  pub atomic-ok : (m : Exec A) (s : Db) {a : A} {t : Db} → m s ≡ (ok a, t) → atomic m s ≡ (ok a, t)
  atomic-ok m s h = rw atomic-eq-atomic_result (ap (atomic_result s) h)

  pub atomic-err :
      (m : Exec A) (s : Db) {e : Error} {t : Db} → m s ≡ (err e, t) → atomic m s ≡ (err e, s)
  atomic-err m s h = rw atomic-eq-atomic_result (ap (atomic_result s) h)

  -- A transaction sees no more of a call than what it does from the state at hand.
  pub atomic-congr : (m n : Exec A) (s : Db) → m s ≡ n s → atomic m s ≡ atomic n s
  atomic-congr m n s h =
      atomic-eq-atomic_result m s ∙ ap (atomic_result s) h ∙ sym (atomic-eq-atomic_result n s)

  pub atomic-eq-ok :
      (m : Exec A) (s : Db) {a : A} {t : Db} → atomic m s ≡ (ok a, t) → m s ≡ (ok a, t)
  atomic-eq-ok m s {a} {t} h = shape (m s) (sym (atomic-eq-atomic_result m s) ∙ h)
    where
      shape : (p : Result A × Db) → atomic_result s p ≡ (ok a, t) → p ≡ (ok a, t)
      shape (ok b, u) q = q
      shape (err x, u) q = cc
