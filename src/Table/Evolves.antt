-- ===== src/Table/Evolves.antt =====
-- How a table changes: no row is lost, and each row is related to what it was.
use native.Mathlib.Decide.{ℕ_discrete}
use mathlib.Core.Path.{subst}
use valuecrm.Base.{
  ℕ, ◌≡◌, refl, some, arith, nat_eq, Bool, true, false, ◌∷◌, [], ◌==◌, if◌then◌else◌, if_intro,
  some_inj,
}
use valuecrm.Table.{Table, get, set, add, update, get-set, get-add, get-fresh}

pub record Evolves {ℓ κ} {R : Type ℓ} (P : R → R → Type κ) (t u : Table R) : Type (ℓ ⊔ κ) where
  pub at : (k : ℕ) (r : R) → get k t ≡ some r → (s : R) × (get k u ≡ some s) × P r s

module _ {ℓ κ} {R : Type ℓ} {P : R → R → Type κ} where
  pub Evolves-refl : ((r : R) → P r r) → (t : Table R) → Evolves P t t
  Evolves-refl p t = record { at = λ k r h. (r, h, p r) }

  pub Evolves-trans :
      ((q r s : R) → P q r → P r s → P q s)
      → (t u v : Table R) → Evolves P t u
      → Evolves P u v
      → Evolves P t v
  Evolves-trans p t u v e f = record {
    at = λ k q h. let (r, g, a) = e.at k q h in let (s, i, b) = f.at k r g in (s, i, p q r s a b);
  }

  pub Evolves-set :
      ((r : R) → P r r)
      → (k : ℕ) (r s : R) (t : Table R) → get k t ≡ some r
      → P r s
      → Evolves P t (set k s t)
  Evolves-set p k r s t h a = record {
    at = λ j q e. elim (ℕ_discrete k j) [
      | yes same ↦ (
        s,
        ground (arith, get-set k j s {s = r} t),
        let back : r ≡ q = ground arith in subst (λ x. P x s) back a,
      )
      | no other ↦ (q, ground (arith, get-set k j s {s = r} t), p q)
    ];
  }

  pub Evolves-add : ((r : R) → P r r) → (r : R) (t : Table R) → Evolves P t (add r t)
  Evolves-add p r t = record { at = λ k q e. (q, ground (arith, get-add k r t, get-fresh t), p q) }

  pub Evolves-update :
      ((r : R) → P r r)
      → (p : ℕ → R → Bool) (f : R → R) → ((k : ℕ) (r : R) → p k r ≡ true → P r (f r))
      → (t : Table R) → Evolves P t (update p f t)
  unfolding get update
  Evolves-update same p f h [] = record { at = λ k r e. cc }
  Evolves-update same p f h ((j, q) ∷ t) = record {
    at = λ k r e. looked k r (k == j) (Evolves-update same p f h t) e;
  }
    where
      looked :
          (k : ℕ) (r : R) (b : Bool)
          → Evolves P t (update p f t)
          → (if b then some q else get k t) ≡ some r
          → (x : R) × ((if b then some (if p j q then f q else q) else get k (update p f t))
              ≡ some x)
            × P r x
      looked k r true rest e = (
        if p j q then f q else q,
        refl,
        subst (λ x. P x (if p j q then f q else q)) (some_inj e)
            (if_intro (P q) (p j q) (h j q) (λ _. same q)),
      )
      looked k r false rest e = rest.at k r e
