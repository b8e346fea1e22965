-- ===== src/Table/Keys.antt =====
-- Tables in which no key stands twice, as a primary key demands.
use valuecrm.Base.{
  ℕ, ◌≡◌, refl, Bool, none, some, [], ◌∷◌, arith, ◌==◌, nat_eq, Bool-cases, inl, inr,
}
use valuecrm.Table.{Table, get, set, add, select, first, get-fresh}

module _ {ℓ} {R : Type ℓ} where
  -- Each key is that of one row.
  abbrev pub HasKeys : Table R → Type ℓ
  HasKeys [] = Unit
  HasKeys ((j, r) ∷ t) = (get j t ≡ none) × HasKeys t

  pub get-first-select :
      (p : ℕ → R → Bool) (k : ℕ) (r : R) (t : Table R)
      → HasKeys t
      → first (select p t) ≡ some (k, r)
      → get k t ≡ some r
  unfolding get select
  get-first-select p k r [] h e = cc
  get-first-select p k r ((j, q) ∷ t) (new, h) e = ground (arith, get-first-select p k r t h)

  get-set_missing : (k j : ℕ) (r : R) (t : Table R) → get j t ≡ none → get j (set k r t) ≡ none
  unfolding get set
  get-set_missing k j r [] h = refl
  get-set_missing k j r ((i, q) ∷ t) h = ground (arith, get-set_missing k j r t)

  pub set-HasKeys : (k : ℕ) (r : R) (t : Table R) → HasKeys t → HasKeys (set k r t)
  unfolding set get
  set-HasKeys k r [] h = h
  set-HasKeys k r ((j, q) ∷ t) (new, h) = elim (Bool-cases (k == j)) [
    | inl same ↦ rw same (ground (arith, new, same), h)
    | inr other ↦ rw other (get-set_missing k j r t new, set-HasKeys k r t h)
  ]

  pub add-HasKeys : (r : R) (t : Table R) → HasKeys t → HasKeys (add r t)
  unfolding add
  add-HasKeys r t h = (get-fresh t, h)
