-- ===== src/Table.antt =====
-- A database table: rows under their primary keys, the newest first. `get` is a select by key, `set`
-- an update of one row, `add` an insert under the next key.
pub mod Evolves
pub mod Keys
use Prim.Native.Nat.{max}
use valuecrm.Base.{
  ℕ, zero, suc, ◌≤◌, ◌<◌, ◌≡◌, refl, ◌≢◌, Bool, true, false, Option, none, some, List, [], ◌∷◌,
  arith, ◌==◌, nat_eq, if◌then◌else◌,
}

abbrev pub Table {ℓ} : Type ℓ → Type ℓ
Table R = List (ℕ × R)

module _ {ℓ} {R : Type ℓ} where
  unfoldable pub get : ℕ → Table R → Option R
  get k [] = none
  get k ((j, r) ∷ t) = if k == j then some r else get k t

  unfoldable pub set : ℕ → R → Table R → Table R
  set k r [] = []
  set k r ((j, s) ∷ t) = if k == j then (k, r) ∷ t else (j, s) ∷ set k r t

  -- The next key of the table's sequence. The code deletes no row, so it was never used before.
  unfoldable pub fresh : Table R → ℕ
  fresh [] = 1
  fresh ((j, r) ∷ t) = max (suc j) (fresh t)

  unfoldable pub add : R → Table R → Table R
  unfolding fresh
  add r t = (fresh t, r) ∷ t

  -- The rows that a filter keeps.
  unfoldable pub select : (ℕ → R → Bool) → Table R → Table R
  select p [] = []
  select p ((j, r) ∷ t) = let rest = select p t in if p j r then (j, r) ∷ rest else rest

  -- `.update(…)` of the rows that a filter keeps
  unfoldable pub update : (ℕ → R → Bool) → (R → R) → Table R → Table R
  update p f [] = []
  update p f ((j, r) ∷ t) = (j, (if p j r then f r else r)) ∷ update p f t

  -- `.first()`
  abbrev pub first : Table R → Option (ℕ × R)
  first [] = none
  first (e ∷ t) = some e

  -- `.exists()`
  unfoldable pub exists : (ℕ → R → Bool) → Table R → Bool
  exists p [] = false
  exists p ((j, r) ∷ t) = if p j r then true else exists p t

module _ {ℓ} {R : Type ℓ} where
  pub get-set :
      (k j : ℕ) (r : R) {s : R} (t : Table R)
      → get k t ≡ some s
      → get j (set k r t) ≡ (if k == j then some r else get j t)
  unfolding get set
  get-set k j r [] h = ground arith
  get-set k j r {s} ((i, q) ∷ t) h = ground (arith, get-set k j r {s = s} t)

  pub get-set_self :
      (k : ℕ) (r : R) {s : R} (t : Table R) → get k t ≡ some s → get k (set k r t) ≡ some r
  get-set_self k r {s} t h = ground (arith, get-set k k r {s = s} t h)

  pub get-set-none : (k j : ℕ) (r : R) (t : Table R) → get k t ≡ none → set k r t ≡ t
  unfolding get set
  get-set-none k j r [] h = refl
  get-set-none k j r ((i, q) ∷ t) h = ground (arith, get-set-none k j r t)

  get-ge-fresh : (k : ℕ) (t : Table R) → fresh t ≤ k → get k t ≡ none
  unfolding get fresh
  get-ge-fresh k [] h = refl
  get-ge-fresh k ((j, r) ∷ t) h = ground (arith, get-ge-fresh k t)

  pub get-fresh : (t : Table R) → get (fresh t) t ≡ none
  get-fresh t = get-ge-fresh (fresh t) t (omega arith)

  pub get-add :
      (j : ℕ) (r : R) (t : Table R) → get j (add r t) ≡ (if j == fresh t then some r else get j t)
  unfolding get add
  get-add j r t = refl

  -- A row that passes the test makes the test exist.
  pub exists-get :
      (p : ℕ → R → Bool) (k : ℕ) (r : R) (t : Table R)
      → get k t ≡ some r
      → exists p t ≡ false
      → p k r ≡ false
  unfolding get exists
  exists-get p k r [] h e = ground arith
  exists-get p k r ((j, q) ∷ t) h e = ground (arith, exists-get p k r t)

  pub first-select-add :
      (p : ℕ → R → Bool) (r : R) (t : Table R)
      → p (fresh t) r ≡ true
      → first (select p (add r t)) ≡ some (fresh t, r)
  unfolding select add
  first-select-add p r t h = ground arith

  pub set-set : (k : ℕ) (r s : R) (t : Table R) → set k s (set k r t) ≡ set k s t
  unfolding set
  set-set k r s [] = refl
  set-set k r s ((j, q) ∷ t) = ground (arith, set-set k r s t)

  pub set-get : (k : ℕ) (r : R) (t : Table R) → get k t ≡ some r → set k r t ≡ t
  unfolding get set
  set-get k r [] h = refl
  set-get k r ((j, q) ∷ t) h = ground (arith, set-get k r t)
