-- ===== src/Base/Equality.antt =====
-- Equality tests as an interface, with one operator for every type that has it.
use Prim.Native.Nat.{ℕ, zero, suc}
use Prim.Native.String.{String}
use mathlib.Core.Path.{◌≡◌, refl}
use mathlib.Core.Logic.{◌↔◌}
use mathlib.Core.Bool.{Bool, true, false, ◌||◌}
use mathlib.Core.Option.{Option, none, some}
use mathlib.Core.List.{List, [], ◌∷◌}
use native.Mathlib.Omega.{arith}
use text.Mathlib.Text.{◌==◌ as str_eq}
use text.Mathlib.TextEquality.{eq_iff}
use valuecrm.Base.Defs.{nat_beq, if◌then◌else◌}

-- A type whose `==` tests for equality.
pub record HasEq {κ} (T : Type κ) : Type κ where
  pub equals : T → T → Bool
  pub equals_iff : (x y : T) → (equals x y ≡ true) ↔ (x ≡ y)

module _ {κ} {T : Type κ} ⦃h : HasEq T⦄ where
  infix 50 ◌==◌
  abbrev pub ◌==◌ : T → T → Bool
  ◌==◌ = h.equals

  pub beq_refl : (x : T) → (x == x) ≡ true
  beq_refl x = (h.equals_iff x x).1 refl

instance abbrev pub string_eq : HasEq String
string_eq = record { equals = str_eq; equals_iff = eq_iff }

pub nat_beq_iff : (m n : ℕ) → (nat_beq m n ≡ true) ↔ (m ≡ n)
nat_beq_iff m n = ground arith

instance abbrev pub nat_eq : HasEq ℕ
nat_eq = record { equals = nat_beq; equals_iff = nat_beq_iff }

-- `x in xs`
abbrev pub elem {ℓ} : {A : Type ℓ} ⦃h : HasEq A⦄ → A → List A → Bool
elem a [] = false
elem a (x ∷ xs) = a == x || elem a xs

-- Python's truth of an optional text.
abbrev pub truthy : Option String → Option String
truthy none = none
truthy (some p) = if p == "" then none else some p

-- Python's `s[:n]`
unfoldable pub take_text : ℕ → String → String
take_text zero s = ""
take_text (suc n) String.[] = ""
take_text (suc n) (String.◌∷◌ c s) = String.◌∷◌ c (take_text n s)
