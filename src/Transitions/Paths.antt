-- ===== src/Transitions/Paths.antt =====
-- Chains of moves in a transition table, and what follows from a table entry that is empty.
use valuecrm.Base.{◌≡◌, refl, true, List, [], HasEq, elem, subst}

-- `c` is reached from `a` by moves that the table allows, or is `a`.
pub data Follows {A : Type 0} ⦃e : HasEq A⦄ (table : A → List A) (a : A) : A → Type 0 where
  here : Follows table a a
  next : {b c : A} → Follows table a b → elem c (table b) ≡ true → Follows table a c

module _ {A : Type 0} ⦃e : HasEq A⦄ {table : A → List A} where
  pub Follows-trans : {a b c : A} → Follows table a b → Follows table b c → Follows table a c
  Follows-trans p here = p
  Follows-trans p (next q m) = next (Follows-trans p q) m

  pub Follows-one : {a b : A} → elem b (table a) ≡ true → Follows table a b
  Follows-one m = next here m

  -- Nothing is reached from a status without moves but itself.
  pub Follows-terminal : {a b : A} → table a ≡ [] → Follows table a b → b ≡ a
  Follows-terminal t here = refl
  Follows-terminal {a} t (next {b = b} {c = c} p m) =
      let same : b ≡ a = Follows-terminal t p in
      let moves : elem c (table a) ≡ true = subst (λ x. elem c (table x) ≡ true) same m in
      let none : elem c [] ≡ true = subst (λ l. elem c l ≡ true) t moves in cc
