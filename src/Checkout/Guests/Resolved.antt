-- ===== src/Checkout/Guests/Resolved.antt =====
-- Which contact a guest is, and what that keeps.
use valuecrm.Base.{
  ℕ, ◌≡◌, refl, arith, String, Option, none, some, [], ◌∷◌, subst, sym, Bool-cases, Option-cases,
  inl, inr, ◌==◌, string_eq, Bool, beq_refl, nat_eq,
}
use valuecrm.Table.{Table, get, add, fresh, select, first, get-add, get-fresh, first-select-add}
use valuecrm.Table.Keys.{HasKeys, get-first-select}
use valuecrm.Model.{Db, Contact}
use valuecrm.Exec.{Result, ok, pure, gets, maybe, write_contacts, ◌>>=◌}
use valuecrm.Checkout.Guests.{Texts, guest_email, guest, resolve_guest_contact}

-- What finding the contact of a guest leaves: the contact stands under its key with the e-mail
-- address, every contact that stood stands unchanged, and a checkout with the same address, in
-- whatever spelling and with whatever name and telephone number, finds it again and writes nothing.
pub record Resolved (t : Texts) (email : Option String) (s : Db) (p : Result ℕ × Db) : Type 0 where
  pub key : ℕ
  pub contact : Contact
  pub returned : p.0 ≡ ok key
  pub stands : get key p.1.contacts ≡ some contact
  pub address : contact.email ≡ guest_email t email
  pub kept : (j : ℕ) (c : Contact) → get j s.contacts ≡ some c → get j p.1.contacts ≡ some c
  pub again :
      (email' phone : Option String) (first_name last_name : String)
      → guest_email t email' ≡ guest_email t email
      → resolve_guest_contact t email' phone first_name last_name p.1 ≡ (ok key, p.1)

module _ (t : Texts) where
  abbrev has_address : Option String → ℕ → Contact → Bool
  has_address email j c = c.email == guest_email t email

  -- A contact that a select by address finds has the address.
  first-address :
      (email : Option String) (k : ℕ) (c : Contact) (cs : Table Contact)
      → first (select (has_address email) cs) ≡ some (k, c)
      → c.email ≡ guest_email t email
  unfolding select
  first-address email k c [] h = ground arith
  first-address email k c ((j, d) ∷ cs) h = elim (Bool-cases (has_address email j d)) [
    | inl same ↦
        ground (arith, h, same, (string_eq.equals_iff d.email (guest_email t email)).0 same)
    | inr other ↦ ground (arith, first-address email k c cs, h, other)
  ]

  found_lem :
      (email phone : Option String) (first_name last_name : String) (k : ℕ) (c : Contact) (s : Db)
      → first (select (has_address email) s.contacts) ≡ some (k, c)
      → resolve_guest_contact t email phone first_name last_name s ≡ (ok k, s)
  unfolding resolve_guest_contact gets maybe pure ◌>>=◌
  found_lem email phone first_name last_name k c s h = rw h refl

  new_lem :
      (email phone : Option String) (first_name last_name : String) (s : Db)
      → first (select (has_address email) s.contacts) ≡ none
      → resolve_guest_contact t email phone first_name last_name s ≡ (
        ok (fresh s.contacts),
        record s { contacts = add (guest t email phone first_name last_name) s.contacts },
      )
  unfolding resolve_guest_contact gets maybe pure write_contacts ◌>>=◌
  new_lem email phone first_name last_name s h = rw h refl

  -- The same address finds the same contact.
  again_lem :
      (email email' phone : Option String) (first_name last_name : String) (k : ℕ) (c : Contact)
      (s : Db)
      → first (select (has_address email) s.contacts) ≡ some (k, c)
      → guest_email t email' ≡ guest_email t email
      → resolve_guest_contact t email' phone first_name last_name s ≡ (ok k, s)
  again_lem email email' phone first_name last_name k c s h e =
      found_lem email' phone first_name last_name k c s
        (subst (λ a. first (select (λ j d. d.email == a) s.contacts) ≡ some (k, c)) (sym e) h)

  new-stands : (r : Contact) (cs : Table Contact) → get (fresh cs) (add r cs) ≡ some r
  new-stands r cs = ground (arith, get-add (fresh cs) r cs)

  new-kept :
      (r : Contact) (cs : Table Contact) (j : ℕ) (c : Contact)
      → get j cs ≡ some c
      → get j (add r cs) ≡ some c
  new-kept r cs j c h = ground (arith, get-add j r cs, get-fresh cs, h)

  -- In a database whose contacts have distinct keys, `resolve_guest_contact` always returns: the
  -- contact of the e-mail address, which stands then; every contact that stood stands unchanged, and
  -- a later checkout with the same address, in whatever spelling and with whatever name and
  -- telephone number, finds it again and writes nothing.
  pub resolve_guest-Resolved :
      (email phone : Option String) (first_name last_name : String) (s : Db)
      → HasKeys s.contacts
      → Resolved t email s (resolve_guest_contact t email phone first_name last_name s)
  resolve_guest-Resolved email phone first_name last_name s keys =
      elim (Option-cases (first (select (has_address email) s.contacts))) [
        | inl missing ↦
            subst (Resolved t email s) (sym (new_lem email phone first_name last_name s missing))
              (record {
                key = fresh s.contacts;
                contact = guest t email phone first_name last_name;
                returned = refl;
                stands = new-stands (guest t email phone first_name last_name) s.contacts;
                address = refl;
                kept = new-kept (guest t email phone first_name last_name) s.contacts;
                again = λ email' phone' first' last' e.
                    again_lem email email' phone' first' last' (fresh s.contacts)
                      (guest t email phone first_name last_name) _
                      (first-select-add (has_address email)
                        (guest t email phone first_name last_name) s.contacts
                        (beq_refl (guest_email t email)))
                      e;
              })
        | inr ((k, c), found) ↦
            subst (Resolved t email s)
              (sym (found_lem email phone first_name last_name k c s found))
              (record {
                key = k;
                contact = c;
                returned = refl;
                stands = get-first-select (has_address email) k c s.contacts keys found;
                address = first-address email k c s.contacts found;
                kept = λ j d h. h;
                again = λ email' phone' first' last' e.
                    again_lem email email' phone' first' last' k c s found e;
              })
      ]
