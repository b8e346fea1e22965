-- ===== src/Contacts.antt =====
-- `ContactService` of apps/contacts/services.py, as far as enrollments use it.
use valuecrm.Base.{ℕ, String, Option, none, some, ◌==◌, string_eq, get_or, truthy}
use valuecrm.Table.{set, add, fresh, select, first}
use valuecrm.Model.{Contact}
use valuecrm.Exec.{Exec, pure, gets, lift, write_contacts, ◌>>=◌, ◌>>◌, maybe}
use valuecrm.ClickFunnels.{RemoteContact, ClickFunnelsClient}

-- `Contact.objects.filter(email=email).first()`
abbrev pub get_by_email : String → Exec (Option (ℕ × Contact))
get_by_email email = gets (λ s. first (select (λ j c. c.email == email) s.contacts))

-- The columns that the remote contact sets.
abbrev pub synced : RemoteContact → Contact → Contact
synced dto c = record c {
  cf_contact_id = some dto.id;
  first_name = get_or (truthy dto.first_name) c.first_name;
  last_name = get_or (truthy dto.last_name) c.last_name;
}

abbrev pub new_contact : String → Contact
new_contact email = record {
  email = email;
  phone = "";
  first_name = "";
  last_name = "";
  cf_contact_id = none;
}

-- `local_contact.save()`
unfoldable pub save_contact : Option (ℕ × Contact) → String → RemoteContact → Exec (ℕ × Contact)
save_contact none email dto = do
  key ← gets (λ s. fresh s.contacts)
  write_contacts (λ s. add (synced dto (new_contact email)) s.contacts)
  pure (key, synced dto (new_contact email))
save_contact (some (key, c)) email dto = do
  write_contacts (λ s. set key (synced dto c) s.contacts)
  pure (key, synced dto c)

-- `get_or_create_remote_contact`
unfoldable pub get_or_create_remote_contact :
    ClickFunnelsClient → String → ℕ → String → Exec (ℕ × Contact)
unfolding save_contact
get_or_create_remote_contact client subdomain workspace_id email = do
  local_contact ← get_by_email email
  answer ← gets (λ s. client.get_contact_by_email s subdomain workspace_id email)
  found ← lift answer
  remote ←
      maybe found
        (do
          created ← gets (λ s. client.create_contact s subdomain workspace_id email)
          lift created)
        (λ dto. pure dto)
  save_contact local_contact email remote
