-- ===== src/ClickFunnels.antt =====
-- The client of integrations/clickfunnels/client.py, the configuration that `get_active_config` of
-- apps/configuration/services.py returns, and what the services do with them. HTTP requests and
-- pydantic decoding are parameters. An answer may depend on the database, since the records of
-- earlier calls stand there, so that a service that asks twice need not be told the same twice.
use valuecrm.Base.{ℕ, ⊤, Bool, String, Option}
use valuecrm.Model.{Db}
use valuecrm.Exec.{Error, Result}

-- `ContactDTO`; its `id` is the text `str(dto.id)`
pub record RemoteContact : Type 0 where
  pub id : String
  pub first_name : Option String
  pub last_name : Option String

pub record ClickFunnelsConfig : Type 0 where
  pub api_access_token : String
  pub workspace_id : Option String
  pub workspace_subdomain : Option String

pub record ClickFunnelsClient : Type 0 where
  pub get_contact_by_email : Db → String → ℕ → String → Result (Option RemoteContact)
  pub create_contact : Db → String → ℕ → String → Result RemoteContact
  -- `str(dto.id)` of the new enrollment
  pub enroll_contact_in_course : Db → String → ℕ → ℕ → Result String
  pub update_enrollment_suspension : Db → String → ℕ → Bool → String → Result ⊤

-- What the enrollment services take from outside.
pub record Provider : Type 0 where
  pub config : Option ClickFunnelsConfig
  pub client : ClickFunnelsClient
  -- `decrypt_value` of shared/security.py with the key and the cipher of the installation
  pub decrypt_value : String → Result String
  -- Python's `int(text)`; `none` for a text that it refuses with `ValueError`
  pub int : String → Option ℕ
  -- `str(e)`
  pub str_error : Error → String
