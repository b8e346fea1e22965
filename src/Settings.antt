-- ===== src/Settings.antt =====
-- What the payment services take from outside the repository: settings, the calendar of the business
-- time zone (`zoneinfo`), Python's `str` of a key and `upper` of a text, `hashlib.sha256`.
use valuecrm.Base.{ℕ, ◌*◌, String, Bool}

pub record Env : Type 0 where
  -- `timezone.localdate(timezone=_business_tz())` at an instant
  pub local_date : ℕ → ℕ
  -- `timezone.now().date()` at an instant
  pub utc_date : ℕ → ℕ
  -- the instant at which a date begins in the business time zone
  pub local_midnight : ℕ → ℕ
  pub str : ℕ → String
  -- `status.strip().upper()`, by the tables of Unicode
  pub strip_upper : String → String
  -- `iexact` of a filter
  pub iexact : String → String → Bool
  -- Python's `text.isascii()`
  pub is_ascii : String → Bool
  pub sha256_hex : String → String
  pub order_pending_expiry_days : ℕ
  pub order_failed_checkout_expiry_minutes : ℕ
  pub checkout_link_reuse_max_age_minutes : ℕ
  pub installment_suspension_grace_hours : ℕ

-- `timedelta` in seconds
abbrev pub minutes : ℕ → ℕ
minutes n = n * 60

abbrev pub hours : ℕ → ℕ
hours n = n * 3600

abbrev pub days : ℕ → ℕ
days n = n * 86400
