-- ===== src/Tara.antt =====
-- Tara as the services see it: the client's calls with their answers (integrations/payments/tara), and
-- `TaraConfigService.get_client` of apps/payments/services.py. What the network answers, and whether
-- the stored credentials decrypt, are parameters.
use valuecrm.Base.{ℕ, String, Option, none, some, ◌==◌, string_eq, if◌then◌else◌}
use valuecrm.Exec.{Result, ok, err, tara, configuration, credential}

-- `TaraTransactionStatus`
pub data TaraStatus : Type 0 where
  success failure pending unknown : TaraStatus

-- `TaraPaymentStatusResponse`, the answer to a lookup by Tara's payment id
pub record PaymentStatus : Type 0 where
  pub status : String
  pub product_id : Option String
  pub payment_id : Option String
  pub business_id : Option String
  pub amount : Option ℕ

-- `TaraTransactionStatusResponse`, the answer to a lookup by the product id
pub record TransactionStatus : Type 0 where
  pub status : String
  pub product_id : String

-- `TaraPaymentLinkResponse`
pub record LinkResponse : Type 0 where
  pub status : String
  pub message : String
  pub whatsapp_link : Option String
  pub telegram_link : Option String
  pub dikalo_link : Option String
  pub general_link : Option String
  pub card_link : Option String
  pub sms_link : Option String

-- The calls of `TaraClient`, by what they answer or raise.
pub record Client : Type 0 where
  pub business_id : String
  pub check_payment_status : String → Result PaymentStatus
  pub check_transaction_status : String → Result TransactionStatus
  pub create_payment_link : String → ℕ → Result LinkResponse

pub record TaraConfig : Type 0 where
  pub business_id : String
  pub api_key : String
  pub webhook_secret : String

-- `TaraConfigService.get_client`, by the active configuration and by `TaraClient.from_configuration`
-- where the credentials decrypt
unfoldable pub get_client : Option TaraConfig → (TaraConfig → Option Client) → Result Client
get_client none connect = err (tara configuration)
get_client (some config) connect =
    if config.business_id == ""
    then err (tara configuration)
    else elim (connect config) [ none ↦ err (tara credential) | some client ↦ ok client ]

-- `normalized_status`, by Python's `strip().upper()`
unfoldable pub normalized_status : (String → String) → String → TaraStatus
normalized_status strip_upper status =
    let word : String = strip_upper status in
    if word == "SUCCESS"
    then success
    else if word == "FAILURE"
    then failure
    else if word == "PENDING"
    then pending
    else unknown
