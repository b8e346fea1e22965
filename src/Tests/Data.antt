-- ===== src/Tests/Data.antt =====
-- A small database, settings and a client that answers, for the tests.
use valuecrm.Base.{ℕ, true, false, String, none, some, [], ◌∷◌, ◌==◌, string_eq}
use valuecrm.Model.{
  no_disposition, PaymentConfirmation, Db, first_installment, Course, PaymentPlan, Order,
  Installment, PaymentAttempt,
}
use valuecrm.Model.Status.{OrderStatus, InstallmentStatus, AttemptStatus}
use valuecrm.Exec.{ok, err, pure, tara, timeout}
use valuecrm.Settings.{Env}
use valuecrm.Tara.{TaraConfig, Client}
use valuecrm.Checkout.Guests.{Texts}
use valuecrm.Checkout.{Shop, no_links}
use valuecrm.Webhook.{Services}
use valuecrm.Orders.{frozen_terms}
use valuecrm.Followups.{new_confirmation}

abbrev pub env : Env
env = record {
  local_date = λ t. t;
  utc_date = λ t. t;
  local_midnight = λ d. d;
  str = λ n. "7";
  strip_upper = λ t. t;
  iexact = λ a b. a == b;
  is_ascii = λ t. true;
  sha256_hex = λ t. t;
  order_pending_expiry_days = 7;
  order_failed_checkout_expiry_minutes = 60;
  checkout_link_reuse_max_age_minutes = 60;
  installment_suspension_grace_hours = 48;
}

abbrev pub plan : PaymentPlan
plan = record {
  code = "P";
  name = "Plan";
  course = 1;
  currency = "XAF";
  installment_count = 2;
  installment_amount = 500;
  installment_interval_days = 30;
  access_policy = first_installment;
  is_active = true;
}

abbrev pub course : Course
course = record { cf_course_id = "cf"; name = "Course" }

abbrev pub order : Order
order = record {
  customer = 1;
  plan = 1;
  course = 1;
  idempotency_key = "key";
  terms = frozen_terms plan course;
  status = OrderStatus.pending;
  manual_disposition = no_disposition;
  suspended_for_nonpayment_at = none;
  created_at = 0;
  updated_at = 0;
}

abbrev pub installment : ℕ → Installment
installment sequence = record {
  order = 1;
  sequence = sequence;
  expected_amount = 500;
  currency = "XAF";
  due_date = 100;
  status = InstallmentStatus.scheduled;
  paid_amount = none;
  paid_at = none;
}

abbrev pub attempt : AttemptStatus → PaymentAttempt
attempt status = record {
  installment = 1;
  tara_product_id = "prod";
  tara_payment_id = none;
  expected_amount = 500;
  currency = "XAF";
  status = status;
  raw_provider_status = "";
  provider_message = "";
  links = no_links;
  initiated_at = none;
  completed_at = none;
  reconciliation_check_count = 0;
  next_reconciliation_check_at = none;
  updated_at = 0;
}

-- An order with two installments, the first of them being paid.
abbrev pub shop_db : AttemptStatus → Db
shop_db status = record {
  contacts =
      (
        1,
        record {
          email = "a@b.c";
          phone = "";
          first_name = "A";
          last_name = "B";
          cf_contact_id = none;
        },
      )
      ∷ [];
  courses = (1, course) ∷ [];
  plans = (1, plan) ∷ [];
  orders = (1, order) ∷ [];
  installments = (2, installment 2) ∷ (1, installment 1) ∷ [];
  attempts = (1, attempt status) ∷ [];
  events = [];
  confirmations = [];
  requests = [];
  provisioning_attempts = [];
  enrollments = [];
  audits = [];
  reminders = [];
  runs = [];
  clock = 50;
  followups = [];
}

abbrev pub config : TaraConfig
config = record { business_id = "biz"; api_key = "a"; webhook_secret = "w" }

-- Tara answers every lookup with one status.
abbrev pub client : String → Client
client answer = record {
  business_id = "biz";
  check_payment_status = λ p. ok (record {
    status = answer;
    product_id = some "prod";
    payment_id = some p;
    business_id = some "biz";
    amount = some 500;
  });
  check_transaction_status = λ p. ok (record { status = answer; product_id = p });
  create_payment_link = λ p n. ok (record {
    status = "SUCCESS";
    message = "";
    whatsapp_link = none;
    telegram_link = none;
    dikalo_link = none;
    general_link = some "https://taramoney.com/pay";
    card_link = none;
    sms_link = none;
  });
}

-- Tara answers nothing in time.
abbrev pub silent : Client
silent = record {
  business_id = "biz";
  check_payment_status = λ p. err (tara timeout);
  check_transaction_status = λ p. err (tara timeout);
  create_payment_link = λ p n. err (tara timeout);
}

-- Tara knows no payment id yet, and says that every product waits for its payment.
abbrev pub waiting : Client
waiting = record silent {
  check_transaction_status = λ p. ok (record { status = "PENDING"; product_id = p });
}

abbrev pub services : Client → Services
services tara_client = record {
  env = env;
  config = some config;
  connect = λ c. some tara_client;
  body_size = λ b. 10;
  decode = λ b. some (record {
    business_id = "biz";
    product_id = some "prod";
    payment_id = some "pay";
    status = "SUCCESS";
    amount = none;
    change_date = none;
  });
  lift_suspension = λ k. pure tt;
}

-- The same, where the payload names no payment and Tara has no answer but that the product waits.
abbrev pub waiting_services : Services
waiting_services = record (services waiting) {
  decode = λ b. some (record {
    business_id = "biz";
    product_id = some "prod";
    payment_id = none;
    status = "SUCCESS";
    amount = none;
    change_date = none;
  });
}

abbrev pub shop : String → Shop
shop answer = record {
  env = env;
  config = some config;
  connect = λ c. some (client answer);
  urlsplit = λ u. record {
    is_address = true;
    is_port = true;
    scheme = "https";
    has_userinfo = false;
    hostname = some "taramoney.com";
    port = none;
  };
  public_base_url = "https://crm.example";
  new_product_id = λ s. "vcrm-1";
}

abbrev pub confirmation : PaymentConfirmation
confirmation = new_confirmation 1 1 1 1 "a@b.c" "PAYMENT_CONFIRMATION|7|EMAIL|a@b.c" 0

-- A paid order whose confirmation waits to be sent.
abbrev pub mail_db : Db
mail_db = record (shop_db AttemptStatus.succeeded) { confirmations = (1, confirmation) ∷ [] }

abbrev pub texts : Texts
texts = record { strip_lower = λ t. t; only_digits = λ t. t }
