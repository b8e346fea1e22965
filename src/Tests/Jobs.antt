-- ===== src/Tests/Jobs.antt =====
-- A provider, a collector and a worker, and a database with a request to execute, for the tests.
use valuecrm.Base.{String, true, none, some, [], ◌∷◌}
use valuecrm.Model.{Db}
use valuecrm.Model.Status.{AttemptStatus, RequestStatus, OrderStatus, InstallmentStatus}
use valuecrm.Model.Enrollment.{ProvisioningRequest, RequestFailure, EnrollmentStatus}
use valuecrm.Table.{add}
use valuecrm.Exec.{Exec, ok, err, pure, click_funnels, auth_error, rate_limit_error}
use valuecrm.Enrollments.{EnrollmentResultDto, new_enrollment}
use valuecrm.ClickFunnels.{Provider, ClickFunnelsClient}
use valuecrm.Audit.{Actor}
use valuecrm.Delivery.{delivered}
use valuecrm.Collection.{Collector}
use valuecrm.Reconciliation.Run.{Worker}
use valuecrm.Sequences.{World}
use valuecrm.Tests.Data.{texts, env, shop, shop_db, services, client, order, installment}

-- ClickFunnels knows every contact and enrolls it.
abbrev pub open_client : ClickFunnelsClient
open_client = record {
  get_contact_by_email =
      λ s d w e. ok (some (record { id = "77"; first_name = none; last_name = none }));
  create_contact = λ s d w e. err (click_funnels auth_error);
  enroll_contact_in_course = λ s d c k. ok "900";
  update_enrollment_suspension = λ s d k b r. ok tt;
}

-- ClickFunnels refuses the credentials.
abbrev pub closed_client : ClickFunnelsClient
closed_client = record {
  get_contact_by_email = λ s d w e. err (click_funnels auth_error);
  create_contact = λ s d w e. err (click_funnels auth_error);
  enroll_contact_in_course = λ s d c k. err (click_funnels auth_error);
  update_enrollment_suspension = λ s d k b r. err (click_funnels auth_error);
}

abbrev pub provider : ClickFunnelsClient → Provider
provider c = record {
  config = some (record {
    workspace_id = some "5";
    workspace_subdomain = some "shop";
    api_access_token = "token";
  });
  client = c;
  decrypt_value = λ t. ok t;
  int = λ t. some 7;
  str_error = λ e. "refused";
}

abbrev pub request : RequestStatus → ProvisioningRequest
request status = record {
  order = 1;
  course = 1;
  contact = 1;
  status = status;
  approved_by = none;
  approved_at = none;
  attempt_count = 1;
  last_error = "";
  failure_category = RequestFailure.no_failure;
}

-- A paid order whose course is to be opened.
abbrev pub course_db : RequestStatus → Db
course_db status = record (shop_db AttemptStatus.succeeded) {
  installments = (1, record (installment 1) { status = InstallmentStatus.paid }) ∷ [];
  requests = (1, request status) ∷ [];
}

abbrev pub collector : Collector
collector = record {
  env = env;
  provider = provider open_client;
  installment_reminder_days_before = 3;
  strip = λ t. t;
  send = λ s j kind to. true;
  suspend_reason = λ i o. "late";
  resume_reason = "paid";
}

abbrev pub worker_answering : String → Worker
worker_answering status = record {
  services = services (client status);
  provider = provider open_client;
  mailer = λ c. delivered;
  collector = collector;
  pages = λ c start. ok 0;
  send_staff_alerts = pure tt;
  expiry_limit = 100;
}

abbrev pub worker : Worker
worker = worker_answering "SUCCESS"

-- A world in which Tara answers with the status.
abbrev pub world_answering : String → World
world_answering status = record {
  shop = shop status;
  services = services (client status);
  worker = worker_answering status;
  texts = texts;
  new_product_id = λ s. "vcrm-2";
}

abbrev pub world : World
world = world_answering "SUCCESS"

abbrev pub actor : Actor
actor = record { administrator = some 1; reason = "asked" }

-- A running order with an installment to remind of.
abbrev pub due_db : Db
due_db = record (shop_db AttemptStatus.failed) {
  orders = (1, record order { status = OrderStatus.active }) ∷ [];
  installments = (1, record (installment 1) { due_date = 51 }) ∷ [];
}

-- An order that staff have suspended themselves.
abbrev pub manual_db : Db
manual_db = record due_db { orders = (1, record order { status = OrderStatus.suspended }) ∷ [] }

-- A call that records an enrollment and is then told to slow down.
abbrev pub limited : Exec EnrollmentResultDto
limited s = (
  err (click_funnels rate_limit_error),
  record s {
    enrollments = add (new_enrollment 1 1 EnrollmentStatus.failure none "slow down") s.enrollments;
  },
)
