-- ===== src/Tests/Staff.antt =====
-- Tests of the staff actions.
use valuecrm.Base.{◌≡◌, refl, some, inr}
use valuecrm.Model.{needs_review}
use valuecrm.Model.Status.{AttemptStatus}
use valuecrm.Model.Audit.{ActionType}
use valuecrm.Exec.{err, admin_action}
use valuecrm.Table.{get}
use valuecrm.Administration.Orders.{apply_manual_disposition}
use valuecrm.Administration.Installments.{cancel_installment, waive_installment}
use valuecrm.Administration.Audited.{marking, refused, disposition-audited, paid-refused}
use valuecrm.Tests.Data.{env, shop_db, order, installment, attempt}
use valuecrm.Tests.Jobs.{actor}

disposition-audited_example :
    apply_manual_disposition 1 (some needs_review) actor (shop_db AttemptStatus.pending)
    ≡ marking 1 actor order (some needs_review) (shop_db AttemptStatus.pending)
unfolding get
disposition-audited_example =
    disposition-audited 1 (some needs_review) actor (shop_db AttemptStatus.pending) {o = order} refl

paid-refused_example :
    (cancel_installment 1 actor (shop_db AttemptStatus.succeeded) ≡ (
      err admin_action,
      refused ActionType.cancel_installment 1 actor
          (installment 1)
          (shop_db AttemptStatus.succeeded),
    ))
    × (waive_installment env 1 actor (shop_db AttemptStatus.succeeded) ≡ (
      err admin_action,
      refused ActionType.waive_installment 1 actor
          (installment 1)
          (shop_db AttemptStatus.succeeded),
    ))
unfolding get
paid-refused_example =
    paid-refused env 1 actor (shop_db AttemptStatus.succeeded) {i = installment 1} {o = order} refl
      refl (λ e. cc) (λ e. cc) (inr (1, attempt AttemptStatus.succeeded, refl, refl, refl))
