-- ===== src/Apis/BillingConduct.antt =====
-- The functions of frontend/src/apis/billing.ts, frontend/src/apis/dashboard.ts and
-- frontend/src/apis/answer.ts towards the server.
use wazire.Base.{refl}
use wazire.Base.Text.{Text}
use wazire.Base.Value.{Value, Fields}
use wazire.Http.Types.{Platform, World}
use wazire.Apis.Conduct.{IsProper, request-IsProper, guard-IsProper}
use wazire.Apis.Billing.{
  list_invoices, get_invoice, list_billing_plans, get_billing_plan, list_payment_methods, get_usage,
  get_my_dashboard, get_lecturer_dashboard, get_admin_dashboard, get_student_dashboard,
  upsert_answer, list_answers, submit_answer,
}

-- Every function on billing and on dashboards either rejects its arguments with an ApiError of
-- status 400 and does nothing, or sends one request; and all that it throws are ApiErrors.
pub billing_IsProper :
    (p : Platform) (w : World) (id : Text) (params : Value)
    → IsProper w (list_invoices p params w)
      × IsProper w (get_invoice p id w)
      × IsProper w (list_billing_plans p params w)
      × IsProper w (get_billing_plan p id w)
      × IsProper w (list_payment_methods p params w)
      × IsProper w (get_usage p id w)
      × IsProper w (get_my_dashboard p w)
      × IsProper w (get_lecturer_dashboard p id w)
      × IsProper w (get_admin_dashboard p id w)
      × IsProper w (get_student_dashboard p id w)
unfolding list_invoices get_invoice list_billing_plans get_billing_plan list_payment_methods
    get_usage get_my_dashboard get_lecturer_dashboard get_admin_dashboard get_student_dashboard
billing_IsProper p w id params = (
  request-IsProper w p _ _ _ (λ r v. refl),
  guard-IsProper w _ _ _ (request-IsProper w p _ _ _ (λ r v. refl)),
  request-IsProper w p _ _ _ (λ r v. refl),
  guard-IsProper w _ _ _ (request-IsProper w p _ _ _ (λ r v. refl)),
  request-IsProper w p _ _ _ (λ r v. refl),
  request-IsProper w p _ _ _ (λ r v. refl),
  request-IsProper w p _ _ _ (λ r v. refl),
  request-IsProper w p _ _ _ (λ r v. refl),
  request-IsProper w p _ _ _ (λ r v. refl),
  request-IsProper w p _ _ _ (λ r v. refl),
)

-- Every function on saved answers either rejects its arguments with an ApiError of status 400 and
-- does nothing, or sends one request; and all that it throws are ApiErrors.
pub answers_IsProper :
    (p : Platform) (w : World) (id : Text) (fields : Fields)
    → IsProper w (upsert_answer p id fields w)
      × IsProper w (list_answers p id w)
      × IsProper w (submit_answer p fields w)
unfolding upsert_answer list_answers submit_answer
answers_IsProper p w id fields = (
  guard-IsProper w _ _ _ (request-IsProper w p _ _ _ (λ r v. refl)),
  guard-IsProper w _ _ _ (request-IsProper w p _ _ _ (λ r v. refl)),
  request-IsProper w p _ _ _ (λ r v. refl),
)
