-- ===== src/Apis/Billing.antt =====
-- frontend/src/apis/billing.ts, frontend/src/apis/dashboard.ts and frontend/src/apis/answer.ts, the
-- last with the call that saves an answer of the exam page.
use wazire.Base.{[], ◌++◌, if◌then◌else◌, is_empty}
use wazire.Base.Text.{Text, text}
use wazire.Base.Value.{Value, undefined, str, obj, Fields, end, field}
use wazire.Http.Types.{api_error, M, ◌>>=◌, ◌>>◌, lift, catch_as, attempt, reject_if, Platform}
use wazire.Http.Client.{client_get, client_post, client_patch}
use wazire.Http.Envelope.{handle_envelope, handle_paginated_envelope, Paginated}
use wazire.Apis.Enrollment.{extracted}

module _ (p : Platform) where
  unfoldable pub list_invoices : Value → M Paginated
  list_invoices params =
      catch_as
        (do
          response ← client_get p (text "/billing/invoices") params
          lift (handle_paginated_envelope p response))
        (extracted p (text "Failed to fetch invoices"))

  unfoldable pub get_invoice : Text → M Value
  get_invoice invoice_id =
      reject_if (is_empty invoice_id) (text "Invoice ID is required")
      >> catch_as
          (do
            response ← client_get p (text "/billing/invoices/" ++ invoice_id) undefined
            lift (handle_envelope p response))
          (extracted p (text "Failed to fetch invoice"))

  unfoldable pub list_billing_plans : Value → M Paginated
  list_billing_plans params =
      catch_as
        (do
          response ← client_get p (text "/billing/plans") params
          lift (handle_paginated_envelope p response))
        (extracted p (text "Failed to fetch billing plans"))

  unfoldable pub get_billing_plan : Text → M Value
  get_billing_plan plan_id =
      reject_if (is_empty plan_id) (text "Plan ID is required")
      >> catch_as
          (do
            response ← client_get p (text "/billing/plans/" ++ plan_id) undefined
            lift (handle_envelope p response))
          (extracted p (text "Failed to fetch billing plan"))

  unfoldable pub list_payment_methods : Value → M Paginated
  list_payment_methods params =
      catch_as
        (do
          response ← client_get p (text "/billing/payment-methods") params
          lift (handle_paginated_envelope p response))
        (extracted p (text "Failed to fetch payment methods"))

  -- A missing tenant is the empty text.
  unfoldable pub get_usage : Text → M Value
  get_usage tenant_id =
      catch_as
        (do
          response ← client_get p (text "/billing/usage") (
              if is_empty tenant_id
              then undefined
              else obj (field (text "tenant_id") (str tenant_id) end))
          lift (handle_envelope p response))
        (extracted p (text "Failed to fetch usage"))

  unfoldable pub get_my_dashboard : M Value
  get_my_dashboard =
      catch_as
        (do
          response ← client_get p (text "/analytics/dashboard/") undefined
          lift (handle_envelope p response))
        (extracted p (text "Failed to fetch dashboard"))

  unfoldable pub get_lecturer_dashboard : Text → M Value
  get_lecturer_dashboard lecturer_id =
      catch_as
        (do
          response ← client_get p (text "/analytics/dashboard/lecturer/" ++ lecturer_id) undefined
          lift (handle_envelope p response))
        (extracted p (text "Failed to fetch lecturer dashboard"))

  unfoldable pub get_admin_dashboard : Text → M Value
  get_admin_dashboard tenant_id =
      catch_as
        (do
          response ← client_get p (text "/analytics/dashboard/admin/" ++ tenant_id) undefined
          lift (handle_envelope p response))
        (extracted p (text "Failed to fetch admin dashboard"))

  unfoldable pub get_student_dashboard : Text → M Value
  get_student_dashboard student_id =
      catch_as
        (do
          response ← client_get p (text "/analytics/dashboard/student/" ++ student_id) undefined
          lift (handle_envelope p response))
        (extracted p (text "Failed to fetch student dashboard"))

  unfoldable pub upsert_answer : Text → Fields → M Value
  upsert_answer question_id payload =
      reject_if (is_empty question_id) (text "Question ID is required")
      >> attempt
          (do
            response ← client_patch p (text "/academic/answers/" ++ question_id) (obj payload)
            lift (handle_envelope p response))
          [] (api_error (text "Failed to save answer") 500)

  unfoldable pub list_answers : Text → M Value
  list_answers exam_id =
      reject_if (is_empty exam_id) (text "Exam ID is required")
      >> attempt
          (do
            response ←
                client_get p (text "/academic/answers/student")
                  (obj (field (text "exam_id") (str exam_id) end))
            lift (handle_envelope p response))
          [] (api_error (text "Failed to fetch answers") 500)

  unfoldable pub submit_answer : Fields → M Value
  submit_answer payload =
      attempt
        (do
          response ← client_post p (text "/academic/answers/") (obj payload)
          lift (handle_envelope p response))
        [] (api_error (text "Failed to submit answer") 500)
