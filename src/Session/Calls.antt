-- ===== src/Session/Calls.antt =====
-- The API modules of frontend/src/apis, taken together.
use wazire.Base.{[]}
use wazire.Base.Value.{undefined, end, nil}
use wazire.Http.Types.{Platform, World}
use wazire.Apis.ExamConduct
use wazire.Apis.CourseConduct
use wazire.Apis.EnrollmentConduct
use wazire.Apis.BillingConduct
use wazire.Apis.PlainCalls.{PlainCall, PlainIsProper, plain_calls_are_proper}
use wazire.Session.Auth.{RegisterPayload}
use wazire.Session.AuthConduct
use wazire.Session.Call.{Call, CallIsProper}

abbrev blank : RegisterPayload
blank = record { first_name = []; last_name = []; email = []; password = []; rest = end }

api_calls_are_proper : (p : Platform) (w : World) (c : Call) → CallIsProper p w c
api_calls_are_proper p w (Call.list_exams params) = (ExamConduct.exams_IsProper p w params [] end).0
api_calls_are_proper p w (Call.get_exam id) = (ExamConduct.exams_IsProper p w undefined id end).1
api_calls_are_proper p w (Call.create_exam fields) =
    (ExamConduct.exams_IsProper p w undefined [] fields).2
api_calls_are_proper p w (Call.update_exam id fields) =
    (ExamConduct.exams_IsProper p w undefined id fields).3
api_calls_are_proper p w (Call.delete_exam id) = (ExamConduct.exams_IsProper p w undefined id end).4
api_calls_are_proper p w Call.get_exam_years = (ExamConduct.exams_IsProper p w undefined [] end).5
api_calls_are_proper p w (Call.list_questions id params) =
    (ExamConduct.questions_IsProper p w params id [] end).0
api_calls_are_proper p w (Call.get_question id other) =
    (ExamConduct.questions_IsProper p w undefined id other end).1
api_calls_are_proper p w (Call.create_question id fields) =
    (ExamConduct.questions_IsProper p w undefined id [] fields).2
api_calls_are_proper p w (Call.update_question id other fields) =
    (ExamConduct.questions_IsProper p w undefined id other fields).3
api_calls_are_proper p w (Call.delete_question id other) =
    (ExamConduct.questions_IsProper p w undefined id other end).4
api_calls_are_proper p w (Call.list_submissions params) =
    (ExamConduct.submissions_IsProper p w params [] end).0
api_calls_are_proper p w (Call.get_submission id) =
    (ExamConduct.submissions_IsProper p w undefined id end).1
api_calls_are_proper p w (Call.create_submission fields) =
    (ExamConduct.submissions_IsProper p w undefined [] fields).2
api_calls_are_proper p w (Call.start_submission fields) =
    (ExamConduct.submissions_IsProper p w undefined [] fields).3
api_calls_are_proper p w (Call.update_submission id fields) =
    (ExamConduct.submissions_IsProper p w undefined id fields).4
api_calls_are_proper p w (Call.get_my_submission id) =
    (ExamConduct.submissions_IsProper p w undefined id end).5
api_calls_are_proper p w Call.get_all_my_submissions =
    (ExamConduct.submissions_IsProper p w undefined [] end).6
api_calls_are_proper p w (Call.submit_exam fields) =
    (ExamConduct.submissions_IsProper p w undefined [] fields).7
api_calls_are_proper p w (Call.list_courses params) =
    (CourseConduct.courses_IsProper p w params [] end).0
api_calls_are_proper p w (Call.get_course id) =
    (CourseConduct.courses_IsProper p w undefined id end).1
api_calls_are_proper p w (Call.create_course fields) =
    (CourseConduct.courses_IsProper p w undefined [] fields).2
api_calls_are_proper p w (Call.update_course id fields) =
    (CourseConduct.courses_IsProper p w undefined id fields).3
api_calls_are_proper p w (Call.delete_course id) =
    (CourseConduct.courses_IsProper p w undefined id end).4
api_calls_are_proper p w (Call.list_enrollment fields) =
    (EnrollmentConduct.enrollments_IsProper p w [] [] fields nil undefined).0
api_calls_are_proper p w (Call.get_enrollment id) =
    (EnrollmentConduct.enrollments_IsProper p w id [] end nil undefined).1
api_calls_are_proper p w (Call.enroll_student fields) =
    (EnrollmentConduct.enrollments_IsProper p w [] [] fields nil undefined).2
api_calls_are_proper p w (Call.update_enrollment id fields) =
    (EnrollmentConduct.enrollments_IsProper p w id [] fields nil undefined).3
api_calls_are_proper p w (Call.remove_enrollment id) =
    (EnrollmentConduct.enrollments_IsProper p w id [] end nil undefined).4
api_calls_are_proper p w (Call.get_course_enrollment id fields) =
    (EnrollmentConduct.enrollments_IsProper p w id [] fields nil undefined).5
api_calls_are_proper p w (Call.get_student_enrollment id fields) =
    (EnrollmentConduct.enrollments_IsProper p w id [] fields nil undefined).6
api_calls_are_proper p w (Call.get_lecturer_enrollment id fields) =
    (EnrollmentConduct.enrollments_IsProper p w id [] fields nil undefined).7
api_calls_are_proper p w (Call.bulk_enroll items) =
    (EnrollmentConduct.enrollments_IsProper p w [] [] end items undefined).8
api_calls_are_proper p w (Call.check_enrollment id other) =
    (EnrollmentConduct.enrollments_IsProper p w id other end nil undefined).9
api_calls_are_proper p w (Call.list_semesters params) =
    (EnrollmentConduct.enrollments_IsProper p w [] [] end nil params).10
api_calls_are_proper p w (Call.get_semester id) =
    (EnrollmentConduct.enrollments_IsProper p w id [] end nil undefined).11
api_calls_are_proper p w (Call.list_invoices params) =
    (BillingConduct.billing_IsProper p w [] params).0
api_calls_are_proper p w (Call.get_invoice id) =
    (BillingConduct.billing_IsProper p w id undefined).1
api_calls_are_proper p w (Call.list_billing_plans params) =
    (BillingConduct.billing_IsProper p w [] params).2
api_calls_are_proper p w (Call.get_billing_plan id) =
    (BillingConduct.billing_IsProper p w id undefined).3
api_calls_are_proper p w (Call.list_payment_methods params) =
    (BillingConduct.billing_IsProper p w [] params).4
api_calls_are_proper p w (Call.get_usage id) = (BillingConduct.billing_IsProper p w id undefined).5
api_calls_are_proper p w Call.get_my_dashboard =
    (BillingConduct.billing_IsProper p w [] undefined).6
api_calls_are_proper p w (Call.get_lecturer_dashboard id) =
    (BillingConduct.billing_IsProper p w id undefined).7
api_calls_are_proper p w (Call.get_admin_dashboard id) =
    (BillingConduct.billing_IsProper p w id undefined).8
api_calls_are_proper p w (Call.get_student_dashboard id) =
    (BillingConduct.billing_IsProper p w id undefined).9
api_calls_are_proper p w (Call.upsert_answer id fields) =
    (BillingConduct.answers_IsProper p w id fields).0
api_calls_are_proper p w (Call.list_answers id) = (BillingConduct.answers_IsProper p w id end).1
api_calls_are_proper p w (Call.submit_answer fields) =
    (BillingConduct.answers_IsProper p w [] fields).2
api_calls_are_proper p w (Call.login id other) =
    (AuthConduct.session_IsProper p w id other [] [] 0 blank end undefined).0
api_calls_are_proper p w (Call.register n payload) =
    (AuthConduct.session_IsProper p w [] [] [] [] n payload end undefined).1
api_calls_are_proper p w (Call.refresh id) =
    (AuthConduct.session_IsProper p w [] [] [] id 0 blank end undefined).2
api_calls_are_proper p w Call.me =
    (AuthConduct.session_IsProper p w [] [] [] [] 0 blank end undefined).3
api_calls_are_proper p w (Call.update_me fields) =
    (AuthConduct.session_IsProper p w [] [] [] [] 0 blank fields undefined).4
api_calls_are_proper p w (Call.list_users params) =
    (AuthConduct.session_IsProper p w [] [] [] [] 0 blank end params).5
api_calls_are_proper p w (Call.get_user id) =
    (AuthConduct.session_IsProper p w [] [] id [] 0 blank end undefined).6
api_calls_are_proper p w (Call.update_user id fields) =
    (AuthConduct.session_IsProper p w [] [] id [] 0 blank fields undefined).7
api_calls_are_proper p w (Call.delete_user id) =
    (AuthConduct.session_IsProper p w [] [] id [] 0 blank end undefined).8

-- Each of the functions on exams, their questions, submissions, answers, courses, enrollments,
-- semesters, billing, dashboards, the session and users either rejects its arguments with an ApiError
-- of status 400 and does nothing, or sends exactly one request; and all that it throws are ApiErrors.
-- Each of the functions on questions by themselves and on institutions sends exactly one request,
-- and if that is rejected it throws what axios threw.
pub calls_are_proper :
    (p : Platform) (w : World) (c : Call) (d : PlainCall) → CallIsProper p w c × PlainIsProper p w d
calls_are_proper p w c d = (api_calls_are_proper p w c, plain_calls_are_proper p w d)
