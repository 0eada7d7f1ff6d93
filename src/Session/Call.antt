-- ===== src/Session/Call.antt =====
-- All functions of the API modules of frontend/src/apis that look at their errors, as one type of
-- calls.
use wazire.Base.{ℕ}
use wazire.Base.Text.{Text}
use wazire.Base.Value.{Value, Fields, Items}
use wazire.Http.Types.{Platform, World}
use wazire.Apis.Conduct.{IsProper}
use wazire.Apis.Exam
use wazire.Apis.ExamQuestion
use wazire.Apis.Submission
use wazire.Apis.Course
use wazire.Apis.Enrollment
use wazire.Apis.Billing
use wazire.Session.Auth
use wazire.Session.Auth.{RegisterPayload}

pub data Call : Type 0 where
  list_exams : Value → Call
  get_exam : Text → Call
  create_exam : Fields → Call
  update_exam : Text → Fields → Call
  delete_exam : Text → Call
  get_exam_years : Call
  list_questions : Text → Value → Call
  get_question : Text → Text → Call
  create_question : Text → Fields → Call
  update_question : Text → Text → Fields → Call
  delete_question : Text → Text → Call
  list_submissions : Value → Call
  get_submission : Text → Call
  create_submission : Fields → Call
  start_submission : Fields → Call
  update_submission : Text → Fields → Call
  get_my_submission : Text → Call
  get_all_my_submissions : Call
  submit_exam : Fields → Call
  list_courses : Value → Call
  get_course : Text → Call
  create_course : Fields → Call
  update_course : Text → Fields → Call
  delete_course : Text → Call
  list_enrollment : Fields → Call
  get_enrollment : Text → Call
  enroll_student : Fields → Call
  update_enrollment : Text → Fields → Call
  remove_enrollment : Text → Call
  get_course_enrollment : Text → Fields → Call
  get_student_enrollment : Text → Fields → Call
  get_lecturer_enrollment : Text → Fields → Call
  bulk_enroll : Items → Call
  check_enrollment : Text → Text → Call
  list_semesters : Value → Call
  get_semester : Text → Call
  list_invoices : Value → Call
  get_invoice : Text → Call
  list_billing_plans : Value → Call
  get_billing_plan : Text → Call
  list_payment_methods : Value → Call
  get_usage : Text → Call
  get_my_dashboard : Call
  get_lecturer_dashboard : Text → Call
  get_admin_dashboard : Text → Call
  get_student_dashboard : Text → Call
  upsert_answer : Text → Fields → Call
  list_answers : Text → Call
  submit_answer : Fields → Call
  login : Text → Text → Call
  register : ℕ → RegisterPayload → Call
  refresh : Text → Call
  me : Call
  update_me : Fields → Call
  list_users : Value → Call
  get_user : Text → Call
  update_user : Text → Fields → Call
  delete_user : Text → Call

-- What a call does from a state of the browser.
abbrev pub CallIsProper : Platform → World → Call → Type 0
CallIsProper p w (Call.list_exams params) = IsProper w (Exam.list_exams p params w)
CallIsProper p w (Call.get_exam id) = IsProper w (Exam.get_exam p id w)
CallIsProper p w (Call.create_exam fields) = IsProper w (Exam.create_exam p fields w)
CallIsProper p w (Call.update_exam id fields) = IsProper w (Exam.update_exam p id fields w)
CallIsProper p w (Call.delete_exam id) = IsProper w (Exam.delete_exam p id w)
CallIsProper p w Call.get_exam_years = IsProper w (Exam.get_exam_years p w)
CallIsProper p w (Call.list_questions id params) =
    IsProper w (ExamQuestion.list_questions p id params w)
CallIsProper p w (Call.get_question id other) = IsProper w (ExamQuestion.get_question p id other w)
CallIsProper p w (Call.create_question id fields) =
    IsProper w (ExamQuestion.create_question p id fields w)
CallIsProper p w (Call.update_question id other fields) =
    IsProper w (ExamQuestion.update_question p id other fields w)
CallIsProper p w (Call.delete_question id other) =
    IsProper w (ExamQuestion.delete_question p id other w)
CallIsProper p w (Call.list_submissions params) =
    IsProper w (Submission.list_submissions p params w)
CallIsProper p w (Call.get_submission id) = IsProper w (Submission.get_submission p id w)
CallIsProper p w (Call.create_submission fields) =
    IsProper w (Submission.create_submission p fields w)
CallIsProper p w (Call.start_submission fields) =
    IsProper w (Submission.start_submission p fields w)
CallIsProper p w (Call.update_submission id fields) =
    IsProper w (Submission.update_submission p id fields w)
CallIsProper p w (Call.get_my_submission id) = IsProper w (Submission.get_my_submission p id w)
CallIsProper p w Call.get_all_my_submissions = IsProper w (Submission.get_all_my_submissions p w)
CallIsProper p w (Call.submit_exam fields) = IsProper w (Submission.submit_exam p fields w)
CallIsProper p w (Call.list_courses params) = IsProper w (Course.list_courses p params w)
CallIsProper p w (Call.get_course id) = IsProper w (Course.get_course p id w)
CallIsProper p w (Call.create_course fields) = IsProper w (Course.create_course p fields w)
CallIsProper p w (Call.update_course id fields) = IsProper w (Course.update_course p id fields w)
CallIsProper p w (Call.delete_course id) = IsProper w (Course.delete_course p id w)
CallIsProper p w (Call.list_enrollment fields) = IsProper w (Enrollment.list_enrollment p fields w)
CallIsProper p w (Call.get_enrollment id) = IsProper w (Enrollment.get_enrollment p id w)
CallIsProper p w (Call.enroll_student fields) = IsProper w (Enrollment.enroll_student p fields w)
CallIsProper p w (Call.update_enrollment id fields) =
    IsProper w (Enrollment.update_enrollment p id fields w)
CallIsProper p w (Call.remove_enrollment id) = IsProper w (Enrollment.remove_enrollment p id w)
CallIsProper p w (Call.get_course_enrollment id fields) =
    IsProper w (Enrollment.get_course_enrollment p id fields w)
CallIsProper p w (Call.get_student_enrollment id fields) =
    IsProper w (Enrollment.get_student_enrollment p id fields w)
CallIsProper p w (Call.get_lecturer_enrollment id fields) =
    IsProper w (Enrollment.get_lecturer_enrollment p id fields w)
CallIsProper p w (Call.bulk_enroll items) = IsProper w (Enrollment.bulk_enroll p items w)
CallIsProper p w (Call.check_enrollment id other) =
    IsProper w (Enrollment.check_enrollment p id other w)
CallIsProper p w (Call.list_semesters params) = IsProper w (Enrollment.list_semesters p params w)
CallIsProper p w (Call.get_semester id) = IsProper w (Enrollment.get_semester p id w)
CallIsProper p w (Call.list_invoices params) = IsProper w (Billing.list_invoices p params w)
CallIsProper p w (Call.get_invoice id) = IsProper w (Billing.get_invoice p id w)
CallIsProper p w (Call.list_billing_plans params) =
    IsProper w (Billing.list_billing_plans p params w)
CallIsProper p w (Call.get_billing_plan id) = IsProper w (Billing.get_billing_plan p id w)
CallIsProper p w (Call.list_payment_methods params) =
    IsProper w (Billing.list_payment_methods p params w)
CallIsProper p w (Call.get_usage id) = IsProper w (Billing.get_usage p id w)
CallIsProper p w Call.get_my_dashboard = IsProper w (Billing.get_my_dashboard p w)
CallIsProper p w (Call.get_lecturer_dashboard id) =
    IsProper w (Billing.get_lecturer_dashboard p id w)
CallIsProper p w (Call.get_admin_dashboard id) = IsProper w (Billing.get_admin_dashboard p id w)
CallIsProper p w (Call.get_student_dashboard id) = IsProper w (Billing.get_student_dashboard p id w)
CallIsProper p w (Call.upsert_answer id fields) = IsProper w (Billing.upsert_answer p id fields w)
CallIsProper p w (Call.list_answers id) = IsProper w (Billing.list_answers p id w)
CallIsProper p w (Call.submit_answer fields) = IsProper w (Billing.submit_answer p fields w)
CallIsProper p w (Call.login id other) = IsProper w (Auth.login p id other w)
CallIsProper p w (Call.register n payload) = IsProper w (Auth.register p n payload w)
CallIsProper p w (Call.refresh id) = IsProper w (Auth.refresh p id w)
CallIsProper p w Call.me = IsProper w (Auth.me p w)
CallIsProper p w (Call.update_me fields) = IsProper w (Auth.update_me p fields w)
CallIsProper p w (Call.list_users params) = IsProper w (Auth.list_users p params w)
CallIsProper p w (Call.get_user id) = IsProper w (Auth.get_user p id w)
CallIsProper p w (Call.update_user id fields) = IsProper w (Auth.update_user p id fields w)
CallIsProper p w (Call.delete_user id) = IsProper w (Auth.delete_user p id w)
