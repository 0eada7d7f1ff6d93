-- ===== src/Apis/ExamConduct.antt =====
-- The functions of frontend/src/apis/exam.ts and frontend/src/apis/submission.ts towards the server.
use wazire.Base.{◌≡◌, refl, arith, Bool-cases, inl, inr}
use wazire.Base.Text.{Text, text}
use wazire.Base.Value.{Value, Fields, undefined, is_truthy, prop}
use wazire.Http.Types.{Platform, World, Failure, api, axios, plain, other}
use wazire.Http.Envelope.{handle_envelope}
use wazire.Apis.Conduct.{
  OnlyApiErrors, IsProper, request-IsProper, request_with-IsProper, guard-IsProper, discard-quiet,
}
use wazire.Apis.Exam.{list_exams, get_exam, create_exam, update_exam, delete_exam, get_exam_years}
use wazire.Apis.ExamQuestion.{
  list_questions, get_question, create_question, update_question, delete_question,
}
use wazire.Apis.Submission.{
  list_submissions, get_submission, create_submission, start_submission, update_submission,
  get_my_submission, get_all_my_submissions, submit_exam, mine_error,
}

-- Every function on exams either rejects its arguments with an ApiError of status 400 and does
-- nothing, or sends one request; and all that it throws are ApiErrors.
pub exams_IsProper :
    (p : Platform) (w : World) (params : Value) (id : Text) (fields : Fields)
    → IsProper w (list_exams p params w)
      × IsProper w (get_exam p id w)
      × IsProper w (create_exam p fields w)
      × IsProper w (update_exam p id fields w)
      × IsProper w (delete_exam p id w)
      × IsProper w (get_exam_years p w)
unfolding list_exams get_exam create_exam update_exam delete_exam get_exam_years
exams_IsProper p w params id fields = (
  request-IsProper w p _ _ _ (λ r v. refl),
  guard-IsProper w _ _ _ (request-IsProper w p _ _ _ (λ r v. refl)),
  guard-IsProper w _ _ _ (request-IsProper w p _ _ _ (λ r v. refl)),
  guard-IsProper w _ _ _ (guard-IsProper w _ _ _ (request-IsProper w p _ _ _ (λ r v. refl))),
  guard-IsProper w _ _ _
      (request-IsProper w p _ _ _ (λ r v. discard-quiet (handle_envelope p r) undefined v)),
  request-IsProper w p _ _ _ (λ r v. refl),
)

-- Every function on the questions of an exam either rejects its arguments with an ApiError of status
-- 400 and does nothing, or sends one request; and all that it throws are ApiErrors.
pub questions_IsProper :
    (p : Platform) (w : World) (params : Value) (id question_id : Text) (fields : Fields)
    → IsProper w (list_questions p id params w)
      × IsProper w (get_question p id question_id w)
      × IsProper w (create_question p id fields w)
      × IsProper w (update_question p id question_id fields w)
      × IsProper w (delete_question p id question_id w)
unfolding list_questions get_question create_question update_question delete_question
questions_IsProper p w params id question_id fields = (
  guard-IsProper w _ _ _ (request-IsProper w p _ _ _ (λ r v. refl)),
  guard-IsProper w _ _ _ (request-IsProper w p _ _ _ (λ r v. refl)),
  guard-IsProper w _ _ _ (guard-IsProper w _ _ _ (request-IsProper w p _ _ _ (λ r v. refl))),
  guard-IsProper w _ _ _ (request-IsProper w p _ _ _ (λ r v. refl)),
  guard-IsProper w _ _ _
      (request-IsProper w p _ _ _ (λ r v. discard-quiet (handle_envelope p r) undefined v)),
)

list_submissions-IsProper :
    (p : Platform) (w : World) (params : Value) → IsProper w (list_submissions p params w)
unfolding list_submissions
list_submissions-IsProper p w params =
    elim (Bool-cases (is_truthy (prop (text "lecturer_id") params))) [
      | inl lecturer ↦ rw lecturer (request-IsProper w p _ _ _ (λ r v. refl))
      | inr general ↦ rw general (request-IsProper w p _ _ _ (λ r v. refl))
    ]

mine_error-calm :
    (p : Platform) (f : Failure) (v : World)
    → ((mine_error p f v).1 ≡ v) × OnlyApiErrors (mine_error p f v).0
mine_error-calm p (api e) v = ground arith
mine_error-calm p (axios e) v = ground arith
mine_error-calm p (plain m) v = ground arith
mine_error-calm p (other x) v = ground arith

-- Every function on submissions either rejects its arguments with an ApiError of status 400 and does
-- nothing, or sends one request; and all that it throws are ApiErrors.
pub submissions_IsProper :
    (p : Platform) (w : World) (params : Value) (id : Text) (fields : Fields)
    → IsProper w (list_submissions p params w)
      × IsProper w (get_submission p id w)
      × IsProper w (create_submission p fields w)
      × IsProper w (start_submission p fields w)
      × IsProper w (update_submission p id fields w)
      × IsProper w (get_my_submission p id w)
      × IsProper w (get_all_my_submissions p w)
      × IsProper w (submit_exam p fields w)
unfolding list_submissions get_submission create_submission start_submission update_submission
    get_my_submission get_all_my_submissions submit_exam
submissions_IsProper p w params id fields = (
  list_submissions-IsProper p w params,
  guard-IsProper w _ _ _ (request-IsProper w p _ _ _ (λ r v. refl)),
  guard-IsProper w _ _ _ (request-IsProper w p _ _ _ (λ r v. refl)),
  guard-IsProper w _ _ _ (request-IsProper w p _ _ _ (λ r v. refl)),
  guard-IsProper w _ _ _ (guard-IsProper w _ _ _ (request-IsProper w p _ _ _ (λ r v. refl))),
  request_with-IsProper w p _ _ _ (λ r v. refl) (mine_error-calm p),
  request-IsProper w p _ _ _ (λ r v. refl),
  guard-IsProper w _ _ _ (request-IsProper w p _ _ _ (λ r v. refl)),
)
