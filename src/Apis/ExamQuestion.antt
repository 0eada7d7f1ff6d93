-- ===== src/Apis/ExamQuestion.antt =====
-- frontend/src/apis/exam.ts: the questions of an exam.
use wazire.Base.{not, ◌||◌, [], ◌∷◌, ◌++◌, is_empty}
use wazire.Base.Text.{Text, text}
use wazire.Base.Value.{Value, undefined, str, obj, Fields, end, field, get_field, is_truthy}
use wazire.Http.Types.{api_error, M, ◌>>=◌, ◌>>◌, lift, return, attempt, reject_if, Platform}
use wazire.Http.Client.{client_get, client_post, client_put, client_delete}
use wazire.Http.Envelope.{handle_envelope, handle_paginated_envelope, Paginated}
use wazire.Apis.Shared.{on_401, on_403, on_404, page_params, pass_on}

module _ (p : Platform) where
  unfoldable pub list_questions : Text → Value → M Paginated
  list_questions exam_id params =
      reject_if (is_empty exam_id) (text "Exam ID is required")
      >> attempt
          (do
            response ← client_get p (text "/academic/questions") (
                obj (
                  field (text "exam_id") (str exam_id) (
                    page_params p params (
                      pass_on params (text "search") (pass_on params (text "question_type") end)))))
            lift (handle_paginated_envelope p response))
          (on_401 (text "Authentication required to view questions")
            ∷ on_403 (text "Access denied to view questions")
            ∷ on_404 (text "Exam not found")
            ∷ [])
          (api_error (text "Failed to fetch questions") 500)

  unfoldable pub get_question : Text → Text → M Value
  get_question exam_id question_id =
      reject_if (is_empty exam_id || is_empty question_id)
        (text "Exam ID and Question ID are required")
      >> attempt
          (do
            response ← client_get p (text "/academic/questions/" ++ question_id) undefined
            lift (handle_envelope p response))
          (on_401 (text "Authentication required to view question")
            ∷ on_403 (text "Access denied to view this question")
            ∷ on_404 (text "Question not found")
            ∷ [])
          (api_error (text "Failed to fetch question") 500)

  unfoldable pub create_question : Text → Fields → M Value
  create_question exam_id question_data =
      reject_if (is_empty exam_id) (text "Exam ID is required")
      >> reject_if
          (not (is_truthy (get_field (text "text") question_data))
            || (not (is_truthy (get_field (text "qtype") question_data))
                || not (is_truthy (get_field (text "mark") question_data))))
          (text "Question text, type, and mark are required")
      >> attempt
          (do
            response ← client_post p (text "/academic/questions") (obj question_data)
            lift (handle_envelope p response))
          (on_401 (text "Authentication required to create questions")
            ∷ on_403 (text "Access denied to create questions")
            ∷ on_404 (text "Exam not found")
            ∷ [])
          (api_error (text "Failed to create question") 500)

  unfoldable pub update_question : Text → Text → Fields → M Value
  update_question exam_id question_id question_data =
      reject_if (is_empty exam_id || is_empty question_id)
        (text "Exam ID and Question ID are required")
      >> attempt
          (do
            response ← client_put p (text "/academic/questions/" ++ question_id) (obj question_data)
            lift (handle_envelope p response))
          (on_401 (text "Authentication required to update questions")
            ∷ on_403 (text "Access denied to update this question")
            ∷ on_404 (text "Question not found")
            ∷ [])
          (api_error (text "Failed to update question") 500)

  unfoldable pub delete_question : Text → Text → M Value
  delete_question exam_id question_id =
      reject_if (is_empty exam_id || is_empty question_id)
        (text "Exam ID and Question ID are required")
      >> attempt
          (do
            response ← client_delete p (text "/academic/questions/" ++ question_id)
            _ ← lift (handle_envelope p response)
            return undefined)
          (on_401 (text "Authentication required to delete questions")
            ∷ on_403 (text "Access denied to delete this question")
            ∷ on_404 (text "Question not found")
            ∷ [])
          (api_error (text "Failed to delete question") 500)
