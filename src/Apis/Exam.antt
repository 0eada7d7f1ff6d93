-- ===== src/Apis/Exam.antt =====
-- frontend/src/apis/exam.ts: exams.
use wazire.Base.{not, ◌||◌, [], ◌∷◌, ◌++◌, is_empty}
use wazire.Base.Text.{Text, text}
use wazire.Base.Value.{Value, undefined, obj, Fields, end, get_field, is_truthy, keys}
use wazire.Http.Types.{api_error, M, ◌>>=◌, ◌>>◌, lift, return, attempt, reject_if, Platform}
use wazire.Http.Client.{client_get, client_post, client_put, client_delete}
use wazire.Apis.Shared.{on_400, on_401, on_403, on_404, page_params, pass_on}
use wazire.Http.Envelope.{handle_envelope, handle_paginated_envelope, Paginated}

module _ (p : Platform) where
  unfoldable pub list_exams : Value → M Paginated
  list_exams params =
      attempt
        (do
          response ← client_get p (text "/academic/exams/") (
              obj (
                page_params p params (
                  pass_on params (text "search") (
                    pass_on params (text "status") (
                      pass_on params (text "course_id") (
                        pass_on params (text "lecturer_id") (
                          pass_on params (text "tenant_id") (
                            pass_on params (text "start_date") (
                              pass_on params (text "end_date")
                                (pass_on params (text "year") end))))))))))
          lift (handle_paginated_envelope p response))
        (on_401 (text "Authentication required to view exams")
          ∷ on_403 (text "Access denied to view exams")
          ∷ on_404 (text "Exams endpoint not found")
          ∷ [])
        (api_error (text "Failed to fetch exams") 500)

  unfoldable pub get_exam : Text → M Value
  get_exam exam_id =
      reject_if (is_empty exam_id) (text "Exam ID is required")
      >> attempt
          (do
            response ← client_get p (text "/academic/exams/" ++ exam_id) undefined
            lift (handle_envelope p response))
          (on_401 (text "Authentication required to view exam")
            ∷ on_403 (text "Access denied to view this exam")
            ∷ on_404 (text "Exam not found")
            ∷ [])
          (api_error (text "Failed to fetch exam") 500)

  unfoldable pub create_exam : Fields → M Value
  create_exam exam_data =
      reject_if
        (not (is_truthy (get_field (text "title") exam_data))
          || (not (is_truthy (get_field (text "course_id") exam_data))
              || not (is_truthy (get_field (text "duration_hours") exam_data))))
        (text "Exam title, course ID, and duration hours are required")
      >> attempt
          (do
            response ← client_post p (text "/academic/exams/") (obj exam_data)
            lift (handle_envelope p response))
          (on_401 (text "Authentication required to create exams")
            ∷ on_403 (text "Access denied to create exams")
            ∷ on_400 (text "Invalid exam data")
            ∷ on_404 (text "Course not found")
            ∷ [])
          (api_error (text "Failed to create exam") 500)

  unfoldable pub update_exam : Text → Fields → M Value
  update_exam exam_id exam_data =
      reject_if (is_empty exam_id) (text "Exam ID is required")
      >> reject_if (is_empty (keys exam_data))
          (text "At least one field must be provided for update")
      >> attempt
          (do
            response ← client_put p (text "/academic/exams/" ++ exam_id) (obj exam_data)
            lift (handle_envelope p response))
          (on_401 (text "Authentication required to update exams")
            ∷ on_403 (text "Access denied to update this exam")
            ∷ on_404 (text "Exam not found")
            ∷ on_400 (text "Invalid exam data")
            ∷ [])
          (api_error (text "Failed to update exam") 500)

  unfoldable pub delete_exam : Text → M Value
  delete_exam exam_id =
      reject_if (is_empty exam_id) (text "Exam ID is required")
      >> attempt
          (do
            response ← client_delete p (text "/academic/exams/" ++ exam_id)
            _ ← lift (handle_envelope p response)
            return undefined)
          (on_401 (text "Authentication required to delete exams")
            ∷ on_403 (text "Access denied to delete this exam")
            ∷ on_404 (text "Exam not found")
            ∷ on_400 (text "Cannot delete exam with existing submissions")
            ∷ [])
          (api_error (text "Failed to delete exam") 500)

  unfoldable pub get_exam_years : M Value
  get_exam_years =
      attempt
        (do
          response ← client_get p (text "/academic/exams/years") undefined
          lift (handle_envelope p response))
        (on_401 (text "Authentication required") ∷ [])
        (api_error (text "Failed to fetch exam years") 500)
