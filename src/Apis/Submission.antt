-- ===== src/Apis/Submission.antt =====
-- frontend/src/apis/submission.ts: the submissions of exams.
use wazire.Base.{
  ℕ, not, ◌||◌, ◌==◌, Option, none, some, List, [], ◌∷◌, ◌++◌, is_empty, if◌then◌else◌,
}
use wazire.Base.Text.{Text, text, includes}
use wazire.Base.Value.{
  Value, undefined, null, str, obj, Fields, end, field, get_field, is_truthy, keys, prop,
}
use wazire.Http.Types.{
  ApiError, api_error, Failure, api, axios, plain, other, Rule, M, ◌>>=◌, ◌>>◌, fail, lift, return,
  attempt, reject_if, catch_as, catch_with, replace_error, Platform, Response,
}
use wazire.Http.Client.{client_get, client_post, client_put}
use wazire.Http.Envelope.{
  or_value, handle_envelope, handle_paginated_envelope, Paginated, message_text,
}
use wazire.Apis.Shared.{on_400, on_401, on_403, on_404, page_params, pass_on}

module _ (p : Platform) where
  -- The page parameters alone where the list is a lecturer's.
  abbrev pub submissions_request : Value → M Response
  submissions_request params =
      if is_truthy (prop (text "lecturer_id") params)
      then client_get p (text "/academic/submissions/lecturer") (obj (page_params p params end))
      else client_get p (text "/academic/submissions/") (
          obj (
            page_params p params (
              pass_on params (text "search") (
                pass_on params (text "status") (
                  pass_on params (text "exam_id") (
                    pass_on params (text "student_id") (
                      pass_on params (text "tenant_id") (
                        pass_on params (text "course_id") (
                          pass_on params (text "start_date")
                            (pass_on params (text "end_date") end))))))))))

  unfoldable pub list_submissions : Value → M Paginated
  list_submissions params =
      attempt
        (do response ← submissions_request params; lift (handle_paginated_envelope p response))
        (on_401 (text "Authentication required to view submissions")
          ∷ on_403 (text "Access denied to view submissions")
          ∷ on_404 (text "Submissions endpoint not found")
          ∷ [])
        (api_error (text "Failed to fetch submissions") 500)

  unfoldable pub get_submission : Text → M Value
  get_submission submission_id =
      reject_if (is_empty submission_id) (text "Submission ID is required")
      >> attempt
          (do
            response ←
                client_get p (text "/academic/submissions/" ++ submission_id ++ text "/") undefined
            lift (handle_envelope p response))
          (on_401 (text "Authentication required to view submission")
            ∷ on_403 (text "Access denied to view this submission")
            ∷ on_404 (text "Submission not found")
            ∷ [])
          (api_error (text "Failed to fetch submission") 500)

  -- `error.response.data.error || error.response.data.message || 'Failed to start exam'`.
  abbrev pub start_message : Value → Text
  start_message body = message_text p (
      or_value (prop (text "error") body)
        (or_value (prop (text "message") body) (str (text "Failed to start exam"))))

  -- The `catch` clause of `createSubmission`: the body of the response comes before the tests.
  abbrev pub create_error : List Rule → ApiError → Failure → ApiError
  create_error rules fallback (axios e) = elim e.response [
    | none ↦ replace_error rules fallback (axios e)
    | some resp ↦
        if is_truthy resp.body
        then api_error (start_message resp.body) resp.status
        else replace_error rules fallback (axios e)
  ]
  create_error rules fallback f = replace_error rules fallback f

  unfoldable pub create_submission : Fields → M Value
  create_submission submission_data =
      reject_if (not (is_truthy (get_field (text "exam_id") submission_data)))
        (text "Exam ID is required")
      >> catch_as
          (do
            response ← client_post p (text "/academic/submissions/") (obj submission_data)
            lift (handle_envelope p response))
          (create_error
            (on_401 (text "Authentication required to start exam")
              ∷ on_403 (text "Access denied to start this exam")
              ∷ on_404 (text "Exam not found")
              ∷ [])
            (api_error (text "Failed to start exam") 500))

  unfoldable pub start_submission : Fields → M Value
  start_submission submission_data =
      reject_if (not (is_truthy (get_field (text "exam_id") submission_data)))
        (text "Exam ID is required to start exam")
      >> attempt
          (do
            response ← client_post p (text "/academic/submissions/start") (obj submission_data)
            lift (handle_envelope p response))
          [] (api_error (text "Failed to start submission") 500)

  unfoldable pub update_submission : Text → Fields → M Value
  update_submission submission_id submission_data =
      reject_if (is_empty submission_id) (text "Submission ID is required")
      >> reject_if (is_empty (keys submission_data))
          (text "At least one field must be provided for update")
      >> attempt
          (do
            response ←
                client_put p (text "/academic/submissions/" ++ submission_id ++ text "/")
                  (obj submission_data)
            lift (handle_envelope p response))
          (on_401 (text "Authentication required to update submission")
            ∷ on_403 (text "Access denied to update this submission")
            ∷ on_404 (text "Submission not found")
            ∷ on_400 (text "Invalid submission data")
            ∷ [])
          (api_error (text "Failed to update submission") 500)

  -- The `catch` clause of `getMySubmission`: an error that says 404 gives null. The tests of the
  -- message stand in the order of the source.
  abbrev pub mine_message : Text → M Value
  mine_message message =
      if includes message (text "401") || includes message (text "Not authenticated")
      then fail (api (api_error (text "Authentication required to view submission") 401))
      else if includes message (text "403") || includes message (text "Forbidden")
      then fail (api (api_error (text "Access denied to view this submission") 403))
      else if includes message (text "404") || includes message (text "Not Found")
      then return null
      else fail (api (api_error (text "Failed to fetch your submission") 500))

  abbrev pub mine_error : Failure → M Value
  mine_error (api e) = elim e.status [
    | none ↦ fail (api e)
    | some status ↦ if status == 404 then return null else fail (api e)
  ]
  mine_error (axios e) = mine_message e.message
  mine_error (plain message) = mine_message message
  mine_error (other v) = fail (api (api_error (text "Failed to fetch your submission") 500))

  -- An exam id that is undefined or empty asks for no exam.
  unfoldable pub get_my_submission : Text → M Value
  get_my_submission exam_id =
      catch_with
        (do
          response ←
              client_get p (text "/academic/submissions/mine")
                (obj (if is_empty exam_id then end else field (text "exam_id") (str exam_id) end))
          lift (handle_envelope p response))
        mine_error

  unfoldable pub get_all_my_submissions : M Value
  get_all_my_submissions =
      attempt
        (do
          response ← client_get p (text "/academic/submissions/mine/all") undefined
          lift (handle_envelope p response))
        (on_401 (text "Authentication required to view submissions")
          ∷ on_403 (text "Access denied to view submissions")
          ∷ [])
        (api_error (text "Failed to fetch your submissions") 500)

-- The text after a prefix.
strip_prefix : Text → Text → Option Text
strip_prefix [] s = some s
strip_prefix (a ∷ p) [] = none
strip_prefix (a ∷ p) (b ∷ s) = if a == b then strip_prefix p s else none

abbrev put_before : ℕ → Option Text → Option Text
put_before c none = none
put_before c (some s) = some (c ∷ s)

-- The text up to the next quotation mark, none if there is no mark.
until_quote : Text → Option Text
until_quote [] = none
until_quote (c ∷ s) = if c == b'"' then some [] else put_before c (until_quote s)

abbrev non_empty : Option Text → Option Text
non_empty none = none
non_empty (some []) = none
non_empty (some (c ∷ s)) = some (c ∷ s)

abbrev quoted : Option Text → Option Text
quoted none = none
quoted (some s) = non_empty (until_quote s)

abbrev first_some : Option Text → Option Text → Option Text
first_some none y = y
first_some (some x) y = some x

-- `message.match(/"error":"([^"]+)"/)?.[1]`.
unfoldable pub backend_error : Text → Option Text
unfolding strip_prefix until_quote
backend_error [] = none
backend_error (c ∷ s) =
    first_some (quoted (strip_prefix (text "\"error\":\"") (c ∷ s))) (backend_error s)

abbrev backend_error_or : Option Text → Text
backend_error_or none = text "Invalid submission data - check your answers"
backend_error_or (some message) = message

abbrev failure_message : Failure → Text
failure_message (axios e) = e.message
failure_message (plain message) = message
failure_message _ = []

module _ (p : Platform) where
  unfoldable pub submit_exam : Fields → M Value
  unfolding backend_error
  submit_exam submit_data =
      reject_if (not (is_truthy (get_field (text "exam_id") submit_data)))
        (text "Exam ID is required")
      >> catch_as
          (do
            response ← client_post p (text "/academic/submissions/") (obj submit_data)
            lift (handle_envelope p response))
          (λ f.
            replace_error
              (on_401 (text "Authentication required to submit exam")
                ∷ on_403 (text "Access denied to submit this exam")
                ∷ on_404 (text "Exam or submission not found")
                ∷ on_400 (backend_error_or (backend_error (failure_message f)))
                ∷ [])
              (api_error (text "Failed to submit exam") 500) f)
