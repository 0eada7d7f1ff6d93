-- ===== src/Apis/Course.antt =====
-- frontend/src/apis/course.ts: courses.
use wazire.Base.{[], ◌∷◌, ◌++◌, ◌==◌, if◌then◌else◌}
use wazire.Base.Text.{Text, text}
use wazire.Base.Value.{Value, undefined, obj, Fields, end}
use wazire.Http.Types.{Response, api_error, M, ◌>>=◌, ◌>>◌, lift, return, attempt, Platform}
use wazire.Http.Client.{client_get, client_post, client_put, client_delete}
use wazire.Http.Utils.{
  validate_required_id, validate_required_fields, validate_update_payload, handled,
}
use wazire.Http.Envelope.{handle_envelope, handle_paginated_envelope, Paginated}
use wazire.Apis.Shared.{on_401, on_403, on_404, page_params, pass_on}

module _ (p : Platform) where
  unfoldable pub list_courses : Value → M Paginated
  list_courses params =
      attempt
        (do
          response ← client_get p (text "/academic/courses/") (
              obj (
                page_params p params (
                  pass_on params (text "search")
                    (pass_on params (text "lecturer_id") (pass_on params (text "tenant_id") end)))))
          lift (handle_paginated_envelope p response))
        (on_401 (text "Authentication required to view courses")
          ∷ on_403 (text "Access denied to view courses")
          ∷ on_404 (text "Courses endpoint not found")
          ∷ [])
        (api_error (text "Failed to fetch courses") 500)

  unfoldable pub get_course : Text → M Value
  get_course course_id =
      lift (validate_required_id course_id (text "Course ID"))
      >> handled (text "Get course") (do
        response ← client_get p (text "/academic/courses/" ++ course_id) undefined
        lift (handle_envelope p response))

  unfoldable pub create_course : Fields → M Value
  create_course course_data =
      lift (validate_required_fields course_data (text "name" ∷ text "course_code" ∷ []))
      >> handled (text "Create course") (do
        response ← client_post p (text "/academic/courses/") (obj course_data)
        lift (handle_envelope p response))

  unfoldable pub update_course : Text → Fields → M Value
  update_course course_id course_data =
      lift (validate_required_id course_id (text "Course ID"))
      >> lift (validate_update_payload course_data)
      >> handled (text "Update course") (do
        response ← client_put p (text "/academic/courses/" ++ course_id) (obj course_data)
        lift (handle_envelope p response))

  -- A reply with status 204 is not read.
  abbrev pub deleted : Response → M Value
  deleted response =
      if response.status == 204
      then return undefined
      else lift (handle_envelope p response) >>= λ _. return undefined

  unfoldable pub delete_course : Text → M Value
  delete_course course_id =
      lift (validate_required_id course_id (text "Course ID"))
      >> handled (text "Delete course")
          (do response ← client_delete p (text "/academic/courses/" ++ course_id); deleted response)
