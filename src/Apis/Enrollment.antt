-- ===== src/Apis/Enrollment.antt =====
-- frontend/src/apis/enrollment.ts: enrollments, and frontend/src/apis/semester.ts, which reads errors
-- in the same way.
use wazire.Base.{◌++◌, if◌then◌else◌, Option, none, some, is_empty}
use wazire.Base.Text.{Text, text, text_eq}
use wazire.Base.Value.{Value, undefined, str, arr, Items, obj, Fields, end, field, is_truthy, prop}
use wazire.Http.Types.{
  Response, ApiError, Failure, api, axios, plain, other, M, ◌>>=◌, ◌>>◌, lift, return, catch_as,
  reject_if, Platform,
}
use wazire.Http.Client.{client_get, client_post, client_put, client_delete}
use wazire.Http.Envelope.{handle_envelope, handle_paginated_envelope, Paginated, message_text}

-- `typeof v === 'string'`, then `v`.
abbrev string_or : Value → Text → Text
string_or (str s) rest = s
string_or v rest = rest

abbrev body_of : Option Response → Value
body_of none = undefined
body_of (some resp) = resp.body

-- `extractMessage` from `e?.response?.data` and `e?.message`.
unfoldable pub extract_from : Platform → Value → Value → Text → Text
extract_from p body message fallback = string_or (prop (text "detail") body) (
    string_or (prop (text "error") body)
      (if is_truthy message then message_text p message else fallback))

unfoldable pub extract_message : Platform → Failure → Text → Text
unfolding extract_from
extract_message p (api e) fallback = e.message
extract_message p (axios e) fallback = extract_from p (body_of e.response) (str e.message) fallback
extract_message p (plain message) fallback = extract_from p undefined (str message) fallback
extract_message p (other v) fallback =
    extract_from p (prop (text "data") (prop (text "response") v)) (prop (text "message") v)
      fallback

-- `new ApiError(extractMessage(error, fallback))`.
abbrev pub extracted : Platform → Text → Failure → ApiError
extracted p fallback f = record {
  message = extract_message p f fallback;
  status = none;
  code = undefined;
  details = undefined;
}

-- `{ ...params, [key]: v }`.
unfoldable pub set_field : Text → Value → Fields → Fields
set_field key v end = field key v end
set_field key v (field k u fs) =
    if text_eq k key then field key v fs else field k u (set_field key v fs)

module _ (p : Platform) where
  unfoldable pub list_enrollment : Fields → M Paginated
  list_enrollment params =
      catch_as
        (do
          response ← client_get p (text "/academic/enrollments/") (obj params)
          lift (handle_paginated_envelope p response))
        (extracted p (text "Failed to fetch enrollments"))

  unfoldable pub get_enrollment : Text → M Value
  get_enrollment id =
      catch_as
        (do
          response ← client_get p (text "/academic/enrollments/" ++ id) undefined
          lift (handle_envelope p response))
        (extracted p (text "Failed to fetch enrollment"))

  unfoldable pub enroll_student : Fields → M Value
  enroll_student fields =
      catch_as
        (do
          response ← client_post p (text "/academic/enrollments/") (obj fields)
          lift (handle_envelope p response))
        (extracted p (text "Failed to enroll student"))

  unfoldable pub update_enrollment : Text → Fields → M Value
  update_enrollment id fields =
      catch_as
        (do
          response ← client_put p (text "/academic/enrollments/" ++ id) (obj fields)
          lift (handle_envelope p response))
        (extracted p (text "Failed to update enrollment"))

  unfoldable pub remove_enrollment : Text → M Value
  remove_enrollment id =
      catch_as (do _ ← client_delete p (text "/academic/enrollments/" ++ id); return undefined)
        (extracted p (text "Failed to remove enrollment"))

  unfoldable pub get_course_enrollment : Text → Fields → M Paginated
  unfolding list_enrollment set_field
  get_course_enrollment course_id params =
      list_enrollment (set_field (text "course_id") (str course_id) params)

  unfoldable pub get_student_enrollment : Text → Fields → M Paginated
  unfolding list_enrollment set_field
  get_student_enrollment student_id params =
      list_enrollment (set_field (text "student_id") (str student_id) params)

  unfoldable pub get_lecturer_enrollment : Text → Fields → M Paginated
  unfolding list_enrollment set_field
  get_lecturer_enrollment lecturer_id params =
      list_enrollment (set_field (text "lecturer_id") (str lecturer_id) params)

  unfoldable pub bulk_enroll : Items → M Value
  bulk_enroll enrollments =
      catch_as
        (do
          response ←
              client_post p (text "/academic/enrollments/bulk")
                (obj (field (text "enrollments") (arr enrollments) end))
          lift (handle_envelope p response))
        (extracted p (text "Failed to bulk enroll students"))

  unfoldable pub check_enrollment : Text → Text → M Value
  check_enrollment student_id course_id =
      catch_as
        (do
          response ← client_get p (text "/academic/enrollments/check") (
              obj (
                field (text "student_id") (str student_id)
                  (field (text "course_id") (str course_id) end)))
          lift (handle_envelope p response))
        (extracted p (text "Failed to check enrollment"))

  unfoldable pub list_semesters : Value → M Paginated
  list_semesters params =
      catch_as
        (do
          response ← client_get p (text "/billing/semesters") params
          lift (handle_paginated_envelope p response))
        (extracted p (text "Failed to fetch semesters"))

  unfoldable pub get_semester : Text → M Value
  get_semester semester_id =
      reject_if (is_empty semester_id) (text "Semester ID is required")
      >> catch_as
          (do
            response ← client_get p (text "/billing/semesters/" ++ semester_id) undefined
            lift (handle_envelope p response))
          (extracted p (text "Failed to fetch semester"))
