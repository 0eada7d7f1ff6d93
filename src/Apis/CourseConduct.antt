-- ===== src/Apis/CourseConduct.antt =====
-- The functions of frontend/src/apis/course.ts towards the server.
use wazire.Base.{◌≡◌, refl, Bool-cases, inl, inr, ◌==◌}
use wazire.Base.Text.{Text}
use wazire.Base.Value.{Value, Fields, undefined}
use wazire.Http.Types.{Platform, World, Response, catch_as}
use wazire.Http.Envelope.{handle_envelope}
use wazire.Http.Utils.{handle_api_error}
use wazire.Apis.Conduct.{IsProper, request-IsProper, discard-quiet}
use wazire.Apis.Checks.{
  checked-IsProper, validate_required_id-Check, validate_required_fields-Check,
  validate_update_payload-Check,
}
use wazire.Apis.Course.{
  list_courses, get_course, create_course, update_course, delete_course, deleted,
}

deleted-quiet : (p : Platform) (r : Response) (v : World) → (deleted p r v).1.sent ≡ v.sent
deleted-quiet p r v = elim (Bool-cases (r.status == 204)) [
  | inl e ↦ rw e refl
  | inr e ↦ rw e (discard-quiet (handle_envelope p r) undefined v)
]

-- Every function on courses either rejects its arguments with an ApiError of status 400 and does
-- nothing, or sends one request; and all that it throws are ApiErrors.
pub courses_IsProper :
    (p : Platform) (w : World) (params : Value) (id : Text) (fields : Fields)
    → IsProper w (list_courses p params w)
      × IsProper w (get_course p id w)
      × IsProper w (create_course p fields w)
      × IsProper w (update_course p id fields w)
      × IsProper w (delete_course p id w)
unfolding list_courses get_course create_course update_course delete_course catch_as
courses_IsProper p w params id fields = (
  request-IsProper w p _ _ _ (λ r v. refl),
  checked-IsProper w _ _ (validate_required_id-Check id _)
      (request-IsProper w p _ _ (handle_api_error _) (λ r v. refl)),
  checked-IsProper w _ _ (validate_required_fields-Check fields _)
      (request-IsProper w p _ _ (handle_api_error _) (λ r v. refl)),
  checked-IsProper w _ _ (validate_required_id-Check id _) (
      checked-IsProper w _ _ (validate_update_payload-Check fields)
        (request-IsProper w p _ _ (handle_api_error _) (λ r v. refl))),
  checked-IsProper w _ _ (validate_required_id-Check id _)
      (request-IsProper w p _ _ (handle_api_error _) (deleted-quiet p)),
)
