-- ===== src/Apis/EnrollmentConduct.antt =====
-- The functions of frontend/src/apis/enrollment.ts and frontend/src/apis/semester.ts towards the
-- server.
use wazire.Base.{refl}
use wazire.Base.Text.{Text}
use wazire.Base.Value.{Value, Fields, Items}
use wazire.Http.Types.{Platform, World}
use wazire.Apis.Conduct.{IsProper, request-IsProper, guard-IsProper}
use wazire.Apis.Enrollment.{
  list_enrollment, get_enrollment, enroll_student, update_enrollment, remove_enrollment,
  get_course_enrollment, get_student_enrollment, get_lecturer_enrollment, bulk_enroll,
  check_enrollment, list_semesters, get_semester,
}

-- Every function on enrollments and on semesters either rejects its arguments with an ApiError of
-- status 400 and does nothing, or sends one request; and all that it throws are ApiErrors.
pub enrollments_IsProper :
    (p : Platform) (w : World) (id other : Text) (fields : Fields) (items : Items) (params : Value)
    → IsProper w (list_enrollment p fields w)
      × IsProper w (get_enrollment p id w)
      × IsProper w (enroll_student p fields w)
      × IsProper w (update_enrollment p id fields w)
      × IsProper w (remove_enrollment p id w)
      × IsProper w (get_course_enrollment p id fields w)
      × IsProper w (get_student_enrollment p id fields w)
      × IsProper w (get_lecturer_enrollment p id fields w)
      × IsProper w (bulk_enroll p items w)
      × IsProper w (check_enrollment p id other w)
      × IsProper w (list_semesters p params w)
      × IsProper w (get_semester p id w)
unfolding list_enrollment get_enrollment enroll_student update_enrollment remove_enrollment
    get_course_enrollment get_student_enrollment get_lecturer_enrollment bulk_enroll
    check_enrollment list_semesters get_semester
enrollments_IsProper p w id other fields items params = (
  request-IsProper w p _ _ _ (λ r v. refl),
  request-IsProper w p _ _ _ (λ r v. refl),
  request-IsProper w p _ _ _ (λ r v. refl),
  request-IsProper w p _ _ _ (λ r v. refl),
  request-IsProper w p _ _ _ (λ r v. refl),
  request-IsProper w p _ _ _ (λ r v. refl),
  request-IsProper w p _ _ _ (λ r v. refl),
  request-IsProper w p _ _ _ (λ r v. refl),
  request-IsProper w p _ _ _ (λ r v. refl),
  request-IsProper w p _ _ _ (λ r v. refl),
  request-IsProper w p _ _ _ (λ r v. refl),
  guard-IsProper w _ _ _ (request-IsProper w p _ _ _ (λ r v. refl)),
)
