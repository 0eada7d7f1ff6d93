-- ===== src/Session/Routes.antt =====
-- The routes of frontend/src/App.tsx: what each of them shows for the user of the session. A path
-- with parameters is one route.
use wazire.Base.{Bool, not, ◌&&◌, if◌then◌else◌}
use wazire.Base.Text.{Text, text}
use wazire.Base.Value.{Value, is_truthy, prop}
use wazire.Session.Context.{Context}
use wazire.Session.LoginPage.{is_text}

pub data Route : Type 0 where
  login register register_student register_lecturer register_admin register_superadmin : Route
  create_institution access_denied index dashboard : Route
  courses course edit_course create_exam exams edit_exam exam exam_questions : Route
  take_exam active_exam users institutions edit_institution submissions profile billing : Route

pub data View : Type 0 where
  blank denied : View
  page navigate : Route → View

abbrev pub has_role : Text → Value → Bool
has_role role user = is_text role (prop (text "role") user)

abbrev pub has_tenant : Value → Bool
has_tenant user = is_truthy (prop (text "tenant_id") user)

module _ (user : Value) where
  unfoldable pub private_route : View → View
  private_route children = if is_truthy user then children else navigate login

  unfoldable pub student_route : View → View
  student_route children =
      if not (is_truthy user)
      then navigate login
      else if not (has_role (text "student") user)
      then denied
      else children

  unfoldable pub admin_route : View → View
  admin_route children =
      if not (is_truthy user)
      then navigate login
      else if not (has_role (text "admin") user)
      then denied
      else if not (has_tenant user)
      then navigate create_institution
      else children

  unfoldable pub lecturer_or_admin_route : View → View
  lecturer_or_admin_route children =
      if not (is_truthy user)
      then navigate login
      else if not (has_role (text "lecturer") user) && not (has_role (text "admin") user)
      then denied
      else children

  abbrev unless_signed_in : Route → View
  unless_signed_in route = if is_truthy user then navigate dashboard else page route

  -- The routes inside of the layout.
  unfoldable pub inside : Route → View
  unfolding student_route admin_route lecturer_or_admin_route
  inside index = navigate dashboard
  inside dashboard =
      if has_role (text "admin") user && not (has_tenant user)
      then navigate create_institution
      else page dashboard
  inside edit_course = lecturer_or_admin_route (page edit_course)
  inside create_exam = lecturer_or_admin_route (page create_exam)
  inside edit_exam = lecturer_or_admin_route (page edit_exam)
  inside take_exam = student_route (page take_exam)
  inside active_exam = student_route (page active_exam)
  inside users = admin_route (page users)
  inside institutions = admin_route (page institutions)
  inside edit_institution = admin_route (page edit_institution)
  inside billing = admin_route (page billing)
  inside route = page route

  unfoldable pub element : Route → View
  unfolding private_route inside
  element login = unless_signed_in login
  element register = unless_signed_in register
  element register_student = unless_signed_in register_student
  element register_lecturer = unless_signed_in register_lecturer
  element register_admin = unless_signed_in register_admin
  element register_superadmin = unless_signed_in register_superadmin
  element create_institution =
      if is_truthy user && has_role (text "admin") user
      then page create_institution
      else navigate login
  element access_denied = denied
  element route = private_route (inside route)

-- `AppRoutes`: nothing while the session is not known yet.
unfoldable pub app_routes : Context → Route → View
unfolding element
app_routes c route = if c.auth_loading then blank else element c.user route
