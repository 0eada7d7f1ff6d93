-- ===== src/Session/Navigation.antt =====
-- Who sees which page, and where a navigation ends.
use wazire.Base.{
  ℕ, zero, suc, ◌+◌, ◌≡◌, ◌∙◌, refl, sym, ap, Bool, true, false, not, ◌&&◌, ◌||◌, Option, none,
  some, arith, if◌then◌else◌,
}
use wazire.Base.Text.{text}
use wazire.Base.Value.{Value, null, is_truthy}
use wazire.Session.Routes.{Route, View, element, private_route, has_role, has_tenant}
use wazire.Session.Routes.Route.{
  login, register, register_student, register_lecturer, register_admin, register_superadmin,
  create_institution, access_denied, index, dashboard, courses, course, edit_course, create_exam,
  exams, edit_exam, exam, exam_questions, take_exam, active_exam, users, institutions,
  edit_institution, submissions, profile, billing,
}
use wazire.Session.Routes.View.{blank, denied, page, navigate}

-- Whom a page is for.
pub data Audience : Type 0 where
  guests : Audience  -- who are not signed in
  members : Audience  -- who are signed in
  students teachers admins : Audience  -- teachers are lecturers and admins
  institution_admins : Audience  -- admins with an institution
  settled_members : Audience  -- members, but for admins without an institution
  nobody : Audience

abbrev pub is_in : Audience → Value → Bool
is_in guests user = not (is_truthy user)
is_in members user = is_truthy user
is_in students user = is_truthy user && has_role (text "student") user
is_in teachers user =
    is_truthy user && (has_role (text "lecturer") user || has_role (text "admin") user)
is_in admins user = is_truthy user && has_role (text "admin") user
is_in institution_admins user = is_truthy user && (has_role (text "admin") user && has_tenant user)
is_in settled_members user =
    is_truthy user && (not (has_role (text "admin") user) || has_tenant user)
is_in nobody user = false

abbrev pub audience : Route → Audience
audience login = guests
audience register = guests
audience register_student = guests
audience register_lecturer = guests
audience register_admin = guests
audience register_superadmin = guests
audience access_denied = nobody
audience index = nobody
audience create_institution = admins
audience dashboard = settled_members
audience edit_course = teachers
audience create_exam = teachers
audience edit_exam = teachers
audience take_exam = students
audience active_exam = students
audience users = institution_admins
audience institutions = institution_admins
audience edit_institution = institution_admins
audience billing = institution_admins
audience route = members

abbrev pub shown_page : View → Option Route
shown_page (page route) = some route
shown_page view = none

own_page :
    (user : Value) (route : Route)
    → shown_page (element user route) ≡ (if is_in (audience route) user then some route else none)
unfolding element
own_page user login = ground arith
own_page user register = ground arith
own_page user register_student = ground arith
own_page user register_lecturer = ground arith
own_page user register_admin = ground arith
own_page user register_superadmin = ground arith
own_page user create_institution = ground arith
own_page user access_denied = ground arith
own_page user index = ground arith
own_page user dashboard = ground arith
own_page user courses = ground arith
own_page user course = ground arith
own_page user edit_course = ground arith
own_page user create_exam = ground arith
own_page user exams = ground arith
own_page user edit_exam = ground arith
own_page user exam = ground arith
own_page user exam_questions = ground arith
own_page user take_exam = ground arith
own_page user active_exam = ground arith
own_page user users = ground arith
own_page user institutions = ground arith
own_page user edit_institution = ground arith
own_page user submissions = ground arith
own_page user profile = ground arith
own_page user billing = ground arith

abbrev pub onward : (Route → View) → View → View
onward f blank = blank
onward f denied = denied
onward f (page route) = page route
onward f (navigate next) = f next

-- What the browser shows after at most so many navigations from a route.
unfoldable pub follow : Value → ℕ → Route → View
unfolding element
follow user zero route = element user route
follow user (suc n) route = onward (follow user n) (element user route)

abbrev pub is_settled : View → Bool
is_settled (navigate next) = false
is_settled view = true

onward_settled : (f : Route → View) (v : View) → is_settled v ≡ true → onward f v ≡ v
onward_settled f blank h = refl
onward_settled f denied h = refl
onward_settled f (page route) h = refl
onward_settled f (navigate next) h = cc

onward_same :
    (f g : Route → View) (v : View)
    → ((r : Route) → is_settled (g r) ≡ true → f r ≡ g r)
    → is_settled (onward g v) ≡ true
    → onward f v ≡ onward g v
onward_same f g blank ih h = refl
onward_same f g denied ih h = refl
onward_same f g (page route) ih h = refl
onward_same f g (navigate next) ih h = ih next h

follow-suc :
    (user : Value) (n : ℕ) (route : Route)
    → is_settled (follow user n route) ≡ true
    → follow user (suc n) route ≡ follow user n route
unfolding follow
follow-suc user zero route h = onward_settled (element user) (element user route) h
follow-suc user (suc n) route h =
    onward_same (follow user (suc n)) (follow user n) (element user route) (follow-suc user n) h

settles_in_three : (user : Value) (route : Route) → is_settled (follow user 3 route) ≡ true
unfolding follow
settles_in_three user login = ground arith
settles_in_three user register = ground arith
settles_in_three user register_student = ground arith
settles_in_three user register_lecturer = ground arith
settles_in_three user register_admin = ground arith
settles_in_three user register_superadmin = ground arith
settles_in_three user create_institution = ground arith
settles_in_three user access_denied = ground arith
settles_in_three user index = ground arith
settles_in_three user dashboard = ground arith
settles_in_three user courses = ground arith
settles_in_three user course = ground arith
settles_in_three user edit_course = ground arith
settles_in_three user create_exam = ground arith
settles_in_three user exams = ground arith
settles_in_three user edit_exam = ground arith
settles_in_three user exam = ground arith
settles_in_three user exam_questions = ground arith
settles_in_three user take_exam = ground arith
settles_in_three user active_exam = ground arith
settles_in_three user users = ground arith
settles_in_three user institutions = ground arith
settles_in_three user edit_institution = ground arith
settles_in_three user submissions = ground arith
settles_in_three user profile = ground arith
settles_in_three user billing = ground arith

follow-add :
    (user : Value) (n k : ℕ) (route : Route)
    → is_settled (follow user n route) ≡ true
    → follow user (k + n) route ≡ follow user n route
follow-add user n zero route h = ap (λ m. follow user m route) (omega arith)
follow-add user n (suc k) route h =
    let ih = follow-add user n k route h in
    let next : suc k + n ≡ suc (k + n) = omega arith in
    ap (λ m. follow user m route) next ∙ follow-suc user (k + n) route (ap is_settled ih ∙ h) ∙ ih

-- Whether a user may see what is shown, where it is a page.
abbrev pub may_see : Value → Option Route → Bool
may_see user none = true
may_see user (some route) = is_in (audience route) user

allowed_page :
    (user : Value) (route : Route) (b : Bool)
    → b ≡ is_in (audience route) user
    → may_see user (if b then some route else none) ≡ true
allowed_page user route true h = sym h
allowed_page user route false h = refl

element-may_see :
    (user : Value) (route : Route) → may_see user (shown_page (element user route)) ≡ true
element-may_see user route =
    ap (may_see user) (own_page user route)
    ∙ allowed_page user route (is_in (audience route) user) refl

onward-may_see :
    (user : Value) (f : Route → View) (v : View)
    → ((r : Route) → may_see user (shown_page (f r)) ≡ true)
    → may_see user (shown_page v) ≡ true
    → may_see user (shown_page (onward f v)) ≡ true
onward-may_see user f blank hf h = refl
onward-may_see user f denied hf h = refl
onward-may_see user f (page route) hf h = h
onward-may_see user f (navigate next) hf h = hf next

follow-may_see :
    (user : Value) (n : ℕ) (route : Route) → may_see user (shown_page (follow user n route)) ≡ true
unfolding follow
follow-may_see user zero route = element-may_see user route
follow-may_see user (suc n) route =
    onward-may_see user (follow user n) (element user route) (follow-may_see user n)
      (element-may_see user route)

-- Where a browser without a user ends.
abbrev pub guest_view : Route → View
guest_view access_denied = denied
guest_view route = if is_in (audience route) null then page route else page login

guest_login : (n : ℕ) → follow null n login ≡ page login
unfolding follow element
guest_login zero = refl
guest_login (suc n) = refl

guest_follow : (n : ℕ) (route : Route) → follow null (suc n) route ≡ guest_view route
unfolding follow element private_route
guest_follow n login = refl
guest_follow n register = refl
guest_follow n register_student = refl
guest_follow n register_lecturer = refl
guest_follow n register_admin = refl
guest_follow n register_superadmin = refl
guest_follow n create_institution = guest_login n
guest_follow n access_denied = refl
guest_follow n index = guest_login n
guest_follow n dashboard = guest_login n
guest_follow n courses = guest_login n
guest_follow n course = guest_login n
guest_follow n edit_course = guest_login n
guest_follow n create_exam = guest_login n
guest_follow n exams = guest_login n
guest_follow n edit_exam = guest_login n
guest_follow n exam = guest_login n
guest_follow n exam_questions = guest_login n
guest_follow n take_exam = guest_login n
guest_follow n active_exam = guest_login n
guest_follow n users = guest_login n
guest_follow n institutions = guest_login n
guest_follow n edit_institution = guest_login n
guest_follow n submissions = guest_login n
guest_follow n profile = guest_login n
guest_follow n billing = guest_login n

-- A route shows its own page or no page at all, and its own page exactly to those whom it is for: the
-- login and registration pages to those that are not signed in, the pages of an exam that is taken to
-- students, those that edit courses and exams to lecturers and admins, that for a new institution to
-- admins, those for users, institutions and billing to admins with an institution, the dashboard to
-- those signed in but for admins without an institution, the index and the denial of access to nobody,
-- and all others to those signed in. After any number of redirections the browser shows no page that
-- is not for the user. And without a user one navigation leads from every route to the login page,
-- but for the login and registration pages, which stay, and the denial of access.
pub routes_are_guarded :
    (user : Value) (route : Route) (n : ℕ)
    → (shown_page (element user route) ≡ (if is_in (audience route) user then some route else none))
      × (may_see user (shown_page (follow user n route)) ≡ true)
      × (follow null (suc n) route ≡ guest_view route)
routes_are_guarded user route n =
    (own_page user route, follow-may_see user n route, guest_follow n route)

-- The redirections of the routes end: from any route, for any user, the browser shows a page or the
-- denial of access after at most three navigations, and more navigations change nothing.
pub navigation_settles :
    (user : Value) (route : Route) (more : ℕ)
    → (is_settled (follow user 3 route) ≡ true)
      × (follow user (more + 3) route ≡ follow user 3 route)
navigation_settles user route more =
    (settles_in_three user route, follow-add user 3 more route (settles_in_three user route))
