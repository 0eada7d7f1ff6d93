-- ===== src/CoursePage/Rights.antt =====
-- Who can delete the course on its page, and who can enroll and remove students.
use wazire.Base.{
  ◌≡◌, refl, Bool, true, false, ◌||◌, Option, none, some, List, All, is_empty, if◌then◌else◌,
}
use wazire.Base.Text.{Text}
use wazire.Ui.Element.{Offers, Allows, Allows-Offers, Allows-unless}
use wazire.CoursePage.Types.{
  Course, Page, Request, delete_course, enroll_student, remove_enrollment, list_enrollments, start,
}
use wazire.CoursePage.Page.{
  can_edit, handle_delete, send_delete, handle_enroll_student, handle_unenroll_student,
  send_unenroll, close_enroll_modal, open_unenroll_confirm, loaded, load_failed, course_deleted,
  delete_failed, students_fetched, enrolled, enrolled_listed, enroll_failed, unenrolled,
  unenrolled_listed, unenroll_failed,
}
use wazire.CoursePage.Steps.{Event, Server, handle, settle_page, step, Reply, replied}
use wazire.CoursePage.Steps.Event.{
  ask_delete, cancel_delete, confirm_delete, reload, open_enroll, close_enroll, submit_enroll,
  ask_unenroll, cancel_unenroll, confirm_unenroll,
}
use wazire.CoursePage.Steps.Reply.{
  all_loaded, loading_failed, deletion_failed, student_enrolled, student_unenrolled,
  unenrollment_listed,
}
use wazire.CoursePage.Look.{Platform, enrolls}
use wazire.CoursePage.View
use wazire.CoursePage.Controls.{Edits-Enrolls, Allowed, unless-Allowed}

module _ (d : Platform) (role own id : Text) where
  -- The replies that a page can get: its course is loaded once.
  abbrev pub Awaited : Page → Reply → Type 0
  Awaited p (all_loaded l) = p.loading ≡ true
  Awaited p (loading_failed m) = p.loading ≡ true
  Awaited p r = Unit {0}

  -- The pages that can come to be for a user with this role and identifier.
  pub data Reached : Page → Type 0 where
    opened : Reached start
    acted :
        {p : Page}
        → Reached p
        → (server : Server) (e : Event) → Offers e (View.view d role own p)
        → Reached (step id server e p)
    answered : {p : Page} → Reached p → (r : Reply) → Awaited p r → Reached (replied id r p)

  pub view-Allowed : (p : Page) → Allows (Allowed d role own id p) (View.view d role own p)
  unfolding View.view
  view-Allowed p =
      Allows-unless (Allowed d role own id p) p.loading (View.view_unless d role own p.error p)
        (λ there. unless-Allowed d role own id p there p.error)

  abbrev pub RequestAllowed : Request → Type 0
  RequestAllowed (delete_course i) = enrolls role ≡ true
  RequestAllowed (enroll_student student course semester) = enrolls role ≡ true
  RequestAllowed (remove_enrollment i) = enrolls role ≡ true
  RequestAllowed (list_enrollments i q) = Unit {0}

  -- The dialogs are open only for those who may use them, and not while the course loads.
  abbrev Inv : Bool → Bool → Bool → Bool → Option Course → List Request → Type 0
  Inv loads deletes enrolling unenrolling course requests =
      (deletes ≡ true → can_edit role own course ≡ true)
      × (enrolling ≡ true → enrolls role ≡ true)
      × (unenrolling ≡ true → enrolls role ≡ true)
      × (loads ≡ true → deletes ≡ false)
      × All RequestAllowed requests

  abbrev PageInv : Page → Type 0
  PageInv p =
      Inv p.loading p.show_delete_confirm p.enroll_open p.show_unenroll_confirm p.course p.requests

  delete-Inv :
      (p : Page) (c : Option Course)
      → enrolls role ≡ true
      → PageInv p
      → PageInv (send_delete c id p)
  delete-Inv p none m v = v
  delete-Inv p (some c) m (a, b, e, l, rs) = (a, b, e, l, (m, rs))

  unenroll-Inv :
      (p : Page) (i : Option Text) → enrolls role ≡ true → PageInv p → PageInv (send_unenroll i p)
  unenroll-Inv p none m v = v
  unenroll-Inv p (some i) m (a, b, e, l, rs) = (a, b, e, l, (m, rs))

  if-Inv : (b : Bool) (p q : Page) → PageInv p → PageInv q → PageInv (if b then p else q)
  if-Inv true p q v w = v
  if-Inv false p q v w = w

  handle-Inv :
      (p : Page) (e : Event) → Allowed d role own id p e → PageInv p → PageInv (handle id e p)
  unfolding handle handle_delete handle_enroll_student handle_unenroll_student close_enroll_modal
      open_unenroll_confirm start
  handle-Inv p ask_delete (h, f) (a, b, e, l, rs) = ((λ _. h), b, e, (λ t. cc), rs)
  handle-Inv p cancel_delete h (a, b, e, l, rs) = ((λ f. cc), b, e, (λ _. refl), rs)
  handle-Inv p confirm_delete h v =
      delete-Inv p p.course (Edits-Enrolls d role own id p.course (v.0 h)) v
  handle-Inv p reload h (a, b, e, l, rs) = ((λ f. cc), (λ f. cc), (λ f. cc), (λ _. refl), rs)
  handle-Inv p open_enroll h (a, b, e, l, rs) = (a, (λ _. h), e, l, rs)
  handle-Inv p close_enroll h (a, b, e, l, rs) = (a, (λ f. cc), e, l, rs)
  handle-Inv p submit_enroll h (a, b, e, l, rs) =
      if-Inv (is_empty id || is_empty p.selected_student_id) p _ (a, b, e, l, rs)
        (a, b, e, l, (b h, rs))
  handle-Inv p (ask_unenroll t) h (a, b, e, l, rs) = (a, b, (λ _. h), l, rs)
  handle-Inv p cancel_unenroll h (a, b, e, l, rs) = (a, b, (λ f. cc), l, rs)
  handle-Inv p confirm_unenroll h v = unenroll-Inv p p.selected_enrollment_id (v.2 h) v
  handle-Inv p e h v = v

  reply-Inv : (p : Page) (r : Reply) → Awaited p r → PageInv p → PageInv (replied id r p)
  unfolding replied loaded load_failed course_deleted delete_failed students_fetched enrolled
      enrolled_listed enroll_failed unenrolled unenrolled_listed unenroll_failed
  reply-Inv p (all_loaded x) h (a, b, e, l, rs) = ((λ f. cc (l h)), b, e, (λ f. cc), rs)
  reply-Inv p (loading_failed m) h (a, b, e, l, rs) = (a, b, e, (λ f. cc), rs)
  reply-Inv p (deletion_failed m) h (a, b, e, l, rs) = ((λ f. cc), b, e, (λ _. refl), rs)
  reply-Inv p student_enrolled h (a, b, e, l, rs) = (a, b, e, l, (tt, rs))
  reply-Inv p student_unenrolled h (a, b, e, l, rs) = (a, b, e, l, (tt, rs))
  reply-Inv p (unenrollment_listed x) h (a, b, e, l, rs) = (a, b, (λ f. cc), l, rs)
  reply-Inv p r h v = v

  reached-Inv : {p : Page} → Reached p → PageInv p
  unfolding start step settle_page
  reached-Inv opened = ((λ f. cc), (λ f. cc), (λ f. cc), (λ _. refl), tt)
  reached-Inv (acted {p} r server e o) =
      handle-Inv p e
        (Allows-Offers (Allowed d role own id p) e (View.view d role own p) (view-Allowed p) o)
        (reached-Inv r)
  reached-Inv (answered {p} h r w) = reply-Inv p r w (reached-Inv h)

  -- Whatever the user does of what the page offers, and whatever the server replies: the dialog that
  -- deletes the course is open only for an admin or for the lecturer whom the course names, and
  -- requests to delete the course, to enroll students or to remove them are sent only where the
  -- user is an admin or a lecturer.
  pub changes_need_rights :
      (p : Page)
      → Reached p
      → (p.show_delete_confirm ≡ true → can_edit role own p.course ≡ true)
        × All RequestAllowed p.requests
  changes_need_rights p h = let v = reached-Inv h in (v.0, v.4)
