-- ===== src/CoursePage/Year.antt =====
-- A year in which the course has no exams.
use wazire.Base.{
  ℕ, ◌≡◌, ◌≢◌, refl, sym, ap, ◌∙◌, Bool, true, false, ◌||◌, Option, none, some, List, [], is_empty,
  ==_iff, if◌then◌else◌,
}
use wazire.Base.Text.{Text}
use wazire.Ui.Element.{Offers, Allows-Offers}
use wazire.CoursePage.Types.{Course, ExamsPane, Page}
use wazire.CoursePage.Page.{
  handle_delete, send_delete, handle_enroll_student, handle_unenroll_student, send_unenroll,
  close_enroll_modal, open_unenroll_confirm, course_deleted, delete_failed, students_fetched,
  enrolled, enrolled_listed, enroll_failed, unenrolled, unenrolled_listed, unenroll_failed,
  settle_exams,
}
use wazire.CoursePage.Steps.{Event, Server, handle, settle_page, step, Reply, replied}
use wazire.CoursePage.Steps.Event.{
  reload, next_exams, prev_exams, choose_exams_year, confirm_delete, submit_enroll,
  confirm_unenroll,
}
use wazire.CoursePage.Steps.Reply.{all_loaded, loading_failed}
use wazire.CoursePage.Look
use wazire.CoursePage.Look.{Platform}
use wazire.CoursePage.View
use wazire.CoursePage.Controls.{Allowed}
use wazire.CoursePage.Rights.{Awaited, view-Allowed}

module _ (d : Platform) (role own id : Text) where
  -- The pages that can follow on a page while it is not loaded again.
  pub data Follows (p : Page) : Page → Type 0 where
    here : Follows p p
    acted :
        {q : Page}
        → Follows p q
        → (server : Server) (e : Event) → e ≢ reload
        → Offers e (View.view d role own q)
        → Follows p (step id server e q)
    answered :
        {q : Page}
        → Follows p q
        → (r : Reply) → Awaited d role own id q r
        → Follows p (replied id r q)

  abbrev pub IsEmptyYear : ExamsPane → Type 0
  IsEmptyYear e = (e.exams ≡ []) × (e.loading ≡ false) × (e.error ≡ none)

  abbrev Kept : ExamsPane → Page → Type 0
  Kept e q = (q.loading ≡ false) × (q.exams_pane ≡ e)

  settle-same : (server : Server) (e : ExamsPane) → settle_exams server.exams e e ≡ e
  unfolding settle_exams
  settle-same server e = rw ((==_iff e.page e.page).1 refl, (==_iff e.year e.year).1 refl) refl

  settled :
      (server : Server) (e before after : ExamsPane)
      → before ≡ e
      → after ≡ e
      → settle_exams server.exams before after ≡ e
  settled server e before after h k = rw (h, k) (settle-same server e)

  unlisted :
      (e : ExamsPane) (q : Page) → e.exams ≡ [] → Kept e q → is_empty q.exams_pane.exams ≡ false → ⊥
  unlisted e q n k h =
      let full : true ≡ false = sym (ap is_empty (ap (λ (x : ExamsPane). x.exams) k.1 ∙ n)) ∙ h in
      cc

  delete-Kept :
      (e : ExamsPane) (q : Page) (c : Option Course) → Kept e q → Kept e (send_delete c id q)
  delete-Kept e q none k = k
  delete-Kept e q (some c) k = k

  unenroll-Kept :
      (e : ExamsPane) (q : Page) (i : Option Text) → Kept e q → Kept e (send_unenroll i q)
  unenroll-Kept e q none k = k
  unenroll-Kept e q (some i) k = k

  if-Kept :
      (e : ExamsPane) (b : Bool) (p q : Page) → Kept e p → Kept e q → Kept e (if b then p else q)
  if-Kept e true p q k l = k
  if-Kept e false p q k l = l

  handle-Kept :
      (e : ExamsPane) (q : Page) (a : Event)
      → e.exams ≡ []
      → a ≢ reload
      → Allowed d role own id q a
      → Kept e q
      → Kept e (handle id a q)
  unfolding handle handle_delete handle_enroll_student handle_unenroll_student close_enroll_modal
      open_unenroll_confirm
  handle-Kept e q reload n other h k = absurd (other refl)
  handle-Kept e q (choose_exams_year t) n other h k = absurd (unlisted e q n k h.1)
  handle-Kept e q next_exams n other h k = absurd (unlisted e q n k h.1)
  handle-Kept e q prev_exams n other h k = absurd (unlisted e q n k h.1)
  handle-Kept e q confirm_delete n other h k = delete-Kept e q q.course k
  handle-Kept e q confirm_unenroll n other h k = unenroll-Kept e q q.selected_enrollment_id k
  handle-Kept e q submit_enroll n other h k =
      if-Kept e (is_empty id || is_empty q.selected_student_id) q _ k k
  handle-Kept e q a n other h k = k

  step-Kept :
      (server : Server) (e : ExamsPane) (q : Page) (a : Event)
      → Kept e q
      → Kept e (handle id a q)
      → Kept e (step id server a q)
  unfolding step settle_page
  step-Kept server e q a k (there, same) =
      (there, settled server e q.exams_pane (handle id a q).exams_pane k.1 same)

  reply-Kept :
      (e : ExamsPane) (q : Page) (r : Reply)
      → Awaited d role own id q r
      → Kept e q
      → Kept e (replied id r q)
  unfolding replied course_deleted delete_failed students_fetched enrolled enrolled_listed
      enroll_failed unenrolled unenrolled_listed unenroll_failed
  reply-Kept e q (all_loaded l) w k = absurd (cc)
  reply-Kept e q (loading_failed m) w k = absurd (cc)
  reply-Kept e q r w k = k

  follows-Kept :
      (p q : Page) → p.loading ≡ false → p.exams_pane.exams ≡ [] → Follows p q → Kept p.exams_pane q
  follows-Kept p q there n here = (there, refl)
  follows-Kept p q there n (acted {q = r} f server a other o) =
      let k = follows-Kept p r there n f in
      step-Kept server p.exams_pane r a k (
        handle-Kept p.exams_pane r a n other
          (Allows-Offers (Allowed d role own id r) a (View.view d role own r)
            (view-Allowed d role own id r) o)
          k)
  follows-Kept p q there n (answered {q = r} f x w) =
      reply-Kept p.exams_pane r x w (follows-Kept p r there n f)

  shows_none :
      (edits : Bool) (c : Course) (years : List ℕ) (e : ExamsPane)
      → IsEmptyYear e
      → Look.exams_content d edits c years e ≡ Look.no_exams edits c
  unfolding Look.exams_content
  shows_none edits c years e (n, l, m) = simp (l, m, n)

  -- When the list of exams has been fetched for a year in which the course has none, then, whatever
  -- the user does of what the page offers and whatever the server replies, as long as the page is
  -- not loaded again: the list stays empty for that year, and its tab shows no choice of a year,
  -- only the words for a course without exams.
  pub empty_year_sticks :
      (p q : Page)
      → p.loading ≡ false
      → IsEmptyYear p.exams_pane
      → Follows p q
      → (q.exams_pane ≡ p.exams_pane)
        × ((c : Course) (edits : Bool)
            → Look.exams_content d edits c q.available_years q.exams_pane ≡ Look.no_exams edits c)
  empty_year_sticks p q there empty f =
      let k = follows-Kept p q there empty.0 f in
      (k.1, λ c edits. rw k.1 (shows_none edits c q.available_years p.exams_pane empty))
