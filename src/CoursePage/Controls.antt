-- ===== src/CoursePage/Controls.antt =====
-- What can be done at the parts of the page.
use wazire.Base.{
  ℕ, ◌≡◌, refl, ap, Bool, true, false, not, ◌||◌, Option, none, some, List, [], ◌∷◌, arith,
  is_empty, ltb, ◌==◌,
}
use wazire.Base.Text.{Text, text, text_eq}
use wazire.Ui.Element.{
  Allows-said_some, View, Allows, Allows-append, Allows-shown_if, Allows-stack, Allows-if, shown_if,
  stack,
}
use wazire.Ui.Parts.{Allows-modal}
use wazire.ListPages.Enrollments.{Pane}
use wazire.CoursePage.Types.{Course, Exam, Enrollment, Candidate, ExamsPane, Page}
use wazire.CoursePage.Page.{can_edit}
use wazire.CoursePage.Steps.{Event}
use wazire.CoursePage.Steps.Event.{
  ask_delete, confirm_delete, reload, next_exams, prev_exams, choose_exams_year, open_enroll,
  close_enroll, submit_enroll, ask_unenroll, confirm_unenroll, next_students, prev_students,
}
use wazire.CoursePage.Look
use wazire.CoursePage.Look.{Platform, enrolls}
use wazire.CoursePage.Dialogs
use wazire.CoursePage.View

module _ (d : Platform) (role own id : Text) where
  abbrev pub Enrolls : Type 0
  Enrolls = enrolls role ≡ true

  abbrev pub Edits : Page → Type 0
  Edits p = can_edit role own p.course ≡ true

  pub Edits-Enrolls : (course : Option Course) → can_edit role own course ≡ true → Enrolls
  unfolding can_edit
  Edits-Enrolls course e = ground arith

  -- Exams are listed.
  abbrev pub Lists : Page → Type 0
  Lists p = (p.loading ≡ false) × (is_empty p.exams_pane.exams ≡ false)

  abbrev pub Allowed : Page → Event → Type 0
  Allowed p ask_delete = Edits p × (p.loading ≡ false)
  Allowed p confirm_delete = p.show_delete_confirm ≡ true
  Allowed p open_enroll = Enrolls
  Allowed p submit_enroll = p.enroll_open ≡ true
  Allowed p (ask_unenroll t) = Enrolls
  Allowed p confirm_unenroll = p.show_unenroll_confirm ≡ true
  Allowed p reload = p.loading ≡ false
  Allowed p next_exams = Lists p
  Allowed p prev_exams = Lists p
  Allowed p (choose_exams_year t) = Lists p
  Allowed p e = p.loading ≡ false

  module _ (p : Page) (there : p.loading ≡ false) where
    pages-Allowed :
        (n : ℕ) (more : Bool) (next prev : Event)
        → Allowed p next
        → Allowed p prev
        → Allows (Allowed p) (Look.short_pagination n more next prev)
    pages-Allowed n more next prev hn hp =
        Allows-shown_if (Allowed p) (more || ltb 1 n) _ (λ _. ((λ _. hp), (tt, ((λ _. hn), tt))))

    exam-Allowed : (b : Bool) (e : Exam) → Allows (Allowed p) (Look.exam_card d b e)
    unfolding Look.exam_card
    exam-Allowed b e = (
      tt,
      (
        tt,
        Allows-append (Allowed p) (shown_if (not (is_empty e.start_time)) _) _
            (Allows-shown_if (Allowed p) (not (is_empty e.start_time)) _ (λ _. (tt, tt)))
            ((λ _. there), Allows-shown_if (Allowed p) b _ (λ _. ((λ _. there), tt))),
      ),
    )

    each-Allowed :
        {A : Type 0} (show : A → View Event) (xs : List A)
        → ((x : A) → Allows (Allowed p) (show x))
        → Allows (Allowed p) (Look.each show xs)
    each-Allowed show [] h = tt
    each-Allowed show (x ∷ xs) h =
        Allows-append (Allowed p) (show x) (Look.each show xs) (h x) (each-Allowed show xs h)

    listed_exams-Allowed :
        (b : Bool) (years : List ℕ) (e : ExamsPane)
        → Lists p
        → Allows (Allowed p) (Look.listed_exams d b years e)
    unfolding Look.listed_exams
    listed_exams-Allowed b years e lists = (
      (λ s. lists),
      Allows-append (Allowed p) (Look.each (Look.exam_card d b) e.exams) _
          (each-Allowed (Look.exam_card d b) e.exams (exam-Allowed b))
          (pages-Allowed e.page e.has_next next_exams prev_exams lists lists),
    )

    no_exams-Allowed : (b : Bool) (c : Course) → Allows (Allowed p) (Look.no_exams b c)
    unfolding Look.no_exams
    no_exams-Allowed b c = (tt, (tt, Allows-shown_if (Allowed p) b _ (λ _. ((λ _. there), tt))))

    exams_or_none-Allowed :
        (b : Bool) (c : Course) (years : List ℕ) (es : List Exam)
        → p.exams_pane.exams ≡ es
        → Allows (Allowed p) (Look.exams_or_none d b c years p.exams_pane es)
    exams_or_none-Allowed b c years [] h = no_exams-Allowed b c
    exams_or_none-Allowed b c years (x ∷ xs) h =
        listed_exams-Allowed b years p.exams_pane (there, ap is_empty h)

    exams_unless-Allowed :
        (b : Bool) (c : Course) (years : List ℕ) (error : Option Text)
        → Allows (Allowed p) (Look.exams_unless d b c years p.exams_pane error)
    exams_unless-Allowed b c years none = exams_or_none-Allowed b c years p.exams_pane.exams refl
    exams_unless-Allowed b c years (some m) = (tt, tt)

    exams_content-Allowed :
        (b : Bool) (c : Course) (years : List ℕ)
        → Allows (Allowed p) (Look.exams_content d b c years p.exams_pane)
    unfolding Look.exams_content
    exams_content-Allowed b c years =
        Allows-if (Allowed p) p.exams_pane.loading _
          (Look.exams_unless d b c years p.exams_pane p.exams_pane.error) (tt, tt)
          (exams_unless-Allowed b c years p.exams_pane.error)

    filter_bar-Allowed : (pane : Pane Enrollment) → Allows (Allowed p) (Look.filter_bar role pane)
    unfolding Look.filter_bar
    filter_bar-Allowed pane = (
      (λ _. there),
      Allows-append (Allowed p) (shown_if (not (is_empty pane.query.semester)) _) _
          (Allows-shown_if (Allowed p) (not (is_empty pane.query.semester)) _
            (λ _. (tt, ((λ _. there), tt))))
          (Allows-append (Allowed p) (shown_if (not (pane.query.year == 0)) _) _
            (Allows-shown_if (Allowed p) (not (pane.query.year == 0)) _
              (λ _. (tt, ((λ _. there), tt))))
            (Allows-shown_if (Allowed p) (enrolls role) _ (λ r. ((λ _. r), tt)))),
    )

    enrollment-Allowed :
        (u : Option Text) (e : Enrollment) → Allows (Allowed p) (Look.enrollment_card d role u e)
    unfolding Look.enrollment_card
    enrollment-Allowed u e =
        (tt, (tt, (tt, (tt, Allows-shown_if (Allowed p) (enrolls role) _ (λ r. ((λ _. r), tt))))))

    listed_students-Allowed :
        (u : Option Text) (pane : Pane Enrollment)
        → Allows (Allowed p) (Look.listed_students d role u pane)
    unfolding Look.listed_students
    listed_students-Allowed u pane =
        Allows-append (Allowed p) (Look.each (Look.enrollment_card d role u) pane.enrollments) _
          (each-Allowed (Look.enrollment_card d role u) pane.enrollments (enrollment-Allowed u))
          (pages-Allowed pane.query.page pane.has_next next_students prev_students there there)

    no_students-Allowed : Allows (Allowed p) (Look.no_students role)
    unfolding Look.no_students
    no_students-Allowed =
        (tt, (tt, Allows-shown_if (Allowed p) (enrolls role) _ (λ r. ((λ _. r), tt))))

    students_content-Allowed : Allows (Allowed p) (Look.students_content d role p)
    unfolding Look.students_content
    students_content-Allowed =
        Allows-if (Allowed p) p.enrollments_loading _ _ (tt, tt)
          (Allows-append (Allowed p) (Look.filter_bar role p.pane) _ (filter_bar-Allowed p.pane) (
            Allows-if (Allowed p) (is_empty p.pane.enrollments) (Look.no_students role)
              (Look.listed_students d role p.unenroll_loading p.pane) no_students-Allowed
              (listed_students-Allowed p.unenroll_loading p.pane)))

    overview-Allowed : (c : Course) → Allows (Allowed p) (Look.overview d c p)
    unfolding Look.overview
    overview-Allowed c =
        (tt, (tt, (tt, (tt, (tt, (tt, (tt, (tt, (tt, (tt, ((λ _. there), tt)))))))))))

    tab-Allowed : (c : Course) → Allows (Allowed p) (View.tab_content d role own c p)
    tab-Allowed c =
        Allows-if (Allowed p) (text_eq p.active_tab (text "overview")) (Look.overview d c p) _
          (overview-Allowed c)
          (Allows-if (Allowed p) (text_eq p.active_tab (text "exams"))
            (Look.exams_content d (can_edit role own p.course) c p.available_years p.exams_pane) _
            (exams_content-Allowed (can_edit role own p.course) c p.available_years)
            (Allows-shown_if (Allowed p) _ (Look.students_content d role p)
              (λ _. students_content-Allowed)))

    filter-Allowed : Allows (Allowed p) (Dialogs.filter_dialog p)
    unfolding Dialogs.filter_dialog
    filter-Allowed = Allows-shown_if (Allowed p) p.pane.filter_open _ (λ _. (
      (λ _. there),
      (tt, ((λ s. there), ((λ s. there), ((λ _. there), ((λ _. there), ((λ _. there), tt)))))),
    ))

    unenroll-Allowed : Allows (Allowed p) (Dialogs.unenroll_dialog p)
    unfolding Dialogs.unenroll_dialog
    unenroll-Allowed =
        Allows-shown_if (Allowed p) p.show_unenroll_confirm _
          (λ is_open. ((λ _. there), (tt, (tt, ((λ _. there), ((λ _. is_open), tt))))))

    delete-Allowed : (c : Course) → Allows (Allowed p) (Dialogs.delete_dialog c p)
    unfolding Dialogs.delete_dialog
    delete-Allowed c =
        Allows-shown_if (Allowed p) p.show_delete_confirm _
          (λ is_open. ((λ _. there), (tt, (tt, ((λ _. there), ((λ _. is_open), tt))))))

    choice-Allowed :
        (ss : List Candidate) (t : Text) → Allows (Allowed p) (Dialogs.student_choice ss t)
    choice-Allowed [] t = (tt, tt)
    choice-Allowed (s ∷ ss) t = ((λ _. there), tt)

    enroll_parts-Allowed :
        p.enroll_open ≡ true → Allows (Allowed p) (stack (Dialogs.enroll_parts p))
    enroll_parts-Allowed is_open = Allows-stack (Allowed p) (Dialogs.enroll_parts p) (
      Allows-said_some (Allowed p) p.enroll_error,
      (
        Allows-said_some (Allowed p) p.enroll_success,
        (
          choice-Allowed (Dialogs.choosable p.pane.enrollments p.students) p.selected_student_id,
          (((λ s. there), ((λ _. there), ((λ _. is_open), tt))), tt),
        ),
      ),
    )

    enroll-Allowed : (c : Course) → Allows (Allowed p) (Dialogs.enroll_dialog c p)
    unfolding Dialogs.enroll_dialog
    enroll-Allowed c =
        Allows-modal (Allowed p) p.enroll_open close_enroll _ (stack (Dialogs.enroll_parts p)) there
          enroll_parts-Allowed

    header-Allowed : (c : Course) → Allows (Allowed p) (View.header d role own c p)
    unfolding View.header
    header-Allowed c =
        Allows-shown_if (Allowed p) (can_edit role own p.course) _
          (λ edits. ((λ _. there), ((λ _. (edits, there)), tt)))

    hero-Allowed : (c : Course) → Allows (Allowed p) (View.hero d role own c p)
    unfolding View.hero
    hero-Allowed c = (
      tt,
      (
        tt,
        (
          tt,
          (
            tt,
            Allows-append (Allowed p) (shown_if (not (View.is_student role)) _) _
                (Allows-shown_if (Allowed p) (not (View.is_student role)) _ (λ _. (tt, (tt, tt))))
                (tt, (tt, tt)),
          ),
        ),
      ),
    )

    counts-Allowed : (c : Course) → Allows (Allowed p) (View.counts d role own c p)
    unfolding View.counts
    counts-Allowed c =
        Allows-shown_if (Allowed p) (not (View.is_student role)) _ (λ _. (tt, (tt, (tt, (tt, tt)))))

    tab_list-Allowed : (c : Course) → Allows (Allowed p) (View.tab_list d role own c)
    unfolding View.tab_list
    tab_list-Allowed c = (
      (λ _. there),
      (
        (λ _. there),
        Allows-shown_if (Allowed p) (not (View.is_student role)) _ (λ _. ((λ _. there), tt)),
      ),
    )

    course-Allowed : (c : Option Course) → Allows (Allowed p) (View.view_course d role own c p)
    unfolding View.not_found
    course-Allowed none = (tt, (tt, ((λ _. there), tt)))
    course-Allowed (some c) = Allows-stack (Allowed p) (View.parts d role own c p) (
      header-Allowed c,
      (
        hero-Allowed c,
        (
          counts-Allowed c,
          (
            tab_list-Allowed c,
            (
              tab-Allowed c,
              (delete-Allowed c, (enroll-Allowed c, (unenroll-Allowed, (filter-Allowed, tt)))),
            ),
          ),
        ),
      ),
    )

    pub unless-Allowed : (e : Option Text) → Allows (Allowed p) (View.view_unless d role own e p)
    unfolding View.failure
    unless-Allowed none = course-Allowed p.course
    unless-Allowed (some e) = (tt, (tt, ((λ _. there), tt)))
