-- ===== src/CourseList/Lecturer.antt =====
-- The choice of a lecturer in the dialog for a new course.
use wazire.Base.{◌≡◌, refl, Option, List, [], ◌∷◌}
use wazire.Base.Text.{Text}
use wazire.CourseList.Page.{
  Change, change_form, CourseData, course_data, Page, create_course, handle_create_course,
  handle_create_form_change,
}

-- The changes of the dialog, in order.
pub change_all : List Change → Page → Page
change_all [] p = p
change_all (c ∷ cs) p = change_all cs (handle_create_form_change c p)

-- The same changes but for the choices of a lecturer.
pub without_lecturer : List Change → List Change
without_lecturer [] = []
without_lecturer (Change.lecturer_id v ∷ cs) = without_lecturer cs
without_lecturer (Change.name v ∷ cs) = Change.name v ∷ without_lecturer cs
without_lecturer (Change.course_code v ∷ cs) = Change.course_code v ∷ without_lecturer cs
without_lecturer (Change.description v ∷ cs) = Change.description v ∷ without_lecturer cs

-- What would be sent of a page.
abbrev sent_of : Option Text → Page → CourseData
sent_of tenant p = course_data tenant p.form

module _ (tenant : Option Text) where
  same_data :
      (cs : List Change) (p q : Page)
      → sent_of tenant p ≡ sent_of tenant q
      → sent_of tenant (change_all cs p) ≡ sent_of tenant (change_all (without_lecturer cs) q)
  unfolding change_all without_lecturer course_data handle_create_form_change change_form
  same_data [] p q e = e
  same_data (Change.lecturer_id v ∷ cs) p q e =
      same_data cs (handle_create_form_change (Change.lecturer_id v) p) q e
  same_data (Change.name v ∷ cs) p q e =
      same_data cs (handle_create_form_change (Change.name v) p)
        (handle_create_form_change (Change.name v) q) (cc)
  same_data (Change.course_code v ∷ cs) p q e =
      same_data cs (handle_create_form_change (Change.course_code v) p)
        (handle_create_form_change (Change.course_code v) q) (cc)
  same_data (Change.description v ∷ cs) p q e =
      same_data cs (handle_create_form_change (Change.description v) p)
        (handle_create_form_change (Change.description v) q) (cc)

  requests-change_all : (cs : List Change) (p : Page) → (change_all cs p).requests ≡ p.requests
  unfolding change_all handle_create_form_change
  requests-change_all [] p = refl
  requests-change_all (c ∷ cs) p = requests-change_all cs (handle_create_form_change c p)

  lecturer-change_all :
      (cs : List Change) (p : Page) → (change_all cs p).form.lecturer ≡ p.form.lecturer
  unfolding change_all handle_create_form_change change_form
  lecturer-change_all [] p = refl
  lecturer-change_all (Change.lecturer_id v ∷ cs) p = lecturer-change_all cs _
  lecturer-change_all (Change.name v ∷ cs) p = lecturer-change_all cs _
  lecturer-change_all (Change.course_code v ∷ cs) p = lecturer-change_all cs _
  lecturer-change_all (Change.description v ∷ cs) p = lecturer-change_all cs _

  -- Whatever is changed in the dialog for a new course, the course that is then sent is the one of
  -- the same changes without any choice of a lecturer; and the dialog goes on showing no lecturer as
  -- chosen, since its form keeps the property that it asks.
  pub chosen_lecturer_dropped :
      (cs : List Change) (p : Page)
      → ((handle_create_course tenant (change_all cs p)).requests
          ≡ create_course (course_data tenant (change_all (without_lecturer cs) p).form)
            ∷ p.requests)
        × ((change_all cs p).form.lecturer ≡ p.form.lecturer)
  unfolding handle_create_course
  chosen_lecturer_dropped cs p =
      (rw (same_data cs p p refl, requests-change_all cs p), lecturer-change_all cs p)
