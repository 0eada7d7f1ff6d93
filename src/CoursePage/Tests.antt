-- ===== src/CoursePage/Tests.antt =====
-- An admin who deletes a course, a student who looks at a year without exams, and the theorems there.
use wazire.Base.{◌≡◌, ◌⊎◌, refl, Bool, true, false, none, some, [], ◌∷◌, All, inl, inr}
use wazire.Base.Text.{Text, text, text_eq}
use wazire.Ui.Element.{Offers, stack}
use wazire.CourseList.Page.{no_lecturer}
use wazire.ListPages.Enrollments.{settle, same_query}
use wazire.CoursePage.Types.{Course, ExamsPane, Page, start}
use wazire.CoursePage.Page.{Loaded, loaded, listed, can_edit, settle_exams}
use wazire.CoursePage.Steps.{Server, handle, settle_page, step, replied}
use wazire.CoursePage.Steps.Event.{ask_delete, confirm_delete, choose_tab}
use wazire.CoursePage.Steps.Reply.{all_loaded}
use wazire.CoursePage.Look
use wazire.CoursePage.Look.{Platform}
use wazire.CoursePage.Dialogs
use wazire.CoursePage.View
use wazire.CoursePage.Rights
use wazire.CoursePage.Rights.{Reached, RequestAllowed, changes_need_rights}
use wazire.CoursePage.Year
use wazire.CoursePage.Year.{Follows, here, empty_year_sticks}

abbrev course : Course
course = record {
  id = b'c' ∷ [];
  name = b'n' ∷ [];
  course_code = b'k' ∷ [];
  description = [];
  lecturer = no_lecturer;
  created_at = [];
  updated_at = [];
}

abbrev platform : Platform
platform = record { date_text = λ t. t; time_text = λ t. t; student_names = [] }

abbrev all_of_it : Loaded
all_of_it = record {
  course = course;
  exams = [];
  exams_has_next = false;
  years = [];
  enrollments = record { items = []; has_next = false };
}

abbrev server : Server
server = record { exams = λ page year. listed [] false; students = λ q. none }

abbrev id : Text
id = b'c' ∷ []

abbrev admin : Text
admin = text "admin"

abbrev loaded_page : Page
loaded_page = replied id (all_loaded all_of_it) start

abbrev asked : Page
asked = step id server ask_delete loaded_page

abbrev confirmed : Page
confirmed = step id server confirm_delete asked

abbrev skip : {A B C D E F G H I : Type 0} → I → A ⊎ (B ⊎ (C ⊎ (D ⊎ (E ⊎ (F ⊎ (G ⊎ (H ⊎ I)))))))
skip d = inr (inr (inr (inr (inr (inr (inr (inr d)))))))

loaded-Reached : Reached platform admin [] id loaded_page
unfolding start
loaded-Reached = Rights.answered Rights.opened (all_loaded all_of_it) refl

asked_offered : Offers ask_delete (View.view platform admin [] loaded_page)
unfolding View.view View.header stack can_edit replied loaded start text text_eq
asked_offered = inr (inl (refl, refl))

confirm_offered : Offers confirm_delete (View.view platform admin [] asked)
unfolding View.view View.header View.hero View.counts View.tab_list Look.overview
    Dialogs.delete_dialog stack can_edit replied loaded start step settle_page settle_exams settle
    same_query handle text text_eq
confirm_offered = skip (skip (skip (skip (inl (refl, refl)))))

confirmed-Reached : Reached platform admin [] id confirmed
confirmed-Reached =
    Rights.acted (Rights.acted loaded-Reached server ask_delete asked_offered) server confirm_delete
      confirm_offered

changes_need_rights_example :
    (confirmed.show_delete_confirm ≡ true → can_edit admin [] confirmed.course ≡ true)
    × All (RequestAllowed platform admin [] id) confirmed.requests
changes_need_rights_example = changes_need_rights platform admin [] id confirmed confirmed-Reached

-- The page of a course after 2020 was chosen.
abbrev empty_year : ExamsPane
empty_year = record {
  exams = [];
  loading = false;
  error = none;
  page = 1;
  has_next = false;
  year = 2020;
}

abbrev of_2020 : Page
of_2020 = record start { course = some course; loading = false; exams_pane = empty_year }

abbrev student : Text
student = text "student"

abbrev on_exams : Page
on_exams = step id server (choose_tab (text "exams")) of_2020

tab_offered : Offers (choose_tab (text "exams")) (View.view platform student [] of_2020)
unfolding View.view View.header View.hero View.counts View.tab_list stack can_edit start text
    text_eq
tab_offered = inr (inr (inr (inr (inr (inr (inr (inl (refl, refl))))))))

on_exams-Follows : Follows platform student [] id of_2020 on_exams
on_exams-Follows = Year.acted here server (choose_tab (text "exams")) (λ e. cc) tab_offered

empty_year_sticks_example :
    (on_exams.exams_pane ≡ of_2020.exams_pane)
    × ((c : Course) (edits : Bool)
        → Look.exams_content platform edits c on_exams.available_years on_exams.exams_pane
          ≡ Look.no_exams edits c)
empty_year_sticks_example =
    empty_year_sticks platform student [] id of_2020 on_exams refl (refl, refl, refl)
      on_exams-Follows
