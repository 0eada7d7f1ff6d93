-- ===== src/Questions/ScreenTests.antt =====
-- A student who looks at the questions of an exam, and the theorem there.
use wazire.Base.{◌≡◌, false, none, some, List, [], ◌∷◌, ◌⊎◌, refl, inl, inr}
use wazire.Base.Text.{Text, text, text_eq}
use wazire.Base.Number.{Number}
use wazire.Ui.Element.{File, Offers}
use wazire.Questions.Form.{Question}
use wazire.Questions.Uploads.{Read, unreadable}
use wazire.Questions.Screen.{Screen, choose_filter, start_screen, step, on_page}
use wazire.Questions.Life.Event.{fetched}
use wazire.Questions.Viewers.{IsUntouched}
use wazire.Questions.Rights.{Reached, opened, acted, questions_given, viewers_change_nothing}
use wazire.Questions.Look

abbrev number_text : Number → Text
number_text n = []

abbrev compress : File → Read Text
compress f = unreadable none

abbrev convert : File → Read (List Text)
convert f = unreadable none

abbrev student : Text
student = text "student"

abbrev question : Question
question = record {
  id = b'1' ∷ [];
  number = b'1' ∷ [];
  question_text = b'q' ∷ [];
  qtype = text "theory";
  mark = 2;
  options = [];
  answer_value = none;
  answer_text = [];
  model_answer = some (b'm' ∷ []);
  images = [];
  industry = text "general";
}

abbrev given : Screen
given = step number_text none compress convert (on_page (fetched (question ∷ []))) start_screen

abbrev shown : Look.Fetched
shown = record {
  loading = false;
  error = [];
  exam = some (record {
    title = b'E' ∷ [];
    course_id = [];
    duration_hours = 1;
    duration_minutes = 0;
    total_marks = 2;
  });
  course_name = [];
}

abbrev skip : {A B C D E F : Type 0} → F → A ⊎ (B ⊎ (C ⊎ (D ⊎ (E ⊎ F))))
skip d = inr (inr (inr (inr (inr d))))

viewer : Look.can_manage student ≡ false
unfolding Look.can_manage text text_eq
viewer = refl

filter_offered :
    Offers (choose_filter (text "theory")) (Look.view (λ t. t) student number_text shown given)
unfolding Look.view Look.can_manage text text_eq start_screen step
filter_offered = skip (skip (inl (text "theory", refl)))

abbrev chosen : Screen
chosen = step number_text none compress convert (choose_filter (text "theory")) given

chosen-Reached : Reached number_text (λ t. t) none compress convert student chosen
chosen-Reached = acted (questions_given opened (question ∷ [])) shown _ filter_offered

viewers_change_nothing_example : IsUntouched chosen
viewers_change_nothing_example =
    viewers_change_nothing number_text (λ t. t) none compress convert student viewer chosen
      chosen-Reached
