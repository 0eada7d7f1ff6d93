-- ===== src/Questions/Look.antt =====
-- What the page shows. What the query gives besides the questions stands outside: whether it loads, the
-- message of its error, and the exam. The skeleton that stands for a page that loads shows nothing, an
-- image opens itself in another window, the progress of an upload is never set, and the icon and the
-- colour of the right option are left out. `rules_text` is the JSON text of the rules with a model
-- answer.
use wazire.Base.{
  ℕ, suc, Bool, true, false, not, ◌||◌, Option, none, some, List, [], ◌∷◌, ◌++◌, is_empty, length,
  ltb, if◌then◌else◌,
}
use wazire.Base.Text.{Text, text, text_eq, join}
use wazire.Base.Number.{Number}
use wazire.Base.Decimal.{print, print_difference}
use wazire.Ui.Element.{said, picture, button, choice, picker, View, shown_if, stack}
use wazire.Ui.Parts.{search_input, pagination, to_upper}
use wazire.Paging.Slices.{total_pages, page_items, has_next, has_prev}
use wazire.Questions.Form.{Question, Choice}
use wazire.Questions.View.{Label, obj, the, labels, current_marks}
use wazire.Questions.Life.Event.{create_clicked, edit_clicked, delete_clicked}
use wazire.Questions.Dialogs.{type_name, form_modal, delete_modal}
use wazire.Questions.Screen.{
  Screen, Event, on_page, search_for, choose_filter, go_next, go_prev, go_to, document_picked,
  leave, filtered,
}

pub record Exam : Type 0 where
  pub title : Text
  pub course_id : Text
  pub duration_hours : ℕ
  pub duration_minutes : ℕ
  pub total_marks : ℕ

pub record Fetched : Type 0 where
  pub loading : Bool
  pub error : Text  -- blank where there is none
  pub exam : Option Exam
  pub course_name : Text

-- `canManageQuestions`.
unfoldable pub can_manage : Text → Bool
can_manage role = text_eq role (text "lecturer") || text_eq role (text "admin")

abbrev or_else : Text → Text → Text
or_else [] default = default
or_else (c ∷ s) default = c ∷ s

abbrev hours_part : ℕ → List Text → List Text
hours_part h rest =
    if ltb 0 h then (print h ++ (if ltb 1 h then text " hrs" else text " hr")) ∷ rest else rest

abbrev minutes_part : ℕ → List Text
minutes_part m = if ltb 0 m then (print m ++ text " mins") ∷ [] else []

unfoldable pub duration_text : ℕ → ℕ → Text
unfolding join
duration_text h m = or_else (join (text " ") (hours_part h (minutes_part m))) (text "0 mins")

abbrev label_text : Label → Text
label_text (obj n) = text "OBJ" ++ print n
label_text (the n) = text "THE" ++ print n

abbrev pub picture_list : ℕ → ℕ → List Text → View Event
picture_list i n [] = []
picture_list i n (image ∷ images) =
    picture (text "Question image " ++ print i)
    ∷ said (print i ++ (text "/" ++ print n))
    ∷ picture_list (suc i) n images

abbrev pub option_list : List Choice → View Event
option_list [] = []
option_list (c ∷ cs) = said (to_upper c.label ++ text ".") ∷ said c.choice_text ∷ option_list cs

unfoldable pub processing : Screen → View Event
processing s = shown_if s.is_processing (
    said (text "Processing document...")
    ∷ said (text "Please wait while we extract questions from your document")
    ∷ [])

abbrev pub type_choice : Screen → View Event
type_choice s =
    choice
      ((text "all", text "All Types")
        ∷ (text "objective", text "Objective (MCQ & FITB)")
        ∷ (text "theory", text "Theory")
        ∷ [])
      s.qtype_filter choose_filter
    ∷ []

unfoldable pub searching : Screen → View Event
unfolding search_input
searching s =
    search_input (text "Search questions...") s.search_query false search_for none ++ type_choice s

unfoldable pub pages : Screen → View Event
unfolding pagination filtered total_pages
pages s =
    let n = length (filtered s) in
    let current = s.page.current_page in
    shown_if (not (is_empty (filtered s))) (
      pagination current (total_pages n) (has_next n current) (has_prev current) go_next go_prev
        go_to)

module _ (rules_text : Text → Text) (role : Text) where
  abbrev pub rules : Option Text → View Event
  rules none = []
  rules (some answer) = said (text "Rules: " ++ rules_text answer) ∷ []

  unfoldable pub changing : Question → View Event
  unfolding can_manage
  changing q =
      shown_if (can_manage role) (
        button [] true (on_page (edit_clicked q))
        ∷ button [] true (on_page (delete_clicked q))
        ∷ [])

  abbrev pub card_parts : Question → Label → List (View Event)
  card_parts q l =
      (said (label_text l) ∷ said (print q.mark ++ text " marks") ∷ [])
      ∷ shown_if (not (is_empty q.industry)) (said q.industry ∷ [])
      ∷ (said q.question_text ∷ [])
      ∷ shown_if (not (is_empty q.qtype)) (said (text "Type: " ++ type_name q.qtype) ∷ [])
      ∷ rules q.model_answer
      ∷ picture_list 1 (length q.images) q.images
      ∷ shown_if (text_eq q.qtype (text "multiple_choice")) (option_list q.options)
      ∷ changing q
      ∷ []

  unfoldable pub card : Question → Label → View Event
  unfolding stack changing
  card q l = stack (card_parts q l)

  abbrev pub cards : List Question → List Label → View Event
  cards (q ∷ qs) (l ∷ ls) = card q l ++ cards qs ls
  cards _ _ = []

  unfoldable pub nothing_found : Screen → View Event
  unfolding can_manage
  nothing_found s =
      said (text "No Questions Found")
      ∷ said (
          if is_empty s.search_query
          then text "No questions have been added to this exam yet."
          else text "No questions match your search criteria.")
      ∷ shown_if (can_manage role)
          (button (text "Create Question") true (on_page create_clicked) ∷ [])

  -- `renderQuestionsList`.
  abbrev pub render_questions_list : List Question → Screen → View Event
  render_questions_list qs s = if is_empty qs then nothing_found s else cards qs (labels qs)

  unfoldable pub listing : Screen → View Event
  unfolding filtered page_items nothing_found card labels
  listing s = render_questions_list (page_items s.page.current_page (filtered s)) s

  unfoldable pub header : Fetched → Exam → Screen → View Event
  unfolding can_manage duration_text current_marks
  header f e s =
      button [] true leave
      ∷ said e.title
      ∷ said (if can_manage role then text "Manage exam questions" else text "View exam questions")
      ∷ said (
          or_else f.course_name
            (if is_empty e.course_id then text "No Course" else text "Course " ++ e.course_id))
      ∷ said (duration_text e.duration_hours e.duration_minutes)
      ∷ said (text "Allocated: " ++ print e.total_marks)
      ∷ said (text "Current: " ++ print (current_marks s.page.questions))
      ∷ said (text "Left: " ++ print_difference e.total_marks (current_marks s.page.questions))
      ∷ shown_if (can_manage role) (
          picker (text "Upload Doc") document_picked
          ∷ button (text "Add Question") true (on_page create_clicked)
          ∷ [])

  module _ (number_text : Number → Text) where
    abbrev pub parts : Fetched → Exam → Screen → List (View Event)
    parts f e s =
        header f e s
        ∷ processing s
        ∷ searching s
        ∷ listing s
        ∷ pages s
        ∷ form_modal number_text s.page
        ∷ delete_modal s.page
        ∷ []

    abbrev pub view_exam : Fetched → Option Exam → Screen → View Event
    view_exam f none s = said (text "Exam not found") ∷ []
    view_exam f (some e) s = stack (parts f e s)

    unfoldable pub view : Fetched → Screen → View Event
    unfolding stack header processing searching listing pages form_modal delete_modal
    view f s =
        if f.loading
        then []
        else if is_empty f.error
        then view_exam f f.exam s
        else said f.error ∷ []
