-- ===== src/Questions/Viewers.antt =====
-- What the page offers to a user who is neither a lecturer nor an admin.
use wazire.Base.{ℕ, suc, ◌≡◌, false, not, Option, none, some, List, [], ◌∷◌, is_empty, length}
use wazire.Base.Text.{Text, text, text_eq}
use wazire.Base.Number.{Number}
use wazire.Ui.Element.{
  View, shown_if, Allows, Allows-append, Allows-shown_if, Allows-stack, Allows-if, Allows-unless,
}
use wazire.Ui.Parts.{search_input, Allows-search_input, Allows-pagination}
use wazire.Paging.Slices.{page_items, total_pages, has_next, has_prev}
use wazire.Questions.Form.{Question, Choice}
use wazire.Questions.View.{Label, labels}
use wazire.Questions.Page.{Page}
use wazire.Questions.Screen.{
  Screen, Event, search_for, choose_filter, go_next, go_prev, go_to, filtered,
}
use wazire.Questions.Dialogs.{form_modal, delete_modal}
use wazire.Questions.Look

-- What a user may do who only views the questions.
abbrev pub Harmless : Event → Type 0
Harmless (search_for t) = Unit {0}
Harmless (choose_filter t) = Unit {0}
Harmless go_next = Unit {0}
Harmless go_prev = Unit {0}
Harmless (go_to n) = Unit {0}
Harmless Event.leave = Unit {0}
Harmless _ = ⊥

-- Nothing was sent, nothing is awaited, and no dialog is open.
pub record IsUntouched (s : Screen) : Type 0 where
  pub requests : s.page.requests ≡ []
  pub upload : s.upload ≡ none
  pub waiting : s.page.waiting ≡ none
  pub create_open : s.page.create_open ≡ false
  pub edit_open : s.page.edit_open ≡ false
  pub delete_open : s.page.delete_open ≡ false

pictures-Harmless : (i n : ℕ) (images : List Text) → Allows Harmless (Look.picture_list i n images)
pictures-Harmless i n [] = tt
pictures-Harmless i n (image ∷ images) = (tt, (tt, pictures-Harmless (suc i) n images))

options-Harmless : (cs : List Choice) → Allows Harmless (Look.option_list cs)
options-Harmless [] = tt
options-Harmless (c ∷ cs) = (tt, (tt, options-Harmless cs))

searching-Harmless : (s : Screen) → Allows Harmless (Look.searching s)
unfolding Look.searching
searching-Harmless s =
    Allows-append Harmless
      (search_input (text "Search questions...") s.search_query false search_for none)
      (Look.type_choice s)
      (Allows-search_input Harmless (text "Search questions...") s.search_query false search_for
        (λ t. tt))
      ((λ t. tt), tt)

pages-Harmless : (s : Screen) → Allows Harmless (Look.pages s)
unfolding Look.pages
pages-Harmless s =
    let n = length (filtered s) in
    let current = s.page.current_page in
    Allows-shown_if Harmless (not (is_empty (filtered s))) _ (λ _.
      Allows-pagination Harmless current (total_pages n) (has_next n current) (has_prev current)
        go_next go_prev go_to tt tt (λ k. tt))

processing-Harmless : (s : Screen) → Allows Harmless (Look.processing s)
unfolding Look.processing
processing-Harmless s = Allows-shown_if Harmless s.is_processing _ (λ _. (tt, (tt, tt)))

-- A dialog that is not open offers nothing.
form-Harmless :
    (number_text : Number → Text) (p : Page)
    → p.create_open ≡ false
    → p.edit_open ≡ false
    → Allows Harmless (form_modal number_text p)
unfolding form_modal
form-Harmless number_text p c e = rw (c, e) tt

delete-Harmless : (p : Page) → p.delete_open ≡ false → Allows Harmless (delete_modal p)
unfolding delete_modal
delete-Harmless p d = rw d tt

module _ (rules_text : Text → Text) (role : Text) (viewer : Look.can_manage role ≡ false) where
  for_managers : (v : View Event) → Allows Harmless (shown_if (Look.can_manage role) v)
  for_managers v = rw viewer tt

  rules-Harmless : (o : Option Text) → Allows Harmless (Look.rules rules_text role o)
  rules-Harmless none = tt
  rules-Harmless (some t) = (tt, tt)

  changing-Harmless : (q : Question) → Allows Harmless (Look.changing rules_text role q)
  unfolding Look.changing
  changing-Harmless q = for_managers _

  card-Harmless : (q : Question) (l : Label) → Allows Harmless (Look.card rules_text role q l)
  unfolding Look.card
  card-Harmless q l = Allows-stack Harmless (Look.card_parts rules_text role q l) (
    (tt, (tt, tt)),
    (
      Allows-shown_if Harmless (not (is_empty q.industry)) _ (λ _. (tt, tt)),
      (
        (tt, tt),
        (
          Allows-shown_if Harmless (not (is_empty q.qtype)) _ (λ _. (tt, tt)),
          (
            rules-Harmless q.model_answer,
            (
              pictures-Harmless 1 (length q.images) q.images,
              (
                Allows-shown_if Harmless (text_eq q.qtype (text "multiple_choice")) _
                    (λ _. options-Harmless q.options),
                (changing-Harmless q, tt),
              ),
            ),
          ),
        ),
      ),
    ),
  )

  cards-Harmless :
      (qs : List Question) (ls : List Label) → Allows Harmless (Look.cards rules_text role qs ls)
  cards-Harmless [] ls = tt
  cards-Harmless (q ∷ qs) [] = tt
  cards-Harmless (q ∷ qs) (l ∷ ls) =
      Allows-append Harmless (Look.card rules_text role q l) _ (card-Harmless q l)
        (cards-Harmless qs ls)

  nothing-Harmless : (s : Screen) → Allows Harmless (Look.nothing_found rules_text role s)
  unfolding Look.nothing_found
  nothing-Harmless s = (tt, (tt, for_managers _))

  listing-Harmless : (s : Screen) → Allows Harmless (Look.listing rules_text role s)
  unfolding Look.listing
  listing-Harmless s =
      let qs = page_items s.page.current_page (filtered s) in
      Allows-if Harmless (is_empty qs) _ _ (nothing-Harmless s) (cards-Harmless qs (labels qs))

  header-Harmless :
      (f : Look.Fetched) (e : Look.Exam) (s : Screen)
      → Allows Harmless (Look.header rules_text role f e s)
  unfolding Look.header
  header-Harmless f e s = ((λ _. tt), (tt, (tt, (tt, (tt, (tt, (tt, (tt, for_managers _))))))))

  module _ (number_text : Number → Text) (s : Screen) (u : IsUntouched s) where
    exam-Harmless :
        (f : Look.Fetched) (e : Option Look.Exam)
        → Allows Harmless (Look.view_exam rules_text role number_text f e s)
    exam-Harmless f none = (tt, tt)
    exam-Harmless f (some e) =
        Allows-stack Harmless (Look.parts rules_text role number_text f e s) (
          header-Harmless f e s,
          (
            processing-Harmless s,
            (
              searching-Harmless s,
              (
                listing-Harmless s,
                (
                  pages-Harmless s,
                  (
                    form-Harmless number_text s.page u.create_open u.edit_open,
                    (delete-Harmless s.page u.delete_open, tt),
                  ),
                ),
              ),
            ),
          ),
        )

    pub view-Harmless :
        (f : Look.Fetched) → Allows Harmless (Look.view rules_text role number_text f s)
    unfolding Look.view
    view-Harmless f =
        Allows-unless Harmless f.loading _
          (λ _. Allows-if Harmless (is_empty f.error) _ _ (exam-Harmless f f.exam) (tt, tt))
