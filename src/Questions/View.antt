-- ===== src/Questions/View.antt =====
-- What the page lists of an exam's questions: `filteredQuestions`, `marksStats` and the labels that
-- `renderQuestionsList` counts.
use wazire.Base.{
  ℕ, suc, ◌+◌, ◌-◌, ◌≤◌, ◌≡◌, refl, ap, Bool, true, not, ◌⊎◌, All, ◌&&◌, ◌||◌, List, [], ◌∷◌, arith,
  length, is_empty, if◌then◌else◌, Bool-cases, inl, inr,
}
use wazire.Base.Text.{Text, text, text_eq, includes, to_lower}
use wazire.Questions.Form.{Question}
use wazire.Paging.Window.{count_from}

abbrev pub is_objective : Question → Bool
is_objective q = text_eq q.qtype (text "multiple_choice") || text_eq q.qtype (text "fill_in_blanks")

unfoldable pub matches_type : Text → Question → Bool
matches_type qtype_filter q =
    text_eq qtype_filter (text "all")
    || (text_eq qtype_filter (text "objective") && is_objective q)
    || (text_eq qtype_filter (text "theory") && text_eq q.qtype (text "theory"))
    || text_eq q.qtype qtype_filter

unfoldable pub matches_search : Text → Question → Bool
unfolding includes to_lower
matches_search search_query q =
    is_empty search_query
    || includes (to_lower q.question_text) (to_lower search_query)
    || includes q.number search_query

unfoldable pub filter_questions : Text → Text → List Question → List Question
unfolding matches_type matches_search
filter_questions qtype_filter search_query [] = []
filter_questions qtype_filter search_query (q ∷ qs) =
    let rest = filter_questions qtype_filter search_query qs in
    if matches_type qtype_filter q && matches_search search_query q then q ∷ rest else rest

-- `currentMarks`.
unfoldable pub current_marks : List Question → ℕ
current_marks [] = 0
current_marks (q ∷ qs) = q.mark + current_marks qs

-- `OBJ1`, `THE1` and so on.
pub data Label : Type 0 where
  obj the : ℕ → Label

-- The labels of the questions, from two counters on.
unfoldable pub label_from : ℕ → ℕ → List Question → List Label
label_from obj_counter theory_counter [] = []
label_from obj_counter theory_counter (q ∷ qs) =
    let objective = is_objective q in
    (if objective then obj obj_counter else the theory_counter)
    ∷ label_from (if objective then suc obj_counter else obj_counter)
        (if objective then theory_counter else suc theory_counter) qs

unfoldable pub labels : List Question → List Label
unfolding label_from
labels questions = label_from 1 1 questions

unfoldable pub count_objective : List Question → ℕ
count_objective [] = 0
count_objective (q ∷ qs) = if is_objective q then suc (count_objective qs) else count_objective qs

unfoldable pub obj_numbers : List Label → List ℕ
obj_numbers [] = []
obj_numbers (obj n ∷ ls) = n ∷ obj_numbers ls
obj_numbers (the n ∷ ls) = obj_numbers ls

unfoldable pub the_numbers : List Label → List ℕ
the_numbers [] = []
the_numbers (obj n ∷ ls) = the_numbers ls
the_numbers (the n ∷ ls) = n ∷ the_numbers ls

count_objective_le : (qs : List Question) → count_objective qs ≤ length qs
unfolding count_objective
count_objective_le [] = omega arith
count_objective_le (q ∷ qs) = ground (arith, count_objective_le qs)

label_from_lem :
    (o t : ℕ) (qs : List Question)
    → (obj_numbers (label_from o t qs) ≡ count_from o (count_objective qs))
      × (the_numbers (label_from o t qs) ≡ count_from t (length qs - count_objective qs))
unfolding label_from count_objective obj_numbers the_numbers count_from
label_from_lem o t [] = (refl, refl)
label_from_lem o t (q ∷ qs) = elim (Bool-cases (is_objective q)) [
  | inl e ↦
      let (ih_o, ih_t) = label_from_lem (suc o) t qs in
      rw (e, ih_o, ih_t) (refl, ap (count_from t) (omega arith))
  | inr e ↦
      let (ih_o, ih_t) = label_from_lem o (suc t) qs in
      rw (e, ih_o, ih_t)
        (
          refl,
          ap (count_from t) {x = suc (length qs - count_objective qs)}
              (omega (arith, count_objective_le qs)),
        )
]

-- The types that the page gives to questions.
abbrev pub HasType : Question → Type 0
HasType q =
    (q.qtype ≡ text "multiple_choice")
    ⊎ (q.qtype ≡ text "fill_in_blanks")
    ⊎ (q.qtype ≡ text "theory")

matches_either :
    (q : Question)
    → HasType q
    → (matches_type (text "objective") q ≡ not (matches_type (text "theory") q))
      × (matches_type (text "all") q ≡ true)
unfolding matches_type text text_eq
matches_either q (inl e) = rw e (refl, refl)
matches_either q (inr (inl e)) = rw e (refl, refl)
matches_either q (inr (inr e)) = rw e (refl, refl)

filters_split :
    (search_query : Text) (questions : List Question)
    → All HasType questions
    → length (filter_questions (text "objective") search_query questions)
        + length (filter_questions (text "theory") search_query questions)
      ≡ length (filter_questions (text "all") search_query questions)
unfolding filter_questions
filters_split s [] h = omega arith
filters_split s (q ∷ qs) (h, hs) =
    let (either, every) = matches_either q h in ground (arith, filters_split s qs hs)

-- For questions of the page's types and any search, the filters for objective and for theory
-- questions together list as many as the filter for all. The labels of a list of questions count
-- the objective ones as OBJ1, OBJ2 and so on, and all others as THE1, THE2 and so on, with no number
-- left out.
pub listed_questions :
    (search_query : Text) (questions : List Question)
    → All HasType questions
    → (length (filter_questions (text "objective") search_query questions)
          + length (filter_questions (text "theory") search_query questions)
        ≡ length (filter_questions (text "all") search_query questions))
      × (obj_numbers (labels questions) ≡ count_from 1 (count_objective questions))
      × (the_numbers (labels questions)
          ≡ count_from 1 (length questions - count_objective questions))
unfolding labels
listed_questions s questions h =
    let (objective, theory) = label_from_lem 1 1 questions in
    (filters_split s questions h, objective, theory)
