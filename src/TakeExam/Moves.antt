-- ===== src/TakeExam/Moves.antt =====
-- Where a student can get among the questions of an exam.
use wazire.Base.{
  ℕ, zero, suc, ◌+◌, ◌<◌, ◌≡◌, refl, ap, ◌∙◌, subst, Bool, true, false, not, Option, none, some,
  List, [], ◌∷◌, length, arith, ◌==◌, ltb, if◌then◌else◌, Bool-cases, inl, inr,
}
use wazire.Base.Text.{Text, text}
use wazire.Base.Number.{Number}
use wazire.Base.Dict.{Dict}
use wazire.Ui.Element.{
  said, button, Offers, Allows, Allows-Offers, Allows-append, Allows-shown_if, Allows-stack,
}
use wazire.Ui.Parts.{Allows-modal}
use wazire.TakeExam.Answer.{AnswerValue}
use wazire.TakeExam.Sheet
use wazire.TakeExam.Sheet.{
  Question, Choice, Sheet, before, after, is_last, is_last_of, is_answered, first_unanswered,
  jump_to,
}
use wazire.TakeExam.Screen
use wazire.TakeExam.Screen.{
  Event, previous, next, jump, clear, open_submit, close_submit, submit, go_to, answer, navigation,
}

unfoldable pub step : (Number → Text) → Event → Sheet → Sheet
unfolding Sheet.previous Sheet.next Sheet.jump Sheet.clear Sheet.open_submit Sheet.close_submit
    Sheet.submit Sheet.go_to Sheet.answer
step number_text previous s = Sheet.previous s
step number_text next s = Sheet.next s
step number_text jump s = Sheet.jump s
step number_text clear s = Sheet.clear number_text s
step number_text open_submit s = Sheet.open_submit s
step number_text close_submit s = Sheet.close_submit s
step number_text submit s = Sheet.submit s
step number_text (go_to i) s = Sheet.go_to i s
step number_text (answer q v) s = Sheet.answer number_text q v s

abbrev pub IsInRange : ℕ → Option ℕ → Type 0
IsInRange n none = ⊥
IsInRange n (some i) = i < n

first_unanswered-lt :
    (answers : Dict AnswerValue) (k : ℕ) (qs : List Question) (i : ℕ)
    → first_unanswered answers k qs ≡ some i
    → i < k + length qs
unfolding first_unanswered
first_unanswered-lt answers k [] i h = absurd (cc)
first_unanswered-lt answers k (q ∷ qs) i h = elim (Bool-cases (is_answered answers q.id)) [
  | inl e ↦ let later = first_unanswered-lt answers (suc k) qs i (rw e at h) in omega (arith, later)
  | inr e ↦ let at_once : some k ≡ some i = rw e at h in ground (arith, at_once)
]

module _ (percent : ℕ → ℕ → Text) (value_text : Option AnswerValue → Text) (s : Sheet) where
  abbrev InRange : Event → Type 0
  InRange (go_to i) = i < length s.questions
  InRange e = Unit {0}

  numbers-InRange :
      (k : ℕ) (qs : List Question)
      → k + length qs ≡ length s.questions
      → Allows InRange (Screen.number_buttons k qs)
  numbers-InRange k [] h = tt
  numbers-InRange k (q ∷ qs) h =
      ((λ _. omega (arith, h)), numbers-InRange (suc k) qs (omega (arith, h)))

  options-InRange :
      (id : Text) (k : ℕ) (cs : List Choice) → Allows InRange (Screen.option_buttons id k cs)
  options-InRange id k [] = tt
  options-InRange id k (c ∷ cs) = ((λ _. tt), options-InRange id (suc k) cs)

  field-InRange :
      (id value : Text) (options : Option (List Choice))
      → Allows InRange (Screen.answer_field id value options)
  field-InRange id value none = (tt, ((λ _ t. tt), tt))
  field-InRange id value (some cs) = options-InRange id 0 cs

  header-InRange : Allows InRange (Screen.exam_header s)
  unfolding Screen.exam_header
  header-InRange = (tt, (tt, (tt, (tt, (tt, (tt, tt))))))

  question-InRange : Allows InRange (Screen.question_header s)
  unfolding Screen.question_header
  question-InRange = (tt, (tt, (tt, (tt, tt))))

  body-InRange : Allows InRange (Screen.question_body percent value_text s)
  unfolding Screen.question_body
  body-InRange = field-InRange _ _ _

  last-InRange :
      (b : Bool)
      → Allows InRange (
          (if b
            then button (text "Submit Exam") true open_submit
            else button (text "Next") true next)
          ∷ [])
  last-InRange true = ((λ _. tt), tt)
  last-InRange false = ((λ _. tt), tt)

  navigation-InRange : Allows InRange (navigation s)
  unfolding navigation
  navigation-InRange = ((λ _. tt), last-InRange (is_last s))

  summary-InRange : Allows InRange (Screen.summary percent value_text s)
  unfolding Screen.summary
  summary-InRange = (tt, (tt, (tt, (tt, (tt, (tt, (tt, ((λ _. tt), ((λ _. tt), tt)))))))))

  warning-InRange : Allows InRange (Screen.warning percent value_text s)
  unfolding Screen.warning
  warning-InRange =
      Allows-shown_if InRange (ltb (Sheet.answered_count s) (length s.questions)) (said _ ∷ [])
        (λ _. (tt, tt))

  dialog-InRange : Allows InRange (Screen.submit_dialog percent value_text s)
  unfolding Screen.submit_dialog Screen.dialog_buttons
  dialog-InRange = Allows-modal InRange s.modal_open close_submit (text "Submit Exam") _ tt (λ _. (
    tt,
    (
      tt,
      Allows-append InRange (Screen.warning percent value_text s) _ warning-InRange
          ((λ _. tt), ((λ _. tt), tt)),
    ),
  ))

  pub view-InRange : Allows InRange (Screen.view percent value_text s)
  unfolding Screen.view Screen.navigator
  view-InRange = Allows-stack InRange (Screen.parts percent value_text s) (
    header-InRange,
    (
      question-InRange,
      (
        body-InRange,
        (
          navigation-InRange,
          (
            (tt, numbers-InRange 0 s.questions (omega arith)),
            (summary-InRange, (dialog-InRange, tt)),
          ),
        ),
      ),
    ),
  )

-- The sheets that can follow on a sheet, whatever the student does of what the page offers.
pub data Follows (number_text : Number → Text) (percent : ℕ → ℕ → Text)
    (value_text : Option AnswerValue → Text) (s : Sheet) : Sheet → Type 0 where
  here : Follows number_text percent value_text s s
  acted :
      {t : Sheet}
      → Follows number_text percent value_text s t
      → (e : Event) → Offers e (Screen.view percent value_text t)
      → Follows number_text percent value_text s (step number_text e t)

questions-jump_to : (o : Option ℕ) (s : Sheet) → (jump_to o s).questions ≡ s.questions
questions-jump_to none s = refl
questions-jump_to (some i) s = refl

questions-step :
    (number_text : Number → Text) (e : Event) (s : Sheet)
    → (step number_text e s).questions ≡ s.questions
unfolding step Sheet.previous Sheet.next Sheet.jump Sheet.clear Sheet.open_submit Sheet.close_submit
    Sheet.submit Sheet.go_to Sheet.answer
questions-step number_text jump s =
    questions-jump_to (first_unanswered s.page.answers 0 s.questions) s
questions-step number_text previous s = refl
questions-step number_text e s = refl

before-IsInRange : (n : ℕ) (o : Option ℕ) → IsInRange n o → IsInRange n (before o)
before-IsInRange n none h = absurd h
before-IsInRange n (some i) h = omega arith

after-IsInRange : (n : ℕ) (o : Option ℕ) → IsInRange n o → IsInRange n (after n o)
after-IsInRange zero (some i) h = absurd (omega arith)
after-IsInRange zero none h = h
after-IsInRange (suc n) none h = absurd h
after-IsInRange (suc n) (some i) h = omega arith

jump-IsInRange :
    (n : ℕ) (o : Option ℕ) (s : Sheet)
    → ((i : ℕ) → o ≡ some i → i < n)
    → IsInRange n s.current
    → IsInRange n (jump_to o s).current
jump-IsInRange n none s f h = h
jump-IsInRange n (some i) s f h = f i refl

module _ (number_text : Number → Text) (percent : ℕ → ℕ → Text)
    (value_text : Option AnswerValue → Text) where
  step-IsInRange :
      (e : Event) (s : Sheet)
      → InRange percent value_text s e
      → IsInRange (length s.questions) s.current
      → IsInRange (length s.questions) (step number_text e s).current
  unfolding step Sheet.previous Sheet.next Sheet.jump Sheet.clear Sheet.open_submit
      Sheet.close_submit Sheet.submit Sheet.go_to Sheet.answer
  step-IsInRange jump s a h =
      jump-IsInRange (length s.questions) (first_unanswered s.page.answers 0 s.questions) s
        (λ i e. omega (arith, first_unanswered-lt s.page.answers 0 s.questions i e)) h
  step-IsInRange previous s a h = before-IsInRange (length s.questions) s.current h
  step-IsInRange next s a h = after-IsInRange (length s.questions) s.current h
  step-IsInRange (go_to i) s a h = a
  step-IsInRange e s a h = h

  -- Whatever the student does of what the page offers, from a page that shows one of the questions:
  -- the questions stay the same, and the page always shows one of them.
  pub shown_question_exists :
      (s t : Sheet)
      → IsInRange (length s.questions) s.current
      → Follows number_text percent value_text s t
      → (t.questions ≡ s.questions) × IsInRange (length s.questions) t.current
  shown_question_exists s t h here = (refl, h)
  shown_question_exists s t h (acted {t = u} f e o) =
      let (same, there) = shown_question_exists s u h f in
      let inside : IsInRange (length u.questions) u.current = rw same there in
      let allowed =
        Allows-Offers (InRange percent value_text u) e (Screen.view percent value_text u)
          (view-InRange percent value_text u) o in
      (
        questions-step number_text e u ∙ same,
        subst (λ qs. IsInRange (length qs) (step number_text e u).current) same
            (step-IsInRange e u allowed inside),
      )

-- So many clicks on Next.
pub next_times : ℕ → Sheet → Sheet
next_times zero s = s
next_times (suc k) s = Sheet.next (next_times k s)

is_last_of-some : (n i : ℕ) → i < n → is_last_of n (some i) ≡ (suc i == n)
is_last_of-some zero i h = absurd (omega arith)
is_last_of-some (suc n) i h = ground arith

after-some : (n i : ℕ) → suc i < n → after n (some i) ≡ some (suc i)
after-some zero i h = absurd (omega arith)
after-some (suc n) i h = ap some (omega arith)

next_times-some :
    (k i : ℕ) (s : Sheet)
    → s.current ≡ some i
    → i + k < length s.questions
    → ((next_times k s).current ≡ some (i + k)) × ((next_times k s).questions ≡ s.questions)
unfolding next_times Sheet.next
next_times-some zero i s e h = (e ∙ ap some (omega arith), refl)
next_times-some (suc k) i s e h =
    let (at, same) = next_times-some k i s e (omega arith) in
    (rw (same, at) (after-some _ _ (omega arith) ∙ ap some (omega arith)), same)

-- From the question in place i, k clicks on Next lead to the one in place i + k, if there is one; and
-- the page offers the submission in place of Next exactly when that is the last question.
pub next_leads_to_submit :
    (k i : ℕ) (s : Sheet)
    → s.current ≡ some i
    → i + k < length s.questions
    → let t = next_times k s in
      (t.current ≡ some (i + k))
      × (navigation t
          ≡ button (text "Previous") (not (i + k == 0)) previous
            ∷ (if suc (i + k) == length s.questions
                then button (text "Submit Exam") true open_submit
                else button (text "Next") true next)
            ∷ [])
unfolding navigation is_last
next_leads_to_submit k i s e h =
    let (at, same) = next_times-some k i s e h in
    (at, rw (at, same, is_last_of-some (length s.questions) (i + k) h) refl)
