-- ===== src/ListPages/Stuck.antt =====
-- What follows on an exam with too few hours.
use wazire.Base.{ℕ, ◌≡◌, refl, Bool, true, false, List, [], ◌∷◌, if◌then◌else◌, arith}
use wazire.Base.Parse.{parse_int}
use wazire.ListPages.Exams.{
  Page, ExamForm, Reply, Request, handle_create_exam, exam_created, handle_create_form_change,
  open_create, close_create, can_submit, is_too_short, handle_search, handle_page_change,
}

-- What the user does in the dialog for a new exam and around it, and the reply to a creation. The
-- button that sends is off where `can_submit` is false.
pub data Event : Type 0 where
  changed : (ExamForm → ExamForm) → Event
  submitted opened closed searched : Event
  turned : ℕ → Event
  replied : Reply → Event

unfoldable pub step : Event → Page → Page
unfolding can_submit handle_create_exam exam_created handle_create_form_change open_create
    close_create handle_search handle_page_change
step (changed change) p = handle_create_form_change change p
step submitted p = if can_submit p then handle_create_exam p else p
step opened p = open_create p
step closed p = close_create p
step searched p = handle_search p
step (turned n) p = handle_page_change n p
step (replied r) p = if p.creating then exam_created r p else p

unfoldable pub run : List Event → Page → Page
run [] p = p
run (e ∷ es) p = run es (step e p)

abbrev Stuck : List Request → Page → Type 0
Stuck rs p = (p.create_loading ≡ true) × (p.creating ≡ false) × (p.requests ≡ rs)

can_submit-loading : (p : Page) → p.create_loading ≡ true → can_submit p ≡ false
unfolding can_submit
can_submit-loading p l = ground arith

short_creation :
    (p : Page)
    → p.creating ≡ false
    → is_too_short (parse_int p.form.duration_hours) ≡ true
    → Stuck p.requests (handle_create_exam p)
unfolding handle_create_exam
short_creation p idle short = rw short (refl, idle, refl)

ignored-Stuck :
    (rs : List Request) (b : Bool) (p q : Page)
    → b ≡ false
    → Stuck rs q
    → Stuck rs (if b then p else q)
ignored-Stuck rs true p q e h = absurd (cc)
ignored-Stuck rs false p q e h = h

step-Stuck : (rs : List Request) (e : Event) (p : Page) → Stuck rs p → Stuck rs (step e p)
unfolding step handle_create_form_change open_create close_create handle_search handle_page_change
step-Stuck rs (changed change) p h = h
step-Stuck rs submitted p (l, c, r) = rw (can_submit-loading p l) (l, c, r)
step-Stuck rs opened p h = h
step-Stuck rs closed p h = h
step-Stuck rs searched p h = h
step-Stuck rs (turned n) p h = h
step-Stuck rs (replied x) p h = ignored-Stuck rs p.creating (exam_created x p) p h.1 h

run-Stuck : (rs : List Request) (es : List Event) (p : Page) → Stuck rs p → Stuck rs (run es p)
unfolding run
run-Stuck rs [] p h = h
run-Stuck rs (e ∷ es) p h = run-Stuck rs es (step e p) (step-Stuck rs e p h)

-- When the dialog for a new exam is sent with hours that are no number or less than one, then it
-- loads for ever: nothing was sent, and whatever is changed, closed, opened, searched or answered
-- afterwards, the form still loads, its button stays off and no exam is sent.
pub short_exam_sticks :
    (es : List Event) (p : Page)
    → p.creating ≡ false
    → can_submit p ≡ true
    → is_too_short (parse_int p.form.duration_hours) ≡ true
    → let q = run es (step submitted p) in
      (q.create_loading ≡ true) × (can_submit q ≡ false) × (q.requests ≡ p.requests)
unfolding step
short_exam_sticks es p idle on short =
    let stuck : Stuck p.requests (step submitted p) = rw on (short_creation p idle short) in
    let (l, c, r) = run-Stuck p.requests es (step submitted p) stuck in
    (l, can_submit-loading (run es (step submitted p)) l, r)
