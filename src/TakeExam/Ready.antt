-- ===== src/TakeExam/Ready.antt =====
-- When the page offers to start an exam that it has loaded.
use wazire.Base.{
  ℕ, ◌≡◌, ◌↔◌, refl, inr, true, false, not, ◌||◌, Option, none, some, List, [], ◌∷◌, is_empty,
  arith,
}
use wazire.Base.Text.{Text, text, text_eq_iff}
use wazire.Ui.Element.{said, Offers, Offers-append_right, shown_if}
use wazire.TakeExam.Answer.{Answer}
use wazire.TakeExam.Sheet.{Question}
use wazire.TakeExam.Entrance.{
  Exam, Submission, Door, start_exam, has_attempts, is_in_progress, facts, welcome, view, not_found,
  failure,
}
use wazire.TakeExam.Starting.{Fresh, MayStart, start_is_guarded}
use wazire.TakeExam.Loading.{Reply, ok, failed, Visit, load, reset_name, message}

-- The submission that the page knows after the reply to the request for it.
abbrev pub known : Reply (Option Submission) → Option Submission → Option Submission
known (ok (some s)) before = some s
known (ok none) before = before
known (failed m) before = none

-- The exam was fetched with a question, no attempt at it is known, and it is not being started.
abbrev pub IsReady : Reply (Option Exam × List Question) → Option Submission → Door → Type 0
IsReady (failed m) s d = ⊥
IsReady (ok (none, qs)) s d = ⊥
IsReady (ok (some e, qs)) s d = (is_empty qs ≡ false) × Fresh s × (d.starting ≡ false)

-- The page once an exam is loaded.
abbrev loaded : Option Exam → List Question → Option Submission → Door → Door
loaded e qs s d = record d {
  loading = false;
  error = none;
  exam = e;
  course_name = reset_name e d.course_name;
  questions = qs;
  existing = s;
  checking = false;
}

has_attempts-Fresh : (s : Option Submission) → Fresh s → has_attempts s ≡ false
has_attempts-Fresh none h = refl
has_attempts-Fresh (some s) h = ground arith

is_in_progress-Fresh : (s : Option Submission) → Fresh s → is_in_progress s ≡ false
is_in_progress-Fresh none h = refl
is_in_progress-Fresh (some s) h = ground (arith, text_eq_iff s.status (text "in_progress"))

module _ (time_text : ℕ → Text) (at : ℕ) where
  facts-Offers :
      (e : Exam) (d : Door)
      → not (is_empty d.questions || (d.starting || d.checking)) ≡ true
      → Offers start_exam (facts time_text at e d)
  unfolding facts
  facts-Offers e d on = ground arith

  welcome-Offers :
      (e : Exam) (d : Door)
      → not (is_empty d.questions || (d.starting || d.checking)) ≡ true
      → Offers start_exam (welcome time_text at e d)
  unfolding welcome
  welcome-Offers e d on = inr (
      inr (
        inr (
          Offers-append_right start_exam
            (shown_if (not (is_empty e.description)) (said e.description ∷ [])) _
            (facts-Offers e d on))))

  view_ready :
      (e : Exam) (d : Door)
      → d.loading ≡ false
      → d.exam ≡ some e
      → MayStart time_text at d
      → view time_text at d ≡ welcome time_text at e d
  unfolding view
  view_ready e d idle there (questions, none_open, waits, asks, fine) = rw (
    idle,
    fine,
    there,
    has_attempts-Fresh d.existing none_open,
    is_in_progress-Fresh d.existing none_open,
    asks,
    questions,
  )

  view-Offers :
      (e : Exam) (d : Door)
      → d.loading ≡ false
      → d.exam ≡ some e
      → MayStart time_text at d
      → Offers start_exam (view time_text at d)
  view-Offers e d idle there may =
      rw (view_ready e d idle there may) (welcome-Offers e d (ground arith))

module _ (submission : Reply (Option Submission)) (saved : Reply (List (Text × Answer))) (now : ℕ)
    (v : Visit) (has_id : is_empty v.door.id ≡ false) where
  door-load :
      (e : Option Exam) (qs : List Question)
      → (load (ok (e, qs)) submission saved now v).door
        ≡ loaded e qs (known submission v.door.existing) v.door
  unfolding load
  door-load e qs = ground arith

  door_not_loaded :
      (m : Option Text)
      → (load (failed m) submission saved now v).door
        ≡ record v.door { loading = false; error = some (message m); checking = false }
  unfolding load
  door_not_loaded m = ground arith

  module _ (time_text : ℕ → Text) (at : ℕ) where
    ready :
        (fetched : Reply (Option Exam × List Question))
        → Offers start_exam (view time_text at (load fetched submission saved now v).door)
        → IsReady fetched (known submission v.door.existing) v.door
    unfolding view not_found failure
    ready (failed m) o = let o' = rw (door_not_loaded m) at o in ground arith
    ready (ok (none, qs)) o = let o' = rw (door-load none qs) at o in ground arith
    ready (ok (some e, qs)) o =
        let d = loaded (some e) qs (known submission v.door.existing) v.door in
        let may = start_is_guarded time_text at d (rw (door-load (some e) qs) at o) in
        (may.0, may.1, may.2)

    offered :
        (fetched : Reply (Option Exam × List Question))
        → IsReady fetched (known submission v.door.existing) v.door
        → Offers start_exam (view time_text at (load fetched submission saved now v).door)
    offered (failed m) h = absurd h
    offered (ok (none, qs)) h = absurd h
    offered (ok (some e, qs)) (questions, none_open, waits) =
        rw (door-load (some e) qs)
          (view-Offers time_text at e _ refl refl (questions, none_open, waits, refl, refl))

    -- However the server answers the three requests of a page with an identifier, the page then offers to
    -- start the exam exactly if the exam and its questions were fetched, there is a question, the page
    -- does not start the exam already, and of the student's submission it knows none, or one without an
    -- attempt that is not in progress. It knows the one that was fetched; if the server has none, it
    -- knows what it did before, and if the request failed, none.
    pub start_offered_iff :
        (fetched : Reply (Option Exam × List Question))
        → Offers start_exam (view time_text at (load fetched submission saved now v).door)
          ↔ IsReady fetched (known submission v.door.existing) v.door
    start_offered_iff fetched = (ready fetched, offered fetched)
