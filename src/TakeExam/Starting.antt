-- ===== src/TakeExam/Starting.antt =====
-- When an exam can be started.
use wazire.Base.{
  ℕ, ◌≡◌, ◌≢◌, refl, true, false, not, ◌&&◌, ◌||◌, Option, none, some, [], ◌∷◌, is_empty, arith,
}
use wazire.Base.Text.{Text, text, text_eq_iff}
use wazire.Ui.Element.{
  said, Offers, Allows, Allows-Offers, Allows-append, Allows-shown_if, Allows-unless, Allows-test,
  shown_if,
}
use wazire.TakeExam.Entrance.{
  Exam, Submission, Door, Event, visit, start_exam, has_attempts, is_in_progress, welcome,
  submitted, in_progress, facts, no_questions, failure, not_found, view_exam, view_unless, view,
  handle_start_exam, started, start_failed,
}

-- No attempt was submitted, and none is in progress.
abbrev pub Fresh : Option Submission → Type 0
Fresh none = Unit {0}
Fresh (some s) = (s.attempts ≡ 0) × (s.status ≢ text "in_progress")

fresh : (o : Option Submission) → has_attempts o ≡ false → is_in_progress o ≡ false → Fresh o
fresh none a b = tt
fresh (some s) a b =
    (ground arith, (λ e. ground (arith, b, text_eq_iff s.status (text "in_progress"), e)))

module _ (time_text : ℕ → Text) (now : ℕ) (d : Door) where
  abbrev pub MayStart : Type 0
  MayStart =
      (is_empty d.questions ≡ false)
      × Fresh d.existing
      × (d.starting ≡ false)
      × (d.checking ≡ false)
      × (d.error ≡ none)

  abbrev Starts : Event → Type 0
  Starts (visit path) = Unit {0}
  Starts start_exam = MayStart

  module _ (e : Exam) (no_error : d.error ≡ none) where
    start-Starts :
        has_attempts d.existing ≡ false
        → is_in_progress d.existing ≡ false
        → not (is_empty d.questions || (d.starting || d.checking)) ≡ true
        → MayStart
    start-Starts a b on = (ground arith, fresh d.existing a b, ground arith, ground arith, no_error)

    facts-Starts :
        has_attempts d.existing ≡ false
        → is_in_progress d.existing ≡ false
        → Allows Starts (facts time_text now e d)
    unfolding facts
    facts-Starts a b = (
      tt,
      (
        tt,
        (
          tt,
          (
            tt,
            (
              tt,
              (
                tt,
                (
                  tt,
                  (
                    tt,
                    (tt, (tt, (tt, (tt, (tt, ((λ _. tt), ((λ on. start-Starts a b on), tt))))))),
                  ),
                ),
              ),
            ),
          ),
        ),
      ),
    )

    welcome-Starts :
        has_attempts d.existing ≡ false
        → is_in_progress d.existing ≡ false
        → Allows Starts (welcome time_text now e d)
    unfolding welcome
    welcome-Starts a b = (
      (λ _. tt),
      (
        tt,
        (
          tt,
          Allows-append Starts (shown_if (not (is_empty e.description)) (said e.description ∷ [])) _
              (Allows-shown_if Starts (not (is_empty e.description)) (said e.description ∷ [])
                (λ _. (tt, tt)))
              (facts-Starts a b),
        ),
      ),
    )

    exam-Starts : Allows Starts (view_exam time_text now e d)
    unfolding submitted in_progress no_questions
    exam-Starts =
        Allows-test Starts (has_attempts d.existing) submitted _
          (tt, (tt, ((λ _. tt), ((λ _. tt), tt))))
          (λ a.
            Allows-test Starts (is_in_progress d.existing) (in_progress d.id) _
              (tt, (tt, ((λ _. tt), ((λ _. tt), tt))))
              (λ b.
                Allows-test Starts (not d.checking && is_empty d.questions) no_questions
                  (welcome time_text now e d) (tt, (tt, ((λ _. tt), tt)))
                  (λ _. welcome-Starts a b)))

  unless-Starts :
      (error : Option Text) (exam : Option Exam)
      → d.error ≡ error
      → Allows Starts (view_unless time_text now error exam d)
  unfolding failure not_found
  unless-Starts (some m) exam h = (tt, (tt, ((λ _. tt), tt)))
  unless-Starts none none h = (tt, (tt, ((λ _. tt), tt)))
  unless-Starts none (some e) h = exam-Starts e h

  -- The page offers to start the exam only where no error is shown, the exam has questions, no attempt
  -- was submitted, none is in progress, and the page neither starts it already nor still asks for a
  -- submission.
  pub start_is_guarded : Offers start_exam (view time_text now d) → MayStart
  unfolding view
  start_is_guarded o =
      Allows-Offers Starts start_exam (view time_text now d)
        (Allows-unless Starts d.loading (view_unless time_text now d.error d.exam d)
          (λ _. unless-Starts d.error d.exam refl))
        o

-- Once the exam is started, the page does not offer to start it again: not while the server is asked,
-- not when it has answered with a submission in progress, and not when it has failed.
pub starts_once :
    (time_text : ℕ → Text) (now : ℕ) (d : Door) (s : Submission)
    → is_empty d.id ≡ false
    → s.status ≡ text "in_progress"
    → let asked = handle_start_exam d in
      (¬ Offers start_exam (view time_text now asked))
      × (¬ Offers start_exam (view time_text now (started s asked)))
      × (¬ Offers start_exam (view time_text now (start_failed asked)))
unfolding handle_start_exam started start_failed
starts_once time_text now d s has_id h =
    let asked = handle_start_exam d in
    let is_starting : asked.starting ≡ true = rw has_id refl in
    (
      (λ o.
          let (questions, none_open, idle, known, fine) = start_is_guarded time_text now asked o in
          absurd (cc)),
      (λ o.
          let (questions, none_open, idle, known, fine) =
            start_is_guarded time_text now (started s asked) o in
          none_open.1 h),
      (λ o.
          let (questions, none_open, idle, known, fine) =
            start_is_guarded time_text now (start_failed asked) o in
          absurd (cc)),
    )
