-- ===== src/Questions/Rights.antt =====
-- Who can change questions.
use wazire.Base.{◌≡◌, ◌⊎◌, refl, false, Option, none, some, List, [], ◌∷◌, arith}
use wazire.Base.Text.{Text}
use wazire.Base.Number.{Number}
use wazire.Ui.Element.{File, Offers, Allows-Offers}
use wazire.Questions.Form.{Question}
use wazire.Questions.Page.{Page, Request, delete_question, Reply, questions_fetched, reply}
use wazire.Questions.Life.Event.{replied, delete_replied, fetched}
use wazire.Questions.Uploads.{Read, Upload}
use wazire.Questions.Screen.{
  Screen, Event, on_page, search_for, choose_filter, go_next, go_prev, go_to, start_screen, step,
  document_replied,
}
use wazire.Questions.Viewers.{Harmless, IsUntouched, view-Harmless}
use wazire.Questions.Look

-- A request is among those sent.
abbrev pub Sent : Request → List Request → Type 0
Sent r [] = ⊥
Sent r (x ∷ xs) = (x ≡ r) ⊎ Sent r xs

module _ (number_text : Number → Text) (rules_text : Text → Text) (exam_id : Option Text)
    (compress : File → Read Text) (convert : File → Read (List Text)) (role : Text) where
  -- What can come to be of the page: by what it offers, by the questions that the query gives, and by
  -- the replies to requests that were sent.
  pub data Reached : Screen → Type 0 where
    opened : Reached start_screen
    acted :
        {s : Screen}
        → Reached s
        → (f : Look.Fetched) (e : Event) → Offers e (Look.view rules_text role number_text f s)
        → Reached (step number_text exam_id compress convert e s)
    questions_given :
        {s : Screen}
        → Reached s
        → (qs : List Question)
        → Reached (step number_text exam_id compress convert (on_page (fetched qs)) s)
    form_replied :
        {s : Screen}
        → Reached s
        → (r : Reply) → Reached (step number_text exam_id compress convert (on_page (replied r)) s)
    deletion_replied :
        {s : Screen}
        → Reached s
        → (r : Reply) (id : Text) → Sent (delete_question id) s.page.requests
        → Reached (step number_text exam_id compress convert (on_page (delete_replied r)) s)
    upload_replied :
        {s : Screen}
        → Reached s
        → (r : Reply) (u : Upload) → s.upload ≡ some u
        → Reached (document_replied r s)

module _ (number_text : Number → Text) (rules_text : Text → Text) (exam_id : Option Text)
    (compress : File → Read Text) (convert : File → Read (List Text)) (role : Text) where
  start-IsUntouched : IsUntouched start_screen
  unfolding start_screen
  start-IsUntouched = record {
    requests = refl;
    upload = refl;
    waiting = refl;
    create_open = refl;
    edit_open = refl;
    delete_open = refl;
  }

  step-IsUntouched :
      (e : Event) (s : Screen)
      → Harmless e
      → IsUntouched s
      → IsUntouched (step number_text exam_id compress convert e s)
  unfolding step
  step-IsUntouched (search_for t) s h u = ground arith
  step-IsUntouched (choose_filter t) s h u = ground arith
  step-IsUntouched go_next s h u = ground arith
  step-IsUntouched go_prev s h u = ground arith
  step-IsUntouched (go_to n) s h u = ground arith
  step-IsUntouched Event.leave s h u = u
  step-IsUntouched (on_page e) s h u = absurd h
  step-IsUntouched (Event.image_picked f) s h u = absurd h
  step-IsUntouched (Event.document_picked f) s h u = absurd h

  given-IsUntouched :
      (qs : List Question) (s : Screen)
      → IsUntouched s
      → IsUntouched (step number_text exam_id compress convert (on_page (fetched qs)) s)
  unfolding step questions_fetched
  given-IsUntouched qs s u = ground arith

  idle_reply : (r : Reply) (p : Page) → p.waiting ≡ none → reply r p ≡ p
  unfolding reply
  idle_reply r p e = rw e refl

  replied-IsUntouched :
      (r : Reply) (s : Screen)
      → IsUntouched s
      → IsUntouched (step number_text exam_id compress convert (on_page (replied r)) s)
  unfolding step
  replied-IsUntouched r s u = rw (idle_reply r s.page u.waiting) u

  not-Sent : (r : Request) (rs : List Request) → rs ≡ [] → ¬ Sent r rs
  not-Sent r [] e x = x
  not-Sent r (q ∷ rs) e x = cc

  module _ (viewer : Look.can_manage role ≡ false) where
    reached-IsUntouched :
        {s : Screen}
        → Reached number_text rules_text exam_id compress convert role s
        → IsUntouched s
    reached-IsUntouched opened = start-IsUntouched
    reached-IsUntouched (acted {s} r f e o) =
        let u = reached-IsUntouched r in
        step-IsUntouched e s
          (Allows-Offers Harmless e _ (view-Harmless rules_text role viewer number_text s u f) o) u
    reached-IsUntouched (questions_given {s} r qs) = given-IsUntouched qs s (reached-IsUntouched r)
    reached-IsUntouched (form_replied {s} r x) = replied-IsUntouched x s (reached-IsUntouched r)
    reached-IsUntouched (deletion_replied {s} r x id sent) =
        absurd (not-Sent _ s.page.requests (reached-IsUntouched r).requests sent)
    reached-IsUntouched (upload_replied {s} r x t sent) =
        let u = reached-IsUntouched r in absurd (ground arith)

    -- Whatever a user who is neither a lecturer nor an admin does of what the page offers, whatever
    -- questions it fetches, and whatever the server replies: the page sends no request, also not a
    -- document, it waits for no reply, and none of its dialogs is open.
    pub viewers_change_nothing :
        (s : Screen)
        → Reached number_text rules_text exam_id compress convert role s
        → IsUntouched s
    viewers_change_nothing s r = reached-IsUntouched r
