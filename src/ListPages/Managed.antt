-- ===== src/ListPages/Managed.antt =====
-- Who can create and delete exams on frontend/src/pages/Exams.tsx, and which.
use wazire.Base.{
  ◌≡◌, ◌≢◌, refl, Bool, true, false, not, ◌&&◌, Option, none, some, List, [], ◌∷◌, ◌++◌, All,
  All-map, All-Memᴰ, Memᴰ, arith, is_empty, ltb, if◌then◌else◌, max, subst, sym,
}
use wazire.Base.Text.{Text, text, text_eq, text_eq_iff}
use wazire.Ui.Element.{
  said, button, Offers, Allows, Allows-Offers, Allows-append, Allows-shown_if, Allows-said_some,
  Allows-stack, shown_if, stack,
}
use wazire.Ui.Parts.{Allows-searching, Allows-modal, Allows-pagination, pagination}
use wazire.ListPages.Exams
use wazire.ListPages.Exams.{
  Exam, Page, Request, Reply, done, failed, create_exam, delete_exam, refetch, send_delete,
  exam_created, exam_deleted, is_too_short,
}
use wazire.Base.Parse.{parse_int}
use mathlib.Core.List.Memᴰ
use wazire.ListPages.ExamsLook
use wazire.ListPages.ExamsLook.{
  Event, Fetched, manages, step, open_create, close_create, submit_create, change,
  choose_exam_course, type_search, choose_course, choose_status, search, go_next, go_prev, retry,
  go_to, visit, ask_delete, close_delete, confirm_delete,
}

module _ (time_text : Text → Text) (role : Text) where
  -- The pages that can follow on a page for a user with this role, with all exams of the lists that
  -- the page had until then: whatever the page offers, and the replies that it waits for.
  pub data Follows (start : Page) : List Exam → Page → Type 0 where
    here : Follows start [] start
    acted :
        {seen : List Exam} {p : Page}
        → Follows start seen p
        → (f : Fetched) (e : Event) → Offers e (ExamsLook.view time_text role f p)
        → Follows start (f.exams ++ seen) (step f.has_next f.has_prev e p)
    create_replied :
        {seen : List Exam} {p : Page}
        → Follows start seen p
        → (r : Reply) → Follows start seen (exam_created r p)
    delete_replied :
        {seen : List Exam} {p : Page}
        → Follows start seen p
        → (r : Reply) → Follows start seen (exam_deleted r p)

  abbrev pub Manages : Type 0
  Manages = manages role ≡ true

  abbrev pub Unfinished : Exam → Type 0
  Unfinished e = e.status ≢ text "finished"

  -- An exam that a user may delete who has had these exams listed.
  abbrev pub Deletable : List Exam → Exam → Type 0
  Deletable seen e = Manages × Memᴰ e seen × Unfinished e

  abbrev Allowed : Page → List Exam → Event → Type 0
  Allowed p listed open_create = Manages
  Allowed p listed submit_create = p.create_open ≡ true
  Allowed p listed (ask_delete e) = Deletable listed e
  Allowed p listed e = Unit {0}

  unfinished :
      (e : Exam) → (manages role && not (text_eq e.status (text "finished"))) ≡ true → Unfinished e
  unfinished e h s = ground (arith, text_eq_iff e.status (text "finished"))

  module _ (p : Page) (listed : List Exam) where
    actions-Allowed :
        (e : Exam) → Memᴰ e listed → Allows (Allowed p listed) (ExamsLook.actions role e)
    unfolding ExamsLook.actions
    actions-Allowed e m = Allows-stack (Allowed p listed) (ExamsLook.action_parts role e) (
      Allows-shown_if (Allowed p listed) _ (button (text "Take Exam") true (visit _) ∷ [])
          (λ _. ((λ _. tt), tt)),
      (
        Allows-shown_if (Allowed p listed)
            (manages role && not (text_eq e.status (text "finished"))) _
            (λ h. ((λ _. tt), ((λ _. (ground arith, m, unfinished e h)), tt))),
        tt,
      ),
    )

    cards-Allowed :
        (es : List Exam)
        → All (λ e. Memᴰ e listed) es
        → Allows (Allowed p listed) (ExamsLook.cards time_text role es)
    unfolding ExamsLook.card
    cards-Allowed [] ms = tt
    cards-Allowed (e ∷ es) (m, ms) =
        Allows-append (Allowed p listed) (ExamsLook.card time_text role e)
          (ExamsLook.cards time_text role es)
          (
            (λ _. tt),
            (
              tt,
              (
                tt,
                (
                  tt,
                  Allows-append (Allowed p listed)
                      (shown_if (not (is_empty e.start_time)) (said (time_text e.start_time) ∷ []))
                      _
                      (Allows-shown_if (Allowed p listed) (not (is_empty e.start_time)) _
                        (λ _. (tt, tt)))
                      (tt, actions-Allowed e m),
                ),
              ),
            ),
          )
          (cards-Allowed es ms)

    header-Allowed : Allows (Allowed p listed) (ExamsLook.header role)
    unfolding ExamsLook.header
    header-Allowed =
        Allows-shown_if (Allowed p listed) (manages role)
          (button (text "Create Exam") true open_create ∷ []) (λ m. ((λ _. m), tt))

    first-Allowed :
        (b : Bool) → b ≡ manages role → Allows (Allowed p listed) (ExamsLook.first_action b ∷ [])
    first-Allowed true h = ((λ _. cc), tt)
    first-Allowed false h = ((λ _. tt), tt)

    nothing-Allowed : (f : Fetched) → Allows (Allowed p listed) (ExamsLook.nothing_found role f p)
    unfolding ExamsLook.nothing_found
    nothing-Allowed f =
        Allows-shown_if (Allowed p listed) (ExamsLook.is_fine f && is_empty f.exams) _
          (λ _. (tt, (tt, first-Allowed (manages role) refl)))

    error-Allowed : (e : Option Text) → Allows (Allowed p listed) (ExamsLook.load_error e)
    unfolding ExamsLook.load_error
    error-Allowed none = tt
    error-Allowed (some e) = (tt, ((λ _. tt), tt))

    searching-Allowed : (f : Fetched) → Allows (Allowed p listed) (ExamsLook.searching f p)
    unfolding ExamsLook.searching
    searching-Allowed f =
        Allows-searching (Allowed p listed) (text "Search exams...") p.search_input f.is_loading
          type_search (λ v. search) (λ s. tt) (λ s. tt)

    dropdowns-Allowed : (f : Fetched) → Allows (Allowed p listed) (ExamsLook.dropdowns f p)
    unfolding ExamsLook.dropdowns
    dropdowns-Allowed f = ((λ s. tt), ((λ s. tt), tt))

    pages-Allowed : (f : Fetched) → Allows (Allowed p listed) (ExamsLook.pages f p)
    unfolding ExamsLook.pages
    pages-Allowed f =
        Allows-shown_if (Allowed p listed) _
          (pagination p.current_page (max 1 f.pages) f.has_next f.has_prev go_next go_prev go_to)
          (λ _.
            Allows-pagination (Allowed p listed) p.current_page (max 1 f.pages) f.has_next
              f.has_prev go_next go_prev go_to tt tt (λ n. tt))

    form-Allowed :
        (f : Fetched)
        → p.create_open ≡ true
        → Allows (Allowed p listed) (stack (ExamsLook.form_parts f p))
    form-Allowed f is_open = Allows-stack (Allowed p listed) (ExamsLook.form_parts f p) (
      Allows-said_some (Allowed p listed) p.create_error,
      (
        (
          (λ _ s. tt),
          (
            (λ s. tt),
            (
              (λ _ s. tt),
              (
                (λ _ s. tt),
                (
                  (λ _ s. tt),
                  ((λ _ s. tt), ((λ _ s. tt), ((λ _ s. tt), ((λ _. tt), ((λ _. is_open), tt))))),
                ),
              ),
            ),
          ),
        ),
        tt,
      ),
    )

    create_modal-Allowed : (f : Fetched) → Allows (Allowed p listed) (ExamsLook.create_modal f p)
    unfolding ExamsLook.create_modal
    create_modal-Allowed f =
        Allows-modal (Allowed p listed) p.create_open close_create (text "Create New Exam")
          (stack (ExamsLook.form_parts f p)) tt (form-Allowed f)

    delete_modal-Allowed : Allows (Allowed p listed) (ExamsLook.delete_modal p)
    unfolding ExamsLook.delete_modal
    delete_modal-Allowed =
        Allows-modal (Allowed p listed) p.delete_open close_delete (text "Delete Exam")
          (stack (ExamsLook.delete_parts p)) tt
          (λ _. Allows-stack (Allowed p listed) (ExamsLook.delete_parts p) (
            (tt, (tt, tt)),
            (
              Allows-said_some (Allowed p listed) p.delete_error,
              (((λ _. tt), ((λ _. tt), tt)), tt),
            ),
          ))

    view-Allowed :
        (f : Fetched)
        → All (λ e. Memᴰ e listed) f.exams
        → Allows (Allowed p listed) (ExamsLook.view time_text role f p)
    unfolding ExamsLook.view ExamsLook.listing
    view-Allowed f ms = Allows-stack (Allowed p listed) (ExamsLook.parts time_text role f p) (
      header-Allowed,
      (
        searching-Allowed f,
        (
          dropdowns-Allowed f,
          (
            error-Allowed f.error,
            (
              nothing-Allowed f,
              (
                Allows-shown_if (Allowed p listed) _ (ExamsLook.cards time_text role f.exams)
                    (λ _. cards-Allowed f.exams ms),
                (pages-Allowed f, (create_modal-Allowed f, (delete_modal-Allowed, tt))),
              ),
            ),
          ),
        ),
      ),
    )

  abbrev TargetAllowed : List Exam → Option Exam → Type 0
  TargetAllowed seen none = Unit {0}
  TargetAllowed seen (some e) = Deletable seen e

  -- Requests that the page may send: those of an admin or a lecturer, and deletions of exams that
  -- were listed, and not finished there.
  abbrev pub RequestAllowed : List Exam → Request → Type 0
  RequestAllowed seen (create_exam d) = Manages
  RequestAllowed seen (delete_exam id) = (e : Exam) × (e.id ≡ id) × Deletable seen e
  RequestAllowed seen refetch = Unit {0}

  abbrev Inv : List Exam → Page → Type 0
  Inv seen p =
      TargetAllowed seen p.exam_to_delete
      × (p.create_open ≡ true → Manages)
      × All (RequestAllowed seen) p.requests

  -- More exams were listed.
  target-more :
      (new seen : List Exam) (t : Option Exam)
      → TargetAllowed seen t
      → TargetAllowed (new ++ seen) t
  target-more new seen none h = h
  target-more new seen (some e) (m, i, u) = (m, Memᴰ.append_right new i, u)

  request-more :
      (new seen : List Exam) (r : Request) → RequestAllowed seen r → RequestAllowed (new ++ seen) r
  request-more new seen (create_exam d) h = h
  request-more new seen (delete_exam id) (e, i, h) = (e, i, target-more new seen (some e) h)
  request-more new seen refetch h = h

  Inv-more : (new seen : List Exam) (p : Page) → Inv seen p → Inv (new ++ seen) p
  Inv-more new seen p (t, o, rs) =
      (target-more new seen p.exam_to_delete t, o, All-map p.requests (request-more new seen) rs)

  module _ (seen : List Exam) where
    delete-Inv :
        (p : Page) (t : Option Exam)
        → TargetAllowed seen t
        → Inv seen p
        → Inv seen (send_delete t p)
    delete-Inv p none h v = v
    delete-Inv p (some e) h (t, o, rs) = (t, o, ((e, refl, h), rs))

    if-Inv : (b : Bool) (p q : Page) → Inv seen p → Inv seen q → Inv seen (if b then p else q)
    if-Inv true p q v w = v
    if-Inv false p q v w = w

    step-Inv :
        (p : Page) (more fewer : Bool) (e : Event)
        → Allowed p seen e
        → Inv seen p
        → Inv seen (step more fewer e p)
    unfolding step Exams.handle_create_exam Exams.handle_create_form_change Exams.open_create
        Exams.close_create Exams.handle_next_page Exams.handle_prev_page Exams.handle_page_change
        Exams.handle_search Exams.handle_delete_exam Exams.open_delete_modal
        Exams.close_delete_modal
    step-Inv p more fewer open_create m (t, o, rs) = (t, (λ _. m), rs)
    step-Inv p more fewer close_create h (t, o, rs) = (t, (λ e. cc), rs)
    step-Inv p more fewer submit_create h (t, o, rs) =
        if-Inv (is_too_short (parse_int p.form.duration_hours)) _ _ (t, o, rs) (t, o, (o h, rs))
    step-Inv p more fewer go_next h v = if-Inv more _ p v v
    step-Inv p more fewer go_prev h v = if-Inv (fewer && ltb 1 p.current_page) _ p v v
    step-Inv p more fewer retry h (t, o, rs) = (t, o, (tt, rs))
    step-Inv p more fewer (ask_delete e) h (t, o, rs) = (h, o, rs)
    step-Inv p more fewer close_delete h (t, o, rs) = (tt, o, rs)
    step-Inv p more fewer confirm_delete h v = delete-Inv p p.exam_to_delete v.0 v
    step-Inv p more fewer e h v = v

    created-Inv : (p : Page) (r : Reply) → Inv seen p → Inv seen (exam_created r p)
    unfolding exam_created
    created-Inv p done (t, o, rs) = (t, (λ e. cc), (tt, rs))
    created-Inv p (failed m) v = v

    deleted-Inv : (p : Page) (r : Reply) → Inv seen p → Inv seen (exam_deleted r p)
    unfolding exam_deleted
    deleted-Inv p done (t, o, rs) = (tt, o, (tt, rs))
    deleted-Inv p (failed m) v = v

  follows-Inv :
      (start p : Page) (seen : List Exam) → Inv [] start → Follows start seen p → Inv seen p
  follows-Inv start p seen v here = v
  follows-Inv start q all v (acted {seen} {p} r f e o) =
      let listed = f.exams ++ seen in
      let ms = All-map f.exams (λ x m. Memᴰ.append_left seen m) (All-Memᴰ f.exams) in
      step-Inv listed p f.has_next f.has_prev e
        (Allows-Offers (Allowed p listed) e _ (view-Allowed p listed f ms) o)
        (Inv-more f.exams seen p (follows-Inv start p seen v r))
  follows-Inv start q seen v (create_replied {p} h r) =
      created-Inv seen p r (follows-Inv start p seen v h)
  follows-Inv start q seen v (delete_replied {p} h r) =
      deleted-Inv seen p r (follows-Inv start p seen v h)

  -- From a page with closed dialogs from which nothing was sent, whatever the user does of what the
  -- page offers, with whatever lists of exams, and whatever the server replies: an exam is created or
  -- deleted only where the user is an admin or a lecturer, and only an exam is deleted that was in
  -- one of these lists, with another status than finished there.
  pub only_unfinished_exams_deleted :
      (start p : Page) (seen : List Exam)
      → start.exam_to_delete ≡ none
      → start.create_open ≡ false
      → start.requests ≡ []
      → Follows start seen p
      → All (RequestAllowed seen) p.requests
  only_unfinished_exams_deleted start p seen t o r f =
      (follows-Inv start p seen
        (subst (TargetAllowed []) (sym t) tt, (λ e. cc), subst (All (RequestAllowed [])) (sym r) tt)
        f).2
