-- ===== src/ListPages/Stale.antt =====
-- Which page of the students of a course is shown.
use wazire.Base.{
  ℕ, ◌≡◌, ◌⊎◌, ◌∙◌, refl, ap, sym, Bool, true, false, Option, none, some, List, [], ◌∷◌, Bool-cases,
  inl, inr, if◌then◌else◌, arith,
}
use wazire.Base.Text.{Text, text_eq_iff}
use wazire.ListPages.Enrollments.{
  Query, first_query, Answer, Pane, is_fetched, same_query, items_of, open_filter_modal,
  close_filter_modal, set_temp, apply_filters, clear_filters, next_page, prev_page, drop_semester,
  drop_year, fetch_enrollments, settle, show_answer,
}

-- What the user does.
pub data Event : Type 0 where
  filter_opened filter_closed applied cleared next prev semester_dropped year_dropped : Event
  filter_set : Text → ℕ → Event

module _ {A : Type 0} where
  unfoldable pub handle : Event → Pane A → Pane A
  handle filter_opened p = open_filter_modal p
  handle filter_closed p = close_filter_modal p
  handle (filter_set s y) p = set_temp s y p
  handle applied p = apply_filters p
  handle cleared p = clear_filters p
  handle next p = next_page p
  handle prev p = prev_page p
  handle semester_dropped p = drop_semester p
  handle year_dropped p = drop_year p

  module _ (server : Query → Option (Answer A)) where
    -- The handler, and the effect behind it.
    unfoldable pub step : Event → Pane A → Pane A
    step e p = settle server p.query (handle e p)

    unfoldable pub run : List Event → Pane A → Pane A
    run [] p = p
    run (e ∷ es) p = run es (step e p)

    -- Behind the first page, or with a filter, the list is the server's.
    abbrev pub IsCurrent : Pane A → Type 0
    IsCurrent p = (is_fetched p.query ≡ false) ⊎ (p.enrollments ≡ items_of (server p.query))

    enrollments-handle : (e : Event) (p : Pane A) → (handle e p).enrollments ≡ p.enrollments
    unfolding handle open_filter_modal close_filter_modal apply_filters clear_filters next_page
        prev_page drop_semester drop_year
    enrollments-handle filter_opened p = refl
    enrollments-handle filter_closed p = refl
    enrollments-handle (filter_set s y) p = refl
    enrollments-handle applied p = refl
    enrollments-handle cleared p = refl
    enrollments-handle next p = refl
    enrollments-handle prev p = refl
    enrollments-handle semester_dropped p = refl
    enrollments-handle year_dropped p = refl

    same_query_eq : (a b : Query) → same_query a b ≡ true → a ≡ b
    unfolding same_query
    same_query_eq a b h =
        let n : a.page ≡ b.page = ground arith in
        let s : a.semester ≡ b.semester = ground (arith, text_eq_iff a.semester b.semester) in
        let y : a.year ≡ b.year = ground arith in
        λ i. record { page = n i; semester = s i; year = y i }

    shown : (o : Option (Answer A)) (p : Pane A) → (show_answer o p).enrollments ≡ items_of o
    shown none p = refl
    shown (some a) p = refl

    query-shown : (o : Option (Answer A)) (p : Pane A) → (show_answer o p).query ≡ p.query
    query-shown none p = refl
    query-shown (some a) p = refl

    first_not_fetched : is_fetched first_query ≡ false
    unfolding is_fetched
    first_not_fetched = refl

    only_current :
        (p : Pane A)
        → IsCurrent p
        → is_fetched p.query ≡ true
        → p.enrollments ≡ items_of (server p.query)
    only_current p (inl e) f = absurd (cc)
    only_current p (inr e) f = e

    branch-IsCurrent :
        (b : Bool) (p q : Pane A)
        → (b ≡ true → IsCurrent p)
        → (b ≡ false → IsCurrent q)
        → IsCurrent (if b then p else q)
    branch-IsCurrent true p q h k = h refl
    branch-IsCurrent false p q h k = k refl

    fetch-IsCurrent : (p : Pane A) → IsCurrent (fetch_enrollments server p)
    unfolding fetch_enrollments
    fetch-IsCurrent p =
        branch-IsCurrent (is_fetched p.query) (show_answer (server p.query) p) p
          (λ e. inr (
            shown (server p.query) p
            ∙ sym (ap (λ q. items_of (server q)) (query-shown (server p.query) p))))
          (λ e. inl e)

    moved-IsCurrent :
        (p q : Pane A)
        → p.query ≡ q.query
        → q.enrollments ≡ p.enrollments
        → IsCurrent p
        → IsCurrent q
    moved-IsCurrent p q same kept (inl e) = inl (ap is_fetched (sym same) ∙ e)
    moved-IsCurrent p q same kept (inr e) = inr (kept ∙ e ∙ ap (λ r. items_of (server r)) same)

    step-IsCurrent : (e : Event) (p : Pane A) → IsCurrent p → IsCurrent (step e p)
    unfolding step settle
    step-IsCurrent e p h =
        branch-IsCurrent (same_query p.query (handle e p).query) (handle e p)
          (fetch_enrollments server (handle e p))
          (λ same.
            moved-IsCurrent p (handle e p) (same_query_eq p.query (handle e p).query same)
              (enrollments-handle e p) h)
          (λ other. fetch-IsCurrent (handle e p))

    run-IsCurrent : (es : List Event) (p : Pane A) → IsCurrent p → IsCurrent (run es p)
    unfolding run
    run-IsCurrent [] p h = h
    run-IsCurrent (e ∷ es) p h = run-IsCurrent es (step e p) (step-IsCurrent e p h)

    cleared_lem : (p : Pane A) → step cleared p ≡ clear_filters p
    unfolding step settle handle fetch_enrollments clear_filters is_fetched
    cleared_lem p = elim (Bool-cases (same_query p.query first_query)) [
      | inl e ↦ rw e refl
      | inr e ↦ rw e refl
    ]

    -- From the list as it is loaded, over any clicks in the pagination and in the filters, where the
    -- server answers a request always in the same way: if the page is then not the first one or has
    -- a filter, the list is the server's for that page and these filters. But when the filters are
    -- cleared, which leads to the first page without filters, the list stays what it was.
    pub cleared_list_is_stale :
        (es : List Event) (loaded : Pane A)
        → loaded.query ≡ first_query
        → is_fetched (run es loaded).query ≡ true
        → let p = run es loaded in
          (p.enrollments ≡ items_of (server p.query))
          × ((step cleared p).query ≡ first_query)
          × ((step cleared p).enrollments ≡ p.enrollments)
    unfolding clear_filters
    cleared_list_is_stale es loaded first fetched =
        let p = run es loaded in
        let current = run-IsCurrent es loaded (inl (ap is_fetched first ∙ first_not_fetched)) in
        (
          only_current p current fetched,
          ap (λ q. q.query) (cleared_lem p),
          ap (λ q. q.enrollments) (cleared_lem p),
        )
