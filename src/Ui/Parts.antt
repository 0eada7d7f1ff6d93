-- ===== src/Ui/Parts.antt =====
-- The shared components of frontend/src/components that pages are made of: SearchInput.tsx,
-- Pagination.tsx, EmptyState.tsx, Modal.tsx, StatusBadge.tsx and Button.tsx.
use wazire.Base.{
  ℕ, ◌-◌, Bool, true, false, not, ◌&&◌, ◌||◌, Option, none, some, List, [], ◌∷◌, ◌++◌, ◌≡◌, refl,
  leb, if◌then◌else◌, map,
}
use wazire.Base.Text.{Text, text}
use wazire.Base.Decimal.{print}
use wazire.Paging.Window.{get_visible_pages, count_from}
use wazire.Ui.Element.{
  Element, said, button, idle_button, entry, View, shown_if, Allows, Allows-append,
}

abbrev upper_unit : ℕ → ℕ
upper_unit c = if leb b'a' c && leb c b'z' then c - 32 else c

-- `s.charAt(0).toUpperCase() + s.slice(1)`.
abbrev pub capitalized : Text → Text
capitalized [] = []
capitalized (c ∷ s) = upper_unit c ∷ s

-- `s.toUpperCase()`.
abbrev pub to_upper : Text → Text
to_upper s = map upper_unit s

-- The label of StatusBadge.tsx; a status that is missing is the empty text.
unfoldable pub status_label : Text → Text
status_label [] = capitalized (text "not_started")
status_label (c ∷ s) = capitalized (c ∷ s)

module _ {E : Type 0} where
  -- A button is off while it loads.
  abbrev pub loading_button : Text → Bool → Bool → E → Element E
  loading_button label loading disabled e =
      button (if loading then text "Loading " ++ label else label) (not (disabled || loading)) e

  abbrev search_button : Option (Text → E) → Text → Bool → Element E
  search_button none value disabled = idle_button (text "Search")
  search_button (some on_search) value disabled =
      button (text "Search") (not disabled) (on_search value)

  unfoldable pub search_input : Text → Text → Bool → (Text → E) → Option (Text → E) → View E
  search_input placeholder value disabled on_change on_search =
      entry placeholder value (not disabled) on_change ∷ search_button on_search value disabled ∷ []

  unfoldable pub empty_state : Text → Text → Text → E → View E
  empty_state title description label e = said title ∷ said description ∷ button label true e ∷ []

  -- A dialog, with what closes it.
  unfoldable pub modal : Bool → E → Text → View E → View E
  modal is_open on_close title children =
      shown_if is_open (said title ∷ button (text "Close") true on_close ∷ children)

  abbrev page_buttons : (ℕ → E) → List ℕ → View E
  page_buttons on_page [] = []
  page_buttons on_page (n ∷ ns) = button (print n) true (on_page n) ∷ page_buttons on_page ns

  unfoldable pub pagination : ℕ → ℕ → Bool → Bool → E → E → (ℕ → E) → View E
  unfolding get_visible_pages count_from
  pagination current_page total_pages has_next has_prev on_next on_prev on_page =
      button [] has_prev on_prev
      ∷ (page_buttons on_page (get_visible_pages total_pages current_page)
          ++ button [] has_next on_next ∷ [])

  module _ (P : E → Type 0) where
    pub Allows-search_input :
        (placeholder value : Text) (disabled : Bool) (on_change : Text → E)
        → ((s : Text) → P (on_change s))
        → Allows P (search_input placeholder value disabled on_change none)
    unfolding search_input
    Allows-search_input placeholder value disabled on_change h = ((λ _. h), (tt, tt))

    pub Allows-searching :
        (placeholder value : Text) (disabled : Bool) (on_change on_search : Text → E)
        → ((s : Text) → P (on_change s))
        → ((s : Text) → P (on_search s))
        → Allows P (search_input placeholder value disabled on_change (some on_search))
    unfolding search_input
    Allows-searching placeholder value disabled on_change on_search h k =
        ((λ _. h), ((λ _. k value), tt))

    pub Allows-modal :
        (is_open : Bool) (on_close : E) (title : Text) (children : View E)
        → P on_close
        → (is_open ≡ true → Allows P children)
        → Allows P (modal is_open on_close title children)
    unfolding modal
    Allows-modal true on_close title children h hs = (tt, ((λ _. h), hs refl))
    Allows-modal false on_close title children h hs = tt

    page_buttons-Allows :
        (on_page : ℕ → E) (ns : List ℕ)
        → ((n : ℕ) → P (on_page n))
        → Allows P (page_buttons on_page ns)
    page_buttons-Allows on_page [] h = tt
    page_buttons-Allows on_page (n ∷ ns) h = ((λ _. h n), page_buttons-Allows on_page ns h)

    pub Allows-pagination :
        (c t : ℕ) (has_next has_prev : Bool) (on_next on_prev : E) (on_page : ℕ → E)
        → P on_next
        → P on_prev
        → ((n : ℕ) → P (on_page n))
        → Allows P (pagination c t has_next has_prev on_next on_prev on_page)
    unfolding pagination
    Allows-pagination c t has_next has_prev on_next on_prev on_page hn hp h = (
      (λ _. hp),
      Allows-append P (page_buttons on_page (get_visible_pages t c))
          (button [] has_next on_next ∷ []) (page_buttons-Allows on_page (get_visible_pages t c) h)
          ((λ _. hn), tt),
    )
