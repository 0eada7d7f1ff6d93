-- ===== src/Users/Own.antt =====
-- What can come of the page: whatever its view offers, and the replies that it waits for.
use wazire.Base.{
  ◌≡◌, ◌≢◌, subst, true, false, Option, none, some, List, [], ◌∷◌, All, arith, is_empty,
}
use wazire.Base.Text.{Text, text, text_eq_iff}
use wazire.Ui.Element.{
  View, said_some, Allows-said_some, button, Offers, Allows, Allows-Offers, Allows-append,
  Allows-shown_if, Allows-stack, Allows-if,
}
use wazire.Ui.Parts.{Allows-search_input, Allows-modal, Allows-pagination, empty_state}
use wazire.Users.Page.{
  User, Page, Event, Reply, done, failed, Request, delete_user, start, step, created, edited,
  deleted, handle_create, handle_edit, handle_delete, open_edit, filtered, send_edit, send_delete,
}
use wazire.Users.Page.Event.{
  close_create, submit_create, close_edit, submit_edit, remove, close_delete, confirm_delete,
  search_for, go_next, go_prev, go_to, retry,
}
use wazire.Users.Look

module _ (date_text : Text → Text) (own : Text) where
  -- The pages that can come to be for the user with the identifier `own`.
  pub data Reached : Page → Type 0 where
    opened : Reached start
    acted :
        {p : Page}
        → Reached p
        → (f : Look.Fetched) (e : Event) → Offers e (Look.view date_text (some own) f p)
        → Reached (step e p)
    create_replied : {p : Page} → Reached p → (r : Reply) → Reached (created r p)
    edit_replied : {p : Page} → Reached p → (r : Reply) → Reached (edited r p)
    delete_replied : {p : Page} → Reached p → (r : Reply) → Reached (deleted r p)

  abbrev Spares : Event → Type 0
  Spares (remove u) = Look.is_other (some own) u ≡ true
  Spares e = Unit {0}

  actions-Spares : (u : User) → Allows Spares (Look.actions date_text (some own) u)
  unfolding Look.actions
  actions-Spares u = (
    (λ _. tt),
    Allows-shown_if Spares (Look.is_other (some own) u)
        (button (text "Remove") true (remove u) ∷ []) (λ other. ((λ _. other), tt)),
  )

  avatar-Spares : (u : User) → Allows Spares (Look.user_avatar u)
  unfolding Look.user_avatar
  avatar-Spares u = Allows-if Spares (is_empty u.avatar) _ _ (tt, tt) (tt, tt)

  row-Spares : (u : User) → Allows Spares (Look.row date_text (some own) u)
  unfolding Look.row
  row-Spares u =
      Allows-append Spares (Look.user_avatar u) _ (avatar-Spares u)
        (tt, (tt, (tt, (tt, (tt, actions-Spares u)))))

  card-Spares : (u : User) → Allows Spares (Look.card date_text (some own) u)
  unfolding Look.card
  card-Spares u =
      Allows-append Spares (Look.user_avatar u) _ (avatar-Spares u)
        (tt, (tt, (tt, (tt, (tt, actions-Spares u)))))

  each-Spares :
      (show : User → View Event) (us : List User)
      → ((u : User) → Allows Spares (show u))
      → Allows Spares (Look.each date_text (some own) show us)
  each-Spares show [] h = tt
  each-Spares show (u ∷ us) h = Allows-append Spares (show u) _ (h u) (each-Spares show us h)

  table-Spares : (p : Page) (us : List User) → Allows Spares (Look.table date_text (some own) p us)
  unfolding Look.table Look.nobody empty_state
  table-Spares p us = (
    tt,
    (
      tt,
      (
        tt,
        (
          tt,
          (
            tt,
            Allows-append Spares (Look.each date_text (some own) _ us) _
                (each-Spares (Look.row date_text (some own)) us row-Spares)
                (Allows-append Spares (Look.each date_text (some own) _ us) _
                  (each-Spares (Look.card date_text (some own)) us card-Spares)
                  (Allows-shown_if Spares (is_empty us) (Look.nobody date_text (some own) p)
                    (λ _. (tt, (tt, ((λ _. tt), tt)))))),
          ),
        ),
      ),
    ),
  )

  load_error-Spares : (e : Option Text) → Allows Spares (Look.load_error e)
  unfolding Look.load_error
  load_error-Spares none = tt
  load_error-Spares (some e) = (tt, ((λ _. tt), tt))

  create-Spares : (p : Page) → Allows Spares (Look.create_modal date_text (some own) p)
  unfolding Look.create_modal
  create-Spares p = Allows-modal Spares p.create_open close_create (text "Add New User") _ tt (λ _.
      Allows-append Spares (said_some p.create_error) _ (Allows-said_some Spares p.create_error) (
        (λ _ s. tt),
        ((λ _ s. tt), ((λ _ s. tt), ((λ s. tt), ((λ _ s. tt), ((λ _. tt), ((λ _. tt), tt)))))),
      ))

  edit-Spares : (p : Page) → Allows Spares (Look.edit_modal date_text (some own) p)
  unfolding Look.edit_modal
  edit-Spares p = Allows-modal Spares _ close_edit (text "Edit User") _ tt (λ _.
      Allows-append Spares (said_some p.edit_error) _ (Allows-said_some Spares p.edit_error)
        ((λ _ s. tt), ((λ _ s. tt), ((λ _ s. tt), ((λ b. tt), ((λ _. tt), ((λ _. tt), tt)))))))

  delete-Spares : (p : Page) → Allows Spares (Look.delete_modal date_text (some own) p)
  unfolding Look.delete_modal
  delete-Spares p = Allows-modal Spares _ close_delete (text "Remove User") _ tt (λ _.
      Allows-append Spares (said_some p.delete_error) _ (Allows-said_some Spares p.delete_error)
        (tt, ((λ _. tt), ((λ _. tt), tt))))

  listing-Spares :
      (f : Look.Fetched) (p : Page) → Allows Spares (Look.listing date_text (some own) f p)
  unfolding Look.listing
  listing-Spares f p =
      Allows-if Spares f.is_loading [] (Look.table date_text (some own) p (filtered p f.users)) tt
        (table-Spares p (filtered p f.users))

  searching-Spares : (p : Page) → Allows Spares (Look.searching p)
  unfolding Look.searching
  searching-Spares p =
      Allows-search_input Spares (text "Search by name or email...") p.search_query false search_for
        (λ s. tt)

  pages-Spares : (f : Look.Fetched) (p : Page) → Allows Spares (Look.pages date_text (some own) f p)
  unfolding Look.pages
  pages-Spares f p =
      Allows-pagination Spares p.page f.pages f.has_next f.has_prev go_next go_prev go_to tt tt
        (λ n. tt)

  dropdowns-Spares : (p : Page) → Allows Spares (Look.dropdowns p)
  unfolding Look.dropdowns
  dropdowns-Spares p = ((λ s. tt), ((λ s. tt), tt))

  view-Spares : (f : Look.Fetched) (p : Page) → Allows Spares (Look.view date_text (some own) f p)
  unfolding Look.view
  view-Spares f p = Allows-stack Spares (Look.parts date_text (some own) f p) (
    ((λ _. tt), tt),
    (
      searching-Spares p,
      (
        dropdowns-Spares p,
        (
          load_error-Spares f.error,
          (
            listing-Spares f p,
            (pages-Spares f p, (create-Spares p, (edit-Spares p, (delete-Spares p, tt)))),
          ),
        ),
      ),
    ),
  )

  -- The user that is to be removed is another one, and so is each whose removal was asked for.
  abbrev TargetSpares : Option User → Type 0
  TargetSpares none = Unit {0}
  TargetSpares (some u) = u.id ≢ own

  abbrev Inv : Option User → List Request → Type 0
  Inv target requests = TargetSpares target × All (λ r. r ≢ delete_user own) requests

  abbrev PageInv : Page → Type 0
  PageInv p = Inv p.delete_target p.requests

  other_id : (u : User) → Look.is_other (some own) u ≡ true → u.id ≢ own
  other_id u h e = ground (arith, text_eq_iff u.id own)

  edit-Inv : (p : Page) (u : Option User) → PageInv p → PageInv (send_edit u p)
  edit-Inv p none v = v
  edit-Inv p (some u) (t, rs) = (t, ((λ e. cc), rs))

  confirm-Inv :
      (p : Page) (t : Option User) → TargetSpares t → PageInv p → PageInv (send_delete t p)
  confirm-Inv p none h v = v
  confirm-Inv p (some u) h (t, rs) = (t, ((λ e. h (cc)), rs))

  step-Inv : (p : Page) (e : Event) → Spares e → PageInv p → PageInv (step e p)
  unfolding step handle_create handle_edit handle_delete open_edit
  step-Inv p submit_create h (t, rs) = (t, ((λ e. cc), rs))
  step-Inv p (remove u) h v = (other_id u h, v.1)
  step-Inv p submit_edit h v = edit-Inv p p.edit_user v
  step-Inv p confirm_delete h v = confirm-Inv p p.delete_target v.0 v
  step-Inv p close_delete h v = (tt, v.1)
  step-Inv p retry h (t, rs) = (t, ((λ e. cc), rs))
  step-Inv p e h v = v

  created-Inv : (p : Page) (r : Reply) → PageInv p → PageInv (created r p)
  unfolding created
  created-Inv p done (t, rs) = (t, ((λ e. cc), rs))
  created-Inv p (failed m) v = v

  edited-Inv : (p : Page) (r : Reply) → PageInv p → PageInv (edited r p)
  unfolding edited
  edited-Inv p done (t, rs) = (t, ((λ e. cc), rs))
  edited-Inv p (failed m) v = v

  deleted-Inv : (p : Page) (r : Reply) → PageInv p → PageInv (deleted r p)
  unfolding deleted
  deleted-Inv p done (t, rs) = (tt, ((λ e. cc), rs))
  deleted-Inv p (failed m) (t, rs) = (tt, rs)

  reached-Inv : {p : Page} → Reached p → PageInv p
  unfolding start
  reached-Inv opened = (tt, tt)
  reached-Inv (acted {p} r f e o) =
      step-Inv p e (Allows-Offers Spares e _ (view-Spares f p) o) (reached-Inv r)
  reached-Inv (create_replied {p} h r) = created-Inv p r (reached-Inv h)
  reached-Inv (edit_replied {p} h r) = edited-Inv p r (reached-Inv h)
  reached-Inv (delete_replied {p} h r) = deleted-Inv p r (reached-Inv h)

  -- Whatever the user does of what the page offers, with whatever lists of users it shows, and
  -- whatever the server replies: the dialog for a removal is never open for the user's own account,
  -- and no request to remove that account is sent.
  pub own_account_stays :
      (p : Page)
      → Reached p
      → ((u : User) → p.delete_target ≡ some u → u.id ≢ own)
        × All (λ r. r ≢ delete_user own) p.requests
  own_account_stays p h = let v = reached-Inv h in ((λ u e. subst TargetSpares e v.0), v.1)
