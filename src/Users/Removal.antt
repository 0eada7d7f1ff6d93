-- ===== src/Users/Removal.antt =====
-- A removal that fails.
use wazire.Base.{
  ◌≡◌, ◌∙◌, refl, Bool, not, true, false, Option, none, some, List, [], ◌∷◌, ◌++◌, All,
}
use wazire.Base.Text.{Text, text}
use wazire.Ui.Element.{View, said, said_some, button}
use wazire.Ui.Parts.{modal, loading_button}
use wazire.Users.Page.{
  User, Page, Event, Reply, done, failed, created, edited, deleted, step, message_or, full_name,
  send_edit, send_delete, handle_edit, handle_delete, handle_create, open_edit,
}
use wazire.Users.Page.Event.{remove, close_delete, confirm_delete}
use wazire.Users.Look

-- What can happen on the page.
pub data Happening : Type 0 where
  acted : Event → Happening
  create_replied edit_replied delete_replied : Reply → Happening

abbrev pub happen : Happening → Page → Page
happen (acted e) p = step e p
happen (create_replied r) p = created r p
happen (edit_replied r) p = edited r p
happen (delete_replied r) p = deleted r p

abbrev pub happen_all : List Happening → Page → Page
happen_all [] p = p
happen_all (h ∷ hs) p = happen_all hs (happen h p)

-- All but leaving the dialog by its buttons, and another removal that fails.
abbrev pub Keeps : Happening → Type 0
Keeps (acted close_delete) = ⊥
Keeps (delete_replied (failed e)) = ⊥
Keeps _ = Unit {0}

delete_error-send_edit :
    (t : Option User) (p : Page) → (send_edit t p).delete_error ≡ p.delete_error
delete_error-send_edit none p = refl
delete_error-send_edit (some u) p = refl

delete_error-send_delete :
    (t : Option User) (p : Page) → (send_delete t p).delete_error ≡ p.delete_error
delete_error-send_delete none p = refl
delete_error-send_delete (some u) p = refl

delete_error-step :
    (e : Event) (p : Page) → Keeps (acted e) → (step e p).delete_error ≡ p.delete_error
unfolding step handle_create handle_edit handle_delete open_edit
delete_error-step Event.submit_edit p k = delete_error-send_edit p.edit_user p
delete_error-step confirm_delete p k = delete_error-send_delete p.delete_target p
delete_error-step close_delete p k = absurd k
delete_error-step e p k = refl

delete_error-happen :
    (h : Happening) (p : Page) → Keeps h → (happen h p).delete_error ≡ p.delete_error
unfolding created edited deleted
delete_error-happen (acted e) p k = delete_error-step e p k
delete_error-happen (create_replied done) p k = refl
delete_error-happen (create_replied (failed e)) p k = refl
delete_error-happen (edit_replied done) p k = refl
delete_error-happen (edit_replied (failed e)) p k = refl
delete_error-happen (delete_replied done) p k = refl
delete_error-happen (delete_replied (failed e)) p k = absurd k

delete_error-happen_all :
    (hs : List Happening) (p : Page)
    → All Keeps hs
    → (happen_all hs p).delete_error ≡ p.delete_error
delete_error-happen_all [] p k = refl
delete_error-happen_all (h ∷ hs) p (k, ks) =
    delete_error-happen_all hs (happen h p) ks ∙ delete_error-happen h p k

-- The dialog for the removal of a user, below its message.
abbrev pub question : User → Bool → View Event
question u loading =
    said (
      text "Are you sure you want to remove "
      ++ (full_name u ++ text "? This action cannot be undone."))
    ∷ button (text "Cancel") (not loading) close_delete
    ∷ loading_button (text "Remove") loading false confirm_delete
    ∷ []

-- The dialog for the removal of a user, with a message.
abbrev pub dialog : User → Option Text → Bool → View Event
dialog u message loading =
    said (text "Remove User")
    ∷ button (text "Close") true close_delete
    ∷ (said_some message ++ question u loading)

module _ (date_text : Text → Text) (own : Option Text) where
  opened :
      (u : User) (p : Page) (m : Option Text)
      → p.delete_error ≡ m
      → Look.delete_modal date_text own (step (remove u) p) ≡ dialog u m p.delete_loading
  unfolding step Look.delete_modal modal
  opened u p m e = rw e refl

  -- When the removal of a user fails, then the dialog closes at once, so nothing of it is shown. The
  -- message, if it is not empty, stays: whatever happens then, but for a dialog for a removal that is
  -- left by a button and another removal that fails, the next dialog for a removal has it at its top,
  -- whichever user that is for, also after a removal that succeeded; and once that dialog is left by
  -- a button, the next one has none.
  pub failed_removal_shown_later :
      (message : Option Text) (p : Page) (hs : List Happening) (next : User)
      → All Keeps hs
      → let failure = message_or (text "Failed to delete user") message in
        let q = deleted (failed message) p in
        let later = happen_all hs q in
        (Look.delete_modal date_text own q ≡ [])
        × (Look.delete_modal date_text own (step (remove next) later)
            ≡ dialog next (some failure) later.delete_loading)
        × (Look.delete_modal date_text own (step (remove next) (step close_delete later))
            ≡ dialog next none later.delete_loading)
  unfolding deleted step Look.delete_modal modal
  failed_removal_shown_later message p hs next k = (
    refl,
    opened next (happen_all hs (deleted (failed message) p)) _
        (delete_error-happen_all hs (deleted (failed message) p) k),
    refl,
  )
