-- ===== src/Users/Look.antt =====
-- What the page shows. What the query for the users gives stands outside: whether it loads, the
-- message of its error, and the page of users. The skeleton that stands for a list that loads shows
-- nothing.
use wazire.Base.{
  ℕ, Bool, true, false, not, ◌||◌, Option, none, some, List, [], ◌∷◌, ◌++◌, is_empty, if◌then◌else◌,
}
use wazire.Base.Text.{Text, text, text_eq}
use wazire.Ui.Element.{
  Element, said, picture, button, entry, checkbox, choice, View, shown_if, said_some, stack,
}
use wazire.Ui.Parts.{
  loading_button, search_input, empty_state, modal, pagination, status_label, capitalized,
}
use wazire.Users.Page.{User, full_name, get_initials, Page, filtered, Event}
use wazire.Users.Page.Event.{
  open_create, close_create, cancel_create, submit_create, change_create, edit, close_edit,
  submit_edit, change_edit, remove, close_delete, confirm_delete, search_for, choose_role,
  choose_status, go_next, go_prev, go_to, retry,
}

pub record Fetched : Type 0 where
  pub is_loading : Bool
  pub error : Option Text
  pub users : List User
  pub pages : ℕ
  pub has_next : Bool
  pub has_prev : Bool

abbrev pub one : Element Event → View Event
one x = x ∷ []

-- `UserAvatar`.
unfoldable pub user_avatar : User → View Event
unfolding full_name get_initials
user_avatar u =
    if is_empty u.avatar then one (said (get_initials u)) else one (picture (full_name u))

unfoldable pub dropdowns : Page → View Event
dropdowns p =
    choice
      ((text "all", text "All Roles")
        ∷ (text "admin", text "Admins")
        ∷ (text "lecturer", text "Lecturers")
        ∷ (text "student", text "Students")
        ∷ [])
      p.selected_role choose_role
    ∷ choice
        ((text "all", text "All Status")
          ∷ (text "active", text "Active")
          ∷ (text "inactive", text "Inactive")
          ∷ [])
        p.selected_status choose_status
    ∷ []

unfoldable pub searching : Page → View Event
unfolding search_input
searching p = search_input (text "Search by name or email...") p.search_query false search_for none

unfoldable pub load_error : Option Text → View Event
load_error none = []
load_error (some e) =
    said (if is_empty e then text "Failed to load users" else e)
    ∷ button (text "Retry") true retry
    ∷ []

-- `u.id !== currentUser?.id`.
abbrev pub is_other : Option Text → User → Bool
is_other none u = true
is_other (some own) u = not (text_eq u.id own)

module _ (date_text : Text → Text) (own : Option Text) where
  abbrev created : User → Text
  created u = if is_empty u.created_at then text "—" else date_text u.created_at

  unfoldable pub actions : User → View Event
  actions u =
      button (text "Edit") true (edit u)
      ∷ shown_if (is_other own u) (button (text "Remove") true (remove u) ∷ [])

  abbrev status : User → Element Event
  status u = said (status_label (if u.is_active then text "active" else text "inactive"))

  -- A row of the table, and a card for small screens.
  unfoldable pub row : User → View Event
  unfolding user_avatar actions full_name
  row u =
      user_avatar u
      ++ (said (full_name u)
          ∷ said u.email
          ∷ said (capitalized u.role)
          ∷ status u
          ∷ said (created u)
          ∷ actions u)

  unfoldable pub card : User → View Event
  unfolding user_avatar actions full_name
  card u =
      user_avatar u
      ++ (said (full_name u)
          ∷ said u.email
          ∷ status u
          ∷ said (capitalized u.role)
          ∷ said (created u)
          ∷ actions u)

  abbrev pub each : (User → View Event) → List User → View Event
  each show [] = []
  each show (u ∷ us) = show u ++ each show us

  unfoldable pub nobody : Page → View Event
  unfolding empty_state
  nobody p =
      empty_state (text "No Users Found")
        (if not (is_empty p.search_query)
            || (not (text_eq p.selected_role (text "all"))
                || not (text_eq p.selected_status (text "all")))
          then text "No users match your filters."
          else text "No users yet.")
        (text "Add User") open_create

  abbrev headings : View Event
  headings =
      said (text "User")
      ∷ said (text "Role")
      ∷ said (text "Status")
      ∷ said (text "Created")
      ∷ said (text "Actions")
      ∷ []

  unfoldable pub table : Page → List User → View Event
  unfolding row card nobody
  table p us = headings ++ (each row us ++ (each card us ++ shown_if (is_empty us) (nobody p)))

  unfoldable pub create_modal : Page → View Event
  unfolding modal
  create_modal p =
      let f = p.create_form in
      modal p.create_open close_create (text "Add New User") (
        said_some p.create_error
        ++ (entry (text "First Name") f.first_name true
              (λ v. change_create (λ c. record c { first_name = v }))
            ∷ entry (text "Last Name") f.last_name true
                (λ v. change_create (λ c. record c { last_name = v }))
            ∷ entry (text "Email") f.email true (λ v. change_create (λ c. record c { email = v }))
            ∷ choice
                ((text "student", text "Student")
                  ∷ (text "lecturer", text "Lecturer")
                  ∷ (text "admin", text "Admin")
                  ∷ [])
                f.role (λ v. change_create (λ c. record c { role = v }))
            ∷ entry (text "Password") f.password true
                (λ v. change_create (λ c. record c { password = v }))
            ∷ button (text "Cancel") (not p.create_loading) cancel_create
            ∷ loading_button (text "Create User") p.create_loading
                (is_empty f.first_name
                  || (is_empty f.last_name || (is_empty f.email || is_empty f.password)))
                submit_create
            ∷ []))

  abbrev is_some : Option User → Bool
  is_some none = false
  is_some (some u) = true

  unfoldable pub edit_modal : Page → View Event
  unfolding modal
  edit_modal p =
      let f = p.edit_form in
      modal (is_some p.edit_user) close_edit (text "Edit User") (
        said_some p.edit_error
        ++ (entry (text "First Name") f.first_name true
              (λ v. change_edit (λ c. record c { first_name = v }))
            ∷ entry (text "Last Name") f.last_name true
                (λ v. change_edit (λ c. record c { last_name = v }))
            ∷ entry (text "Middle Name (optional)") f.middle_name true
                (λ v. change_edit (λ c. record c { middle_name = v }))
            ∷ checkbox (text "Active") f.is_active
                (λ v. change_edit (λ c. record c { is_active = v }))
            ∷ button (text "Cancel") (not p.edit_loading) close_edit
            ∷ loading_button (text "Save Changes") p.edit_loading false submit_edit
            ∷ []))

  abbrev target_name : Option User → Text
  target_name none = []
  target_name (some u) = full_name u

  unfoldable pub delete_modal : Page → View Event
  unfolding modal full_name
  delete_modal p = modal (is_some p.delete_target) close_delete (text "Remove User") (
      said_some p.delete_error
      ++ (said (
            text "Are you sure you want to remove "
            ++ (target_name p.delete_target ++ text "? This action cannot be undone."))
          ∷ button (text "Cancel") (not p.delete_loading) close_delete
          ∷ loading_button (text "Remove") p.delete_loading false confirm_delete
          ∷ []))

  unfoldable pub listing : Fetched → Page → View Event
  unfolding table filtered
  listing f p = if f.is_loading then [] else table p (filtered p f.users)

  unfoldable pub pages : Fetched → Page → View Event
  unfolding pagination
  pages f p = pagination p.page f.pages f.has_next f.has_prev go_next go_prev go_to

  abbrev pub parts : Fetched → Page → List (View Event)
  parts f p =
      one (button (text "Add User") true open_create)
      ∷ searching p
      ∷ dropdowns p
      ∷ load_error f.error
      ∷ listing f p
      ∷ pages f p
      ∷ create_modal p
      ∷ edit_modal p
      ∷ delete_modal p
      ∷ []

  unfoldable pub view : Fetched → Page → View Event
  unfolding stack searching dropdowns load_error listing pages create_modal edit_modal delete_modal
  view f p = stack (parts f p)
