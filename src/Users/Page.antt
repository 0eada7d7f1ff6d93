-- ===== src/Users/Page.antt =====
-- The state of the page and its handlers, each cut where it waits for the server. A middle name that
-- is null is the empty text; so are an avatar and a date that are missing.
use wazire.Base.{
  ℕ, suc, ◌-◌, max, Bool, true, false, not, ◌&&◌, ◌||◌, Option, none, some, List, [], ◌∷◌,
  if◌then◌else◌, ◌++◌, take,
}
use wazire.Base.Text.{Text, text, text_eq, join, to_lower, includes}
use wazire.Ui.Parts.{to_upper}

pub record User : Type 0 where
  pub id : Text
  pub first_name : Text
  pub middle_name : Text
  pub last_name : Text
  pub email : Text
  pub role : Text
  pub is_active : Bool
  pub avatar : Text
  pub created_at : Text

-- `parts.filter(Boolean)`.
abbrev pub filled : List Text → List Text
filled [] = []
filled ([] ∷ ts) = filled ts
filled ((c ∷ t) ∷ ts) = (c ∷ t) ∷ filled ts

unfoldable pub full_name : User → Text
full_name u = join (text " ") (filled (u.first_name ∷ u.middle_name ∷ u.last_name ∷ []))

abbrev or_else : Text → Text → Text
or_else [] default = default
or_else (c ∷ s) default = c ∷ s

unfoldable pub get_initials : User → Text
get_initials u = or_else (to_upper (take 1 u.first_name ++ take 1 u.last_name)) (text "?")

pub record CreateForm : Type 0 where
  pub first_name : Text
  pub last_name : Text
  pub email : Text
  pub password : Text
  pub role : Text

unfoldable pub empty_form : CreateForm
empty_form = record {
  first_name = [];
  last_name = [];
  email = [];
  password = [];
  role = text "student";
}

pub record EditForm : Type 0 where
  pub first_name : Text
  pub middle_name : Text
  pub last_name : Text
  pub is_active : Bool

pub data Request : Type 0 where
  register_user : CreateForm → Request  -- in the institution of the current user
  update_user : Text → EditForm → Request
  delete_user : Text → Request
  refetch : Request

-- The message of a reply that failed is none where what was thrown is no `Error`.
pub data Reply : Type 0 where
  done : Reply
  failed : Option Text → Reply

abbrev pub message_or : Text → Option Text → Text
message_or default none = default
message_or default (some e) = e

pub record Page : Type 0 where
  pub page : ℕ
  pub search_query : Text
  pub selected_role : Text
  pub selected_status : Text
  pub create_open : Bool
  pub create_form : CreateForm
  pub create_loading : Bool
  pub create_error : Option Text
  pub edit_user : Option User
  pub edit_form : EditForm
  pub edit_loading : Bool
  pub edit_error : Option Text
  pub delete_target : Option User
  pub delete_loading : Bool
  pub delete_error : Option Text
  pub requests : List Request  -- those sent, the last first

unfoldable pub start : Page
unfolding empty_form
start = record {
  page = 1;
  search_query = [];
  selected_role = text "all";
  selected_status = text "all";
  create_open = false;
  create_form = empty_form;
  create_loading = false;
  create_error = none;
  edit_user = none;
  edit_form = record { first_name = []; middle_name = []; last_name = []; is_active = true };
  edit_loading = false;
  edit_error = none;
  delete_target = none;
  delete_loading = false;
  delete_error = none;
  requests = [];
}

-- The filters, which look at the users of the one page that was fetched.
abbrev matches_search : Text → User → Bool
matches_search query u =
    includes (to_lower (full_name u)) (to_lower query)
    || includes (to_lower u.email) (to_lower query)

abbrev matches_status : Text → User → Bool
matches_status status u =
    text_eq status (text "all")
    || (if text_eq status (text "active") then u.is_active else not u.is_active)

unfoldable pub matches : Page → User → Bool
unfolding full_name
matches p u =
    matches_search p.search_query u
    && ((text_eq p.selected_role (text "all") || text_eq u.role p.selected_role)
        && matches_status p.selected_status u)

unfoldable pub filtered : Page → List User → List User
unfolding matches
filtered p [] = []
filtered p (u ∷ us) = if matches p u then u ∷ filtered p us else filtered p us

-- `handleCreate` up to the request, and the rest of it.
unfoldable pub handle_create : Page → Page
handle_create p = record p {
  create_error = none;
  create_loading = true;
  requests = register_user p.create_form ∷ p.requests;
}

unfoldable pub created : Reply → Page → Page
unfolding empty_form
created done p = record p {
  create_open = false;
  create_form = empty_form;
  page = 1;
  requests = refetch ∷ p.requests;
  create_loading = false;
}
created (failed e) p = record p {
  create_error = some (message_or (text "Failed to create user") e);
  create_loading = false;
}

unfoldable pub open_edit : User → Page → Page
open_edit u p = record p {
  edit_user = some u;
  edit_form = record {
    first_name = u.first_name;
    middle_name = u.middle_name;
    last_name = u.last_name;
    is_active = u.is_active;
  };
  edit_error = none;
}

-- `handleEdit`, for the user that is edited.
abbrev pub send_edit : Option User → Page → Page
send_edit none p = p
send_edit (some u) p = record p {
  edit_error = none;
  edit_loading = true;
  requests = update_user u.id p.edit_form ∷ p.requests;
}

unfoldable pub handle_edit : Page → Page
handle_edit p = send_edit p.edit_user p

unfoldable pub edited : Reply → Page → Page
edited done p = record p { edit_user = none; requests = refetch ∷ p.requests; edit_loading = false }
edited (failed e) p = record p {
  edit_error = some (message_or (text "Failed to update user") e);
  edit_loading = false;
}

-- `handleDelete`, for the user that is to be removed.
abbrev pub send_delete : Option User → Page → Page
send_delete none p = p
send_delete (some u) p = record p {
  delete_loading = true;
  requests = delete_user u.id ∷ p.requests;
}

unfoldable pub handle_delete : Page → Page
handle_delete p = send_delete p.delete_target p

unfoldable pub deleted : Reply → Page → Page
deleted done p = record p {
  delete_target = none;
  requests = refetch ∷ p.requests;
  delete_loading = false;
}
deleted (failed e) p = record p {
  delete_error = some (message_or (text "Failed to delete user") e);
  delete_target = none;
  delete_loading = false;
}

-- What the user makes happen.
pub data Event : Type 0 where
  open_create close_create cancel_create submit_create : Event
  change_create : (CreateForm → CreateForm) → Event
  edit : User → Event
  close_edit submit_edit : Event
  change_edit : (EditForm → EditForm) → Event
  remove : User → Event
  close_delete confirm_delete : Event
  search_for choose_role choose_status : Text → Event
  go_next go_prev retry : Event
  go_to : ℕ → Event

unfoldable pub step : Event → Page → Page
unfolding handle_create handle_edit handle_delete open_edit
step open_create p = record p { create_open = true }
step close_create p = record p { create_open = false; create_error = none }
step cancel_create p = record p { create_open = false }
step submit_create p = handle_create p
step (change_create f) p = record p { create_form = f p.create_form }
step (edit u) p = open_edit u p
step close_edit p = record p { edit_user = none }
step submit_edit p = handle_edit p
step (change_edit f) p = record p { edit_form = f p.edit_form }
step (remove u) p = record p { delete_target = some u }
step close_delete p = record p { delete_target = none; delete_error = none }
step confirm_delete p = handle_delete p
step (search_for s) p = record p { search_query = s }
step (choose_role s) p = record p { selected_role = s }
step (choose_status s) p = record p { selected_status = s }
step go_next p = record p { page = suc p.page }
step go_prev p = record p { page = max 1 (p.page - 1) }
step retry p = record p { requests = refetch ∷ p.requests }
step (go_to n) p = record p { page = n }
