-- ===== src/Users/Tests.antt =====
-- An admin who asks for the removal of a student, and the theorems there.
use wazire.Base.{◌≡◌, ◌≢◌, ◌⊎◌, refl, true, false, none, some, List, [], ◌∷◌, All, inl, inr}
use wazire.Base.Text.{Text, text, text_eq, includes, starts_with, to_lower, join}
use wazire.Ui.Element.{Offers, stack}
use wazire.Ui.Parts.{search_input}
use wazire.Users.Page.{
  User, start, step, deleted, done, failed, filtered, matches, full_name, delete_user, message_or,
}
use wazire.Users.Page.Event.{remove, close_delete, search_for}
use wazire.Users.Look
use wazire.Users.Own.{Reached, opened, acted, own_account_stays}
use wazire.Users.Removal.{Happening, delete_replied, happen_all, dialog, failed_removal_shown_later}

abbrev student : User
student = record {
  id = b's' ∷ [];
  first_name = b'A' ∷ [];
  middle_name = [];
  last_name = b'B' ∷ [];
  email = b'e' ∷ [];
  role = text "student";
  is_active = true;
  avatar = [];
  created_at = [];
}

abbrev fetched : Look.Fetched
fetched = record {
  is_loading = false;
  error = none;
  users = student ∷ [];
  pages = 1;
  has_next = false;
  has_prev = false;
}

abbrev plain_date : Text → Text
plain_date t = t

abbrev admin : Text
admin = b'a' ∷ []

-- The button stands behind the filters, the headings and the student's data.
abbrev skip : {A B C D : Type 0} → D → A ⊎ (B ⊎ (C ⊎ D))
skip d = inr (inr (inr d))

listed : filtered start (student ∷ []) ≡ student ∷ []
unfolding filtered matches full_name start text text_eq includes starts_with to_lower join
listed = refl

removal_offered : Offers (remove student) (Look.view plain_date (some admin) fetched start)
unfolding Look.view Look.table Look.row Look.actions Look.user_avatar Look.searching search_input
    Look.dropdowns Look.load_error Look.listing stack filtered matches full_name start text text_eq
    includes starts_with to_lower join
removal_offered = skip (skip (skip (skip (skip (inr (inr (inl (refl, refl))))))))

asked : Reached plain_date admin (step (remove student) start)
asked = acted opened fetched (remove student) removal_offered

own_account_stays_example :
    let p = step (remove student) start in
    ((u : User) → p.delete_target ≡ some u → u.id ≢ admin)
    × All (λ r. r ≢ delete_user admin) p.requests
own_account_stays_example = own_account_stays plain_date admin (step (remove student) start) asked

abbrev happenings : List Happening
happenings = Happening.acted (search_for (b'B' ∷ [])) ∷ delete_replied done ∷ []

failed_removal_shown_later_example :
    let q = deleted (failed none) (step (remove student) start) in
    let later = happen_all happenings q in
    (Look.delete_modal plain_date (some admin) q ≡ [])
    × (Look.delete_modal plain_date (some admin) (step (remove student) later)
        ≡ dialog student
            (some (message_or (text "Failed to delete user") none))
            later.delete_loading)
    × (Look.delete_modal plain_date (some admin) (step (remove student) (step close_delete later))
        ≡ dialog student none later.delete_loading)
failed_removal_shown_later_example =
    failed_removal_shown_later plain_date (some admin) none (step (remove student) start) happenings
      student (tt, (tt, tt))
