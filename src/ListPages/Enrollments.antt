-- ===== src/ListPages/Enrollments.antt =====
-- The students of a course on frontend/src/pages/CourseDetail.tsx: the page of the list, its filters
-- and the effect that fetches it. No year is 0.
use wazire.Base.{
  ℕ, suc, ◌-◌, Bool, true, false, not, ◌&&◌, ◌||◌, Option, none, some, List, [], is_empty, ltb, max,
  ◌==◌, if◌then◌else◌,
}
use wazire.Base.Text.{Text, text_eq}

pub record Query : Type 0 where
  pub page : ℕ
  pub semester : Text
  pub year : ℕ

-- The first page of all students.
abbrev pub first_query : Query
first_query = record { page = 1; semester = []; year = 0 }

-- A page of the list as the server gives it.
pub record Answer (A : Type 0) : Type 0 where
  pub items : List A
  pub has_next : Bool

pub record Pane (A : Type 0) : Type 0 where
  pub query : Query  -- `enrollmentsPage`, `enrollmentsSemester` and `enrollmentsYear`
  pub enrollments : List A
  pub has_next : Bool
  pub temp_semester : Text
  pub temp_year : ℕ
  pub filter_open : Bool

-- `enrollmentsPage > 1 || enrollmentsSemester || enrollmentsYear`.
unfoldable pub is_fetched : Query → Bool
is_fetched q = ltb 1 q.page || (not (is_empty q.semester) || not (q.year == 0))

unfoldable pub same_query : Query → Query → Bool
same_query a b = (a.page == b.page) && (text_eq a.semester b.semester && (a.year == b.year))

module _ {A : Type 0} where
  abbrev pub show_answer : Option (Answer A) → Pane A → Pane A
  show_answer none p = record p { enrollments = [] }
  show_answer (some a) p = record p { enrollments = a.items; has_next = a.has_next }

  -- The items of an answer, none where the request fails.
  abbrev pub items_of : Option (Answer A) → List A
  items_of none = []
  items_of (some a) = a.items

  -- `openFilterModal`, `closeFilterModal`, and the inputs of that dialog.
  unfoldable pub open_filter_modal : Pane A → Pane A
  open_filter_modal p = record p {
    temp_semester = p.query.semester;
    temp_year = p.query.year;
    filter_open = true;
  }

  unfoldable pub close_filter_modal : Pane A → Pane A
  close_filter_modal p = record p { filter_open = false }

  abbrev pub set_temp : Text → ℕ → Pane A → Pane A
  set_temp semester year p = record p { temp_semester = semester; temp_year = year }

  unfoldable pub apply_filters : Pane A → Pane A
  apply_filters p = record p {
    query = record { page = 1; semester = p.temp_semester; year = p.temp_year };
    filter_open = false;
  }

  unfoldable pub clear_filters : Pane A → Pane A
  clear_filters p = record p {
    temp_semester = [];
    temp_year = 0;
    query = first_query;
    filter_open = false;
  }

  -- The buttons of the pagination, and those that take one filter out.
  unfoldable pub next_page : Pane A → Pane A
  next_page p = record p { query = record p.query { page = suc p.query.page } }

  unfoldable pub prev_page : Pane A → Pane A
  prev_page p = record p { query = record p.query { page = max 1 (p.query.page - 1) } }

  unfoldable pub drop_semester : Pane A → Pane A
  drop_semester p = record p { query = record p.query { semester = []; page = 1 } }

  unfoldable pub drop_year : Pane A → Pane A
  drop_year p = record p { query = record p.query { year = 0; page = 1 } }

  module _ (server : Query → Option (Answer A)) where
    -- The effect, which runs after a change of what it depends on, with the server's answer.
    unfoldable pub fetch_enrollments : Pane A → Pane A
    fetch_enrollments p = if is_fetched p.query then show_answer (server p.query) p else p

    unfoldable pub settle : Query → Pane A → Pane A
    unfolding fetch_enrollments
    settle before p = if same_query before p.query then p else fetch_enrollments p
