-- ===== src/ListPages/Students.antt =====
-- What a student sees of a page of exams or courses: the browser filters the items of the one page
-- that the server gave, and counts the pages anew.
use wazire.Base.{
  ℕ, ◌+◌, ◌/◌, ◌≤◌, ◌≡◌, refl, Bool, true, false, ◌&&◌, not, Option, none, some, List, [], ◌∷◌, any,
  length, is_empty, ltb, if◌then◌else◌, arith,
}
use wazire.Base.Text.{Text, text_eq}

abbrev pub exam_page_size : ℕ
exam_page_size = 10

abbrev pub course_page_size : ℕ
course_page_size = 6

-- A list as the API gives one page of it. The course of an item is none where it has none.
pub record Listing (A : Type 0) : Type 0 where
  pub items : List A
  pub page : ℕ
  pub total : ℕ
  pub pages : ℕ
  pub has_next : Bool
  pub has_prev : Bool

-- `Math.ceil(n / pageSize)`, on the page of exams and on that of courses.
abbrev exam_pages : ℕ → ℕ
exam_pages n = (n + 9) / exam_page_size

abbrev course_pages : ℕ → ℕ
course_pages n = (n + 5) / course_page_size

abbrev is_enrolled : List Text → Option Text → Bool
is_enrolled ids none = false
is_enrolled ids (some id) = any (text_eq id) ids

module _ {A : Type 0} (course_of : A → Option Text) where
  unfoldable pub enrolled_only : List Text → List A → List A
  enrolled_only ids [] = []
  enrolled_only ids (x ∷ xs) =
      let rest = enrolled_only ids xs in if is_enrolled ids (course_of x) then x ∷ rest else rest

  -- The exams of a student with enrollments, on the current page.
  unfoldable pub exams_for_student : List Text → ℕ → Listing A → Listing A
  unfolding enrolled_only
  exams_for_student ids current_page l =
      let items = enrolled_only ids l.items in
      record l {
        items = items;
        total = length items;
        pages = exam_pages (length items);
        has_next = ltb current_page (exam_pages (length items));
      }

  -- The exams that the page lists for a user.
  unfoldable pub exams_shown : Bool → List Text → ℕ → Listing A → Listing A
  unfolding exams_for_student
  exams_shown is_student ids current_page l =
      if is_student && not (is_empty ids) then exams_for_student ids current_page l else l

  -- The courses of a student, with none where the enrollments could not be read.
  unfoldable pub courses_for_student : Option (List Text) → ℕ → Listing A → Listing A
  unfolding enrolled_only
  courses_for_student none current_page l = record {
    items = [];
    page = 1;
    total = 0;
    pages = 0;
    has_next = false;
    has_prev = false;
  }
  courses_for_student (some ids) current_page l =
      let items = enrolled_only ids l.items in
      record {
        items = items;
        page = current_page;
        total = length items;
        pages = course_pages (length items);
        has_next = ltb current_page (course_pages (length items));
        has_prev = ltb 1 current_page;
      }

  length-enrolled_only : (ids : List Text) (xs : List A) → length (enrolled_only ids xs) ≤ length xs
  unfolding enrolled_only
  length-enrolled_only ids [] = omega arith
  length-enrolled_only ids (x ∷ xs) = ground (arith, length-enrolled_only ids xs)

-- A student never gets to a second page: as the server gives at most ten exams and at most six courses
-- at a time, the exams of a student with enrollments and the courses of a student have at most one
-- page and no next one, however many pages the server has, and the totals are at most these numbers.
pub students_see_one_page :
    {A B : Type 0} (course_of : A → Option Text) (id_of : B → Option Text) (ids : List Text)
    (enrolled : Option (List Text)) (current_page : ℕ) (exams_given : Listing A)
    (courses_given : Listing B)
    → is_empty ids ≡ false
    → 1 ≤ current_page
    → length exams_given.items ≤ exam_page_size
    → length courses_given.items ≤ course_page_size
    → let exams = exams_shown course_of true ids current_page exams_given in
      let courses = courses_for_student id_of enrolled current_page courses_given in
      ((exams.pages ≤ 1) × (exams.has_next ≡ false) × (exams.total ≤ exam_page_size))
      × ((courses.pages ≤ 1) × (courses.has_next ≡ false) × (courses.total ≤ course_page_size))
unfolding exams_shown exams_for_student courses_for_student
students_see_one_page course_of id_of ids none c l m some_ids first small few =
    rw some_ids
      (ground (arith, length-enrolled_only course_of ids l.items), (omega arith, refl, omega arith))
students_see_one_page course_of id_of ids (some js) c l m some_ids first small few = rw some_ids (
  ground (arith, length-enrolled_only course_of ids l.items),
  ground (arith, length-enrolled_only id_of js m.items),
)
