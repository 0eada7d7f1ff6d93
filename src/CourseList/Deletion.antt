-- ===== src/CourseList/Deletion.antt =====
-- Who can create and delete courses on the page, and which.
use wazire.Base.{◌≡◌, true, ◌||◌, Option, none, some, List, [], ◌++◌, All, Memᴰ}
use wazire.Base.Text.{Text}
use mathlib.Core.List.Memᴰ
use wazire.Base.Dict.{Dict}
use wazire.Ui.Element.{Offers}
use wazire.CourseList.Page.{
  Course, Request, create_course, delete_course, refetch, Page, Event, Reply, start, step,
  course_created, course_deleted,
}
use wazire.CourseList.Page.Event.{open_create, submit_create, ask_delete}
use wazire.CourseList.Look
use wazire.CourseList.Look.{Fetched, is_admin, is_lecturer}

module _ (role : Text) (tenant : Option Text) where
  -- The pages that can come to be for a user with this role, with all courses of the lists that the
  -- page had until then: whatever the page offers, and the replies that it waits for.
  pub data Reached : List Course → Page → Type 0 where
    opened : Reached [] start
    acted :
        {seen : List Course} {p : Page}
        → Reached seen p
        → (f : Fetched) (e : Event) → Offers e (Look.view role f p)
        → Reached (f.courses ++ seen) (step tenant f.has_next e p)
    create_replied :
        {seen : List Course} {p : Page}
        → Reached seen p
        → (r : Reply) → Reached seen (course_created r p)
    delete_replied :
        {seen : List Course} {p : Page}
        → Reached seen p
        → (r : Reply) → Reached seen (course_deleted r p)

  abbrev pub Manages : Type 0
  Manages = (is_admin role || is_lecturer role) ≡ true

  -- A course that a user may delete who has had these courses listed.
  abbrev pub Deletable : List Course → Course → Type 0
  Deletable seen c = Manages × Memᴰ c seen × (c.exam_count ≡ 0)

  abbrev Allowed : Page → List Course → Event → Type 0
  Allowed p listed open_create = Manages
  Allowed p listed submit_create = p.create_open ≡ true
  Allowed p listed (ask_delete c) = Deletable listed c
  Allowed p listed e = Unit {0}

  -- The course that may be deleted, and the requests, are allowed; so is the dialog, where it is open.
  abbrev TargetAllowed : List Course → Option Course → Type 0
  TargetAllowed seen none = Unit {0}
  TargetAllowed seen (some c) = Deletable seen c

  abbrev pub RequestAllowed : List Course → Request → Type 0
  RequestAllowed seen (create_course d) = Manages
  RequestAllowed seen (delete_course id) = (c : Course) × (c.id ≡ id) × Deletable seen c
  RequestAllowed seen refetch = Unit {0}

  abbrev Inv : List Course → Page → Type 0
  Inv seen p =
      TargetAllowed seen p.course_to_delete
      × (p.create_open ≡ true → Manages)
      × All (RequestAllowed seen) p.requests
