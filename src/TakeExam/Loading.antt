-- ===== src/TakeExam/Loading.antt =====
-- `loadExam` of frontend/src/pages/TakeExam.tsx, which asks for the exam with its questions, then for
-- the student's submission, then for the saved answers, and starts the countdown. Each `await` splits
-- it: what follows a reply is an operation.
use wazire.Base.{ℕ, true, false, Option, none, some, List, [], ◌∷◌, ◌++◌, is_empty, if◌then◌else◌}
use wazire.Base.Text.{Text, text}
use wazire.Base.Dict.{Dict}
use wazire.TakeExam.Answer.{AnswerValue, Answer, load_answers}
use wazire.TakeExam.Timer.{Timer, ExamTimes, load_timer}
use wazire.TakeExam.Sheet.{Question}
use wazire.TakeExam.Entrance.{Exam, Submission, Door}

-- A reply, or what was thrown: the message of an Error, if it is one.
pub data Reply (A : Type 0) : Type 0 where
  ok : A → Reply A
  failed : Option Text → Reply A

pub record Visit : Type 0 where
  pub door : Door
  pub answers : Dict AnswerValue
  pub timer : Timer

-- The start, up to the first request.
unfoldable pub begin_load : Visit → Visit
begin_load v = record v { door = record v.door { loading = true; error = none } }

abbrev pub message : Option Text → Text
message none = text "Failed to load exam"
message (some m) = m

-- The exam or its questions could not be fetched.
unfoldable pub load_failed : Option Text → Visit → Visit
load_failed m v = record v {
  door = record v.door { error = some (message m); loading = false; checking = false };
}

unfoldable pub exam_loaded : Option Exam → List Question → Visit → Visit
exam_loaded e qs v = record v { door = record v.door { exam = e; questions = qs } }

-- A failure counts as no submission, and a reply without one leaves what was there.
unfoldable pub submission_loaded : Reply (Option Submission) → Visit → Visit
submission_loaded (ok (some s)) v = record v { door = record v.door { existing = some s } }
submission_loaded (ok none) v = v
submission_loaded (failed m) v = record v { door = record v.door { existing = none } }

unfoldable pub answers_loaded : Reply (List (Text × Answer)) → Visit → Visit
unfolding load_answers
answers_loaded (ok []) v = v
answers_loaded (ok (a ∷ saved)) v = record v { answers = load_answers (a ∷ saved) }
answers_loaded (failed m) v = v

-- `submission`, the variable of `loadExam`.
abbrev pub found : Reply (Option Submission) → Option Submission
found (ok s) = s
found (failed m) = none

abbrev pub times_of : Option Exam → ExamTimes
times_of none = record { duration_hours = 0; duration_minutes = 0; end_time = none }
times_of (some e) = record {
  duration_hours = e.duration_hours;
  duration_minutes = e.duration_minutes;
  end_time = e.end_time;
}

abbrev pub created : Option Submission → Option ℕ
created none = none
created (some s) = s.created_at

-- The name of the course is reset where there is no course; where there is one it is asked for.
abbrev pub reset_name : Option Exam → Text → Text
reset_name none name = []
reset_name (some e) name = if is_empty e.course_id then [] else name

-- What follows the last reply.
unfoldable pub finish_load : Option Exam → Option Submission → ℕ → Visit → Visit
unfolding load_timer
finish_load e s now v = record v {
  timer = load_timer (times_of e) (created s) now v.timer;
  door = record v.door {
    course_name = reset_name e v.door.course_name;
    loading = false;
    checking = false;
  };
}

-- `loadExam` with its three replies, the last of them at the time `now`.
unfoldable pub load :
    Reply (Option Exam × List Question)
    → Reply (Option Submission)
    → Reply (List (Text × Answer))
    → ℕ
    → Visit
    → Visit
unfolding begin_load load_failed exam_loaded submission_loaded answers_loaded finish_load
load (failed m) submission saved now v =
    if is_empty v.door.id then v else load_failed m (begin_load v)
load (ok (e, qs)) submission saved now v =
    if is_empty v.door.id
    then v
    else finish_load e (found submission) now
        (answers_loaded saved (submission_loaded submission (exam_loaded e qs (begin_load v))))

-- The reply to the request for the name of the course, which nothing waits for.
unfoldable pub name_loaded : Text → Reply Text → Visit → Visit
name_loaded course_id (ok name) v = record v { door = record v.door { course_name = name } }
name_loaded course_id (failed m) v = record v {
  door = record v.door { course_name = text "Course " ++ course_id };
}
