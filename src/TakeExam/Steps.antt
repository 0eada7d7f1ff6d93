-- ===== src/TakeExam/Steps.antt =====
-- The page of TakeExam.tsx beside the server that keeps the answers: what the user, the network
-- and the 5 second interval can make happen, as events, and one step of the whole.
use wazire.Base.{
  ℕ, ◌≡◌, Bool, true, Option, none, some, List, [], ◌∷◌, if◌then◌else◌, ◌⊎◌, not, length, is_empty,
  get_elem?,
}
use wazire.Base.Text.{Text}
use wazire.Base.Number.{Number}
use wazire.Base.Dict.{Dict, insert, lookup}
use wazire.TakeExam.Answer.{AnswerValue, Answer, format_immediate}
use wazire.TakeExam.Queue.{
  Page, handle_answer, immediate_succeeds, immediate_fails, process_queue, save_succeeds,
  save_fails, handle_submit, submit_succeeds, submit_fails,
}

pub data Event : Type 0 where
  answered : Text → AnswerValue → Event  -- the user gives an answer
  immediate_ok : ℕ → Event  -- the call at that place succeeds
  immediate_failed : ℕ → Bool → Event  -- it fails; whether it had reached the server
  wake : Event  -- the interval, or the browser is online again
  save_ok : Text → Event  -- the save of that question in the batch succeeds
  save_failed : Text → Bool → Event  -- it fails; whether it had reached the server
  submitted submit_ok submit_failed : Event

pub record System : Type 0 where
  pub page : Page
  pub server : Dict Answer

-- The server stores the answer of a save that reaches it.
abbrev pub receive : Text → Option Answer → Bool → Dict Answer → Dict Answer
receive q none reached server = server
receive q (some a) reached server = if reached then insert q a server else server

abbrev pub receive_call :
    (Number → Text) → Option (Text × AnswerValue) → Bool → Dict Answer → Dict Answer
receive_call number_text none reached server = server
receive_call number_text (some (q, v)) reached server =
    if reached then insert q (format_immediate number_text v) server else server

-- A reply to a save is possible only while that save is outstanding.
abbrev outstanding : Option Answer → System → System → System
outstanding none s t = s
outstanding (some a) s t = t

unfoldable pub step : (Number → Text) → Event → System → System
unfolding handle_answer immediate_succeeds immediate_fails process_queue save_succeeds save_fails
    handle_submit submit_succeeds submit_fails
step number_text (answered q v) s = record s { page = handle_answer number_text q v s.page }
step number_text (immediate_ok i) s = record s {
  page = immediate_succeeds i s.page;
  server = receive_call number_text (get_elem? s.page.immediate i) true s.server;
}
step number_text (immediate_failed i reached) s = record s {
  page = immediate_fails i s.page;
  server = receive_call number_text (get_elem? s.page.immediate i) reached s.server;
}
step number_text wake s = record s { page = process_queue s.page }
step number_text (save_ok q) s = outstanding (lookup q s.page.in_flight) s (record s {
  page = save_succeeds q s.page;
  server = receive q (lookup q s.page.in_flight) true s.server;
})
step number_text (save_failed q reached) s = outstanding (lookup q s.page.in_flight) s (record s {
  page = save_fails q s.page;
  server = receive q (lookup q s.page.in_flight) reached s.server;
})
step number_text submitted s = record s { page = handle_submit s.page }
step number_text submit_ok s = record s { page = submit_succeeds s.page }
step number_text submit_failed s = record s { page = submit_fails s.page }

unfoldable pub run : (Number → Text) → List Event → System → System
run number_text [] s = s
run number_text (e ∷ es) s = run number_text es (step number_text e s)

-- What holds of the page between two events.
pub record Inv (p : Page) : Type 0 where
  pub counted : p.pending_count ≡ length p.pending
  pub persisted : (p.pending ≡ []) ⊎ (p.stored ≡ some p.pending)
  pub busy : p.processing ≡ not (is_empty p.in_flight)
