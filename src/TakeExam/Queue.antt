-- ===== src/TakeExam/Queue.antt =====
-- The queue of unsaved answers of frontend/src/pages/TakeExam.tsx: `pendingRef`, `processingRef`,
-- `pendingCount`, the copy in localStorage, and the calls of `saveAnswerImmediate`, `processQueue`,
-- `enqueueSave`, `persistPending` and `handleSubmitExam`. An `await` splits a function: the part
-- before it is one operation, and what follows the reply is another. The page has an exam id and a
-- working localStorage; `stored` is the JSON text by the object that it decodes to.
use wazire.Base.{
  ℕ, Bool, true, false, Option, none, some, List, [], ◌∷◌, length, is_empty, if◌then◌else◌,
  get_elem?, erase_at,
}
use wazire.Base.Text.{Text}
use wazire.Base.Number.{Number}
use wazire.Base.Dict.{Dict, insert, delete, lookup}
use wazire.TakeExam.Answer.{
  AnswerValue, Answer, QuestionType, format_immediate, format_queued, load_answers,
}

-- A call that the page makes of the server.
pub data Call : Type 0 where
  upsert : Text → Answer → Call
  submit : Call

pub record Page : Type 0 where
  pub questions : Dict QuestionType  -- question id ↦ qtype
  pub answers : Dict AnswerValue
  pub immediate : List (Text × AnswerValue)  -- calls of saveAnswerImmediate that await a reply
  pub pending : Dict Answer  -- pendingRef.current
  pub processing : Bool  -- processingRef.current
  pub in_flight : Dict Answer  -- saves of the current batch that await a reply
  pub stored : Option (Dict Answer)  -- localStorage `wazire.pending_answers.<id>`
  pub pending_count : ℕ
  pub submitting : Bool
  pub left : Bool  -- navigated to the exam's page
  pub error : Bool  -- an error is shown
  pub sent : List Call  -- the calls made, the latest first

-- `persistPending`.
unfoldable pub persist_pending : Page → Page
persist_pending p = record p { stored = some p.pending; pending_count = length p.pending }

abbrev pub upserts : Dict Answer → List Call → List Call
upserts [] sent = sent
upserts ((q, a) ∷ m) sent = upsert q a ∷ upserts m sent

-- `processQueue` up to its `await`: all pending saves are sent in parallel.
unfoldable pub process_queue : Page → Page
process_queue p =
    if p.processing
    then p
    else if is_empty p.pending
    then p
    else record p { processing = true; in_flight = p.pending; sent = upserts p.pending p.sent }

-- The end of `processQueue`, once no save of the batch is outstanding.
abbrev finish_batch : Page → Page
finish_batch p =
    if is_empty p.in_flight
    then record p { processing = false; pending_count = length p.pending }
    else p

-- A save of the batch succeeds: the question leaves the queue.
unfoldable pub save_succeeds : Text → Page → Page
unfolding persist_pending
save_succeeds q p =
    finish_batch (
      persist_pending (record p { pending = delete q p.pending; in_flight = delete q p.in_flight }))

-- A save of the batch fails: the question stays in the queue.
unfoldable pub save_fails : Text → Page → Page
save_fails q p = finish_batch (record p { in_flight = delete q p.in_flight })

-- `enqueueSave`.
unfoldable pub enqueue_save : Text → AnswerValue → Page → Page
unfolding process_queue persist_pending
enqueue_save q v p = process_queue (
    persist_pending
      (record p { pending = insert q (format_queued (lookup q p.questions) v) p.pending }))

-- `handleAnswer` with the part of `saveAnswerImmediate` up to its `await`.
unfoldable pub handle_answer : (Number → Text) → Text → AnswerValue → Page → Page
handle_answer number_text q v p = record p {
  answers = insert q v p.answers;
  immediate = (q, v) ∷ p.immediate;
  sent = upsert q (format_immediate number_text v) ∷ p.sent;
}

-- The replies to the call of `saveAnswerImmediate` at a place of `immediate`. A failure queues the
-- answer.
unfoldable pub immediate_succeeds : ℕ → Page → Page
immediate_succeeds i p = record p { immediate = erase_at i p.immediate }

unfoldable pub immediate_fails : ℕ → Page → Page
unfolding enqueue_save
immediate_fails i p = elim (get_elem? p.immediate i) [
  | none ↦ p
  | some (q, v) ↦ enqueue_save q v (record p { immediate = erase_at i p.immediate })
]

-- `JSON.parse(raw) || {}` where an entry is stored.
abbrev pub restored : Option (Dict Answer) → Dict Answer → Dict Answer
restored none pending = pending
restored (some m) pending = m

-- `handleSubmitExam` up to the reply to `submitExam`.
unfoldable pub handle_submit : Page → Page
handle_submit p =
    if p.submitting
    then p
    else (let pending = restored p.stored p.pending in
        record p {
          submitting = true;
          pending = pending;
          pending_count = length pending;
          sent = submit ∷ p.sent;
        })

unfoldable pub submit_succeeds : Page → Page
submit_succeeds p = record p { submitting = false; left = true }

unfoldable pub submit_fails : Page → Page
submit_fails p = record p { submitting = false; error = true }

-- The page as it stands once `loadExam` has run: the queue is empty, whatever an earlier visit left
-- in localStorage.
unfoldable pub fresh : Dict QuestionType → List (Text × Answer) → Option (Dict Answer) → Page
unfolding load_answers
fresh questions saved stored = record {
  questions = questions;
  answers = load_answers saved;
  immediate = [];
  pending = [];
  processing = false;
  in_flight = [];
  stored = stored;
  pending_count = 0;
  submitting = false;
  left = false;
  error = false;
  sent = [];
}
