-- ===== src/TakeExam/Effects.antt =====
-- What each operation on the exam page's queue does to a field of the page.
use wazire.Base.{ℕ, ◌≡◌, ◌≢◌, not, some, [], arith, is_empty, get_elem?, erase_at}
use wazire.Base.Text.{Text}
use wazire.Base.Dict.{lookup, insert, delete}
use wazire.TakeExam.Answer.{Answer, AnswerValue, format_queued}
use wazire.TakeExam.Queue.{
  Page, process_queue, save_succeeds, save_fails, enqueue_save, handle_submit, immediate_fails,
}
use wazire.TakeExam.Steps.{Inv}

pub pending-save_succeeds : (q : Text) (p : Page) → (save_succeeds q p).pending ≡ delete q p.pending
unfolding save_succeeds
pending-save_succeeds q p = ground arith

pub pending-save_fails : (q : Text) (p : Page) → (save_fails q p).pending ≡ p.pending
unfolding save_fails
pending-save_fails q p = ground arith

pub pending-process_queue : (p : Page) → (process_queue p).pending ≡ p.pending
unfolding process_queue
pending-process_queue p = ground arith

pub pending-enqueue_save :
    (q : Text) (v : AnswerValue) (p : Page)
    → (enqueue_save q v p).pending ≡ insert q (format_queued (lookup q p.questions) v) p.pending
unfolding enqueue_save
pending-enqueue_save q v p = ground arith

pub pending-handle_submit :
    (p : Page) → Inv p → p.pending ≢ [] → (handle_submit p).pending ≡ p.pending
unfolding handle_submit
pending-handle_submit p h n = ground arith

pub in_flight-immediate_fails :
    (i : ℕ) (q : Text) (a : Answer) (p : Page)
    → Inv p
    → lookup q p.in_flight ≡ some a
    → (immediate_fails i p).in_flight ≡ p.in_flight
unfolding immediate_fails lookup
in_flight-immediate_fails i q a p h o = ground arith

pub pending-immediate_fails :
    (i : ℕ) (q : Text) (v : AnswerValue) (p : Page)
    → get_elem? p.immediate i ≡ some (q, v)
    → (immediate_fails i p).pending ≡ insert q (format_queued (lookup q p.questions) v) p.pending
unfolding immediate_fails insert
pending-immediate_fails i q v p f =
    rw (f, immediate_fails)
      (pending-enqueue_save q v (record p { immediate = erase_at i p.immediate }))

pub in_flight-save_succeeds :
    (q : Text) (p : Page) → (save_succeeds q p).in_flight ≡ delete q p.in_flight
unfolding save_succeeds
in_flight-save_succeeds q p = ground arith

pub processing-save_succeeds :
    (q : Text) (p : Page)
    → p.processing ≡ not (is_empty p.in_flight)
    → (save_succeeds q p).processing ≡ not (is_empty (delete q p.in_flight))
unfolding save_succeeds delete
processing-save_succeeds q p h = ground arith
