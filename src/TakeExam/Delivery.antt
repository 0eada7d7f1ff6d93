-- ===== src/TakeExam/Delivery.antt =====
-- What becomes of a queued answer of the exam page.
use wazire.Base.{ℕ, ◌≡◌, ◌≢◌, ap, false, none, some, [], arith, inl, inr, get_elem?, Option-cases}
use wazire.Base.Text.{Text, text_eq_iff}
use wazire.Base.Number.{Number}
use wazire.Base.Dict.{Dict, lookup, lookup-insert, lookup-delete, text_eq_refl}
use wazire.TakeExam.Answer.{Answer, AnswerValue, format_queued}
use wazire.TakeExam.Queue.{Page, save_succeeds, immediate_fails}
use wazire.TakeExam.Effects.{
  pending-save_succeeds, pending-save_fails, pending-process_queue, pending-handle_submit,
  pending-immediate_fails, in_flight-immediate_fails, in_flight-save_succeeds,
}
use wazire.TakeExam.Steps.{
  Event, answered, immediate_ok, immediate_failed, wake, save_ok, save_failed, submitted, submit_ok,
  submit_failed, System, step, Inv,
}

lookup-ne-nil : (q : Text) (m : Dict Answer) → lookup q m ≢ none → m ≢ []
unfolding lookup
lookup-ne-nil q m l = ground arith

queued_after_failure :
    (q : Text) (i : ℕ) (p : Page)
    → lookup q p.pending ≢ none
    → lookup q (immediate_fails i p).pending ≢ none
unfolding immediate_fails
queued_after_failure q i p l = elim (Option-cases (get_elem? p.immediate i)) [
  | inl missing ↦ rw (missing, immediate_fails) l
  | inr ((r, v), found) ↦
      rw (found, immediate_fails)
        (ground (arith, lookup-insert r q (format_queued (lookup r p.questions) v) p.pending))
]

queued_after_other_save :
    (q r : Text) (p : Page)
    → lookup q p.pending ≢ none
    → r ≢ q
    → lookup q (save_succeeds r p).pending ≢ none
queued_after_other_save q r p l n =
    ground (arith, pending-save_succeeds r p, lookup-delete r q p.pending, text_eq_iff r q)

-- From a page where the invariant holds, no event but the success of its own save takes a queued
-- question out of the queue.
pub queued_until_saved :
    (t : Number → Text) (e : Event) (s : System) (q : Text)
    → Inv s.page
    → lookup q s.page.pending ≢ none
    → e ≢ save_ok q
    → lookup q (step t e s).page.pending ≢ none
unfolding step
queued_until_saved t (answered r v) s q h l n = l
queued_until_saved t (immediate_ok i) s q h l n = l
queued_until_saved t (immediate_failed i reached) s q h l n = queued_after_failure q i s.page l
queued_until_saved t wake s q h l n = rw (pending-process_queue s.page) l
queued_until_saved t (save_ok r) s q h l n = elim (Option-cases (lookup r s.page.in_flight)) [
  | inl missing ↦ rw missing l
  | inr (a, found) ↦ rw found (queued_after_other_save q r s.page l (λ e. n (ap save_ok e)))
]
queued_until_saved t (save_failed r reached) s q h l n =
    elim (Option-cases (lookup r s.page.in_flight)) [
      | inl missing ↦ rw missing l
      | inr (a, found) ↦ rw found (rw (pending-save_fails r s.page) l)
    ]
queued_until_saved t submitted s q h l n =
    rw (pending-handle_submit s.page h (lookup-ne-nil q s.page.pending l)) l
queued_until_saved t submit_ok s q h l n = l
queued_until_saved t submit_failed s q h l n = l

save_ok_lem :
    (t : Number → Text) (q : Text) (a : Answer) (s : System)
    → lookup q s.page.in_flight ≡ some a
    → (lookup q (step t (save_ok q) s).server ≡ some a)
      × (lookup q (step t (save_ok q) s).page.pending ≡ none)
      × (lookup q (step t (save_ok q) s).page.in_flight ≡ none)
unfolding step
save_ok_lem t q a s o = rw o (
  simp (lookup-insert, text_eq_refl),
  simp (pending-save_succeeds, lookup-delete, text_eq_refl),
  simp (in_flight-save_succeeds, lookup-delete, text_eq_refl),
)

-- From a page where the invariant holds: a save of a new answer to a question fails while the
-- queued save of an older answer to it is outstanding, so the new one is queued; then the older
-- save succeeds. The server now has the older answer, and the new one is neither queued nor on its
-- way.
pub newer_answer_lost :
    (t : Number → Text) (s : System) (i : ℕ) (q : Text) (v : AnswerValue) (old : Answer)
    → Inv s.page
    → get_elem? s.page.immediate i ≡ some (q, v)
    → lookup q s.page.in_flight ≡ some old
    → let s' = step t (immediate_failed i false) s in
      let s'' = step t (save_ok q) s' in
      (lookup q s'.page.pending ≡ some (format_queued (lookup q s.page.questions) v))
      × (lookup q s''.server ≡ some old)
      × (lookup q s''.page.pending ≡ none)
      × (lookup q s''.page.in_flight ≡ none)
newer_answer_lost t s i q v old h f o =
    let s' = step t (immediate_failed i false) s in
    let o' : lookup q s'.page.in_flight ≡ some old =
      unfold step in rw (in_flight-immediate_fails i q old s.page h o) o in
    let (stored, gone, done) = save_ok_lem t q old s' o' in
    (
      unfold step in
          rw (pending-immediate_fails i q v s.page f) (simp (lookup-insert, text_eq_refl)),
      stored,
      gone,
      done,
    )
