-- ===== src/TakeExam/Drain.antt =====
-- The queue of the exam page empties when the network is back.
use wazire.Base.{
  ◌≡◌, refl, sym, ap, ◌∙◌, subst, false, not, Option, none, some, List, [], ◌∷◌, map, arith,
  is_empty, if◌then◌else◌, Option-cases, inl, inr,
}
use wazire.Base.Text.{Text, text_eq, text_eq_iff}
use wazire.Base.Number.{Number}
use wazire.Base.Dict.{
  Dict, lookup, delete, keys, contains, without, without-nil, without-delete, without-keys,
  delete_of_none, lookup-insert, lookup-delete, lookup-contains,
}
use wazire.TakeExam.Answer.{Answer}
use wazire.TakeExam.Queue.{process_queue}
use wazire.TakeExam.Effects.{
  pending-save_succeeds, in_flight-save_succeeds, processing-save_succeeds,
}
use wazire.TakeExam.Steps.{wake, save_ok, System, step, run, Inv}

-- A batch is under way that holds just the queue.
record IsSettled (s : System) (m : Dict Answer) : Type 0 where
  queued : s.page.pending ≡ m
  sent : s.page.in_flight ≡ m
  busy : s.page.processing ≡ not (is_empty m)

abbrev pub or_else : Option Answer → Option Answer → Option Answer
or_else none y = y
or_else (some x) y = some x

save_ok-IsSettled :
    (t : Number → Text) (k : Text) (s : System) (m : Dict Answer)
    → IsSettled s m
    → IsSettled (step t (save_ok k) s) (delete k m)
unfolding step
save_ok-IsSettled t k s m h = elim (Option-cases (lookup k s.page.in_flight)) [
  | inl missing ↦
      let absent = subst (λ x. lookup k x ≡ none) h.sent missing in
      rw missing (subst (IsSettled s) (sym (delete_of_none k m absent)) h)
  | inr (a, found) ↦ rw found (record {
    queued = pending-save_succeeds k s.page ∙ ap (delete k) h.queued;
    sent = in_flight-save_succeeds k s.page ∙ ap (delete k) h.sent;
    busy = ground (arith, h.busy, h.sent, processing-save_succeeds k s.page);
  })
]

server-save_ok :
    (t : Number → Text) (k q : Text) (s : System) (m : Dict Answer)
    → IsSettled s m
    → lookup q (step t (save_ok k) s).server
      ≡ (if text_eq k q then or_else (lookup k m) (lookup q s.server) else lookup q s.server)
unfolding step
server-save_ok t k q s m h = elim (Option-cases (lookup k s.page.in_flight)) [
  | inl missing ↦
      let absent = subst (λ x. lookup k x ≡ none) h.sent missing in
      rw missing (ground (arith, absent))
  | inr (a, found) ↦
      let present = subst (λ x. lookup k x ≡ some a) h.sent found in
      rw found (ground (arith, present, lookup-insert k q a s.server))
]

-- All saves of a batch succeed, in the order of `ks`.
saves-IsSettled :
    (t : Number → Text) (ks : List Text) (s : System) (m : Dict Answer)
    → IsSettled s m
    → IsSettled (run t (map save_ok ks) s) (without ks m)
unfolding run
saves-IsSettled t [] s m h = subst (IsSettled s) (sym (without-nil m)) h
saves-IsSettled t (k ∷ ks) s m h =
    subst (IsSettled _) (without-delete k ks m)
      (saves-IsSettled t ks (step t (save_ok k) s) (delete k m) (save_ok-IsSettled t k s m h))

server-saves :
    (t : Number → Text) (ks : List Text) (q : Text) (s : System) (m : Dict Answer)
    → IsSettled s m
    → lookup q (run t (map save_ok ks) s).server
      ≡ (if contains ks q then or_else (lookup q m) (lookup q s.server) else lookup q s.server)
unfolding run
server-saves t [] q s m h = refl
server-saves t (k ∷ ks) q s m h = ground (
  arith,
  server-saves t ks q (step t (save_ok k) s) (delete k m) (save_ok-IsSettled t k s m h),
  server-save_ok t k q s m h,
  lookup-delete k q m,
  text_eq_iff k q,
)

wake-IsSettled :
    (t : Number → Text) (s : System)
    → Inv s.page
    → s.page.processing ≡ false
    → IsSettled (step t wake s) s.page.pending
unfolding step process_queue
wake-IsSettled t s h idle = record {
  queued = ground arith;
  sent = ground arith;
  busy = ground arith;
}

-- From a page where the invariant holds and no batch is under way: one wake-up, after which every
-- save of the batch succeeds, leaves the queue empty and no batch under way, and the server has
-- for each question the answer that was queued, or what it had if none was.
pub wake_drains :
    (t : Number → Text) (s : System) (q : Text)
    → Inv s.page
    → s.page.processing ≡ false
    → let s' = run t (wake ∷ map save_ok (keys s.page.pending)) s in
      (s'.page.pending ≡ [])
      × (s'.page.processing ≡ false)
      × (lookup q s'.server ≡ or_else (lookup q s.page.pending) (lookup q s.server))
unfolding run
wake_drains t s q h idle =
    let m = s.page.pending in
    let w = step t wake s in
    let start = wake-IsSettled t s h idle in
    let end = saves-IsSettled t (keys m) w m start in
    let same : w.server ≡ s.server = unfold step in refl in
    (
      end.queued ∙ without-keys m,
      ground (arith, end.busy, without-keys m),
      (elim (Option-cases (lookup q m)) [
        | inl missing ↦ ground (arith, missing, same, server-saves t (keys m) q w m start)
        | inr (a, found) ↦
            ground
              (arith, found, same, server-saves t (keys m) q w m start, lookup-contains q m a found)
      ]),
    )
