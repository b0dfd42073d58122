-- ===== src/Muduo/EventLoop/Tests.antt =====
-- A loop between two threads, and rounds that queue more work.
use learn_note.Prelude.{ℕ, zero, suc, ◌<◌, ◌≡◌, ◌⊎◌, refl, true, false, List, [], ◌∷◌}
use learn_note.Muduo.EventLoop.{
  EventLoop, reads, queues, quits, written, do_pending_functors, loop, init, wakeup,
}
use learn_note.Muduo.EventLoop.Turns.{
  queueing, System, start, Reach, polling, queue_outside, poll_returns, swap, queue_inside,
  wake_outside, wake_inside, run_next, finish, here, next,
}
use learn_note.Muduo.EventLoop.Wakeup.{Inv, unread, start-Inv}
use learn_note.Muduo.EventLoop.Order.{do_pending_functors_lem}

-- Another thread queues 10; the loop wakes and runs it, and 20 is queued meanwhile.
abbrev tests_end : System ℕ
tests_end = record {
  loop = record {
    looping = false;
    quitting = false;
    thread_id = 1;
    calling_pending_functors = false;
    pending_functors = 20 ∷ [];
    signals = written ∷ written ∷ [];
  };
  phase = polling;
  callers = [];
  inside = false;
  queued = 10 ∷ 20 ∷ [];
  ran = 10 ∷ [];
}

two_turns : Reach (start 1) tests_end
unfolding init wakeup
two_turns =
    let queued : Reach (start 1) _ = next here (queue_outside 2 10 refl) in
    let swapped_out = next (next queued (poll_returns refl)) (swap refl refl) in
    let woken = next swapped_out (wake_outside [] (queueing 2) [] refl) in
    let more = next (next woken (queue_inside 20 (λ h. absurd (cc h)) refl)) (wake_inside refl) in
    next (next more (run_next 10 [] refl refl)) (finish refl refl)

start-Inv_example : Inv tests_end
start-Inv_example = start-Inv 1 two_turns

-- The functor `f` queues `f - 1`.
abbrev countdown : ℕ → List ℕ
countdown zero = []
countdown (suc f) = f ∷ []

abbrev waiting : EventLoop ℕ
waiting = record {
  looping = true;
  quitting = false;
  thread_id = 1;
  calling_pending_functors = false;
  pending_functors = 7 ∷ 0 ∷ 3 ∷ [];
  signals = [];
}

do_pending_functors_lem_example :
    ((do_pending_functors countdown waiting).1 ≡ 7 ∷ 0 ∷ 3 ∷ [])
    × ((do_pending_functors countdown waiting).0.pending_functors ≡ 6 ∷ 2 ∷ [])
    × ((do_pending_functors countdown waiting).0.calling_pending_functors ≡ false)
    × ((do_pending_functors countdown waiting).0.quitting ≡ false)
    × (((do_pending_functors countdown waiting).0.pending_functors ≡ [])
        ⊎ (0 < unread (do_pending_functors countdown waiting).0.signals))
do_pending_functors_lem_example = do_pending_functors_lem countdown waiting

three_rounds :
    (loop countdown waiting ((queues 5 ∷ []) ∷ (quits ∷ []) ∷ (reads ∷ []) ∷ [])).1
    ≡ 7 ∷ 0 ∷ 3 ∷ 5 ∷ 6 ∷ 2 ∷ 4 ∷ []
unfolding loop
three_rounds = refl
