-- ===== src/Muduo/EventLoop.antt =====
-- cpp_learning_projects/muduo-mgkl/src/EventLoop.cpp and include/EventLoop.hpp: the queue of functors
-- that other threads hand to a loop, and the eventfd that wakes it. A functor is a value of any type;
-- what it queues when it runs is an argument. The mutex makes each access to the queue one step; what
-- follows its release is another.
pub mod Order
pub mod Turns
pub mod Wakeup
mod Tests
use learn_note.Prelude.{ℕ, ◌==◌, Bool, true, false, not, ◌||◌, List, [], ◌∷◌, ◌++◌, if◌then◌else◌}

-- What was done to the eventfd: `wakeup()` writes to it, `handleRead()` reads it.
pub data Signal : Type 0 where
  written taken : Signal

-- `signals` are the accesses to the eventfd so far, newest first.
pub record EventLoop (F : Type 0) : Type 0 where
  pub looping : Bool
  pub quitting : Bool
  pub thread_id : ℕ
  pub calling_pending_functors : Bool
  pub pending_functors : List F
  pub signals : List Signal

-- What an event handler does to its own loop, in the loop's thread: it reads the eventfd, queues a
-- functor, or quits.
pub data Deed (F : Type 0) : Type 0 where
  reads : Deed F
  queues : F → Deed F
  quits : Deed F

module _ {F : Type 0} where
  unfoldable pub init : ℕ → EventLoop F
  init thread_id = record {
    looping = false;
    quitting = false;
    thread_id = thread_id;
    calling_pending_functors = false;
    pending_functors = [];
    signals = [];
  }

  -- `tid` is the thread that calls.
  abbrev pub is_in_loop_thread : EventLoop F → ℕ → Bool
  is_in_loop_thread l tid = l.thread_id == tid

  unfoldable pub wakeup : EventLoop F → EventLoop F
  wakeup l = record l { signals = written ∷ l.signals }

  unfoldable pub handle_read : EventLoop F → EventLoop F
  handle_read l = record l { signals = taken ∷ l.signals }

  -- `quit` in its two parts: it sets `quit_`, and wakes the loop from another thread.
  abbrev pub ask_quit : EventLoop F → EventLoop F
  ask_quit l = record l { quitting = true }

  abbrev pub wake_to_quit : EventLoop F → ℕ → EventLoop F
  wake_to_quit l tid = if not (is_in_loop_thread l tid) then wakeup l else l

  unfoldable pub quit : EventLoop F → ℕ → EventLoop F
  unfolding wakeup
  quit l tid = wake_to_quit (ask_quit l) tid

  -- `queueInLoop` in its two parts: under the mutex the functor is put in; after it is released, the
  -- loop is woken.
  abbrev pub emplace : EventLoop F → F → EventLoop F
  emplace l cb = record l { pending_functors = l.pending_functors ++ (cb ∷ []) }

  abbrev pub wake_to_run : EventLoop F → ℕ → EventLoop F
  wake_to_run l tid =
      if not (is_in_loop_thread l tid) || l.calling_pending_functors then wakeup l else l

  unfoldable pub queue_in_loop : EventLoop F → ℕ → F → EventLoop F
  unfolding wakeup
  queue_in_loop l tid cb = wake_to_run (emplace l cb) tid

  -- The functors that run at once, and the loop with what was queued.
  unfoldable pub run_in_loop : EventLoop F → ℕ → F → EventLoop F × List F
  unfolding queue_in_loop
  run_in_loop l tid cb =
      if is_in_loop_thread l tid then (l, cb ∷ []) else (queue_in_loop l tid cb, [])

  unfoldable pub queue_all : EventLoop F → ℕ → List F → EventLoop F
  unfolding queue_in_loop
  queue_all l tid [] = l
  queue_all l tid (f ∷ fs) = queue_all (queue_in_loop l tid f) tid fs

  -- `functors.swap(pendingFunctors_)`.
  abbrev pub swapped : EventLoop F → EventLoop F
  swapped l = record l { calling_pending_functors = true; pending_functors = [] }

  unfoldable pub deed : EventLoop F → Deed F → EventLoop F
  unfolding handle_read queue_in_loop quit
  deed l reads = handle_read l
  deed l (queues f) = queue_in_loop l l.thread_id f
  deed l quits = quit l l.thread_id

  unfoldable pub deeds : EventLoop F → List (Deed F) → EventLoop F
  unfolding deed
  deeds l [] = l
  deeds l (d ∷ ds) = deeds (deed l d) ds

-- `body f` are the functors that `f` queues on its own loop while it runs.
module _ {F : Type 0} (body : F → List F) where
  unfoldable pub run_functors : EventLoop F → List F → EventLoop F
  unfolding queue_all
  run_functors l [] = l
  run_functors l (f ∷ fs) = run_functors (queue_all l l.thread_id (body f)) fs

  -- The functors that run, in order, and the loop afterwards.
  unfoldable pub do_pending_functors : EventLoop F → EventLoop F × List F
  unfolding run_functors
  do_pending_functors l = (
    record (run_functors (swapped l) l.pending_functors) { calling_pending_functors = false },
    l.pending_functors,
  )

  -- The rounds of `loop()`, each with what the handlers of its active channels do; it ends where
  -- `quit_` is set, or with the rounds. Beside the loop, the functors that have run.
  unfoldable pub rounds : EventLoop F → List (List (Deed F)) → EventLoop F × List F
  unfolding deeds do_pending_functors
  rounds l [] = (l, [])
  rounds l (ds ∷ dss) =
      let (next, ran) = do_pending_functors (deeds l ds) in
      let (last, rest) = rounds next dss in
      if l.quitting then (record l { looping = false }, []) else (last, ran ++ rest)

  unfoldable pub loop : EventLoop F → List (List (Deed F)) → EventLoop F × List F
  unfolding rounds
  loop l dss = rounds (record l { looping = true; quitting = false }) dss
