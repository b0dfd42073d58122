-- ===== src/Muduo/LoopThread.antt =====
-- cpp_learning_projects/muduo-mgkl/src/EventLoopThread.cpp and src/Thread.cpp: a thread with its event
-- loop, and the owner that starts it, takes its loop and destroys it. What runs under the mutex is one
-- step. Nothing but the destructor quits the loop, and what the loop does otherwise is not modelled.
mod Together
pub mod Handover
mod Tests
use learn_note.Prelude.{Bool, true, false, ◌&&◌, ◌≡◌, ◌⊎◌, if◌then◌else◌}

-- The thread is not started, has started, has posted its semaphore, has set `loop_`, runs
-- `loop.loop()`, is back from it, and has ended.
pub data Thread : Type 0 where
  unborn born posted published looping stopped ended : Thread

-- The owner has made the object, waits for the semaphore, waits for `loop_`, has the loop, joins the
-- thread in the destructor, and has destroyed the object, after a join or without one.
pub data Owner : Type 0 where
  fresh launching waiting owning joining joined left : Owner

-- `has_loop` tells that `loop_` is not null; `quit` is the `quit_` of the loop.
pub record LoopThread : Type 0 where
  pub has_loop : Bool
  pub quit : Bool
  pub exiting : Bool
  pub started : Bool
  pub has_joined : Bool
  pub thread : Thread
  pub owner : Owner

unfoldable pub init : LoopThread
init = record {
  has_loop = false;
  quit = false;
  exiting = false;
  started = false;
  has_joined = false;
  thread = unborn;
  owner = fresh;
}

-- `Thread::start` as far as its `sem_wait`.
unfoldable pub start : LoopThread → LoopThread
start s = record s { started = true; thread = born; owner = launching }

-- What `threadFunc` does before it publishes its loop; the constructor of a loop sets `quit_`.
unfoldable pub post : LoopThread → LoopThread
post s = record s { quit = false; thread = posted }

unfoldable pub publish : LoopThread → LoopThread
publish s = record s { has_loop = true; thread = published }

-- `EventLoop::loop` as far as its first test.
unfoldable pub enter_loop : LoopThread → LoopThread
enter_loop s = record s { quit = false; thread = looping }

unfoldable pub leave_loop : LoopThread → LoopThread
leave_loop s = record s { thread = stopped }

unfoldable pub finish : LoopThread → LoopThread
finish s = record s { has_loop = false; thread = ended }

-- The destructor as far as the join.
unfoldable pub destroy : LoopThread → LoopThread
destroy s =
    let exiting = record s { exiting = true } in
    if s.has_loop
    then record exiting { quit = true; has_joined = true; owner = joining }
    else record exiting { owner = left }

-- `sem_post` has been called.
abbrev pub has_posted : Thread → Bool
has_posted unborn = false
has_posted born = false
has_posted _ = true

-- The turns of the owner and of the thread.
pub data Step (s : LoopThread) : LoopThread → Type 0 where
  starts : s.owner ≡ fresh → Step s (start s)
  posts : s.thread ≡ born → Step s (post s)
  launched :
      s.owner ≡ launching → has_posted s.thread ≡ true → Step s (record s { owner = waiting })
  publishes : s.thread ≡ posted → Step s (publish s)
  takes : s.owner ≡ waiting → s.has_loop ≡ true → Step s (record s { owner = owning })
  enters : s.thread ≡ published → Step s (enter_loop s)
  leaves : s.thread ≡ looping → s.quit ≡ true → Step s (leave_loop s)
  finishes : s.thread ≡ stopped → Step s (finish s)
  destroys_fresh : s.owner ≡ fresh → Step s (destroy s)
  destroys : s.owner ≡ owning → Step s (destroy s)
  joins : s.owner ≡ joining → s.thread ≡ ended → Step s (record s { owner = joined })

pub data Reach : LoopThread → Type 0 where
  here : Reach init
  next : {s t : LoopThread} → Reach s → Step s t → Reach t
