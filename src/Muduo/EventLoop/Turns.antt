-- ===== src/Muduo/EventLoop/Turns.antt =====
-- A loop, its thread and the other threads, step by step. A call from another thread takes two steps: the
-- first under the mutex, or the store to `quit_`, and the wake-up afterwards.
use learn_note.Prelude.{ℕ, ◌≡◌, ◌≢◌, Bool, true, false, List, [], ◌∷◌, ◌++◌}
use learn_note.Muduo.EventLoop.{
  EventLoop, init, is_in_loop_thread, handle_read, ask_quit, wake_to_quit, emplace, wake_to_run,
  swapped,
}

-- Where the loop's thread is: in `poll`, in the handlers, or in `doPendingFunctors` with these
-- functors still to run.
pub data Phase (F : Type 0) : Type 0 where
  polling handling : Phase F
  draining : List F → Phase F

-- A call by another thread that has done its first part: it has put in its functor, or has set
-- `quit_`, and has yet to wake the loop.
pub data Caller : Type 0 where
  queueing quits : ℕ → Caller

-- `callers` are the calls under way, and `inside` tells whether the loop's own thread has put in a
-- functor and has yet to test whether to wake itself. `queued` and `ran` are the functors queued and
-- run so far, oldest first.
pub record System (F : Type 0) : Type 0 where
  pub loop : EventLoop F
  pub phase : Phase F
  pub callers : List Caller
  pub inside : Bool
  pub queued : List F
  pub ran : List F

module _ {F : Type 0} where
  abbrev pub start : ℕ → System F
  start tid = record {
    loop = init tid;
    phase = polling;
    callers = [];
    inside = false;
    queued = [];
    ran = [];
  }

  -- The second part of a call.
  abbrev pub wake_for : EventLoop F → Caller → EventLoop F
  wake_for l (queueing tid) = wake_to_run l tid
  wake_for l (quits tid) = wake_to_quit l tid

  pub data Step (s : System F) : System F → Type 0 where
    -- Another thread puts in a functor, or sets `quit_`; it comes to the wake-up later.
    queue_outside :
        (tid : ℕ) (f : F)
        → is_in_loop_thread s.loop tid ≡ false
        → Step s (record s {
          loop = emplace s.loop f;
          callers = queueing tid ∷ s.callers;
          queued = s.queued ++ (f ∷ []);
        })
    quit_outside :
        (tid : ℕ)
        → is_in_loop_thread s.loop tid ≡ false
        → Step s (record s { loop = ask_quit s.loop; callers = quits tid ∷ s.callers })
    wake_outside :
        (xs : List Caller) (c : Caller) (ys : List Caller)
        → s.callers ≡ xs ++ (c ∷ ys)
        → Step s (record s { loop = wake_for s.loop c; callers = xs ++ ys })
    -- `poll` returns.
    poll_returns : s.phase ≡ polling → Step s (record s { phase = handling })
    -- A handler or a functor puts one in, and then tests whether to wake the loop; or it quits.
    queue_inside :
        (f : F)
        → s.phase ≢ polling
        → s.inside ≡ false
        → Step s
            (record s { loop = emplace s.loop f; inside = true; queued = s.queued ++ (f ∷ []) })
    wake_inside :
        s.inside ≡ true
        → Step s (record s { loop = wake_to_run s.loop s.loop.thread_id; inside = false })
    quit_inside :
        s.phase ≢ polling
        → s.inside ≡ false
        → Step s (record s { loop = wake_to_quit (ask_quit s.loop) s.loop.thread_id })
    -- A handler takes the signal.
    read_signal :
        s.phase ≡ handling → s.inside ≡ false → Step s (record s { loop = handle_read s.loop })
    -- `doPendingFunctors` swaps the queues; its functors run one after the other.
    swap :
        s.phase ≡ handling
        → s.inside ≡ false
        → Step s (record s { loop = swapped s.loop; phase = draining s.loop.pending_functors })
    run_next :
        (f : F) (fs : List F)
        → s.phase ≡ draining (f ∷ fs)
        → s.inside ≡ false
        → Step s (record s { phase = draining fs; ran = s.ran ++ (f ∷ []) })
    finish :
        s.phase ≡ draining []
        → s.inside ≡ false
        → Step s (record s {
          loop = record s.loop { calling_pending_functors = false };
          phase = polling;
        })

  pub data Reach (s : System F) : System F → Type 0 where
    here : Reach s s
    next : {t u : System F} → Reach s t → Step t u → Reach s u
