-- ===== src/Muduo/EventLoop/Wakeup.antt =====
-- No functor is lost, run twice or run out of turn, and the loop never waits for events with work queued
-- unless a signal to wake it is there or about to be written.
use learn_note.Prelude.{
  ℕ, ◌+◌, ◌<◌, suc, ◌==◌, ◌≡◌, ◌≢◌, refl, sym, subst, ◌∙◌, ◌⊎◌, inl, inr, Bool, true, false, List,
  [], ◌∷◌, ◌++◌, length, append-nil, append_assoc, arith,
}
use learn_note.Muduo.EventLoop.{
  Signal, written, taken, EventLoop, init, handle_read, wakeup, ask_quit, wake_to_quit, emplace,
  wake_to_run,
}
use learn_note.Muduo.EventLoop.Turns.{
  Phase, polling, handling, draining, Caller, queueing, quits, System, start, wake_for, Step,
  queue_outside, quit_outside, wake_outside, poll_returns, queue_inside, wake_inside, quit_inside,
  read_signal, swap, run_next, finish, Reach, here, next,
}

-- The writes to the eventfd that no read has taken yet: `poll` returns at once while there are any.
abbrev pub unread : List Signal → ℕ
unread [] = 0
unread (written ∷ ss) = suc (unread ss)
unread (taken ∷ ss) = 0

-- The calls of threads other than `self`.
abbrev Outside : ℕ → List Caller → Type 0
Outside self [] = Unit {0}
Outside self (queueing tid ∷ cs) = ((self == tid) ≡ false) × Outside self cs
Outside self (quits tid ∷ cs) = ((self == tid) ≡ false) × Outside self cs

Outside-append :
    (self : ℕ) (xs : List Caller) (c : Caller) (ys : List Caller)
    → Outside self (xs ++ (c ∷ ys))
    → Outside self (c ∷ []) × Outside self (xs ++ ys)
Outside-append self [] (queueing tid) ys o = ((o.0, tt), o.1)
Outside-append self [] (quits tid) ys o = ((o.0, tt), o.1)
Outside-append self (queueing x ∷ xs) c ys o =
    let r = Outside-append self xs c ys o.1 in (r.0, (o.0, r.1))
Outside-append self (quits x ∷ xs) c ys o =
    let r = Outside-append self xs c ys o.1 in (r.0, (o.0, r.1))

module _ {F : Type 0} where
  -- The functors taken out of the queue that have yet to run.
  abbrev taken_out : Phase F → List F
  taken_out polling = []
  taken_out handling = []
  taken_out (draining fs) = fs

  abbrev is_draining : Phase F → Bool
  is_draining polling = false
  is_draining handling = false
  is_draining (draining fs) = true

  -- Nothing is queued, or a signal is there, or a call that will write one is under way.
  abbrev pub Signalled : EventLoop F → List Caller → Type 0
  Signalled l cs = (l.pending_functors ≡ []) ⊎ (0 < unread l.signals + length cs)

  -- What the loop may rely on, outside the handlers.
  abbrev pub Awake : Phase F → Bool → EventLoop F → List Caller → Type 0
  Awake handling b l cs = Unit {0}
  Awake polling b l cs = Signalled l cs
  Awake (draining fs) b l cs = (b ≡ true) ⊎ Signalled l cs

  pub record Inv (s : System F) : Type 0 where
    pub flag : s.loop.calling_pending_functors ≡ is_draining s.phase
    pub order : s.ran ++ (taken_out s.phase ++ s.loop.pending_functors) ≡ s.queued
    pub outside : Outside s.loop.thread_id s.callers
    pub awake : Awake s.phase s.inside s.loop s.callers

  snoc_order :
      (a b c q : List F) (f : F) → a ++ (b ++ c) ≡ q → a ++ (b ++ (c ++ (f ∷ []))) ≡ q ++ (f ∷ [])
  snoc_order a b c q f e = simp (sym e, append_assoc)

  -- Another thread's call always ends with a write.
  wake_for-wakeup :
      (l : EventLoop F) (c : Caller) → Outside l.thread_id (c ∷ []) → wake_for l c ≡ wakeup l
  wake_for-wakeup l (queueing tid) o = ground arith
  wake_for-wakeup l (quits tid) o = ground arith

  -- With a call under way, or a signal, the loop is awake in every phase.
  signal-Awake :
      (ph : Phase F) (b : Bool) (l : EventLoop F) (cs : List Caller)
      → 0 < unread l.signals + length cs
      → Awake ph b l cs
  signal-Awake handling b l cs h = tt
  signal-Awake polling b l cs h = inr h
  signal-Awake (draining fs) b l cs h = inr (inr h)

  inside-Awake :
      (ph : Phase F) (l : EventLoop F) (cs : List Caller) → ph ≢ polling → Awake ph true l cs
  inside-Awake handling l cs busy = tt
  inside-Awake polling l cs busy = absurd (busy refl)
  inside-Awake (draining fs) l cs busy = inl refl

  -- The test of the loop's own thread writes in `doPendingFunctors`, and does nothing elsewhere.
  wake_inside-Awake :
      (ph : Phase F) (b : Bool) (l : EventLoop F) (cs : List Caller)
      → l.calling_pending_functors ≡ is_draining ph
      → Awake ph b l cs
      → Awake ph false (wake_to_run l l.thread_id) cs
  unfolding wakeup
  wake_inside-Awake handling b l cs e a = tt
  wake_inside-Awake polling b l cs e a = ground arith
  wake_inside-Awake (draining fs) b l cs e a = inr (inr (ground arith))

  quit_inside-keeps : (l : EventLoop F) → wake_to_quit (ask_quit l) l.thread_id ≡ ask_quit l
  quit_inside-keeps l = ground arith

  quit_inside-Awake :
      (ph : Phase F) (b : Bool) (l : EventLoop F) (cs : List Caller)
      → Awake ph b l cs
      → Awake ph b (ask_quit l) cs
  quit_inside-Awake handling b l cs a = tt
  quit_inside-Awake polling b l cs a = a
  quit_inside-Awake (draining fs) b l cs a = a

  wake_keeps :
      (l : EventLoop F) (tid : ℕ)
      → ((wake_to_run l tid).calling_pending_functors ≡ l.calling_pending_functors)
        × ((wake_to_run l tid).pending_functors ≡ l.pending_functors)
        × ((wake_to_run l tid).thread_id ≡ l.thread_id)
  unfolding wakeup
  wake_keeps l tid = ground arith

  emplace-order :
      {s : System F} (f : F)
      → Inv s
      → s.ran ++ (taken_out s.phase ++ (emplace s.loop f).pending_functors) ≡ s.queued ++ (f ∷ [])
  emplace-order {s} f v =
      snoc_order s.ran (taken_out s.phase) s.loop.pending_functors s.queued f v.order

  wakeup-Inv :
      (s : System F) (c : Caller) (cs : List Caller)
      → Outside s.loop.thread_id (c ∷ [])
      → Outside s.loop.thread_id cs
      → Inv s
      → Inv (record s { loop = wake_for s.loop c; callers = cs })
  unfolding wakeup
  wakeup-Inv s c cs o os v =
      subst (λ l. Inv (record s { loop = l; callers = cs })) (sym (wake_for-wakeup s.loop c o))
        (record {
          flag = v.flag;
          order = v.order;
          outside = os;
          awake = signal-Awake s.phase s.inside (wakeup s.loop) cs (ground arith);
        })

  Step-Inv : {s t : System F} → Step s t → Inv s → Inv t
  unfolding handle_read
  Step-Inv {s} (queue_outside tid f out) v = record {
    flag = v.flag;
    order = emplace-order f v;
    outside = (out, v.outside);
    awake = signal-Awake s.phase s.inside _ (queueing tid ∷ s.callers) (omega arith);
  }
  Step-Inv {s} (quit_outside tid out) v = record {
    flag = v.flag;
    order = v.order;
    outside = (out, v.outside);
    awake = signal-Awake s.phase s.inside _ (quits tid ∷ s.callers) (omega arith);
  }
  Step-Inv {s} (wake_outside xs c ys e) v =
      let o =
        Outside-append s.loop.thread_id xs c ys (subst (Outside s.loop.thread_id) e v.outside) in
      wakeup-Inv s c (xs ++ ys) o.0 o.1 v
  Step-Inv {s} (poll_returns e) v = record {
    flag = ground arith;
    order = ground arith;
    outside = v.outside;
    awake = tt;
  }
  Step-Inv {s} (queue_inside f busy e) v = record {
    flag = v.flag;
    order = emplace-order f v;
    outside = v.outside;
    awake = inside-Awake s.phase _ s.callers busy;
  }
  Step-Inv {s} (wake_inside e) v =
      let k = wake_keeps s.loop s.loop.thread_id in
      record {
        flag = k.0 ∙ v.flag;
        order = rw k.1 v.order;
        outside = subst (λ i. Outside i s.callers) (sym k.2) v.outside;
        awake = wake_inside-Awake s.phase s.inside s.loop s.callers v.flag v.awake;
      }
  Step-Inv {s} (quit_inside busy e) v =
      subst (λ l. Inv (record s { loop = l })) (sym (quit_inside-keeps s.loop))
        (record {
          flag = v.flag;
          order = v.order;
          outside = v.outside;
          awake = quit_inside-Awake s.phase s.inside s.loop s.callers v.awake;
        })
  Step-Inv {s} (read_signal e i) v = record {
    flag = v.flag;
    order = v.order;
    outside = v.outside;
    awake = rw e tt;
  }
  Step-Inv {s} (swap e i) v = record {
    flag = refl;
    order = rw append-nil (rw e at v.order);
    outside = v.outside;
    awake = inr (inl refl);
  }
  Step-Inv {s} (run_next f fs e i) v = record {
    flag = ground arith;
    order = append_assoc s.ran (f ∷ []) (fs ++ s.loop.pending_functors) ∙ (rw e at v.order);
    outside = v.outside;
    awake = ground arith;
  }
  Step-Inv {s} (finish e i) v = record {
    flag = refl;
    order = ground arith;
    outside = v.outside;
    awake = ground arith;
  }

  Reach-Inv : {s t : System F} → Inv s → Reach s t → Inv t
  Reach-Inv v here = v
  Reach-Inv v (next r st) = Step-Inv st (Reach-Inv v r)

  -- However its thread and the others take turns, a loop runs each functor queued once and in the
  -- order of queueing: those that ran, those taken out and those pending are those queued. And
  -- whenever it is in `poll` with a functor pending, the eventfd holds a signal that wakes it, or
  -- another thread is between the first part of `queueInLoop` or `quit` and the write of one.
  pub start-Inv : (tid : ℕ) {s : System F} → Reach (start tid) s → Inv s
  unfolding init
  start-Inv tid r =
      Reach-Inv (record { flag = refl; order = refl; outside = tt; awake = inl refl }) r
