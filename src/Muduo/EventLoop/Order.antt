-- ===== src/Muduo/EventLoop/Order.antt =====
-- What one round of `loop()` runs, and what it leaves for the next.
use learn_note.Prelude.{
  ℕ, ◌<◌, ◌≡◌, refl, sym, ap, ◌∙◌, ◌⊎◌, inl, inr, Bool, true, false, ◌||◌, List, [], ◌∷◌, ◌++◌,
  append-nil, append_assoc, arith, if-false,
}
use learn_note.Muduo.EventLoop.{
  EventLoop, Deed, reads, queues, quits, queue_in_loop, queue_all, deed, deeds, run_functors,
  swapped, do_pending_functors, rounds,
}
use learn_note.Muduo.EventLoop.Wakeup.{unread}

module _ {F : Type 0} where
  abbrev pub flat_map : (F → List F) → List F → List F
  flat_map body [] = []
  flat_map body (f ∷ fs) = body f ++ flat_map body fs

  -- The functors that handlers queue.
  abbrev pub queued_by : List (Deed F) → List F
  queued_by [] = []
  queued_by (reads ∷ ds) = queued_by ds
  queued_by (quits ∷ ds) = queued_by ds
  queued_by (queues f ∷ ds) = f ∷ queued_by ds

  abbrev pub quits_in : List (Deed F) → Bool
  quits_in [] = false
  quits_in (quits ∷ ds) = true
  quits_in (reads ∷ ds) = quits_in ds
  quits_in (queues f ∷ ds) = quits_in ds

  -- What queueing keeps, and where it leaves a signal.
  record Kept (l m : EventLoop F) : Type 0 where
    thread : m.thread_id ≡ l.thread_id
    quitting : m.quitting ≡ l.quitting
    looping : m.looping ≡ l.looping
    calling : m.calling_pending_functors ≡ l.calling_pending_functors

  queue_all-pending :
      (l : EventLoop F) (tid : ℕ) (fs : List F)
      → (queue_all l tid fs).pending_functors ≡ l.pending_functors ++ fs
  unfolding queue_all queue_in_loop
  queue_all-pending l tid [] = sym (append-nil l.pending_functors)
  queue_all-pending l tid (f ∷ fs) = ground (
    arith,
    queue_all-pending (queue_in_loop l tid f) tid fs,
    append_assoc l.pending_functors (f ∷ []) fs,
  )

  queue_all-Kept : (l : EventLoop F) (tid : ℕ) (fs : List F) → Kept l (queue_all l tid fs)
  unfolding queue_all queue_in_loop
  queue_all-Kept l tid [] = ground arith
  queue_all-Kept l tid (f ∷ fs) = ground (arith, queue_all-Kept (queue_in_loop l tid f) tid fs)

  -- Work is pending only with a signal.
  abbrev pub Signalled : EventLoop F → Type 0
  Signalled l = (l.pending_functors ≡ []) ⊎ (0 < unread l.signals)

  queue_all-Signalled :
      (l : EventLoop F) (tid : ℕ) (fs : List F)
      → l.calling_pending_functors ≡ true
      → Signalled l
      → Signalled (queue_all l tid fs)
  unfolding queue_all queue_in_loop
  queue_all-Signalled l tid [] c h = h
  queue_all-Signalled l tid (f ∷ fs) c h =
      queue_all-Signalled (queue_in_loop l tid f) tid fs (ground arith) (inr (ground arith))

  deed-pending :
      (l : EventLoop F) (d : Deed F)
      → (deed l d).pending_functors ≡ l.pending_functors ++ queued_by (d ∷ [])
  unfolding deed
  deed-pending l reads = sym (append-nil l.pending_functors)
  deed-pending l (queues f) = ground arith
  deed-pending l quits = ground (arith, append-nil l.pending_functors)

  queued_by-cons :
      (d : Deed F) (ds : List (Deed F)) → queued_by (d ∷ ds) ≡ queued_by (d ∷ []) ++ queued_by ds
  queued_by-cons reads ds = refl
  queued_by-cons (queues f) ds = refl
  queued_by-cons quits ds = refl

  deeds-pending :
      (l : EventLoop F) (ds : List (Deed F))
      → (deeds l ds).pending_functors ≡ l.pending_functors ++ queued_by ds
  unfolding deeds
  deeds-pending l [] = sym (append-nil l.pending_functors)
  deeds-pending l (d ∷ ds) =
      deeds-pending (deed l d) ds
      ∙ ap (λ q. q ++ queued_by ds) (deed-pending l d)
      ∙ append_assoc l.pending_functors (queued_by (d ∷ [])) (queued_by ds)
      ∙ ap (◌++◌ l.pending_functors) (sym (queued_by-cons d ds))

  deed-quitting :
      (l : EventLoop F) (d : Deed F) → (deed l d).quitting ≡ (quits_in (d ∷ []) || l.quitting)
  unfolding deed
  deed-quitting l reads = refl
  deed-quitting l (queues f) = ground arith
  deed-quitting l quits = ground arith

  deeds-quitting :
      (l : EventLoop F) (ds : List (Deed F)) → (deeds l ds).quitting ≡ (quits_in ds || l.quitting)
  unfolding deeds deed
  deeds-quitting l [] = refl
  deeds-quitting l (reads ∷ ds) = deeds-quitting (deed l reads) ds
  deeds-quitting l (queues f ∷ ds) =
      ground (arith, deeds-quitting (deed l (queues f)) ds, deed-quitting l (queues f))
  deeds-quitting l (quits ∷ ds) =
      ground (arith, deeds-quitting (deed l quits) ds, deed-quitting l quits)

module _ {F : Type 0} (body : F → List F) where
  run_functors-pending :
      (l : EventLoop F) (fs : List F)
      → (run_functors body l fs).pending_functors ≡ l.pending_functors ++ flat_map body fs
  unfolding run_functors
  run_functors-pending l [] = sym (append-nil l.pending_functors)
  run_functors-pending l (f ∷ fs) =
      run_functors-pending (queue_all l l.thread_id (body f)) fs
      ∙ ap (λ q. q ++ flat_map body fs) (queue_all-pending l l.thread_id (body f))
      ∙ append_assoc l.pending_functors (body f) (flat_map body fs)

  run_functors-Signalled :
      (l : EventLoop F) (fs : List F)
      → l.calling_pending_functors ≡ true
      → Signalled l
      → Signalled (run_functors body l fs)
  unfolding run_functors
  run_functors-Signalled l [] c h = h
  run_functors-Signalled l (f ∷ fs) c h =
      let k = queue_all-Kept l l.thread_id (body f) in
      run_functors-Signalled (queue_all l l.thread_id (body f)) fs (k.calling ∙ c)
        (queue_all-Signalled l l.thread_id (body f) c h)

  run_functors-quitting :
      (l : EventLoop F) (fs : List F) → (run_functors body l fs).quitting ≡ l.quitting
  unfolding run_functors
  run_functors-quitting l [] = refl
  run_functors-quitting l (f ∷ fs) =
      run_functors-quitting (queue_all l l.thread_id (body f)) fs
      ∙ Kept.quitting (queue_all-Kept l l.thread_id (body f))

  -- `doPendingFunctors` runs the functors that were pending, in order, and none that they queue:
  -- those are left pending, in order, and if there are any, the next `poll` returns at once.
  pub do_pending_functors_lem :
      (l : EventLoop F)
      → let (next, ran) = do_pending_functors body l in
        (ran ≡ l.pending_functors)
        × (next.pending_functors ≡ flat_map body l.pending_functors)
        × (next.calling_pending_functors ≡ false)
        × (next.quitting ≡ l.quitting)
        × Signalled next
  unfolding do_pending_functors
  do_pending_functors_lem l = (
    refl,
    run_functors-pending (swapped l) l.pending_functors,
    refl,
    run_functors-quitting (swapped l) l.pending_functors,
    run_functors-Signalled (swapped l) l.pending_functors refl (inl refl),
  )

  rounds-stopped :
      (l : EventLoop F) (dss : List (List (Deed F)))
      → l.quitting ≡ true
      → (rounds body l dss).1 ≡ []
  unfolding rounds
  rounds-stopped l [] h = refl
  rounds-stopped l (ds ∷ dss) h = rw h

  -- A handler that quits lets its round finish: the functors pending and those queued by the round's
  -- handlers run, in order, and no later round does anything.
  pub rounds-quits :
      (l : EventLoop F) (ds : List (Deed F)) (dss : List (List (Deed F)))
      → l.quitting ≡ false
      → quits_in ds ≡ true
      → (rounds body l (ds ∷ dss)).1 ≡ l.pending_functors ++ queued_by ds
  unfolding rounds
  rounds-quits l ds dss going q =
      let next = (do_pending_functors body (deeds l ds)).0 in
      let asked : next.quitting ≡ true =
        ground (arith, do_pending_functors_lem (deeds l ds), deeds-quitting l ds) in
      ap (λ (r : EventLoop F × List F). r.1) (if-false _ _ going)
      ∙ ap (◌++◌ (deeds l ds).pending_functors) (rounds-stopped next dss asked)
      ∙ append-nil _
      ∙ deeds-pending l ds
