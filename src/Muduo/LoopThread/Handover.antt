-- ===== src/Muduo/LoopThread/Handover.antt =====
-- What the owner gets and leaves behind.
use learn_note.Prelude.{
  ℕ, ◌+◌, ◌<◌, true, false, ◌≡◌, ◌⊎◌, inl, inr, refl, ap, ◌∙◌, Bool-cases, if-true, if-false,
}
use learn_note.Muduo.LoopThread.{
  Thread, unborn, born, posted, published, looping, stopped, ended, Owner, fresh, launching,
  waiting, owning, joining, joined, left, LoopThread, enter_loop, destroy, Step, starts, posts,
  launched, publishes, takes, enters, leaves, finishes, destroys_fresh, destroys, joins, Reach,
  next,
}
use learn_note.Muduo.LoopThread.Together.{lives, Reach-Inv}

-- Some turn can be taken.
pub Moves : LoopThread → Type 0
Moves s = (t : LoopThread) × Step s t

-- The owner joins a thread whose loop does not know that it shall quit.
pub record IsLost (s : LoopThread) : Type 0 where
  pub owner : s.owner ≡ joining
  pub thread : s.thread ≡ looping
  pub quit : s.quit ≡ false

-- The turns that are left.
abbrev owner_turns : Owner → ℕ
owner_turns fresh = 5
owner_turns launching = 4
owner_turns waiting = 3
owner_turns owning = 2
owner_turns joining = 1
owner_turns joined = 0
owner_turns left = 0

abbrev thread_turns : Thread → ℕ
thread_turns unborn = 6
thread_turns born = 5
thread_turns posted = 4
thread_turns published = 3
thread_turns looping = 2
thread_turns stopped = 1
thread_turns ended = 0

pub remaining : LoopThread → ℕ
remaining s = owner_turns s.owner + thread_turns s.thread

-- A lost `quit` stops both.
lost_stuck : {s t : LoopThread} → Step s t → IsLost s → ⊥
lost_stuck (starts h) l = absurd (cc (h, l.owner))
lost_stuck (posts h) l = absurd (cc (h, l.thread))
lost_stuck (launched h p) l = absurd (cc (h, l.owner))
lost_stuck (publishes h) l = absurd (cc (h, l.thread))
lost_stuck (takes h p) l = absurd (cc (h, l.owner))
lost_stuck (enters h) l = absurd (cc (h, l.thread))
lost_stuck (leaves h q) l = absurd (cc (q, l.quit))
lost_stuck (finishes h) l = absurd (cc (h, l.thread))
lost_stuck (destroys_fresh h) l = absurd (cc (h, l.owner))
lost_stuck (destroys h) l = absurd (cc (h, l.owner))
lost_stuck (joins h e) l = absurd (cc (e, l.thread))

destroy-thread : (s : LoopThread) → (destroy s).thread ≡ s.thread
unfolding destroy
destroy-thread s = elim (Bool-cases s.has_loop) [
  | inl h ↦ ap (λ (d : LoopThread). d.thread) (if-true _ _ h)
  | inr h ↦ ap (λ (d : LoopThread). d.thread) (if-false _ _ h)
]

-- What holds whenever the two may be seen.
pub record Sound (s : LoopThread) : Type 0 where
  pub handed : s.owner ≡ owning → (s.has_loop ≡ true) × (lives s.thread ≡ true)
  pub after_join : s.owner ≡ joined → s.thread ≡ ended
  pub after_leave : s.owner ≡ left → s.thread ≡ unborn
  pub goes_on : (Moves s ⊎ IsLost s) ⊎ ((s.owner ≡ joined) ⊎ (s.owner ≡ left))
  pub fewer : (t : LoopThread) → Step s t → remaining t < remaining s

-- An owner that destroys the object after its thread has published the loop, and before the loop
-- starts, waits for ever: `loop()` sets `quit_` back, and nobody sets it again.
pub quit-enter_loop :
    (s : LoopThread)
    → Reach s
    → s.owner ≡ owning
    → s.thread ≡ published
    → Reach (enter_loop (destroy s))
      × ((enter_loop (destroy s)).owner ≡ joining)
      × ¬ ((t : LoopThread) × Step (enter_loop (destroy s)) t)
unfolding enter_loop destroy
quit-enter_loop s r o h =
    let i = Reach-Inv r in
    let has : s.has_loop ≡ true = i.alive ∙ ap lives h in
    let joins_it : (destroy s).owner ≡ joining =
      ap (λ (d : LoopThread). d.owner) (if-true _ _ has) in
    (
      next (next r (destroys o)) (enters (destroy-thread s ∙ h)),
      joins_it,
      λ (t, step). lost_stuck step (record { owner = joins_it; thread = refl; quit = refl }),
    )
