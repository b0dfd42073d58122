-- ===== src/Muduo/LoopThread/Together.antt =====
-- Where the owner and the thread can be at the same time.
use learn_note.Prelude.{Bool, true, false, ◌≡◌, ◌⊎◌, inr, refl, ap, ◌∙◌, arith}
use learn_note.Muduo.LoopThread.{
  Thread, unborn, born, posted, published, looping, stopped, ended, Owner, fresh, launching,
  waiting, owning, joining, joined, left, LoopThread, init, start, post, publish, enter_loop,
  leave_loop, finish, destroy, Step, starts, posts, launched, publishes, takes, enters, leaves,
  finishes, destroys_fresh, destroys, joins, Reach, here, next,
}

-- Whether the two can be where they are at the same time: the owner waits for a thread that has not
-- published, or may have; it has a loop that lives; and what it joined has ended.
abbrev pub agree : Owner → Thread → Bool
agree fresh unborn = true
agree launching born = true
agree launching posted = true
agree launching published = true
agree launching looping = true
agree waiting posted = true
agree waiting published = true
agree waiting looping = true
agree owning published = true
agree owning looping = true
agree joining published = true
agree joining looping = true
agree joining stopped = true
agree joining ended = true
agree joined ended = true
agree left unborn = true
agree _ _ = false

-- `loop_` is set from the publication on to the end.
abbrev pub lives : Thread → Bool
lives published = true
lives looping = true
lives stopped = true
lives _ = false

pub record Inv (s : LoopThread) : Type 0 where
  pub agrees : agree s.owner s.thread ≡ true
  pub alive : s.has_loop ≡ lives s.thread
  pub quits : s.quit ≡ true → s.owner ≡ joining ⊎ s.owner ≡ joined

init-Inv : Inv init
unfolding init
init-Inv = record { agrees = refl; alive = refl; quits = λ h. absurd (cc h) }

step-Inv : {s t : LoopThread} → Step s t → Inv s → Inv t
unfolding start post publish enter_loop leave_loop finish destroy
step-Inv {s = s} (starts h) i = record {
  agrees = refl;
  alive = ground (arith, h, i.agrees, i.alive);
  quits = λ q. ground (arith, h, q, i.quits);
}
step-Inv {s = s} (posts h) i = record {
  agrees = ground (arith, h, i.agrees);
  alive = ground (arith, h, i.alive);
  quits = λ q. absurd (cc q);
}
step-Inv {s = s} (launched h p) i = record {
  agrees = ground (arith, h, p, i.agrees);
  alive = i.alive;
  quits = λ q. ground (arith, h, q, i.quits);
}
step-Inv {s = s} (publishes h) i = record {
  agrees = ground (arith, h, i.agrees);
  alive = refl;
  quits = i.quits;
}
step-Inv {s = s} (takes h p) i = record {
  agrees = ground (arith, h, p, i.agrees, i.alive);
  alive = i.alive;
  quits = λ q. ground (arith, h, q, i.quits);
}
step-Inv {s = s} (enters h) i = record {
  agrees = ground (arith, h, i.agrees);
  alive = i.alive ∙ ap lives h;
  quits = λ q. absurd (cc q);
}
step-Inv {s = s} (leaves h q) i = record {
  agrees = ground (arith, h, q, i.agrees, i.quits);
  alive = ground (arith, h, i.alive);
  quits = i.quits;
}
step-Inv {s = s} (finishes h) i = record {
  agrees = ground (arith, h, i.agrees);
  alive = refl;
  quits = i.quits;
}
step-Inv {s = s} (destroys_fresh h) i = record {
  agrees = ground (arith, h, i.agrees, i.alive);
  alive = ground (arith, h, i.agrees, i.alive);
  quits = λ q. ground (arith, h, q, i.agrees, i.alive, i.quits);
}
step-Inv {s = s} (destroys h) i = record {
  agrees = ground (arith, h, i.agrees, i.alive);
  alive = ground (arith, h, i.agrees, i.alive);
  quits = λ q. ground (arith, h, q, i.agrees, i.alive, i.quits);
}
step-Inv {s = s} (joins h e) i = record {
  agrees = ground (arith, h, e, i.agrees);
  alive = i.alive;
  quits = λ q. inr refl;
}

pub Reach-Inv : {s : LoopThread} → Reach s → Inv s
Reach-Inv here = init-Inv
Reach-Inv (next r h) = step-Inv h (Reach-Inv r)
