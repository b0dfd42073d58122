-- ===== src/Concurrency/Tests.antt =====
-- Runs of the programs.
use learn_note.Prelude.{◌<◌, ◌⊎◌, refl, true, [], ◌∷◌, arith}
use learn_note.Concurrency.Workers.{
  Pool, create, submit, set_exit_flag, empty, ready, take_task, work, Step, submits, exits, works,
  waiting, running, Reach, here, next,
}
use learn_note.Concurrency.Workers.Queue.{Inv, Reach-create-Inv}
use learn_note.Concurrency.Workers.Draining.{Drained, remaining, Reach-create-Drained}

-- Of two threads one runs the first task, while the second task waits and the pool is destroyed.
abbrev busy : Pool
busy = record {
  tasks = 1 ∷ [];
  exit_flag = true;
  workers = waiting ∷ running 0 ∷ [];
  submitted = 2;
  taken = 0 ∷ [];
  done = [];
}

busy-Reach : Reach (create 2 8) busy
unfolding create submit set_exit_flag ready empty work take_task
busy-Reach =
    next
      (next (next (next here (submits refl)) (submits refl))
        (works (waiting ∷ []) [] refl refl refl))
      (exits refl)

Reach-create-Inv_example : Inv 2 busy
Reach-create-Inv_example = Reach-create-Inv 2 8 busy-Reach

Reach-create-Drained_example :
    ((q : Pool) → Step busy q → remaining q < remaining busy)
    × (Drained busy ⊎ ((q : Pool) × Step busy q))
Reach-create-Drained_example = Reach-create-Drained 2 8 (omega arith) busy-Reach refl
