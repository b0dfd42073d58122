-- ===== src/Timer/Tests.antt =====
-- A timer with a periodic task, a repeated one and one that is cancelled.
use learn_note.Prelude.{◌≡◌, refl, true, false, List, [], ◌∷◌}
use learn_note.Timer.{Node, init, run_after, run_repeated, cancel, run_local}
use learn_note.Timer.History.{Event, adds_after, adds_repeated, cancels, turns, step, run}

abbrev unset : Node
unset = record {
  at = 0;
  id = 0;
  repeated_num = 0;
  is_period = false;
  is_repeated = false;
  period = 0;
}

abbrev history : List Event
history =
    adds_after 0 5 true unset
    ∷ adds_repeated 0 2000 1 unset
    ∷ adds_after 0 1 false unset
    ∷ cancels 2
    ∷ turns 3000000 3000000
    ∷ turns 3000000 3000000
    ∷ turns 3000000 3000000
    ∷ turns 6000000 6000000
    ∷ turns 6000000 6000000
    ∷ []

-- The cancelled task is skipped; the one repeated once passes twice.
run-history_ids : (run init history).1 ≡ 1 ∷ 0 ∷ 1 ∷ []
unfolding run step init run_after run_repeated cancel run_local
run-history_ids = refl
