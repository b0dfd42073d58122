-- ===== src/Timer/History.antt =====
-- What can happen to a timer.
use learn_note.Prelude.{ℕ, Bool, List, [], ◌∷◌, ◌++◌}
use learn_note.Timer.{
  Node, Timer, run_after, run_repeated, cancel, Turn, waits, waits_for, skips, passes, run_local,
}

-- Tasks are added, tasks are cancelled, and the timer's thread takes turns. `cancel` takes the lock of
-- the ids alone: it stands before or after the look of a turn for the id of its task.
pub data Event : Type 0 where
  adds_after : (now ms_time : ℕ) → Bool → Node → Event
  adds_repeated : (now ms_time repeated_num : ℕ) → Node → Event
  cancels : ℕ → Event
  turns : (now later : ℕ) → Event

abbrev pub passed : Turn → List ℕ
passed waits = []
passed (waits_for d) = []
passed (skips id) = []
passed (passes id) = id ∷ []

unfoldable pub step : Timer → Event → Timer × List ℕ
step t (adds_after now ms_time is_period old) = (run_after t now ms_time is_period old, [])
step t (adds_repeated now ms_time repeated_num old) =
    (run_repeated t now ms_time repeated_num old, [])
step t (cancels id) = (cancel t id, [])
step t (turns now later) = let (next, what) = run_local t now later in (next, passed what)

-- The timer after the events, and the ids of the tasks that passed.
unfoldable pub run : Timer → List Event → Timer × List ℕ
unfolding step
run t [] = (t, [])
run t (e ∷ es) = let (next, ids) = step t e in let (last, rest) = run next es in (last, ids ++ rest)
