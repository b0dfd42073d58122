-- ===== src/Timer.antt =====
-- cpp_learning_projects/Timer-mgkl/include/timer.h and include/hash_map.h: the tasks that wait for their
-- time, and the ids of those that are not cancelled. Times are in nanoseconds, and each read of the clock
-- is an argument. The line that would post the callback of a task is commented out in the source, so that
-- no callback runs: what a turn does with its task ends at the unlock. The times that callers give are not
-- negative.
pub mod History
pub mod Heap
pub mod Repeat
mod Tests
use learn_note.Prelude.{
  ℕ, ◌+◌, ◌-◌, ◌*◌, ◌==◌, Bool, true, false, not, ◌&&◌, List, [], ◌∷◌, if◌then◌else◌, ltb, leb,
}

-- TimerNode.
pub record Node : Type 0 where
  pub at : ℕ
  pub id : ℕ
  pub repeated_num : ℕ
  pub is_period : Bool
  pub is_repeated : Bool
  pub period : ℕ

-- `queue` is `tm_queue_` in the order of its times, `ids` the keys of `tm_id_state_map_`, whose values
-- are all `IdState::Runing`; an id does not reach 2^31.
pub record Timer : Type 0 where
  pub queue : List Node
  pub running : Bool
  pub next_id : ℕ
  pub ids : List ℕ

abbrev pub millisecond : ℕ
millisecond = 1000000

unfoldable pub init : Timer
init = record { queue = []; running = true; next_id = 0; ids = [] }

unfoldable pub exist : ℕ → List ℕ → Bool
exist k [] = false
exist k (i ∷ is) = if i == k then true else exist k is

unfoldable pub emplace : ℕ → List ℕ → List ℕ
unfolding exist
emplace k is = if exist k is then is else k ∷ is

unfoldable pub erase : ℕ → List ℕ → List ℕ
erase k [] = []
erase k (i ∷ is) = let rest = erase k is in if i == k then rest else i ∷ rest

-- `tm_queue_.push`: of nodes with the same time, the older stands first here.
unfoldable pub push : Node → List Node → List Node
push n [] = n ∷ []
push n (m ∷ ms) = let rest = push n ms in if ltb n.at m.at then n ∷ m ∷ ms else m ∷ rest

abbrev enter : Timer → Node → Timer
enter t n = record t {
  queue = push n t.queue;
  next_id = t.next_id + 1;
  ids = emplace t.next_id t.ids;
}

-- `old` stands for what is in the fields that the function leaves unset.
unfoldable pub run_after : Timer → (now ms_time : ℕ) → (is_period : Bool) → (old : Node) → Timer
unfolding push emplace
run_after t now ms_time is_period old = enter t (record old {
  at = now + ms_time * millisecond;
  id = t.next_id;
  is_period = is_period;
  period = ms_time * millisecond;
})

-- The period is made of microseconds.
unfoldable pub run_repeated : Timer → (now ms_time repeated_num : ℕ) → (old : Node) → Timer
unfolding push emplace
run_repeated t now ms_time repeated_num old = enter t (record old {
  at = now + ms_time * 1000;
  id = t.next_id;
  repeated_num = repeated_num;
  is_repeated = true;
  period = ms_time * 1000;
})

unfoldable pub cancel : Timer → ℕ → Timer
unfolding erase
cancel t id = record t { ids = erase id t.ids }

-- What one turn of `run_local` comes to. A task passes where the turn finds its id and comes to the
-- unlock.
pub data Turn : Type 0 where
  waits : Turn
  waits_for : ℕ → Turn
  skips : ℕ → Turn
  passes : ℕ → Turn

-- A periodic or repeated task goes back to the queue; `later` is the second read of the clock.
unfoldable pub again : Timer → Node → (later : ℕ) → Timer
unfolding push
again t n later =
    if n.is_period
    then record t { queue = push (record n { at = later + n.period }) t.queue }
    else (if n.is_repeated && ltb 0 n.repeated_num
        then record t {
          queue =
              push (record n { at = later + n.period; repeated_num = n.repeated_num - 1 }) t.queue;
        }
        else t)

unfoldable pub popped : Timer → Node → (later : ℕ) → Timer × Turn
unfolding exist again
popped t n later =
    if not (exist n.id t.ids) then (t, skips n.id) else (again t n later, passes n.id)

unfoldable pub turn : List Node → Timer → (now later : ℕ) → Timer × Turn
unfolding popped
turn [] t now later = (t, waits)
turn (n ∷ rest) t now later =
    if leb (now + millisecond) n.at
    then (t, waits_for (n.at - now))
    else popped (record t { queue = rest }) n later

-- One turn of the loop of `run_local`.
unfoldable pub run_local : Timer → (now later : ℕ) → Timer × Turn
unfolding turn
run_local t now later = turn t.queue t now later
