-- ===== src/Timer/Heap.antt =====
-- The queue is in the order of its times, and each turn serves its first task.
use learn_note.Prelude.{ℕ, ◌+◌, ◌≤◌, ◌<◌, ◌≡◌, true, false, List, [], ◌∷◌}
use learn_note.Timer.{Node, Timer, millisecond, exist, Turn, waits, waits_for, skips, passes}

abbrev pub AllLater : ℕ → List Node → Type 0
AllLater a [] = Unit {0}
AllLater a (m ∷ ms) = (a ≤ m.at) × AllLater a ms

abbrev pub Sorted : List Node → Type 0
Sorted [] = Unit {0}
Sorted (n ∷ ns) = AllLater n.at ns × Sorted ns

-- The task that comes first in a queue.
pub record First (q : List Node) (n : Node) : Type 0 where
  pub rest : List Node
  pub split : q ≡ n ∷ rest
  pub least : AllLater n.at rest

-- What a turn may come to, with the queue, the running ids and the time that it finds: it waits for the
-- first task if that is a millisecond off or more, and else passes it or, if it was cancelled, skips it.
abbrev pub Serves : List Node → List ℕ → ℕ → Turn → Type 0
Serves q ids now waits = q ≡ []
Serves q ids now (waits_for d) = (n : Node) × First q n × (n.at ≡ now + d) × (millisecond ≤ d)
Serves q ids now (skips id) =
    (n : Node) × First q n × (n.id ≡ id) × (n.at < now + millisecond) × (exist id ids ≡ false)
Serves q ids now (passes id) =
    (n : Node) × First q n × (n.id ≡ id) × (n.at < now + millisecond) × (exist id ids ≡ true)
