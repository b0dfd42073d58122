-- ===== src/Timer/Repeat.antt =====
-- How often a repeated task passes.
use learn_note.Prelude.{ℕ, zero, suc, List, [], ◌∷◌, ◌++◌}
use learn_note.Timer.{Node, Timer, run_local}
use learn_note.Timer.History.{passed}

-- The time of the first task.
abbrev pub due : List Node → ℕ
due [] = 0
due (n ∷ ns) = n.at

-- `k` turns, each at the time of the first task, and the ids that pass.
unfoldable pub serve : ℕ → Timer → Timer × List ℕ
serve zero t = (t, [])
serve (suc k) t =
    let (next, what) = run_local t (due t.queue) (due t.queue) in
    let (last, rest) = serve k next in (last, passed what ++ rest)

abbrev pub copies : ℕ → ℕ → List ℕ
copies zero x = []
copies (suc k) x = x ∷ copies k x

-- One turn of a timer with a single task, at its time.
abbrev alone : Timer → Node → Timer
alone t n = record t { queue = n ∷ [] }
