-- ===== src/Muduo/ThreadPool/Tests.antt =====
-- Three worker loops, from the second on.
use learn_note.Prelude.{
  ℕ, ◌+◌, ◌%◌, ◌<◌, ◌≡◌, refl, true, some, List, [], ◌∷◌, arith, length, get_elem?,
}
use learn_note.Muduo.ThreadPool.{ThreadPool, init, set_thread_num, start, get_next_loop}
use learn_note.Muduo.ThreadPool.RoundRobin.{hand_out, hand_out_lem}

abbrev pool : ThreadPool
pool = record {
  base_loop = 9;
  started = true;
  num_threads = 3;
  next = 1;
  loops = 10 ∷ 20 ∷ 30 ∷ [];
}

started_pool : (start (set_thread_num (init 9) 3) true (λ i. i + 10)).0.loops ≡ 10 ∷ 11 ∷ 12 ∷ []
unfolding init set_thread_num start
started_pool = refl

five_calls : hand_out 5 pool ≡ some (20 ∷ 30 ∷ 10 ∷ 20 ∷ 30 ∷ [])
unfolding hand_out get_next_loop
five_calls = refl

hand_out_lem_example :
    (ls : List ℕ) × (hand_out 5 pool ≡ some ls)
    × (length ls ≡ 5)
    × ((i : ℕ) → i < 5 → get_elem? ls i ≡ get_elem? (10 ∷ 20 ∷ 30 ∷ []) ((1 + i) % 3))
hand_out_lem_example = hand_out_lem 5 pool (omega arith)
