-- ===== src/Muduo/ThreadPool.antt =====
-- cpp_learning_projects/muduo-mgkl/src/EventLoopThreadPool.cpp and include/EventLoopThreadPool.hpp: the
-- loops among which a server spreads its connections. An `EventLoop *` is a number; the loop that the
-- thread started as the i-th gives back is an argument.
pub mod RoundRobin
mod Tests
use learn_note.Prelude.{
  ℕ, zero, suc, ◌+◌, ◌==◌, Bool, true, false, ◌&&◌, Option, none, some, List, [], ◌∷◌, ◌++◌,
  if◌then◌else◌, leb, length, get_elem?,
}

pub record ThreadPool : Type 0 where
  pub base_loop : ℕ
  pub started : Bool
  pub num_threads : ℕ
  pub next : ℕ
  pub loops : List ℕ

unfoldable pub init : ℕ → ThreadPool
init base_loop = record {
  base_loop = base_loop;
  started = false;
  num_threads = 0;
  next = 0;
  loops = [];
}

unfoldable pub set_thread_num : ThreadPool → ℕ → ThreadPool
set_thread_num p n = record p { num_threads = n }

-- The loops of `n` threads, from the i-th on.
unfoldable pub spawn : (ℕ → ℕ) → (n i : ℕ) → List ℕ
spawn start_loop zero i = []
spawn start_loop (suc n) i = start_loop i ∷ spawn start_loop n (i + 1)

-- The pool, and the loops in whose threads the callback is run.
unfoldable pub start : ThreadPool → (has_callback : Bool) → (ℕ → ℕ) → ThreadPool × List ℕ
unfolding spawn
start p has_callback start_loop =
    let new = spawn start_loop p.num_threads 0 in
    let told = if p.num_threads == 0 then p.base_loop ∷ [] else new in
    (record p { started = true; loops = p.loops ++ new }, if has_callback then told else [])

unfoldable pub is_empty : List ℕ → Bool
is_empty [] = true
is_empty (l ∷ ls) = false

-- `++next_`, and back to 0 at the end; `none` is an index out of range.
unfoldable pub advance : ThreadPool → Option ℕ → Option (ℕ × ThreadPool)
advance p none = none
advance p (some l) =
    some (l, record p { next = if leb (length p.loops) (p.next + 1) then 0 else p.next + 1 })

unfoldable pub get_next_loop : ThreadPool → Option (ℕ × ThreadPool)
unfolding is_empty advance
get_next_loop p =
    if is_empty p.loops then some (p.base_loop, p) else advance p (get_elem? p.loops p.next)

pub get_all_loops : ThreadPool → List ℕ
unfolding is_empty
get_all_loops p = if is_empty p.loops then p.base_loop ∷ [] else p.loops
