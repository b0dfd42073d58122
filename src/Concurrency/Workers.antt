-- ===== src/Concurrency/Workers.antt =====
-- CppConcurrencyProgramming/ThreadPool.cpp and ThreadPool.h: a pool of threads that run the tasks of a queue.
-- A task is known by the number under which it was submitted; what it computes is not modelled, and a
-- task that throws has thrown into its future.
pub mod Queue
pub mod Draining
use learn_note.Prelude.{
  ℕ, zero, suc, ◌+◌, Bool, true, false, not, ◌&&◌, ◌||◌, Option, none, some, List, [], ◌∷◌, ◌++◌,
  ◌≡◌, if◌then◌else◌, ◌==◌, replicate,
}

-- A thread in `work` waits for the lock or a task, runs a task, or has returned.
pub data Worker : Type 0 where
  waiting left : Worker
  running : (task : ℕ) → Worker

-- `submitted` counts the tasks submitted so far; `taken` and `done` are the tasks taken from the queue and
-- those run to their end, newest first.
pub record Pool : Type 0 where
  pub tasks : List ℕ
  pub exit_flag : Bool
  pub workers : List Worker
  pub submitted : ℕ
  pub taken : List ℕ
  pub done : List ℕ

-- `hardware` is what `hardware_concurrency` answers.
unfoldable pub create : (nthreads hardware : ℕ) → Pool
create nthreads hardware = record {
  tasks = [];
  exit_flag = false;
  workers = replicate (if nthreads == 0 then hardware else nthreads) waiting;
  submitted = 0;
  taken = [];
  done = [];
}

unfoldable pub submit : Pool → Pool
submit p = record p { tasks = p.tasks ++ p.submitted ∷ []; submitted = p.submitted + 1 }

-- What the destructor does before it joins the threads.
unfoldable pub set_exit_flag : Pool → Pool
set_exit_flag p = record p { exit_flag = true }

unfoldable pub empty : List ℕ → Bool
empty [] = true
empty (t ∷ ts) = false

-- What a thread waits for under `mut`.
unfoldable pub ready : Pool → Bool
unfolding empty
ready p = p.exit_flag || not (empty p.tasks)

-- `none` is the use of the front of an empty queue.
unfoldable pub take_task : List ℕ → Pool → Option (Pool × Worker)
take_task [] p = none
take_task (t ∷ ts) p = some (record p { tasks = ts; taken = t ∷ p.taken }, running t)

-- What a thread does under `mut` once its wait is over, and how it goes on.
unfoldable pub work : Pool → Option (Pool × Worker)
unfolding empty take_task
work p = if p.exit_flag && empty p.tasks then some (p, left) else take_task p.tasks p

unfoldable pub finish : Pool → (task : ℕ) → Pool
finish p task = record p { done = task ∷ p.done }

-- The turns of the threads: those of the pool, and the one that owns it, which submits no more once it
-- destroys the pool.
pub data Step (p : Pool) : Pool → Type 0 where
  submits : p.exit_flag ≡ false → Step p (submit p)
  exits : p.exit_flag ≡ false → Step p (set_exit_flag p)
  works :
      (xs ys : List Worker) {q : Pool} {w : Worker}
      → p.workers ≡ xs ++ waiting ∷ ys
      → ready p ≡ true
      → work p ≡ some (q, w)
      → Step p (record q { workers = xs ++ w ∷ ys })
  ends :
      (xs ys : List Worker) (t : ℕ)
      → p.workers ≡ xs ++ running t ∷ ys
      → Step p (record (finish p t) { workers = xs ++ waiting ∷ ys })

pub data Reach (p : Pool) : Pool → Type 0 where
  here : Reach p p
  next : {q r : Pool} → Reach p q → Step q r → Reach p r
