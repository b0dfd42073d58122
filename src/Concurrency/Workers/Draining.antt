-- ===== src/Concurrency/Workers/Draining.antt =====
-- The end of the pool: its threads run what is left and return.
use learn_note.Prelude.{
  ℕ, ◌+◌, ◌*◌, ◌≤◌, ◌<◌, true, not, ◌&&◌, ◌||◌, some, List, [], ◌∷◌, ◌++◌, ◌≡◌, refl, ap, ◌∙◌,
  if◌then◌else◌, occurs, below, occurs-range, arith, length, ◌⊎◌, inl, inr,
}
use learn_note.Concurrency.Workers.{
  Worker, waiting, left, running, Pool, create, empty, ready, take_task, work, finish, Step,
  submits, exits, works, ends, Reach,
}
use learn_note.Concurrency.Workers.Queue.{
  running_count, left_count, occurs-in_order, Inv, work-cases, Reach-create-Inv,
}

-- The turns left: each task is taken and ended, and each thread returns.
abbrev pub turns_of : Worker → ℕ
turns_of waiting = 1
turns_of (running t) = 2
turns_of left = 0

abbrev pub turns : List Worker → ℕ
turns [] = 0
turns (w ∷ ws) = turns_of w + turns ws

unfoldable pub remaining : Pool → ℕ
remaining p = 2 * length p.tasks + turns p.workers

turns-append : (xs ys : List Worker) → turns (xs ++ ys) ≡ turns xs + turns ys
turns-append [] ys = omega arith
turns-append (x ∷ xs) ys = omega (arith, turns-append xs ys)

works_less :
    (p q : Pool) (w : Worker) (xs ys : List Worker)
    → p.workers ≡ xs ++ waiting ∷ ys
    → work p ≡ some (q, w)
    → remaining (record q { workers = xs ++ w ∷ ys }) < remaining p
unfolding remaining
works_less p q w xs ys e f =
    let before = ap turns e ∙ turns-append xs (waiting ∷ ys) in
    let after = turns-append xs (w ∷ ys) in
    elim (work-cases p q w f) [
      | inl (x, ts, a, b) ↦ omega (arith, before, after, ap (λ z. length z.tasks) a, ap turns_of b)
      | inr (t, ts, a, b, c) ↦
          omega (arith, before, after, ap length a, ap (λ z. length z.tasks) b, ap turns_of c)
    ]

Step_less : {p q : Pool} → p.exit_flag ≡ true → Step p q → remaining q < remaining p
unfolding remaining finish
Step_less f (submits g) = absurd (cc (f, g))
Step_less f (exits g) = absurd (cc (f, g))
Step_less {p} f (works xs ys {q} {w} e r g) = works_less p q w xs ys e g
Step_less {p} f (ends xs ys t e) =
    omega (arith, ap turns e, turns-append xs (running t ∷ ys), turns-append xs (waiting ∷ ys))

-- A list of threads has all left, or has one that waits or runs.
Some : List Worker → Type 0
Some ws =
    ((xs : List Worker) × (ys : List Worker) × (ws ≡ xs ++ waiting ∷ ys))
    ⊎ ((xs : List Worker) × (ys : List Worker) × (t : ℕ) × (ws ≡ xs ++ running t ∷ ys))

find_worker : (ws : List Worker) → (left_count ws ≡ length ws) ⊎ Some ws
unfolding Some
find_worker [] = inl refl
find_worker (waiting ∷ ws) = inr (inl ([], ws, refl))
find_worker (running t ∷ ws) = inr (inr ([], ws, t, refl))
find_worker (left ∷ ws) = elim (find_worker ws) [
  | inl e ↦ inl (omega (arith, e))
  | inr (inl (xs, ys, e)) ↦ inr (inl (left ∷ xs, ys, ap (◌∷◌ left) e))
  | inr (inr (xs, ys, t, e)) ↦ inr (inr (left ∷ xs, ys, t, ap (◌∷◌ left) e))
]

turn_some :
    (us : List ℕ) (p : Pool)
    → (q : Pool) × (w : Worker) × ((if true && empty us then some (p, left) else take_task us p)
        ≡ some (q, w))
unfolding empty take_task
turn_some [] p = (p, left, refl)
turn_some (t ∷ ts) p = (record p { tasks = ts; taken = t ∷ p.taken }, running t, refl)

-- Where the pool is being destroyed, a turn under the lock is defined.
work-some : (p : Pool) → p.exit_flag ≡ true → (q : Pool) × (w : Worker) × (work p ≡ some (q, w))
unfolding work
work-some p f =
    let (q, w, e) = turn_some p.tasks p in
    (q, w, ap (λ b. if b && empty p.tasks then some (p, left) else take_task p.tasks p) f ∙ e)

some_step : (p : Pool) → p.exit_flag ≡ true → Some p.workers → (q : Pool) × Step p q
unfolding Some ready
some_step p f (inl (xs, ys, e)) =
    let (q, w, g) = work-some p f in
    (record q { workers = xs ++ w ∷ ys }, works xs ys e (ap (λ b. b || not (empty p.tasks)) f) g)
some_step p f (inr (xs, ys, t, e)) =
    (record (finish p t) { workers = xs ++ waiting ∷ ys }, ends xs ys t e)

left_count_le : (ws : List Worker) → left_count ws ≤ length ws
left_count_le [] = omega arith
left_count_le (waiting ∷ ws) = omega (arith, left_count_le ws)
left_count_le (left ∷ ws) = omega (arith, left_count_le ws)
left_count_le (running t ∷ ws) = omega (arith, left_count_le ws)

-- Those who have left run nothing.
all_left : (i : ℕ) (ws : List Worker) → left_count ws ≡ length ws → running_count i ws ≡ 0
all_left i [] e = refl
all_left i (waiting ∷ ws) e = absurd (omega (arith, left_count_le ws))
all_left i (left ∷ ws) e = omega (arith, all_left i ws (omega arith))
all_left i (running t ∷ ws) e = absurd (omega (arith, left_count_le ws))

-- All threads have returned, and each task that was submitted has been run, once.
unfoldable pub Drained : Pool → Type 0
Drained p =
    (left_count p.workers ≡ length p.workers)
    × (p.tasks ≡ [])
    × ((i : ℕ) → occurs i p.done ≡ below i p.submitted)

left-Drained :
    {n : ℕ} (p : Pool) → 1 ≤ n → Inv n p → left_count p.workers ≡ length p.workers → Drained p
unfolding Drained
left-Drained p h v e =
    let (f, g) = v.quit (omega (arith, v.size)) in
    (
      e,
      g,
      λ i. omega (
        arith,
        v.once i,
        all_left i p.workers e,
        ap (occurs i) v.order,
        occurs-range i p.submitted,
        occurs-in_order i p.taken p.tasks,
        ap (occurs i) g,
      ),
    )

-- Once the pool is being destroyed, each turn lowers the number of turns left, and there is a turn to take
-- until all threads have returned and each task submitted has been run, once. The pool has a thread,
-- because one was asked for or the hardware has one.
pub Reach-create-Drained :
    (nthreads hardware : ℕ) {p : Pool}
    → 1 ≤ nthreads + hardware
    → Reach (create nthreads hardware) p
    → p.exit_flag ≡ true
    → ((q : Pool) → Step p q → remaining q < remaining p) × (Drained p ⊎ ((q : Pool) × Step p q))
Reach-create-Drained nthreads hardware {p} h r f = (
  λ q s. Step_less f s,
  elim (find_worker p.workers) [
    | inl e ↦ inl (left-Drained p (ground arith) (Reach-create-Inv nthreads hardware r) e)
    | inr s ↦ inr (some_step p f s)
  ],
)
