-- ===== src/Concurrency/Workers/Queue.antt =====
-- Each submitted task is taken once and in order, and run by the thread that took it.
use learn_note.Prelude.{
  ℕ, zero, suc, ◌+◌, ◌<◌, ◌==◌, Bool, true, false, some, ◌&&◌, List, [], ◌∷◌, ◌++◌, ◌≡◌, refl, sym,
  ap, ◌∙◌, subst, if◌then◌else◌, occurs, range, range-append, arith, length, length-append,
  replicate, length-replicate, ◌⊎◌, inl, inr,
}
use mathlib.Core.Option.{some-injective}
use learn_note.Concurrency.Workers.{
  Worker, waiting, left, running, Pool, create, submit, set_exit_flag, empty, take_task, work,
  finish, Step, submits, exits, works, ends, Reach, here, next,
}

abbrev pub runs : ℕ → Worker → ℕ
runs i (running t) = if t == i then 1 else 0
runs i waiting = 0
runs i left = 0

-- How many threads run the task `i`.
abbrev pub running_count : ℕ → List Worker → ℕ
running_count i [] = 0
running_count i (w ∷ ws) = runs i w + running_count i ws

abbrev pub gone : Worker → ℕ
gone left = 1
gone waiting = 0
gone (running t) = 0

abbrev pub left_count : List Worker → ℕ
left_count [] = 0
left_count (w ∷ ws) = gone w + left_count ws

pub running_count-append :
    (i : ℕ) (xs ys : List Worker)
    → running_count i (xs ++ ys) ≡ running_count i xs + running_count i ys
running_count-append i [] ys = omega arith
running_count-append i (x ∷ xs) ys = omega (arith, running_count-append i xs ys)

pub left_count-append :
    (xs ys : List Worker) → left_count (xs ++ ys) ≡ left_count xs + left_count ys
left_count-append [] ys = omega arith
left_count-append (x ∷ xs) ys = omega (arith, left_count-append xs ys)

-- The tasks in the order in which they were taken.
abbrev pub in_order : List ℕ → List ℕ → List ℕ
in_order [] later = later
in_order (t ∷ ts) later = in_order ts (t ∷ later)

in_order-append : (ts xs ys : List ℕ) → in_order ts (xs ++ ys) ≡ in_order ts xs ++ ys
in_order-append [] xs ys = refl
in_order-append (t ∷ ts) xs ys = in_order-append ts (t ∷ xs) ys

pub occurs-in_order :
    (i : ℕ) (ts xs : List ℕ) → occurs i (in_order ts xs) ≡ occurs i ts + occurs i xs
occurs-in_order i [] xs = omega arith
occurs-in_order i (t ∷ ts) xs = omega (arith, occurs-in_order i ts (t ∷ xs))

pub record Inv (n : ℕ) (p : Pool) : Type 0 where
  -- First come the tasks taken, then those that wait: in the order of submission, none lost.
  pub order : in_order p.taken p.tasks ≡ range 0 p.submitted
  -- A task that was taken is running or done, once.
  pub once : (i : ℕ) → occurs i p.done + running_count i p.workers ≡ occurs i p.taken
  -- A thread returns only once the pool is destroyed, and then no task is left.
  pub quit : 0 < left_count p.workers → (p.exit_flag ≡ true) × (p.tasks ≡ [])
  pub size : length p.workers ≡ n

turn-cases :
    (b : Bool) (us : List ℕ) (p q : Pool) (w : Worker)
    → (if b && empty us then some (p, left) else take_task us p) ≡ some (q, w)
    → ((b ≡ true) × (us ≡ []) × (q ≡ p) × (w ≡ left))
      ⊎ ((t : ℕ) × (ts : List ℕ) × (us ≡ t ∷ ts)
          × (q ≡ record p { tasks = ts; taken = t ∷ p.taken })
          × (w ≡ running t))
unfolding empty take_task
turn-cases true [] p q w e = inl (refl, refl, cc (some-injective _ _ e), cc (some-injective _ _ e))
turn-cases false [] p q w e = absurd (cc e)
turn-cases true (t ∷ ts) p q w e =
    inr (t, ts, refl, cc (some-injective _ _ e), cc (some-injective _ _ e))
turn-cases false (t ∷ ts) p q w e =
    inr (t, ts, refl, cc (some-injective _ _ e), cc (some-injective _ _ e))

-- What a turn under the lock does: to return, or to take the first task.
pub work-cases :
    (p q : Pool) (w : Worker)
    → work p ≡ some (q, w)
    → ((p.exit_flag ≡ true) × (p.tasks ≡ []) × (q ≡ p) × (w ≡ left))
      ⊎ ((t : ℕ) × (ts : List ℕ) × (p.tasks ≡ t ∷ ts)
          × (q ≡ record p { tasks = ts; taken = t ∷ p.taken })
          × (w ≡ running t))
unfolding work
work-cases p q w e = turn-cases p.exit_flag p.tasks p q w e

-- While some thread waits, none has to return because another has.
leaves-Inv :
    {n : ℕ} (p : Pool) (xs ys : List Worker)
    → p.workers ≡ xs ++ waiting ∷ ys
    → p.exit_flag ≡ true
    → p.tasks ≡ []
    → Inv n p
    → Inv n (record p { workers = xs ++ left ∷ ys })
leaves-Inv p xs ys e f g v = record {
  order = v.order;
  once = λ i. omega (
    arith,
    v.once i,
    ap (running_count i) e,
    running_count-append i xs (waiting ∷ ys),
    running_count-append i xs (left ∷ ys),
  );
  quit = λ h. (f, g);
  size =
      omega
        (arith, v.size, ap length e, length-append xs (waiting ∷ ys), length-append xs (left ∷ ys));
}

takes-Inv :
    {n : ℕ} (p : Pool) (xs ys : List Worker) (t : ℕ) (ts : List ℕ)
    → p.workers ≡ xs ++ waiting ∷ ys
    → p.tasks ≡ t ∷ ts
    → Inv n p
    → Inv n (record p { tasks = ts; taken = t ∷ p.taken; workers = xs ++ running t ∷ ys })
takes-Inv p xs ys t ts e f v = record {
  order = ap (in_order p.taken) (sym f) ∙ v.order;
  once = λ i. omega (
    arith,
    v.once i,
    ap (running_count i) e,
    running_count-append i xs (waiting ∷ ys),
    running_count-append i xs (running t ∷ ys),
  );
  quit = λ h.
      let (a, b) = v.quit (
        omega (
          arith,
          ap left_count e,
          left_count-append xs (waiting ∷ ys),
          left_count-append xs (running t ∷ ys),
        )) in
      absurd (cc (b, f));
  size = omega (
    arith,
    v.size,
    ap length e,
    length-append xs (waiting ∷ ys),
    length-append xs (running t ∷ ys),
  );
}

works-Inv :
    {n : ℕ} (p q : Pool) (w : Worker) (xs ys : List Worker)
    → p.workers ≡ xs ++ waiting ∷ ys
    → work p ≡ some (q, w)
    → Inv n p
    → Inv n (record q { workers = xs ++ w ∷ ys })
works-Inv {n} p q w xs ys e f v = elim (work-cases p q w f) [
  | inl (x, ts, a, b) ↦
      subst (λ z. Inv n (record q { workers = xs ++ z ∷ ys })) (sym b)
        (subst (λ z. Inv n (record z { workers = xs ++ left ∷ ys })) (sym a)
          (leaves-Inv p xs ys e x ts v))
  | inr (t, ts, a, b, c) ↦
      subst (λ z. Inv n (record q { workers = xs ++ z ∷ ys })) (sym c)
        (subst (λ z. Inv n (record z { workers = xs ++ running t ∷ ys })) (sym b)
          (takes-Inv p xs ys t ts e a v))
]

ends-Inv :
    {n : ℕ} (p : Pool) (xs ys : List Worker) (t : ℕ)
    → p.workers ≡ xs ++ running t ∷ ys
    → Inv n p
    → Inv n (record (finish p t) { workers = xs ++ waiting ∷ ys })
unfolding finish
ends-Inv p xs ys t e v = record {
  order = v.order;
  once = λ i. omega (
    arith,
    v.once i,
    ap (running_count i) e,
    running_count-append i xs (running t ∷ ys),
    running_count-append i xs (waiting ∷ ys),
  );
  quit = λ h. v.quit (
      omega (
        arith,
        ap left_count e,
        left_count-append xs (running t ∷ ys),
        left_count-append xs (waiting ∷ ys),
      ));
  size = omega (
    arith,
    v.size,
    ap length e,
    length-append xs (running t ∷ ys),
    length-append xs (waiting ∷ ys),
  );
}

Step-Inv : {n : ℕ} {p q : Pool} → Step p q → Inv n p → Inv n q
unfolding submit set_exit_flag
Step-Inv {p = p} (submits f) v = record {
  order =
      in_order-append p.taken p.tasks (p.submitted ∷ [])
      ∙ ap (λ ts. ts ++ p.submitted ∷ []) v.order
      ∙ range-append p.submitted;
  once = v.once;
  quit = λ h. absurd (cc (f, (v.quit h).0));
  size = v.size;
}
Step-Inv (exits f) v = record {
  order = v.order;
  once = v.once;
  quit = λ h. (refl, (v.quit h).1);
  size = v.size;
}
Step-Inv {p = p} (works xs ys {q} {w} e r f) v = works-Inv p q w xs ys e f v
Step-Inv {p = p} (ends xs ys t e) v = ends-Inv p xs ys t e v

pub Reach-Inv : {n : ℕ} {p q : Pool} → Inv n p → Reach p q → Inv n q
Reach-Inv v here = v
Reach-Inv v (next r s) = Step-Inv s (Reach-Inv v r)

none_running : (i n : ℕ) → running_count i (replicate n waiting) ≡ 0
none_running i zero = refl
none_running i (suc n) = omega (arith, none_running i n)

none_left : (n : ℕ) → left_count (replicate n waiting) ≡ 0
none_left zero = refl
none_left (suc n) = omega (arith, none_left n)

pub create-Inv :
    (nthreads hardware : ℕ)
    → Inv (if nthreads == 0 then hardware else nthreads) (create nthreads hardware)
unfolding create
create-Inv nthreads hardware =
    let n = if nthreads == 0 then hardware else nthreads in
    record {
      order = refl;
      once = λ i. omega (arith, none_running i n);
      quit = λ h. absurd (omega (arith, none_left n));
      size = length-replicate n waiting;
    }

-- However the threads take turns from the start of the pool: the tasks taken, in the order they were taken,
-- followed by those that wait are the tasks submitted in order; a task that was taken is running or done,
-- once; a thread has returned only where the pool is being destroyed and no task waits; and the number of
-- threads is the one asked for, or the hardware's for none.
pub Reach-create-Inv :
    (nthreads hardware : ℕ) {p : Pool}
    → Reach (create nthreads hardware) p
    → Inv (if nthreads == 0 then hardware else nthreads) p
Reach-create-Inv nthreads hardware r = Reach-Inv (create-Inv nthreads hardware) r
