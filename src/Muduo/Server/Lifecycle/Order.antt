-- ===== src/Muduo/Server/Lifecycle/Order.antt =====
-- In which order the jobs of a connection run.
use learn_note.Prelude.{ℕ, ◌≡◌, ◌≢◌, ◌⊎◌, inl, inr, sym, ap, ◌∙◌, subst, List, [], ◌∷◌, ◌++◌}
use learn_note.Muduo.Server.{Conn, Job, establish, destroy, listen}
use learn_note.Muduo.Server.Lifecycle.{In, Free}

In-append :
    {A : Type 0} {x : A} (xs ys : List A) (y : A) → In x (xs ++ y ∷ ys) → (x ≡ y) ⊎ In x (xs ++ ys)
In-append [] ys y h = h
In-append (z ∷ xs) ys y (inl e) = inr (inl e)
In-append (z ∷ xs) ys y (inr h) = elim (In-append xs ys y h) [ inl e ↦ inl e | inr k ↦ inr (inr k) ]

-- A connection is established, or waits for it in its loop.
abbrev pub Known : Conn → List Job → List (ℕ × Job) → Type 0
Known c ran jobs = In (establish c) ran ⊎ In (c.loop, establish c) jobs

-- The jobs not yet run, on the loops of their connections: a connection whose destruction waits is
-- established, or waits for it before; nobody waits for it in the loop of the server.
abbrev pub Ready : (base : ℕ) → List Job → List (ℕ × Job) → Type 0
Ready base ran [] = Unit {0}
Ready base ran ((l, establish c) ∷ older) = (l ≡ c.loop) × (l ≢ base) × Ready base ran older
Ready base ran ((l, destroy c) ∷ older) = (l ≡ c.loop) × Known c ran older × Ready base ran older
Ready base ran ((l, listen) ∷ older) = Ready base ran older

-- Each destruction comes after the connection was established; newest first.
abbrev pub Ordered : List Job → Type 0
Ordered [] = Unit {0}
Ordered (establish c ∷ ran) = Ordered ran
Ordered (destroy c ∷ ran) = In (establish c) ran × Ordered ran
Ordered (listen ∷ ran) = Ordered ran

-- What a job needs that is run.
abbrev pub Due : Job → List Job → Type 0
Due (establish c) ran = Unit {0}
Due (destroy c) ran = In (establish c) ran
Due listen ran = Unit {0}

pub Due-Ordered : (j : Job) (ran : List Job) → Due j ran → Ordered ran → Ordered (j ∷ ran)
Due-Ordered (establish c) ran d o = o
Due-Ordered (destroy c) ran d o = (d, o)
Due-Ordered listen ran d o = o

-- A job goes from those that wait to those that have run.
pub Known-run :
    (c : Conn) (ran : List Job) (newer older : List (ℕ × Job)) (l : ℕ) (j : Job)
    → Known c ran (newer ++ (l, j) ∷ older)
    → Known c (j ∷ ran) (newer ++ older)
Known-run c ran newer older l j (inl h) = inl (inr h)
Known-run c ran newer older l j (inr h) = elim (In-append newer older (l, j) h) [
  | inl e ↦ inl (inl (ap (λ (p : ℕ × Job). p.1) e))
  | inr k ↦ inr k
]

pub Ready-more :
    (base : ℕ) (ran : List Job) (jobs : List (ℕ × Job)) (j : Job)
    → Ready base ran jobs
    → Ready base (j ∷ ran) jobs
Ready-more base ran [] j r = tt
Ready-more base ran ((m, establish c) ∷ jobs) j (e, n, r) = (e, n, Ready-more base ran jobs j r)
Ready-more base ran ((m, destroy c) ∷ jobs) j (e, inl k, r) =
    (e, inl (inr k), Ready-more base ran jobs j r)
Ready-more base ran ((m, destroy c) ∷ jobs) j (e, inr k, r) =
    (e, inr k, Ready-more base ran jobs j r)
Ready-more base ran ((m, listen) ∷ jobs) j r = Ready-more base ran jobs j r

pub Ready-run :
    (base : ℕ) (ran : List Job) (newer older : List (ℕ × Job)) (l : ℕ) (j : Job)
    → Ready base ran (newer ++ (l, j) ∷ older)
    → Ready base (j ∷ ran) (newer ++ older)
Ready-run base ran [] older l (establish c) (e, n, r) = Ready-more base ran older (establish c) r
Ready-run base ran [] older l (destroy c) (e, k, r) = Ready-more base ran older (destroy c) r
Ready-run base ran [] older l listen r = Ready-more base ran older listen r
Ready-run base ran ((m, establish c) ∷ newer) older l j (e, n, r) =
    (e, n, Ready-run base ran newer older l j r)
Ready-run base ran ((m, destroy c) ∷ newer) older l j (e, k, r) =
    (e, Known-run c ran newer older l j k, Ready-run base ran newer older l j r)
Ready-run base ran ((m, listen) ∷ newer) older l j r = Ready-run base ran newer older l j r

-- The oldest job of a loop can be run.
none_waits : (l : ℕ) (j : Job) (jobs : List (ℕ × Job)) → Free l jobs → In (l, j) jobs → ⊥
none_waits l j [] f h = absurd h
none_waits l j ((m, k) ∷ jobs) (n, f) (inl e) = n (ap (λ (p : ℕ × Job). p.0) e)
none_waits l j ((m, k) ∷ jobs) (n, f) (inr h) = none_waits l j jobs f h

pub Ready-Due :
    (base : ℕ) (ran : List Job) (newer older : List (ℕ × Job)) (l : ℕ) (j : Job)
    → Free l older
    → Ready base ran (newer ++ (l, j) ∷ older)
    → Due j ran
Ready-Due base ran [] older l (establish c) f r = tt
Ready-Due base ran [] older l (destroy c) f (e, inl k, r) = k
Ready-Due base ran [] older l (destroy c) f (e, inr k, r) =
    absurd (none_waits l (establish c) older f (subst (λ m. In (m, establish c) older) (sym e) k))
Ready-Due base ran [] older l listen f r = tt
Ready-Due base ran ((m, establish c) ∷ newer) older l j f (e, n, r) =
    Ready-Due base ran newer older l j f r
Ready-Due base ran ((m, destroy c) ∷ newer) older l j f (e, k, r) =
    Ready-Due base ran newer older l j f r
Ready-Due base ran ((m, listen) ∷ newer) older l j f r = Ready-Due base ran newer older l j f r

-- Nothing waits for the loop of the server to establish it.
pub Ready-base :
    (base : ℕ) (ran : List Job) (jobs : List (ℕ × Job)) (l : ℕ) (c : Conn)
    → Ready base ran jobs
    → In (l, establish c) jobs
    → l ≢ base
Ready-base base ran [] l c r h = absurd h
Ready-base base ran ((m, establish d) ∷ jobs) l c (e, n, r) (inl s) =
    λ b. n (sym (ap (λ (p : ℕ × Job). p.0) s) ∙ b)
Ready-base base ran ((m, destroy d) ∷ jobs) l c (e, k, r) (inl s) =
    absurd (differs (ap (λ (p : ℕ × Job). p.1) s))
  where
    differs : establish c ≡ destroy d → ⊥
    differs h = cc h
Ready-base base ran ((m, listen) ∷ jobs) l c r (inl s) =
    absurd (differs (ap (λ (p : ℕ × Job). p.1) s))
  where
    differs : establish c ≡ listen → ⊥
    differs h = cc h
Ready-base base ran ((m, establish d) ∷ jobs) l c (e, n, r) (inr h) =
    Ready-base base ran jobs l c r h
Ready-base base ran ((m, destroy d) ∷ jobs) l c (e, k, r) (inr h) = Ready-base base ran jobs l c r h
Ready-base base ran ((m, listen) ∷ jobs) l c r (inr h) = Ready-base base ran jobs l c r h
