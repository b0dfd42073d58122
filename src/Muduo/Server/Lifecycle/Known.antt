-- ===== src/Muduo/Server/Lifecycle/Known.antt =====
-- What is known of all connections of a map, and of a job that is handed over.
use learn_note.Prelude.{
  ℕ, ◌≡◌, ◌≢◌, inl, inr, sym, ◌∙◌, subst, Bool-cases, List, [], ◌∷◌, ◌++◌, if-true, if-false,
}
use learn_note.Muduo.Server.{
  Name, name_eq, Conn, Job, establish, destroy, listen, Connections, assign, erase,
}
use learn_note.Muduo.Server.Lifecycle.{In}
use learn_note.Muduo.Server.Lifecycle.Order.{Known, Ready, Due, Ready-base}

-- Every connection of the map.
abbrev pub AllKnown : List Job → List (ℕ × Job) → Connections → Type 0
AllKnown ran jobs [] = Unit {0}
AllKnown ran jobs ((n, c) ∷ cs) = Known c ran jobs × AllKnown ran jobs cs

abbrev pub AllEstablished : List Job → List Conn → Type 0
AllEstablished ran [] = Unit {0}
AllEstablished ran (c ∷ cs) = In (establish c) ran × AllEstablished ran cs

pub AllKnown-map :
    (ran ran' : List Job) (jobs jobs' : List (ℕ × Job)) (cs : Connections)
    → ((c : Conn) → Known c ran jobs → Known c ran' jobs')
    → AllKnown ran jobs cs
    → AllKnown ran' jobs' cs
AllKnown-map ran ran' jobs jobs' [] f k = tt
AllKnown-map ran ran' jobs jobs' ((n, c) ∷ cs) f (h, k) =
    (f c h, AllKnown-map ran ran' jobs jobs' cs f k)

pub AllKnown-assign :
    (ran : List Job) (jobs : List (ℕ × Job)) (n : Name) (c : Conn) (cs : Connections)
    → Known c ran jobs
    → AllKnown ran jobs cs
    → AllKnown ran jobs (assign n c cs)
unfolding assign
AllKnown-assign ran jobs n c [] h k = (h, tt)
AllKnown-assign ran jobs n c ((m, d) ∷ cs) h (i, k) = elim (Bool-cases (name_eq m n)) [
  | inl e ↦ subst (AllKnown ran jobs) (sym (if-true _ _ e)) (h, k)
  | inr e ↦
      subst (AllKnown ran jobs) (sym (if-false _ _ e)) (i, AllKnown-assign ran jobs n c cs h k)
]

pub AllKnown-erase :
    (ran : List Job) (jobs : List (ℕ × Job)) (n : Name) (cs : Connections)
    → AllKnown ran jobs cs
    → AllKnown ran jobs (erase n cs)
unfolding erase
AllKnown-erase ran jobs n [] k = tt
AllKnown-erase ran jobs n ((m, d) ∷ cs) (i, k) = elim (Bool-cases (name_eq m n)) [
  | inl e ↦ subst (AllKnown ran jobs) (sym (if-true _ _ e)) k
  | inr e ↦ subst (AllKnown ran jobs) (sym (if-false _ _ e)) (i, AllKnown-erase ran jobs n cs k)
]

pub AllEstablished-more :
    (ran : List Job) (j : Job) (cs : List Conn)
    → AllEstablished ran cs
    → AllEstablished (j ∷ ran) cs
AllEstablished-more ran j [] a = tt
AllEstablished-more ran j (c ∷ cs) (h, a) = (inr h, AllEstablished-more ran j cs a)

pub AllEstablished-append :
    (ran : List Job) (cs : List Conn) (c : Conn)
    → AllEstablished ran cs
    → In (establish c) ran
    → AllEstablished ran (cs ++ c ∷ [])
AllEstablished-append ran [] c a h = (h, tt)
AllEstablished-append ran (d ∷ cs) c (i, a) h = (i, AllEstablished-append ran cs c a h)

-- A job that is handed to a loop.
abbrev pub Fits : List Job → List (ℕ × Job) → ℕ → Job → Type 0
Fits ran older l (establish c) = l ≡ c.loop
Fits ran older l (destroy c) = (l ≡ c.loop) × Known c ran older
Fits ran older l listen = Unit {0}

pub Fits-Ready :
    (base : ℕ) (ran : List Job) (older : List (ℕ × Job)) (l : ℕ) (j : Job)
    → l ≢ base
    → Fits ran older l j
    → Ready base ran older
    → Ready base ran ((l, j) ∷ older)
Fits-Ready base ran older l (establish c) n f r = (f, n, r)
Fits-Ready base ran older l (destroy c) n (e, k) r = (e, k, r)
Fits-Ready base ran older l listen n f r = r

pub Fits-Due :
    (base : ℕ) (ran : List Job) (older : List (ℕ × Job)) (l : ℕ) (j : Job)
    → l ≡ base
    → Fits ran older l j
    → Ready base ran older
    → Due j ran
Fits-Due base ran older l (establish c) b f r = tt
Fits-Due base ran older l (destroy c) b (e, inl k) r = k
Fits-Due base ran older l (destroy c) b (e, inr k) r =
    absurd (Ready-base base ran older c.loop c r k (sym e ∙ b))
Fits-Due base ran older l listen b f r = tt

-- A job more behind those that wait.
Known-later :
    (c : Conn) (ran : List Job) (jobs : List (ℕ × Job)) (l : ℕ) (j : Job)
    → Known c ran jobs
    → Known c ran ((l, j) ∷ jobs)
Known-later c ran jobs l j (inl h) = inl h
Known-later c ran jobs l j (inr h) = inr (inr h)

pub AllKnown-later :
    (ran : List Job) (jobs : List (ℕ × Job)) (l : ℕ) (j : Job) (cs : Connections)
    → AllKnown ran jobs cs
    → AllKnown ran ((l, j) ∷ jobs) cs
AllKnown-later ran jobs l j cs k =
    AllKnown-map ran ran jobs ((l, j) ∷ jobs) cs (λ c h. Known-later c ran jobs l j h) k
