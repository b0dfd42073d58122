-- ===== src/EchoServer/Echo/Reading.antt =====
-- What the reading loop collects.
use learn_note.Prelude.{
  ℕ, ◌==◌, ◌≡◌, ◌≢◌, refl, sym, ap, ◌∙◌, true, false, List, [], ◌∷◌, ◌++◌, append-nil, append_assoc,
  arith, if-true, if-false,
}
use learn_note.Muduo.Buffer.{Syscall, done, failed}
use learn_note.EchoServer.Echo.{interrupted, before_nul, append, read_all}

-- Reads that leave the loop running: some bytes, or an interruption.
abbrev pub IsMore : List (Syscall (List ℕ)) → Type 0
IsMore [] = Unit {0}
IsMore (done [] ∷ reads) = ⊥
IsMore (done (b ∷ bs) ∷ reads) = IsMore reads
IsMore (failed e ∷ reads) = (e ≡ interrupted) × IsMore reads

-- The bytes that the reads bring.
abbrev pub arrived : List (Syscall (List ℕ)) → List ℕ
arrived [] = []
arrived (done bytes ∷ reads) = bytes ++ arrived reads
arrived (failed e ∷ reads) = arrived reads

-- What of them is kept: of each read, the part before its first NUL.
unfoldable pub kept : List (Syscall (List ℕ)) → List ℕ
unfolding before_nul
kept [] = []
kept (done bytes ∷ reads) = before_nul bytes ++ kept reads
kept (failed e ∷ reads) = kept reads

-- Text has no NUL.
abbrev pub IsText : List ℕ → Type 0
IsText [] = Unit {0}
IsText (b ∷ bs) = (b ≢ 0) × IsText bs

pub before_nul-IsText : (bytes : List ℕ) → IsText bytes → before_nul bytes ≡ bytes
unfolding before_nul
before_nul-IsText [] t = refl
before_nul-IsText (b ∷ bs) (ne, t) =
    let text : (b == 0) ≡ false = ground (arith, ne) in
    if-false _ _ text ∙ ap (◌∷◌ b) (before_nul-IsText bs t)

pub IsText-parts : (xs ys : List ℕ) → IsText (xs ++ ys) → IsText xs × IsText ys
IsText-parts [] ys t = (tt, t)
IsText-parts (x ∷ xs) ys (ne, t) = let (a, b) = IsText-parts xs ys t in ((ne, a), b)

pub kept-IsText :
    (reads : List (Syscall (List ℕ))) → IsText (arrived reads) → kept reads ≡ arrived reads
unfolding kept
kept-IsText [] t = refl
kept-IsText (done bytes ∷ reads) t =
    let (a, b) = IsText-parts bytes (arrived reads) t in
    rw (before_nul-IsText bytes a, kept-IsText reads b) refl
kept-IsText (failed e ∷ reads) t = kept-IsText reads t

-- Reading goes through all of them.
pub read_all-more :
    (buf : List ℕ) (reads rest : List (Syscall (List ℕ)))
    → IsMore reads
    → read_all buf (reads ++ rest) ≡ read_all (buf ++ kept reads) rest
unfolding read_all append kept
read_all-more buf [] rest m = ap (λ b. read_all b rest) (sym (append-nil buf))
read_all-more buf (done [] ∷ reads) rest m = absurd m
read_all-more buf (done (b ∷ bs) ∷ reads) rest m =
    read_all-more (buf ++ before_nul (b ∷ bs)) reads rest m
    ∙ ap (λ c. read_all c rest) (append_assoc buf (before_nul (b ∷ bs)) (kept reads))
read_all-more buf (failed e ∷ reads) rest (i, m) =
    let hit : (e == interrupted) ≡ true = ground (arith, i) in
    if-true _ _ hit ∙ read_all-more buf reads rest m
