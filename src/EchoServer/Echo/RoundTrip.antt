-- ===== src/EchoServer/Echo/RoundTrip.antt =====
-- A line goes from the client to the server and back.
use learn_note.Prelude.{
  ℕ, ◌+◌, ◌<◌, ◌≡◌, Bool-cases, inl, inr, refl, sym, ap, subst, ◌∙◌, false, List, [], ◌∷◌, ◌++◌,
  append-nil, append_assoc, arith, if-true, if-false, length, length-append, leb,
}
use learn_note.Muduo.Buffer.{Syscall, done, failed}
use learn_note.EchoServer.Echo.{
  again, before_nul, append, read_all, send, cleared, overrun, after_reading, handled, echo,
  behind_it, then_echo, serve, printed, await,
}
use learn_note.EchoServer.Echo.Reading.{
  IsMore, arrived, kept, IsText, IsText-parts, before_nul-IsText, kept-IsText, read_all-more,
}
use learn_note.EchoServer.Echo.Sending.{Takes, send-Takes}

-- What the server does with what it reads before `::read` would wait.
echo-again :
    (buffer : List ℕ) (reads : List (Syscall (List ℕ))) (writes : List (Syscall ℕ))
    → IsMore reads
    → let held = buffer ++ kept reads in
      echo buffer (reads ++ failed again ∷ []) writes ≡ cleared (overrun held) (send held writes)
unfolding echo after_reading read_all
echo-again buffer reads writes m =
    ap (λ r. after_reading r writes) (read_all-more buffer reads (failed again ∷ []) m)

-- Each event ends where `::read` would wait.
abbrev pub ended :
    List (List (Syscall (List ℕ)) × List (Syscall ℕ))
    → List (List (Syscall (List ℕ)) × List (Syscall ℕ))
ended [] = []
ended ((reads, writes) ∷ events) = (reads ++ failed again ∷ [], writes) ∷ ended events

-- The bytes that the events bring.
abbrev pub all_arrived : List (List (Syscall (List ℕ)) × List (Syscall ℕ)) → List ℕ
all_arrived [] = []
all_arrived ((reads, writes) ∷ events) = arrived reads ++ all_arrived events

-- In each event the kernel takes what was read in it.
abbrev pub AllTaken : List (List (Syscall (List ℕ)) × List (Syscall ℕ)) → Type 0
AllTaken [] = Unit {0}
AllTaken ((reads, writes) ∷ events) =
    IsMore reads × Takes (length (arrived reads)) writes × AllTaken events

overrun-IsText : (bytes : List ℕ) → IsText bytes → overrun bytes ≡ 1
unfolding overrun
overrun-IsText bytes t = omega (arith, ap length (before_nul-IsText bytes t))

-- One event.
echo-taken :
    (reads : List (Syscall (List ℕ))) (writes : List (Syscall ℕ))
    → IsText (arrived reads)
    → IsMore reads
    → Takes (length (arrived reads)) writes
    → echo [] (reads ++ failed again ∷ []) writes ≡ handled [] (arrived reads) 1
unfolding cleared
echo-taken reads writes text m t =
    echo-again [] reads writes m
    ∙ ap (λ l. cleared (overrun l) (send l writes)) (kept-IsText reads text)
    ∙ ap (λ n. cleared n (send (arrived reads) writes)) (overrun-IsText (arrived reads) text)
    ∙ ap (cleared 1) (send-Takes (arrived reads) writes t)

serve-taken :
    (events : List (List (Syscall (List ℕ)) × List (Syscall ℕ)))
    → IsText (all_arrived events)
    → AllTaken events
    → serve [] (ended events) ≡ handled [] (all_arrived events) (length events)
unfolding serve then_echo behind_it
serve-taken [] text t = refl
serve-taken ((reads, writes) ∷ events) text (m, t, more) =
    let (first, others) = IsText-parts (arrived reads) (all_arrived events) text in
    ap (λ e. then_echo e (λ left. serve left (ended events))) (echo-taken reads writes first m t)
    ∙ ap (behind_it (arrived reads) 1) (serve-taken events others more)
    ∙ ap (handled [] (arrived reads ++ all_arrived events)) (omega arith)

nothing_kept :
    (reads : List (Syscall (List ℕ))) → IsMore reads → length (arrived reads) ≡ 0 → kept reads ≡ []
unfolding kept
nothing_kept [] m z = refl
nothing_kept (done [] ∷ reads) m z = absurd m
nothing_kept (done (b ∷ bs) ∷ reads) m z = absurd (omega (arith, z))
nothing_kept (failed e ∷ reads) (i, m) z = nothing_kept reads m z

-- The client goes on while less than it sent has come back.
await-printed :
    (size have : ℕ) (buf : List ℕ) (reads : List (Syscall (List ℕ)))
    → IsMore reads
    → have < size
    → have + length (arrived reads) ≡ size
    → await size have buf reads ≡ printed (buf ++ kept reads)
unfolding await append kept
await-printed size have buf [] m h e = absurd (omega arith)
await-printed size have buf (done [] ∷ reads) m h e = absurd m
await-printed size have buf (failed x ∷ reads) (i, m) h e =
    let less : leb size have ≡ false = ground arith in
    if-false _ _ less ∙ await-printed size have buf reads m h e
await-printed size have buf (done (b ∷ bs) ∷ reads) m h e = elim (Bool-cases (leb size now)) [
  | inl all ↦
      if-true _ _ all
      ∙ ap (λ r. printed (buf ++ r))
          (sym (append-nil (before_nul (b ∷ bs)))
            ∙ ap (λ r. before_nul (b ∷ bs) ++ r)
                (sym (nothing_kept reads m (ground (arith, all, rest)))))
  | inr less ↦
      if-false _ _ less
      ∙ await-printed size now (buf ++ before_nul (b ∷ bs)) reads m (ground (arith, less)) rest
      ∙ ap printed (append_assoc buf (before_nul (b ∷ bs)) (kept reads))
]
  where
    now : ℕ
    now = have + length (b ∷ bs)

    rest : now + length (arrived reads) ≡ size
    rest = omega (arith, e, length-append (b ∷ bs) (arrived reads))

-- A line of text without NUL, in whatever pieces it reaches the server, by whatever events, each
-- handled before the next, and in whatever pieces the kernel takes the echo and brings it back, if in
-- each event it takes what was read: the server sends the line, its buffer is empty again, and the
-- client prints the line. In each event the server writes one byte behind the array that holds the
-- message; what that byte overwrites is left out.
pub await-echo :
    (line : List ℕ) (events : List (List (Syscall (List ℕ)) × List (Syscall ℕ)))
    (back : List (Syscall (List ℕ)))
    → 0 < length line
    → IsText line
    → AllTaken events
    → all_arrived events ≡ line
    → IsMore back
    → arrived back ≡ line
    → (serve [] (ended events) ≡ handled [] line (length events))
      × (await (length line) 0 [] back ≡ printed line)
await-echo line events back full text t there n here =
    let brought : kept back ≡ line = kept-IsText back (subst IsText (sym here) text) ∙ here in
    (
      serve-taken events (subst IsText (sym there) text) t
          ∙ ap (λ l. handled [] l (length events)) there,
      await-printed (length line) 0 [] back n full (omega (arith, ap length here))
          ∙ ap printed brought,
    )
