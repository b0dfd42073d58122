-- ===== src/EchoServer/Echo/Sending.antt =====
-- What the writing loop sends.
use learn_note.Prelude.{
  ℕ, ◌+◌, ◌-◌, ◌≤◌, ◌<◌, ◌==◌, ◌≡◌, ◌≢◌, ◌⊎◌, inl, inr, refl, sym, ap, ap₂, ◌∙◌, true, false, List,
  [], ◌∷◌, ◌++◌, append-nil, append_assoc, arith, if-true, if-false, length, take, drop, ltb,
  take-append-drop, drop-drop, take_all, length-drop, drop_all,
}
use learn_note.Muduo.Buffer.{Syscall, done, failed}
use learn_note.EchoServer.Echo.{again, finished, send_left, send}

-- Writes that take all of `left` bytes: each at least one byte and no more than it was given.
abbrev pub Takes : ℕ → List (Syscall ℕ) → Type 0
Takes left [] = left ≡ 0
Takes left (done n ∷ writes) = (left ≡ 0) ⊎ (0 < n × n ≤ left × Takes (left - n) writes)
Takes left (failed e ∷ writes) = left ≡ 0

-- One write more of what is left.
after_one :
    (message sent : List ℕ) (left n : ℕ)
    → left ≤ length message
    → n ≤ left
    → (sent ++ take n (drop (length message - left) message))
        ++ drop (length message - (left - n)) message
      ≡ sent ++ drop (length message - left) message
after_one message sent left n h k =
    let from = length message - left in
    append_assoc sent (take n (drop from message)) (drop (length message - (left - n)) message)
    ∙ ap (λ r. sent ++ (take n (drop from message) ++ r))
        (ap (λ i. drop i message) (omega arith) ∙ sym (drop-drop from n message))
    ∙ ap (λ r. sent ++ r) (take-append-drop n (drop from message))

send_left-done :
    (message sent : List ℕ) (writes : List (Syscall ℕ))
    → send_left message 0 writes sent ≡ finished sent
unfolding send_left
send_left-done message sent [] = refl
send_left-done message sent (done n ∷ writes) = refl
send_left-done message sent (failed e ∷ writes) = refl

nothing_left :
    (message sent : List ℕ) (left : ℕ) (writes : List (Syscall ℕ))
    → left ≡ 0
    → send_left message left writes sent ≡ finished (sent ++ drop (length message - left) message)
nothing_left message sent left writes z =
    ap (λ l. send_left message l writes sent) z
    ∙ send_left-done message sent writes
    ∙ ap finished (
        sym (
          ap (λ r. sent ++ r) (drop_all (length message - left) message (omega (arith, z)))
          ∙ append-nil sent))

send_left-Takes :
    (message sent : List ℕ) (left : ℕ) (writes : List (Syscall ℕ))
    → left ≤ length message
    → Takes left writes
    → send_left message left writes sent ≡ finished (sent ++ drop (length message - left) message)
unfolding send_left
send_left-Takes message sent left [] h z = nothing_left message sent left [] z
send_left-Takes message sent left (failed e ∷ writes) h z =
    nothing_left message sent left (failed e ∷ writes) z
send_left-Takes message sent left (done n ∷ writes) h (inl z) =
    nothing_left message sent left (done n ∷ writes) z
send_left-Takes message sent left (done n ∷ writes) h (inr (any, most, all)) =
    let more : (left == 0) ≡ false = ground arith in
    let inside : ltb (length message) left ≡ false = ground arith in
    if-false _ _ more
    ∙ if-false _ _ inside
    ∙ send_left-Takes message (sent ++ take n (drop (length message - left) message)) (left - n)
        writes (omega arith) all
    ∙ ap finished (after_one message sent left n h most)

-- The whole message goes out.
pub send-Takes :
    (message : List ℕ) (writes : List (Syscall ℕ))
    → Takes (length message) writes
    → send message writes ≡ finished message
unfolding send
send-Takes message writes t =
    send_left-Takes message [] (length message) writes (omega arith) t
    ∙ ap (λ i. finished (drop i message)) {y = 0} (omega arith)

-- `data_left -= write_bytes` takes the -1 of an error as if it were a count: where a write fails, but
-- for EAGAIN, with part of the message sent, the last byte sent is sent once more.
pub send-repeats :
    (message : List ℕ) (k e : ℕ)
    → 0 < k
    → k < length message
    → e ≢ again
    → send message (done k ∷ failed e ∷ done (length message - k + 1) ∷ [])
      ≡ finished (take k message ++ drop (k - 1) message)
unfolding send send_left
send-repeats message k e any most other =
    let whole = length message in
    let left = whole - k + 1 in
    let more : (whole == 0) ≡ false = ground arith in
    let inside : ltb whole whole ≡ false = ground arith in
    let more_now : ((whole - k) == 0) ≡ false = ground arith in
    let inside_now : ltb whole (whole - k) ≡ false = ground arith in
    let differs : (e == again) ≡ false = ground (arith, other) in
    let more_then : (left == 0) ≡ false = ground arith in
    let inside_then : ltb whole left ≡ false = ground arith in
    let none_left : ((left - left) == 0) ≡ true = ground arith in
    if-false _ _ more
    ∙ if-false _ _ inside
    ∙ if-false _ _ more_now
    ∙ if-false _ _ inside_now
    ∙ if-false _ _ differs
    ∙ if-false _ _ more_then
    ∙ if-false _ _ inside_then
    ∙ if-true _ _ none_left
    ∙ ap finished (
        ap₂ (λ front back. front ++ back) (ap (λ i. take k (drop i message)) {y = 0} (omega arith))
          (take_all left (drop (whole - left) message)
              (omega (arith, length-drop (whole - left) message))
            ∙ ap (λ i. drop i message) (omega arith)))
