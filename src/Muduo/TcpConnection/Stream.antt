-- ===== src/Muduo/TcpConnection/Stream.antt =====
-- The bytes of a connection: what the kernel took, and behind it what waits in the output buffer.
use learn_note.Prelude.{
  ℕ, ◌+◌, ◌-◌, ◌≤◌, ◌==◌, ◌≡◌, refl, sym, ap, ap₂, ◌∙◌, ◌⊎◌, inl, inr, Bool, true, false,
  Bool-cases, not, ◌&&◌, sub_size, List, [], ◌∷◌, ◌++◌, append-nil, append_assoc, arith, length,
  take, take_all, drop, take-append-drop, length-drop, drop_all, ltb, if-true, if-false,
  if◌then◌else◌,
}
use learn_note.Muduo.Buffer.{Syscall, done, failed, retrieve, append}
use learn_note.Muduo.Buffer.Bounds.{IsValid, max_size}
use learn_note.Muduo.Buffer.Contents.{
  contents, length-contents, contents-append, contents-retrieve, write_fd_lem, write_fd-failed,
}
use learn_note.Muduo.TcpConnection.{
  Connection, Effect, Attempt, is_fault, is_idle, writing, try_write, buffer_rest, settle,
  send_in_loop, drained, after_write, handle_write, emit_if, queued, write_complete,
}

-- All the bytes that the connection has accepted and not thrown away, in order.
abbrev pub stream : Connection → List ℕ
stream c = c.sent ++ contents c.output_buffer

-- The buffer is valid, and has room for so many bytes.
pub record Sound (c : Connection) (room : ℕ) : Type 0 where
  pub valid : IsValid c.output_buffer
  pub fits : c.output_buffer.writer_index + room ≤ max_size

-- `write` takes no more than it is given.
abbrev pub Answers : ℕ → Syscall ℕ → Type 0
Answers len (done n) = n ≤ len
Answers len (failed e) = Unit {0}

-- Whether the bytes are given up: they were written at once, and the peer is gone.
abbrev pub lost : Connection → Syscall ℕ → Bool
lost c (done n) = false
lost c (failed e) = is_idle c && is_fault e

buffer_rest-parts :
    (c : Connection) (bytes : List ℕ) (nwrote remaining : ℕ)
    → remaining ≡ length bytes - nwrote
    → ((buffer_rest c bytes nwrote remaining).sent ≡ c.sent)
      × ((buffer_rest c bytes nwrote remaining).output_buffer
          ≡ append c.output_buffer (drop nwrote bytes))
unfolding buffer_rest
buffer_rest-parts c bytes nwrote remaining left =
    let all : take remaining (drop nwrote bytes) ≡ drop nwrote bytes =
      take_all remaining (drop nwrote bytes) (omega (arith, left, length-drop nwrote bytes)) in
    ground (arith, all)

stream-buffer_rest :
    (c : Connection) (bytes : List ℕ) (nwrote remaining : ℕ)
    → Sound c (length bytes)
    → remaining ≡ length bytes - nwrote
    → stream (buffer_rest c bytes nwrote remaining) ≡ stream c ++ drop nwrote bytes
stream-buffer_rest c bytes nwrote remaining v left =
    let parts = buffer_rest-parts c bytes nwrote remaining left in
    ap₂ ◌++◌ parts.0 (
      ap contents parts.1
      ∙ contents-append c.output_buffer (drop nwrote bytes) v.valid
          (omega (arith, v.fits, length-drop nwrote bytes)))
    ∙ sym (append_assoc c.sent (contents c.output_buffer) (drop nwrote bytes))

-- What is left after the attempt goes behind the rest.
stream-settle :
    (bytes : List ℕ) (a : Attempt)
    → Sound a.conn (length bytes)
    → a.fault ≡ false
    → a.remaining ≡ length bytes - a.nwrote
    → stream (settle bytes a) ≡ stream a.conn ++ drop a.nwrote bytes
unfolding settle
stream-settle bytes a v ok left = elim (Bool-cases (not a.fault && ltb 0 a.remaining)) [
  | inl e ↦ rw e (stream-buffer_rest a.conn bytes a.nwrote a.remaining v left)
  | inr e ↦
      let none_left : length bytes ≤ a.nwrote = ground arith in
      rw (e, drop_all a.nwrote bytes none_left, append-nil (stream a.conn))
]

emit_if-keeps :
    (b : Bool) (c : Connection) (e : Effect)
    → ((emit_if b c e).sent ≡ c.sent) × ((emit_if b c e).output_buffer ≡ c.output_buffer)
emit_if-keeps true c e = (refl, refl)
emit_if-keeps false c e = (refl, refl)

idle-empty :
    (c : Connection) → IsValid c.output_buffer → is_idle c ≡ true → contents c.output_buffer ≡ []
idle-empty c v h =
    empty (contents c.output_buffer) (ground (arith, length-contents c.output_buffer v))
  where
    empty : (xs : List ℕ) → length xs ≡ 0 → xs ≡ []
    empty [] e = refl
    empty (x ∷ xs) e = absurd (omega arith)

-- The attempt of an idle connection: what the kernel took is the front of the bytes.
try_write-done :
    (c : Connection) (bytes : List ℕ) (n : ℕ)
    → IsValid c.output_buffer
    → is_idle c ≡ true
    → stream (try_write c bytes (done n)).conn ≡ stream c ++ take n bytes
unfolding try_write
try_write-done c bytes n v idle =
    let told =
      emit_if-keeps (sub_size (length bytes) n == 0 && c.has_write_complete)
        (record c { sent = c.sent ++ take n bytes }) (queued write_complete) in
    rw (told.0, told.1, idle-empty c v idle, append-nil (c.sent ++ take n bytes), append-nil c.sent)

pub try_write-Sound :
    (c : Connection) (bytes : List ℕ) (n : ℕ)
    → Sound c (length bytes)
    → Sound (try_write c bytes (done n)).conn (length bytes)
unfolding try_write
try_write-Sound c bytes n v =
    let told =
      emit_if-keeps (sub_size (length bytes) n == 0 && c.has_write_complete)
        (record c { sent = c.sent ++ take n bytes }) (queued write_complete) in
    record { valid = rw told.1 v.valid; fits = rw told.1 v.fits }

settle-fault : (bytes : List ℕ) (a : Attempt) → a.fault ≡ true → settle bytes a ≡ a.conn
unfolding settle
settle-fault bytes a h = rw h

send_idle-done :
    (c : Connection) (bytes : List ℕ) (n : ℕ)
    → Sound c (length bytes)
    → length bytes ≤ max_size
    → n ≤ length bytes
    → is_idle c ≡ true
    → stream (settle bytes (try_write c bytes (done n))) ≡ stream c ++ bytes
unfolding try_write
send_idle-done c bytes n v h a idle =
    stream-settle bytes (try_write c bytes (done n)) (try_write-Sound c bytes n v) refl
      (omega arith)
    ∙ ap (λ x. x ++ drop n bytes) (try_write-done c bytes n v.valid idle)
    ∙ append_assoc (stream c) (take n bytes) (drop n bytes)
    ∙ ap (◌++◌ (stream c)) (take-append-drop n bytes)

send_idle-failed :
    (c : Connection) (bytes : List ℕ) (e : ℕ)
    → Sound c (length bytes)
    → is_idle c ≡ true
    → stream (settle bytes (try_write c bytes (failed e)))
      ≡ (if lost c (failed e) then stream c else stream c ++ bytes)
unfolding try_write
send_idle-failed c bytes e v idle = elim (Bool-cases (is_fault e)) [
  | inl f ↦
      ap stream (settle-fault bytes (try_write c bytes (failed e)) f)
      ∙ sym (if-true _ _ (ap₂ ◌&&◌ idle f))
  | inr f ↦
      stream-settle bytes (try_write c bytes (failed e)) v f (omega arith)
      ∙ sym (if-false _ _ (ap₂ ◌&&◌ idle f))
]

-- A connection that has something to write first only buffers.
send_busy :
    (c : Connection) (bytes : List ℕ) (answer : Syscall ℕ)
    → Sound c (length bytes)
    → is_idle c ≡ false
    → stream
        (settle bytes (record { conn = c; nwrote = 0; remaining = length bytes; fault = false }))
      ≡ (if lost c answer then stream c else stream c ++ bytes)
send_busy c bytes (done n) v busy = stream-settle bytes _ v refl (omega arith)
send_busy c bytes (failed e) v busy =
    stream-settle bytes _ v refl (omega arith) ∙ sym (if-false _ _ (ap (λ b. b && is_fault e) busy))

send_idle :
    (c : Connection) (bytes : List ℕ) (answer : Syscall ℕ)
    → Sound c (length bytes)
    → length bytes ≤ max_size
    → Answers (length bytes) answer
    → is_idle c ≡ true
    → stream (settle bytes (try_write c bytes answer))
      ≡ (if lost c answer then stream c else stream c ++ bytes)
send_idle c bytes (done n) v h a idle = send_idle-done c bytes n v h a idle
send_idle c bytes (failed e) v h a idle = send_idle-failed c bytes e v idle

-- Whatever `::write` answers, and whether or not it is called: a send puts its bytes behind all that
-- was accepted before, each once and in order; only where the peer is gone it drops them all.
pub stream-send_in_loop :
    (c : Connection) (bytes : List ℕ) (answer : Syscall ℕ)
    → Sound c (length bytes)
    → length bytes ≤ max_size
    → Answers (length bytes) answer
    → stream (send_in_loop c bytes answer) ≡ (if lost c answer then stream c else stream c ++ bytes)
unfolding send_in_loop
stream-send_in_loop c bytes answer v h a = elim (Bool-cases (is_idle c)) [
  | inl idle ↦
      ap (λ t. stream (settle bytes t)) (if-true _ _ idle) ∙ send_idle c bytes answer v h a idle
  | inr busy ↦
      ap (λ t. stream (settle bytes t)) (if-false _ _ busy) ∙ send_busy c bytes answer v busy
]

drained-parts :
    (c : Connection) → ((drained c).sent ≡ c.sent) × ((drained c).output_buffer ≡ c.output_buffer)
unfolding drained
drained-parts c = ground arith

-- The connection after the kernel took the first `n` bytes.
abbrev advanced : Connection → ℕ → Connection
advanced c n = record c {
  sent = c.sent ++ take n (contents c.output_buffer);
  output_buffer = retrieve c.output_buffer n;
}

stream-advanced :
    (c : Connection) (n : ℕ) → IsValid c.output_buffer → stream (advanced c n) ≡ stream c
stream-advanced c n v =
    ap (λ x. (c.sent ++ take n (contents c.output_buffer)) ++ x)
      (contents-retrieve c.output_buffer n v)
    ∙ append_assoc c.sent (take n (contents c.output_buffer)) (drop n (contents c.output_buffer))
    ∙ ap (◌++◌ c.sent) (take-append-drop n (contents c.output_buffer))

after_write-parts :
    (c : Connection) (bytes : List ℕ) (n : ℕ)
    → let next = after_write c bytes (done n) in
      ((next.sent ≡ c.sent) × (next.output_buffer ≡ c.output_buffer))
      ⊎ ((next.sent ≡ c.sent ++ bytes) × (next.output_buffer ≡ retrieve c.output_buffer n))
unfolding after_write
after_write-parts c bytes n = ground (
  arith,
  drained-parts (record c { sent = c.sent ++ bytes; output_buffer = retrieve c.output_buffer n }),
)

stream-after_write :
    (c : Connection) (n : ℕ)
    → IsValid c.output_buffer
    → stream (after_write c (take n (contents c.output_buffer)) (done n)) ≡ stream c
stream-after_write c n v = elim (after_write-parts c (take n (contents c.output_buffer)) n) [
  | inl (s, o) ↦ rw (s, o)
  | inr (s, o) ↦ rw (s, o) (stream-advanced c n v)
]

-- `handleWrite` moves bytes from the front of the buffer to the kernel, whatever `write` answers:
-- none is lost, sent twice or sent out of turn.
pub stream-handle_write :
    (c : Connection) (answer : Syscall ℕ)
    → IsValid c.output_buffer
    → stream (handle_write c answer) ≡ stream c
unfolding handle_write
stream-handle_write c (failed e) v = elim (Bool-cases (writing c)) [
  | inl w ↦ ap stream (if-true _ _ w) ∙ rw (write_fd-failed c.output_buffer e, after_write)
  | inr w ↦ ap stream (if-false _ _ w)
]
stream-handle_write c (done n) v = elim (Bool-cases (writing c)) [
  | inl w ↦
      ap stream (if-true _ _ w) ∙ rw (write_fd_lem c.output_buffer n v) (stream-after_write c n v)
  | inr w ↦ ap stream (if-false _ _ w)
]
