-- ===== src/Muduo/TcpConnection/Interest.antt =====
-- When a connection waits to write: just while bytes wait in its output buffer.
use learn_note.Prelude.{
  ℕ, ◌-◌, ◌≤◌, ◌<◌, ◌==◌, ◌≡◌, refl, sym, subst, ap, ◌∙◌, inl, inr, Bool, true, false, Bool-cases,
  not, ◌&&◌, List, ◌++◌, arith, length, drop, length-drop, ltb, if-true, if-false, if◌then◌else◌,
  take_all,
}
use learn_note.Muduo.Buffer.{
  Buffer, Syscall, done, failed, readable_bytes, retrieve, append, write_fd,
}
use learn_note.Muduo.Buffer.Bounds.{max_size}
use learn_note.Muduo.Buffer.Contents.{readable_bytes-append}
use learn_note.Muduo.Channel.{is_writing, enable_writing, disable_writing, set_interest}
use learn_note.Muduo.Poller.{Poller, change}
use learn_note.Muduo.Poller.Protocol.{change-channel}
use learn_note.Muduo.TcpConnection.{
  Connection, Effect, Attempt, is_idle, writing, try_write, want_writing, buffered, buffer_rest,
  settle, send_in_loop, drained, after_write, handle_write, emit_if, queued, write_complete,
  is_disconnecting, shutdown_in_loop, shut_write, emit, error_logged,
}
use learn_note.Muduo.TcpConnection.Stream.{Sound, Answers, try_write-Sound}

-- The connection waits to write exactly while there is something to write.
abbrev pub Balanced : Connection → Type 0
Balanced c = writing c ≡ ltb 0 (readable_bytes c.output_buffer)

writing_enabled : (s : Poller) (p : ℕ) → is_writing ((change s enable_writing p).channel p) ≡ true
unfolding set_interest
writing_enabled s p = rw (change-channel s enable_writing p) (ground arith)

pub writing_disabled :
    (s : Poller) (p : ℕ) → is_writing ((change s disable_writing p).channel p) ≡ false
unfolding set_interest
writing_disabled s p = rw (change-channel s disable_writing p) (ground arith)

pub want_writing-parts :
    (c : Connection)
    → (writing (want_writing c) ≡ true)
      × ((want_writing c).output_buffer ≡ c.output_buffer)
      × ((want_writing c).sent ≡ c.sent)
unfolding want_writing
want_writing-parts c = elim (Bool-cases (writing c)) [
  | inl w ↦
      let same : want_writing c ≡ c = if-false _ _ (ap not w) in
      (
        ap writing same ∙ w,
        ap (λ (d : Connection). d.output_buffer) same,
        ap (λ (d : Connection). d.sent) same,
      )
  | inr w ↦
      let armed : want_writing c ≡ record c { poller = change c.poller enable_writing c.channel } =
        if-true _ _ (ap not w) in
      (
        ap writing armed ∙ writing_enabled c.poller c.channel,
        ap (λ (d : Connection). d.output_buffer) armed,
        ap (λ (d : Connection). d.sent) armed,
      )
]

-- What is buffered, while there is something, leaves the connection waiting to write.
buffered-output :
    (c : Connection) (bytes : List ℕ) (nwrote remaining : ℕ)
    → remaining ≡ length bytes - nwrote
    → (buffered c bytes nwrote remaining).output_buffer ≡ append c.output_buffer (drop nwrote bytes)
unfolding buffered
buffered-output c bytes nwrote remaining left =
    ap (append c.output_buffer)
      (take_all remaining (drop nwrote bytes) (omega (arith, left, length-drop nwrote bytes)))

buffer_rest-Balanced :
    (c : Connection) (bytes : List ℕ) (nwrote remaining : ℕ)
    → Sound c (length bytes)
    → nwrote < length bytes
    → remaining ≡ length bytes - nwrote
    → Balanced (buffer_rest c bytes nwrote remaining)
unfolding buffer_rest
buffer_rest-Balanced c bytes nwrote remaining v h left =
    let parts = want_writing-parts (buffered c bytes nwrote remaining) in
    parts.0
    ∙ sym (
        ap (λ b. ltb 0 (readable_bytes b)) (parts.1 ∙ buffered-output c bytes nwrote remaining left)
        ∙ filled)
  where
    filled : ltb 0 (readable_bytes (append c.output_buffer (drop nwrote bytes))) ≡ true
    filled = ground (
      arith,
      readable_bytes-append c.output_buffer (drop nwrote bytes) v.valid
          (omega (arith, v.fits, length-drop nwrote bytes)),
      length-drop nwrote bytes,
    )

settle-Balanced :
    (bytes : List ℕ) (a : Attempt)
    → Sound a.conn (length bytes)
    → Balanced a.conn
    → a.remaining ≡ length bytes - a.nwrote
    → Balanced (settle bytes a)
unfolding settle
settle-Balanced bytes a v b left = elim (Bool-cases (not a.fault && ltb 0 a.remaining)) [
  | inl t ↦
      subst Balanced (sym (if-true _ _ t))
        (buffer_rest-Balanced a.conn bytes a.nwrote a.remaining v (ground arith) left)
  | inr t ↦ subst Balanced (sym (if-false _ _ t)) b
]

emit_if-Balanced : (b : Bool) (c : Connection) (e : Effect) → Balanced c → Balanced (emit_if b c e)
emit_if-Balanced true c e h = h
emit_if-Balanced false c e h = h

try_write-Balanced :
    (c : Connection) (bytes : List ℕ) (answer : Syscall ℕ)
    → Balanced c
    → Balanced (try_write c bytes answer).conn
unfolding try_write
try_write-Balanced c bytes (failed e) b = b
try_write-Balanced c bytes (done n) b = emit_if-Balanced _ _ _ b

try_write-remaining :
    (c : Connection) (bytes : List ℕ) (answer : Syscall ℕ)
    → length bytes ≤ max_size
    → Answers (length bytes) answer
    → (try_write c bytes answer).remaining ≡ length bytes - (try_write c bytes answer).nwrote
unfolding try_write
try_write-remaining c bytes (failed e) h a = omega arith
try_write-remaining c bytes (done n) h a = omega arith

attempt-Sound :
    (c : Connection) (bytes : List ℕ) (answer : Syscall ℕ)
    → Sound c (length bytes)
    → Sound (try_write c bytes answer).conn (length bytes)
unfolding try_write
attempt-Sound c bytes (failed e) v = v
attempt-Sound c bytes (done n) v = try_write-Sound c bytes n v

-- A send keeps the connection waiting to write exactly while bytes wait in the output buffer.
pub send_in_loop-Balanced :
    (c : Connection) (bytes : List ℕ) (answer : Syscall ℕ)
    → Sound c (length bytes)
    → length bytes ≤ max_size
    → Answers (length bytes) answer
    → Balanced c
    → Balanced (send_in_loop c bytes answer)
unfolding send_in_loop
send_in_loop-Balanced c bytes answer v h a b = elim (Bool-cases (is_idle c)) [
  | inl idle ↦
      subst (λ t. Balanced (settle bytes t)) (sym (if-true _ _ idle))
        (settle-Balanced bytes (try_write c bytes answer) (attempt-Sound c bytes answer v)
          (try_write-Balanced c bytes answer b) (try_write-remaining c bytes answer h a))
  | inr busy ↦
      subst (λ t. Balanced (settle bytes t)) (sym (if-false _ _ busy))
        (settle-Balanced bytes
          (record { conn = c; nwrote = 0; remaining = length bytes; fault = false }) v b
          (omega arith))
]

shutdown_in_loop-keeps :
    (c : Connection)
    → (writing (shutdown_in_loop c) ≡ writing c)
      × ((shutdown_in_loop c).output_buffer ≡ c.output_buffer)
unfolding shutdown_in_loop
shutdown_in_loop-keeps c = either (not (writing c))
  where
    either :
        (b : Bool)
        → let d = if b then emit c shut_write else c in
          (writing d ≡ writing c) × (d.output_buffer ≡ c.output_buffer)
    either true = (refl, refl)
    either false = (refl, refl)

-- Once drained, the connection does not wait to write.
drained-Balanced : (c : Connection) → readable_bytes c.output_buffer ≡ 0 → Balanced (drained c)
unfolding drained
drained-Balanced c empty = either (is_disconnecting c.state)
  where
    idle : Connection
    idle = record c { poller = change c.poller disable_writing c.channel }

    told : Connection
    told = emit_if c.has_write_complete idle (queued write_complete)

    told-Balanced : Balanced told
    told-Balanced =
        emit_if-Balanced c.has_write_complete idle (queued write_complete)
          (writing_disabled c.poller c.channel ∙ sym (ap (ltb 0) empty))

    either : (b : Bool) → Balanced (if b then shutdown_in_loop told else told)
    either true =
        let k = shutdown_in_loop-keeps told in
        k.0 ∙ told-Balanced ∙ sym (ap (λ o. ltb 0 (readable_bytes o)) k.1)
    either false = told-Balanced

after_write-Balanced :
    (c : Connection) (bytes : List ℕ) (answer : Syscall ℕ)
    → writing c ≡ true
    → Balanced c
    → Balanced (after_write c bytes answer)
unfolding after_write
after_write-Balanced c bytes (failed e) w b = b
after_write-Balanced c bytes (done n) w b = elim (Bool-cases (ltb 0 n)) [
  | inl t ↦ subst Balanced (sym (if-true _ _ t)) (elim (Bool-cases (readable_bytes left == 0)) [
    | inl e ↦ subst Balanced (sym (if-true _ _ e)) (drained-Balanced next (ground arith))
    | inr e ↦ subst Balanced (sym (if-false _ _ e)) (w ∙ sym (some_left e))
  ])
  | inr t ↦ subst Balanced (sym (if-false _ _ t)) b
]
  where
    left : Buffer
    left = retrieve c.output_buffer n

    next : Connection
    next = record c { sent = c.sent ++ bytes; output_buffer = left }

    some_left : (readable_bytes left == 0) ≡ false → ltb 0 (readable_bytes left) ≡ true
    some_left e = ground arith

-- So does `handleWrite`: it stops waiting when, and only when, it has emptied the buffer.
pub handle_write-Balanced :
    (c : Connection) (answer : Syscall ℕ) → Balanced c → Balanced (handle_write c answer)
unfolding handle_write
handle_write-Balanced c answer b = elim (Bool-cases (writing c)) [
  | inl w ↦ subst Balanced (sym (if-true wrote silent w)) (
      after_write-Balanced c (write_fd c.output_buffer answer).0 (write_fd c.output_buffer answer).1
        w b)
  | inr w ↦ subst Balanced (sym (if-false wrote silent w)) b
]
  where
    wrote : Connection
    wrote = after_write c (write_fd c.output_buffer answer).0 (write_fd c.output_buffer answer).1

    silent : Connection
    silent = emit c error_logged

-- After a send, and after the write that the loop makes next, whatever the kernel answers to each, the connection
-- waits to write exactly while bytes wait in its output buffer, if it did before.
pub handle_write-send_in_loop-Balanced :
    (c : Connection) (bytes : List ℕ) (answer written : Syscall ℕ)
    → Sound c (length bytes)
    → length bytes ≤ max_size
    → Answers (length bytes) answer
    → Balanced c
    → Balanced (send_in_loop c bytes answer)
      × Balanced (handle_write (send_in_loop c bytes answer) written)
handle_write-send_in_loop-Balanced c bytes answer written v h a b =
    let sent = send_in_loop-Balanced c bytes answer v h a b in
    (sent, handle_write-Balanced (send_in_loop c bytes answer) written sent)
