-- ===== src/Muduo/TcpConnection/Life/Quiet.antt =====
-- The operations that neither open nor close a connection.
use learn_note.Prelude.{
  ℕ, ◌+◌, ◌==◌, ◌≡◌, refl, ap, ◌∙◌, sym, subst, Bool, true, false, Bool-cases, inl, inr, not, List,
  ◌++◌, if-true, if-false, ltb, length,
}
use learn_note.Muduo.Buffer.{Buffer, Syscall, done, failed, readable_bytes, retrieve, write_fd}
use learn_note.Muduo.Channel.{enable_writing, disable_writing}
use learn_note.Muduo.Poller.{change}
use learn_note.Muduo.TcpConnection.{
  State, connecting, connected, disconnecting, disconnected, Connection, queued, shut_write,
  error_logged, send, send_in_loop, shutdown, shutdown_in_loop, send_file, send_file_in_loop,
  handle_write, emit, emit_if, writing, want_writing, buffered, buffer_rest, settle, try_write,
  Attempt, is_idle, drained, after_write, after_send_file, file_rest, is_connected,
  is_disconnecting, write_complete,
}
use learn_note.Muduo.TcpConnection.Life.{age, is_open}
use learn_note.Muduo.TcpConnection.Life.Counts.{
  Quiet, Quiet-refl, Quiet-trans, Quiet-emit, Quiet-emit_if, Quiet-if, open-Quiet,
}

-- The operations whose answers only buffer, write or log.
want_writing-Quiet : (c : Connection) → is_open c.state ≡ true → Quiet c (want_writing c)
unfolding want_writing
want_writing-Quiet c up =
    Quiet-if (not (writing c)) c _ c
      (λ t.
        open-Quiet c (record c { poller = change c.poller enable_writing c.channel }) up refl refl)
      (λ t. Quiet-refl c)

buffered-Quiet :
    (c : Connection) (bytes : List ℕ) (nwrote remaining : ℕ)
    → Quiet c (buffered c bytes nwrote remaining)
unfolding buffered
buffered-Quiet c bytes nwrote remaining = same (Quiet-emit_if _ c _ refl)
  where
    same : {d : Connection} {b : Buffer} → Quiet c d → Quiet c (record d { output_buffer = b })
    same q = record {
      state = q.state;
      opening = q.opening;
      closing = q.closing;
      channel = q.channel;
    }

settle-Quiet :
    (c : Connection) (bytes : List ℕ) (a : Attempt)
    → is_open c.state ≡ true
    → Quiet c a.conn
    → Quiet c (settle bytes a)
unfolding settle buffer_rest
settle-Quiet c bytes a up q =
    let b = buffered a.conn bytes a.nwrote a.remaining in
    let kept = Quiet-trans q (buffered-Quiet a.conn bytes a.nwrote a.remaining) in
    Quiet-if _ c _ a.conn
      (λ t. Quiet-trans kept (want_writing-Quiet b (ap (λ n. n == 1) kept.state ∙ up))) (λ t. q)

try_write-Quiet :
    (c : Connection) (bytes : List ℕ) (answer : Syscall ℕ) → Quiet c (try_write c bytes answer).conn
unfolding try_write
try_write-Quiet c bytes (failed e) = Quiet-refl c
try_write-Quiet c bytes (done n) = same (Quiet-emit_if _ _ _ refl)
  where
    same : {d : Connection} {s : List ℕ} → Quiet (record c { sent = s }) d → Quiet c d
    same q = record {
      state = q.state;
      opening = q.opening;
      closing = q.closing;
      channel = q.channel;
    }

-- A send on an open connection.
pub send_in_loop-Quiet :
    (c : Connection) (bytes : List ℕ) (answer : Syscall ℕ)
    → is_open c.state ≡ true
    → Quiet c (send_in_loop c bytes answer)
unfolding send_in_loop
send_in_loop-Quiet c bytes answer up = elim (Bool-cases (is_idle c)) [
  | inl idle ↦
      subst (λ t. Quiet c (settle bytes t)) (sym (if-true _ _ idle))
        (settle-Quiet c bytes (try_write c bytes answer) up (try_write-Quiet c bytes answer))
  | inr busy ↦
      subst (λ t. Quiet c (settle bytes t)) (sym (if-false _ _ busy))
        (settle-Quiet c bytes
          (record { conn = c; nwrote = 0; remaining = length bytes; fault = false }) up
          (Quiet-refl c))
]

age-connected : (s : State) → is_connected s ≡ true → age s ≡ 1
age-connected connected h = refl
age-connected connecting h = absurd (cc h)
age-connected disconnecting h = absurd (cc h)
age-connected disconnected h = absurd (cc h)

pub send-Quiet :
    (c : Connection) (in_loop_thread : Bool) (bytes : List ℕ) (answer : Syscall ℕ)
    → Quiet c (send c in_loop_thread bytes answer)
unfolding send
send-Quiet c in_loop_thread bytes answer =
    Quiet-if (is_connected c.state) c _ c
      (λ up.
        Quiet-if in_loop_thread c _ _
          (λ t. send_in_loop-Quiet c bytes answer (ap (λ a. a == 1) (age-connected c.state up)))
          (λ t. Quiet-emit c _ refl))
      (λ t. Quiet-refl c)

pub shutdown_in_loop-Quiet : (c : Connection) → Quiet c (shutdown_in_loop c)
unfolding shutdown_in_loop
shutdown_in_loop-Quiet c =
    Quiet-if (not (writing c)) c _ c (λ t. Quiet-emit c shut_write refl) (λ t. Quiet-refl c)

pub shutdown-Quiet : (c : Connection) (in_loop_thread : Bool) → Quiet c (shutdown c in_loop_thread)
unfolding shutdown
shutdown-Quiet c in_loop_thread =
    let leaving = record c { state = disconnecting } in
    Quiet-if (is_connected c.state) c _ c
      (λ up. Quiet-trans (left up) (
        Quiet-if in_loop_thread leaving _ _ (λ t. shutdown_in_loop-Quiet leaving)
          (λ t. Quiet-emit leaving _ refl)))
      (λ t. Quiet-refl c)
  where
    left : is_connected c.state ≡ true → Quiet c (record c { state = disconnecting })
    left up = record {
      state = sym (age-connected c.state up);
      opening = refl;
      closing = refl;
      channel = λ s. refl;
    }

file_rest-Quiet :
    (c : Connection) (offset remaining : ℕ) (fault : Bool)
    → Quiet c (file_rest c offset remaining fault)
unfolding file_rest
file_rest-Quiet c offset remaining fault = Quiet-emit_if _ c _ refl

after_send_file-Quiet :
    (c : Connection) (offset count : ℕ) (answer : Syscall ℕ)
    → Quiet c (after_send_file c offset count answer)
unfolding after_send_file
after_send_file-Quiet c offset count (failed e) = file_rest-Quiet c offset count _
after_send_file-Quiet c offset count (done n) =
    Quiet-trans (Quiet-emit_if _ c _ refl) (file_rest-Quiet _ (offset + n) _ false)

pub send_file_in_loop-Quiet :
    (c : Connection) (offset count : ℕ) (answer : Syscall ℕ)
    → Quiet c (send_file_in_loop c offset count answer)
unfolding send_file_in_loop
send_file_in_loop-Quiet c offset count answer =
    Quiet-if (is_disconnecting c.state) c (emit c error_logged) _
      (λ t. Quiet-emit c error_logged refl)
      (λ t.
        Quiet-if (is_idle c) c _ _ (λ t. after_send_file-Quiet c offset count answer)
          (λ t. file_rest-Quiet c offset count false))

pub send_file-Quiet :
    (c : Connection) (in_loop_thread : Bool) (offset count : ℕ) (answer : Syscall ℕ)
    → Quiet c (send_file c in_loop_thread offset count answer)
unfolding send_file
send_file-Quiet c in_loop_thread offset count answer =
    Quiet-if (is_connected c.state) c _ _
      (λ up.
        Quiet-if in_loop_thread c _ _ (λ t. send_file_in_loop-Quiet c offset count answer)
          (λ t. Quiet-emit c _ refl))
      (λ t. Quiet-emit c error_logged refl)

-- Draining the output buffer of an open connection.
drained-Quiet : (c : Connection) → is_open c.state ≡ true → Quiet c (drained c)
unfolding drained
drained-Quiet c up =
    let idle = record c { poller = change c.poller disable_writing c.channel } in
    let told = emit_if c.has_write_complete idle (queued write_complete) in
    let kept : Quiet c told =
      Quiet-trans (open-Quiet c idle up refl refl)
        (Quiet-emit_if c.has_write_complete idle (queued write_complete) refl) in
    Quiet-if (is_disconnecting c.state) c (shutdown_in_loop told) told
      (λ t. Quiet-trans kept (shutdown_in_loop-Quiet told)) (λ t. kept)

after_write-Quiet :
    (c : Connection) (bytes : List ℕ) (answer : Syscall ℕ)
    → is_open c.state ≡ true
    → Quiet c (after_write c bytes answer)
unfolding after_write
after_write-Quiet c bytes (failed e) up = Quiet-emit c error_logged refl
after_write-Quiet c bytes (done n) up =
    let left = retrieve c.output_buffer n in
    let c' = record c { sent = c.sent ++ bytes; output_buffer = left } in
    let kept : Quiet c c' = open-Quiet c c' up refl refl in
    Quiet-if (ltb 0 n) c _ _
      (λ t.
        Quiet-if (readable_bytes left == 0) c (drained c') c'
          (λ e. Quiet-trans kept (drained-Quiet c' up)) (λ e. kept))
      (λ t. Quiet-emit c error_logged refl)

-- An event for writing, on an open connection or on one that does not wait to write.
pub handle_write-Quiet :
    (c : Connection) (answer : Syscall ℕ)
    → (is_open c.state ≡ false → writing c ≡ false)
    → Quiet c (handle_write c answer)
unfolding handle_write
handle_write-Quiet c answer still =
    let (bytes, n) = write_fd c.output_buffer answer in
    Quiet-if (writing c) c _ _
      (λ w. after_write-Quiet c bytes n (elim (Bool-cases (is_open c.state)) [
        | inl up ↦ up
        | inr down ↦ absurd (cc (w, still down))
      ]))
      (λ w. Quiet-emit c error_logged refl)
