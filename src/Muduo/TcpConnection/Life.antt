-- ===== src/Muduo/TcpConnection/Life.antt =====
-- The life of a connection: what its loop, its server and its user can do to it, and in which states.
mod Counts
mod Quiet
pub mod History
use learn_note.Prelude.{
  ℕ, ◌+◌, ◌≡◌, ◌≢◌, ◌==◌, Bool, true, false, not, ◌&&◌, ◌||◌, List, [], ◌∷◌, if◌then◌else◌,
}
use learn_note.Muduo.Buffer.{Syscall}
use learn_note.Muduo.Channel.{
  Channel, Flags, Callback, close, error, read, write, handle_event, set_revents, any_flag,
}
use learn_note.Muduo.Poller.{Poller, put}
use learn_note.Muduo.TcpConnection
use learn_note.Muduo.TcpConnection.{
  State, connecting, connected, disconnecting, disconnected, Connection, Effect,
  connection_callback, close_callback, own_channel, send, send_in_loop, shutdown, shutdown_in_loop,
  send_file, send_file_in_loop, connect_established, connect_destroyed, handle_read, handle_write,
  handle_close, handle_error,
}

-- How far a connection has come: not yet up, up, or down.
abbrev pub age : State → ℕ
age connecting = 0
age connected = 1
age disconnecting = 1
age disconnected = 2

abbrev pub is_open : State → Bool
is_open s = age s == 1

-- What the system calls of one event answer: `readv` and `write`.
pub record Answers : Type 0 where
  pub reading : Syscall (List ℕ)
  pub writing : Syscall ℕ

-- The handler that the constructor set for each callback of the channel.
unfoldable pub handle : Answers → Connection → Callback → Connection
unfolding handle_close handle_error handle_read handle_write
handle answers c close = handle_close c
handle answers c error = handle_error c
handle answers c read = handle_read c answers.reading
handle answers c write = handle_write c answers.writing

unfoldable pub handle_all : Answers → Connection → List Callback → Connection
unfolding handle
handle_all answers c [] = c
handle_all answers c (cb ∷ cbs) = handle_all answers (handle answers c cb) cbs

-- The poller notes the events in the channel of a connection that still lives.
abbrev pub noted : Connection → Flags → Connection
noted c revents =
    let p = c.poller in
    record c {
      poller = record p { channel = put p.channel c.channel (set_revents (own_channel c) revents) };
    }

-- The loop hands an event to the channel, and the channel to the handlers.
unfoldable pub turn : Connection → Flags → Answers → Connection
unfolding handle_event handle_all
turn c revents answers =
    let active = noted c revents in
    handle_all answers active (handle_event (own_channel active) true)

-- A hang-up without EPOLLIN does not come with EPOLLPRI.
abbrev pub is_orderly : Flags → Bool
is_orderly f = not (f.hang_up && not f.readable && f.priority)

-- The poller delivers an event to a channel that waits for some. The server establishes a connection
-- once, and destroys it afterwards; a task that waited in the loop's queue runs at any time.
pub data Step (c : Connection) : Connection → Type 0 where
  establishes : c.state ≡ connecting → Step c (connect_established c)
  turns :
      (revents : Flags) (answers : Answers)
      → any_flag (own_channel c).events ≡ true
      → Step c (turn c revents answers)
  sends :
      (in_loop_thread : Bool) (bytes : List ℕ) (answer : Syscall ℕ)
      → Step c (send c in_loop_thread bytes answer)
  sends_later : (bytes : List ℕ) (answer : Syscall ℕ) → Step c (send_in_loop c bytes answer)
  shuts : (in_loop_thread : Bool) → Step c (shutdown c in_loop_thread)
  shuts_later : Step c (shutdown_in_loop c)
  sends_file :
      (in_loop_thread : Bool) (offset count : ℕ) (answer : Syscall ℕ)
      → Step c (send_file c in_loop_thread offset count answer)
  sends_file_later :
      (offset count : ℕ) (answer : Syscall ℕ) → Step c (send_file_in_loop c offset count answer)
  destroys : c.state ≢ connecting → Step c (connect_destroyed c)

-- What a new connection, on a channel of its poller, can come to.
pub data Reach (start : Connection) : Connection → Type 0 where
  here : Reach start start
  next : {c d : Connection} → Reach start c → Step c d → Reach start d

-- A step in which a send that waited in the queue runs while the connection is up, and an event is an
-- orderly one.
abbrev pub IsTimely : {c d : Connection} → Step c d → Type 0
IsTimely {c} (sends_later bytes answer) = is_open c.state ≡ true
IsTimely (turns revents answers waits) = is_orderly revents ≡ true
IsTimely _ = Unit {0}

abbrev pub AllTimely : {start c : Connection} → Reach start c → Type 0
AllTimely here = Unit {0}
AllTimely (next r s) = AllTimely r × IsTimely s
