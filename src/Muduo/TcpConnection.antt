-- ===== src/Muduo/TcpConnection.antt =====
-- cpp_learning_projects/muduo-mgkl/src/TcpConnection.cpp and include/TcpConnection.hpp: one connection
-- on its loop, with the loop's poller. What a system call answers is an argument of the handler that
-- makes it; a user's callback is recorded where it is called, and what it does is not modelled.
pub mod Stream
pub mod Interest
pub mod Closing
pub mod Closed
pub mod Callbacks
pub mod Life
mod Tests
use learn_note.Prelude.{
  ℕ, ◌+◌, ◌*◌, ◌==◌, Bool, true, false, not, ◌&&◌, ◌||◌, List, [], ◌∷◌, ◌++◌, if◌then◌else◌, ltb,
  leb, length, take, drop, sub_size, add_size,
}
use learn_note.Muduo.Buffer
use learn_note.Muduo.Buffer.{
  Buffer, Syscall, done, failed, readable_bytes, retrieve, append, read_fd, write_fd,
}
use learn_note.Muduo.Channel
use learn_note.Muduo.Channel.{
  Channel, set_callback, close, error, read, write, is_writing, tie, enable_reading, enable_writing,
  disable_writing, disable_all,
}
use learn_note.Muduo.Poller.{Poller, put, change}

-- StateE: kConnecting, kConnected, kDisconnecting, kDisconnected.
pub data State : Type 0 where
  connecting connected disconnecting disconnected : State

-- What a connection hands to its loop by `queueInLoop`.
pub data Task : Type 0 where
  write_complete : Task
  high_water : ℕ → Task
  send_later : List ℕ → Task
  shutdown_later : Task
  send_file_later : ℕ → ℕ → Task

-- What a connection does to the world, but for the bytes that it sends.
pub data Effect : Type 0 where
  queued : Task → Effect
  shut_write : Effect
  connection_callback message_callback close_callback : Effect
  error_logged : Effect

-- `channel` is the pointer to the channel in the poller's store; `effects` are newest first, and
-- `sent` are the bytes that the kernel took, oldest first.
pub record Connection : Type 0 where
  pub state : State
  pub poller : Poller
  pub channel : ℕ
  pub high_water_mark : ℕ
  pub input_buffer : Buffer
  pub output_buffer : Buffer
  pub has_write_complete : Bool
  pub has_high_water : Bool
  pub sent : List ℕ
  pub effects : List Effect

-- EWOULDBLOCK, EPIPE and ECONNRESET on Linux.
abbrev pub would_block : ℕ
would_block = 11

abbrev pub broken_pipe : ℕ
broken_pipe = 32

abbrev pub reset_by_peer : ℕ
reset_by_peer = 104

abbrev pub is_fault : ℕ → Bool
is_fault e = not (e == would_block) && (e == broken_pipe || e == reset_by_peer)

-- The channel that the constructor makes, with its four callbacks set.
abbrev pub new_channel : ℕ → Channel
new_channel sockfd = set_callback error true (
    set_callback close true
      (set_callback write true (set_callback read true (Channel.init sockfd))))

unfoldable pub init : Poller → (channel sockfd : ℕ) → Connection
init poller channel sockfd = record {
  state = connecting;
  poller = record poller { channel = put poller.channel channel (new_channel sockfd) };
  channel = channel;
  high_water_mark = 64 * 1024 * 1024;
  input_buffer = Buffer.init Buffer.initial_size;
  output_buffer = Buffer.init Buffer.initial_size;
  has_write_complete = false;
  has_high_water = false;
  sent = [];
  effects = [];
}

abbrev pub emit : Connection → Effect → Connection
emit c e = record c { effects = e ∷ c.effects }

abbrev pub emit_if : Bool → Connection → Effect → Connection
emit_if b c e = if b then emit c e else c

abbrev pub own_channel : Connection → Channel
own_channel c = c.poller.channel c.channel

abbrev pub writing : Connection → Bool
writing c = is_writing (own_channel c)

-- `connected()`.
abbrev pub is_connected : State → Bool
is_connected connected = true
is_connected _ = false

abbrev pub is_disconnecting : State → Bool
is_disconnecting disconnecting = true
is_disconnecting _ = false

-- What the attempt to write at once came to.
pub record Attempt : Type 0 where
  pub conn : Connection
  pub nwrote : ℕ
  pub remaining : ℕ
  pub fault : Bool

-- The answer of `::write`.
unfoldable pub try_write : Connection → List ℕ → Syscall ℕ → Attempt
try_write c bytes (failed e) = record {
  conn = c;
  nwrote = 0;
  remaining = length bytes;
  fault = is_fault e;
}
try_write c bytes (done n) =
    let remaining = sub_size (length bytes) n in
    record {
      conn =
          emit_if (remaining == 0 && c.has_write_complete)
            (record c { sent = c.sent ++ take n bytes }) (queued write_complete);
      nwrote = n;
      remaining = remaining;
      fault = false;
    }

-- `if (!channel_->isWriting()) channel_->enableWriting();`.
unfoldable pub want_writing : Connection → Connection
want_writing c =
    if not (writing c) then record c { poller = change c.poller enable_writing c.channel } else c

-- The high-water mark is told when it is reached, and the rest goes to the output buffer.
unfoldable pub buffered : Connection → List ℕ → ℕ → ℕ → Connection
buffered c bytes nwrote remaining =
    let old_len = readable_bytes c.output_buffer in
    let total = add_size old_len remaining in
    let marked =
      emit_if (leb c.high_water_mark total && ltb old_len c.high_water_mark && c.has_high_water) c
        (queued (high_water total)) in
    record marked { output_buffer = append c.output_buffer (take remaining (drop nwrote bytes)) }

unfoldable pub buffer_rest : Connection → List ℕ → ℕ → ℕ → Connection
unfolding buffered want_writing
buffer_rest c bytes nwrote remaining = want_writing (buffered c bytes nwrote remaining)

-- The test that nothing waits to be written.
abbrev pub is_idle : Connection → Bool
is_idle c = not (writing c) && readable_bytes c.output_buffer == 0

unfoldable pub settle : List ℕ → Attempt → Connection
unfolding buffer_rest
settle bytes a =
    if not a.fault && ltb 0 a.remaining
    then buffer_rest a.conn bytes a.nwrote a.remaining
    else a.conn

-- `answer` is what `::write` gives, if it is called. That the state is `kDisconnected` is logged, and
-- the function goes on.
unfoldable pub send_in_loop : Connection → List ℕ → Syscall ℕ → Connection
unfolding try_write settle
send_in_loop c bytes answer = settle bytes (
    if is_idle c
    then try_write c bytes answer
    else record { conn = c; nwrote = 0; remaining = length bytes; fault = false })

unfoldable pub send : Connection → (in_loop_thread : Bool) → List ℕ → Syscall ℕ → Connection
unfolding send_in_loop
send c in_loop_thread bytes answer =
    if is_connected c.state
    then (if in_loop_thread
        then send_in_loop c bytes answer
        else emit c (queued (send_later bytes)))
    else c

unfoldable pub shutdown_in_loop : Connection → Connection
shutdown_in_loop c = if not (writing c) then emit c shut_write else c

unfoldable pub shutdown : Connection → (in_loop_thread : Bool) → Connection
unfolding shutdown_in_loop
shutdown c in_loop_thread =
    let leaving = record c { state = disconnecting } in
    if is_connected c.state
    then (if in_loop_thread then shutdown_in_loop leaving else emit leaving (queued shutdown_later))
    else c

unfoldable pub connect_established : Connection → Connection
connect_established c =
    let p = c.poller in
    let tied = record p { channel = put p.channel c.channel (tie (own_channel c)) } in
    emit (record c { state = connected; poller = change tied enable_reading c.channel })
      connection_callback

-- `connectDestroted`.
unfoldable pub connect_destroyed : Connection → Connection
connect_destroyed c =
    if is_connected c.state
    then emit (record c { state = disconnected; poller = change c.poller disable_all c.channel })
        connection_callback
    else c

unfoldable pub handle_close : Connection → Connection
handle_close c =
    let closed = record c {
      state = disconnected;
      poller = change c.poller disable_all c.channel;
    } in
    emit (emit closed connection_callback) close_callback

unfoldable pub handle_error : Connection → Connection
handle_error c = emit c error_logged

-- What `handleRead` does by the value of `n`.
unfoldable pub after_read : Connection → Syscall ℕ → Connection
unfolding handle_error handle_close
after_read c (failed e) = handle_error c
after_read c (done n) = if n == 0 then handle_close c else emit c message_callback

unfoldable pub handle_read : Connection → Syscall (List ℕ) → Connection
unfolding after_read
handle_read c answer =
    let (buffer, n) = read_fd c.input_buffer answer in
    after_read (record c { input_buffer = buffer }) n

-- The output buffer is empty: nothing is left to write.
unfoldable pub drained : Connection → Connection
unfolding shutdown_in_loop
drained c =
    let idle = record c { poller = change c.poller disable_writing c.channel } in
    let told = emit_if c.has_write_complete idle (queued write_complete) in
    if is_disconnecting c.state then shutdown_in_loop told else told

unfoldable pub after_write : Connection → List ℕ → Syscall ℕ → Connection
unfolding drained
after_write c bytes (failed e) = emit c error_logged
after_write c bytes (done n) =
    let left = retrieve c.output_buffer n in
    let c' = record c { sent = c.sent ++ bytes; output_buffer = left } in
    if ltb 0 n then (if readable_bytes left == 0 then drained c' else c') else emit c error_logged

unfoldable pub handle_write : Connection → Syscall ℕ → Connection
unfolding after_write
handle_write c answer =
    let (bytes, n) = write_fd c.output_buffer answer in
    if writing c then after_write c bytes n else emit c error_logged

-- `sent` counts no bytes of a file: they do not pass through the connection.
unfoldable pub file_rest : Connection → ℕ → ℕ → Bool → Connection
file_rest c offset remaining fault =
    emit_if (not fault && ltb 0 remaining) c (queued (send_file_later offset remaining))

unfoldable pub after_send_file : Connection → ℕ → ℕ → Syscall ℕ → Connection
unfolding file_rest
after_send_file c offset count (failed e) =
    file_rest c offset count (e == broken_pipe || e == reset_by_peer)
after_send_file c offset count (done n) =
    let remaining = sub_size count n in
    file_rest (emit_if (remaining == 0 && c.has_write_complete) c (queued write_complete))
      (offset + n) remaining false

-- `sendfile` moves the offset by what it sent.
unfoldable pub send_file_in_loop : Connection → ℕ → ℕ → Syscall ℕ → Connection
unfolding file_rest after_send_file
send_file_in_loop c offset count answer =
    if is_disconnecting c.state
    then emit c error_logged
    else (if is_idle c
        then after_send_file c offset count answer
        else file_rest c offset count false)

unfoldable pub send_file : Connection → (in_loop_thread : Bool) → ℕ → ℕ → Syscall ℕ → Connection
unfolding send_file_in_loop
send_file c in_loop_thread offset count answer =
    if is_connected c.state
    then (if in_loop_thread
        then send_file_in_loop c offset count answer
        else emit c (queued (send_file_later offset count)))
    else emit c error_logged
