-- ===== src/Muduo/TcpConnection/Tests.antt =====
-- A connection with nothing to write and one with two bytes waiting.
use learn_note.Prelude.{◌≡◌, refl, true, [], ◌∷◌, arith, slice}
use learn_note.Muduo.Buffer.{Buffer, readable_bytes, done, failed}
use learn_note.Muduo.Buffer.Bounds.{IsValid}
use learn_note.Muduo.Channel
use learn_note.Muduo.Channel.{
  added, tie, read_event, write_event, flag_or, handle_event, handle_event_with_guard, set_callback,
  set_revents, Flags, enable_reading, enable_writing, set_interest,
}
use learn_note.Muduo.Poller
use learn_note.Muduo.Poller.{Poller, change, has_channel}
use learn_note.Muduo.Poller.Protocol.{Inv, run, run-init-Inv, change-Inv}
use learn_note.Muduo.TcpConnection
use learn_note.Muduo.TcpConnection.Life.{
  Answers, turn, handle_all, Reach, here, next, establishes, turns, shuts, destroys,
}
use learn_note.Muduo.TcpConnection.Life.History.{Told, Reach-init-Told}
use learn_note.Muduo.TcpConnection.{
  Connection, connected, disconnecting, queued, write_complete, shut_write, error_logged, writing,
  send_in_loop, handle_write, handle_close, connect_destroyed, shutdown, shutdown_in_loop,
  connect_established, handle_read, after_read, try_write, settle, buffer_rest,
}
use learn_note.Muduo.TcpConnection.Stream.{stream, Sound, stream-send_in_loop, stream-handle_write}
use learn_note.Muduo.TcpConnection.Interest.{Balanced, handle_write-send_in_loop-Balanced}
use learn_note.Muduo.TcpConnection.Closed.{closed-has_channel}
use learn_note.Muduo.TcpConnection.Closing.{shutdown_after_drain}

abbrev blank : Poller
blank = Poller.init (λ p. Channel.init p)

abbrev reading : Poller
reading = change blank enable_reading 3

reading-Inv : Inv reading
unfolding run Channel.init
reading-Inv =
    change-Inv blank 3 (run-init-Inv (λ p. Channel.init p) [] (λ p. refl) (λ p q ne. ne))
      enable_reading

abbrev two_bytes : Buffer
two_bytes = record {
  buffer = 0 ∷ 0 ∷ 0 ∷ 0 ∷ 0 ∷ 0 ∷ 0 ∷ 0 ∷ 1 ∷ 2 ∷ 3 ∷ 4 ∷ [];
  reader_index = 10;
  writer_index = 12;
}

abbrev idle : Connection
idle = record {
  state = connected;
  poller = reading;
  channel = 3;
  high_water_mark = 4;
  input_buffer = two_bytes;
  output_buffer = record two_bytes { reader_index = 8; writer_index = 8 };
  has_write_complete = true;
  has_high_water = true;
  sent = 1 ∷ 2 ∷ [];
  effects = [];
}

abbrev busy : Connection
busy = record idle { poller = change reading enable_writing 3; output_buffer = two_bytes }

idle-Sound : Sound idle 3
idle-Sound = omega arith

two_bytes-IsValid : IsValid two_bytes
two_bytes-IsValid = omega arith

idle-Balanced : Balanced idle
unfolding change Poller.init Channel.init readable_bytes
idle-Balanced = refl

busy-writing : writing busy ≡ true
unfolding change Poller.init Channel.init
busy-writing = refl

busy-Balanced : Balanced busy
unfolding readable_bytes
busy-Balanced = busy-writing

-- The kernel takes one of three bytes.
stream-send_in_loop_example :
    stream (send_in_loop idle (5 ∷ 6 ∷ 7 ∷ []) (done 1)) ≡ 1 ∷ 2 ∷ 5 ∷ 6 ∷ 7 ∷ []
unfolding slice
stream-send_in_loop_example =
    stream-send_in_loop idle (5 ∷ 6 ∷ 7 ∷ []) (done 1) idle-Sound (omega arith) (omega arith)

stream-handle_write_example : stream (handle_write busy (done 1)) ≡ 1 ∷ 2 ∷ 3 ∷ 4 ∷ []
unfolding slice
stream-handle_write_example = stream-handle_write busy (done 1) two_bytes-IsValid

handle_write-send_in_loop-Balanced_example :
    Balanced (send_in_loop idle (5 ∷ 6 ∷ 7 ∷ []) (done 1))
    × Balanced (handle_write (send_in_loop idle (5 ∷ 6 ∷ 7 ∷ []) (done 1)) (done 2))
handle_write-send_in_loop-Balanced_example =
    handle_write-send_in_loop-Balanced idle (5 ∷ 6 ∷ 7 ∷ []) (done 1) (done 2) idle-Sound
      (omega arith) (omega arith) idle-Balanced

closed-has_channel_example : has_channel (connect_destroyed (handle_close idle)).poller 3 ≡ true
closed-has_channel_example = closed-has_channel idle reading-Inv

shutdown_after_drain_example :
    ((shutdown busy true).effects ≡ [])
    × ((shutdown busy true).state ≡ disconnecting)
    × ((handle_write (shutdown busy true) (done (readable_bytes two_bytes))).effects
        ≡ shut_write ∷ queued write_complete ∷ [])
    × ((handle_write (shutdown busy true) (done (readable_bytes two_bytes))).sent
        ≡ 1 ∷ 2 ∷ 3 ∷ 4 ∷ [])
    × ((handle_write (shutdown busy true) (done 1)).effects ≡ [])
    × ((handle_write (shutdown busy true) (done 1)).state ≡ disconnecting)
    × (writing (handle_write (shutdown busy true) (done 1)) ≡ true)
    × ((handle_write (shutdown busy true) (failed 32)).effects ≡ error_logged ∷ [])
    × (writing (handle_write (shutdown busy true) (failed 32)) ≡ true)
unfolding slice readable_bytes
shutdown_after_drain_example =
    shutdown_after_drain busy 1 32 two_bytes-IsValid refl busy-writing (omega arith)

abbrev new : Connection
new = TcpConnection.init blank 3 9

abbrev no_bytes : Answers
no_bytes = record { reading = done []; writing = done 0 }

abbrev hung_up : Flags
hung_up = record write_event { hang_up = true }

-- The user shuts the connection, the peer hangs up, and the server destroys it.
abbrev gone : Connection
gone = connect_destroyed (turn (shutdown (connect_established new) true) hung_up no_bytes)

gone-Reach : Reach new gone
unfolding TcpConnection.init Poller.init Channel.init set_callback connect_established change tie
    shutdown shutdown_in_loop turn set_revents handle_event handle_event_with_guard handle_all
    handle_write handle_close
gone-Reach =
    next (next (next (next here (establishes refl)) (shuts true)) (turns hung_up no_bytes refl))
      (destroys (λ h. absurd (cc h)))

Reach-init-Told_example : Told gone
unfolding gone-Reach
Reach-init-Told_example = Reach-init-Told blank 3 9 gone gone-Reach ((((tt, tt), tt), refl), tt)
