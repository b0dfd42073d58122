-- ===== src/Muduo/Acceptor.antt =====
-- cpp_learning_projects/muduo-mgkl/src/Acceptor.cpp, include/Acceptor.hpp and Socket::accept: the
-- listening channel of a server. What `accept4` answers is an argument.
pub mod Lifetime
mod Tests
use learn_note.Prelude.{ℕ, Bool, true, false, ◌==◌, if◌then◌else◌}
use learn_note.Muduo.Buffer.{Syscall, done, failed}
use learn_note.Muduo.Channel.{enable_reading, disable_all}
use learn_note.Muduo.Poller.{Poller, change, remove_channel}

pub record Acceptor : Type 0 where
  pub channel : ℕ
  pub listening : Bool
  pub has_callback : Bool

unfoldable pub init : ℕ → Acceptor
init channel = record { channel = channel; listening = false; has_callback = false }

pub set_callback : Acceptor → Acceptor
set_callback a = record a { has_callback = true }

unfoldable pub listen : Acceptor → Poller → Acceptor × Poller
listen a s = (record a { listening = true }, change s enable_reading a.channel)

-- `~Acceptor()`.
unfoldable pub destroy : Acceptor → Poller → Poller
destroy a s = remove_channel (change s disable_all a.channel) a.channel

-- What becomes of a connection that the kernel accepted.
pub data Outcome : Type 0 where
  handed_over : ℕ → Outcome
  closed : ℕ → Outcome
  refused : (no_more_files : Bool) → Outcome

-- EMFILE on Linux.
abbrev pub too_many_files : ℕ
too_many_files = 24

unfoldable pub handle_read : Acceptor → Syscall ℕ → Outcome
handle_read a (done fd) = if a.has_callback then handed_over fd else closed fd
handle_read a (failed e) = refused (e == too_many_files)
