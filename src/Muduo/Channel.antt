-- ===== src/Muduo/Channel.antt =====
-- cpp_learning_projects/muduo-mgkl/include/Channel.hpp and src/Channel.cpp: a file descriptor, the
-- events it waits for, and the callbacks. An `int` of epoll flags is the record of its bits. A
-- callback is known by whether it is set; what it does is the business of its owner.
pub mod Dispatch
mod Tests
use learn_note.Prelude.{ℕ, Bool, true, false, ◌&&◌, ◌||◌, not, List, [], ◌∷◌, ◌++◌, if◌then◌else◌}

-- EPOLLIN, EPOLLPRI, EPOLLOUT, EPOLLERR and EPOLLHUP.
pub record Flags : Type 0 where
  pub readable : Bool
  pub priority : Bool
  pub writable : Bool
  pub error : Bool
  pub hang_up : Bool

abbrev pub none_event : Flags
none_event = record {
  readable = false;
  priority = false;
  writable = false;
  error = false;
  hang_up = false;
}

abbrev pub read_event : Flags
read_event = record none_event { readable = true; priority = true }

abbrev pub write_event : Flags
write_event = record none_event { writable = true }

-- `a | b`, `a & b`, `a & ~b`, and the test that some bit is set.
abbrev pub flag_or : Flags → Flags → Flags
flag_or a b = record {
  readable = a.readable || b.readable;
  priority = a.priority || b.priority;
  writable = a.writable || b.writable;
  error = a.error || b.error;
  hang_up = a.hang_up || b.hang_up;
}

abbrev pub flag_and : Flags → Flags → Flags
flag_and a b = record {
  readable = a.readable && b.readable;
  priority = a.priority && b.priority;
  writable = a.writable && b.writable;
  error = a.error && b.error;
  hang_up = a.hang_up && b.hang_up;
}

abbrev pub flag_clear : Flags → Flags → Flags
flag_clear a b = record {
  readable = a.readable && not b.readable;
  priority = a.priority && not b.priority;
  writable = a.writable && not b.writable;
  error = a.error && not b.error;
  hang_up = a.hang_up && not b.hang_up;
}

abbrev pub any_flag : Flags → Bool
any_flag a = a.readable || a.priority || a.writable || a.error || a.hang_up

-- kNew, kAdded and kDeleted.
pub data Index : Type 0 where
  fresh added deleted : Index

pub record Channel : Type 0 where
  pub fd : ℕ
  pub events : Flags
  pub revents : Flags
  pub index : Index
  pub tied : Bool
  pub has_read : Bool
  pub has_write : Bool
  pub has_close : Bool
  pub has_error : Bool

unfoldable pub init : ℕ → Channel
init fd = record {
  fd = fd;
  events = none_event;
  revents = none_event;
  index = fresh;
  tied = false;
  has_read = false;
  has_write = false;
  has_close = false;
  has_error = false;
}

unfoldable pub tie : Channel → Channel
tie c = record c { tied = true }

abbrev pub is_none_event : Channel → Bool
is_none_event c = not (any_flag c.events)

abbrev pub is_writing : Channel → Bool
is_writing c = any_flag (flag_and c.events write_event)

abbrev pub is_reading : Channel → Bool
is_reading c = any_flag (flag_and c.events read_event)

-- The change that each of these makes before it calls `update()`.
pub data Interest : Type 0 where
  enable_reading disable_reading enable_writing disable_writing disable_all : Interest

unfoldable pub set_interest : Interest → Channel → Channel
set_interest enable_reading c = record c { events = flag_or c.events read_event }
set_interest disable_reading c = record c { events = flag_clear c.events read_event }
set_interest enable_writing c = record c { events = flag_or c.events write_event }
set_interest disable_writing c = record c { events = flag_clear c.events write_event }
set_interest disable_all c = record c { events = none_event }

pub data Callback : Type 0 where
  close error read write : Callback

-- `setReadCallback` and the like, with a callback or with an empty one.
unfoldable pub set_callback : Callback → (given : Bool) → Channel → Channel
set_callback close given c = record c { has_close = given }
set_callback error given c = record c { has_error = given }
set_callback read given c = record c { has_read = given }
set_callback write given c = record c { has_write = given }

unfoldable pub set_revents : Channel → Flags → Channel
set_revents c revents = record c { revents = revents }

abbrev pub when : Bool → Callback → List Callback
when b cb = if b then cb ∷ [] else []

-- The four tests in turn.
abbrev pub calls : Bool → Bool → Bool → Bool → List Callback
calls closes errs reads writes =
    when closes close ++ (when errs error ++ (when reads read ++ when writes write))

-- The callbacks that an event runs, in order.
unfoldable pub handle_event_with_guard : Channel → List Callback
handle_event_with_guard c =
    calls (c.revents.hang_up && not c.revents.readable && c.has_close)
      (c.revents.error && c.has_error) ((c.revents.readable || c.revents.priority) && c.has_read)
      (c.revents.writable && c.has_write)

-- `owner_alive` tells whether `tie_.lock()` gives the owner.
unfoldable pub handle_event : Channel → Bool → List Callback
unfolding handle_event_with_guard
handle_event c owner_alive =
    if c.tied
    then (if owner_alive then handle_event_with_guard c else [])
    else handle_event_with_guard c
