-- ===== src/Muduo/Poller.antt =====
-- cpp_learning_projects/muduo-mgkl/src/EPollPoller.cpp, src/Poller.cpp and include/Poller.hpp: which
-- channels a poller knows, and the `epoll_ctl` calls that it makes. A `Channel *` is a number, and the
-- channels live in a store. What `epoll_wait` delivers is an argument.
pub mod Protocol
pub mod Polling
mod Tests
use learn_note.Prelude.{
  ℕ, ◌+◌, ◌*◌, ◌==◌, Bool, true, false, ◌&&◌, Option, none, some, List, [], ◌∷◌, ◌++◌,
  if◌then◌else◌, length,
}
use learn_note.Muduo.Channel.{
  Channel, Flags, Index, fresh, added, deleted, Interest, set_interest, is_none_event,
}
use learn_note.Muduo.Buffer.{Syscall, done, failed}

-- EPOLL_CTL_ADD, EPOLL_CTL_MOD and EPOLL_CTL_DEL.
pub data Operation : Type 0 where
  add modify delete : Operation

-- One call of `epoll_ctl`; `target` is `event.data.ptr`.
pub record Control : Type 0 where
  pub operation : Operation
  pub fd : ℕ
  pub events : Flags
  pub target : ℕ

-- A poller with the channels of its loop. `controls` are the calls of `epoll_ctl` so far, newest
-- first; `capacity` is `events_.size()`.
pub record Poller : Type 0 where
  pub channel : ℕ → Channel
  pub channels : ℕ → Option ℕ
  pub controls : List Control
  pub capacity : ℕ

abbrev pub init_event_list_size : ℕ
init_event_list_size = 16

-- A poller before its first call, over channels that it does not know.
unfoldable pub init : (ℕ → Channel) → Poller
init channel = record {
  channel = channel;
  channels = λ fd. none;
  controls = [];
  capacity = init_event_list_size;
}

abbrev pub put {ℓ} : {A : Type ℓ} → (ℕ → A) → ℕ → A → ℕ → A
put f k v i = if k == i then v else f i

pub has_channel : Poller → ℕ → Bool
has_channel s p = elim (s.channels (s.channel p).fd) [ none ↦ false | some q ↦ q == p ]

unfoldable pub update : Poller → Operation → ℕ → Poller
update s operation p = record s { controls = control ∷ s.controls }
  where
    control : Control
    control = record {
      operation = operation;
      fd = (s.channel p).fd;
      events = (s.channel p).events;
      target = p;
    }

unfoldable pub set_index : Poller → ℕ → Index → Poller
set_index s p i = record s { channel = put s.channel p (record (s.channel p) { index = i }) }

-- The branch of `updateChannel` for each index.
unfoldable pub update_by_index : Index → Poller → ℕ → Poller
unfolding update set_index
update_by_index fresh s p =
    let known = record s { channels = put s.channels (s.channel p).fd (some p) } in
    update (set_index known p added) add p
update_by_index deleted s p = update (set_index s p added) add p
update_by_index added s p =
    if is_none_event (s.channel p)
    then set_index (update s delete p) p deleted
    else update s modify p

unfoldable pub update_channel : Poller → ℕ → Poller
unfolding update_by_index
update_channel s p = update_by_index (s.channel p).index s p

-- `if (index == kAdded) update(EPOLL_CTL_DEL, channel)`.
unfoldable pub forget : Index → Poller → ℕ → Poller
unfolding update
forget added s p = update s delete p
forget fresh s p = s
forget deleted s p = s

unfoldable pub remove_channel : Poller → ℕ → Poller
unfolding forget set_index
remove_channel s p =
    let erased = record s { channels = put s.channels (s.channel p).fd none } in
    set_index (forget (s.channel p).index erased p) p fresh

-- `enableReading()` and the like: the channel changes its events, then goes through its loop to
-- `updateChannel`.
unfoldable pub change : Poller → Interest → ℕ → Poller
unfolding update_channel set_interest
change s i p =
    update_channel (record s { channel = put s.channel p (set_interest i (s.channel p)) }) p

-- Each event delivered is noted in its channel, in the order of the array.
unfoldable pub fill_active : (ℕ → Channel) → List (ℕ × Flags) → (ℕ → Channel) × List ℕ
fill_active ch [] = (ch, [])
fill_active ch ((p, revents) ∷ es) =
    let (ch', active) = fill_active (put ch p (record (ch p) { revents = revents })) es in
    (ch', p ∷ active)

-- `done` are the events of `epoll_wait`, at most `capacity`; `failed` its `errno`.
unfoldable pub poll : Poller → Syscall (List (ℕ × Flags)) → Poller × List ℕ
unfolding fill_active
poll s (failed e) = (s, [])
poll s (done []) = (s, [])
poll s (done (e ∷ es)) =
    let (ch, active) = fill_active s.channel (e ∷ es) in
    let full = length (e ∷ es) == s.capacity in
    (record s { channel = ch; capacity = if full then s.capacity * 2 else s.capacity }, active)
