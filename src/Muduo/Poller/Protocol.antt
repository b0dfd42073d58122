-- ===== src/Muduo/Poller/Protocol.antt =====
-- The order of the `epoll_ctl` calls: a descriptor is added only while it is not watched, modified
-- and deleted only while it is, and the kernel watches each added channel for its present events.
use learn_note.Prelude.{
  ℕ, ◌==◌, ◌≡◌, ◌≢◌, ◌↔◌, refl, true, Option, none, some, List, [], ◌∷◌, arith, if◌then◌else◌,
}
use learn_note.Muduo.Channel.{Channel, Flags, Index, fresh, added, deleted, Interest, set_interest}
use learn_note.Muduo.Poller.{
  Operation, add, modify, delete, Control, Poller, put, remove_channel, change, fill_active, poll,
  init, has_channel,
}
use learn_note.Muduo.Buffer.{Syscall, done, failed}

-- What a call makes the kernel watch on its descriptor.
abbrev pub effect : Operation → Flags → ℕ → Option (Flags × ℕ)
effect delete events target = none
effect add events target = some (events, target)
effect modify events target = some (events, target)

-- What the calls so far make it watch: for each descriptor the events and the pointer.
abbrev pub watched : List Control → ℕ → Option (Flags × ℕ)
watched [] fd = none
watched (c ∷ cs) fd = if c.fd == fd then effect c.operation c.events c.target else watched cs fd

-- A call that the kernel does not refuse.
abbrev pub Fits : Operation → Option (Flags × ℕ) → Type 0
Fits add w = w ≡ none
Fits modify w = w ≢ none
Fits delete w = w ≢ none

abbrev pub IsLegal : List Control → Type 0
IsLegal [] = Unit {0}
IsLegal (c ∷ cs) = Fits c.operation (watched cs c.fd) × IsLegal cs

-- What the index of channel `p` says of the kernel and of the map `channels_`.
abbrev pub Tracked : Index → Flags → ℕ → Option (Flags × ℕ) → Option ℕ → Type 0
Tracked fresh events p w known = (w ≡ none) × (known ≡ none)
Tracked added events p w known = (w ≡ some (events, p)) × (known ≡ some p)
Tracked deleted events p w known = (w ≡ none) × (known ≡ some p)

abbrev pub Tracks : Poller → ℕ → Type 0
Tracks s p =
    let c = s.channel p in Tracked c.index c.events p (watched s.controls c.fd) (s.channels c.fd)

-- Channels have descriptors of their own, the calls so far are legal, and each index is right.
pub record Inv (s : Poller) : Type 0 where
  pub apart : (p q : ℕ) → p ≢ q → (s.channel p).fd ≢ (s.channel q).fd
  pub legal : IsLegal s.controls
  pub tracks : (p : ℕ) → Tracks s p

module _ (s : Poller) (p : ℕ) (v : Inv s) where
  change-Tracks : (i : Interest) (q : ℕ) → Tracks (change s i p) q
  unfolding change
  change-Tracks i q = ground (arith, v.tracks p, v.tracks q, v.apart p q)

  change-IsLegal : (i : Interest) → IsLegal (change s i p).controls
  unfolding change
  change-IsLegal i = ground (arith, v.tracks p, v.legal)

  change-fd : (i : Interest) (q : ℕ) → ((change s i p).channel q).fd ≡ (s.channel q).fd
  unfolding change
  change-fd i q = ground arith

  -- A change of interest keeps the protocol.
  pub change-Inv : (i : Interest) → Inv (change s i p)
  change-Inv i = record {
    apart = λ a b ne. rw (change-fd i a, change-fd i b) (v.apart a b ne);
    legal = change-IsLegal i;
    tracks = change-Tracks i;
  }

  remove-Tracks : (q : ℕ) → Tracks (remove_channel s p) q
  unfolding remove_channel
  remove-Tracks q = ground (arith, v.tracks p, v.tracks q, v.apart p q)

  remove-IsLegal : IsLegal (remove_channel s p).controls
  unfolding remove_channel
  remove-IsLegal = ground (arith, v.tracks p, v.legal)

  remove-fd : (q : ℕ) → ((remove_channel s p).channel q).fd ≡ (s.channel q).fd
  unfolding remove_channel
  remove-fd q = ground arith

  -- So does the removal of a channel.
  pub remove-Inv : Inv (remove_channel s p)
  remove-Inv = record {
    apart = λ a b ne. rw (remove-fd a, remove-fd b) (v.apart a b ne);
    legal = remove-IsLegal;
    tracks = remove-Tracks;
  }

-- Filling the active channels changes nothing but their `revents_`.
abbrev SameBut : Channel → Channel → Type 0
SameBut c d = (d.fd ≡ c.fd) × (d.events ≡ c.events) × (d.index ≡ c.index)

fill_active-SameBut :
    (ch : ℕ → Channel) (es : List (ℕ × Flags)) (q : ℕ) → SameBut (ch q) ((fill_active ch es).0 q)
unfolding fill_active
fill_active-SameBut ch [] q = (refl, refl, refl)
fill_active-SameBut ch ((p, revents) ∷ es) q =
    ground (arith, fill_active-SameBut (put ch p (record (ch p) { revents = revents })) es q)

poll-keeps :
    (s : Poller) (r : Syscall (List (ℕ × Flags)))
    → let t = (poll s r).0 in
      (t.controls ≡ s.controls)
      × (t.channels ≡ s.channels)
      × ((q : ℕ) → SameBut (s.channel q) (t.channel q))
unfolding poll
poll-keeps s (failed e) = (refl, refl, λ q. (refl, refl, refl))
poll-keeps s (done []) = (refl, refl, λ q. (refl, refl, refl))
poll-keeps s (done (e ∷ es)) = (refl, refl, fill_active-SameBut s.channel (e ∷ es))

pub poll-Inv : (s : Poller) (r : Syscall (List (ℕ × Flags))) → Inv s → Inv (poll s r).0
poll-Inv s r v =
    let k = poll-keeps s r in
    record {
      apart = λ a b ne. rw ((k.2 a).0, (k.2 b).0) (v.apart a b ne);
      legal = rw k.0 v.legal;
      tracks = λ p. rw (k.0, k.1, (k.2 p).0, (k.2 p).1, (k.2 p).2) (v.tracks p);
    }

-- The events that a channel waits for after a change are those of the change.
pub change-channel :
    (s : Poller) (i : Interest) (p : ℕ)
    → ((change s i p).channel p).events ≡ (set_interest i (s.channel p)).events
unfolding change
change-channel s i p = ground arith

-- What can happen to a poller.
pub data Event : Type 0 where
  changes : Interest → ℕ → Event
  removes : ℕ → Event
  polls : Syscall (List (ℕ × Flags)) → Event

unfoldable pub step : Poller → Event → Poller
step s (changes i p) = change s i p
step s (removes p) = remove_channel s p
step s (polls r) = (poll s r).0

unfoldable pub run : Poller → List Event → Poller
run s [] = s
run s (e ∷ es) = run (step s e) es

step-Inv : (s : Poller) (e : Event) → Inv s → Inv (step s e)
unfolding step
step-Inv s (changes i p) v = change-Inv s p v i
step-Inv s (removes p) v = remove-Inv s p v
step-Inv s (polls r) v = poll-Inv s r v

run-Inv : (s : Poller) (es : List Event) → Inv s → Inv (run s es)
unfolding run
run-Inv s [] v = v
run-Inv s (e ∷ es) v = run-Inv (step s e) es (step-Inv s e v)

-- Over new channels on descriptors of their own, any history of interest changes, removals and polls
-- makes only `epoll_ctl` calls that fit what is watched, and every index tells the truth: the kernel
-- watches each added channel for its present events under its own pointer and no other channel, and
-- the map knows the added and the deleted ones.
pub run-init-Inv :
    (channel : ℕ → Channel) (es : List Event)
    → ((p : ℕ) → (channel p).index ≡ fresh)
    → ((p q : ℕ) → p ≢ q → (channel p).fd ≢ (channel q).fd)
    → Inv (run (init channel) es)
unfolding init
run-init-Inv channel es new apart =
    run-Inv (init channel) es
      (record { apart = apart; legal = tt; tracks = λ p. rw (new p) (refl, refl) })

-- `hasChannel` tells whether the index is not new.
pub has_channel_iff :
    (s : Poller) (p : ℕ) → Inv s → (has_channel s p ≡ true) ↔ ((s.channel p).index ≢ fresh)
unfolding has_channel
has_channel_iff s p v = (λ h e. ground (arith, v.tracks p), λ h. ground (arith, v.tracks p))
