-- ===== src/Muduo/TcpConnection/Closed.antt =====
-- A connection whose peer has closed it, and what the code leaves behind.
use learn_note.Prelude.{
  ℕ, ◌<◌, ◌≡◌, ◌≢◌, refl, ap, ◌∙◌, inl, inr, true, false, Bool-cases, not, ◌&&◌, none, List, arith,
  length, ltb, if-true, if-false,
}
use learn_note.Muduo.Buffer.{failed}
use learn_note.Muduo.Channel.{fresh, added, disable_all, Interest}
use learn_note.Muduo.Poller.{Poller, change, has_channel}
use learn_note.Muduo.Poller.Protocol.{Inv, watched, change-Inv, has_channel_iff}
use learn_note.Muduo.TcpConnection.{
  Connection, Attempt, is_fault, is_idle, writing, own_channel, try_write, buffered, buffer_rest,
  settle, send_in_loop, handle_close, connect_destroyed,
}
use learn_note.Muduo.TcpConnection.Interest.{want_writing-parts}

-- A change of interest always leaves its channel known to the poller.
change-index : (s : Poller) (i : Interest) (p : ℕ) → ((change s i p).channel p).index ≢ fresh
unfolding change
change-index s i p = ground arith

-- Where the poller was sound before, a peer's close, and the end of the connection that it brings about,
-- leave the channel in the poller's map: `connectDestroted` never removes it.
pub closed-has_channel :
    (c : Connection)
    → Inv c.poller
    → has_channel (connect_destroyed (handle_close c)).poller c.channel ≡ true
unfolding connect_destroyed handle_close
closed-has_channel c v =
    (has_channel_iff _ c.channel (change-Inv c.poller c.channel v disable_all)).1
      (change-index c.poller disable_all c.channel)

-- Where the channel was added, a close takes its descriptor out of what the kernel watches.
pub closed-watched :
    (c : Connection)
    → Inv c.poller
    → (own_channel c).index ≡ added
    → watched (handle_close c).poller.controls (own_channel c).fd ≡ none
unfolding handle_close change
closed-watched c v h = ground arith

settle-writing :
    (bytes : List ℕ) (a : Attempt)
    → a.fault ≡ false
    → 0 < a.remaining
    → writing (settle bytes a) ≡ true
unfolding settle buffer_rest
settle-writing bytes a ok left =
    let more : (not a.fault && ltb 0 a.remaining) ≡ true = ground arith in
    ap writing (if-true _ _ more)
    ∙ (want_writing-parts (buffered a.conn bytes a.nwrote a.remaining)).0

-- `sendInLoop` says that it gives up on a closed connection, and does not: bytes that the kernel
-- does not take at once are buffered, and the closed channel waits to write again.
pub send_after_close :
    (c : Connection) (bytes : List ℕ) (e : ℕ)
    → 0 < length bytes
    → is_fault e ≡ false
    → writing (send_in_loop (handle_close c) bytes (failed e)) ≡ true
unfolding send_in_loop try_write
send_after_close c bytes e h f = elim (Bool-cases (is_idle (handle_close c))) [
  | inl idle ↦
      ap (λ t. writing (settle bytes t)) (if-true _ _ idle)
      ∙ settle-writing bytes (try_write (handle_close c) bytes (failed e)) f h
  | inr busy ↦
      ap (λ t. writing (settle bytes t)) (if-false _ _ busy)
      ∙ settle-writing bytes
          (record { conn = handle_close c; nwrote = 0; remaining = length bytes; fault = false })
          refl h
]
