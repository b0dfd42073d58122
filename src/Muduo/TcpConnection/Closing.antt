-- ===== src/Muduo/TcpConnection/Closing.antt =====
-- How a connection is shut down by its own side.
use learn_note.Prelude.{
  ℕ, ◌<◌, ◌==◌, ◌≡◌, refl, ap, ◌∙◌, Bool, true, false, not, List, ◌∷◌, ◌++◌, arith, take, take_all,
  ltb, if-true, if-false, if◌then◌else◌,
}
use learn_note.Muduo.Buffer.{Syscall, done, failed, readable_bytes, retrieve, write_fd}
use learn_note.Muduo.Buffer.Bounds.{IsValid}
use learn_note.Muduo.Buffer.Contents.{
  contents, length-contents, readable_bytes-retrieve, write_fd_lem, write_fd-failed,
}
use learn_note.Muduo.Channel.{disable_writing}
use learn_note.Muduo.Poller.{change}
use learn_note.Muduo.TcpConnection.{
  Connection, connected, disconnecting, Effect, writing, drained, after_write, handle_write,
  shutdown, shutdown_in_loop, emit, emit_if, queued, write_complete, error_logged, shut_write,
  is_disconnecting, is_connected,
}
use learn_note.Muduo.TcpConnection.Interest.{writing_disabled}

shutdown_in_loop-idle :
    (c : Connection) → writing c ≡ false → shutdown_in_loop c ≡ emit c shut_write
unfolding shutdown_in_loop
shutdown_in_loop-idle c w = if-true _ _ (ap not w)

shutdown_in_loop-busy : (c : Connection) → writing c ≡ true → shutdown_in_loop c ≡ c
unfolding shutdown_in_loop
shutdown_in_loop-busy c w = if-false _ _ (ap not w)

emit_if-drained :
    (b : Bool) (c idle : Connection)
    → idle.effects ≡ c.effects
    → idle.sent ≡ c.sent
    → writing idle ≡ false
    → let told = emit_if b idle (queued write_complete) in
      (writing told ≡ false)
      × (told.effects ≡ (emit_if b c (queued write_complete)).effects)
      × (told.sent ≡ c.sent)
emit_if-drained true c idle e s w = (w, ap (◌∷◌ (queued write_complete)) e, s)
emit_if-drained false c idle e s w = (w, e, s)

emit_if-effects :
    (b : Bool) (c d : Connection) (e : Effect)
    → c.effects ≡ d.effects
    → (emit_if b c e).effects ≡ (emit_if b d e).effects
emit_if-effects true c d e h = ap (◌∷◌ e) h
emit_if-effects false c d e h = h

-- Draining the buffer of a connection that is leaving shuts its write side, after telling the user.
drained-leaving :
    (c : Connection)
    → c.state ≡ disconnecting
    → ((drained c).effects
        ≡ shut_write ∷ (emit_if c.has_write_complete c (queued write_complete)).effects)
      × ((drained c).sent ≡ c.sent)
unfolding drained
drained-leaving c st =
    let idle = record c { poller = change c.poller disable_writing c.channel } in
    let told = emit_if c.has_write_complete idle (queued write_complete) in
    let k =
      emit_if-drained c.has_write_complete c idle refl refl (writing_disabled c.poller c.channel) in
    let both : drained c ≡ emit told shut_write =
      if-true _ _ (ap is_disconnecting st) ∙ shutdown_in_loop-idle told k.0 in
    (
      ap (λ (d : Connection). d.effects) both ∙ ap (◌∷◌ shut_write) k.1,
      ap (λ (d : Connection). d.sent) both ∙ k.2,
    )

-- A `handleWrite` that sends all that waits drains the buffer.
handle_write-all :
    (c : Connection)
    → IsValid c.output_buffer
    → writing c ≡ true
    → 0 < readable_bytes c.output_buffer
    → handle_write c (done (readable_bytes c.output_buffer))
      ≡ drained (record c {
        sent = c.sent ++ contents c.output_buffer;
        output_buffer = retrieve c.output_buffer (readable_bytes c.output_buffer);
      })
unfolding handle_write after_write
handle_write-all c v w h =
    let n = readable_bytes c.output_buffer in
    let all : write_fd c.output_buffer (done n) ≡ (contents c.output_buffer, done n) =
      write_fd_lem c.output_buffer n v
      ∙ ap (λ bytes. (bytes, done n))
          (take_all n (contents c.output_buffer)
            (omega (arith, length-contents c.output_buffer v))) in
    let some_sent : ltb 0 n ≡ true = ground arith in
    let none_left : (readable_bytes (retrieve c.output_buffer n) == 0) ≡ true =
      ground (arith, readable_bytes-retrieve c.output_buffer n v) in
    if-true _ _ w
    ∙ ap (λ (r : List ℕ × Syscall ℕ). after_write c r.0 r.1) all
    ∙ if-true _ _ some_sent
    ∙ if-true _ _ none_left

-- A `handleWrite` that leaves bytes waiting sends what it can, and shuts nothing.
handle_write-part :
    (c : Connection) (n : ℕ)
    → IsValid c.output_buffer
    → writing c ≡ true
    → n < readable_bytes c.output_buffer
    → let next = handle_write c (done n) in
      (next.effects ≡ (if n == 0 then error_logged ∷ c.effects else c.effects))
      × (next.state ≡ c.state)
      × (writing next ≡ true)
unfolding handle_write after_write
handle_write-part c n v w h =
    let some_left : (readable_bytes (retrieve c.output_buffer n) == 0) ≡ false =
      ground (arith, readable_bytes-retrieve c.output_buffer n v, h) in
    let taken = take n (contents c.output_buffer) in
    let next = record c { sent = c.sent ++ taken; output_buffer = retrieve c.output_buffer n } in
    let wrote : handle_write c (done n) ≡ (if ltb 0 n then next else emit c error_logged) =
      if-true _ _ w
      ∙ ap (λ (r : List ℕ × Syscall ℕ). after_write c r.0 r.1) (write_fd_lem c.output_buffer n v)
      ∙ ap (λ d. if ltb 0 n then d else emit c error_logged) (if-false _ _ some_left) in
    (
      ap (λ (d : Connection). d.effects) wrote ∙ ground arith,
      ap (λ (d : Connection). d.state) wrote ∙ ground arith,
      ap writing wrote ∙ either (ltb 0 n) next (emit c error_logged) w w,
    )
  where
    either :
        (b : Bool) (d d' : Connection)
        → writing d ≡ true
        → writing d' ≡ true
        → writing (if b then d else d') ≡ true
    either true d d' h h' = h
    either false d d' h h' = h'

handle_write-failed :
    (c : Connection) (e : ℕ) → writing c ≡ true → handle_write c (failed e) ≡ emit c error_logged
unfolding handle_write after_write
handle_write-failed c e w =
    if-true _ _ w
    ∙ ap (λ (r : List ℕ × Syscall ℕ). after_write c r.0 r.1) (write_fd-failed c.output_buffer e)

-- A connection that shuts down while bytes wait is leaving, and has its write side closed by the write
-- that takes the last of them, after its user is told. A write that takes fewer, or fails, closes
-- nothing: it only logs an error where it takes none, and the connection goes on waiting to write.
pub shutdown_after_drain :
    (c : Connection) (n e : ℕ)
    → IsValid c.output_buffer
    → c.state ≡ connected
    → writing c ≡ true
    → n < readable_bytes c.output_buffer
    → let leaving = shutdown c true in
      let part = handle_write leaving (done n) in
      let failing = handle_write leaving (failed e) in
      let next = handle_write leaving (done (readable_bytes c.output_buffer)) in
      (leaving.effects ≡ c.effects)
      × (leaving.state ≡ disconnecting)
      × (next.effects
          ≡ shut_write ∷ (emit_if c.has_write_complete c (queued write_complete)).effects)
      × (next.sent ≡ c.sent ++ contents c.output_buffer)
      × (part.effects ≡ (if n == 0 then error_logged ∷ c.effects else c.effects))
      × (part.state ≡ disconnecting)
      × (writing part ≡ true)
      × (failing.effects ≡ error_logged ∷ c.effects)
      × (writing failing ≡ true)
unfolding shutdown
shutdown_after_drain c n e v st w h =
    let gone = record c { state = disconnecting } in
    let left : shutdown c true ≡ gone =
      if-true _ _ (ap is_connected st) ∙ shutdown_in_loop-busy gone w in
    let next = record gone {
      sent = c.sent ++ contents c.output_buffer;
      output_buffer = retrieve c.output_buffer (readable_bytes c.output_buffer);
    } in
    let wrote : handle_write (shutdown c true) (done (readable_bytes c.output_buffer))
        ≡ drained next =
      ap (λ d. handle_write d (done (readable_bytes c.output_buffer))) left
      ∙ handle_write-all gone v w (omega (arith, h)) in
    let end = drained-leaving next refl in
    let some_taken = handle_write-part gone n v w h in
    let part : handle_write (shutdown c true) (done n) ≡ handle_write gone (done n) =
      ap (λ d. handle_write d (done n)) left in
    let logged : handle_write (shutdown c true) (failed e) ≡ emit gone error_logged =
      ap (λ d. handle_write d (failed e)) left ∙ handle_write-failed gone e w in
    (
      ap (λ (d : Connection). d.effects) left,
      ap (λ (d : Connection). d.state) left,
      ap (λ (d : Connection). d.effects) wrote
          ∙ end.0
          ∙ ap (◌∷◌ shut_write)
              (emit_if-effects c.has_write_complete next c (queued write_complete) refl),
      ap (λ (d : Connection). d.sent) wrote ∙ end.1,
      ap (λ (d : Connection). d.effects) part ∙ some_taken.0,
      ap (λ (d : Connection). d.state) part ∙ some_taken.1,
      ap writing part ∙ some_taken.2,
      ap (λ (d : Connection). d.effects) logged,
      ap writing logged ∙ w,
    )
