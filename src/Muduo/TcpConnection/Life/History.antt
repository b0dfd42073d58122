-- ===== src/Muduo/TcpConnection/Life/History.antt =====
-- What the callbacks tell of a connection's life.
use learn_note.Prelude.{
  ℕ, ◌-◌, ◌≤◌, ◌==◌, ◌≡◌, refl, ap, ◌∙◌, sym, subst, Bool, true, false, Bool-cases, inl, inr, not,
  ◌&&◌, ◌||◌, List, ◌++◌, if-true, if-false, if◌then◌else◌, arith,
}
use learn_note.Muduo.Buffer.{Syscall, done, failed, read_fd}
use learn_note.Muduo.Channel
use learn_note.Muduo.Channel.{
  Channel, Flags, Callback, close, error, read, write, when, calls, any_flag, handle_event,
  handle_event_with_guard, set_revents, set_callback, disable_all, none_event, set_interest,
  is_writing,
}
use learn_note.Muduo.Poller.{Poller, change}
use learn_note.Muduo.Poller.Protocol.{change-channel}
use learn_note.Muduo.TcpConnection.{
  State, connecting, connected, disconnecting, disconnected, Connection, init, connection_callback,
  message_callback, error_logged, own_channel, connect_established, connect_destroyed, handle_read,
  handle_write, handle_close, handle_error, after_read, emit, is_connected,
}
use learn_note.Muduo.TcpConnection.Life.{
  age, is_open, Answers, handle_all, noted, turn, is_orderly, Step, IsTimely, Reach, AllTimely,
  establishes, turns, sends, sends_later, shuts, shuts_later, sends_file, sends_file_later,
  destroys, here, next,
}
use learn_note.Muduo.TcpConnection.Life.Counts.{
  is_opening, is_closing, count, Quiet, Quiet-emit, open-Quiet,
}
use learn_note.Muduo.TcpConnection.Life.Quiet.{
  send-Quiet, send_in_loop-Quiet, shutdown-Quiet, shutdown_in_loop-Quiet, send_file-Quiet,
  send_file_in_loop-Quiet, handle_write-Quiet,
}

-- One call of the user's connection callback when the connection comes up and one when it goes down,
-- at most one call of the server's close callback, and that only when it is down; a connection that
-- is not up waits for no event.
pub record Told (c : Connection) : Type 0 where
  pub opening : count is_opening c.effects ≡ age c.state
  pub closing : count is_closing c.effects ≤ age c.state - 1
  pub deaf : is_open c.state ≡ false → any_flag (own_channel c).events ≡ false

Quiet-Told : {c d : Connection} → Quiet c d → Told c → Told d
Quiet-Told q t = record {
  opening = q.opening ∙ t.opening ∙ sym q.state;
  closing = omega (arith, q.closing, q.state, t.closing);
  deaf = λ shut.
      let still = ap (λ n. n == 1) (sym q.state) ∙ shut in
      ap (λ (h : Channel). any_flag h.events) (q.channel still) ∙ t.deaf still;
}

disabled : (s : Poller) (p : ℕ) → any_flag ((change s disable_all p).channel p).events ≡ false
unfolding set_interest
disabled s p = ap any_flag (change-channel s disable_all p)

establish-Told : (c : Connection) → c.state ≡ connecting → Told c → Told (connect_established c)
unfolding connect_established
establish-Told c h t = record {
  opening = omega (arith, t.opening, ap age h);
  closing = omega (arith, t.closing, ap age h);
  deaf = λ shut. absurd (cc shut);
}

close-Told : (c : Connection) → is_open c.state ≡ true → Told c → Told (handle_close c)
unfolding handle_close
close-Told c up t = record {
  opening = ground (arith, t.opening, up);
  closing = ground (arith, t.closing, up);
  deaf = λ shut. disabled c.poller c.channel;
}

destroy-Told : (c : Connection) → Told c → Told (connect_destroyed c)
unfolding connect_destroyed
destroy-Told c t = by_state c.state refl
  where
    by_state :
        (s : State)
        → c.state ≡ s
        → Told (
            if is_connected s
            then emit
                (record c { state = disconnected; poller = change c.poller disable_all c.channel })
                connection_callback
            else c)
    by_state connecting h = t
    by_state disconnecting h = t
    by_state disconnected h = t
    by_state connected h = record {
      opening = omega (arith, t.opening, ap age h);
      closing = omega (arith, t.closing, ap age h);
      deaf = λ shut. disabled c.poller c.channel;
    }

after_read-Told :
    (c : Connection) (n : Syscall ℕ) → is_open c.state ≡ true → Told c → Told (after_read c n)
unfolding after_read handle_error
after_read-Told c (failed e) up t = Quiet-Told (Quiet-emit c error_logged refl) t
after_read-Told c (done n) up t = elim (Bool-cases (n == 0)) [
  | inl z ↦ subst Told (sym (if-true _ _ z)) (close-Told c up t)
  | inr z ↦ subst Told (sym (if-false _ _ z)) (Quiet-Told (Quiet-emit c message_callback refl) t)
]

read-Told :
    (c : Connection) (answer : Syscall (List ℕ))
    → is_open c.state ≡ true
    → Told c
    → Told (handle_read c answer)
unfolding handle_read
read-Told c answer up t =
    let (buffer, n) = read_fd c.input_buffer answer in
    let c' = record c { input_buffer = buffer } in
    after_read-Told c' n up (Quiet-Told (open-Quiet c c' up refl refl) t)

write-Told : (c : Connection) (answer : Syscall ℕ) → Told c → Told (handle_write c answer)
write-Told c answer t =
    Quiet-Told (handle_write-Quiet c answer (λ shut. ground (arith, t.deaf shut))) t

-- The handlers of one event, in their order.
writes-Told :
    (c : Connection) (answers : Answers) (writes : Bool)
    → Told c
    → Told (handle_all answers c (when writes write))
unfolding handle_all
writes-Told c answers true t = write-Told c answers.writing t
writes-Told c answers false t = t

reads-Told :
    (c : Connection) (answers : Answers) (reads writes : Bool)
    → (reads ≡ true → is_open c.state ≡ true)
    → Told c
    → Told (handle_all answers c (when reads read ++ when writes write))
unfolding handle_all
reads-Told c answers true writes up t =
    writes-Told (handle_read c answers.reading) answers writes
      (read-Told c answers.reading (up refl) t)
reads-Told c answers false writes up t = writes-Told c answers writes t

errs-Told :
    (c : Connection) (answers : Answers) (errs reads writes : Bool)
    → (reads ≡ true → is_open c.state ≡ true)
    → Told c
    → Told (handle_all answers c (when errs error ++ (when reads read ++ when writes write)))
unfolding handle_all handle_error
errs-Told c answers true reads writes up t =
    reads-Told (handle_error c) answers reads writes up
      (Quiet-Told (Quiet-emit c error_logged refl) t)
errs-Told c answers false reads writes up t = reads-Told c answers reads writes up t

calls-Told :
    (c : Connection) (answers : Answers) (closes errs reads writes : Bool)
    → not (closes && reads) ≡ true
    → is_open c.state ≡ true
    → Told c
    → Told (handle_all answers c (calls closes errs reads writes))
unfolding handle_all
calls-Told c answers true errs reads writes one up t =
    errs-Told (handle_close c) answers errs reads writes (λ r. absurd (cc (r, one)))
      (close-Told c up t)
calls-Told c answers false errs reads writes one up t =
    errs-Told c answers errs reads writes (λ r. up) t

-- The owner lives while its channel handles an event.
alive_event : (c : Channel) → handle_event c true ≡ handle_event_with_guard c
unfolding handle_event
alive_event c = elim (Bool-cases c.tied) [
  | inl tied ↦ if-true _ _ tied
  | inr free ↦ if-false _ _ free
]

once :
    (f : Flags) (has_close has_read : Bool)
    → is_orderly f ≡ true
    → not ((f.hang_up && not f.readable && has_close) && ((f.readable || f.priority) && has_read))
      ≡ true
once f has_close has_read h = ground (arith, h)

-- An event on a connection that is up.
turn-Told :
    (c : Connection) (revents : Flags) (answers : Answers)
    → is_orderly revents ≡ true
    → is_open c.state ≡ true
    → Told c
    → Told (turn c revents answers)
unfolding turn handle_event_with_guard set_revents
turn-Told c revents answers one up t =
    let active = noted c revents in
    let known = Quiet-Told (open-Quiet c active up refl refl) t in
    subst (λ cs. Told (handle_all answers active cs)) (sym (alive_event (own_channel active)))
      (calls-Told active answers _ _ _ _ (ground (arith, one)) up known)

-- A channel that waits for events is that of a connection that is up.
waits-open :
    (c : Connection) → Told c → any_flag (own_channel c).events ≡ true → is_open c.state ≡ true
waits-open c t waits = elim (Bool-cases (is_open c.state)) [
  | inl up ↦ up
  | inr shut ↦ absurd (cc (waits, t.deaf shut))
]

init-Told : (p : Poller) (channel sockfd : ℕ) → Told (init p channel sockfd)
unfolding init Channel.init set_callback
init-Told p channel sockfd = record {
  opening = refl;
  closing = omega arith;
  deaf = λ shut. ap (λ (h : Channel). any_flag h.events) (if-true _ _ same);
}
  where
    same : (channel == channel) ≡ true
    same = ground arith

step-Told : {c d : Connection} (s : Step c d) → IsTimely s → Told c → Told d
step-Told (establishes h) one t = establish-Told _ h t
step-Told (turns revents answers waits) one t =
    turn-Told _ revents answers one (waits-open _ t waits) t
step-Told (sends b bytes answer) one t = Quiet-Told (send-Quiet _ b bytes answer) t
step-Told (sends_later bytes answer) one t = Quiet-Told (send_in_loop-Quiet _ bytes answer one) t
step-Told (shuts b) one t = Quiet-Told (shutdown-Quiet _ b) t
step-Told shuts_later one t = Quiet-Told (shutdown_in_loop-Quiet _) t
step-Told (sends_file b offset count answer) one t =
    Quiet-Told (send_file-Quiet _ b offset count answer) t
step-Told (sends_file_later offset count answer) one t =
    Quiet-Told (send_file_in_loop-Quiet _ offset count answer) t
step-Told (destroys h) one t = destroy-Told _ t

-- In a history where each send that waited in the loop's queue runs while the connection is up, and
-- no event is a hang-up without EPOLLIN but with EPOLLPRI: whatever a new connection's loop, server and
-- user do, in any order and whatever the system calls answer, the user's connection callback has been
-- called once if the connection is up, twice if it is down and not before; the server's close callback
-- at most once, and only when it is down; and a connection that is not up waits for no event. The
-- server establishes the connection once and destroys it later.
pub Reach-init-Told :
    (p : Poller) (channel sockfd : ℕ) (c : Connection) (r : Reach (init p channel sockfd) c)
    → AllTimely r
    → Told c
Reach-init-Told p channel sockfd c here timely = init-Told p channel sockfd
Reach-init-Told p channel sockfd c (next r s) (timely, one) =
    step-Told s one (Reach-init-Told p channel sockfd _ r timely)
