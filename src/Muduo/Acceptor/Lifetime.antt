-- ===== src/Muduo/Acceptor/Lifetime.antt =====
-- The listening channel from `listen()` to the destructor.
use learn_note.Prelude.{◌≡◌, none, some, arith}
use learn_note.Muduo.Channel.{read_event, flag_or, disable_all}
use learn_note.Muduo.Poller.{Poller, change, remove_channel}
use learn_note.Muduo.Poller.Protocol.{Inv, watched, change-Inv, remove-Inv}
use learn_note.Muduo.Acceptor.{Acceptor, listen, destroy}

destroy-watched :
    (a : Acceptor) (s : Poller)
    → Inv s
    → watched (destroy a s).controls (s.channel a.channel).fd ≡ none
unfolding destroy change remove_channel
destroy-watched a s v = ground (arith, v.tracks a.channel)

destroy-channels :
    (a : Acceptor) (s : Poller) → Inv s → (destroy a s).channels (s.channel a.channel).fd ≡ none
unfolding destroy change remove_channel
destroy-channels a s v = ground (arith, v.tracks a.channel)

-- Whatever the channel was before, the destructor makes only legal calls, leaves the descriptor
-- unwatched and takes the channel out of the poller's map.
pub destroy_lem :
    (a : Acceptor) (s : Poller)
    → Inv s
    → let t = destroy a s in
      Inv t
      × (watched t.controls (s.channel a.channel).fd ≡ none)
      × (t.channels (s.channel a.channel).fd ≡ none)
unfolding destroy
destroy_lem a s v =
    let w = change-Inv s a.channel v disable_all in
    let u = remove-Inv (change s disable_all a.channel) a.channel w in
    (u, destroy-watched a s v, destroy-channels a s v)

-- While it listens, the kernel watches the descriptor for reading.
pub listen_lem :
    (a : Acceptor) (s : Poller)
    → Inv s
    → let t = (listen a s).1 in
      watched t.controls (s.channel a.channel).fd
      ≡ some (flag_or (s.channel a.channel).events read_event, a.channel)
unfolding listen change
listen_lem a s v = ground (arith, v.tracks a.channel)
