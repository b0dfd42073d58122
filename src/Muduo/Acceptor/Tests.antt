-- ===== src/Muduo/Acceptor/Tests.antt =====
-- An acceptor that listens, and its end.
use learn_note.Prelude.{◌≡◌, refl, some, []}
use learn_note.Muduo.Channel
use learn_note.Muduo.Channel.{read_event, flag_or, none_event, enable_reading}
use learn_note.Muduo.Poller
use learn_note.Muduo.Poller.{Poller}
use learn_note.Muduo.Poller.Protocol.{Inv, watched, run-init-Inv, change-Inv, run}
use learn_note.Muduo.Acceptor.{init, listen}
use learn_note.Muduo.Acceptor.Lifetime.{listen_lem}

abbrev blank : Poller
blank = Poller.init (λ p. Channel.init p)

blank-Inv : Inv blank
unfolding run Channel.init
blank-Inv = run-init-Inv (λ p. Channel.init p) [] (λ p. refl) (λ p q ne. ne)

abbrev listening : Poller
listening = (listen (init 3) blank).1

listening-Inv : Inv listening
unfolding listen init
listening-Inv = change-Inv blank 3 blank-Inv enable_reading

listen_lem_example :
    watched (listen (init 3) blank).1.controls 3 ≡ some (flag_or none_event read_event, 3)
unfolding listen init Poller.init Channel.init
listen_lem_example = listen_lem (init 3) blank blank-Inv
