-- ===== src/Muduo/Poller/Tests.antt =====
-- A history of two channels at one poller.
use learn_note.Prelude.{ℕ, ◌≡◌, refl, List, [], ◌∷◌, some}
use learn_note.Muduo.Buffer.{done}
use learn_note.Muduo.Channel
use learn_note.Muduo.Channel.{
  Channel, Flags, read_event, enable_reading, enable_writing, disable_all, fresh,
}
use learn_note.Muduo.Poller.{init, poll, change, remove_channel}
use learn_note.Muduo.Poller.Protocol.{
  Inv, Event, changes, removes, polls, step, run, watched, run-init-Inv,
}

-- Channel `p` on descriptor `p`.
abbrev channels : ℕ → Channel
channels p = Channel.init p

abbrev history : List Event
history =
    changes enable_reading 3
    ∷ changes enable_writing 4
    ∷ polls (done ((3, read_event) ∷ []))
    ∷ changes disable_all 3
    ∷ removes 4
    ∷ changes enable_reading 3
    ∷ []

run-history : watched (run (init channels) history).controls 3 ≡ some (read_event, 3)
unfolding run step change remove_channel poll init Channel.init
run-history = refl

run-init-Inv_example : Inv (run (init channels) history)
unfolding Channel.init
run-init-Inv_example = run-init-Inv channels history (λ p. refl) (λ p q ne. ne)
