-- ===== src/EchoServer/Echo/Tests.antt =====
-- Runs of the echo server and its client.
use learn_note.Prelude.{◌≡◌, [], ◌∷◌, inr, refl, arith}
use learn_note.Muduo.Buffer.{done, failed}
use learn_note.EchoServer.Echo.{finished, send, handled, echo, serve, printed, await}
use learn_note.EchoServer.Echo.Reading.{IsText}
use learn_note.EchoServer.Echo.Sending.{send-repeats}
use learn_note.EchoServer.Echo.RoundTrip.{await-echo}

seven_eight_nine : IsText (7 ∷ 8 ∷ 9 ∷ [])
seven_eight_nine = (
  (λ h. absurd (omega (arith, h))),
  ((λ h. absurd (omega (arith, h))), ((λ h. absurd (omega (arith, h))), tt)),
)

-- The server reads one piece, an interruption after it, and the other in a second event; the client
-- reads two bytes and then one.
await-echo_example :
    (serve [] (
        (done (7 ∷ 8 ∷ []) ∷ failed 4 ∷ failed 11 ∷ [], done 1 ∷ done 1 ∷ [])
        ∷ (done (9 ∷ []) ∷ failed 11 ∷ [], done 1 ∷ [])
        ∷ [])
      ≡ handled [] (7 ∷ 8 ∷ 9 ∷ []) 2)
    × (await 3 0 [] (done (7 ∷ 8 ∷ []) ∷ done (9 ∷ []) ∷ []) ≡ printed (7 ∷ 8 ∷ 9 ∷ []))
await-echo_example =
    await-echo (7 ∷ 8 ∷ 9 ∷ [])
      ((done (7 ∷ 8 ∷ []) ∷ failed 4 ∷ [], done 1 ∷ done 1 ∷ [])
        ∷ (done (9 ∷ []) ∷ [], done 1 ∷ [])
        ∷ [])
      (done (7 ∷ 8 ∷ []) ∷ done (9 ∷ []) ∷ []) (omega arith) seven_eight_nine
      (
        (refl, tt),
        inr (omega arith, omega arith, inr (omega arith, omega arith, refl)),
        (tt, inr (omega arith, omega arith, refl), tt),
      )
      refl tt refl

-- ECONNRESET after two of three bytes.
send-repeats_example :
    send (7 ∷ 8 ∷ 9 ∷ []) (done 2 ∷ failed 104 ∷ done 2 ∷ []) ≡ finished (7 ∷ 8 ∷ 8 ∷ 9 ∷ [])
send-repeats_example =
    send-repeats (7 ∷ 8 ∷ 9 ∷ []) 2 104 (omega arith) (omega arith) (λ h. absurd (omega (arith, h)))

-- A line and the end of the connection: nothing is sent, and the buffer keeps the line.
lost : echo [] (done (7 ∷ 8 ∷ []) ∷ done [] ∷ []) (done 2 ∷ []) ≡ handled (7 ∷ 8 ∷ []) [] 0
unfolding echo
lost = refl
