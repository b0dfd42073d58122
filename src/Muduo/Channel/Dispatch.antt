-- ===== src/Muduo/Channel/Dispatch.antt =====
-- Which callbacks an event runs.
use learn_note.Prelude.{
  ℕ, ◌<◌, Bool, true, false, ◌||◌, ◌≡◌, inl, inr, ◌&&◌, not, refl, Bool-cases, List, [], ◌∷◌, arith,
}
use learn_note.Muduo.Channel.{Channel, Callback, close, error, read, write, calls, handle_event}

-- Whether a callback is among those run.
abbrev pub same : Callback → Callback → Bool
same close close = true
same error error = true
same read read = true
same write write = true
same _ _ = false

abbrev pub runs : Callback → List Callback → Bool
runs cb [] = false
runs cb (c ∷ cs) = same cb c || runs cb cs

abbrev pub rank : Callback → ℕ
rank close = 0
rank error = 1
rank read = 2
rank write = 3

abbrev pub Ascending : List Callback → Type 0
Ascending [] = Unit {0}
Ascending (a ∷ []) = Unit {0}
Ascending (a ∷ b ∷ cs) = (rank a < rank b) × Ascending (b ∷ cs)

-- What a list of callbacks says of four tests: it is in order, and holds just those that passed.
abbrev pub Exactly : Bool → Bool → Bool → Bool → List Callback → Type 0
Exactly closes errs reads writes cs =
    Ascending cs
    × (runs close cs ≡ closes)
    × (runs error cs ≡ errs)
    × (runs read cs ≡ reads)
    × (runs write cs ≡ writes)

calls-Exactly : (a b c d : Bool) → Exactly a b c d (calls a b c d)
calls-Exactly true true c d = ground arith
calls-Exactly true false c d = ground arith
calls-Exactly false true c d = ground arith
calls-Exactly false false c d = ground arith

-- While the owner lives, or where the channel has none, the callbacks run are, in the order close,
-- error, read, write and each at most once, exactly those that are set and whose event has come; a
-- hang-up closes only where nothing is readable. A channel whose owner is gone runs none.
pub handle_event_lem :
    (c : Channel) (alive : Bool)
    → let live = not c.tied || alive in
      let cs = handle_event c alive in
      Exactly
        (live && c.revents.hang_up && not c.revents.readable && c.has_close)
        (live && c.revents.error && c.has_error)
        (live && (c.revents.readable || c.revents.priority) && c.has_read)
        (live && c.revents.writable && c.has_write)
        cs
unfolding handle_event
handle_event_lem c alive = elim (Bool-cases c.tied) [
  | inl t ↦ elim (Bool-cases alive) [
    | inl a ↦ rw (t, a) (calls-Exactly _ _ _ _)
    | inr a ↦ rw (t, a) (tt, refl, refl, refl, refl)
  ]
  | inr t ↦ rw t (calls-Exactly _ _ _ _)
]
