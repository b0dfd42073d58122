-- ===== src/Muduo/TcpConnection/Life/Counts.antt =====
-- How the operations of a connection change its state and the callbacks made so far.
use learn_note.Prelude.{
  ℕ, ◌+◌, ◌==◌, ◌≡◌, refl, ap, ◌∙◌, Bool, true, false, not, ◌||◌, List, [], ◌∷◌, if◌then◌else◌,
  arith,
}
use learn_note.Muduo.TcpConnection.{
  Connection, Effect, connection_callback, close_callback, own_channel, emit, emit_if,
}
use learn_note.Muduo.TcpConnection.Life.{age, is_open}

-- How often the user was told that the connection opened or closed, and the server that it closed.
abbrev pub is_opening : Effect → Bool
is_opening connection_callback = true
is_opening _ = false

abbrev pub is_closing : Effect → Bool
is_closing close_callback = true
is_closing _ = false

abbrev pub count : (Effect → Bool) → List Effect → ℕ
count test [] = 0
count test (e ∷ es) = (if test e then 1 else 0) + count test es

-- What an operation does that neither opens nor closes: on a connection that is not up, it leaves the
-- channel alone.
pub record Quiet (c d : Connection) : Type 0 where
  pub state : age d.state ≡ age c.state
  pub opening : count is_opening d.effects ≡ count is_opening c.effects
  pub closing : count is_closing d.effects ≡ count is_closing c.effects
  pub channel : is_open c.state ≡ false → own_channel d ≡ own_channel c

pub Quiet-refl : (c : Connection) → Quiet c c
Quiet-refl c = record { state = refl; opening = refl; closing = refl; channel = λ h. refl }

pub Quiet-trans : {c d e : Connection} → Quiet c d → Quiet d e → Quiet c e
Quiet-trans h k = record {
  state = k.state ∙ h.state;
  opening = k.opening ∙ h.opening;
  closing = k.closing ∙ h.closing;
  channel = λ shut. k.channel (ap (λ a. a == 1) h.state ∙ shut) ∙ h.channel shut;
}

-- The effects that tell neither of an opening nor of a close.
abbrev is_plain : Effect → Bool
is_plain e = not (is_opening e || is_closing e)

pub Quiet-emit : (c : Connection) (e : Effect) → is_plain e ≡ true → Quiet c (emit c e)
Quiet-emit c e h = record {
  state = refl;
  opening = ground arith;
  closing = ground arith;
  channel = λ s. refl;
}

pub Quiet-emit_if :
    (b : Bool) (c : Connection) (e : Effect) → is_plain e ≡ true → Quiet c (emit_if b c e)
Quiet-emit_if true c e h = Quiet-emit c e h
Quiet-emit_if false c e h = Quiet-refl c

pub Quiet-if :
    (b : Bool) (c d e : Connection)
    → (b ≡ true → Quiet c d)
    → (b ≡ false → Quiet c e)
    → Quiet c (if b then d else e)
Quiet-if true c d e left right = left refl
Quiet-if false c d e left right = right refl

-- An open connection may change its channel.
pub open-Quiet :
    (c d : Connection)
    → is_open c.state ≡ true
    → d.state ≡ c.state
    → d.effects ≡ c.effects
    → Quiet c d
open-Quiet c d up s e = record {
  state = ap age s;
  opening = ap (count is_opening) e;
  closing = ap (count is_closing) e;
  channel = λ shut. absurd (cc (up, shut));
}
