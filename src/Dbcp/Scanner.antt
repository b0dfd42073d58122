-- ===== src/Dbcp/Scanner.antt =====
-- What the scanner meets where all connections are in use.
use learn_note.Prelude.{
  ℕ, ◌+◌, ◌<◌, ◌≡◌, refl, ap, ◌∙◌, true, false, none, List, [], ◌∷◌, arith, ltb, if-true,
}
use learn_note.Dbcp.{
  Connection, Pool, take_front, get_connection, produce, reclaim, scan, add_connection,
}
use learn_note.Dbcp.System.{System, started, takes, produces, Reach, here, next}
use learn_note.Dbcp.Bounds.{start_lem}

-- Taking every connection there is.
take_all :
    (cs : List Connection) {s₀ : System} (s : System)
    → Reach s₀ s
    → s.pool.queue ≡ cs
    → (t : System) × Reach s₀ t × (t.pool ≡ record s.pool { queue = [] })
unfolding get_connection
take_all [] s r e = (s, r, ap (λ q. record s.pool { queue = q }) e)
take_all (c ∷ cs) s r e =
    take_all cs (record s { pool = record s.pool { queue = cs }; lent = c ∷ s.lent })
      (next r (takes (ap (λ q. take_front q s.pool) e))) refl

-- With room for one more, the producer makes one for the empty queue, and that is taken too.
take_one_more :
    {s₀ : System} (s : System) (now : ℕ)
    → Reach s₀ s
    → s.pool.queue ≡ []
    → s.pool.exiting ≡ false
    → s.pool.count < s.pool.max_size
    → (t : System) × Reach s₀ t
      × (t.pool.queue ≡ [])
      × (t.pool.count ≡ s.pool.count + 1)
      × (t.pool.min_size ≡ s.pool.min_size)
unfolding produce
take_one_more s now r q e h =
    let room : ltb s.pool.count s.pool.max_size ≡ true = ground arith in
    let p = add_connection s.pool now in
    let made : produce s.pool now ≡ p = if-true _ _ room in
    let (t, rt, et) =
      take_all _ (record s { pool = produce s.pool now }) (next r (produces now q e)) refl in
    (
      t,
      rt,
      ap (λ (x : Pool). x.queue) et,
      ap (λ (x : Pool). x.count) et ∙ ap (λ (x : Pool). x.count) made,
      ap (λ (x : Pool). x.min_size) et ∙ ap (λ (x : Pool). x.min_size) made,
    )

scan-empty : (p : Pool) (now : ℕ) → p.queue ≡ [] → p.min_size < p.count → scan p now ≡ none
unfolding scan reclaim
scan-empty p now e h =
    let more : ltb p.min_size p.count ≡ true = ground arith in
    ap (λ q. reclaim q p now) e ∙ if-true _ _ more

-- Where the sizes differ, users can take every connection, and one more than the minimum that the
-- producer makes: the next scan, at any time, reads the front of the empty queue.
pub scan-none :
    (min_size max_size max_idle_time now later : ℕ)
    → min_size < max_size
    → (t : System) × Reach (started min_size max_size max_idle_time now) t
      × (scan t.pool later ≡ none)
scan-none min_size max_size max_idle_time now later h =
    let s = started min_size max_size max_idle_time now in
    let (c, g, m, x) = start_lem min_size max_size max_idle_time now in
    let (t, r, e) = take_all _ s here refl in
    let count = ap (λ (p : Pool). p.count) e in
    let (u, ru, q, n, k) =
      take_one_more t now r (ap (λ (p : Pool). p.queue) e) (ap (λ (p : Pool). p.exiting) e ∙ g)
        (omega (arith, c, x, count, ap (λ (p : Pool). p.max_size) e)) in
    (
      u,
      ru,
      scan-empty u.pool later q (omega (arith, c, m, n, k, count, ap (λ (p : Pool). p.min_size) e)),
    )
