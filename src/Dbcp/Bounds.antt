-- ===== src/Dbcp/Bounds.antt =====
-- What holds of the pool however its users, its threads and its closing take turns.
use learn_note.Prelude.{
  occurs, below, ℕ, zero, suc, ◌+◌, ◌≤◌, ◌≡◌, refl, sym, ap, subst, ◌∙◌, true, false, some, List,
  [], ◌∷◌, ◌++◌, arith, length, length-append, ltb, Bool-cases, inl, inr, if-true, if-false,
}
use learn_note.Dbcp.{
  Connection, Pool, init, add_connection, add_connections, start, take_front, get_connection,
  give_back, close_begin, close_drain, produce, scan,
}
use learn_note.Dbcp.System.{
  Phase, open_phase, closing, closed, System, started, Step, takes, gives, produces, scans,
  begins_close, drains, Reach, here, next,
}
use learn_note.Dbcp.Ledger.{occurrences, occurrences-append, occurs-delete_all, reclaim-Reclaimed}

-- What the phase says: from the start of closing the flag is set, and once closed the queue is empty.
abbrev pub Quiet : Phase → Pool → Type 0
Quiet open_phase p = Unit {0}
Quiet closing p = p.exiting ≡ true
Quiet closed p = (p.exiting ≡ true) × (p.queue ≡ [])

pub record Inv (s : System) : Type 0 where
  -- Each connection made stands in one once; no other number stands anywhere.
  pub once :
      (i : ℕ)
      → occurrences i s.pool.queue + occurrences i s.lent + occurs i s.pool.deleted
        ≡ below i s.pool.made
  -- No more than the maximum are open, and the count never falls below the minimum.
  pub most : s.pool.count ≤ s.pool.max_size
  pub least : s.pool.min_size ≤ s.pool.count
  pub counted : length s.pool.queue + length s.lent ≤ s.pool.count
  -- Until it closes, the count is that of the connections there are.
  pub exact : s.pool.exiting ≡ false → length s.pool.queue + length s.lent ≡ s.pool.count
  pub quiet : Quiet s.phase s.pool

take_front-some :
    (q : List Connection) (p p' : Pool) (c : Connection)
    → take_front q p ≡ (p', some c)
    → (cs : List Connection) × (q ≡ c ∷ cs) × (p' ≡ record p { queue = cs })
unfolding take_front
take_front-some [] p p' c e = absurd (cc e)
take_front-some (d ∷ cs) p p' c e = (cs, cc e, cc e)

Quiet-keep :
    (ph : Phase) (p q : Pool)
    → q.exiting ≡ p.exiting
    → (p.queue ≡ [] → q.queue ≡ [])
    → Quiet ph p
    → Quiet ph q
Quiet-keep open_phase p q e f v = tt
Quiet-keep closing p q e f v = e ∙ v
Quiet-keep closed p q e f v = (e ∙ v.0, f v.1)

-- While the flag is not set, nothing is said.
Quiet-open : (ph : Phase) (p q : Pool) → p.exiting ≡ false → Quiet ph p → Quiet ph q
Quiet-open open_phase p q h k = tt
Quiet-open closing p q h k = absurd (cc (h, k))
Quiet-open closed p q h k = absurd (cc (h, k.0))

takes-Inv :
    (s : System) (p : Pool) (c : Connection)
    → get_connection s.pool ≡ (p, some c)
    → Inv s
    → Inv (record s { pool = p; lent = c ∷ s.lent })
unfolding get_connection
takes-Inv s p c e v =
    let (cs, q, r) = take_front-some s.pool.queue s.pool p c e in
    rw r (record {
      once = λ i. omega (arith, v.once i, ap (occurrences i) q);
      most = v.most;
      least = v.least;
      counted = omega (arith, v.counted, ap length q);
      exact = λ h. omega (arith, v.exact h, ap length q);
      quiet =
          Quiet-keep s.phase s.pool (record s.pool { queue = cs }) refl (λ h. absurd (cc (q, h)))
            v.quiet;
    })

gives-Inv :
    (s : System) (xs ys : List Connection) (c : Connection) (now : ℕ)
    → s.lent ≡ xs ++ c ∷ ys
    → Inv s
    → Inv (record s { pool = give_back s.pool c now; lent = xs ++ ys })
unfolding give_back
gives-Inv s xs ys c now e v =
    let back : List Connection = record c { refreshed = now } ∷ [] in
    elim (Bool-cases s.pool.exiting) [
      | inl h ↦
          subst (λ p. Inv (record s { pool = p; lent = xs ++ ys })) (sym (if-true _ _ h))
            (record {
              once = λ i. omega (
                arith,
                v.once i,
                ap (occurrences i) e,
                occurrences-append i xs (c ∷ ys),
                occurrences-append i xs ys,
              );
              most = v.most;
              least = v.least;
              counted =
                  omega
                    (arith, v.counted, ap length e, length-append xs (c ∷ ys), length-append xs ys);
              exact = λ k. absurd (cc (h, k));
              quiet = Quiet-keep s.phase s.pool _ refl (λ k. k) v.quiet;
            })
      | inr h ↦
          subst (λ p. Inv (record s { pool = p; lent = xs ++ ys })) (sym (if-false _ _ h))
            (record {
              once = λ i. omega (
                arith,
                v.once i,
                ap (occurrences i) e,
                occurrences-append i xs (c ∷ ys),
                occurrences-append i xs ys,
                occurrences-append i s.pool.queue back,
              );
              most = v.most;
              least = v.least;
              counted = omega (
                arith,
                v.counted,
                ap length e,
                length-append xs (c ∷ ys),
                length-append xs ys,
                length-append s.pool.queue back,
              );
              exact = λ k. omega (
                arith,
                v.exact h,
                ap length e,
                length-append xs (c ∷ ys),
                length-append xs ys,
                length-append s.pool.queue back,
              );
              quiet = Quiet-open s.phase s.pool _ h v.quiet;
            })
    ]

produces-Inv :
    (s : System) (now : ℕ)
    → s.pool.queue ≡ []
    → s.pool.exiting ≡ false
    → Inv s
    → Inv (record s { pool = produce s.pool now })
unfolding produce
produces-Inv s now q h v = elim (Bool-cases (ltb s.pool.count s.pool.max_size)) [
  | inl k ↦
      let new : Connection = record { id = s.pool.made; refreshed = now } in
      subst (λ p. Inv (record s { pool = p })) (sym (if-true _ _ k))
        (record {
          once = λ i. ground (arith, v.once i, occurrences-append i s.pool.queue (new ∷ []));
          most = ground arith;
          least = omega (arith, v.least);
          counted = omega (arith, v.counted, length-append s.pool.queue (new ∷ []));
          exact = λ e. omega (arith, v.exact h, length-append s.pool.queue (new ∷ []));
          quiet = Quiet-open s.phase s.pool _ h v.quiet;
        })
  | inr k ↦ subst (λ p. Inv (record s { pool = p })) (sym (if-false _ _ k)) v
]

scans-Inv :
    (s : System) (p : Pool) (now : ℕ)
    → s.pool.exiting ≡ false
    → scan s.pool now ≡ some p
    → Inv s
    → Inv (record s { pool = p })
unfolding scan
scans-Inv s p now h e v =
    let r = reclaim-Reclaimed s.pool.queue s.pool p now e in
    record {
      once = λ i. omega (arith, v.once i, r.kept i, ap (below i) r.same_made);
      most = omega (arith, v.most, r.less, r.same_max);
      least = omega (arith, r.enough v.least, r.same_min);
      counted = omega (arith, v.counted, r.sizes);
      exact = λ k. omega (arith, v.exact h, r.sizes);
      quiet = Quiet-open s.phase s.pool p h v.quiet;
    }

begins_close-Inv :
    (s : System) → Inv s → Inv (record s { pool = close_begin s.pool; phase = closing })
unfolding close_begin
begins_close-Inv s v = record {
  once = v.once;
  most = v.most;
  least = v.least;
  counted = v.counted;
  exact = λ h. absurd (cc h);
  quiet = refl;
}

drains-Inv :
    (s : System)
    → s.phase ≡ closing
    → Inv s
    → Inv (record s { pool = close_drain s.pool; phase = closed })
unfolding close_drain
drains-Inv s e v =
    let set : s.pool.exiting ≡ true = (rw e at v.quiet) in
    record {
      once = λ i. omega (arith, v.once i, occurs-delete_all i s.pool.queue s.pool.deleted);
      most = v.most;
      least = v.least;
      counted = omega (arith, v.counted);
      exact = λ h. absurd (cc (h, set));
      quiet = (set, refl);
    }

Step-Inv : {s t : System} → Step s t → Inv s → Inv t
Step-Inv {s} (takes {p} {c} e) v = takes-Inv s p c e v
Step-Inv {s} (gives xs ys c now e) v = gives-Inv s xs ys c now e v
Step-Inv {s} (produces now q h) v = produces-Inv s now q h v
Step-Inv {s} (scans {p} now h e) v = scans-Inv s p now h e v
Step-Inv {s} begins_close v = begins_close-Inv s v
Step-Inv {s} (drains e) v = drains-Inv s e v

Reach-Inv : {s t : System} → Inv s → Reach s t → Inv t
Reach-Inv v here = v
Reach-Inv v (next r st) = Step-Inv st (Reach-Inv v r)

-- A pool in which nothing but additions has happened.
record Filled (p : Pool) : Type 0 where
  all : (i : ℕ) → occurrences i p.queue ≡ below i p.made
  size : length p.queue ≡ p.count
  fresh : p.deleted ≡ []

add_connection-Filled : (p : Pool) (now : ℕ) → Filled p → Filled (add_connection p now)
unfolding add_connection
add_connection-Filled p now v =
    let new : Connection = record { id = p.made; refreshed = now } in
    record {
      all = λ i. ground (arith, v.all i, occurrences-append i p.queue (new ∷ []));
      size = omega (arith, v.size, length-append p.queue (new ∷ []));
      fresh = v.fresh;
    }

add_connections-Filled :
    (n : ℕ) (p : Pool) (now : ℕ)
    → Filled p
    → let q = add_connections n p now in
      Filled q × (q.count ≡ p.count + n) × (q.min_size ≡ p.min_size) × (q.max_size ≡ p.max_size)
unfolding add_connections add_connection
add_connections-Filled zero p now v = (v, omega arith, refl, refl)
add_connections-Filled (suc n) p now v =
    let (w, c, m, x) =
      add_connections-Filled n (add_connection p now) now (add_connection-Filled p now v) in
    (w, omega (arith, c), m, x)

module _ (min_size max_size max_idle_time now : ℕ) where
  init-Filled : Filled (init min_size max_size max_idle_time)
  unfolding init
  init-Filled = record { all = λ i. ground arith; size = refl; fresh = refl }

  -- A pool that has started has as many connections as it should have at least.
  pub start_lem :
      let p = start (init min_size max_size max_idle_time) true now in
      (p.count ≡ min_size) × (p.exiting ≡ false) × (p.min_size ≡ min_size) × (p.max_size ≡ max_size)
  unfolding start init
  start_lem =
      let (f, c, m, x) = add_connections-Filled min_size _ now init-Filled in
      (omega (arith, c), refl, m, x)

  started-Inv : min_size ≤ max_size → Inv (started min_size max_size max_idle_time now)
  unfolding start init
  started-Inv h =
      let (f, c, m, x) = add_connections-Filled min_size _ now init-Filled in
      record {
        once = λ i. ground (arith, f.all i, f.fresh);
        most = omega (arith, c, x);
        least = omega (arith, c, m);
        counted = omega (arith, f.size);
        exact = λ e. omega (arith, f.size);
        quiet = tt;
      }

-- However takers, givers, the producer, the scanner and the closing take turns after `start`: each
-- connection made stands in the queue, in use or among the deleted, once; no more than `maxSize_` are
-- open, and the count stays between the sizes and is exact until the pool closes; and once it has closed
-- the queue stays empty.
pub Reach-started-Inv :
    (min_size max_size max_idle_time now : ℕ) {s : System}
    → min_size ≤ max_size
    → Reach (started min_size max_size max_idle_time now) s
    → Inv s
Reach-started-Inv min_size max_size max_idle_time now h r =
    Reach-Inv (started-Inv min_size max_size max_idle_time now h) r
