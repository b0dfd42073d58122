-- ===== src/Dbcp/Tests.antt =====
-- Runs of the pool.
use learn_note.Prelude.{◌≡◌, refl, true, none, some, [], ◌∷◌, arith}
use learn_note.Dbcp.{
  Connection, init, add_connection, add_connections, start, take_front, get_connection, give_back,
  produce, reclaim, scan,
}
use learn_note.Dbcp.System.{System, started, takes, gives, produces, open_phase, Reach, here, next}
use learn_note.Dbcp.Bounds.{Inv, Reach-started-Inv}
use learn_note.Dbcp.Scanner.{scan-none}

abbrev first : Connection
first = record { id = 0; refreshed = 5 }

-- The one connection of the pool is taken, the producer makes another, and the first comes back.
abbrev used : System
unfolding give_back produce add_connection start init add_connections
used = record {
  pool = give_back (produce (record (start (init 1 2 60) true 5) { queue = [] }) 6) first 7;
  lent = [];
  phase = open_phase;
}

used-Reach : Reach (started 1 2 60 5) used
unfolding give_back produce add_connection start init add_connections get_connection take_front
used-Reach = next (next (next here (takes refl)) (produces 6 refl refl)) (gives [] [] first 7 refl)

Reach-started-Inv_example : Inv used
Reach-started-Inv_example = Reach-started-Inv 1 2 60 5 (omega arith) used-Reach

scan-none_example : (t : System) × Reach (started 1 2 60 5) t × (scan t.pool 9000 ≡ none)
scan-none_example = scan-none 1 2 60 5 9000 (omega arith)

-- The scanner deletes what has not been used for a minute, down to the minimum.
scan_stale :
    scan (add_connection (start (init 1 2 60) true 5) 6) 60005
    ≡ some (record (start (init 1 2 60) true 5) {
      queue = record { id = 1; refreshed = 6 } ∷ [];
      made = 2;
      deleted = 0 ∷ [];
    })
unfolding scan reclaim start init add_connections add_connection
scan_stale = refl
