-- ===== src/Dbcp/System.antt =====
-- The pool with those who use it: the threads that take and give back connections, the producer, the
-- scanner, and the thread that closes it. Each step is one turn under the
-- lock, or the setting of the flag that closes the pool, in any order.
use learn_note.Prelude.{ℕ, ◌≡◌, true, false, some, List, [], ◌∷◌, ◌++◌}
use learn_note.Dbcp.{
  Connection, Pool, init, start, get_connection, give_back, close_begin, close_drain, produce, scan,
}

pub data Phase : Type 0 where
  open_phase closing closed : Phase

-- `lent` are the connections in use.
pub record System : Type 0 where
  pub pool : Pool
  pub lent : List Connection
  pub phase : Phase

abbrev pub started : (min_size max_size max_idle_time now : ℕ) → System
started min_size max_size max_idle_time now = record {
  pool = start (init min_size max_size max_idle_time) true now;
  lent = [];
  phase = open_phase;
}

pub data Step (s : System) : System → Type 0 where
  -- `GetConnection`, in time.
  takes :
      {p : Pool} {c : Connection}
      → get_connection s.pool ≡ (p, some c)
      → Step s (record s { pool = p; lent = c ∷ s.lent })
  -- A user lets go of a connection.
  gives :
      (xs ys : List Connection) (c : Connection) (now : ℕ)
      → s.lent ≡ xs ++ c ∷ ys
      → Step s (record s { pool = give_back s.pool c now; lent = xs ++ ys })
  -- The producer wakes where the queue is empty, and goes on where the pool is not closing.
  produces :
      (now : ℕ)
      → s.pool.queue ≡ []
      → s.pool.exiting ≡ false
      → Step s (record s { pool = produce s.pool now })
  scans :
      {p : Pool} (now : ℕ)
      → s.pool.exiting ≡ false
      → scan s.pool now ≡ some p
      → Step s (record s { pool = p })
  begins_close : Step s (record s { pool = close_begin s.pool; phase = closing })
  drains : s.phase ≡ closing → Step s (record s { pool = close_drain s.pool; phase = closed })

pub data Reach (s : System) : System → Type 0 where
  here : Reach s s
  next : {t u : System} → Reach s t → Step t u → Reach s u
