-- ===== src/Dbcp.antt =====
-- cpp_learning_projects/DBCP-mgkl/src/ConnectionPool.cpp and include/ConnectionPool.h: a pool of database
-- connections. Each operation is what its code does under `mtx_`, once its wait is over. A connection is
-- known by the number under which it was made; the MySQL client is not modelled, and `AddConnection` does
-- not look at what `Connect` answers. Times are in milliseconds, and a read of the clock is an argument.
pub mod System
pub mod Bounds
pub mod Ledger
pub mod Scanner
mod Tests
use learn_note.Prelude.{
  ℕ, zero, suc, ◌+◌, ◌-◌, ◌*◌, Bool, true, false, Option, none, some, List, [], ◌∷◌, ◌++◌,
  if◌then◌else◌, ltb, leb, map,
}

-- `refreshed` is `aliveTime_`.
pub record Connection : Type 0 where
  pub id : ℕ
  pub refreshed : ℕ

-- `made` counts the connections made so far, and `deleted` are the numbers of those deleted, newest first.
pub record Pool : Type 0 where
  pub min_size : ℕ
  pub max_size : ℕ
  pub max_idle_time : ℕ
  pub queue : List Connection
  pub count : ℕ
  pub exiting : Bool
  pub made : ℕ
  pub deleted : List ℕ

-- The pool is a static variable, which starts at zero; the configuration is read later.
unfoldable pub init : (min_size max_size max_idle_time : ℕ) → Pool
init min_size max_size max_idle_time = record {
  min_size = min_size;
  max_size = max_size;
  max_idle_time = max_idle_time;
  queue = [];
  count = 0;
  exiting = false;
  made = 0;
  deleted = [];
}

unfoldable pub add_connection : Pool → (now : ℕ) → Pool
add_connection p now = record p {
  queue = p.queue ++ record { id = p.made; refreshed = now } ∷ [];
  count = p.count + 1;
  made = p.made + 1;
}

unfoldable pub add_connections : (n : ℕ) → Pool → (now : ℕ) → Pool
unfolding add_connection
add_connections zero p now = p
add_connections (suc n) p now = add_connections n (add_connection p now) now

-- `loaded` is what `LoadConfigFile` answers.
unfoldable pub start : Pool → (loaded : Bool) → (now : ℕ) → Pool
unfolding add_connections
start p loaded now =
    if loaded then record (add_connections p.min_size p now) { exiting = false } else p

-- `nullptr` where no connection came in time.
unfoldable pub take_front : List Connection → Pool → Pool × Option Connection
take_front [] p = (p, none)
take_front (c ∷ cs) p = (record p { queue = cs }, some c)

unfoldable pub get_connection : Pool → Pool × Option Connection
unfolding take_front
get_connection p = take_front p.queue p

-- What the deleter of the `shared_ptr` does.
unfoldable pub give_back : Pool → Connection → (now : ℕ) → Pool
give_back p c now =
    if p.exiting
    then record p { deleted = c.id ∷ p.deleted }
    else record p { queue = p.queue ++ record c { refreshed = now } ∷ [] }

-- `close()`: the flag is set before the lock is taken, and the queue is emptied under it.
unfoldable pub close_begin : Pool → Pool
close_begin p = record p { exiting = true }

unfoldable pub delete_all : List Connection → List ℕ → List ℕ
delete_all [] deleted = deleted
delete_all (c ∷ cs) deleted = delete_all cs (c.id ∷ deleted)

unfoldable pub close_drain : Pool → Pool
unfolding delete_all
close_drain p = record p { queue = []; deleted = delete_all p.queue p.deleted }

-- One round of `ProduceConnectionTask` where the pool is not closing.
unfoldable pub produce : Pool → (now : ℕ) → Pool
unfolding add_connection
produce p now = if ltb p.count p.max_size then add_connection p now else p

-- The loop of `ScannerConnectionTask` over the queue; `none` is the use of the front of an empty queue.
unfoldable pub reclaim : List Connection → Pool → (now : ℕ) → Option Pool
reclaim [] p now = if ltb p.min_size p.count then none else some (record p { queue = [] })
reclaim (c ∷ cs) p now =
    let rest = reclaim cs (record p { count = p.count - 1; deleted = c.id ∷ p.deleted }) now in
    if ltb p.min_size p.count
    then (if leb (p.max_idle_time * 1000) (now - c.refreshed)
        then rest
        else some (record p { queue = c ∷ cs }))
    else some (record p { queue = c ∷ cs })

unfoldable pub scan : Pool → (now : ℕ) → Option Pool
unfolding reclaim
scan p now = reclaim p.queue p now
