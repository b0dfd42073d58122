-- ===== src/Muduo/Server.antt =====
-- cpp_learning_projects/muduo-mgkl/src/TcpServer.cpp and include/TcpServer.hpp: the connections of a
-- server by name, and what it hands to their loops. `decimal` is the text that `snprintf` makes of an
-- `int`; `nextConnId_` does not reach 2^31.
pub mod Names
pub mod Connections
pub mod Lifecycle
mod Tests
use learn_note.Prelude.{
  ℕ, ◌+◌, ◌==◌, Bool, true, false, ◌&&◌, Option, none, some, List, [], ◌∷◌, ◌++◌, if◌then◌else◌,
  take,
}
use learn_note.Muduo.ThreadPool
use learn_note.Muduo.ThreadPool.{ThreadPool, get_next_loop}

-- A `std::string`, by its bytes.
abbrev pub Name : Type 0
Name = List ℕ

abbrev pub name_eq : Name → Name → Bool
name_eq [] [] = true
name_eq [] (b ∷ n) = false
name_eq (a ∷ m) [] = false
name_eq (a ∷ m) (b ∷ n) = a == b && name_eq m n

-- A `TcpConnection` as its server knows it.
pub record Conn : Type 0 where
  pub name : Name
  pub loop : ℕ
  pub fd : ℕ

-- What is handed to a loop: `TcpConnection::connectEstablished`, `TcpConnection::connectDestroted`
-- and `Acceptor::listen`.
pub data Job : Type 0 where
  establish destroy : Conn → Job
  listen : Job

abbrev pub Connections : Type 0
Connections = List (Name × Conn)

-- `scheduled` are the jobs handed out so far with the loop that each goes to, newest first.
pub record Server : Type 0 where
  pub loop : ℕ
  pub ip_port : Name
  pub name : Name
  pub thread_pool : ThreadPool
  pub started : ℕ
  pub next_conn_id : ℕ
  pub connections : Connections
  pub scheduled : List (ℕ × Job)

unfoldable pub init : ℕ → Name → Name → Server
init loop ip_port name = record {
  loop = loop;
  ip_port = ip_port;
  name = name;
  thread_pool = ThreadPool.init loop;
  started = 0;
  next_conn_id = 1;
  connections = [];
  scheduled = [];
}

unfoldable pub lookup : Name → Connections → Option Conn
lookup n [] = none
lookup n ((m, c) ∷ cs) = if name_eq m n then some c else lookup n cs

-- `connections_[name] = conn`.
unfoldable pub assign : Name → Conn → Connections → Connections
assign n c [] = (n, c) ∷ []
assign n c ((m, d) ∷ cs) = if name_eq m n then (m, c) ∷ cs else (m, d) ∷ assign n c cs

unfoldable pub erase : Name → Connections → Connections
erase n [] = []
erase n ((m, d) ∷ cs) = if name_eq m n then cs else (m, d) ∷ erase n cs

abbrev pub schedule : Server → ℕ → Job → Server
schedule s loop job = record s { scheduled = (loop, job) ∷ s.scheduled }

unfoldable pub start : Server → (has_callback : Bool) → (ℕ → ℕ) → Server
start s has_callback start_loop =
    let counted = record s { started = s.started + 1 } in
    let pool = (ThreadPool.start s.thread_pool has_callback start_loop).0 in
    if s.started == 0
    then schedule (record counted { thread_pool = pool }) s.loop listen
    else counted

-- `char buf[64]` holds 63 bytes of "-%s#%d".
module _ (decimal : ℕ → Name) where
  unfoldable pub conn_name : (name ip_port : Name) → ℕ → Name
  conn_name name ip_port id = name ++ take 63 (b'-' ∷ (ip_port ++ (b'#' ∷ decimal id)))

  unfoldable pub open_on : Server → ℕ → ℕ → ThreadPool → Server
  unfolding conn_name assign
  open_on s fd io_loop pool =
      let name = conn_name s.name s.ip_port s.next_conn_id in
      let conn : Conn = record { name = name; loop = io_loop; fd = fd } in
      schedule
        (record s {
          thread_pool = pool;
          next_conn_id = s.next_conn_id + 1;
          connections = assign name conn s.connections;
        })
        io_loop (establish conn)

  -- `none` is an index out of range in the thread pool.
  unfoldable pub new_connection : Server → ℕ → Option Server
  unfolding open_on
  new_connection s fd = elim (get_next_loop s.thread_pool) [
    | none ↦ none
    | some (io_loop, pool) ↦ some (open_on s fd io_loop pool)
  ]

-- In the loop of the server.
unfoldable pub remove_connection_in_loop : Server → Conn → Server
unfolding erase
remove_connection_in_loop s conn =
    schedule (record s { connections = erase conn.name s.connections }) conn.loop (destroy conn)

-- `~TcpServer()`.
unfoldable pub destroy_all : Server → Connections → Server
destroy_all s [] = s
destroy_all s ((n, c) ∷ cs) = destroy_all (schedule s c.loop (destroy c)) cs
