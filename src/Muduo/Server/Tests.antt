-- ===== src/Muduo/Server/Tests.antt =====
-- A server with one connection open, and one more accepted.
use learn_note.Prelude.{ℕ, ◌≡◌, refl, true, false, inl, none, some, [], ◌∷◌, arith, if◌then◌else◌}
use learn_note.Muduo.ThreadPool
use learn_note.Muduo.ThreadPool.{ThreadPool, get_next_loop}
use learn_note.Muduo.Server.{
  Name, name_eq, Conn, establish, Server, init, lookup, open_on, new_connection,
}
use learn_note.Muduo.Server.Lifecycle.{
  System, create, at_once, run_job, remove_connection, destroy_now, Reach, here, next, connects,
  runs, closes, destroys,
}
use learn_note.Muduo.Server.Lifecycle.Reachable.{Sound, Reach-create-Sound}
use learn_note.Muduo.Server.Names.{Prints}
use learn_note.Muduo.Server.Connections.{Inv, open_on_lem}

-- A text of one unit stands in for the decimal one.
abbrev decimal : ℕ → Name
decimal i = i ∷ []

first : {x y : ℕ} → x ∷ [] ≡ y ∷ [] → x ≡ y
first e = cc

decimal-Prints : Prints decimal
decimal-Prints = record { injective = λ i j e. first e; short = λ i h. omega arith }

abbrev server : Server
server = init 1 (b':' ∷ []) (b's' ∷ [])

abbrev pool : ThreadPool
pool = ThreadPool.init 1

server-Inv : Inv decimal server
unfolding init
server-Inv = record { distinct = tt; numbered = tt }

abbrev opened : Server
opened = open_on decimal server 7 1 pool

opened-Inv : Inv decimal opened
unfolding init
opened-Inv =
    (open_on_lem decimal server 7 1 pool decimal-Prints (omega arith) (omega arith) server-Inv).0

abbrev conn : Conn
conn = record { name = b's' ∷ b'-' ∷ b':' ∷ b'#' ∷ 1 ∷ []; loop = 1; fd = 7 }

opened_connections : opened.connections ≡ (conn.name, conn) ∷ []
unfolding open_on init
opened_connections = refl

abbrev second : Conn
second = record { name = b's' ∷ b'-' ∷ b':' ∷ b'#' ∷ 2 ∷ []; loop = 1; fd = 8 }

open_on_lem_example :
    Inv decimal (open_on decimal opened 8 1 pool)
    × (lookup second.name opened.connections ≡ none)
    × ((k : Name)
        → lookup k (open_on decimal opened 8 1 pool).connections
          ≡ (if name_eq second.name k then some second else lookup k opened.connections))
    × ((open_on decimal opened 8 1 pool).scheduled ≡ (1, establish second) ∷ opened.scheduled)
unfolding open_on init
open_on_lem_example =
    open_on_lem decimal opened 8 1 pool decimal-Prints (omega arith) (omega arith) opened-Inv

-- A pool of one thread, whose loop is 2: a connection comes, is established and closes, and the server
-- is destroyed before it has removed the connection.
abbrev one_thread : ThreadPool
one_thread = record pool { started = true; num_threads = 1; loops = 2 ∷ [] }

abbrev begun : System
begun = create (record server { thread_pool = one_thread })

abbrev remote : Conn
remote = record conn { loop = 2 }

abbrev served : System
served =
    run_job
      (at_once (record begun {
        server = open_on decimal begun.server 7 2 (record one_thread { next = 0 });
      }))
      [] [] (establish remote)

abbrev over : System
over = record (destroy_now (remove_connection served remote) served.server.connections) {
  alive = false;
}

over-Reach : Reach decimal begun over
unfolding create init open_on new_connection get_next_loop at_once run_job remove_connection
    destroy_now ThreadPool.init
over-Reach =
    next
      (next (next (next here (connects 7 refl refl)) (runs [] [] 2 (establish remote) refl tt))
        (closes remote (inl refl)))
      (destroys refl)

Reach-create-Sound_example : Sound over
Reach-create-Sound_example =
    Reach-create-Sound decimal 1 (b':' ∷ []) (b's' ∷ []) one_thread over over-Reach
