-- ===== src/Muduo/Server/Lifecycle.antt =====
-- A server and the loops that run what it hands out: each loop runs its jobs in the order in which they
-- came. A connection closes once it is established, at most as often as its loop says.
pub mod Order
mod Known
pub mod Reachable
use learn_note.Prelude.{
  ℕ, Bool, true, false, Option, some, List, [], ◌∷◌, ◌++◌, ◌≡◌, ◌⊎◌, ◌==◌, if◌then◌else◌,
}
use learn_note.Muduo.Server.{
  Name, Conn, Job, establish, destroy, listen, Connections, Server, new_connection,
  remove_connection_in_loop, schedule, start,
}

-- The jobs in `server.scheduled` are those not yet run, and `ran` are the others, newest first; `removals`
-- are the calls of `removeConnectionInLoop` that wait in the loop of the server.
pub record System : Type 0 where
  pub server : Server
  pub alive : Bool
  pub removals : List Conn
  pub ran : List Job

unfoldable pub create : Server → System
create s = record { server = s; alive = true; removals = []; ran = [] }

abbrev pub In : {A : Type 0} → A → List A → Type 0
In x [] = ⊥
In x (y ∷ ys) = (x ≡ y) ⊎ In x ys

-- No job of the loop.
abbrev pub Free : ℕ → List (ℕ × Job) → Type 0
Free l [] = Unit {0}
Free l ((m, j) ∷ jobs) = (l ≡ m → ⊥) × Free l jobs

-- A loop has run the oldest of its jobs.
unfoldable pub run_job : System → (newer older : List (ℕ × Job)) → Job → System
run_job y newer older job = record y {
  server = record y.server { scheduled = newer ++ older };
  ran = job ∷ y.ran;
}

-- `runInLoop` in the thread of the server: what was handed to its own loop runs at once.
unfoldable pub at_once : System → System
unfolding run_job
at_once y = elim y.server.scheduled [
  | [] ↦ y
  | (l, job) ∷ older ↦ if l == y.server.loop then run_job y [] older job else y
]

-- `~TcpServer()` with its calls of `runInLoop`.
unfoldable pub destroy_now : System → Connections → System
unfolding at_once
destroy_now y [] = y
destroy_now y ((n, c) ∷ cs) =
    destroy_now (at_once (record y { server = schedule y.server c.loop (destroy c) })) cs

-- `removeConnection`, called in the loop of the connection.
unfoldable pub remove_connection : System → Conn → System
remove_connection y c = record y { removals = y.removals ++ c ∷ [] }

-- The turns of the server's loop and of the others. What waits for a server that is gone is not run.
module _ (decimal : ℕ → Name) where
  pub data Step (y : System) : System → Type 0 where
    starts :
        (has_callback : Bool) (start_loop : ℕ → ℕ)
        → y.alive ≡ true
        → y.server.started ≡ 0
        → Step y (at_once (record y { server = start y.server has_callback start_loop }))
    connects :
        (fd : ℕ) {s : Server}
        → y.alive ≡ true
        → new_connection decimal y.server fd ≡ some s
        → Step y (at_once (record y { server = s }))
    runs :
        (newer older : List (ℕ × Job)) (l : ℕ) (job : Job)
        → y.server.scheduled ≡ newer ++ (l, job) ∷ older
        → Free l older
        → Step y (run_job y newer older job)
    closes : (c : Conn) → In (establish c) y.ran → Step y (remove_connection y c)
    removes :
        (c : Conn) (rest : List Conn)
        → y.alive ≡ true
        → y.removals ≡ c ∷ rest
        → Step y (record y { server = remove_connection_in_loop y.server c; removals = rest })
    destroys :
        y.alive ≡ true → Step y (record (destroy_now y y.server.connections) { alive = false })

  pub data Reach (y : System) : System → Type 0 where
    here : Reach y y
    next : {z w : System} → Reach y z → Step z w → Reach y w
