-- ===== src/Muduo/Server/Lifecycle/Reachable.antt =====
-- What holds of a server and its loops after any turns.
use learn_note.Prelude.{
  ℕ, ◌==◌, ◌≡◌, inl, inr, refl, sym, ap, ◌∙◌, subst, Bool, Bool-cases, true, Option, Option-cases,
  none, some, [], ◌∷◌, ◌++◌, arith, if-true, if-false,
}
use mathlib.Core.Option.{some-injective}
use learn_note.Muduo.ThreadPool.{ThreadPool, get_next_loop}
use learn_note.Muduo.Server.{
  Name, Conn, Job, establish, destroy, listen, Connections, Server, init, erase, conn_name, open_on,
  new_connection, remove_connection_in_loop, schedule, start,
}
use learn_note.Muduo.Server.Lifecycle.{
  System, create, run_job, at_once, destroy_now, remove_connection, Step, starts, connects, runs,
  closes, removes, destroys, Reach, here, next,
}
use learn_note.Muduo.Server.Lifecycle.Order.{
  Known, Ready, Ordered, Due-Ordered, Known-run, Ready-more, Ready-run, Ready-Due,
}
use learn_note.Muduo.Server.Lifecycle.Known.{
  AllKnown, AllEstablished, AllKnown-map, AllKnown-assign, AllKnown-erase, AllKnown-later,
  AllEstablished-more, AllEstablished-append, Fits, Fits-Ready, Fits-Due,
}

-- Each connection of the map is established or waits for it in its loop; each that is to be removed is
-- established; and each destruction that has run came after that.
pub record Sound (y : System) : Type 0 where
  pub ready : Ready y.server.loop y.ran y.server.scheduled
  pub known : AllKnown y.ran y.server.scheduled y.server.connections
  pub closed : AllEstablished y.ran y.removals
  pub ordered : Ordered y.ran

-- What is handed over, and run at once in the loop of the server.
abbrev handed : System → Server → ℕ → Job → System
handed y s l j = record y { server = schedule s l j }

Known-at_once :
    (y : System) (s : Server) (l : ℕ) (j : Job) (c : Conn)
    → Known c y.ran ((l, j) ∷ s.scheduled)
    → Known c (at_once (handed y s l j)).ran (at_once (handed y s l j)).server.scheduled
unfolding at_once run_job
Known-at_once y s l j c k = elim (Bool-cases (l == s.loop)) [
  | inl e ↦
      subst (λ (z : System). Known c z.ran z.server.scheduled) (sym (if-true _ _ e))
        (Known-run c y.ran [] s.scheduled l j k)
  | inr e ↦ subst (λ (z : System). Known c z.ran z.server.scheduled) (sym (if-false _ _ e)) k
]

at_once-Sound :
    (y : System) (s : Server) (l : ℕ) (j : Job)
    → Ready s.loop y.ran s.scheduled
    → Fits y.ran s.scheduled l j
    → AllKnown y.ran ((l, j) ∷ s.scheduled) s.connections
    → AllEstablished y.ran y.removals
    → Ordered y.ran
    → Sound (at_once (handed y s l j))
unfolding at_once run_job
at_once-Sound y s l j r f k a o = elim (Bool-cases (l == s.loop)) [
  | inl e ↦ subst Sound (sym (if-true _ _ e)) (record {
    ready = Ready-more s.loop y.ran s.scheduled j r;
    known =
        AllKnown-map y.ran (j ∷ y.ran) ((l, j) ∷ s.scheduled) s.scheduled s.connections
          (λ c h. Known-run c y.ran [] s.scheduled l j h) k;
    closed = AllEstablished-more y.ran j y.removals a;
    ordered = Due-Ordered j y.ran (Fits-Due s.loop y.ran s.scheduled l j (ground (arith, e)) f r) o;
  })
  | inr e ↦ subst Sound (sym (if-false _ _ e)) (record {
    ready = Fits-Ready s.loop y.ran s.scheduled l j (λ h. absurd (ground (arith, e, h))) f r;
    known = k;
    closed = a;
    ordered = o;
  })
]

destroy_now-Sound :
    (y : System) (cs : Connections)
    → Sound y
    → AllKnown y.ran y.server.scheduled cs
    → Sound (destroy_now y cs)
unfolding destroy_now
destroy_now-Sound y [] v k = v
destroy_now-Sound y ((n, c) ∷ cs) v (h, k) =
    let s = y.server in
    let z = at_once (handed y s c.loop (destroy c)) in
    let later = AllKnown-later y.ran s.scheduled c.loop (destroy c) in
    destroy_now-Sound z cs
      (at_once-Sound y s c.loop (destroy c) v.ready (refl, h) (later s.connections v.known) v.closed
        v.ordered)
      (AllKnown-map y.ran z.ran ((c.loop, destroy c) ∷ s.scheduled) z.server.scheduled cs
        (λ d i. Known-at_once y s c.loop (destroy c) d i) (later cs k))

start-Sound :
    (y : System) (has_callback : Bool) (start_loop : ℕ → ℕ)
    → y.server.started ≡ 0
    → Sound y
    → Sound (at_once (record y { server = start y.server has_callback start_loop }))
unfolding start
start-Sound y has_callback start_loop z v =
    let first : (y.server.started == 0) ≡ true = ground (arith, z) in
    subst (λ t. Sound (at_once (record y { server = t }))) (sym (if-true _ _ first))
      (at_once-Sound y _ y.server.loop listen v.ready tt
        (AllKnown-later y.ran y.server.scheduled y.server.loop listen y.server.connections v.known)
        v.closed v.ordered)

-- A new connection waits in its loop to be established.
open_on-Sound :
    (decimal : ℕ → Name) (y : System) (fd io_loop : ℕ) (pool : ThreadPool)
    → Sound y
    → Sound (at_once (record y { server = open_on decimal y.server fd io_loop pool }))
unfolding open_on
open_on-Sound decimal y fd io_loop pool v =
    let s = y.server in
    let name = conn_name decimal s.name s.ip_port s.next_conn_id in
    let conn : Conn = record { name = name; loop = io_loop; fd = fd } in
    let jobs = (io_loop, establish conn) ∷ s.scheduled in
    at_once-Sound y _ io_loop (establish conn) v.ready refl
      (AllKnown-assign y.ran jobs name conn s.connections (inr (inl refl))
        (AllKnown-later y.ran s.scheduled io_loop (establish conn) s.connections v.known))
      v.closed v.ordered

connect-Sound :
    (decimal : ℕ → Name) (y : System) (fd : ℕ) (s : Server)
    → new_connection decimal y.server fd ≡ some s
    → Sound y
    → Sound (at_once (record y { server = s }))
unfolding new_connection
connect-Sound decimal y fd s e v = elim (Option-cases (get_next_loop y.server.thread_pool)) [
  | inl out ↦ absurd (nothing (sym (ap opened out) ∙ e))
  | inr ((io_loop, pool), has) ↦
      subst (λ t. Sound (at_once (record y { server = t })))
        (some-injective _ _ (sym (ap opened has) ∙ e)) (open_on-Sound decimal y fd io_loop pool v)
]
  where
    opened : Option (ℕ × ThreadPool) → Option Server
    opened none = none
    opened (some (io_loop, pool)) = some (open_on decimal y.server fd io_loop pool)

    nothing : none ≡ some s → ⊥
    nothing h = cc h

step-Sound : (decimal : ℕ → Name) {y z : System} → Step decimal y z → Sound y → Sound z
unfolding run_job remove_connection remove_connection_in_loop
step-Sound decimal {y = y} (starts has_callback start_loop live z) v =
    start-Sound y has_callback start_loop z v
step-Sound decimal {y = y} (connects fd {s = s} live e) v = connect-Sound decimal y fd s e v
step-Sound decimal {y = y} (runs newer older l j e f) v =
    let r : Ready y.server.loop y.ran (newer ++ (l, j) ∷ older) =
      subst (Ready y.server.loop y.ran) e v.ready in
    record {
      ready = Ready-run y.server.loop y.ran newer older l j r;
      known =
          AllKnown-map y.ran (j ∷ y.ran) (newer ++ (l, j) ∷ older) (newer ++ older)
            y.server.connections (λ c h. Known-run c y.ran newer older l j h)
            (subst (λ jobs. AllKnown y.ran jobs y.server.connections) e v.known);
      closed = AllEstablished-more y.ran j y.removals v.closed;
      ordered = Due-Ordered j y.ran (Ready-Due y.server.loop y.ran newer older l j f r) v.ordered;
    }
step-Sound decimal {y = y} (closes c h) v = record {
  ready = v.ready;
  known = v.known;
  closed = AllEstablished-append y.ran y.removals c v.closed h;
  ordered = v.ordered;
}
step-Sound decimal {y = y} (removes c rest live e) v =
    let (h, others) = subst (AllEstablished y.ran) e v.closed in
    let s = y.server in
    record {
      ready = (refl, inl h, v.ready);
      known =
          AllKnown-later y.ran s.scheduled c.loop (destroy c) (erase c.name s.connections)
            (AllKnown-erase y.ran s.scheduled c.name s.connections v.known);
      closed = others;
      ordered = v.ordered;
    }
step-Sound decimal {y = y} (destroys live) v =
    let w = destroy_now-Sound y y.server.connections v v.known in
    record { ready = w.ready; known = w.known; closed = w.closed; ordered = w.ordered }

-- However the server and the loops take turns, with any thread pool: no connection is destroyed that has
-- not been established before, not even by the destructor of the server; each connection of the map is
-- established or waits for it in its own loop; and each that is to be removed is established.
pub Reach-create-Sound :
    (decimal : ℕ → Name) (loop : ℕ) (ip_port name : Name) (pool : ThreadPool) (y : System)
    → Reach decimal (create (record (init loop ip_port name) { thread_pool = pool })) y
    → Sound y
unfolding create init
Reach-create-Sound decimal loop ip_port name pool y here = record {
  ready = tt;
  known = tt;
  closed = tt;
  ordered = tt;
}
Reach-create-Sound decimal loop ip_port name pool y (next r s) =
    step-Sound decimal s (Reach-create-Sound decimal loop ip_port name pool _ r)
