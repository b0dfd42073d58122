-- ===== src/Muduo/Server/Connections.antt =====
-- What a server knows of its connections, through any history.
use learn_note.Prelude.{
  ℕ, ◌+◌, ◌^◌, ◌≤◌, ◌<◌, ◌≡◌, refl, sym, subst, ◌∙◌, inl, inr, Bool, true, false, Bool-cases, none,
  some, [], ◌∷◌, arith, if◌then◌else◌, if-true, if-false,
}
use learn_note.Muduo.ThreadPool.{ThreadPool}
use learn_note.Muduo.Server.{
  Name, name_eq, Conn, establish, destroy, listen, Connections, Server, lookup, assign, erase,
  conn_name, open_on, remove_connection_in_loop, start,
}
use learn_note.Muduo.Server.Names.{
  name_eq_iff, lookup-assign, lookup-erase, Distinct, Prints, IsAddress, conn_name-injective,
}

module _ (decimal : ℕ → Name) where
  -- Every connection in the map stands under its own name, which is that of a number already given.
  abbrev pub Numbered : (name ip_port : Name) → ℕ → Connections → Type 0
  Numbered name ip_port next [] = Unit {0}
  Numbered name ip_port next ((n, c) ∷ cs) =
      (c.name ≡ n)
      × ((i : ℕ) × (i < next) × (n ≡ conn_name decimal name ip_port i))
      × Numbered name ip_port next cs

  pub record Inv (s : Server) : Type 0 where
    pub distinct : Distinct s.connections
    pub numbered : Numbered s.name s.ip_port s.next_conn_id s.connections

  Numbered-mono :
      (name ip_port : Name) (m n : ℕ) (cs : Connections)
      → m ≤ n
      → Numbered name ip_port m cs
      → Numbered name ip_port n cs
  Numbered-mono name ip_port m n [] h v = tt
  Numbered-mono name ip_port m n ((k, c) ∷ cs) h (e, (i, lt, f), v) =
      (e, (i, omega arith, f), Numbered-mono name ip_port m n cs h v)

  -- A new name is not in the map.
  module _ (p : Prints decimal) (name ip_port : Name) (a : IsAddress ip_port) where
    fresh_name :
        (next : ℕ) (cs : Connections)
        → next < 2 ^ 31
        → Numbered name ip_port next cs
        → lookup (conn_name decimal name ip_port next) cs ≡ none
    unfolding lookup
    fresh_name next [] h v = refl
    fresh_name next ((n, c) ∷ cs) h (e, (i, lt, f), v) =
        let ih = fresh_name next cs h v in
        if-false _ _ (differs (name_eq n (conn_name decimal name ip_port next)) refl) ∙ ih
      where
        differs : (b : Bool) → name_eq n (conn_name decimal name ip_port next) ≡ b → b ≡ false
        differs false e' = refl
        differs true e' =
            let same = sym f ∙ (name_eq_iff n (conn_name decimal name ip_port next)).0 e' in
            let i_next : i ≡ next =
              conn_name-injective decimal p name ip_port a i next (omega arith) h same in
            absurd (omega arith)

assign-Distinct :
    (n : Name) (c : Conn) (cs : Connections)
    → lookup n cs ≡ none
    → Distinct cs
    → Distinct (assign n c cs)
unfolding lookup assign
assign-Distinct n c [] h d = (refl, tt)
assign-Distinct n c ((m, e) ∷ cs) h d =
    ground (arith, name_eq_iff m n, name_eq_iff n m, lookup-assign n m c cs, assign-Distinct n c cs)

lookup-erase-none :
    (n k : Name) (cs : Connections)
    → Distinct cs
    → lookup k cs ≡ none
    → lookup k (erase n cs) ≡ none
lookup-erase-none n k cs d h = ground (arith, lookup-erase n k cs d)

erase-Distinct : (n : Name) (cs : Connections) → Distinct cs → Distinct (erase n cs)
unfolding erase
erase-Distinct n [] d = tt
erase-Distinct n ((m, e) ∷ cs) d =
    ground (arith, erase-Distinct n cs d.1, lookup-erase-none n m cs d.1)

module _ (decimal : ℕ → Name) (name ip_port : Name) where
  assign-Numbered :
      (i next : ℕ) (c : Conn) (cs : Connections)
      → i < next
      → c.name ≡ conn_name decimal name ip_port i
      → Numbered decimal name ip_port next cs
      → Numbered decimal name ip_port next (assign (conn_name decimal name ip_port i) c cs)
  unfolding assign
  assign-Numbered i next c [] lt e v = (e, (i, lt, refl), tt)
  assign-Numbered i next c ((m, d) ∷ cs) lt e (f, (j, l, g), v) =
      elim (Bool-cases (name_eq m (conn_name decimal name ip_port i))) [
        | inl h ↦
            subst (Numbered decimal name ip_port next) (sym (if-true ((m, c) ∷ cs) rest h))
              (e ∙ sym ((name_eq_iff m _).0 h), (j, l, g), v)
        | inr h ↦
            subst (Numbered decimal name ip_port next) (sym (if-false ((m, c) ∷ cs) rest h))
              (f, (j, l, g), assign-Numbered i next c cs lt e v)
      ]
    where
      rest : Connections
      rest = (m, d) ∷ assign (conn_name decimal name ip_port i) c cs

  erase-Numbered :
      (n : Name) (next : ℕ) (cs : Connections)
      → Numbered decimal name ip_port next cs
      → Numbered decimal name ip_port next (erase n cs)
  unfolding erase
  erase-Numbered n next [] v = tt
  erase-Numbered n next ((m, d) ∷ cs) (e, i, v) = elim (Bool-cases (name_eq m n)) [
    | inl h ↦ subst (Numbered decimal name ip_port next) (sym (if-true cs rest h)) v
    | inr h ↦
        subst (Numbered decimal name ip_port next) (sym (if-false cs rest h))
          (e, i, erase-Numbered n next cs v)
  ]
    where
      rest : Connections
      rest = (m, d) ∷ erase n cs

-- A removal takes out the connection of that name and no other, hands its destruction to its own
-- loop, and keeps the map in order.
pub remove_connection_lem :
    (decimal : ℕ → Name) (s : Server) (conn : Conn)
    → Inv decimal s
    → let t = remove_connection_in_loop s conn in
      Inv decimal t
      × ((k : Name)
          → lookup k t.connections ≡ (if name_eq conn.name k then none else lookup k s.connections))
      × (t.scheduled ≡ (conn.loop, destroy conn) ∷ s.scheduled)
unfolding remove_connection_in_loop
remove_connection_lem decimal s conn v = (
  record {
    distinct = erase-Distinct conn.name s.connections v.distinct;
    numbered = erase-Numbered decimal s.name s.ip_port conn.name s.next_conn_id _ v.numbered;
  },
  λ k. lookup-erase conn.name k s.connections v.distinct,
  refl,
)

-- A new connection, below the 2^31st, gets a name that no open connection has; it joins the map and
-- drives no other out, and its start is handed to the loop that the pool gave.
pub open_on_lem :
    (decimal : ℕ → Name) (s : Server) (fd io_loop : ℕ) (pool : ThreadPool)
    → Prints decimal
    → IsAddress s.ip_port
    → s.next_conn_id < 2 ^ 31
    → Inv decimal s
    → let t = open_on decimal s fd io_loop pool in
      let name = conn_name decimal s.name s.ip_port s.next_conn_id in
      let conn : Conn = record { name = name; loop = io_loop; fd = fd } in
      Inv decimal t
      × (lookup name s.connections ≡ none)
      × ((k : Name)
          → lookup k t.connections ≡ (if name_eq name k then some conn else lookup k s.connections))
      × (t.scheduled ≡ (io_loop, establish conn) ∷ s.scheduled)
unfolding open_on
open_on_lem decimal s fd io_loop pool p a h v =
    let name = conn_name decimal s.name s.ip_port s.next_conn_id in
    let conn : Conn = record { name = name; loop = io_loop; fd = fd } in
    let unused =
      fresh_name decimal p s.name s.ip_port a s.next_conn_id s.connections h v.numbered in
    (
      record {
        distinct = assign-Distinct name conn s.connections unused v.distinct;
        numbered =
            assign-Numbered decimal s.name s.ip_port s.next_conn_id (s.next_conn_id + 1) conn
              s.connections (omega arith) refl
              (Numbered-mono decimal s.name s.ip_port s.next_conn_id (s.next_conn_id + 1)
                s.connections (omega arith) v.numbered);
      },
      unused,
      λ k. lookup-assign name k conn s.connections,
      refl,
    )

-- However often it is called, `start` starts the pool and the acceptor once.
pub start_once :
    (s : Server) (c d : Bool) (f g : ℕ → ℕ)
    → s.started ≡ 0
    → let t = start s c f in
      (t.scheduled ≡ (s.loop, listen) ∷ s.scheduled)
      × ((start t d g).scheduled ≡ t.scheduled)
      × ((start t d g).thread_pool ≡ t.thread_pool)
unfolding start
start_once s c d f g h = ground arith
