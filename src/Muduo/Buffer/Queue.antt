-- ===== src/Muduo/Buffer/Queue.antt =====
-- A buffer seen from outside: a queue of bytes, and the calls that a client makes of it.
use learn_note.Prelude.{
  ℕ, ◌+◌, ◌≤◌, ◌≡◌, refl, sym, ap, inl, inr, true, Bool-cases, Option, none, some, List, [], ◌∷◌,
  ◌++◌, arith, length, take, drop, take_all, drop_all, length-take, length-drop, ◌<◌, leb, leb→le,
  subst, if◌then◌else◌,
}
use learn_note.Muduo.Buffer.{
  Buffer, readable_bytes, retrieve, retrieve_as_string, retrieve_all_as_string, append, Syscall,
  done, failed, read_fd, put, ensure_writable_bytes, make_space, retrieve_all, writable_bytes,
  read_spill,
}
use learn_note.Muduo.Buffer.Bounds.{
  IsValid, max_size, sizes, append-IsValid, put-IsValid, retrieve-IsValid,
}
use learn_note.Muduo.Buffer.Contents.{
  contents, length-contents, contents-append, contents-retrieve, retrieve_as_string-some,
  retrieve_as_string-none, contents-read_fd, read_spill-append,
}

pub data Call : Type 0 where
  appends : List ℕ → Call
  retrieves : ℕ → Call
  takes : ℕ → Call
  takes_all : Call
  reads : Syscall (List ℕ) → Call

-- What a call returns.
pub data Reply : Type 0 where
  nothing : Reply
  text : List ℕ → Reply
  count : Syscall ℕ → Reply

-- How many bytes a call brings in.
abbrev pub incoming : Call → ℕ
incoming (appends bytes) = length bytes
incoming (reads (done bytes)) = length bytes
incoming _ = 0

abbrev pub total : List Call → ℕ
total [] = 0
total (c ∷ cs) = incoming c + total cs

infixl 5 ◌>>=◌
abbrev ◌>>=◌ {ℓ κ} : {A : Type ℓ} {B : Type κ} → Option A → (A → Option B) → Option B
none >>= f = none
some a >>= f = f a

abbrev answer : Option (List ℕ × Buffer) → Option (Reply × Buffer)
answer none = none
answer (some (bytes, b)) = some (text bytes, b)

-- One call on the buffer; `none` is a failed assertion, which ends the program.
unfoldable pub step : Buffer → Call → Option (Reply × Buffer)
step b (appends bytes) = some (nothing, append b bytes)
step b (retrieves n) = some (nothing, retrieve b n)
step b (takes n) = answer (retrieve_as_string b n)
step b takes_all = answer (retrieve_all_as_string b)
step b (reads r) = let (b', n) = read_fd b r in some (count n, b')

unfoldable pub run : Buffer → List Call → Option (List Reply)
unfolding step
run b [] = some []
run b (c ∷ cs) = do (r, b') ← step b c; rs ← run b' cs; some (r ∷ rs)

-- The same calls on a queue of bytes.
unfoldable pub queue_step : List ℕ → Call → Option (Reply × List ℕ)
queue_step q (appends bytes) = some (nothing, q ++ bytes)
queue_step q (retrieves n) = some (nothing, drop n q)
queue_step q (takes n) = if leb n (length q) then some (text (take n q), drop n q) else none
queue_step q takes_all = some (text q, [])
queue_step q (reads (failed e)) = some (count (failed e), q)
queue_step q (reads (done bytes)) = some (count (done (length bytes)), q ++ bytes)

unfoldable pub queue_run : List ℕ → List Call → Option (List Reply)
unfolding queue_step
queue_run q [] = some []
queue_run q (c ∷ cs) = do (r, q') ← queue_step q c; rs ← queue_run q' cs; some (r ∷ rs)

-- The write index moves by no more than what comes in.
writer-ensure :
    (b : Buffer) (len : ℕ)
    → IsValid b
    → b.writer_index + len ≤ max_size
    → (ensure_writable_bytes b len).writer_index ≤ b.writer_index
unfolding ensure_writable_bytes make_space
writer-ensure b len v h = ground (arith, sizes b v)

writer-append :
    (b : Buffer) (bytes : List ℕ)
    → IsValid b
    → b.writer_index + length bytes ≤ max_size
    → (append b bytes).writer_index ≤ b.writer_index + length bytes
unfolding append put
writer-append b bytes v h = omega (arith, writer-ensure b (length bytes) v h)

writer-retrieve : (b : Buffer) (n : ℕ) → IsValid b → (retrieve b n).writer_index ≤ b.writer_index
unfolding retrieve retrieve_all
writer-retrieve b n v = ground arith

writer-read_spill :
    (b : Buffer) (bytes : List ℕ)
    → IsValid b
    → b.writer_index + length bytes ≤ max_size
    → writable_bytes b < length bytes
    → (read_spill b (writable_bytes b) bytes).writer_index ≤ b.writer_index + length bytes
unfolding put
writer-read_spill b bytes v h k =
    let n = writable_bytes b in
    let full : b.writer_index + length (take n bytes) ≡ length b.buffer =
      omega (arith, sizes b v, length-take n bytes) in
    let v₁ = put-IsValid b (take n bytes) v (omega (arith, full)) in
    rw (read_spill-append b n bytes full v.small) (
      ground (
        arith,
        full,
        length-drop n bytes,
        length-take n bytes,
        sizes b v,
        writer-append (put b (take n bytes)) (drop n bytes) v₁,
      ))

writer-read_fd :
    (b : Buffer) (bytes : List ℕ)
    → IsValid b
    → b.writer_index + length bytes ≤ max_size
    → (read_fd b (done bytes)).0.writer_index ≤ b.writer_index + length bytes
unfolding read_fd put
writer-read_fd b bytes v h = elim (Bool-cases (leb (length bytes) (writable_bytes b))) [
  | inl e ↦ rw e (omega arith)
  | inr e ↦ rw e (writer-read_spill b bytes v h (ground (arith, sizes b v)))
]

-- A step of the buffer and one of the queue: both give up, or both give the same reply.
data Agree (bound : ℕ) (m : Option (Reply × Buffer)) (q : Option (Reply × List ℕ)) : Type 0 where
  stops : m ≡ none → q ≡ none → Agree bound m q
  goes :
      (r : Reply) (b : Buffer)
      → m ≡ some (r, b)
      → q ≡ some (r, contents b)
      → IsValid b
      → b.writer_index ≤ bound
      → Agree bound m q

module _ (b : Buffer) (v : IsValid b) where
  take_string :
      (n bound : ℕ)
      → b.writer_index ≤ bound
      → Agree bound (answer (retrieve_as_string b n)) (queue_step (contents b) (takes n))
  unfolding queue_step
  take_string n bound h = elim (Bool-cases (leb n (length (contents b)))) [
    | inl e ↦
        goes (text (take n (contents b))) (retrieve b n)
          (ap answer (retrieve_as_string-some b n v (leb→le _ _ e)))
          (rw (e, ← contents-retrieve b n v)) (retrieve-IsValid b n v)
          (omega (arith, writer-retrieve b n v))
    | inr e ↦ stops (ap answer (retrieve_as_string-none b n v (ground arith))) (rw e)
  ]

  -- Taking all is taking as many as there are.
  queue_step-takes_all :
      queue_step (contents b) takes_all ≡ queue_step (contents b) (takes (readable_bytes b))
  unfolding queue_step
  queue_step-takes_all =
      let e : length (contents b) ≡ readable_bytes b = length-contents b v in
      let all : leb (readable_bytes b) (length (contents b)) ≡ true = ground (arith, e) in
      rw (
        all,
        take_all (readable_bytes b) (contents b) (omega (arith, e)),
        drop_all (readable_bytes b) (contents b) (omega (arith, e)),
      )

  read_some : (bytes : List ℕ) → (read_fd b (done bytes)).1 ≡ done (length bytes)
  unfolding read_fd
  read_some bytes = elim (Bool-cases (leb (length bytes) (writable_bytes b))) [
    | inl e ↦ rw e
    | inr e ↦ rw e
  ]

  read_agrees :
      (r : Syscall (List ℕ))
      → b.writer_index + incoming (reads r) ≤ max_size
      → Agree
          (b.writer_index + incoming (reads r))
          (step b (reads r))
          (queue_step (contents b) (reads r))
  unfolding step queue_step read_fd
  read_agrees (failed e) h = goes (count (failed e)) b refl refl v (omega arith)
  read_agrees (done bytes) h =
      goes (count (done (length bytes))) (read_fd b (done bytes)).0
        (ap (λ n. some (count n, (read_fd b (done bytes)).0)) (read_some bytes))
        (ap (λ q. some (count (done (length bytes)), q)) (sym (contents-read_fd b bytes v h).0))
        (contents-read_fd b bytes v h).1 (writer-read_fd b bytes v h)

  step_agrees :
      (c : Call)
      → b.writer_index + incoming c ≤ max_size
      → Agree (b.writer_index + incoming c) (step b c) (queue_step (contents b) c)
  unfolding step queue_step retrieve_all_as_string
  step_agrees (appends bytes) h =
      goes nothing (append b bytes) refl
        (ap (λ q. some (nothing, q)) (sym (contents-append b bytes v h)))
        (append-IsValid b bytes v h) (writer-append b bytes v h)
  step_agrees (retrieves n) h =
      goes nothing (retrieve b n) refl (ap (λ q. some (nothing, q)) (sym (contents-retrieve b n v)))
        (retrieve-IsValid b n v) (omega (arith, writer-retrieve b n v))
  step_agrees (takes n) h = take_string n _ (omega arith)
  step_agrees takes_all h =
      subst (Agree _ _) (sym queue_step-takes_all) (take_string (readable_bytes b) _ (omega arith))
  step_agrees (reads r) h = read_agrees r h

-- No sequence of calls tells a valid buffer from the queue of the bytes that it holds.
pub run_refines :
    (b : Buffer) (cs : List Call)
    → IsValid b
    → b.writer_index + total cs ≤ max_size
    → run b cs ≡ queue_run (contents b) cs
unfolding run queue_run
run_refines b [] v h = refl
run_refines b (c ∷ cs) v h = elim (step_agrees b v c (omega arith)) [
  | stops e f ↦ rw (e, f)
  | goes r b' e f v' w ↦ rw (e, f, run_refines b' cs v' (omega arith))
]
