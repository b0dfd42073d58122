-- ===== src/Muduo/Buffer/Contents.antt =====
-- The bytes that a buffer holds for its reader, and what each operation does to them.
use learn_note.Prelude.{
  ℕ, ◌+◌, ◌-◌, ◌≤◌, ◌<◌, ◌≡◌, refl, sym, ap, ◌∙◌, inl, inr, Bool, true, false, Bool-cases, some,
  none, List, [], ◌++◌, arith, length, take, drop, slice, write_at, slice-zero, slice_add,
  slice-write_at_self, slice-write_at_before, slice-resize, length-slice, slice-split,
  take-append-drop, take_all, drop_all, append_assoc, ltb, leb, add_size, ap₂, subst, length-take,
  length-drop, length-append, length-write_at,
}
use learn_note.Muduo.Buffer.{
  Buffer, cheap_prepend, readable_bytes, writable_bytes, peek, retrieve, retrieve_as_string,
  make_space, ensure_writable_bytes, put, append, done, failed, read_spill, read_fd, write_fd,
}
use learn_note.Muduo.Buffer.Bounds.{
  IsValid, max_size, sizes, ensure-Roomy, append-IsValid, put-IsValid, retrieve-IsValid,
}

abbrev pub contents : Buffer → List ℕ
contents b = slice b.buffer b.reader_index (b.writer_index - b.reader_index)

pub length-contents : (b : Buffer) → IsValid b → length (contents b) ≡ readable_bytes b
length-contents b v =
    omega (arith, sizes b v, length-slice b.buffer b.reader_index (b.writer_index - b.reader_index))

-- Writing at the write index extends the contents.
pub contents-put :
    (b : Buffer) (bytes : List ℕ)
    → IsValid b
    → b.writer_index + length bytes ≤ length b.buffer
    → contents (put b bytes) ≡ contents b ++ bytes
unfolding put
contents-put b bytes v h =
    let r = b.reader_index in
    let n : ℕ = b.writer_index - b.reader_index in
    let m = length bytes in
    let written = write_at b.buffer b.writer_index bytes in
    let total : add_size b.writer_index m - r ≡ n + m = omega arith in
    let ends : r + n ≡ b.writer_index = omega arith in
    ap (slice written r) total
    ∙ slice_add written r n m (omega (arith, length-write_at b.buffer b.writer_index bytes))
    ∙ ap₂ ◌++◌ (slice-write_at_before b.buffer r n b.writer_index bytes (omega arith))
        (ap (λ i. slice written i m) ends ∙ slice-write_at_self b.buffer b.writer_index bytes h)

contents-move :
    (b : Buffer) (n : ℕ)
    → b.reader_index + n ≤ length b.buffer
    → cheap_prepend ≤ b.reader_index
    → slice (write_at b.buffer cheap_prepend (slice b.buffer b.reader_index n)) cheap_prepend n
      ≡ slice b.buffer b.reader_index n
contents-move b n h p =
    let moved = slice b.buffer b.reader_index n in
    let e : length moved ≡ n = length-slice b.buffer b.reader_index n h in
    subst (λ k. slice (write_at b.buffer cheap_prepend moved) cheap_prepend k ≡ moved) e
      (slice-write_at_self b.buffer cheap_prepend moved (omega arith))

-- Making room does not touch the contents.
pub contents-make_space :
    (b : Buffer) (len : ℕ)
    → IsValid b
    → b.writer_index + len ≤ max_size
    → length b.buffer < b.writer_index + len
    → contents (make_space b len) ≡ contents b
unfolding make_space
contents-make_space b len v h k = elim (Bool-cases grows) [
  | inl e ↦ rw e (slice-resize _ 0 b.buffer b.reader_index _ (omega arith) (omega arith))
  | inr e ↦
      rw (e, (sizes b v).0, back)
        (contents-move b (b.writer_index - b.reader_index) (omega arith) v.prepend)
]
  where
    grows : Bool
    grows = ltb (add_size (writable_bytes b) b.reader_index) (add_size len cheap_prepend)

    back :
        add_size cheap_prepend (b.writer_index - b.reader_index) - cheap_prepend
        ≡ b.writer_index - b.reader_index
    back = omega arith

-- Making sure that there is room leaves the contents alone.
pub contents-ensure :
    (b : Buffer) (len : ℕ)
    → IsValid b
    → b.writer_index + len ≤ max_size
    → contents (ensure_writable_bytes b len) ≡ contents b
unfolding ensure_writable_bytes
contents-ensure b len v h = elim (Bool-cases (ltb (writable_bytes b) len)) [
  | inl e ↦ rw e (contents-make_space b len v h (ground (arith, sizes b v)))
  | inr e ↦ rw e
]

-- `append` adds its bytes behind the contents, whether the buffer has room, makes room or grows.
pub contents-append :
    (b : Buffer) (bytes : List ℕ)
    → IsValid b
    → b.writer_index + length bytes ≤ max_size
    → contents (append b bytes) ≡ contents b ++ bytes
unfolding append
contents-append b bytes v h =
    let r = ensure-Roomy b (length bytes) v h in
    contents-put _ bytes r.valid r.room
    ∙ ap (λ c. c ++ bytes) (contents-ensure b (length bytes) v h)

-- `retrieve` drops that many bytes from the front, all of them if fewer are left.
pub contents-retrieve :
    (b : Buffer) (n : ℕ) → IsValid b → contents (retrieve b n) ≡ drop n (contents b)
unfolding retrieve
contents-retrieve b n v = elim (Bool-cases (ltb n (readable_bytes b))) [
  | inl e ↦
      let less : n < b.writer_index - b.reader_index = ground (arith, sizes b v) in
      let start : add_size b.reader_index n ≡ b.reader_index + n = omega arith in
      let left : b.writer_index - (b.reader_index + n) ≡ b.writer_index - b.reader_index - n =
        omega arith in
      rw (e, start, left)
        (sym (slice-split b.buffer b.reader_index n _ (omega arith) (omega arith)).1)
  | inr e ↦
      rw (e, slice-zero)
        (sym (drop_all n (contents b) (ground (arith, sizes b v, length-contents b v))))
]

pub contents-peek :
    (b : Buffer) (n : ℕ) → IsValid b → n ≤ readable_bytes b → peek b n ≡ take n (contents b)
unfolding peek
contents-peek b n v h =
    sym (slice-split b.buffer b.reader_index n _ (omega (arith, sizes b v)) (omega arith)).0

-- `retrieveAsString` of no more bytes than there are returns the first of them and leaves the rest.
pub retrieve_as_string-some :
    (b : Buffer) (n : ℕ)
    → IsValid b
    → n ≤ length (contents b)
    → retrieve_as_string b n ≡ some (take n (contents b), retrieve b n)
unfolding retrieve_as_string
retrieve_as_string-some b n v h =
    let fits : leb n (readable_bytes b) ≡ true = ground (arith, length-contents b v) in
    rw (fits, contents-peek b n v (omega (arith, length-contents b v)))

-- It gives up where the assertion fails.
pub retrieve_as_string-none :
    (b : Buffer) (n : ℕ) → IsValid b → length (contents b) < n → retrieve_as_string b n ≡ none
unfolding retrieve_as_string
retrieve_as_string-none b n v h =
    let fails : leb n (readable_bytes b) ≡ false = ground (arith, length-contents b v) in rw fails

pub read_spill-append :
    (b : Buffer) (n : ℕ) (bytes : List ℕ)
    → b.writer_index + length (take n bytes) ≡ length b.buffer
    → length b.buffer ≤ max_size
    → read_spill b n bytes ≡ append (put b (take n bytes)) (drop n bytes)
unfolding read_spill put
read_spill-append b n bytes e h =
    let full : length b.buffer ≡ add_size b.writer_index (length (take n bytes)) = omega arith in
    ap
      (λ w.
        append
          (record b { buffer = write_at b.buffer b.writer_index (take n bytes); writer_index = w })
          (drop n bytes))
      full

contents-read_spill :
    (b : Buffer) (bytes : List ℕ)
    → IsValid b
    → b.writer_index + length bytes ≤ max_size
    → writable_bytes b < length bytes
    → (contents (read_spill b (writable_bytes b) bytes) ≡ contents b ++ bytes)
      × IsValid (read_spill b (writable_bytes b) bytes)
unfolding put
contents-read_spill b bytes v h k = rw (read_spill-append b n bytes full v.small) (
  contents-append b₁ rest v₁ more
      ∙ ap (λ c. c ++ rest) (contents-put b chunk v (omega (arith, full)))
      ∙ append_assoc (contents b) chunk rest
      ∙ ap (◌++◌ (contents b)) (take-append-drop n bytes),
  append-IsValid b₁ rest v₁ more,
)
  where
    n : ℕ
    n = writable_bytes b

    chunk : List ℕ
    chunk = take n bytes

    rest : List ℕ
    rest = drop n bytes

    full : b.writer_index + length chunk ≡ length b.buffer
    full = omega (arith, sizes b v, length-take n bytes)

    b₁ : Buffer
    b₁ = put b chunk

    v₁ : IsValid b₁
    v₁ = put-IsValid b chunk v (omega (arith, full))

    more : b₁.writer_index + length rest ≤ max_size
    more = ground (arith, full, length-drop n bytes, length-take n bytes, sizes b v)

-- What `readFd` reads ends up behind the contents, also where it spills over the stack space.
pub contents-read_fd :
    (b : Buffer) (bytes : List ℕ)
    → IsValid b
    → b.writer_index + length bytes ≤ max_size
    → (contents (read_fd b (done bytes)).0 ≡ contents b ++ bytes)
      × IsValid (read_fd b (done bytes)).0
unfolding read_fd
contents-read_fd b bytes v h = elim (Bool-cases (leb (length bytes) (writable_bytes b))) [
  | inl e ↦
      let fits : b.writer_index + length bytes ≤ length b.buffer = ground (arith, sizes b v) in
      rw e (contents-put b bytes v fits, put-IsValid b bytes v fits)
  | inr e ↦ rw e (contents-read_spill b bytes v h (ground (arith, sizes b v)))
]

-- `writeFd` offers the whole contents; what the kernel takes is the front of them.
pub write_fd_lem :
    (b : Buffer) (n : ℕ) → IsValid b → write_fd b (done n) ≡ (take n (contents b), done n)
unfolding write_fd
write_fd_lem b n v =
    ap (λ bytes. (take n bytes, done n))
      (contents-peek b (readable_bytes b) v (omega arith)
        ∙ take_all (readable_bytes b) (contents b) (omega (arith, length-contents b v)))

pub write_fd-failed : (b : Buffer) (e : ℕ) → write_fd b (failed e) ≡ ([], failed e)
unfolding write_fd
write_fd-failed b e = refl

-- How many bytes there are to read after a write and after a read.
pub readable_bytes-append :
    (b : Buffer) (bytes : List ℕ)
    → IsValid b
    → b.writer_index + length bytes ≤ max_size
    → readable_bytes (append b bytes) ≡ readable_bytes b + length bytes
readable_bytes-append b bytes v h = omega (
  arith,
  length-contents b v,
  length-contents (append b bytes) (append-IsValid b bytes v h),
  ap length (contents-append b bytes v h),
  length-append (contents b) bytes,
)

pub readable_bytes-retrieve :
    (b : Buffer) (n : ℕ) → IsValid b → readable_bytes (retrieve b n) ≡ readable_bytes b - n
readable_bytes-retrieve b n v = omega (
  arith,
  length-contents b v,
  length-contents (retrieve b n) (retrieve-IsValid b n v),
  ap length (contents-retrieve b n v),
  length-drop n (contents b),
)
