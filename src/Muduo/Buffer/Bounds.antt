-- ===== src/Muduo/Buffer/Bounds.antt =====
-- The representation invariant of `Buffer`: the indices are in order and no `size_t` sum wraps.
use learn_note.Prelude.{
  ℕ, ◌+◌, ◌-◌, ◌≤◌, ◌<◌, ◌^◌, ◌%◌, ◌≡◌, List, arith, length, length-resize, slice, length-write_at,
  length-replicate,
}
use learn_note.Muduo.Buffer.{
  Buffer, cheap_prepend, init, readable_bytes, writable_bytes, retrieve, make_space,
  ensure_writable_bytes, put, append,
}

-- `vector<char>::max_size()`.
abbrev pub max_size : ℕ
max_size = 2 ^ 63 - 1

pub record IsValid (b : Buffer) : Type 0 where
  pub prepend : cheap_prepend ≤ b.reader_index
  pub ordered : b.reader_index ≤ b.writer_index
  pub inside : b.writer_index ≤ length b.buffer
  pub small : length b.buffer ≤ max_size

-- What `readableBytes` and `writableBytes` are where nothing wraps.
pub sizes :
    (b : Buffer)
    → IsValid b
    → (readable_bytes b ≡ b.writer_index - b.reader_index)
      × (writable_bytes b ≡ length b.buffer - b.writer_index)
unfolding readable_bytes writable_bytes
sizes b v = omega arith

pub init-IsValid :
    (n : ℕ) → n + cheap_prepend ≤ max_size → IsValid (init n) × (readable_bytes (init n) ≡ 0)
unfolding init readable_bytes
init-IsValid n h = ground (arith, length-replicate {A = ℕ} ((8 + n) % 2 ^ 64) 0)

pub retrieve-IsValid : (b : Buffer) (n : ℕ) → IsValid b → IsValid (retrieve b n)
unfolding retrieve
retrieve-IsValid b n v = ground arith

-- After `makeSpace` there is room for `len` more bytes, and as many bytes to read as before.
pub record Roomy (b : Buffer) (len : ℕ) (c : Buffer) : Type 0 where
  pub valid : IsValid c
  pub room : c.writer_index + len ≤ length c.buffer
  pub readable : c.writer_index - c.reader_index ≡ b.writer_index - b.reader_index

pub make_space-Roomy :
    (b : Buffer) (len : ℕ)
    → IsValid b
    → b.writer_index + len ≤ max_size
    → length b.buffer < b.writer_index + len
    → Roomy b len (make_space b len)
unfolding make_space
make_space-Roomy b len v h k = ground (
  arith,
  sizes b v,
  length-resize ((b.writer_index + len) % 2 ^ 64) 0 b.buffer,
  length-write_at b.buffer cheap_prepend (slice b.buffer b.reader_index (readable_bytes b)),
)

pub ensure-Roomy :
    (b : Buffer) (len : ℕ)
    → IsValid b
    → b.writer_index + len ≤ max_size
    → Roomy b len (ensure_writable_bytes b len)
unfolding ensure_writable_bytes
ensure-Roomy b len v h = ground (arith, sizes b v, make_space-Roomy b len v h)

pub put-IsValid :
    (b : Buffer) (bytes : List ℕ)
    → IsValid b
    → b.writer_index + length bytes ≤ length b.buffer
    → IsValid (put b bytes)
unfolding put
put-IsValid b bytes v h = ground (arith, length-write_at b.buffer b.writer_index bytes)

pub append-IsValid :
    (b : Buffer) (bytes : List ℕ)
    → IsValid b
    → b.writer_index + length bytes ≤ max_size
    → IsValid (append b bytes)
unfolding append
append-IsValid b bytes v h =
    let r = ensure-Roomy b (length bytes) v h in put-IsValid _ bytes r.valid r.room
