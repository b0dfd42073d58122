-- ===== src/Muduo/Buffer.antt =====
-- cpp_learning_projects/muduo-mgkl/include/Buffer.hpp and src/Buffer.cpp: the byte buffer of a
-- connection. `buffer_` is a list of bytes, the two indices are `size_t`s that wrap. A pointer into
-- the buffer is the list of the bytes read through it. That `resize` may throw is not modelled.
pub mod Bounds
pub mod Contents
pub mod Queue
mod Tests
use learn_note.Prelude.{
  ℕ, ◌+◌, ◌-◌, ◌≤◌, ◌<◌, List, [], ◌∷◌, Option, none, some, Bool, true, false, ltb, leb, length,
  take, drop, replicate, if◌then◌else◌, add_size, sub_size, slice, write_at, resize,
}

abbrev pub cheap_prepend : ℕ
cheap_prepend = 8

abbrev pub initial_size : ℕ
initial_size = 1024

pub record Buffer : Type 0 where
  pub buffer : List ℕ
  pub reader_index : ℕ
  pub writer_index : ℕ

pub init : ℕ → Buffer
init initial = record {
  buffer = replicate (add_size cheap_prepend initial) 0;
  reader_index = cheap_prepend;
  writer_index = cheap_prepend;
}

unfoldable pub readable_bytes : Buffer → ℕ
readable_bytes b = sub_size b.writer_index b.reader_index

unfoldable pub writable_bytes : Buffer → ℕ
writable_bytes b = sub_size (length b.buffer) b.writer_index

pub prependable_bytes : Buffer → ℕ
prependable_bytes b = b.reader_index

-- The `n` bytes from `peek()` on.
pub peek : Buffer → ℕ → List ℕ
peek b n = slice b.buffer b.reader_index n

pub retrieve_all : Buffer → Buffer
retrieve_all b = record b { reader_index = cheap_prepend; writer_index = cheap_prepend }

pub retrieve : Buffer → ℕ → Buffer
unfolding readable_bytes retrieve_all
retrieve b len =
    if ltb len (readable_bytes b)
    then record b { reader_index = add_size b.reader_index len }
    else retrieve_all b

-- `none` is the failed assertion.
pub retrieve_as_string : Buffer → ℕ → Option (List ℕ × Buffer)
unfolding readable_bytes retrieve peek
retrieve_as_string b len =
    if leb len (readable_bytes b) then some (peek b len, retrieve b len) else none

pub retrieve_all_as_string : Buffer → Option (List ℕ × Buffer)
unfolding retrieve_as_string
retrieve_all_as_string b = retrieve_as_string b (readable_bytes b)

pub make_space : Buffer → ℕ → Buffer
unfolding writable_bytes prependable_bytes readable_bytes
make_space b len =
    if ltb (add_size (writable_bytes b) (prependable_bytes b)) (add_size len cheap_prepend)
    then record b { buffer = resize (add_size b.writer_index len) 0 b.buffer }
    else record {
      buffer = write_at b.buffer cheap_prepend (slice b.buffer b.reader_index (readable_bytes b));
      reader_index = cheap_prepend;
      writer_index = add_size cheap_prepend (readable_bytes b);
    }

pub ensure_writable_bytes : Buffer → ℕ → Buffer
unfolding writable_bytes make_space
ensure_writable_bytes b len = if ltb (writable_bytes b) len then make_space b len else b

-- `std::copy` to `beginWrite()`, and the index after it.
pub put : Buffer → List ℕ → Buffer
put b bytes = record b {
  buffer = write_at b.buffer b.writer_index bytes;
  writer_index = add_size b.writer_index (length bytes);
}

pub append : Buffer → List ℕ → Buffer
unfolding ensure_writable_bytes put
append b bytes = put (ensure_writable_bytes b (length bytes)) bytes

-- What a system call hands back: the bytes or their number, or its `errno`.
pub data Syscall (A : Type 0) : Type 0 where
  done : A → Syscall A
  failed : ℕ → Syscall A

-- The size of `extrabuf`, the stack space behind the buffer.
abbrev pub extra_size : ℕ
extra_size = 65536

-- How many bytes `readv` is offered.
pub offered : Buffer → ℕ
unfolding writable_bytes
offered b =
    let writable = writable_bytes b in
    if ltb writable extra_size then writable + extra_size else writable

-- `readv` filled the writable bytes, and `extrabuf` with the rest, which is appended.
pub read_spill : Buffer → ℕ → List ℕ → Buffer
unfolding append
read_spill b writable bytes =
    append
      (record b {
        buffer = write_at b.buffer b.writer_index (take writable bytes);
        writer_index = length b.buffer;
      })
      (drop writable bytes)

pub read_fd : Buffer → Syscall (List ℕ) → Buffer × Syscall ℕ
unfolding writable_bytes put read_spill
read_fd b (failed e) = (b, failed e)
read_fd b (done bytes) =
    if leb (length bytes) (writable_bytes b)
    then (put b bytes, done (length bytes))
    else (read_spill b (writable_bytes b) bytes, done (length bytes))

-- The bytes that `write` is given; it sends a prefix of them.
pub write_fd : Buffer → Syscall ℕ → List ℕ × Syscall ℕ
unfolding peek readable_bytes
write_fd b (failed e) = ([], failed e)
write_fd b (done n) = (take n (peek b (readable_bytes b)), done n)
