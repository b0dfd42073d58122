-- ===== src/Muduo/Buffer/Tests.antt =====
-- Runs of the buffer, and its theorems at inputs that move the contents or grow the storage.
use learn_note.Prelude.{◌≡◌, refl, List, [], ◌∷◌, some, arith, slice, write_at, resize}
use learn_note.Muduo.Buffer.{
  Buffer, init, readable_bytes, append, retrieve, read_fd, done, retrieve_as_string,
  retrieve_all_as_string,
}
use learn_note.Muduo.Buffer.Bounds.{IsValid, init-IsValid}
use learn_note.Muduo.Buffer.Contents.{contents, contents-append, contents-retrieve}
use learn_note.Muduo.Buffer.Queue.{
  Call, appends, retrieves, takes, takes_all, reads, nothing, text, count, run, queue_run,
  run_refines,
}

-- Four places behind the prepended eight; two bytes read already, two left to read.
abbrev used : Buffer
used = record {
  buffer = 0 ∷ 0 ∷ 0 ∷ 0 ∷ 0 ∷ 0 ∷ 0 ∷ 0 ∷ 1 ∷ 2 ∷ 3 ∷ 4 ∷ [];
  reader_index = 10;
  writer_index = 12;
}

used-IsValid : IsValid used
used-IsValid = omega arith

abbrev script : List Call
script = appends (5 ∷ 6 ∷ []) ∷ reads (done (7 ∷ 8 ∷ [])) ∷ takes 3 ∷ retrieves 1 ∷ takes_all ∷ []

-- The first two bytes are moved in, the next two spill over and make the storage grow.
run-script :
    run used script
    ≡ some (nothing ∷ count (done 2) ∷ text (3 ∷ 4 ∷ 5 ∷ []) ∷ nothing ∷ text (7 ∷ 8 ∷ []) ∷ [])
unfolding run append read_fd retrieve_as_string retrieve_all_as_string readable_bytes slice write_at
    resize
run-script = refl

init-IsValid_example : IsValid (init 4) × (readable_bytes (init 4) ≡ 0)
init-IsValid_example = init-IsValid 4 (omega arith)

contents-append_example : contents (append used (5 ∷ 6 ∷ [])) ≡ 3 ∷ 4 ∷ 5 ∷ 6 ∷ []
unfolding slice
contents-append_example = contents-append used (5 ∷ 6 ∷ []) used-IsValid (omega arith)

contents-retrieve_example : contents (retrieve used 1) ≡ 4 ∷ []
unfolding slice
contents-retrieve_example = contents-retrieve used 1 used-IsValid

run_refines_example : run used script ≡ queue_run (3 ∷ 4 ∷ []) script
unfolding slice
run_refines_example = run_refines used script used-IsValid (omega arith)
