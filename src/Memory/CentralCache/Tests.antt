-- ===== src/Memory/CentralCache/Tests.antt =====
-- A span at 4096, cut into blocks of 8192 bytes.
use learn_note.Prelude.{◌≡◌, refl, [], ◌∷◌, arith}
use learn_note.Memory.CentralCache.{CentralCache, create, fetch_range}
use learn_note.Memory.CentralCache.Spans.{fetch_range_lem}
use learn_note.Memory.Chain.{Chain}

abbrev empty : CentralCache
empty = create (λ a. 0)

fetch_range_lem_example :
    ((fetch_range empty 1023 4096).1 ≡ 4096)
    × ((fetch_range empty 1023 4096).0.word 4096 ≡ 0)
    × Chain
        (fetch_range empty 1023 4096).0.word
        ((fetch_range empty 1023 4096).0.central_free_list 1023)
        (12288 ∷ 20480 ∷ 28672 ∷ [])
unfolding create
fetch_range_lem_example =
    fetch_range_lem empty 1023 4096 (omega arith) refl (omega arith) (omega arith)
