-- ===== src/Memory/ThreadCache/Tests.antt =====
-- A list of three blocks of eight bytes.
use learn_note.Prelude.{ℕ, ◌≡◌, refl, [], ◌∷◌, arith, if◌then◌else◌, ◌==◌}
use learn_note.Memory.SizeClass.{get_index}
use learn_note.Memory.CentralCache.{create}
use learn_note.Memory.ThreadCache.{ThreadCache, return_to_central_cache}
use learn_note.Memory.ThreadCache.Returns.{return_to_central_cache_lem}
use learn_note.Memory.Chain.{Chain}

abbrev memory : ℕ → ℕ
memory a = if a == 64 then 72 else (if a == 72 then 80 else 0)

abbrev thread : ThreadCache
thread = record {
  central = create memory;
  free_list = λ i. if i == 0 then 64 else 0;
  free_list_size = λ i. if i == 0 then 3 else 0;
}

-- Two of the three blocks stay, and the counter says one.
return_to_central_cache_lem_example :
    Chain
      (return_to_central_cache thread 64 8).central.word
      ((return_to_central_cache thread 64 8).free_list 0)
      (64 ∷ 72 ∷ [])
    × ((return_to_central_cache thread 64 8).free_list_size 0 ≡ 1)
unfolding get_index create
return_to_central_cache_lem_example =
    return_to_central_cache_lem thread 8 (64 ∷ 72 ∷ 80 ∷ [])
      (refl, omega arith, (refl, omega arith, (refl, omega arith, refl)))
      ((omega arith, (omega arith, tt)), ((omega arith, tt), (tt, tt))) refl (omega arith)
