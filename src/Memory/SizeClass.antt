-- ===== src/Memory/SizeClass.antt =====
-- cpp_learning_projects/memory-mgkl/include/Common.hpp: which free list a size belongs to.
use learn_note.Prelude.{ℕ, ◌+◌, ◌-◌, ◌*◌, ◌/◌, ◌≤◌, ◌<◌, ◌≡◌, arith, max, add_size, sub_size}
mod Tests

abbrev pub alignment : ℕ
alignment = 8

abbrev pub max_bytes : ℕ
max_bytes = 256 * 1024

abbrev pub free_list_size : ℕ
free_list_size = max_bytes / alignment

-- Clearing the last three bits rounds down to a multiple of 8.
unfoldable pub ceil : ℕ → ℕ
ceil bytes = sub_size (add_size bytes alignment) 1 / alignment * alignment

unfoldable pub get_index : ℕ → ℕ
get_index bytes = sub_size (sub_size (add_size (max bytes alignment) alignment) 1 / alignment) 1

-- A size of at most `MAX_BYTES` has a free list, whose blocks are large enough and less than 8 bytes too
-- large, or 8 bytes for no bytes; `ceil` is their size.
pub get_index_lem :
    (bytes : ℕ)
    → bytes ≤ max_bytes
    → let size = (get_index bytes + 1) * alignment in
      (get_index bytes < free_list_size)
      × (bytes ≤ size)
      × (size < max bytes 1 + alignment)
      × (0 < bytes → ceil bytes ≡ size)
unfolding get_index ceil
get_index_lem bytes h = (omega arith, omega arith, omega arith, λ p. omega arith)
