-- ===== src/Memory/SizeClass/Tests.antt =====
-- Thirteen bytes.
use learn_note.Prelude.{◌≡◌, refl}
use learn_note.Memory.SizeClass.{get_index}

thirteen : get_index 13 ≡ 1
unfolding get_index
thirteen = refl
