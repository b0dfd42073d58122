-- ===== src/Memory/ThreadCache/Returns.antt =====
-- What a thread keeps when its list is too long.
use learn_note.Prelude.{
  ℕ, suc, ◌-◌, ◌*◌, ◌/◌, ◌<◌, ◌==◌, ◌≡◌, ◌≢◌, refl, sym, subst, ◌∙◌, Bool-cases, inl, inr, false,
  not, ◌&&◌, ◌||◌, List, arith, length, take, drop, max, ltb, leb, if-true, if-false,
}
use learn_note.Memory.SizeClass.{ceil, get_index, free_list_size}
use learn_note.Memory.CentralCache.{CentralCache, store, last_of, return_range}
use learn_note.Memory.ThreadCache.{ThreadCache, walk, cut_at, return_to_central_cache}
use learn_note.Memory.Chain.{Chain, Chain-store, NotIn, Distinct, Cut, walk-Cut, last_of-Among}

-- Giving a chain back to the central cache touches none of the blocks of another.
return_range-Chain :
    (c : CentralCache) (next count i a : ℕ) (kept given : List ℕ)
    → Chain c.word a kept
    → Chain c.word next given
    → ((y : ℕ) → ((b : ℕ) → NotIn b given → b ≢ y) → NotIn y kept)
    → next ≢ 0
    → Chain (return_range c next count i).word a kept
unfolding return_range
return_range-Chain c next count i a kept given k g apart nz =
    elim (Bool-cases (next == 0 || leb free_list_size i)) [
      | inl e ↦ rw e k
      | inr e ↦
          let end = last_of c.word (count - 1) next in
          rw e (
            Chain-store c.word end (c.central_free_list i) a kept
              (apart end (last_of-Among c.word (count - 1) next given g nz)) k)
    ]

cut_at-Chain :
    (t : ThreadCache) (split keep count i start : ℕ) (xs : List ℕ)
    → Cut t.central.word split start keep xs
    → Chain (cut_at t split keep count i).central.word start (take (suc keep) xs)
unfolding cut_at
cut_at-Chain t split keep count i start xs v =
    let next = t.central.word split in
    let cut : CentralCache = record t.central { word = store t.central.word split 0 } in
    elim (Bool-cases (ltb 0 count && not (next == 0))) [
      | inl e ↦
          subst (λ (c : CentralCache). Chain c.word start (take (suc keep) xs))
            (sym (if-true _ _ e))
            (return_range-Chain cut next count i start (take (suc keep) xs) (drop (suc keep) xs)
              v.kept (Chain-store t.central.word split 0 next (drop (suc keep) xs) v.left v.behind)
              v.apart (ground arith))
      | inr e ↦
          subst (λ (c : CentralCache). Chain c.word start (take (suc keep) xs))
            (sym (if-false _ _ e)) v.kept
    ]

return_to_central_cache-cut_at :
    (t : ThreadCache) (start size : ℕ)
    → let i = get_index size in
      let n = t.free_list_size i in
      let keep = max (n / 4) 1 in
      let split = walk t.central.word keep start in
      1 < n
      → split ≢ 0
      → return_to_central_cache t start size ≡ cut_at t split keep ((n - keep) * ceil size) i
unfolding return_to_central_cache
return_to_central_cache-cut_at t start size many nz =
    let few : leb (t.free_list_size (get_index size)) 1 ≡ false = ground arith in
    let short : (walk t.central.word (max (t.free_list_size (get_index size) / 4) 1) start == 0)
        ≡ false =
      ground arith in
    if-false _ _ few ∙ if-false _ _ short

cut_at-keeps :
    (t : ThreadCache) (split keep count i : ℕ)
    → ((cut_at t split keep count i).free_list ≡ t.free_list)
      × ((cut_at t split keep count i).free_list_size i ≡ keep)
unfolding cut_at
cut_at-keeps t split keep count i = (refl, ground arith)

-- A thread whose list holds as many blocks as it counts, two or more, keeps the first quarter of them,
-- but at least one, and one block more; its counter then says a quarter.
pub return_to_central_cache_lem :
    (t : ThreadCache) (size : ℕ) (xs : List ℕ)
    → let i = get_index size in
      let n = t.free_list_size i in
      Chain t.central.word (t.free_list i) xs
      → Distinct xs
      → length xs ≡ n
      → 1 < n
      → let u = return_to_central_cache t (t.free_list i) size in
        Chain u.central.word (u.free_list i) (take (suc (max (n / 4) 1)) xs)
        × (u.free_list_size i ≡ max (n / 4) 1)
return_to_central_cache_lem t size xs c d len many =
    let i = get_index size in
    let n = t.free_list_size i in
    let keep = max (n / 4) 1 in
    let start = t.free_list i in
    let count = (n - keep) * ceil size in
    let v = walk-Cut t.central.word keep start xs c d (omega arith) in
    let split = walk t.central.word keep start in
    let k = cut_at-keeps t split keep count i in
    subst
      (λ (u : ThreadCache).
        Chain u.central.word (u.free_list i) (take (suc keep) xs) × (u.free_list_size i ≡ keep))
      (sym (return_to_central_cache-cut_at t start size many v.split))
      (
        subst
            (λ (l : ℕ → ℕ).
              Chain (cut_at t split keep count i).central.word (l i) (take (suc keep) xs))
            (sym k.0) (cut_at-Chain t split keep count i start xs v),
        k.1,
      )
