-- ===== src/Memory/SlotPool/Blocks.antt =====
-- Where the slots lie in their blocks.
use learn_note.Prelude.{
  ℕ, ◌+◌, ◌*◌, ◌%◌, ◌^◌, ◌≤◌, ◌<◌, ◌==◌, ◌≡◌, ◌⊎◌, inl, inr, refl, Bool-cases, arith, leb, add_size,
  sub_size, ap, sym, subst, if-true, if◌then◌else◌,
}
use learn_note.Memory.SlotPool.{
  SlotPool, init, store, pad_pointer, allocate_new_block, push_free_list, pop_free_list, bump,
  allocate_fresh, allocate, deallocate, pool_index, max_slot_size, memory_pool_num,
  init_memory_pool,
}
use native.Mathlib.Nat.{mod-lt}

-- The slots of a pool are of a whole number of words, and fit into a block; no block or the current one
-- has been begun, and `lastSlot_` is behind the last place where a slot fits.
pub record IsValid (p : SlotPool) : Type 0 where
  pub some_bytes : 0 < p.slot_size
  pub whole : p.slot_size % 8 ≡ 0
  pub small : 2 * p.slot_size + 8 ≤ p.block_size
  pub begun :
      (p.last_slot ≡ 0)
      ⊎ ((p.first_block + 8 ≤ p.cur_slot)
          × (p.last_slot + p.slot_size ≡ p.first_block + p.block_size + 1)
          × (p.first_block + p.block_size < 2 ^ 63))

-- A slot of a pool, and the pool after it was handed out: it lies in the current block, behind the word
-- that chains the blocks, and the next one starts behind it.
pub record Within (p q : SlotPool) (block t : ℕ) : Type 0 where
  pub valid : IsValid q
  pub same_size : q.slot_size ≡ p.slot_size
  pub after_word : q.first_block + 8 ≤ t
  pub inside : t + p.slot_size ≤ q.first_block + q.block_size
  pub moved : q.cur_slot ≡ t + p.slot_size
  pub from :
      ((q.first_block ≡ p.first_block) × (t ≡ p.cur_slot))
      ⊎ ((q.first_block ≡ block) × (q.next block ≡ p.first_block))

-- There is a slot at `curSlot_`.
record Ready (p : SlotPool) : Type 0 where
  some_bytes : 0 < p.slot_size
  whole : p.slot_size % 8 ≡ 0
  small : 2 * p.slot_size + 8 ≤ p.block_size
  after_word : p.first_block + 8 ≤ p.cur_slot
  inside : p.cur_slot + p.slot_size ≤ p.first_block + p.block_size
  end : p.last_slot + p.slot_size ≡ p.first_block + p.block_size + 1
  low : p.first_block + p.block_size < 2 ^ 63

new_block-Ready :
    (p : SlotPool) (block : ℕ)
    → IsValid p
    → block + p.block_size < 2 ^ 63
    → Ready (allocate_new_block p block)
unfolding allocate_new_block pad_pointer
new_block-Ready p block v h =
    let pad = mod-lt (sub_size p.slot_size (add_size block 8)) v.some_bytes in
    record {
      some_bytes = v.some_bytes;
      whole = v.whole;
      small = v.small;
      after_word = omega (arith, v.small, pad);
      inside = omega (arith, v.small, pad);
      end = omega (arith, v.small, pad);
      low = h;
    }

bump-Ready :
    (p : SlotPool)
    → Ready p
    → let (q, t) = bump p in IsValid q × (t ≡ p.cur_slot) × (q.cur_slot ≡ t + p.slot_size)
unfolding bump
bump-Ready p r = (
  record {
    some_bytes = r.some_bytes;
    whole = r.whole;
    small = r.small;
    begun = inr (omega (arith, r.after_word, r.inside, r.low, r.whole), r.end, r.low);
  },
  refl,
  omega (arith, r.inside, r.low, r.whole),
)

bump-Within :
    (p r : SlotPool) (block : ℕ)
    → Ready r
    → r.slot_size ≡ p.slot_size
    → ((r.first_block ≡ p.first_block) × (r.cur_slot ≡ p.cur_slot))
      ⊎ ((r.first_block ≡ block) × (r.next block ≡ p.first_block))
    → Within p (bump r).0 block (bump r).1
unfolding bump
bump-Within p r block v e from =
    let (w, t, m) = bump-Ready r v in
    record {
      valid = w;
      same_size = e;
      after_word = v.after_word;
      inside = omega (arith, v.inside, e);
      moved = omega (arith, m, e);
      from = from;
    }

old-Ready : (p : SlotPool) → IsValid p → p.cur_slot < p.last_slot → Ready p
old-Ready p v lt = go v.begun
  where
    go :
        (p.last_slot ≡ 0)
          ⊎ ((p.first_block + 8 ≤ p.cur_slot)
              × (p.last_slot + p.slot_size ≡ p.first_block + p.block_size + 1)
              × (p.first_block + p.block_size < 2 ^ 63))
        → Ready p
    go (inl e) = absurd (omega arith)
    go (inr (a, b, c)) = record {
      some_bytes = v.some_bytes;
      whole = v.whole;
      small = v.small;
      after_word = a;
      inside = omega arith;
      end = b;
      low = c;
    }

allocate_fresh-Within :
    (p : SlotPool) (block : ℕ)
    → IsValid p
    → block + p.block_size < 2 ^ 63
    → let (q, t) = allocate_fresh p block in Within p q block t
unfolding allocate_fresh allocate_new_block
allocate_fresh-Within p block v h = elim (Bool-cases (leb p.last_slot p.cur_slot)) [
  | inl e ↦ rw e (
      bump-Within p (allocate_new_block p block) block (new_block-Ready p block v h) refl
        (inr (refl, ground arith)))
  | inr e ↦ rw e (bump-Within p p block (old-Ready p v (ground arith)) refl (inl (refl, refl)))
]

pop_free_list-empty : (p : SlotPool) → p.free_list ≡ 0 → pop_free_list p ≡ (p, 0)
unfolding pop_free_list
pop_free_list-empty p e = if-true _ _ (ap (λ n. n == 0) e)

-- Where its free list is empty, a pool hands out the place behind the slots handed out before, in the
-- same block, or the first one of the new block: it lies wholly inside the block, behind the word that
-- chains the blocks, and the pool stays valid.
pub allocate-Within :
    (p : SlotPool) (block : ℕ)
    → IsValid p
    → p.free_list ≡ 0
    → block + p.block_size < 2 ^ 63
    → let (q, t) = allocate p block in Within p q block t
unfolding allocate
allocate-Within p block v e h =
    subst
      (λ (r : SlotPool × ℕ).
        let (q, t) = if r.1 == 0 then allocate_fresh r.0 block else r in Within p q block t)
      (sym (pop_free_list-empty p e)) (allocate_fresh-Within p block v h)

-- What was released last is handed out first, and leaves the pool as it was but for the word in it.
pub allocate-deallocate :
    (p : SlotPool) (slot block : ℕ)
    → 0 < slot
    → allocate (deallocate p slot) block ≡ (record p { next = store p.next slot p.free_list }, slot)
unfolding allocate deallocate pop_free_list push_free_list
allocate-deallocate p slot block h = ground arith

-- The pool that serves a size, as `initMemoryPool` sets it up, has slots that are large enough and less
-- than 8 bytes too large.
pub pool_index_lem :
    (pools : ℕ → SlotPool) (nbytes : ℕ)
    → 0 < nbytes
    → nbytes ≤ max_slot_size
    → let size = (init_memory_pool pools (pool_index nbytes)).slot_size in
      (pool_index nbytes < memory_pool_num) × (nbytes ≤ size) × (size < nbytes + 8)
unfolding init_memory_pool init pool_index
pool_index_lem pools nbytes p h = ground arith
