-- ===== src/Memory/SlotPool/Destruction.antt =====
-- The blocks of a pool, from its first allocation to its destructor.
use learn_note.Prelude.{
  ℕ, zero, suc, ◌≤◌, ◌≡◌, ◌≢◌, ◌==◌, refl, sym, ap, ◌∙◌, subst, Bool, true, false, ◌&&◌, List, [],
  ◌∷◌, arith, length, if◌then◌else◌, leb, Bool-cases, inl, inr, if-true, if-false,
}
use learn_note.Memory.Chain.{Chain, NotIn, Distinct}
use learn_note.Memory.SlotPool.{
  SlotPool, store, init, allocate_new_block, push_free_list, pop_free_list, bump, allocate_fresh,
  allocate, deallocate, freed_from, destroy,
}

Chain-store :
    (w : ℕ → ℕ) (b v a : ℕ) (xs : List ℕ) → NotIn b xs → Chain w a xs → Chain (store w b v) a xs
Chain-store w b v a [] n c = c
Chain-store w b v a (x ∷ xs) (ne, n) (e, nz, c) =
    let same : store w b v x ≡ w x = ground arith in
    (e, nz, Chain-store w b v (store w b v x) xs n (rw same c))

freed_from-Chain :
    (fuel : ℕ) (w : ℕ → ℕ) (a : ℕ) (xs : List ℕ)
    → length xs ≤ fuel
    → Chain w a xs
    → freed_from fuel w a ≡ xs
unfolding freed_from
freed_from-Chain zero w a [] h c = refl
freed_from-Chain zero w a (x ∷ xs) h c = absurd (omega arith)
freed_from-Chain (suc fuel) w a [] h c =
    let null : (a == 0) ≡ true = ground arith in if-true _ _ null
freed_from-Chain (suc fuel) w a (x ∷ xs) h (e, nz, c) =
    let held : (a == 0) ≡ false = ground arith in
    if-false _ _ held
    ∙ ap (λ ys. a ∷ ys)
        (freed_from-Chain fuel w (w a) xs (omega arith) (subst (λ y. Chain w (w y) xs) (sym e) c))
    ∙ ap (λ y. y ∷ xs) e

-- What a pool goes through after `init`, with the blocks that it was given, newest first. `operator new` gives
-- blocks that are not null and not in use; a slot that comes back, or a word that the user of a slot writes, is not
-- at the start of a block.
pub data Life : SlotPool → List ℕ → Type 0 where
  begins : (p : SlotPool) (slot_size : ℕ) → Life (init p slot_size) []
  allocates :
      {p : SlotPool} {blocks : List ℕ} (block : ℕ)
      → block ≢ 0
      → NotIn block blocks
      → Life p blocks
      → Life
          (allocate p block).0
          (if p.free_list == 0 && leb p.last_slot p.cur_slot then block ∷ blocks else blocks)
  deallocates :
      {p : SlotPool} {blocks : List ℕ} (slot : ℕ)
      → NotIn slot blocks
      → Life p blocks
      → Life (deallocate p slot) blocks
  writes :
      {p : SlotPool} {blocks : List ℕ} (address v : ℕ)
      → NotIn address blocks
      → Life p blocks
      → Life (record p { next = store p.next address v }) blocks

-- The destructor would free these blocks.
Holds : List ℕ → SlotPool → Type 0
Holds blocks p = Chain p.next p.first_block blocks

store_self : (w : ℕ → ℕ) (b v : ℕ) → store w b v b ≡ v
store_self w b v = ground arith

choose : (block : ℕ) → SlotPool × ℕ → SlotPool × ℕ
unfolding allocate_fresh
choose block (rest, slot) = if slot == 0 then allocate_fresh rest block else (rest, slot)

allocate-popped :
    (p : SlotPool) (block : ℕ)
    → (p.free_list == 0) ≡ false
    → (allocate p block).0 ≡ record p { free_list = p.next p.free_list }
unfolding allocate pop_free_list choose
allocate-popped p block e =
    let r : SlotPool × ℕ = (record p { free_list = p.next p.free_list }, p.free_list) in
    ap (λ x. (choose block x).0) {y = r} (if-false _ _ e)
    ∙ ap (λ (x : SlotPool × ℕ). x.0) (if-false _ r e)

allocate-empty :
    (p : SlotPool) (block : ℕ)
    → (p.free_list == 0) ≡ true
    → (allocate p block).0 ≡ (allocate_fresh p block).0
unfolding allocate pop_free_list choose
allocate-empty p block e = ap (λ x. (choose block x).0) {y = (p, 0)} (if-true _ _ e)

allocate-Holds :
    (p : SlotPool) (block : ℕ) (blocks : List ℕ)
    → block ≢ 0
    → NotIn block blocks
    → Holds blocks p
    → Holds
        (if p.free_list == 0 && leb p.last_slot p.cur_slot then block ∷ blocks else blocks)
        (allocate p block).0
unfolding Holds allocate_fresh bump allocate_new_block
allocate-Holds p block blocks nz fresh c = elim (Bool-cases (p.free_list == 0)) [
  | inr t ↦
      let pick : (p.free_list == 0 && leb p.last_slot p.cur_slot) ≡ false =
        ap (λ b. b && leb p.last_slot p.cur_slot) t in
      subst (λ xs. Holds xs (allocate p block).0) (sym (if-false _ _ pick))
        (subst (Holds blocks) (sym (allocate-popped p block t)) c)
  | inl t ↦
      let pick : (p.free_list == 0 && leb p.last_slot p.cur_slot) ≡ leb p.last_slot p.cur_slot =
        ap (λ b. b && leb p.last_slot p.cur_slot) t in
      subst (Holds _) (sym (allocate-empty p block t))
        (elim (Bool-cases (leb p.last_slot p.cur_slot)) [
          | inl u ↦
              subst (λ xs. Holds xs (allocate_fresh p block).0) (sym (if-true _ _ (pick ∙ u)))
                (subst (λ q. Holds (block ∷ blocks) (bump q).0) (sym (if-true _ _ u))
                  (
                    refl,
                    nz,
                    subst (λ y. Chain (store p.next block p.first_block) y blocks)
                        (sym (store_self p.next block p.first_block))
                        (Chain-store p.next block p.first_block p.first_block blocks fresh c),
                  ))
          | inr u ↦
              subst (λ xs. Holds xs (allocate_fresh p block).0) (sym (if-false _ _ (pick ∙ u)))
                (subst (λ q. Holds blocks (bump q).0) (sym (if-false _ _ u)) c)
        ])
]

deallocate-Holds :
    (p : SlotPool) (slot : ℕ) (blocks : List ℕ)
    → NotIn slot blocks
    → Holds blocks p
    → Holds blocks (deallocate p slot)
unfolding Holds deallocate push_free_list
deallocate-Holds p slot blocks n c = elim (Bool-cases (slot == 0)) [
  | inl t ↦ subst (Holds blocks) (sym (if-true _ _ t)) c
  | inr t ↦
      subst (Holds blocks) (sym (if-false _ _ t))
        (Chain-store p.next slot p.free_list p.first_block blocks n c)
]

Life-Holds : {p : SlotPool} {blocks : List ℕ} → Life p blocks → Holds blocks p
unfolding Holds init
Life-Holds (begins p slot_size) = refl
Life-Holds (allocates {p} {blocks} block nz n l) = allocate-Holds p block blocks nz n (Life-Holds l)
Life-Holds (deallocates {p} {blocks} slot n l) = deallocate-Holds p slot blocks n (Life-Holds l)
Life-Holds (writes {p} {blocks} address v n l) =
    Chain-store p.next address v p.first_block blocks n (Life-Holds l)

grown-Distinct :
    (b : Bool) (block : ℕ) (blocks : List ℕ)
    → NotIn block blocks
    → Distinct blocks
    → Distinct (if b then block ∷ blocks else blocks)
grown-Distinct true block blocks n d = (n, d)
grown-Distinct false block blocks n d = d

Life-Distinct : {p : SlotPool} {blocks : List ℕ} → Life p blocks → Distinct blocks
Life-Distinct (begins p slot_size) = tt
Life-Distinct (allocates {p} {blocks} block nz n l) =
    grown-Distinct (p.free_list == 0 && leb p.last_slot p.cur_slot) block blocks n (Life-Distinct l)
Life-Distinct (deallocates slot n l) = Life-Distinct l
Life-Distinct (writes address v n l) = Life-Distinct l

-- Whatever was allocated, written and released since `init`, in any order: with a round for each block that the pool took
-- from the system, its destructor frees all of them, the newest first, and each once, where slots that come back, and
-- words that users write, are not at the starts of blocks.
pub destroy-Life :
    (p : SlotPool) (blocks : List ℕ) (fuel : ℕ)
    → Life p blocks
    → length blocks ≤ fuel
    → (destroy fuel p ≡ blocks) × Distinct blocks
unfolding destroy Holds
destroy-Life p blocks fuel l h =
    (freed_from-Chain fuel p.next p.first_block blocks h (Life-Holds l), Life-Distinct l)
