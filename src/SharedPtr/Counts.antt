-- ===== src/SharedPtr/Counts.antt =====
-- What the counters say of the owners, where an owner comes or goes.
use learn_note.Prelude.{
  ℕ, ◌+◌, ◌-◌, ◌^◌, ◌≤◌, ◌<◌, ◌≡◌, ◌≢◌, ◌==◌, refl, ap, ◌∙◌, subst, Bool, true, false, Option, none,
  some, List, ◌∷◌, arith, if◌then◌else◌, get_or, set, length, length-set, get_or-set_self,
  get_or-set_ne, get_or-beyond, occurs, ℕ_discrete, Bool-cases, ltb, inl, inr,
}
use learn_note.SharedPtr.{Heap, increment, decrement, retain, release}
use learn_note.SharedPtr.Handles.{holds, holds_self, holds_other}

increment-small : (n : ℕ) → n + 1 < 2 ^ 32 → increment n ≡ n + 1
increment-small n h = omega arith

decrement-small : (n : ℕ) → 1 ≤ n → n < 2 ^ 32 → decrement n ≡ n - 1
decrement-small n h k = omega arith

abbrev pub count : Heap → ℕ → ℕ
count s c = get_or s.counts c 0

-- The counter of each cell is at least what `own` says, and at most `n`; what was deleted has no owner left.
pub record Inv (n : ℕ) (own : ℕ → ℕ) (s : Heap) : Type 0 where
  pub owned : (c : ℕ) → own c ≤ count s c
  pub small : (c : ℕ) → count s c ≤ n
  pub dead : (c : ℕ) → 0 < occurs c s.deleted → count s c ≡ 0
  pub once : (c : ℕ) → occurs c s.deleted ≤ 1
  pub made : (c : ℕ) → length s.counts ≤ c → occurs c s.deleted ≡ 0

pub Inv-le :
    {n m : ℕ} {own own' : ℕ → ℕ} (s : Heap) (hs : List (Option ℕ))
    → n ≤ m
    → ((c : ℕ) → own' c ≤ own c)
    → Inv n own s
    → Inv m own' (record s { handles = hs })
Inv-le s hs h k v = record {
  owned = λ c. omega (arith, k c, v.owned c);
  small = λ c. omega (arith, v.small c);
  dead = v.dead;
  once = v.once;
  made = v.made;
}

held-room : {n : ℕ} {own : ℕ → ℕ} (s : Heap) (d : ℕ) → Inv n own s → 1 ≤ own d → d < length s.counts
held-room s d v h = elim (Bool-cases (ltb d (length s.counts))) [
  | inl t ↦ ground arith
  | inr t ↦ absurd (omega (arith, v.owned d, get_or-beyond s.counts d 0 (ground arith)))
]

pub retain-Inv :
    {n : ℕ} {own : ℕ → ℕ} (s : Heap) (h : Option ℕ)
    → n + 1 < 2 ^ 32
    → ((c : ℕ) → holds c h ≤ own c)
    → Inv n own s
    → Inv (n + 1) (λ c. own c + holds c h) (retain s h)
unfolding retain
retain-Inv s none l k v = Inv-le s s.handles (omega arith) (λ c. omega arith) v
retain-Inv {n} {own} s (some d) l k v =
    let mine : 1 ≤ own d = omega (arith, k d, holds_self d) in
    let more = increment-small (count s d) (omega (arith, v.small d)) in
    let now = get_or-set_self s.counts d (increment (count s d)) 0 (held-room s d v mine) in
    let other : (c : ℕ) → d ≢ c → get_or (set s.counts d (increment (count s d))) c 0 ≡ count s c =
      (λ c ne. get_or-set_ne s.counts (increment (count s d)) 0 ne) in
    record {
      owned = λ c. elim (ℕ_discrete d c) [
        | yes e ↦
            subst
              (λ x. own x + holds x (some d) ≤ get_or (set s.counts d (increment (count s d))) x 0)
              e (omega (arith, now, more, v.owned d, holds_self d))
        | no ne ↦ omega (arith, other c ne, v.owned c, holds_other c d ne)
      ];
      small = λ c. elim (ℕ_discrete d c) [
        | yes e ↦
            subst (λ x. get_or (set s.counts d (increment (count s d))) x 0 ≤ n + 1) e
              (omega (arith, now, more, v.small d))
        | no ne ↦ omega (arith, other c ne, v.small c)
      ];
      dead = λ c z. elim (ℕ_discrete d c) [
        | yes e ↦ absurd (omega (arith, v.owned d, mine, ap (count s) e, v.dead c z))
        | no ne ↦ other c ne ∙ v.dead c z
      ];
      once = v.once;
      made = λ c h. v.made c (omega (arith, length-set s.counts d (increment (count s d))));
    }

-- A cell joins the deleted where its counter has come to zero.
deleted_self :
    (b : Bool) (d : ℕ) (ds : List ℕ)
    → occurs d (if b then d ∷ ds else ds) ≡ (if b then 1 else 0) + occurs d ds
deleted_self true d ds = omega (arith, holds_self d)
deleted_self false d ds = omega arith

deleted_other :
    (b : Bool) (d c : ℕ) (ds : List ℕ) → d ≢ c → occurs c (if b then d ∷ ds else ds) ≡ occurs c ds
deleted_other true d c ds h = omega (arith, holds_other c d h)
deleted_other false d c ds h = refl

pub release-Inv :
    {n : ℕ} {own : ℕ → ℕ} (s : Heap) (h : Option ℕ)
    → n + 1 < 2 ^ 32
    → ((c : ℕ) → holds c h ≤ own c)
    → Inv n own s
    → Inv n (λ c. own c - holds c h) (release s h)
unfolding release
release-Inv s none l k v = Inv-le s s.handles (omega arith) (λ c. omega arith) v
release-Inv {n} {own} s (some d) l k v =
    let mine : 1 ≤ own d = omega (arith, k d, holds_self d) in
    let left = decrement (count s d) in
    let less =
      decrement-small (count s d) (omega (arith, mine, v.owned d)) (omega (arith, v.small d)) in
    let now = get_or-set_self s.counts d left 0 (held-room s d v mine) in
    let other : (c : ℕ) → d ≢ c → get_or (set s.counts d left) c 0 ≡ count s c =
      (λ c ne. get_or-set_ne s.counts left 0 ne) in
    let fresh : occurs d s.deleted ≡ 0 = elim (Bool-cases (ltb 0 (occurs d s.deleted))) [
      | inl t ↦ absurd (omega (arith, mine, v.owned d, v.dead d (ground arith)))
      | inr t ↦ ground arith
    ] in
    record {
      owned = λ c. elim (ℕ_discrete d c) [
        | yes e ↦
            subst (λ x. own x - holds x (some d) ≤ get_or (set s.counts d left) x 0) e
              (omega (arith, now, less, v.owned d, holds_self d))
        | no ne ↦ omega (arith, other c ne, v.owned c, holds_other c d ne)
      ];
      small = λ c. elim (ℕ_discrete d c) [
        | yes e ↦
            subst (λ x. get_or (set s.counts d left) x 0 ≤ n) e
              (omega (arith, now, less, v.small d))
        | no ne ↦ omega (arith, other c ne, v.small c)
      ];
      dead = λ c z. elim (ℕ_discrete d c) [
        | yes e ↦
            let gone : left ≡ 0 = ground (
              arith,
              deleted_self (left == 0) d s.deleted,
              fresh,
              z,
              ap (λ x. occurs x (if left == 0 then d ∷ s.deleted else s.deleted)) e,
            ) in
            subst (λ x. get_or (set s.counts d left) x 0 ≡ 0) e (now ∙ gone)
        | no ne ↦
            other c ne ∙ v.dead c (omega (arith, z, deleted_other (left == 0) d c s.deleted ne))
      ];
      once = λ c. elim (ℕ_discrete d c) [
        | yes e ↦
            subst (λ x. occurs x (if left == 0 then d ∷ s.deleted else s.deleted) ≤ 1) e
              (ground (arith, deleted_self (left == 0) d s.deleted, fresh))
        | no ne ↦ omega (arith, v.once c, deleted_other (left == 0) d c s.deleted ne)
      ];
      made = λ c h.
          let beyond : length s.counts ≤ c = omega (arith, length-set s.counts d left) in
          let room = held-room s d v mine in
          deleted_other (left == 0) d c s.deleted (λ e. absurd (omega (arith, room, beyond, e)))
          ∙ v.made c beyond;
    }
