-- ===== src/Algorithm/Sort/Scan.antt =====
-- The two scans of `partition`.
use learn_note.Prelude.{
  ℕ, zero, suc, ◌+◌, ◌≤◌, ◌<◌, ◌≡◌, sym, subst, ◌&&◌, List, arith, ltb, leb, Bool-cases, ◌⊎◌, inl,
  inr, if-true, if-false, ℕ_discrete,
}
use learn_note.Algorithm.Sort.{elem, scan_down, scan_up}

-- Where the scan from the right stops, and what it passed.
pub record Down (d : List ℕ) (temp i j j' : ℕ) : Type 0 where
  pub above : i ≤ j'
  pub under : j' ≤ j
  pub passed : (k : ℕ) → j' < k → k ≤ j → temp ≤ elem d k
  pub stops : (j' ≡ i) ⊎ (elem d j' < temp)

pub scan_down-Down : (d : List ℕ) (temp i j : ℕ) → i ≤ j → Down d temp i j (scan_down d temp i j)
unfolding scan_down
scan_down-Down d temp i zero h = record {
  above = h;
  under = omega arith;
  passed = λ k p q. absurd (omega arith);
  stops = inl (omega arith);
}
scan_down-Down d temp i (suc j) h = elim (Bool-cases (ltb i (suc j) && leb temp (elem d (suc j)))) [
  | inl t ↦
      let v = scan_down-Down d temp i j (ground arith) in
      subst (Down d temp i (suc j)) (sym (if-true _ _ t)) (record {
        above = v.above;
        under = omega (arith, v.under);
        passed = λ k p q. elim (ℕ_discrete k (suc j)) [
          | yes e ↦ subst (λ x. temp ≤ elem d x) (sym e) (ground arith)
          | no n ↦ v.passed k p (omega arith)
        ];
        stops = v.stops;
      })
  | inr t ↦ subst (Down d temp i (suc j)) (sym (if-false _ _ t)) (record {
    above = h;
    under = omega arith;
    passed = λ k p q. absurd (omega arith);
    stops = ground arith;
  })
]

-- The same from the left.
pub record Up (d : List ℕ) (temp i n i' : ℕ) : Type 0 where
  pub above : i ≤ i'
  pub under : i' ≤ i + n
  pub passed : (k : ℕ) → i ≤ k → k < i' → elem d k ≤ temp
  pub stops : (i' ≡ i + n) ⊎ (temp < elem d i')

pub scan_up-Up : (d : List ℕ) (temp i n : ℕ) → Up d temp i n (scan_up d temp i n)
unfolding scan_up
scan_up-Up d temp i zero = record {
  above = omega arith;
  under = omega arith;
  passed = λ k p q. absurd (omega arith);
  stops = inl (omega arith);
}
scan_up-Up d temp i (suc n) = elim (Bool-cases (leb (elem d i) temp)) [
  | inl t ↦
      let v = scan_up-Up d temp (i + 1) n in
      subst (Up d temp i (suc n)) (sym (if-true _ _ t)) (record {
        above = omega (arith, v.above);
        under = omega (arith, v.under);
        passed = λ k p q. elim (ℕ_discrete k i) [
          | yes e ↦ subst (λ x. elem d x ≤ temp) (sym e) (ground arith)
          | no n ↦ v.passed k (omega arith) q
        ];
        stops = elim v.stops [ inl e ↦ inl (omega (arith, e)) | inr l ↦ inr l ];
      })
  | inr t ↦ subst (Up d temp i (suc n)) (sym (if-false _ _ t)) (record {
    above = omega arith;
    under = omega arith;
    passed = λ k p q. absurd (omega arith);
    stops = inr (ground arith);
  })
]
