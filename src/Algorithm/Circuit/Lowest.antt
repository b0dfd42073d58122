-- ===== src/Algorithm/Circuit/Lowest.antt =====
-- Where the tank is lowest.
use learn_note.Prelude.{
  ℕ, ◌+◌, ◌-◌, ◌≤◌, ◌<◌, ◌≡◌, ◌⊎◌, inl, inr, refl, sym, ap, ◌∙◌, subst, Bool, ◌||◌, Bool-cases,
  true, false, List, [], ◌∷◌, ◌++◌, arith, if-true, if-false, length, take, ltb, append-nil, ltb→lt,
  take_all, append_assoc, length-append,
}
use learn_note.Algorithm.Circuit.{Totals, init, pass, drive, beyond_int}
use learn_note.Algorithm.Circuit.Prefix.{take-append}

abbrev pub gas : List (ℕ × ℕ) → ℕ
gas [] = 0
gas ((g, c) ∷ xs) = g + gas xs

abbrev pub cost : List (ℕ × ℕ) → ℕ
cost [] = 0
cost ((g, c) ∷ xs) = c + cost xs

pub gas-append : (xs ys : List (ℕ × ℕ)) → gas (xs ++ ys) ≡ gas xs + gas ys
gas-append [] ys = omega arith
gas-append ((g, c) ∷ xs) ys = omega (arith, gas-append xs ys)

pub cost-append : (xs ys : List (ℕ × ℕ)) → cost (xs ++ ys) ≡ cost xs + cost ys
cost-append [] ys = omega arith
cost-append ((g, c) ∷ xs) ys = omega (arith, cost-append xs ys)

-- The stations behind `done` are `rest`; `t` is as the loop leaves it after `done`.
pub record Inv (done : List (ℕ × ℕ)) (t : Totals) : Type 0 where
  pub gained : t.gained ≡ gas done
  pub spent : t.spent ≡ cost done
  pub start : t.start ≤ length done
  pub min_gained : t.min_gained ≡ gas (take t.start done)
  pub min_spent : t.min_spent ≡ cost (take t.start done)
  pub least :
      (k : ℕ)
      → gas (take t.start done) + cost (take k done) ≤ gas (take k done) + cost (take t.start done)
  pub low : (t.start ≡ 0) ⊎ (gas (take t.start done) < cost (take t.start done))

-- A prefix of what is passed, with one station more.
take-snoc :
    (k : ℕ) (xs : List (ℕ × ℕ)) (p : ℕ × ℕ)
    → ((k ≤ length xs) × (take k (xs ++ p ∷ []) ≡ take k xs))
      ⊎ (take k (xs ++ p ∷ []) ≡ xs ++ p ∷ [])
take-snoc k xs p = elim (Bool-cases (ltb (length xs) k)) [
  | inl more ↦ inr (take_all k (xs ++ p ∷ []) (ground (arith, more, length-append xs (p ∷ []))))
  | inr less ↦
      let none_left : k - length xs ≡ 0 = ground (arith, less) in
      inl (
        ground (arith, less),
        take-append k xs (p ∷ [])
            ∙ ap (λ n. take k xs ++ take n (p ∷ [])) none_left
            ∙ append-nil (take k xs),
      )
]

take-early :
    (k : ℕ) (xs : List (ℕ × ℕ)) (p : ℕ × ℕ) → k ≤ length xs → take k (xs ++ p ∷ []) ≡ take k xs
take-early k xs p h =
    let none_left : k - length xs ≡ 0 = omega arith in
    take-append k xs (p ∷ [])
    ∙ ap (λ n. take k xs ++ take n (p ∷ [])) none_left
    ∙ append-nil (take k xs)

module _ (xs : List (ℕ × ℕ)) (t : Totals) (v : Inv xs t) (g c : ℕ) (o : Bool) where
  new_gas : gas (xs ++ (g, c) ∷ []) ≡ t.gained + g
  new_gas = omega (arith, gas-append xs ((g, c) ∷ []), v.gained)

  new_cost : cost (xs ++ (g, c) ∷ []) ≡ t.spent + c
  new_cost = omega (arith, cost-append xs ((g, c) ∷ []), v.spent)

  -- A new lowest point.
  lower-Inv :
      ltb (t.gained + g + t.min_spent) (t.min_gained + (t.spent + c)) ≡ true
      → Inv (xs ++ (g, c) ∷ []) (record {
        gained = t.gained + g;
        spent = t.spent + c;
        min_gained = t.gained + g;
        min_spent = t.spent + c;
        start = length xs + 1;
        overflow = o;
      })
  lower-Inv less =
      let now = xs ++ (g, c) ∷ [] in
      let all : take (length xs + 1) now ≡ now =
        take_all (length xs + 1) now (omega (arith, length-append xs ((g, c) ∷ []))) in
      let drop_low = ltb→lt _ _ less in
      record {
        gained = sym new_gas;
        spent = sym new_cost;
        start = omega (arith, length-append xs ((g, c) ∷ []));
        min_gained = sym (ap gas all ∙ new_gas);
        min_spent = sym (ap cost all ∙ new_cost);
        least = λ k. elim (take-snoc k xs (g, c)) [
          | inl (h, e) ↦ omega (
            arith,
            ap gas all,
            ap cost all,
            new_gas,
            new_cost,
            drop_low,
            v.min_gained,
            v.min_spent,
            v.least k,
            ap gas e,
            ap cost e,
          )
          | inr e ↦ omega (arith, ap gas all, ap cost all, ap gas e, ap cost e)
        ];
        low = inr (elim v.low [
          | inl z ↦ omega (
            arith,
            ap gas all,
            ap cost all,
            new_gas,
            new_cost,
            drop_low,
            v.min_gained,
            v.min_spent,
            ap (λ i. gas (take i xs)) z,
            ap (λ i. cost (take i xs)) z,
          )
          | inr l ↦ omega (
            arith,
            ap gas all,
            ap cost all,
            new_gas,
            new_cost,
            drop_low,
            v.min_gained,
            v.min_spent,
            l,
          )
        ]);
      }

  -- The lowest point stays.
  same-Inv :
      ltb (t.gained + g + t.min_spent) (t.min_gained + (t.spent + c)) ≡ false
      → Inv
          (xs ++ (g, c) ∷ [])
          (record t { gained = t.gained + g; spent = t.spent + c; overflow = o })
  same-Inv more =
      let front = take-early t.start xs (g, c) v.start in
      let above : t.min_gained + (t.spent + c) ≤ t.gained + g + t.min_spent =
        ground (arith, more) in
      record {
        gained = sym new_gas;
        spent = sym new_cost;
        start = omega (arith, v.start, length-append xs ((g, c) ∷ []));
        min_gained = v.min_gained ∙ sym (ap gas front);
        min_spent = v.min_spent ∙ sym (ap cost front);
        least = λ k. elim (take-snoc k xs (g, c)) [
          | inl (h, e) ↦ omega (arith, ap gas front, ap cost front, v.least k, ap gas e, ap cost e)
          | inr e ↦ omega (
            arith,
            ap gas front,
            ap cost front,
            ap gas e,
            ap cost e,
            new_gas,
            new_cost,
            above,
            v.min_gained,
            v.min_spent,
          )
        ];
        low = elim v.low [
          | inl z ↦ inl z
          | inr l ↦ inr (omega (arith, ap gas front, ap cost front, l))
        ];
      }

pass-Inv :
    (xs : List (ℕ × ℕ)) (t : Totals) (i g c : ℕ)
    → i ≡ length xs
    → Inv xs t
    → Inv (xs ++ (g, c) ∷ []) (pass i g c t)
unfolding pass
pass-Inv xs t i g c e v =
    elim (Bool-cases (ltb (t.gained + g + t.min_spent) (t.min_gained + (t.spent + c)))) [
      | inl less ↦ subst (Inv (xs ++ (g, c) ∷ [])) (sym (if-true _ _ less)) (
          subst
            (λ n. Inv (xs ++ (g, c) ∷ []) (record {
              gained = t.gained + g;
              spent = t.spent + c;
              min_gained = t.gained + g;
              min_spent = t.spent + c;
              start = n + 1;
              overflow = t.overflow || beyond_int g c || beyond_int (t.gained + g) (t.spent + c);
            }))
            (sym e) (lower-Inv xs t v g c _ less))
      | inr more ↦
          subst (Inv (xs ++ (g, c) ∷ [])) (sym (if-false _ _ more)) (same-Inv xs t v g c _ more)
    ]

pub drive-Inv :
    (i : ℕ) (xs stations : List (ℕ × ℕ)) (t : Totals)
    → i ≡ length xs
    → Inv xs t
    → Inv (xs ++ stations) (drive i stations t)
unfolding drive
drive-Inv i xs [] t e v = subst (λ l. Inv l t) (sym (append-nil xs)) v
drive-Inv i xs ((g, c) ∷ stations) t e v =
    subst (λ l. Inv l (drive (i + 1) stations (pass i g c t)))
      (append_assoc xs ((g, c) ∷ []) stations)
      (drive-Inv (i + 1) (xs ++ (g, c) ∷ []) stations (pass i g c t)
        (omega (arith, e, length-append xs ((g, c) ∷ []))) (pass-Inv xs t i g c e v))

pub init-Inv : Inv [] init
unfolding init
init-Inv = record {
  gained = refl;
  spent = refl;
  start = omega arith;
  min_gained = refl;
  min_spent = refl;
  least = λ k. ground (arith, take_all {A = ℕ × ℕ} k [] (omega arith));
  low = inl refl;
}
