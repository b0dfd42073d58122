-- ===== src/Algorithm/Circuit/Trip.antt =====
-- The trip round from the station that is answered.
use native.Mathlib.Nat.{mod-eq_of_lt}
use learn_note.Prelude.{
  ℕ, ◌+◌, ◌-◌, ◌≤◌, ◌<◌, ◌==◌, ◌≡◌, ◌⊎◌, inl, inr, refl, ap, ◌∙◌, Bool-cases, false, List, [], ◌∷◌,
  ◌++◌, arith, if-true, if-false, length, take, drop, ltb, min, ltb→lt, take_all, take-append-drop,
}
use learn_note.Algorithm.Dijkstra.{int_max}
use learn_note.Algorithm.Circuit.{Totals, init, pass, drive, nowhere, station, can_complete_circuit}
use learn_note.Algorithm.Circuit.Prefix.{take-append, take-drop, take-take}
use learn_note.Algorithm.Circuit.Lowest.{
  gas, cost, gas-append, cost-append, Inv, drive-Inv, init-Inv,
}

-- The tank never runs out on the way through the stations, from the s-th on and round.
pub Completes : List (ℕ × ℕ) → ℕ → Type 0
Completes xs s = (k : ℕ) → let way = take k (drop s xs ++ take s xs) in cost way ≤ gas way

-- From the lowest point on the tank holds out, if it does on the whole.
lowest-Completes :
    (xs : List (ℕ × ℕ)) (t : Totals) → Inv xs t → cost xs ≤ gas xs → Completes xs t.start
unfolding Completes
lowest-Completes xs t v enough k =
    omega (arith, gas-append front back, cost-append front back, ap gas parts, ap cost parts, held)
  where
    s : ℕ
    s = t.start

    front : List (ℕ × ℕ)
    front = take k (drop s xs)

    back : List (ℕ × ℕ)
    back = take (k - length (drop s xs)) (take s xs)

    parts : take k (drop s xs ++ take s xs) ≡ front ++ back
    parts = take-append k (drop s xs) (take s xs)

    held : cost front + cost back ≤ gas front + gas back
    held = elim (Bool-cases (ltb (length (drop s xs)) k)) [
      | inr first ↦
          let none_left : back ≡ [] =
            ap (λ n. take n (take s xs)) {y = 0} (ground (arith, first)) in
          omega (
            arith,
            ap gas none_left,
            ap cost none_left,
            ap gas (take-drop s k xs),
            ap cost (take-drop s k xs),
            gas-append (take s xs) front,
            cost-append (take s xs) front,
            v.least (s + k),
          )
      | inl beyond ↦
          let rest : front ≡ drop s xs = take_all k (drop s xs) (ground (arith, beyond)) in
          let j = k - length (drop s xs) in
          let round = take-take j s xs in
          omega (
            arith,
            ap gas rest,
            ap cost rest,
            ap gas round,
            ap cost round,
            v.least (min j s),
            gas-append (take s xs) (drop s xs),
            cost-append (take s xs) (drop s xs),
            ap gas (take-append-drop s xs),
            ap cost (take-append-drop s xs),
            enough,
          )
    ]

-- Round the whole circuit the costs are all paid.
whole_trip : (xs : List (ℕ × ℕ)) (s : ℕ) → Completes xs s → cost xs ≤ gas xs
unfolding Completes
whole_trip xs s trip =
    let way = drop s xs ++ take s xs in
    let all : take (length way) way ≡ way = take_all (length way) way (omega arith) in
    omega (
      arith,
      trip (length way),
      ap gas all,
      ap cost all,
      gas-append (drop s xs) (take s xs),
      cost-append (drop s xs) (take s xs),
      gas-append (take s xs) (drop s xs),
      cost-append (take s xs) (drop s xs),
      ap gas (take-append-drop s xs),
      ap cost (take-append-drop s xs),
    )

-- A difference of an `int` and an `int` above 0 is one.
pass-fits :
    (i g c : ℕ) (t : Totals)
    → t.gained + g ≤ int_max
    → t.spent + c ≤ int_max
    → t.overflow ≡ false
    → ((pass i g c t).gained ≡ t.gained + g)
      × ((pass i g c t).spent ≡ t.spent + c)
      × ((pass i g c t).overflow ≡ false)
unfolding pass
pass-fits i g c t f h e = ground (arith, f, h, e)

-- Where all the gas and all the costs are within `int`, no difference leaves it.
drive-fits :
    (i : ℕ) (stations : List (ℕ × ℕ)) (t : Totals)
    → t.gained + gas stations ≤ int_max
    → t.spent + cost stations ≤ int_max
    → t.overflow ≡ false
    → (drive i stations t).overflow ≡ false
unfolding drive
drive-fits i [] t f h e = e
drive-fits i ((g, c) ∷ stations) t f h e =
    let (p, q, r) = pass-fits i g c t (omega (arith, f)) (omega (arith, h)) e in
    drive-fits (i + 1) stations (pass i g c t) (omega (arith, f, p)) (omega (arith, h, q)) r

-- On a circuit of at least one station, whose gas and whose costs each sum up to an `int`, `canCompleteCircuit` answers a station of it from which the tank
-- never runs out on the way round, or -1, and then there is no such station.
pub can_complete_circuit_lem :
    (stations : List (ℕ × ℕ))
    → 0 < length stations
    → gas stations ≤ int_max
    → cost stations ≤ int_max
    → ((s : ℕ) × (can_complete_circuit stations ≡ station s)
        × (s < length stations)
        × Completes stations s)
      ⊎ ((can_complete_circuit stations ≡ nowhere) × ¬ ((s : ℕ) × Completes stations s))
unfolding can_complete_circuit init
can_complete_circuit_lem stations full all_gas all_cost =
    let t = drive 0 stations init in
    let v = drive-Inv 0 [] stations init refl init-Inv in
    let fits : t.overflow ≡ false =
      drive-fits 0 stations init (omega (arith, all_gas)) (omega (arith, all_cost)) refl in
    elim (Bool-cases (ltb t.gained t.spent)) [
      | inl short ↦ inr (
        if-false _ _ fits ∙ if-true _ _ short,
        λ (s, trip). omega (arith, ltb→lt _ _ short, v.gained, v.spent, whole_trip stations s trip),
      )
      | inr enough ↦
          let paid : cost stations ≤ gas stations = ground (arith, enough, v.gained, v.spent) in
          let inside : t.start < length stations = before stations t v paid full in
          let some_stations : (length stations == 0) ≡ false = ground (arith, full) in
          inl (
            t.start,
            if-false _ _ fits
                ∙ if-false _ _ enough
                ∙ if-false _ _ some_stations
                ∙ ap station (mod-eq_of_lt inside),
            inside,
            lowest-Completes stations t v paid,
          )
    ]
  where
    before :
        (xs : List (ℕ × ℕ)) (t : Totals)
        → Inv xs t
        → cost xs ≤ gas xs
        → 0 < length xs
        → t.start < length xs
    before xs t v paid full = elim (Bool-cases (ltb t.start (length xs))) [
      | inl h ↦ ltb→lt _ _ h
      | inr h ↦ elim v.low [
        | inl z ↦ omega (arith, z, full)
        | inr l ↦
            let all : take t.start xs ≡ xs = take_all t.start xs (ground (arith, h)) in
            absurd (omega (arith, l, ap gas all, ap cost all, paid))
      ]
    ]
