-- ===== src/Muduo/Server/Names.antt =====
-- The names of connections, and the map that they index.
use learn_note.Prelude.{
  ℕ, ◌^◌, ◌≤◌, ◌<◌, ◌≡◌, ◌≢◌, ◌↔◌, refl, sym, ap, ◌∙◌, true, none, some, List, [], ◌∷◌, ◌++◌, arith,
  length, take_all, length-append, if◌then◌else◌,
}
use learn_note.Muduo.Server.{Name, name_eq, Conn, Connections, lookup, assign, erase, conn_name}

pub name_eq_iff : (m n : Name) → (name_eq m n ≡ true) ↔ (m ≡ n)
name_eq_iff [] [] = (λ h. refl, λ h. refl)
name_eq_iff [] (b ∷ n) = (λ h. cc, λ h. cc)
name_eq_iff (a ∷ m) [] = (λ h. cc, λ h. cc)
name_eq_iff (a ∷ m) (b ∷ n) =
    let ih = name_eq_iff m n in (λ h. ground (arith, ih), λ h. ground (arith, ih))

pub name_eq_refl : (n : Name) → name_eq n n ≡ true
name_eq_refl n = (name_eq_iff n n).1 refl

-- A map after an assignment, and after an erasure where no key stands twice.
pub lookup-assign :
    (n k : Name) (c : Conn) (cs : Connections)
    → lookup k (assign n c cs) ≡ (if name_eq n k then some c else lookup k cs)
unfolding lookup assign
lookup-assign n k c [] = refl
lookup-assign n k c ((m, d) ∷ cs) =
    ground (arith, name_eq_iff m n, name_eq_iff m k, name_eq_iff n k, lookup-assign n k c cs)

abbrev pub Distinct : Connections → Type 0
Distinct [] = Unit {0}
Distinct ((n, c) ∷ cs) = (lookup n cs ≡ none) × Distinct cs

pub lookup-erase :
    (n k : Name) (cs : Connections)
    → Distinct cs
    → lookup k (erase n cs) ≡ (if name_eq n k then none else lookup k cs)
unfolding lookup erase
lookup-erase n k [] h = ground arith
lookup-erase n k ((m, d) ∷ cs) h =
    ground (arith, name_eq_iff m n, name_eq_iff m k, name_eq_iff n k, lookup-erase n k cs h.1)

-- What the names rest on: `snprintf` prints different numbers differently, and in at most 11 bytes.
pub record Prints (decimal : ℕ → Name) : Type 0 where
  pub injective : (i j : ℕ) → decimal i ≡ decimal j → i ≡ j
  pub short : (i : ℕ) → i < 2 ^ 31 → length (decimal i) ≤ 11

-- An address and a port take at most 21 bytes.
abbrev pub IsAddress : Name → Type 0
IsAddress n = length n ≤ 21

append_cancel : (xs ys zs : List ℕ) → xs ++ ys ≡ xs ++ zs → ys ≡ zs
append_cancel [] ys zs h = h
append_cancel (x ∷ xs) ys zs h = append_cancel xs ys zs (cc)

module _ (decimal : ℕ → Name) (p : Prints decimal) (name ip_port : Name)
    (a : IsAddress ip_port) where
  -- The buffer is never too short.
  conn_name_whole :
      (i : ℕ)
      → i < 2 ^ 31
      → conn_name decimal name ip_port i ≡ name ++ (b'-' ∷ (ip_port ++ (b'#' ∷ decimal i)))
  unfolding conn_name
  conn_name_whole i h =
      ap (◌++◌ name)
        (take_all 63 _ (omega (arith, p.short i, length-append ip_port (b'#' ∷ decimal i))))

  pub conn_name-injective :
      (i j : ℕ)
      → i < 2 ^ 31
      → j < 2 ^ 31
      → conn_name decimal name ip_port i ≡ conn_name decimal name ip_port j
      → i ≡ j
  conn_name-injective i j hi hj e =
      let whole = sym (conn_name_whole i hi) ∙ e ∙ conn_name_whole j hj in
      let texts = append_cancel name _ _ whole in
      let after_dash = append_cancel (b'-' ∷ ip_port) (b'#' ∷ decimal i) (b'#' ∷ decimal j) texts in
      p.injective i j (append_cancel (b'#' ∷ []) (decimal i) (decimal j) after_dash)

  -- Below the 2^31st, connections of different numbers have different names, with any name of the
  -- server and any address of at most 21 bytes: the 64-byte buffer cuts none of them short.
  pub conn_name-apart :
      (i j : ℕ)
      → i < 2 ^ 31
      → j < 2 ^ 31
      → i ≢ j
      → conn_name decimal name ip_port i ≢ conn_name decimal name ip_port j
  conn_name-apart i j hi hj ne e = ne (conn_name-injective i j hi hj e)
