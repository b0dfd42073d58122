-- ===== src/Algorithm/Cycle.antt =====
-- Algorithm/LinkedList.cpp: the two functions that look for a cycle. A node is its address, `next` reads
-- the field of that name, and `none` is the null pointer.
pub mod Nodes
pub mod Detection
pub mod Entry
use learn_note.Prelude.{ℕ, zero, suc, Bool, true, false, Option, none, some, ◌==◌, if◌then◌else◌}

-- A read through a null pointer, or a loop that needs more rounds.
pub data Walk {ℓ} (A : Type ℓ) : Type ℓ where
  crashed unfinished : Walk A
  returned : A → Walk A

unfoldable pub same : (p q : Option ℕ) → Bool
same none none = true
same none (some b) = false
same (some a) none = false
same (some a) (some b) = a == b

unfoldable pub met : Walk (Bool × Option ℕ) → Walk Bool
met crashed = crashed
met unfinished = unfinished
met (returned (m, fast)) = returned m

module _ (next : ℕ → Option ℕ) where
  -- The loop that both functions begin with: whether `slow` met `fast`, and `fast` where it ended.
  unfoldable pub race : (fuel : ℕ) (slow fast : Option ℕ) → Walk (Bool × Option ℕ)
  unfolding same
  race zero slow fast = unfinished
  race (suc fuel) slow fast = elim fast [
    | none ↦ returned (false, none)
    | some f ↦ elim (next f) [
      | none ↦ returned (false, some f)
      | some g ↦ elim slow [
        | none ↦ crashed
        | some s ↦
            let rest = race fuel (next s) (next g) in
            if same (next s) (next g) then returned (true, next g) else rest
      ]
    ]
  ]

  unfoldable pub has_cycle : (fuel : ℕ) (head : Option ℕ) → Walk Bool
  unfolding race met
  has_cycle fuel head = met (race fuel head head)

  -- `while (slow != fast) { fast = fast->next; slow = slow->next; }`
  unfoldable pub entry : (fuel : ℕ) (slow fast : Option ℕ) → Walk (Option ℕ)
  unfolding same
  entry zero slow fast = if same slow fast then returned slow else unfinished
  entry (suc fuel) slow fast = if same slow fast then returned slow else elim fast [
    | none ↦ crashed
    | some f ↦ elim slow [ none ↦ crashed | some s ↦ entry fuel (next s) (next f) ]
  ]

  unfoldable pub find_entry :
      (fuel : ℕ) (head : Option ℕ) → Walk (Bool × Option ℕ) → Walk (Option ℕ)
  unfolding entry
  find_entry fuel head crashed = crashed
  find_entry fuel head unfinished = unfinished
  find_entry fuel head (returned (m, fast)) = entry fuel head fast

  unfoldable pub detect_cycle : (fuel : ℕ) (head : Option ℕ) → Walk (Option ℕ)
  unfolding race find_entry
  detect_cycle fuel head = elim head [
    | none ↦ returned none
    | some h ↦ elim (next h) [
      | none ↦ returned none
      | some n ↦ find_entry fuel (some h) (race fuel (some h) (some h))
    ]
  ]
