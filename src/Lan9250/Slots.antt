-- ===== src/Lan9250/Slots.antt =====
-- The slot arrays of the timestamp matching (`rx_pending`, `rx_unclaimed`), for entries of any kind
-- with a deadline. `none` is a free slot.
pub mod Target
pub mod Lookup
pub mod Eviction
use rp2350_zephyr_stepper.Prelude.{
  ℕ, suc, Bool, Option, none, some, List, [], ◌∷◌, leb, ltb, if◌then◌else◌,
}

module _ {A : Type 0} (deadline : A → ℕ) where
  -- The entries that have expired at `now`, in slot order, and the slots after they are cleared.
  unfoldable pub expired : ℕ → List (Option A) → List A
  expired now [] = []
  expired now (none ∷ slots) = expired now slots
  expired now (some a ∷ slots) =
      let rest = expired now slots in if leb (deadline a) now then a ∷ rest else rest

  unfoldable pub kept : ℕ → List (Option A) → List (Option A)
  kept now [] = []
  kept now (none ∷ slots) = none ∷ kept now slots
  kept now (some a ∷ slots) = (if leb (deadline a) now then none else some a) ∷ kept now slots

  -- The search for the earliest deadline, from slot `i` on, with the best so far.
  unfoldable pub oldest_from : ℕ → ℕ → ℕ → List (Option A) → ℕ
  oldest_from best d i [] = best
  oldest_from best d i (none ∷ slots) = oldest_from best d (suc i) slots
  oldest_from best d i (some a ∷ slots) =
      let earlier = oldest_from i (deadline a) (suc i) slots in
      let same = oldest_from best d (suc i) slots in if ltb (deadline a) d then earlier else same

  unfoldable pub oldest : List (Option A) → ℕ
  oldest [] = 0
  oldest (none ∷ slots) = 0
  oldest (some a ∷ slots) = oldest_from 0 (deadline a) 1 slots

module _ {A : Type 0} where
  unfoldable pub first_free : List (Option A) → Option ℕ
  first_free [] = none
  first_free (none ∷ slots) = some 0
  first_free (some a ∷ slots) = elim (first_free slots) [ none ↦ none | some i ↦ some (suc i) ]

  -- The first entry that passes the test, and its index.
  unfoldable pub find : (A → Bool) → List (Option A) → Option (A × ℕ)
  find test [] = none
  find test (none ∷ slots) = elim (find test slots) [ none ↦ none | some (a, i) ↦ some (a, suc i) ]
  find test (some b ∷ slots) =
      let rest : Option (A × ℕ) = elim (find test slots) [
        | none ↦ none
        | some (a, i) ↦ some (a, suc i)
      ] in
      if test b then some (b, 0) else rest

-- Where a new entry goes: the first free slot, or the one with the earliest deadline.
unfoldable pub target : {A : Type 0} → (A → ℕ) → List (Option A) → ℕ
target deadline slots = elim (first_free slots) [ some i ↦ i | none ↦ oldest deadline slots ]
