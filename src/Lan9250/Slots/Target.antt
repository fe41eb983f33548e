-- ===== src/Lan9250/Slots/Target.antt =====
-- Where a slot is found: the search and the choice of a target stay within the array.
use rp2350_zephyr_stepper.Prelude.{
  ℕ, zero, suc, ◌+◌, ◌<◌, ◌≤◌, ◌≡◌, Bool, true, Option, none, some, List, [], ◌∷◌, arith, refl,
  length, get_or, Bool-cases, inl, inr,
}
use rp2350_zephyr_stepper.Lan9250.Slots.{oldest_from, oldest, first_free, find, target, kept}

module _ {A : Type 0} where
  -- What a search has found is there.
  abbrev pub FreeAt : List (Option A) → Option ℕ → Type 0
  FreeAt slots none = Unit
  FreeAt slots (some i) = (i < length slots) × (get_or slots i none ≡ none)

  abbrev pub FoundAt : (A → Bool) → List (Option A) → Option (A × ℕ) → Type 0
  FoundAt test slots none = Unit
  FoundAt test slots (some (a, i)) =
      (i < length slots) × (get_or slots i none ≡ some a) × (test a ≡ true)

  free_next :
      (a : A) (slots : List (Option A)) (o : Option ℕ)
      → FreeAt slots o
      → FreeAt (some a ∷ slots) (elim o [ none ↦ none | some i ↦ some (suc i) ])
  free_next a slots none h = h
  free_next a slots (some i) h = (omega (arith, h.0), h.1)

  pub first_free-FreeAt : (slots : List (Option A)) → FreeAt slots (first_free slots)
  unfolding first_free
  first_free-FreeAt [] = tt
  first_free-FreeAt (none ∷ slots) = (omega arith, refl)
  first_free-FreeAt (some a ∷ slots) =
      free_next a slots (first_free slots) (first_free-FreeAt slots)

  found_next :
      (test : A → Bool) (b : Option A) (slots : List (Option A)) (o : Option (A × ℕ))
      → FoundAt test slots o
      → FoundAt test (b ∷ slots) (elim o [ none ↦ none | some (a, i) ↦ some (a, suc i) ])
  found_next test b slots none h = h
  found_next test b slots (some (a, i)) h = (omega (arith, h.0), h.1, h.2)

  pub find-FoundAt :
      (test : A → Bool) (slots : List (Option A)) → FoundAt test slots (find test slots)
  unfolding find
  find-FoundAt test [] = tt
  find-FoundAt test (none ∷ slots) =
      found_next test none slots (find test slots) (find-FoundAt test slots)
  find-FoundAt test (some b ∷ slots) = elim (Bool-cases (test b)) [
    | inl hit ↦ rw hit (omega arith, refl, hit)
    | inr miss ↦
        rw miss (found_next test (some b) slots (find test slots) (find-FoundAt test slots))
  ]

module _ {A : Type 0} (deadline : A → ℕ) where
  pub length-kept :
      (now : ℕ) (slots : List (Option A)) → length (kept deadline now slots) ≡ length slots
  unfolding kept
  length-kept now [] = refl
  length-kept now (none ∷ slots) = ground (arith, length-kept now slots)
  length-kept now (some a ∷ slots) = ground (arith, length-kept now slots)

  -- A sweep leaves what it does not clear in its slot.
  pub get_or-kept :
      (now : ℕ) (slots : List (Option A)) (i : ℕ) (a : A)
      → get_or (kept deadline now slots) i none ≡ some a
      → get_or slots i none ≡ some a
  unfolding kept
  get_or-kept now [] i a h = h
  get_or-kept now (none ∷ slots) zero a h = h
  get_or-kept now (none ∷ slots) (suc i) a h = get_or-kept now slots i a h
  get_or-kept now (some b ∷ slots) zero a h = ground (arith, h)
  get_or-kept now (some b ∷ slots) (suc i) a h = get_or-kept now slots i a h

  oldest_from-bound :
      (slots : List (Option A)) (best d i n : ℕ)
      → best < n
      → i + length slots ≤ n
      → oldest_from deadline best d i slots < n
  unfolding oldest_from
  oldest_from-bound [] best d i n h k = h
  oldest_from-bound (none ∷ slots) best d i n h k =
      oldest_from-bound slots best d (suc i) n h (ground arith)
  oldest_from-bound (some a ∷ slots) best d i n h k = ground (
    arith,
    oldest_from-bound slots i (deadline a) (suc i) n,
    oldest_from-bound slots best d (suc i) n,
  )

  oldest-bound : (slots : List (Option A)) → 0 < length slots → oldest deadline slots < length slots
  unfolding oldest
  oldest-bound [] h = h
  oldest-bound (none ∷ slots) h = h
  oldest-bound (some a ∷ slots) h = oldest_from-bound slots 0 (deadline a) 1 _ h (omega arith)

  target_within :
      (slots : List (Option A)) (o : Option ℕ)
      → 0 < length slots
      → FreeAt slots o
      → (elim o [ some i ↦ i | none ↦ oldest deadline slots ]) < length slots
  target_within slots none h f = oldest-bound slots h
  target_within slots (some i) h f = f.0

  -- A new entry goes into a slot of the array.
  pub target-bound :
      (slots : List (Option A)) → 0 < length slots → target deadline slots < length slots
  unfolding target
  target-bound slots h = target_within slots (first_free slots) h (first_free-FreeAt slots)
