-- ===== src/Lan9250/Slots/Eviction.antt =====
-- When every slot is in use, the entry with the earliest deadline makes room.
use rp2350_zephyr_stepper.Prelude.{
  ℕ, zero, suc, ◌+◌, ◌<◌, ◌≤◌, ◌≡◌, Option, none, some, List, [], ◌∷◌, arith, refl, sym, length,
  get_or, ltb, Bool-cases, inl, inr, ◌⊎◌,
}
use rp2350_zephyr_stepper.Lan9250.Slots.{oldest_from, oldest, first_free, target}

module _ {A : Type 0} (deadline : A → ℕ) where
  -- Every entry is due at `d` or later.
  abbrev pub Later : ℕ → List (Option A) → Type 0
  Later d [] = Unit
  Later d (none ∷ slots) = Later d slots
  Later d (some a ∷ slots) = (d ≤ deadline a) × Later d slots

  Later-mono : (d e : ℕ) (slots : List (Option A)) → e ≤ d → Later d slots → Later e slots
  Later-mono d e [] h l = l
  Later-mono d e (none ∷ slots) h l = Later-mono d e slots h l
  Later-mono d e (some a ∷ slots) h l = (omega (arith, l.0), Later-mono d e slots h l.1)

  -- The slot `j`, due at `e`, is the best so far, or one of the slots, counted from `i`.
  abbrev Place : ℕ → ℕ → ℕ → List (Option A) → ℕ → ℕ → Type 0
  Place best d i slots j e =
      ((j ≡ best) × (e ≡ d))
      ⊎ ((k : ℕ) × (a : A) × (j ≡ i + k) × (get_or slots k none ≡ some a) × (deadline a ≡ e))

  -- The search from slot `i` on ends at `j`, due at `e`: the best so far, or one of the slots.
  record Earliest (best d i : ℕ) (slots : List (Option A)) (j : ℕ) : Type 0 where
    e : ℕ
    not_later : e ≤ d
    all_later : Later e slots
    place : Place best d i slots j e

  Place-next :
      (best d i : ℕ) (o : Option A) (slots : List (Option A)) (j e : ℕ)
      → Place best d (suc i) slots j e
      → Place best d i (o ∷ slots) j e
  Place-next best d i o slots j e (inl here) = inl here
  Place-next best d i o slots j e (inr (k, a, p, g, h)) = inr (suc k, a, omega (arith, p), g, h)

  Place-first :
      (best d i : ℕ) (a : A) (slots : List (Option A)) (j e : ℕ)
      → Place i (deadline a) (suc i) slots j e
      → Place best d i (some a ∷ slots) j e
  Place-first best d i a slots j e (inl (p, h)) = inr (zero, a, omega (arith, p), refl, sym h)
  Place-first best d i a slots j e (inr (k, b, p, g, h)) = inr (suc k, b, omega (arith, p), g, h)

  oldest_from-Earliest :
      (slots : List (Option A)) (best d i : ℕ)
      → Earliest best d i slots (oldest_from deadline best d i slots)
  unfolding oldest_from
  oldest_from-Earliest [] best d i = record {
    e = d;
    not_later = omega arith;
    all_later = tt;
    place = inl (refl, refl);
  }
  oldest_from-Earliest (none ∷ slots) best d i =
      let r = oldest_from-Earliest slots best d (suc i) in
      record {
        e = r.e;
        not_later = r.not_later;
        all_later = r.all_later;
        place = Place-next best d i none slots _ r.e r.place;
      }
  oldest_from-Earliest (some a ∷ slots) best d i = elim (Bool-cases (ltb (deadline a) d)) [
    | inl closer ↦
        let r = oldest_from-Earliest slots i (deadline a) (suc i) in
        let sooner : r.e ≤ d = ground (arith, r.not_later) in
        rw closer (record {
          e = r.e;
          not_later = sooner;
          all_later = (r.not_later, r.all_later);
          place = Place-first best d i a slots _ r.e r.place;
        })
    | inr further ↦
        let r = oldest_from-Earliest slots best d (suc i) in
        let within : r.e ≤ deadline a = ground (arith, r.not_later) in
        rw further (record {
          e = r.e;
          not_later = r.not_later;
          all_later = (within, r.all_later);
          place = Place-next best d i (some a) slots _ r.e r.place;
        })
  ]

  Later-get :
      (d : ℕ) (slots : List (Option A)) (i : ℕ) (a : A)
      → Later d slots
      → get_or slots i none ≡ some a
      → d ≤ deadline a
  Later-get d [] i a l g = cc
  Later-get d (none ∷ slots) zero a l g = cc
  Later-get d (none ∷ slots) (suc i) a l g = Later-get d slots i a l g
  Later-get d (some b ∷ slots) zero a l g = let e : b ≡ a = cc in rw e at l.0
  Later-get d (some b ∷ slots) (suc i) a l g = Later-get d slots i a l.1 g

  chosen :
      (slots : List (Option A)) (a : A) (j : ℕ)
      → Earliest 0 (deadline a) 1 slots j
      → (b : A) × (get_or (some a ∷ slots) j none ≡ some b) × Later (deadline b) (some a ∷ slots)
  chosen slots a j r = elim r.place [
    | inl (p, h) ↦ rw p (a, refl, (omega arith, rw h at r.all_later))
    | inr (k, b, p, g, h) ↦
        let q : j ≡ suc k = omega (arith, p) in
        rw q (
          b,
          g,
          (
            omega (arith, h, r.not_later),
            Later-mono r.e (deadline b) slots (omega (arith, h)) r.all_later,
          ),
        )
  ]

  oldest-Later :
      (slots : List (Option A))
      → 0 < length slots
      → first_free slots ≡ none
      → (b : A) × (get_or slots (oldest deadline slots) none ≡ some b) × Later (deadline b) slots
  unfolding oldest first_free
  oldest-Later [] h f = absurd (omega arith)
  oldest-Later (none ∷ slots) h f = cc
  oldest-Later (some a ∷ slots) h f =
      chosen slots a (oldest_from deadline 0 (deadline a) 1 slots)
        (oldest_from-Earliest slots 0 (deadline a) 1)

  -- With every slot of an array that is not empty in use, the slot chosen for a new entry holds an
  -- entry that is due no later than any other.
  pub target-earliest :
      (slots : List (Option A)) (i : ℕ) (a : A)
      → 0 < length slots
      → first_free slots ≡ none
      → get_or slots i none ≡ some a
      → (b : A) × (get_or slots (target deadline slots) none ≡ some b) × (deadline b ≤ deadline a)
  unfolding target
  target-earliest slots i a h f g =
      let (b, p, l) = oldest-Later slots h f in
      rw (target, f) (b, p, Later-get (deadline b) slots i a l g)
