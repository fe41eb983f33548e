-- ===== src/Lan9250/Slots/Lookup.antt =====
-- What a search of a slot array finds after a sweep, and after a slot has been filled.
use rp2350_zephyr_stepper.Prelude.{
  ℕ, zero, suc, ◌<◌, ◌≡◌, ◌≢◌, ◌∙◌, sym, Bool, true, false, Option, none, some, List, [], ◌∷◌,
  arith, refl, get_or, set, get_or-set_ne, Bool-cases, inl, inr, ◌==◌,
}
use rp2350_zephyr_stepper.Lan9250.Slots.{kept, find}
use rp2350_zephyr_stepper.Lan9250.Slots.Target.{FoundAt, find-FoundAt, get_or-kept}

none≢some : {A : Type 0} {a : A} → none ≢ some a
none≢some e = cc

suc-inj : {m n : ℕ} → suc m ≡ suc n → m ≡ n
suc-inj e = omega (arith, e)

module _ {A : Type 0} (test : A → Bool) where
  -- No entry passes the test, or none but the one in slot `i`.
  abbrev pub Absent : List (Option A) → Type 0
  Absent slots = (j : ℕ) (a : A) → get_or slots j none ≡ some a → test a ≡ false

  abbrev pub OnlyAt : ℕ → List (Option A) → Type 0
  OnlyAt i slots = (j : ℕ) (a : A) → get_or slots j none ≡ some a → test a ≡ true → j ≡ i

  found-Absent :
      (slots : List (Option A)) (o : Option (A × ℕ))
      → FoundAt test slots o
      → Absent slots
      → o ≡ none
  found-Absent slots none f h = refl
  found-Absent slots (some (a, j)) f h = cc (f.2, h j a f.1)

  pub find-Absent : (slots : List (Option A)) → Absent slots → find test slots ≡ none
  find-Absent slots h = found-Absent slots (find test slots) (find-FoundAt test slots) h

  pub find-OnlyAt :
      (slots : List (Option A)) (i : ℕ) (a : A)
      → get_or slots i none ≡ some a
      → test a ≡ true
      → OnlyAt i slots
      → find test slots ≡ some (a, i)
  unfolding find
  find-OnlyAt [] i a h t only = absurd (none≢some h)
  find-OnlyAt (none ∷ slots) zero a h t only = absurd (none≢some h)
  find-OnlyAt (none ∷ slots) (suc i) a h t only =
      rw (find-OnlyAt slots i a h t (λ j b e u. suc-inj (only (suc j) b e u))) refl
  find-OnlyAt (some b ∷ slots) zero a h t only = ground (arith, h, t)
  find-OnlyAt (some b ∷ slots) (suc i) a h t only = elim (Bool-cases (test b)) [
    | inl hit ↦ absurd (ground (arith, only 0 b refl hit))
    | inr miss ↦ rw (miss, find-OnlyAt slots i a h t (λ j c e u. suc-inj (only (suc j) c e u))) refl
  ]

  pub set-OnlyAt :
      (slots : List (Option A)) (i : ℕ) (a : A) → Absent slots → OnlyAt i (set slots i (some a))
  set-OnlyAt slots i a absent j b h t = elim (Bool-cases (i == j)) [
    | inl here ↦ ground arith
    | inr away ↦
        let there : get_or slots j none ≡ some b =
          sym (get_or-set_ne slots i j (some a) none (ground arith)) ∙ h in
        cc (t, absent j b there)
  ]

module _ {A : Type 0} (test : A → Bool) (deadline : A → ℕ) (now : ℕ) (slots : List (Option A)) where
  pub kept-Absent : Absent test slots → Absent test (kept deadline now slots)
  kept-Absent h j a e = h j a (get_or-kept deadline now slots j a e)

  pub kept-OnlyAt : (i : ℕ) → OnlyAt test i slots → OnlyAt test i (kept deadline now slots)
  kept-OnlyAt i h j a e = h j a (get_or-kept deadline now slots j a e)

-- A sweep leaves what is not due yet.
pub get_or-kept_alive :
    {A : Type 0} (deadline : A → ℕ) (now : ℕ) (slots : List (Option A)) (i : ℕ) (a : A)
    → get_or slots i none ≡ some a
    → now < deadline a
    → get_or (kept deadline now slots) i none ≡ some a
unfolding kept
get_or-kept_alive deadline now [] i a h l = h
get_or-kept_alive deadline now (none ∷ slots) zero a h l = h
get_or-kept_alive deadline now (none ∷ slots) (suc i) a h l =
    get_or-kept_alive deadline now slots i a h l
get_or-kept_alive deadline now (some b ∷ slots) zero a h l = ground (arith, h)
get_or-kept_alive deadline now (some b ∷ slots) (suc i) a h l =
    get_or-kept_alive deadline now slots i a h l
