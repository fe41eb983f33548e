-- ===== src/Core1/Motion/Speed.antt =====
-- The speed of the next step stays in the motor's range, given what IEEE-754 says of the FPU.
use rp2350_zephyr_stepper.Prelude.{ℕ, ◌≡◌, true, arith, Bool-cases, inl, inr, if◌then◌else◌, refl}
use rp2350_zephyr_stepper.Core1.Float.{Fpu, flt, fle}
use rp2350_zephyr_stepper.Core1.Float.Order.{fle_trans, flt→fle}
use rp2350_zephyr_stepper.Core1.Board.{Motion}
use rp2350_zephyr_stepper.Core1.Motion.{min_speed_hz, float_two, next_speed}
use rp2350_zephyr_stepper.Core1.Commands.Ranges.{IsSpeed, IsRate}

-- IEEE-754, on the values that the profile meets: the square of a speed is a non-negative number,
-- adding or subtracting a non-negative rate moves it up or down, and the square root is correctly
-- rounded, hence monotone, and undoes the square.
pub record IsIeee (fpu : Fpu) : Type 0 where
  pub square_nonneg : (v : ℕ) → IsSpeed v → fle 0 (fpu.fmul v v) ≡ true
  pub double_nonneg : (a : ℕ) → IsRate a → fle 0 (fpu.fmul float_two a) ≡ true
  pub square_add_le :
      (v d : ℕ) → IsSpeed v → fle 0 d ≡ true → fle (fpu.fmul v v) (fpu.fadd (fpu.fmul v v) d) ≡ true
  pub square_sub_le :
      (v d : ℕ) → IsSpeed v → fle 0 d ≡ true → fle (fpu.fsub (fpu.fmul v v) d) (fpu.fmul v v) ≡ true
  pub sqrt_mono :
      (x y : ℕ) → fle 0 x ≡ true → fle x y ≡ true → fle (fpu.fsqrt x) (fpu.fsqrt y) ≡ true
  pub sqrt_square : (v : ℕ) → IsSpeed v → fpu.fsqrt (fpu.fmul v v) ≡ v

-- The settings are in range, and the speed is too.
pub record IsTuned (m : Motion) : Type 0 where
  pub max_ok : IsSpeed m.max_speed
  pub accel_ok : IsRate m.accel
  pub decel_ok : IsRate m.decel
  pub speed_ok : IsSpeed m.speed

min_IsSpeed : IsSpeed min_speed_hz
unfolding fle
min_IsSpeed = (refl, refl)

module _ {fpu : Fpu} (ieee : IsIeee fpu) {m : Motion} (t : IsTuned m) where
  open ieee use {square_nonneg, double_nonneg, square_add_le, square_sub_le, sqrt_mono, sqrt_square}

  -- A root between the squares of two speeds lies between the speeds.
  root_between :
      (lo hi x : ℕ)
      → IsSpeed lo
      → IsSpeed hi
      → fle (fpu.fmul lo lo) x ≡ true
      → fle x (fpu.fmul hi hi) ≡ true
      → (fle lo (fpu.fsqrt x) ≡ true) × (fle (fpu.fsqrt x) hi ≡ true)
  root_between lo hi x l h p q =
      let low = rw (sqrt_square lo l) at (sqrt_mono (fpu.fmul lo lo) x (square_nonneg lo l) p) in
      let pos = fle_trans 0 (fpu.fmul lo lo) x (square_nonneg lo l) p in
      (low, rw (sqrt_square hi h) at (sqrt_mono x (fpu.fmul hi hi) pos q))

  root_IsSpeed :
      (lo hi x : ℕ)
      → IsSpeed lo
      → IsSpeed hi
      → fle (fpu.fmul lo lo) x ≡ true
      → fle x (fpu.fmul hi hi) ≡ true
      → IsSpeed (fpu.fsqrt x)
  root_IsSpeed lo hi x l h p q =
      let (a, b) = root_between lo hi x l h p q in (fle_trans _ lo _ l.0 a, fle_trans _ hi _ b h.1)

  -- While braking the speed falls to the floor at most, and does not rise.
  braking : IsSpeed (
      if flt
        (fpu.fmul min_speed_hz min_speed_hz)
        (fpu.fsub (fpu.fmul m.speed m.speed) (fpu.fmul float_two m.decel))
      then fpu.fsqrt (fpu.fsub (fpu.fmul m.speed m.speed) (fpu.fmul float_two m.decel))
      else min_speed_hz)
  braking =
      let x = fpu.fsub (fpu.fmul m.speed m.speed) (fpu.fmul float_two m.decel) in
      elim (Bool-cases (flt (fpu.fmul min_speed_hz min_speed_hz) x)) [
        | inl up ↦ rw up (
            root_IsSpeed min_speed_hz m.speed x min_IsSpeed t.speed_ok (flt→fle _ x up)
              (square_sub_le m.speed _ t.speed_ok (double_nonneg m.decel t.decel_ok)))
        | inr floor ↦ rw floor min_IsSpeed
      ]

  rising : IsSpeed (
      if flt
        (fpu.fadd (fpu.fmul m.speed m.speed) (fpu.fmul float_two m.accel))
        (fpu.fmul m.max_speed m.max_speed)
      then fpu.fsqrt (fpu.fadd (fpu.fmul m.speed m.speed) (fpu.fmul float_two m.accel))
      else m.max_speed)
  rising =
      let x = fpu.fadd (fpu.fmul m.speed m.speed) (fpu.fmul float_two m.accel) in
      elim (Bool-cases (flt x (fpu.fmul m.max_speed m.max_speed))) [
        | inl up ↦ rw up (
            root_IsSpeed m.speed m.max_speed x t.speed_ok t.max_ok
              (square_add_le m.speed _ t.speed_ok (double_nonneg m.accel t.accel_ok))
              (flt→fle x _ up))
        | inr top ↦ rw top t.max_ok
      ]

  -- If the FPU has the laws of IEEE-754 that IsIeee names, and the settings and the speed are in
  -- range, then on every branch of next_speed the result is between 50 and 160000 steps/s.
  pub next_speed-IsSpeed : IsSpeed (next_speed fpu m)
  unfolding next_speed
  next_speed-IsSpeed = ground (arith, braking, rising, t.max_ok)
