-- ===== src/Core1/Commands/Ranges.antt =====
-- What the range checks of the setting commands let through.
use rp2350_zephyr_stepper.Prelude.{
  ℕ, ◌≡◌, true, false, arith, if◌then◌else◌, Bool-cases, inl, inr, refl,
}
use rp2350_zephyr_stepper.Core1.Float.{is_nan, flt, fle}
use rp2350_zephyr_stepper.Core1.Float.Order.{not-flt→fle}
use rp2350_zephyr_stepper.Core1.Motion.{min_speed_hz, abs_max_speed, abs_max_accel}
use rp2350_zephyr_stepper.Core1.Commands.{accepted_speed, accepted_rate}

-- A speed that the motor may run at.
abbrev pub IsSpeed : ℕ → Type 0
IsSpeed v = (fle min_speed_hz v ≡ true) × (fle v abs_max_speed ≡ true)

-- A rate that the slide may be accelerated at.
abbrev pub IsRate : ℕ → Type 0
IsRate a = (flt 0 a ≡ true) × (fle a abs_max_accel ≡ true)

-- A requested speed that is not a NaN is taken as a speed between 50 and 160000 steps/s.
pub accepted_speed-IsSpeed : (v : ℕ) → is_nan v ≡ false → IsSpeed (accepted_speed v)
unfolding accepted_speed
accepted_speed-IsSpeed v n = elim (Bool-cases (flt v min_speed_hz)) [
  | inl low ↦ rw low (unfold fle in (refl, refl))
  | inr fits ↦ rw fits (above v n fits)
]
  where
    above :
        (v : ℕ)
        → is_nan v ≡ false
        → flt v min_speed_hz ≡ false
        → IsSpeed (if flt abs_max_speed v then abs_max_speed else v)
    above v n fits = elim (Bool-cases (flt abs_max_speed v)) [
      | inl high ↦ rw high (unfold fle in (refl, refl))
      | inr ok ↦
          rw ok (not-flt→fle v min_speed_hz n refl fits, not-flt→fle abs_max_speed v refl n ok)
    ]

pub accepted_speed_kept : (v : ℕ) → IsSpeed v → accepted_speed v ≡ v
unfolding accepted_speed flt fle
accepted_speed_kept v h = ground arith

-- A NaN passes both tests, and is taken as the speed.
pub accepted_speed-nan : (v : ℕ) → is_nan v ≡ true → accepted_speed v ≡ v
unfolding accepted_speed flt
accepted_speed-nan v h = ground arith

-- A requested rate that is not a NaN is taken as a positive rate of at most 2666666 steps/s^2, if
-- the default is one.
pub accepted_rate-IsRate :
    (default v : ℕ) → IsRate default → is_nan v ≡ false → IsRate (accepted_rate default v)
unfolding accepted_rate flt fle
accepted_rate-IsRate default v d n = ground arith

pub accepted_rate-nan : (default v : ℕ) → is_nan v ≡ true → accepted_rate default v ≡ v
unfolding accepted_rate flt fle
accepted_rate-nan default v h = ground arith
