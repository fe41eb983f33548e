-- ===== src/Core1/Float/Order.antt =====
-- The order of the float patterns: what the range checks of the firmware rely on.
use rp2350_zephyr_stepper.Prelude.{ℕ, ◌≡◌, true, false, arith}
use rp2350_zephyr_stepper.Core1.Float.{is_nan, flt, fle}

pub fle_trans : (a b c : ℕ) → fle a b ≡ true → fle b c ≡ true → fle a c ≡ true
unfolding fle
fle_trans a b c h k = ground arith

pub flt→fle : (a b : ℕ) → flt a b ≡ true → fle a b ≡ true
unfolding fle flt
flt→fle a b h = ground arith

pub not-flt→fle : (a b : ℕ) → is_nan a ≡ false → is_nan b ≡ false → flt a b ≡ false → fle b a ≡ true
unfolding fle flt
not-flt→fle a b h k l = ground arith

pub not-fle→flt : (a b : ℕ) → is_nan a ≡ false → is_nan b ≡ false → fle a b ≡ false → flt b a ≡ true
unfolding fle flt
not-fle→flt a b h k l = ground arith

pub fle_numbers : (a b : ℕ) → fle a b ≡ true → (is_nan a ≡ false) × (is_nan b ≡ false)
unfolding fle
fle_numbers a b h = ground arith

pub flt-nan_left : (a b : ℕ) → is_nan a ≡ true → flt a b ≡ false
unfolding flt
flt-nan_left a b h = ground arith

pub flt-nan_right : (a b : ℕ) → is_nan b ≡ true → flt a b ≡ false
unfolding flt
flt-nan_right a b h = ground arith

pub fle-nan_left : (a b : ℕ) → is_nan a ≡ true → fle a b ≡ false
unfolding fle
fle-nan_left a b h = ground arith

pub fle_refl : (a : ℕ) → is_nan a ≡ false → fle a a ≡ true
unfolding fle
fle_refl a h = ground arith
