-- ===== src/Core1/Float.antt =====
-- IEEE-754 binary32 as the firmware uses it. A `float` is its bit pattern, so that
-- `mbox_pack_float` and `mbox_unpack_float` (core1/mailbox_proto.h) are the identity on patterns,
-- and the comparisons are those of C. The arithmetic of the FPU is a parameter, `Fpu`.
pub mod Order
use rp2350_zephyr_stepper.Prelude.{
  ℕ, ◌-◌, ◌^◌, ◌%◌, Bool, ◌&&◌, not, ltb, if◌then◌else◌, ℤ, pos, sub_ℕ, ltb_ℤ, leb_ℤ,
}

-- The pattern is a NaN: the exponent is all ones and the fraction is not zero.
abbrev pub is_nan : ℕ → Bool
is_nan u = ltb 0x7f80_0000 (u % 2 ^ 31)

-- The place of a pattern in the order of the numbers: sign and magnitude, with -0 equal to +0.
abbrev pub ordinal : ℕ → ℤ
ordinal u = if ltb u (2 ^ 31) then pos u else sub_ℕ 0 (u - 2 ^ 31)

-- `a < b` and `a <= b` in C: false as soon as one side is a NaN.
unfoldable pub flt : ℕ → ℕ → Bool
flt a b = not (is_nan a) && not (is_nan b) && ltb_ℤ (ordinal a) (ordinal b)

unfoldable pub fle : ℕ → ℕ → Bool
fle a b = not (is_nan a) && not (is_nan b) && leb_ℤ (ordinal a) (ordinal b)

-- The union casts of the mailbox: the bits stay.
abbrev pub mbox_pack_float : ℕ → ℕ
mbox_pack_float f = f

abbrev pub mbox_unpack_float : ℕ → ℕ
mbox_unpack_float u = u

-- The floating-point unit: the operators of C on `float`, `vsqrt.f32`, and the two conversions.
pub record Fpu : Type 0 where
  pub fadd : ℕ → ℕ → ℕ
  pub fsub : ℕ → ℕ → ℕ
  pub fmul : ℕ → ℕ → ℕ
  pub fdiv : ℕ → ℕ → ℕ
  pub fsqrt : ℕ → ℕ
  pub to_int32 : ℕ → ℤ
  pub to_uint32 : ℕ → ℕ
