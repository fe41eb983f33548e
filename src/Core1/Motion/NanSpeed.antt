-- ===== src/Core1/Motion/NanSpeed.antt =====
-- What a NaN does to the motion profile.
use rp2350_zephyr_stepper.Prelude.{ℕ, ◌≡◌, true, false, arith, leb_ℤ, ◌∷◌, pos}
use rp2350_zephyr_stepper.Core1.Float.{Fpu, is_nan}
use rp2350_zephyr_stepper.Core1.Float.Order.{flt-nan_right}
use rp2350_zephyr_stepper.Core1.Board.{Motion, Board, moving, pushed}
use rp2350_zephyr_stepper.Core1.Motion.{
  pio_f_sys, min_speed_hz, float_one, float_two, float_three, hz_to_half_period, next_speed,
  pio_push_step, feed_step,
}

-- IEEE-754: an operation on a NaN gives a NaN.
pub record IsNanStrict (fpu : Fpu) : Type 0 where
  pub mul_nan : (a b : ℕ) → is_nan b ≡ true → is_nan (fpu.fmul a b) ≡ true
  pub div_nan : (a b : ℕ) → is_nan b ≡ true → is_nan (fpu.fdiv a b) ≡ true
  pub sub_nan : (a b : ℕ) → is_nan a ≡ true → is_nan (fpu.fsub a b) ≡ true

-- The steps that braking from the present speed takes, as `next_speed` computes it.
abbrev pub brake_limit : (fpu : Fpu) → Motion → ℕ
brake_limit fpu m =
    fpu.fadd
      (fpu.fdiv (fpu.fsub (fpu.fmul m.speed m.speed) (fpu.fmul min_speed_hz min_speed_hz))
        (fpu.fmul float_two m.decel))
      float_one

module _ {fpu : Fpu} (strict : IsNanStrict fpu) where
  half_period-nan : (v : ℕ) → is_nan v ≡ true → hz_to_half_period fpu v ≡ 0
  unfolding hz_to_half_period
  half_period-nan v h = ground (
    arith,
    strict.mul_nan float_two v h,
    strict.div_nan pio_f_sys (fpu.fmul float_two v),
    strict.sub_nan (fpu.fdiv pio_f_sys (fpu.fmul float_two v)) float_three,
    flt-nan_right 0 (fpu.fsub (fpu.fdiv pio_f_sys (fpu.fmul float_two v)) float_three),
  )

  next_speed-nan :
      (m : Motion)
      → is_nan m.max_speed ≡ true
      → leb_ℤ m.remaining (fpu.to_int32 (brake_limit fpu m)) ≡ false
      → next_speed fpu m ≡ m.max_speed
  unfolding next_speed
  next_speed-nan m n far = ground (arith, flt-nan_right m.speed m.max_speed n)

  -- If an operation of the FPU on a NaN gives a NaN, then with a NaN as speed limit a step of a
  -- move outside the braking distance is pushed with half period 0, the shortest pulse that the
  -- PIO program makes.
  pub feed_step-nan :
      (b : Board)
      → b.m.state ≡ moving
      → b.m.stop_req ≡ false
      → leb_ℤ b.m.remaining (pos 0) ≡ false
      → is_nan b.m.max_speed ≡ true
      → leb_ℤ b.m.remaining (fpu.to_int32 (brake_limit fpu b.m)) ≡ false
      → pushed (feed_step fpu b).1.acts ≡ 0 ∷ pushed b.acts
  unfolding feed_step pio_push_step
  feed_step-nan b mv run left n far =
      ground (arith, next_speed-nan b.m n far, half_period-nan b.m.max_speed n)
