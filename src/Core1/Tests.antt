-- ===== src/Core1/Tests.antt =====
-- The theorems on core1/core1_main.c at concrete inputs.
use rp2350_zephyr_stepper.Prelude.{
  ℕ, ◌^◌, ◌≡◌, true, false, none, some, [], ◌∷◌, arith, refl, pos, negsuc, leb_ℤ, if◌then◌else◌,
  Bool-cases, inl, inr,
}
use rp2350_zephyr_stepper.Core1.Float.{Fpu, flt, fle}
use rp2350_zephyr_stepper.Core1.Float.Order.{fle_trans, flt→fle}
use rp2350_zephyr_stepper.Core1.Protocol.{cmd_speed, cmd_move}
use rp2350_zephyr_stepper.Core1.Board.{
  moving, Motion, Board, pushed, fifo_read_blocking, fifo_write_blocking,
}
use rp2350_zephyr_stepper.Core1.Motion.{
  initial_motion, min_speed_hz, def_accel, feed_step, feed, motion_start, delay_us,
}
use rp2350_zephyr_stepper.Core1.Motion.Speed.{IsIeee}
use rp2350_zephyr_stepper.Core1.Motion.Direction.{forward, made, move-made}
use rp2350_zephyr_stepper.Core1.Motion.Steps.{IsOver, feeds, move-IsOver}
use rp2350_zephyr_stepper.Core1.Motion.Delay.{Stops, delay_us-Waited}
use rp2350_zephyr_stepper.Core1.Motion.NanSpeed.{IsNanStrict, brake_limit, feed_step-nan}
use rp2350_zephyr_stepper.Core1.Commands.{handle_command, dispatch, handle_speed, get_motion}
use rp2350_zephyr_stepper.Core1.Commands.Ranges.{IsSpeed, IsRate}
use rp2350_zephyr_stepper.Core1.Commands.Requests.{move, Handled, Answered, handle_command-answer}
use rp2350_zephyr_stepper.Core1.Main.{Sdk, reset_board, core1_init, deliver, round, here, next}
use rp2350_zephyr_stepper.Core1.Main.Safety.{IsSafe, initial_motion-IsSafe, Reach-IsSafe}
use rp2350_zephyr_stepper.Core1.Main.Startup.{IsQuiet, core1_init-IsQuiet}

-- Operations that have the laws of the FPU that the theorems ask for.
abbrev toy : Fpu
toy = record {
  fadd = λ x d. if fle x d then d else x;
  fsub = λ x d. x;
  fmul = λ x y. y;
  fdiv = λ x y. y;
  fsqrt = λ x. x;
  to_int32 = λ x. pos 0;
  to_uint32 = λ x. x;
}

zero_below : (v : ℕ) → IsSpeed v → fle 0 v ≡ true
zero_below v s =
    let below : fle 0 min_speed_hz ≡ true = unfold fle in refl in
    fle_trans 0 min_speed_hz v below s.0

speed_self : (v : ℕ) → IsSpeed v → fle v v ≡ true
unfolding fle
speed_self v s = ground arith

add_above : (v d : ℕ) → IsSpeed v → fle v (if fle v d then d else v) ≡ true
add_above v d s = elim (Bool-cases (fle v d)) [
  | inl up ↦ rw up up
  | inr down ↦ rw down (speed_self v s)
]

toy-IsIeee : IsIeee toy
toy-IsIeee = record {
  square_nonneg = zero_below;
  double_nonneg = λ a r. flt→fle 0 a r.0;
  square_add_le = λ v d s h. add_above v d s;
  square_sub_le = λ v d s h. speed_self v s;
  sqrt_mono = λ x y h k. k;
  sqrt_square = λ v s. refl;
}

toy-IsNanStrict : IsNanStrict toy
toy-IsNanStrict = record { mul_nan = λ a b h. h; div_nan = λ a b h. h; sub_nan = λ a b h. h }

-- 100.0f, and a quiet NaN.
abbrev hundred : ℕ
hundred = 0x42c8_0000

abbrev nan : ℕ
nan = 0x7fc0_0000

hundred-IsSpeed : IsSpeed hundred
unfolding fle
hundred-IsSpeed = (refl, refl)

default-IsRate : IsRate def_accel
unfolding flt fle
default-IsRate = (refl, refl)

abbrev running : Motion
running = record initial_motion { state = moving; speed = hundred; remaining = pos 5 }

abbrev running_board : Board
running_board = record { m = running; rx = []; acts = [] }

abbrev asked : Board
asked = record reset_board { rx = cmd_speed ∷ hundred ∷ [] }

abbrev tuned : Board
tuned = elim (handle_command asked) [ some (_, b) ↦ b | none ↦ asked ]

handled : handle_command (feed toy 0 asked) ≡ some (tt, tuned)
unfolding feed handle_command dispatch handle_speed fifo_read_blocking fifo_write_blocking
    get_motion
handled = refl

Reach-IsSafe_example : IsSafe tuned.m
Reach-IsSafe_example =
    Reach-IsSafe toy-IsIeee
      (next
        (next (next here tt (deliver reset_board cmd_speed)) tt
          (deliver (record reset_board { rx = cmd_speed ∷ [] }) hundred))
        (λ h. refl) (round 0 asked tuned handled))
      initial_motion-IsSafe

move-IsOver_example : IsOver (feeds toy (4 ∷ 1 ∷ 4 ∷ []) (motion_start (negsuc 6) reset_board)) 7
move-IsOver_example =
    move-IsOver toy (negsuc 6) reset_board (4 ∷ 1 ∷ 4 ∷ []) (omega arith) (omega arith)
      (omega arith)

move-made_example :
    let after = (feeds toy (4 ∷ 1 ∷ 4 ∷ []) (motion_start (negsuc 6) reset_board)).acts in
    (made false after ≡ 7) × (made true after ≡ 0) × (forward after ≡ false)
move-made_example =
    move-made toy (negsuc 6) reset_board (4 ∷ 1 ∷ 4 ∷ []) (omega arith) (omega arith) (omega arith)

handle_command-answer_example :
    Handled
      (Answered (move 7) (record reset_board { rx = cmd_move ∷ 7 ∷ [] }) [])
      (handle_command (record reset_board { rx = cmd_move ∷ 7 ∷ [] }))
handle_command-answer_example =
    handle_command-answer (move 7) (record reset_board { rx = cmd_move ∷ 7 ∷ [] }) [] refl

delay_us-Waited_example : Stops (λ i. i) 3 5 4 (delay_us (λ i. i) 8 5 3)
delay_us-Waited_example =
    delay_us-Waited (λ i. i) 1 5 (λ i. (omega arith, omega arith)) (omega arith) 7 3 (omega arith)

abbrev nan_board : Board
nan_board = record running_board { m = record running { max_speed = nan } }

beyond_brake : leb_ℤ nan_board.m.remaining (toy.to_int32 (brake_limit toy nan_board.m)) ≡ false
beyond_brake = refl

feed_step-nan_example : pushed (feed_step toy nan_board).1.acts ≡ 0 ∷ []
feed_step-nan_example = feed_step-nan toy-IsNanStrict nan_board refl refl refl refl beyond_brake

abbrev sdk : Sdk
sdk = record {
  iso_bits = 0x100;
  funcsel_lsb = 0;
  reset_timer0_bits = 2 ^ 23;
  reset_pio0_bits = 2 ^ 11;
  stepper_program_instructions = 0x80a0 ∷ 0xa027 ∷ 0xb022 ∷ 0x1043 ∷ [];
  stepper_wrap = 3;
  stepper_wrap_target = 0;
}

core1_init-IsQuiet_example : IsQuiet (core1_init sdk reset_board).acts
core1_init-IsQuiet_example = core1_init-IsQuiet sdk
