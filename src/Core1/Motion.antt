-- ===== src/Core1/Motion.antt =====
-- The motion profile and the STEP feed (core1/core1_main.c).
pub mod Speed
pub mod Steps
pub mod Direction
pub mod Delay
pub mod NanSpeed
use rp2350_zephyr_stepper.Prelude.{
  ℕ, zero, suc, ◌+◌, ◌^◌, ◌-◌, ◌%◌, Bool, true, false, ◌||◌, ◌&&◌, ◌∷◌, if◌then◌else◌, ltb, Option,
  none, some, ℤ, pos, ◌-ℤ◌, leb_ℤ, ltb_ℤ, wrap32,
}
use rp2350_zephyr_stepper.Core1.Float.{Fpu, flt}
use rp2350_zephyr_stepper.Core1.Board.{
  idle, moving, Motion, is_moving, Board, sio_out_set, sio_out_clr, pio_txf0, delay, write_reg,
}

-- The constants, as float patterns.
abbrev pub pio_f_sys : ℕ
pio_f_sys = 0x4d0f_0d18

abbrev pub min_speed_hz : ℕ
min_speed_hz = 0x4248_0000

abbrev pub abs_max_speed : ℕ
abs_max_speed = 0x481c_4000

abbrev pub abs_max_accel : ℕ
abs_max_accel = 0x4a22_c2a8

abbrev pub def_max_speed : ℕ
def_max_speed = 0x47c3_5000

abbrev pub def_accel : ℕ
def_accel = 0x4974_2400

abbrev pub def_decel : ℕ
def_decel = 0x4974_2400

abbrev pub float_one : ℕ
float_one = 0x3f80_0000

abbrev pub float_two : ℕ
float_two = 0x4000_0000

abbrev pub float_three : ℕ
float_three = 0x4040_0000

abbrev pub pin_enable : ℕ
pin_enable = 13

abbrev pub pin_dir : ℕ
pin_dir = 14

abbrev pub pin_step : ℕ
pin_step = 15

-- The initial value of `M`.
abbrev pub initial_motion : Motion
initial_motion = record {
  state = idle;
  max_speed = def_max_speed;
  accel = def_accel;
  decel = def_decel;
  speed = 0;
  remaining = pos 0;
  stop_req = false;
}

-- `while ((uint32_t)(now_us() - start) < us)`: `timer i` is the true time, in microseconds, of the
-- i-th reading of TIMERAWL, which shows it modulo 2 ^ 32. The result is the reading that ends the
-- loop; `none` means that the fuel ran out.
unfoldable pub now_us : (ℕ → ℕ) → ℕ → ℕ
now_us timer i = timer i % 2 ^ 32

unfoldable pub delay_loop : (ℕ → ℕ) → ℕ → ℕ → ℕ → ℕ → Option ℕ
unfolding now_us
delay_loop timer zero start us i = none
delay_loop timer (suc fuel) start us i =
    let rest = delay_loop timer fuel start us (i + 1) in
    if ltb ((now_us timer i + 2 ^ 32 - start) % 2 ^ 32) us then rest else some i

unfoldable pub delay_us : (ℕ → ℕ) → ℕ → ℕ → ℕ → Option ℕ
unfolding delay_loop
delay_us timer fuel us i = delay_loop timer fuel (now_us timer i) us (i + 1)

module _ (fpu : Fpu) where
  open fpu use {fadd, fsub, fmul, fdiv, fsqrt, to_int32, to_uint32}

  unfoldable pub hz_to_half_period : ℕ → ℕ
  hz_to_half_period hz =
      let half_period = fsub (fdiv pio_f_sys (fmul float_two hz)) float_three in
      if flt 0 half_period then to_uint32 half_period else 0

  unfoldable pub pio_push_step : ℕ → Board → Board
  pio_push_step hz b = write_reg pio_txf0 (hz_to_half_period hz) b

  unfoldable pub next_speed : Motion → ℕ
  next_speed m =
      let v = m.speed in
      let vmax = m.max_speed in
      let vmin = min_speed_hz in
      let brake_steps = fdiv (fsub (fmul v v) (fmul vmin vmin)) (fmul float_two m.decel) in
      let slower = fsub (fmul v v) (fmul float_two m.decel) in
      let faster = fadd (fmul v v) (fmul float_two m.accel) in
      if leb_ℤ m.remaining (to_int32 (fadd brake_steps float_one))
      then (if flt (fmul vmin vmin) slower then fsqrt slower else vmin)
      else if flt v vmax
      then (if flt faster (fmul vmax vmax) then fsqrt faster else vmax)
      else vmax

  -- The result is the `int` of the C function: whether a step was pushed.
  unfoldable pub feed_step : Board → Bool × Board
  feed_step b =
      let speed = next_speed b.m in
      let b' = record b { m = record m { speed = speed } } in
      let b'' = pio_push_step speed b' in
      if is_moving m.state
      then (if m.stop_req || leb_ℤ m.remaining (pos 0)
          then (false, record b { m = record m { state = idle; speed = 0; stop_req = false } })
          else (
            true,
            record b'' { m = record m { speed = speed; remaining = m.remaining -ℤ pos 1 } },
          ))
      else (false, b)
    where
      open b use {m}

  -- `while (!pio_tx_full()) if (!feed_step()) break;` where `pio_tx_full` answers no `room` times
  -- and then yes.
  unfoldable pub feed_loop : ℕ → Board → Board
  feed_loop zero b = b
  feed_loop (suc room) b =
      let (fed, b') = feed_step b in elim fed [ true ↦ feed_loop room b' | false ↦ b' ]

  -- The first half of an iteration of the main loop.
  unfoldable pub feed : ℕ → Board → Board
  feed room b = if is_moving b.m.state then feed_loop room b else b

unfoldable pub motion_start : ℤ → Board → Board
motion_start steps b =
    let forward = ltb_ℤ (pos 0) steps in
    let out = if forward then sio_out_set else sio_out_clr in
    let b' = write_reg out (2 ^ pin_dir) b in
    if leb_ℤ steps (pos 0) && leb_ℤ (pos 0) steps then b else record b' {
      acts = delay 5 ∷ b'.acts;
      m = record b.m {
        remaining = if forward then steps else wrap32 (pos 0 -ℤ steps);
        speed = min_speed_hz;
        stop_req = false;
        state = moving;
      };
    }
