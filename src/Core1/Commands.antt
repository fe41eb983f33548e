-- ===== src/Core1/Commands.antt =====
-- `handle_command` (core1/core1_main.c), a function for each case of its `switch`.
pub mod Ranges
pub mod Requests
use rp2350_zephyr_stepper.Prelude.{
  ℕ, true, ◌||◌, some, [], ◌∷◌, if◌then◌else◌, ◌==◌, ℤ, signed32, unsigned32,
}
use rp2350_zephyr_stepper.Core1.Float.{flt, fle, mbox_pack_float, mbox_unpack_float}
use rp2350_zephyr_stepper.Core1.Board.{
  Motion, is_moving, Cmd, pure, ◌>>=◌, ◌>>◌, set_motion, fifo_read_blocking, fifo_write_blocking,
}
use rp2350_zephyr_stepper.Core1.Protocol.{
  cmd_speed, cmd_accel, cmd_decel, cmd_move, cmd_stop, cmd_status, stepper_ack_ok, stepper_ack_busy,
  status_state, status_max_speed, status_accel, status_decel, status_speed, status_remaining,
}
use rp2350_zephyr_stepper.Core1.Motion.{
  min_speed_hz, abs_max_speed, abs_max_accel, def_accel, def_decel, motion_start,
}

-- The range checks of `CMD_SPEED`, `CMD_ACCEL` and `CMD_DECEL`.
unfoldable pub accepted_speed : ℕ → ℕ
accepted_speed v =
    if flt v min_speed_hz then min_speed_hz else if flt abs_max_speed v then abs_max_speed else v

unfoldable pub accepted_rate : ℕ → ℕ → ℕ
accepted_rate default v = if fle v 0 || flt abs_max_accel v then default else v

unfoldable pub get_motion : Cmd Motion
get_motion b = some (b.m, b)

unfoldable pub start : ℤ → Cmd (Unit {0})
start steps b = some (tt, motion_start steps b)

unfoldable pub handle_speed : Cmd (Unit {0})
unfolding get_motion
handle_speed = do
  w ← fifo_read_blocking
  m ← get_motion
  let v = accepted_speed (mbox_unpack_float w)
  set_motion (record m { max_speed = v })
  fifo_write_blocking (mbox_pack_float v)

unfoldable pub handle_accel : Cmd (Unit {0})
unfolding get_motion
handle_accel = do
  w ← fifo_read_blocking
  m ← get_motion
  let v = accepted_rate def_accel (mbox_unpack_float w)
  set_motion (record m { accel = v })
  fifo_write_blocking (mbox_pack_float v)

unfoldable pub handle_decel : Cmd (Unit {0})
unfolding get_motion
handle_decel = do
  w ← fifo_read_blocking
  m ← get_motion
  let v = accepted_rate def_decel (mbox_unpack_float w)
  set_motion (record m { decel = v })
  fifo_write_blocking (mbox_pack_float v)

unfoldable pub handle_move : Cmd (Unit {0})
unfolding get_motion start
handle_move = do
  w ← fifo_read_blocking
  m ← get_motion
  if is_moving m.state
      then fifo_write_blocking stepper_ack_busy
      else start (signed32 w) >> fifo_write_blocking stepper_ack_ok

unfoldable pub handle_stop : Cmd (Unit {0})
unfolding get_motion
handle_stop = do
  m ← get_motion
  set_motion (if is_moving m.state then record m { stop_req = true } else m)
  fifo_write_blocking stepper_ack_ok

unfoldable pub status_reply : Motion → ℕ → ℕ
status_reply m field =
    if field == status_state
    then (if is_moving m.state then 1 else 0)
    else if field == status_max_speed
    then mbox_pack_float m.max_speed
    else if field == status_accel
    then mbox_pack_float m.accel
    else if field == status_decel
    then mbox_pack_float m.decel
    else if field == status_speed
    then mbox_pack_float m.speed
    else if field == status_remaining
    then unsigned32 m.remaining
    else 0

unfoldable pub handle_status : Cmd (Unit {0})
unfolding get_motion
handle_status = do
  field ← fifo_read_blocking
  m ← get_motion
  fifo_write_blocking (status_reply m field)

-- The `switch` over the opcode; the last case is `default`.
unfoldable pub dispatch : ℕ → Cmd (Unit {0})
dispatch opcode =
    if opcode == cmd_speed
    then handle_speed
    else if opcode == cmd_accel
    then handle_accel
    else if opcode == cmd_decel
    then handle_decel
    else if opcode == cmd_move
    then handle_move
    else if opcode == cmd_stop
    then handle_stop
    else if opcode == cmd_status
    then handle_status
    else pure tt

-- With no word pending the handler returns at once.
unfoldable pub handle_command : Cmd (Unit {0})
handle_command b = elim b.rx [
  | [] ↦ some (tt, b)
  | opcode ∷ ws ↦ dispatch opcode (record b { rx = ws })
]
