-- ===== src/Core0/Stepper.antt =====
-- The commands of the `stepper` shell (src/stepper_shell.c). The C library's `strtof`, `strtol` and
-- `lroundf` are a parameter; the argument is the text of `argv[1]`.
use rp2350_zephyr_stepper.Prelude.{
  ℕ, zero, suc, List, ◌==◌, if◌then◌else◌, ℤ, pos, negsuc, signed32, unsigned32,
}
use rp2350_zephyr_stepper.Core1.Float.{Fpu, mbox_pack_float, mbox_unpack_float}
use rp2350_zephyr_stepper.Core1.Protocol.{
  cmd_speed, cmd_accel, cmd_decel, cmd_move, cmd_stop, cmd_status, stepper_ack_busy, status_state,
  status_max_speed, status_accel, status_decel, status_speed, status_remaining,
}
use rp2350_zephyr_stepper.Core0.Mailbox.{
  Ret, ok, err, max_speed_set, accel_set, decel_set, shown_max_speed, shown_accel, shown_decel,
  moving_steps, shown_moving, shown_idle, stop_requested, no_response, zero_steps, already_moving,
  Core0, Mbox, Run, fail, say, ◌>>=◌, ◌>>◌, print, cmd_roundtrip0, cmd_roundtrip1,
}

-- `lroundf` gives a `long` of 32 bits, as `strtol` does.
pub record Libc : Type 0 where
  pub strtof : List ℕ → ℕ
  pub strtol : List ℕ → ℤ
  pub lroundf : ℕ → ℤ

-- 6773.3f
abbrev pub steps_per_inch : ℕ
steps_per_inch = 0x45d3_aa66

-- `return -1;`
abbrev pub failure : ℕ
failure = 1

module _ {E : Type 0} where
  -- `shell_error(sh, "core1 did not respond"); return -1;` after a failed round trip.
  abbrev pub or_no_response : Ret ℕ × Core0 E → Ret ℕ × Core0 E
  or_no_response (ok reply, s) = (ok reply, s)
  or_no_response (err e, s) = (err failure, say no_response s)

module _ {E : Type 0} (mbox : Mbox E) where
  unfoldable pub status_query : ℕ → Run E ℕ
  status_query field s = or_no_response (cmd_roundtrip1 mbox cmd_status field s)

  unfoldable pub cmd_stepper_speed : Libc → List ℕ → Run E (Unit {0})
  cmd_stepper_speed libc arg = do
    reply ←
        λ s. or_no_response (cmd_roundtrip1 mbox cmd_speed (mbox_pack_float (libc.strtof arg)) s)
    print (max_speed_set (mbox_unpack_float reply))

  unfoldable pub cmd_stepper_accel : Libc → List ℕ → Run E (Unit {0})
  cmd_stepper_accel libc arg = do
    reply ←
        λ s. or_no_response (cmd_roundtrip1 mbox cmd_accel (mbox_pack_float (libc.strtof arg)) s)
    print (accel_set (mbox_unpack_float reply))

  unfoldable pub cmd_stepper_decel : Libc → List ℕ → Run E (Unit {0})
  cmd_stepper_decel libc arg = do
    reply ←
        λ s. or_no_response (cmd_roundtrip1 mbox cmd_decel (mbox_pack_float (libc.strtof arg)) s)
    print (decel_set (mbox_unpack_float reply))

  -- The request of a move that is not zero.
  unfoldable pub request_move : ℤ → Run E (Unit {0})
  request_move steps = do
    reply ← λ s. or_no_response (cmd_roundtrip1 mbox cmd_move (unsigned32 steps) s)
    if reply == stepper_ack_busy
        then print already_moving >> fail failure
        else print (moving_steps steps)

  unfoldable pub move_steps : ℤ → Run E (Unit {0})
  unfolding request_move
  move_steps (pos zero) = print zero_steps >> fail failure
  move_steps (pos (suc n)) = request_move (pos (suc n))
  move_steps (negsuc n) = request_move (negsuc n)

  unfoldable pub cmd_stepper_move : Libc → List ℕ → Run E (Unit {0})
  unfolding move_steps
  cmd_stepper_move libc arg = move_steps (libc.strtol arg)

  unfoldable pub cmd_stepper_movein : Fpu → Libc → List ℕ → Run E (Unit {0})
  unfolding move_steps
  cmd_stepper_movein fpu libc arg =
      move_steps (libc.lroundf (fpu.fmul (libc.strtof arg) steps_per_inch))

  unfoldable pub cmd_stepper_stop : Run E (Unit {0})
  cmd_stepper_stop = do
    reply ← λ s. or_no_response (cmd_roundtrip0 mbox cmd_stop s)
    print stop_requested

  unfoldable pub cmd_stepper_status : Run E (Unit {0})
  unfolding status_query
  cmd_stepper_status = do
    state ← status_query status_state
    max_speed ← status_query status_max_speed
    accel ← status_query status_accel
    decel ← status_query status_decel
    speed ← status_query status_speed
    remaining ← status_query status_remaining
    print (shown_max_speed (mbox_unpack_float max_speed))
    print (shown_accel (mbox_unpack_float accel))
    print (shown_decel (mbox_unpack_float decel))
    if state == 0
        then print shown_idle
        else print (shown_moving (signed32 remaining) (mbox_unpack_float speed))
