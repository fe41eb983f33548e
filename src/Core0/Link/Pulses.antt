-- ===== src/Core0/Link/Pulses.antt =====
-- From the shell of core0 (src/stepper_shell.c) to the STEP pin (core1/stepper.pio).
use rp2350_zephyr_stepper.Prelude.{ℕ, ◌+◌, ◌^◌, ◌<◌, ◌≡◌, List, arith}
use rp2350_zephyr_stepper.Core1.Float.{Fpu}
use rp2350_zephyr_stepper.Core1.Board.{idle}
use rp2350_zephyr_stepper.Core1.Motion.Steps.{feeds, sum}
use rp2350_zephyr_stepper.Core1.Pio.Pulses.{pulses, pulses-pushed}
use rp2350_zephyr_stepper.Core0.Mailbox.{Core0}
use rp2350_zephyr_stepper.Core0.Stepper.{Libc, cmd_stepper_move}
use rp2350_zephyr_stepper.Core0.Link.{Wire, wire, IsIdle}
use rp2350_zephyr_stepper.Core0.Link.Moves.{size, cmd_stepper_move-IsMoved}

module _ (fpu : Fpu) where
  -- With both cores at rest, no reply waiting and no word on its way, `stepper move` of n steps in
  -- either direction, with 0 < n < 2^31, makes n pulses on the STEP pin: a PIO state machine
  -- through which all the words that core1 has pushed have gone has made n rising edges more than
  -- before the move, if the later rounds of core1's main loop offer space for more than n words
  -- and no command comes between them.
  pub cmd_stepper_move-pulses :
      (libc : Libc) (arg rooms : List ℕ) (s : Core0 Wire)
      → IsIdle s
      → s.env.board.m.state ≡ idle
      → 0 < size (libc.strtol arg)
      → size (libc.strtol arg) < 2 ^ 31
      → size (libc.strtol arg) < sum rooms
      → let after = feeds fpu rooms (cmd_stepper_move (wire fpu) libc arg s).1.env.board in
        pulses after.acts ≡ pulses s.env.board.acts + size (libc.strtol arg)
  cmd_stepper_move-pulses libc arg rooms s i halted some_steps in_range enough =
      let moved =
        cmd_stepper_move-IsMoved fpu libc arg rooms s i halted some_steps in_range enough in
      let after = feeds fpu rooms (cmd_stepper_move (wire fpu) libc arg s).1.env.board in
      omega (arith, pulses-pushed after.acts, pulses-pushed s.env.board.acts, moved.stepped.count)
