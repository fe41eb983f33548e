-- ===== src/Core1/Protocol.antt =====
-- The opcodes, acknowledgements and status fields of the mailbox (core1/mailbox_proto.h).
use rp2350_zephyr_stepper.Prelude.{ℕ}

abbrev pub cmd_speed : ℕ
cmd_speed = 0

abbrev pub cmd_accel : ℕ
cmd_accel = 1

abbrev pub cmd_decel : ℕ
cmd_decel = 2

abbrev pub cmd_move : ℕ
cmd_move = 3

abbrev pub cmd_stop : ℕ
cmd_stop = 4

abbrev pub cmd_status : ℕ
cmd_status = 5

abbrev pub stepper_ack_ok : ℕ
stepper_ack_ok = 0

abbrev pub stepper_ack_busy : ℕ
stepper_ack_busy = 1

abbrev pub status_state : ℕ
status_state = 0

abbrev pub status_max_speed : ℕ
status_max_speed = 1

abbrev pub status_accel : ℕ
status_accel = 2

abbrev pub status_decel : ℕ
status_decel = 3

abbrev pub status_speed : ℕ
status_speed = 4

abbrev pub status_remaining : ℕ
status_remaining = 5
