-- ===== src/Core0/Tests.antt =====
-- The theorems on the application of core0 (src/) at concrete inputs.
use rp2350_zephyr_stepper.Prelude.{
  ◌+◌, ℕ, ◌≡◌, true, false, none, some, List, [], ◌∷◌, arith, refl, pos, negsuc,
}
use rp2350_zephyr_stepper.Core1.Float.{Fpu}
use rp2350_zephyr_stepper.Core1.Board.{moving}
use rp2350_zephyr_stepper.Core1.Motion.{initial_motion}
use rp2350_zephyr_stepper.Core1.Main.{reset_board}
use rp2350_zephyr_stepper.Core1.Commands.Requests.{speed}
use rp2350_zephyr_stepper.Core1.Motion.Steps.{feeds}
use rp2350_zephyr_stepper.Core1.Pio.Pulses.{pulses}
use rp2350_zephyr_stepper.Core0.Link.Pulses.{cmd_stepper_move-pulses}
use rp2350_zephyr_stepper.Core0.Mailbox.{
  ok, Core0, Mbox, shown_idle, shown_decel, shown_accel, shown_max_speed,
}
use rp2350_zephyr_stepper.Core0.Mailbox.Stale.{results, results-shifted}
use rp2350_zephyr_stepper.Core0.Stepper.{Libc, cmd_stepper_move, cmd_stepper_status}
use rp2350_zephyr_stepper.Core0.Link.{Wire, wire, ask, IsIdle, IsServed, ask-IsServed}
use rp2350_zephyr_stepper.Core0.Link.Moves.{
  IsMoved, cmd_stepper_move-IsMoved, IsRefused, cmd_stepper_move-busy,
}
use rp2350_zephyr_stepper.Core0.Link.Settings.{cmd_stepper_status-idle}
use rp2350_zephyr_stepper.Lan9250.Bus.Total.{IsTotal}
use rp2350_zephyr_stepper.Lan9250.Tests.{Toy, toy, toy-IsKernel}
use rp2350_zephyr_stepper.Core0.Ptp.{Port, no_flags, pps_arm_when_synced}
use rp2350_zephyr_stepper.Core0.Ptp.Arms.{pps_arm_when_synced-IsTotal}
use rp2350_zephyr_stepper.Core0.TxTest.{Iface, Sender, cmd_ptp_txtest}
use rp2350_zephyr_stepper.Core0.TxTest.Frame.{IsSent, cmd_ptp_txtest-IsSent}
use rp2350_zephyr_stepper.Core0.TxTest.Packets.{IsEven, cmd_ptp_txtest-IsEven}
use rp2350_zephyr_stepper.Core0.Hostname.{named, Names, set_unique_hostname}
use rp2350_zephyr_stepper.Core0.Hostname.Unique.{last_two, set_unique_hostname-inj}

-- An FPU that gives its first operand back.
abbrev fpu : Fpu
fpu = record {
  fadd = λ x y. x;
  fsub = λ x y. x;
  fmul = λ x y. x;
  fdiv = λ x y. x;
  fsqrt = λ x. x;
  to_int32 = λ x. pos 0;
  to_uint32 = λ x. x;
}

-- A library that reads every argument as 1.0f, and as minus seven steps.
abbrev libc : Libc
libc = record { strtof = λ s. 0x3f80_0000; strtol = λ s. negsuc 6; lroundf = λ x. pos 0 }

abbrev core0 : Core0 Wire
core0 = record {
  env = record { board = reset_board; rooms = 2 ∷ [] };
  reply_sem = 0;
  last_reply = 9;
  out = [];
}

core0-IsIdle : IsIdle core0
core0-IsIdle = record { none_waiting = refl; none_sent = refl }

ask-IsServed_example :
    IsServed fpu (speed 0x42c8_0000) core0 (ask (wire fpu) (speed 0x42c8_0000) core0)
ask-IsServed_example = ask-IsServed fpu (speed 0x42c8_0000) core0 core0-IsIdle

cmd_stepper_move-IsMoved_example :
    IsMoved fpu (negsuc 6) (4 ∷ 1 ∷ 4 ∷ []) core0 (cmd_stepper_move (wire fpu) libc [] core0)
cmd_stepper_move-IsMoved_example =
    cmd_stepper_move-IsMoved fpu libc [] (4 ∷ 1 ∷ 4 ∷ []) core0 core0-IsIdle refl (omega arith)
      (omega arith) (omega arith)

-- Five steps are left, and there is space for two.
abbrev busy : Core0 Wire
busy = record core0 {
  env = record {
    board = record reset_board { m = record initial_motion { state = moving; remaining = pos 5 } };
    rooms = 2 ∷ 4 ∷ [];
  };
}

cmd_stepper_move-busy_example : IsRefused fpu 2 5 0 busy (cmd_stepper_move (wire fpu) libc [] busy)
cmd_stepper_move-busy_example =
    cmd_stepper_move-busy fpu libc [] 5 0 busy (record { none_waiting = refl; none_sent = refl })
      (record { state = refl; left = refl; running = refl; count = refl }) (omega arith)
      (omega arith)

cmd_stepper_status-idle_example :
    let res = cmd_stepper_status (wire fpu) core0 in
    let m = initial_motion in
    (res.0 ≡ ok tt)
    × (res.1.out
        ≡ shown_idle ∷ shown_decel m.decel ∷ shown_accel m.accel ∷ shown_max_speed m.max_speed ∷ [])
    × (res.1.env.board.m ≡ m)
    × IsIdle res.1
cmd_stepper_status-idle_example = cmd_stepper_status-idle fpu core0 core0-IsIdle refl

-- A mailbox whose interrupts come in between the requests.
abbrev quiet_mbox : Mbox (Unit {0})
quiet_mbox = record {
  send = λ word e. (ok tt, [], e);
  sleep = λ e. (none, e);
  device_is_ready = λ e. true;
  register_callback = λ e. (ok tt, e);
  set_enabled = λ e. (ok tt, e);
}

results-shifted_example :
    results quiet_mbox
      (record { opcode = 5; payload = 1; reply = 70 }
        ∷ record { opcode = 5; payload = 2; reply = 80 }
        ∷ [])
      (record { env = tt; reply_sem = 1; last_reply = 60; out = [] })
    ≡ ok 60 ∷ ok 70 ∷ []
results-shifted_example =
    results-shifted {mbox = quiet_mbox} (record { sent = λ w e. refl; none_in = λ w e. refl })
      (record { opcode = 5; payload = 1; reply = 70 }
        ∷ record { opcode = 5; payload = 2; reply = 80 }
        ∷ [])
      (record { env = tt; reply_sem = 1; last_reply = 60; out = [] }) refl

abbrev unsynced : Port Toy
unsynced = record {
  device_is_ready = λ e. true;
  lookup_by_dev = λ e. some 1;
  sync_state = λ i e. (some no_flags, e);
}

pps_arm_when_synced-IsTotal_example : IsTotal toy (pps_arm_when_synced toy unsynced 121 60_000)
pps_arm_when_synced-IsTotal_example =
    pps_arm_when_synced-IsTotal toy toy-IsKernel unsynced (λ i e. omega arith) 120 60_000
      (omega arith)

abbrev board_addr : List ℕ
board_addr = 2 ∷ 0 ∷ 0 ∷ 0 ∷ 10 ∷ 255 ∷ []

abbrev lan : Iface (Unit {0})
lan = record {
  device_is_ready = λ e. true;
  lookup_by_dev = λ e. some 1;
  alloc = λ i n e. (some 40, e);
  write = λ p bytes e. (true, e);
  link_addr = λ i e. board_addr;
  send = λ i p e. (false, e);
}

abbrev sender : Sender (Unit {0})
sender = record { env = tt; seq_id = 0xffff; calls = [] }

cmd_ptp_txtest-IsSent_example : IsSent sender board_addr 40 (cmd_ptp_txtest lan sender)
cmd_ptp_txtest-IsSent_example =
    cmd_ptp_txtest-IsSent lan 1 40 board_addr sender
      (record {
        is_ready = λ e. refl;
        found = λ e. refl;
        has_packet = λ n e. refl;
        writes = λ bytes e. refl;
        address = λ e. refl;
        sends = λ e. refl;
      })
      refl (omega arith)

cmd_ptp_txtest-IsEven_example : IsEven 40 (cmd_ptp_txtest lan sender).1.calls
cmd_ptp_txtest-IsEven_example = cmd_ptp_txtest-IsEven lan 40 sender refl

abbrev names : Names
names = record { stepper_id = []; hostnames = [] }

same_id :
    (set_unique_hostname (0x73 ∷ []) (some (some (10 ∷ 255 ∷ []))) names).stepper_id
    ≡ (set_unique_hostname (0x73 ∷ []) (some (some board_addr)) names).stepper_id
unfolding set_unique_hostname named
same_id = refl

set_unique_hostname-inj_example : last_two (10 ∷ 255 ∷ []) ≡ last_two board_addr
set_unique_hostname-inj_example =
    set_unique_hostname-inj (0x73 ∷ []) (10 ∷ 255 ∷ []) board_addr names names (omega arith)
      (omega arith) (omega arith) (omega arith) (omega arith) (omega arith) same_id

cmd_stepper_move-pulses_example :
    let after =
      feeds fpu (4 ∷ 1 ∷ 4 ∷ []) (cmd_stepper_move (wire fpu) libc [] core0).1.env.board in
    pulses after.acts ≡ pulses [] + 7
cmd_stepper_move-pulses_example =
    cmd_stepper_move-pulses fpu libc [] (4 ∷ 1 ∷ 4 ∷ []) core0 core0-IsIdle refl (omega arith)
      (omega arith) (omega arith)
