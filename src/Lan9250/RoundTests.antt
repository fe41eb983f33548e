-- ===== src/Lan9250/RoundTests.antt =====
-- The theorems on the interrupt thread, the data FIFOs and the matching at concrete inputs.
use rp2350_zephyr_stepper.Prelude.{
  ℕ, ◌≤◌, ◌≡◌, ◌^◌, leb, true, Option, List, [], ◌∷◌, ◌++◌, arith, refl, replicate, if◌then◌else◌,
  min,
}
use rp2350_zephyr_stepper.Lan9250.World.{Hw, ok}
use rp2350_zephyr_stepper.Lan9250.Yields.{Yields}
use rp2350_zephyr_stepper.Lan9250.Regs.{int_en}
use rp2350_zephyr_stepper.Lan9250.Bus.{put_le32}
use rp2350_zephyr_stepper.Lan9250.Parse.{parse_header, parse_common, ptp}
use rp2350_zephyr_stepper.Lan9250.Timestamps.{rx_timestamp_check}
use rp2350_zephyr_stepper.Lan9250.Timestamps.Stamps.{stamps}
use rp2350_zephyr_stepper.Lan9250.Timestamps.Sweep.{event_at}
use rp2350_zephyr_stepper.Lan9250.Timestamps.Matched.{Matched}
use rp2350_zephyr_stepper.Lan9250.Timestamps.Matching.{rx_timestamp_check-Matched}
use rp2350_zephyr_stepper.Lan9250.Rx.Total.{IsStack}
use rp2350_zephyr_stepper.Lan9250.Init.{Platform, init, Locals, or_keep, thread_round}
use rp2350_zephyr_stepper.Lan9250.Init.Round.{enabled_at, LastWrite, thread_round-Yields}
use rp2350_zephyr_stepper.Lan9250.Init.Starts.{GetsReady, init-IsTotal}
use rp2350_zephyr_stepper.Lan9250.Bus.Total.{IsKernel, IsTotal}
use rp2350_zephyr_stepper.Lan9250.Tests.{ok≢hang, Toy, toy, world, toy-IsKernel}

toy-IsStack : IsStack toy
toy-IsStack = record {
  alloc_time = λ n e. omega arith;
  append_time = λ pkt bytes e. omega arith;
  recv_time = λ pkt e. omega arith;
}

abbrev first_round : Locals
first_round = record { int_status = 0; source = 0; enabled = 0 }

thread_round-Yields_example :
    Yields
      (λ l' w'.
        (toy.uptime world.env ≤ toy.uptime w'.env)
        × LastWrite int_en l'.enabled w'.trace
        × ((o : Option ℕ) × (enabled_at toy world ≡ ok o) × (l'.enabled ≡ or_keep 0 o)))
      (thread_round toy 5001 first_round world)
thread_round-Yields_example =
    thread_round-Yields toy toy-IsKernel 5001 (omega arith) toy-IsStack (omega arith) first_round
      world

-- A Delay_Req message over Ethernet with the sequence number 258.
abbrev delay_req : List ℕ
delay_req =
    replicate 12 0 ++ (0x88 ∷ 0xf7 ∷ 1 ∷ []) ++ replicate 29 0 ++ (1 ∷ 2 ∷ []) ++ replicate 12 0

-- A chip that has captured the event of this message.
abbrev timed : Hw Toy
timed = record toy {
  pkt_read = λ p n e. ok delay_req;
  spi_read = λ bytes n e. (ok (put_le32 0x0001_0102), e);
}

delay_req-ptp : parse_header delay_req (min 58 128) ≡ ptp 1 258
unfolding parse_header parse_common
delay_req-ptp = refl

rx_timestamp_check-Matched_example :
    Matched 3 1 258 world.ctx
      (event_at timed world)
      (stamps world.trace)
      (stamps (rx_timestamp_check timed 3 58 world).1.trace)
rx_timestamp_check-Matched_example =
    rx_timestamp_check-Matched timed 3 58 1 258 delay_req world refl delay_req-ptp

-- A chip that is ready from its fifth millisecond on.
abbrev slow : Hw Toy
slow = record toy { spi_read = λ bytes n e. (ok (put_le32 (if leb 5 e.ms then 2 ^ 27 else 0)), e) }

slow-IsKernel : IsKernel slow
slow-IsKernel = record {
  write_returns = λ bytes e. toy-IsKernel.write_returns bytes e;
  read_returns = λ bytes n e. ok≢hang (put_le32 (if leb 5 e.ms then 2 ^ 27 else 0));
  write_time = λ bytes e. omega arith;
  read_time = λ bytes n e. omega arith;
  wait_time = λ n e. omega arith;
}

slow-GetsReady : GetsReady slow 5
slow-GetsReady = record {
  answers =
      λ e h. let late : leb 5 e.ms ≡ true = ground arith in (put_le32 (2 ^ 27), rw late refl, refl);
}

abbrev pins : Platform
pins = record {
  spi_is_ready = true;
  interrupt_is_ready = true;
  interrupt_set_up = ok tt;
  has_reset = true;
  reset_is_ready = true;
  reset_configured = ok tt;
  devicetree_mac = replicate 6 2;
}

init-IsTotal_example : IsTotal slow (init slow 5001 6 pins)
init-IsTotal_example =
    init-IsTotal slow slow-IsKernel 5001 (omega arith) 5 slow-GetsReady 6 (omega arith) pins
      (ok≢hang tt) (ok≢hang tt)
