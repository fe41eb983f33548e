-- ===== src/Lan9250/Tests.antt =====
-- The theorems on the LAN9250 driver at concrete inputs, with a small chip behind the SPI port.
use rp2350_zephyr_stepper.Prelude.{
  ℕ, ◌-◌, ◌*◌, ◌/◌, ◌==◌, if◌then◌else◌, ◌+◌, ◌%◌, ◌≢◌, true, Option, none, some, List, [], ◌∷◌,
  ◌++◌, arith, refl, negsuc, replicate,
}
use rp2350_zephyr_stepper.Lan9250.World.{World, Hw, ok, err, hang, initial_context}
use rp2350_zephyr_stepper.Lan9250.Yields.{Yields}
use rp2350_zephyr_stepper.Lan9250.Bus.{put_le32}
use rp2350_zephyr_stepper.Lan9250.Bus.Total.{IsKernel}
use rp2350_zephyr_stepper.Lan9250.Bus.Frames.{Access, store, fetch, decode}
use rp2350_zephyr_stepper.Lan9250.Clock.{ptp_clock_adjust}
use rp2350_zephyr_stepper.Lan9250.Clock.Running.{span, ChipClock, shown_at, IsClockChip}
use rp2350_zephyr_stepper.Lan9250.Clock.Chip.{IsStepped, ptp_clock_adjust-Yields}
use rp2350_zephyr_stepper.Lan9250.Regs.{
  ieee1588_cmd_ctl, ieee1588_clock_sec, ieee1588_clock_ns, ieee1588_cmd_ctl_clock_load,
  ieee1588_cmd_ctl_clock_read,
}
use rp2350_zephyr_stepper.Lan9250.Parse.{parse_header, out_of_bounds}
use rp2350_zephyr_stepper.Lan9250.Parse.Bounds.{parse_header-InBounds}

-- The chip's clock, and the kernel's in milliseconds.
pub record Toy : Type 0 where
  pub clock : ChipClock
  pub ms : ℕ

-- An access takes 40 microseconds, and acts on the registers in their middle.
abbrev later : ChipClock → ChipClock
later c = record c { ticks = c.ticks + 20_000 }

abbrev commanded : ℕ → ChipClock → ChipClock
commanded v c =
    let now = shown_at c c.ticks in
    if v == ieee1588_cmd_ctl_clock_read
    then record c { sec_reg = now / 1_000_000_000; ns_reg = now % 1_000_000_000 }
    else if v == ieee1588_cmd_ctl_clock_load
    then record c { phase = c.sec_reg * 1_000_000_000 + c.ns_reg + (span - c.ticks % span) }
    else c

abbrev acted : Option Access → ChipClock → ChipClock
acted (some (store a v)) c =
    if a == ieee1588_clock_sec
    then record c { sec_reg = v }
    else if a == ieee1588_clock_ns
    then record c { ns_reg = v }
    else if a == ieee1588_cmd_ctl
    then commanded v c
    else c
acted _ c = c

abbrev pub fetched : Option Access → ChipClock → List ℕ
fetched (some (fetch a)) c = put_le32 (if a == ieee1588_clock_sec then c.sec_reg else c.ns_reg)
fetched _ c = []

abbrev pub toy : Hw Toy
toy = record {
  spi_write = λ bytes e. (ok tt, record e { clock = later (acted (decode bytes) (later e.clock)) });
  spi_read = λ bytes n e. (ok (fetched (decode bytes) e.clock), record e { clock = later e.clock });
  uptime = λ e. e.ms;
  wait_ms = λ n e. record e { ms = e.ms + n };
  rx_alloc = λ n e. (none, e);
  pkt_append = λ p bytes e. e;
  pkt_read = λ p n e. err 5;
  pkt_len = λ p e. 0;
  recv_data = λ p e. (true, e);
  device_id = λ e. err 5;
  timestamp_thread = true;
  promiscuous_mode = true;
  buf_data_size = 128;
}

pub ok≢hang : {A : Type 0} (a : A) → ok a ≢ hang
ok≢hang a e = cc

pub toy-IsKernel : IsKernel toy
toy-IsKernel = record {
  write_returns = λ bytes e. ok≢hang tt;
  read_returns = λ bytes n e. ok≢hang (fetched (decode bytes) e.clock);
  write_time = λ bytes e. omega arith;
  read_time = λ bytes n e. omega arith;
  wait_time = λ n e. omega arith;
}

abbrev view : Toy → ChipClock
view e = e.clock

toy-IsClockChip : IsClockChip toy view
unfolding decode
toy-IsClockChip = record {
  store_ok = λ a v e h k. refl;
  store_sec = λ v e h. ((refl, omega arith), omega arith, refl);
  store_ns = λ v e h. ((refl, omega arith), refl, omega arith);
  clock_read = λ e. record {
    moment = e.clock.ticks + 20_000;
    since = omega arith;
    until = omega arith;
    phase = refl;
    sec_reg = refl;
    ns_reg = refl;
  };
  clock_load = λ e. record {
    moment = e.clock.ticks + 20_000;
    since = omega arith;
    until = omega arith;
    shown = omega arith;
  };
  fetch_sec = λ e. refl;
  fetch_ns = λ e. refl;
  fetch_view = λ a e. ((refl, omega arith), refl, refl);
}

-- One nanosecond before the second counter wraps around.
abbrev pub world : World Toy
world = record {
  env = record { clock = record { sec_reg = 0; ns_reg = 0; phase = span - 1; ticks = 0 }; ms = 0 };
  ctx = initial_context;
  trace = [];
}

ptp_clock_adjust-Yields_example :
    Yields
      (λ _ w'. IsStepped (negsuc 2) (view world.env) (view w'.env))
      (ptp_clock_adjust toy (negsuc 2) world)
ptp_clock_adjust-Yields_example =
    ptp_clock_adjust-Yields toy view toy-IsClockChip (negsuc 2) world (omega arith)

-- A frame of 14 bytes that ends behind its EtherType.
abbrev cut_off : List ℕ
cut_off = replicate 12 0 ++ (0x88 ∷ 0xf7 ∷ [])

parse_header-InBounds_example : parse_header cut_off 14 ≢ out_of_bounds
parse_header-InBounds_example = parse_header-InBounds cut_off 14 (omega arith)
