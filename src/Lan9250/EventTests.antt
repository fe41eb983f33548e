-- ===== src/Lan9250/EventTests.antt =====
-- Events that come after or before their packets, and the lock, at concrete inputs.
use rp2350_zephyr_stepper.Prelude.{
  ℕ, ◌+◌, ◌≡◌, true, ◌∙◌, sym, leb, Bool, Option, none, some, List, [], ◌∷◌, ◌++◌, arith, refl,
  replicate, ◌==◌, if◌then◌else◌, get_or-replicate,
}
use rp2350_zephyr_stepper.Lan9250.World.{World, Hw, ok, err, initial_context, Pending, Unclaimed}
use rp2350_zephyr_stepper.Lan9250.Yields.{Yields}
use rp2350_zephyr_stepper.Lan9250.Bus.{
  put_le32, spi_write_dt, spi_transceive_dt, write_sys_reg, read_sys_reg, uptime_get,
}
use rp2350_zephyr_stepper.Lan9250.Bus.Total.{IsKernel}
use rp2350_zephyr_stepper.Lan9250.Clock.{bank_select, ieee1588_timestamping_init}
use rp2350_zephyr_stepper.Lan9250.TxTimestamps.{tx_timestamp_check}
use rp2350_zephyr_stepper.Lan9250.Locks.{Released, bank_lock-Released}
use rp2350_zephyr_stepper.Lan9250.Parse.{parse_header, parse_common}
use rp2350_zephyr_stepper.Lan9250.Slots.{expired, kept, find, target, first_free}
use rp2350_zephyr_stepper.Lan9250.Slots.Lookup.{Absent}
use rp2350_zephyr_stepper.Lan9250.Timestamps.{
  Capture, unref_all, rx_pending_expire, expire_ctx, summarised, read_capture, poll_rx_capture,
  stash, other_packet, match_other, match_capture, take_capture, hardware_event, take_unclaimed,
  attach, queued, unref_slot, enqueue, correlate, correlate_parsed, check_header,
  rx_timestamp_check,
}
use rp2350_zephyr_stepper.Lan9250.Timestamps.Stamps.{stamps}
use rp2350_zephyr_stepper.Lan9250.Timestamps.Sweep.{IsPtpFrame}
use rp2350_zephyr_stepper.Lan9250.Timestamps.Chip.{RxCaptures, IsFirst, IsCaptureChip, counted}
use rp2350_zephyr_stepper.Lan9250.Bus.Frames.{Access, store, fetch, decode, write_frame}
use rp2350_zephyr_stepper.Lan9250.Timestamps.Late.{rx_timestamp_check-late}
use rp2350_zephyr_stepper.Lan9250.Timestamps.Early.{rx_timestamp_check-early}
use rp2350_zephyr_stepper.Lan9250.Tests.{ok≢hang}

-- Delay_Req messages over Ethernet with a sequence number below 256.
abbrev delay_req : ℕ → List ℕ
delay_req seq_id =
    replicate 12 0
    ++ (0x88 ∷ 0xf7 ∷ 1 ∷ [])
    ++ replicate 29 0
    ++ (0 ∷ seq_id ∷ [])
    ++ replicate 12 0

-- The chip's bank select register, and the milliseconds.
record Port : Type 0 where
  bank : ℕ
  ms : ℕ

abbrev event : Capture
event = record { msg_type = 1; seq_id = 7; sec = 100; ns = 200 }

-- From the given moment on the chip has captured the event of packet 3; each register of each bank
-- holds another value.
abbrev word : ℕ → ℕ → Port → ℕ
word from a e =
    if e.bank == 0
    then (if leb from e.ms then 0x0021 else 0x0020)
    else if e.bank == 1
    then (if a == 0x0174 then 0x0001_0007 else if a == 0x016c then 100 else 200)
    else (if a == 0x0174 then 0x0002_0009 else if a == 0x016c then 300 else 400)

abbrev selected : Option Access → Port → Port
selected (some (store a v)) e = if a == 0x0154 then record e { bank = v } else e
selected _ e = e

abbrev fetched : ℕ → Option Access → Port → List ℕ
fetched from (some (fetch a)) e = put_le32 (word from a e)
fetched from _ e = []

-- Packet 3 has the sequence number 7, and every other one 8.
abbrev chip_from : ℕ → Hw Port
chip_from from = record {
  spi_write = λ bytes e. (ok tt, selected (decode bytes) e);
  spi_read = λ bytes n e. (ok (fetched from (decode bytes) e), e);
  uptime = λ e. e.ms;
  wait_ms = λ n e. record e { ms = e.ms + n };
  rx_alloc = λ n e. (none, e);
  pkt_append = λ p bytes e. e;
  pkt_read = λ p n e. ok (delay_req (if p == 3 then 7 else 8));
  pkt_len = λ p e. 0;
  recv_data = λ p e. (true, e);
  device_id = λ e. err 5;
  timestamp_thread = true;
  promiscuous_mode = true;
  buf_data_size = 128;
}

abbrev view : ℕ → Port → RxCaptures
view from e = record { bank = e.bank; events = if leb from e.ms then event ∷ [] else [] }

selected-ms : (access : Option Access) (e : Port) → (selected access e).ms ≡ e.ms
selected-ms none e = refl
selected-ms (some (fetch a)) e = refl
selected-ms (some (store a v)) e = ground arith

selected-IsFirst :
    (from : ℕ) (k : Capture) (access : Option Access) (e : Port)
    → IsFirst k (view from e)
    → IsFirst k (view from (selected access e))
selected-IsFirst from k access e f = rw (selected-ms access e) f

chip-IsKernel : (from : ℕ) → IsKernel (chip_from from)
chip-IsKernel from = record {
  write_returns = λ bytes e. ok≢hang tt;
  read_returns = λ bytes n e. ok≢hang (fetched from (decode bytes) e);
  write_time = λ bytes e. omega (arith, selected-ms (decode bytes) e);
  read_time = λ bytes n e. omega arith;
  wait_time = λ n e. omega arith;
}

-- The first event of this chip is the one that it can capture.
view-event : (from : ℕ) (k : Capture) (e : Port) → IsFirst k (view from e) → k ≡ event
view-event from k e (rest, f) = ground (arith, f)

chip-IsCaptureChip : (from : ℕ) → IsCaptureChip (chip_from from) (view from)
unfolding decode
chip-IsCaptureChip from = record {
  select_ok = λ bank e. refl;
  select_bank = λ bank e h. omega arith;
  select_first = λ bank k e f. selected-IsFirst from k (decode (write_frame 0x0154 bank)) e f;
  read_bank = λ a e. refl;
  read_first = λ a k e f. f;
  cap_info = λ e h. (word from 0x0160 e, refl, ground (arith, h), ground (arith, h));
  msg_header =
      λ k e h f. rw (view-event from k e f, h) (0x0001_0007, refl, omega arith, refl, refl);
  ingress_sec = λ k e h f. rw (view-event from k e f, h) (refl, omega arith);
  ingress_ns = λ k e h f. rw (view-event from k e f, h) (refl, omega arith);
}

none-Absent : {A : Type 0} (test : A → Bool) → Absent test (replicate 16 none)
none-Absent {A} test j a e =
    absurd (none≢some (sym (get_or-replicate {A = Option A} 16 j none) ∙ e))
  where
    none≢some : {B : Type 0} {b : B} → none ≡ some b → ⊥
    none≢some e = cc

frame_3 : (ms : ℕ) (w : World Port) → IsPtpFrame (chip_from ms) w 3 58 1 7
unfolding parse_header parse_common
frame_3 ms w = (delay_req 7, refl, refl)

frame_4 : (ms : ℕ) (w : World Port) → IsPtpFrame (chip_from ms) w 4 58 1 8
unfolding parse_header parse_common
frame_4 ms w = (delay_req 8, refl, refl)

abbrev now_at : ℕ → List (Option Pending) → List (Option Unclaimed) → World Port
now_at ms pending unclaimed = record {
  env = record { bank = 3; ms = ms };
  ctx = record initial_context { rx_pending = pending; rx_unclaimed = unclaimed };
  trace = [];
}

abbrev first : World Port
first = now_at 0 (replicate 16 none) (replicate 16 none)

-- Packet 3 waits, and then its event is kept.
abbrev waiting : List (Option Pending)
waiting = some (record { pkt = 3; msg_type = 1; seq_id = 7; deadline = 2000 }) ∷ replicate 15 none

abbrev kept_event : List (Option Unclaimed)
kept_event =
    some (record { msg_type = 1; seq_id = 7; sec = 100; ns = 200; deadline = 2000 })
    ∷ replicate 15 none

after_3 : waiting ≡ (rx_timestamp_check (chip_from 5) 3 58 first).1.ctx.rx_pending
unfolding rx_timestamp_check check_header correlate_parsed parse_header parse_common correlate
    uptime_get rx_pending_expire unref_all expired kept expire_ctx summarised attach find
    take_unclaimed hardware_event poll_rx_capture bank_select read_sys_reg write_sys_reg
    spi_write_dt spi_transceive_dt decode take_capture enqueue unref_slot target first_free queued
after_3 = refl

after_4 : kept_event ≡ (rx_timestamp_check (chip_from 0) 4 58 first).1.ctx.rx_unclaimed
unfolding rx_timestamp_check check_header correlate_parsed parse_header parse_common correlate
    uptime_get rx_pending_expire unref_all expired kept expire_ctx summarised attach find
    take_unclaimed hardware_event poll_rx_capture bank_select read_sys_reg write_sys_reg
    spi_write_dt spi_transceive_dt decode read_capture take_capture match_capture match_other
    other_packet stash enqueue unref_slot target first_free queued
after_4 = refl

-- Packet 4 comes in while packet 3 waits, and packet 3 while its event is kept.
abbrev late : World Port
late = now_at 10 waiting (replicate 16 none)

abbrev early : World Port
early = now_at 10 (replicate 16 none) kept_event

not_yet : (counted (chip_from 5) (view 5) first.env).events ≡ []
unfolding decode
not_yet = refl

rx_timestamp_check-late_example :
    Yields
      (λ _ w'. stamps w'.trace ≡ (3, 100, 200) ∷ [])
      (rx_timestamp_check (chip_from 5) 4 58 late)
rx_timestamp_check-late_example =
    rx_timestamp_check-late (chip_from 5) (view 5) (chip-IsCaptureChip 5) (chip-IsKernel 5) 3 event
      58 4 58 1 8 first late (frame_3 5 first) refl (none-Absent _) (none-Absent _) (omega arith)
      not_yet after_3 (omega arith) (frame_4 5 late) refl (none-Absent _) ([], refl)

rx_timestamp_check-early_example :
    Yields
      (λ _ w'. stamps w'.trace ≡ (3, 100, 200) ∷ [])
      (rx_timestamp_check (chip_from 0) 3 58 early)
rx_timestamp_check-early_example =
    rx_timestamp_check-early (chip_from 0) (view 0) (chip-IsCaptureChip 0) event (chip-IsKernel 0) 4
      58 1 8 3 58 first early (frame_4 0 first) refl (none-Absent _) (none-Absent _) (none-Absent _)
      (omega arith) ([], refl) after_4 (omega arith) (frame_3 0 early)

bank_lock-Released_example :
    Released 0 (rx_timestamp_check (chip_from 0) 3 58 first)
    × Released 0 (tx_timestamp_check (chip_from 0) 3 (delay_req 7) 58 first)
    × Released 0 (ieee1588_timestamping_init (chip_from 0) first)
bank_lock-Released_example =
    bank_lock-Released 0 (chip_from 0) (chip-IsKernel 0) 3 58 (delay_req 7) first (refl, refl)
