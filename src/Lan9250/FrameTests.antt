-- ===== src/Lan9250/FrameTests.antt =====
-- The theorems on frames, timestamps and the filter at concrete inputs.
use rp2350_zephyr_stepper.Prelude.{
  ℕ, ◌+◌, ◌*◌, ◌^◌, ◌≡◌, List, [], ◌∷◌, ◌++◌, arith, refl, inl, replicate, bit_and,
}
use rp2350_zephyr_stepper.Lan9250.Bus.Frames.{decode}
use rp2350_zephyr_stepper.Lan9250.Parse.{parse_header, ptp}
use rp2350_zephyr_stepper.Lan9250.Parse.Accepts.{over_udp, parse_header-ptp}
use rp2350_zephyr_stepper.Lan9250.Timestamps.{rx_timestamp_check}
use rp2350_zephyr_stepper.Lan9250.Timestamps.Refs.{IsKeeping}
use rp2350_zephyr_stepper.Lan9250.Timestamps.Balance.{rx_timestamp_check-IsKeeping}
use rp2350_zephyr_stepper.Lan9250.Rx.{end_pad, drop_frame}
use rp2350_zephyr_stepper.Lan9250.Rx.Drain.{IsReader, Drains, drop_frame-Drains}
use rp2350_zephyr_stepper.Lan9250.Filter.{mcast_hash_bit, ether_crc, crc_bytes, crc_bits}
use rp2350_zephyr_stepper.Lan9250.Init.{ieee1588_setup}
use rp2350_zephyr_stepper.Lan9250.Init.Order.{Last, ieee1588_setup-Last}
use rp2350_zephyr_stepper.Lan9250.Tests.{toy, world, fetched}

rx_timestamp_check-IsKeeping_example : IsKeeping 3 (rx_timestamp_check toy 3 128)
rx_timestamp_check-IsKeeping_example = rx_timestamp_check-IsKeeping 3 toy 3 128

toy-IsReader : IsReader toy
toy-IsReader = record { reads = λ bytes n e. (fetched (decode bytes) e.clock, refl) }

drop_frame-Drains_example : Drains (1514 + end_pad 1514) world (drop_frame toy 1514 world)
drop_frame-Drains_example = drop_frame-Drains toy toy-IsReader 1514 world (omega arith)

-- The group address of all hosts, and its bucket.
abbrev all_hosts : List ℕ
all_hosts = 0x01 ∷ 0x00 ∷ 0x5e ∷ 0x00 ∷ 0x00 ∷ 0x01 ∷ []

abbrev no_groups : List ℕ
no_groups = replicate 64 0

bucket : mcast_hash_bit all_hosts ≡ 54
unfolding mcast_hash_bit ether_crc crc_bytes crc_bits
bucket = refl

-- A PTP message over UDP: message type 9, sequence number 258.
abbrev message : List ℕ
message =
    replicate 12 0
    ++ (0x08 ∷ 0x00 ∷ 0x45 ∷ [])
    ++ replicate 8 0
    ++ (0x11 ∷ [])
    ++ replicate 12 0
    ++ (1 ∷ 63 ∷ [])
    ++ replicate 4 0
    ++ (0x09 ∷ [])
    ++ replicate 29 0
    ++ (1 ∷ 2 ∷ [])

parse_header-ptp_example : parse_header message 80 ≡ ptp (bit_and 0x09 0x0f) (1 * 2 ^ 8 + 2)
parse_header-ptp_example =
    parse_header-ptp message 80 42 0x09 1 2
      (over_udp 0x45 1 63 refl refl refl (omega arith) refl refl refl (inl refl)) (omega arith) refl
      refl refl

ieee1588_setup-Last_example : Last 0 (ieee1588_setup toy 5001 world).1.trace
ieee1588_setup-Last_example = ieee1588_setup-Last toy 5001 world
