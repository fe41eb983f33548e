-- ===== src/Lan9250/FilterTests.antt =====
-- The hash filter at a concrete input, on a chip that is nothing but its MAC registers.
use rp2350_zephyr_stepper.Prelude.{
  ℕ, ◌≡◌, ◌<◌, Option, none, some, List, [], ◌∷◌, arith, refl, ap, replicate, ◌==◌, if◌then◌else◌,
  true, false,
}
use rp2350_zephyr_stepper.Lan9250.World.{World, Hw, ok, err, initial_context}
use rp2350_zephyr_stepper.Lan9250.Bus.Frames.{Access, store, decode, decode-write}
use rp2350_zephyr_stepper.Lan9250.Bus.Mac.{MacRegs, mac_store, IsMacChip}
use rp2350_zephyr_stepper.Lan9250.Filter.{
  mcast_hash_bit, ether_crc, crc_bytes, crc_bits, set_config, filter_dst,
}
use rp2350_zephyr_stepper.Lan9250.Filter.Counts.{in_bucket}
use rp2350_zephyr_stepper.Lan9250.Filter.Hash.{hash_bit}
use rp2350_zephyr_stepper.Lan9250.Filter.Chip.{
  Joined, started, joined, left, chip_table, Joined-hash_bit,
}

abbrev stored : Option Access → MacRegs → MacRegs
stored (some (store a v)) m = mac_store a v m
stored _ m = m

abbrev mac_chip : Hw MacRegs
mac_chip = record {
  spi_write = λ bytes m. (ok tt, stored (decode bytes) m);
  spi_read = λ bytes n m. (ok (replicate 4 0), m);
  uptime = λ m. 0;
  wait_ms = λ n m. m;
  rx_alloc = λ n m. (none, m);
  pkt_append = λ p bytes m. m;
  pkt_read = λ p n m. err 5;
  pkt_len = λ p m. 0;
  recv_data = λ p m. (true, m);
  device_id = λ m. err 5;
  timestamp_thread = false;
  promiscuous_mode = false;
  buf_data_size = 128;
}

abbrev regs_of : MacRegs → MacRegs
regs_of m = m

mac_chip-IsMacChip : IsMacChip mac_chip regs_of
mac_chip-IsMacChip = record {
  store_ok = λ a v m h k. refl;
  store_view = λ a v m h k. ap (λ access. stored access m) (decode-write a v h k);
  idle = λ m. (replicate 4 0, refl, refl);
  idle_view = λ m. refl;
}

abbrev cleared : World MacRegs
cleared = record { env = record { data_reg = 0; regs = λ r. 0 }; ctx = initial_context; trace = [] }

-- The group addresses of all hosts and of mDNS.
abbrev all_hosts : List ℕ
all_hosts = 0x01 ∷ 0x00 ∷ 0x5e ∷ 0x00 ∷ 0x00 ∷ 0x01 ∷ []

abbrev mdns : List ℕ
mdns = 0x01 ∷ 0x00 ∷ 0x5e ∷ 0x00 ∷ 0x00 ∷ 0xfb ∷ []

room : in_bucket (mcast_hash_bit mdns) (all_hosts ∷ []) < 255
unfolding mcast_hash_bit ether_crc crc_bytes crc_bits
room = omega arith

abbrev configure : World MacRegs → World MacRegs
configure w =
    let w1 = (set_config mac_chip 1 (filter_dst true all_hosts) w).1 in
    let w2 = (set_config mac_chip 1 (filter_dst true mdns) w1).1 in
    (set_config mac_chip 1 (filter_dst false all_hosts) w2).1

-- Both groups are joined, and the first is left again.
steps : Joined mac_chip regs_of 1 (mdns ∷ []) (configure cleared)
steps =
    left (mdns ∷ []) all_hosts [] refl
      (joined mdns refl room (joined all_hosts refl (omega arith) (started refl refl refl)))

Joined-hash_bit_example :
    hash_bit (chip_table (configure cleared).env) (mcast_hash_bit mdns)
    ≡ (if in_bucket (mcast_hash_bit mdns) (mdns ∷ []) == 0 then 0 else 1)
Joined-hash_bit_example =
    Joined-hash_bit mac_chip regs_of mac_chip-IsMacChip 1 (omega arith) mdns steps
