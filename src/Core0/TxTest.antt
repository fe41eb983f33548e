-- ===== src/Core0/TxTest.antt =====
-- `ptp txtest` (src/ptp_shell.c): a PTP Sync frame over Ethernet goes out through Zephyr's network
-- interface, which is a parameter over an environment that no code here looks into.
pub mod Frame
pub mod Packets
use rp2350_zephyr_stepper.Prelude.{
  ℕ, suc, ◌/◌, ◌%◌, ◌^◌, ◌+◌, Bool, Option, none, some, List, [], ◌∷◌, if◌then◌else◌, set,
  replicate,
}
use rp2350_zephyr_stepper.Lan9250.World.{Ret, ok, err, enodev, eio}

abbrev pub enomem : ℕ
enomem = 12

-- NET_ETH_PTYPE_PTP
abbrev pub net_eth_ptype_ptp : ℕ
net_eth_ptype_ptp = 0x88f7

abbrev pub l2_ptp_mcast : List ℕ
l2_ptp_mcast = 0x01 ∷ 0x1b ∷ 0x19 ∷ 0x00 ∷ 0x00 ∷ 0x00 ∷ []

-- The packet calls. An attempt to send says whether the packet was dropped.
pub data PktCall : Type 0 where
  pkt_alloc pkt_unref : ℕ → PktCall
  pkt_write : ℕ → List ℕ → PktCall
  set_header : ℕ → ℕ → List ℕ → List ℕ → PktCall
  try_send : ℕ → Bool → PktCall

-- `net_pkt_alloc_with_buffer`, `net_pkt_write` (false for an error), `net_if_get_link_addr`, and
-- `net_if_try_send_data` (true for NET_DROP).
pub record Iface (E : Type 0) : Type 0 where
  pub device_is_ready : E → Bool
  pub lookup_by_dev : E → Option ℕ
  pub alloc : ℕ → ℕ → E → Option ℕ × E
  pub write : ℕ → List ℕ → E → Bool × E
  pub link_addr : ℕ → E → List ℕ
  pub send : ℕ → ℕ → E → Bool × E

-- The static `seq_id`, and the calls, newest first.
pub record Sender (E : Type 0) : Type 0 where
  pub env : E
  pub seq_id : ℕ
  pub calls : List PktCall

-- `sys_put_be16(v, &bytes[i])`
abbrev pub put_be16_at : ℕ → ℕ → List ℕ → List ℕ
put_be16_at v i bytes = set (set bytes i (v / 2 ^ 8 % 2 ^ 8)) (i + 1) (v % 2 ^ 8)

abbrev pub ptp_payload : ℕ → List ℕ
ptp_payload seq_id =
    put_be16_at seq_id 30 (put_be16_at 44 2 (set (set (replicate 32 0) 0 0x00) 1 0x02))

module _ {E : Type 0} where
  abbrev pub logged : PktCall → Sender E → Sender E
  logged c s = record s { calls = c ∷ s.calls }

  abbrev pub unref_and_fail : ℕ → ℕ → Sender E → Ret (Unit {0}) × Sender E
  unref_and_fail pkt e s = (err e, logged (pkt_unref pkt) s)

module _ {E : Type 0} (net : Iface E) where
  -- From `net_if_try_send_data` on.
  unfoldable pub send_packet : ℕ → ℕ → Sender E → Ret (Unit {0}) × Sender E
  send_packet iface pkt s =
      let (dropped, e) = net.send iface pkt s.env in
      let s' : Sender E = logged (try_send pkt dropped) (record s { env = e }) in
      if dropped
      then unref_and_fail pkt eio s'
      else (ok tt, record s' { seq_id = suc s.seq_id % 2 ^ 16 })

  -- From `net_pkt_write` on.
  unfoldable pub fill_packet : ℕ → ℕ → Sender E → Ret (Unit {0}) × Sender E
  unfolding send_packet
  fill_packet iface pkt s =
      let (written, e) = net.write pkt (ptp_payload s.seq_id) s.env in
      let s' : Sender E = logged (pkt_write pkt (ptp_payload s.seq_id)) (record s { env = e }) in
      if written
      then send_packet iface pkt
          (logged (set_header pkt net_eth_ptype_ptp (net.link_addr iface s'.env) l2_ptp_mcast) s')
      else unref_and_fail pkt eio s'

  -- What follows the allocation.
  unfoldable pub with_packet : ℕ → Option ℕ → Sender E → Ret (Unit {0}) × Sender E
  unfolding fill_packet
  with_packet iface none s = (err enomem, s)
  with_packet iface (some pkt) s = fill_packet iface pkt (logged (pkt_alloc pkt) s)

  unfoldable pub with_iface : Option ℕ → Sender E → Ret (Unit {0}) × Sender E
  unfolding with_packet
  with_iface none s = (err enodev, s)
  with_iface (some iface) s =
      let (pkt, e) = net.alloc iface 32 s.env in with_packet iface pkt (record s { env = e })

  unfoldable pub cmd_ptp_txtest : Sender E → Ret (Unit {0}) × Sender E
  unfolding with_iface
  cmd_ptp_txtest s =
      if net.device_is_ready s.env then with_iface (net.lookup_by_dev s.env) s else (err enodev, s)
