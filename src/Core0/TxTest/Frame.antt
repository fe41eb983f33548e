-- ===== src/Core0/TxTest/Frame.antt =====
-- The test frame (src/ptp_shell.c) as the header parser of the LAN9250 driver reads it
-- (drivers/eth_lan9250/eth_lan9250.c).
use rp2350_zephyr_stepper.Prelude.{
  ap, ◌∙◌, ℕ, suc, ◌+◌, ◌*◌, ◌/◌, ◌%◌, ◌^◌, ◌<◌, ◌≡◌, refl, false, true, some, List, [], ◌∷◌, ◌++◌,
  length, arith,
}
use rp2350_zephyr_stepper.Lan9250.World.{Ret, ok}
use rp2350_zephyr_stepper.Lan9250.Bus.{put_be16}
use rp2350_zephyr_stepper.Lan9250.Parse.{ptp, parse_header}
use rp2350_zephyr_stepper.Lan9250.Parse.Accepts.{over_ethernet, parse_header-ptp}
use rp2350_zephyr_stepper.Core0.TxTest.{
  Iface, Sender, pkt_alloc, pkt_write, set_header, try_send, net_eth_ptype_ptp, l2_ptp_mcast,
  ptp_payload, send_packet, fill_packet, with_packet, with_iface, cmd_ptp_txtest,
}

-- The frame that Ethernet makes of a packet: destination, source, EtherType and payload.
abbrev pub ethernet_frame : ℕ → List ℕ → List ℕ → List ℕ → List ℕ
ethernet_frame ptype src dst payload = dst ++ src ++ put_be16 ptype ++ payload

frame-parses :
    (seq_id : ℕ) (src : List ℕ)
    → seq_id < 2 ^ 16
    → length src ≡ 6
    → parse_header (ethernet_frame net_eth_ptype_ptp src l2_ptp_mcast (ptp_payload seq_id)) 46
      ≡ ptp 0 seq_id
frame-parses seq_id (a ∷ b ∷ c ∷ d ∷ e ∷ f ∷ []) h k =
    let src = a ∷ b ∷ c ∷ d ∷ e ∷ f ∷ [] in
    let frame = ethernet_frame net_eth_ptype_ptp src l2_ptp_mcast (ptp_payload seq_id) in
    let hi = seq_id / 2 ^ 8 % 2 ^ 8 in
    let lo = seq_id % 2 ^ 8 in
    let same : hi * 2 ^ 8 + lo ≡ seq_id = omega arith in
    parse_header-ptp frame 46 14 0 hi lo (over_ethernet refl refl) (omega arith) refl refl refl
    ∙ ap (ptp 0) same
frame-parses seq_id [] h k = absurd (omega arith)
frame-parses seq_id (a ∷ []) h k = absurd (omega arith)
frame-parses seq_id (a ∷ b ∷ []) h k = absurd (omega arith)
frame-parses seq_id (a ∷ b ∷ c ∷ []) h k = absurd (omega arith)
frame-parses seq_id (a ∷ b ∷ c ∷ d ∷ []) h k = absurd (omega arith)
frame-parses seq_id (a ∷ b ∷ c ∷ d ∷ e ∷ []) h k = absurd (omega arith)
frame-parses seq_id (a ∷ b ∷ c ∷ d ∷ e ∷ f ∷ g ∷ rest) h k = absurd (omega arith)

-- What is sent: the header fields and the payload of the packet.
pub record IsSent {E : Type 0} (s : Sender E) (src : List ℕ) (pkt : ℕ)
    (res : Ret (Unit {0}) × Sender E) : Type 0 where
  pub result : res.0 ≡ ok tt
  pub calls :
      res.1.calls
      ≡ try_send pkt false
        ∷ set_header pkt net_eth_ptype_ptp src l2_ptp_mcast
        ∷ pkt_write pkt (ptp_payload s.seq_id)
        ∷ pkt_alloc pkt
        ∷ s.calls
  pub counted : res.1.seq_id ≡ suc s.seq_id % 2 ^ 16
  pub parsed :
      parse_header (ethernet_frame net_eth_ptype_ptp src l2_ptp_mcast (ptp_payload s.seq_id)) 46
      ≡ ptp 0 s.seq_id

-- An interface that takes every packet. Its link address is `src`.
pub record IsUp {E : Type 0} (net : Iface E) (iface pkt : ℕ) (src : List ℕ) : Type 0 where
  pub is_ready : (e : E) → net.device_is_ready e ≡ true
  pub found : (e : E) → net.lookup_by_dev e ≡ some iface
  pub has_packet : (n : ℕ) (e : E) → (net.alloc iface n e).0 ≡ some pkt
  pub writes : (bytes : List ℕ) (e : E) → (net.write pkt bytes e).0 ≡ true
  pub address : (e : E) → net.link_addr iface e ≡ src
  pub sends : (e : E) → (net.send iface pkt e).0 ≡ false

-- On an interface that takes every packet and has an address of six bytes, `ptp txtest` sends one
-- packet, counts seq_id up modulo 2^16, and the Ethernet frame of that packet is recognised by the
-- driver's header parser as a Sync message with the seq_id from before.
pub cmd_ptp_txtest-IsSent :
    {E : Type 0} (net : Iface E) (iface pkt : ℕ) (src : List ℕ) (s : Sender E)
    → IsUp net iface pkt src
    → length src ≡ 6
    → s.seq_id < 2 ^ 16
    → IsSent s src pkt (cmd_ptp_txtest net s)
unfolding cmd_ptp_txtest with_iface with_packet fill_packet send_packet
cmd_ptp_txtest-IsSent net iface pkt src s up k h =
    let e1 = (net.alloc iface 32 s.env).1 in
    let e2 = (net.write pkt (ptp_payload s.seq_id) e1).1 in
    rw
      (
        up.is_ready s.env,
        up.found s.env,
        up.has_packet 32 s.env,
        up.writes (ptp_payload s.seq_id) e1,
        up.address e2,
        up.sends e2,
      )
      (record {
        result = refl;
        calls = refl;
        counted = refl;
        parsed = frame-parses s.seq_id src h k;
      })
