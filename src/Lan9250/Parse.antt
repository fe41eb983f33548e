-- ===== src/Lan9250/Parse.antt =====
-- `lan9250_ptp_parse_header` (drivers/eth_lan9250/eth_lan9250.c). A read behind the end of the
-- frame is a fault of its own, so that the bounds checks can be judged.
pub mod Bounds
pub mod Accepts
use rp2350_zephyr_stepper.Prelude.{
  ℕ, ◌+◌, ◌*◌, ◌^◌, Bool, not, ◌&&◌, ◌||◌, Option, none, some, List, ltb, ◌==◌, if◌then◌else◌,
  bit_and, get_elem?,
}

pub data Parsed : Type 0 where
  out_of_bounds : Parsed
  other : Parsed
  ptp : (msg_type seq_id : ℕ) → Parsed

-- `frame[i]`.
abbrev pub with_byte : List ℕ → ℕ → (ℕ → Parsed) → Parsed
with_byte frame i k = elim (get_elem? frame i) [ none ↦ out_of_bounds | some b ↦ k b ]

-- `sys_get_be16(&frame[i])`.
abbrev pub with_be16 : List ℕ → ℕ → (ℕ → Parsed) → Parsed
with_be16 frame i k = with_byte frame i (λ hi. with_byte frame (i + 1) (λ lo. k (hi * 2 ^ 8 + lo)))

-- The common PTP header at `ptp_off`.
unfoldable pub parse_common : List ℕ → ℕ → ℕ → Parsed
parse_common frame len ptp_off =
    if ltb len (ptp_off + 32)
    then other
    else with_byte frame ptp_off
        (λ b. with_be16 frame (ptp_off + 30) (λ seq_id. ptp (bit_and b 0x0f) seq_id))

-- The destination port of the UDP header at `udp_off`.
unfoldable pub parse_udp : List ℕ → ℕ → ℕ → Parsed
parse_udp frame len udp_off = with_be16 frame (udp_off + 2) (λ port.
    if not (port == 319) && not (port == 320) then other else parse_common frame len (udp_off + 8))

unfoldable pub parse_ipv4 : List ℕ → ℕ → Parsed
parse_ipv4 frame len =
    if ltb len 15
    then other
    else with_byte frame 14 (λ b.
      let ihl = bit_and b 0x0f * 4 in
      if ltb ihl 20 || ltb len (14 + ihl + 8)
      then other
      else with_byte frame (14 + 9)
          (λ protocol. if not (protocol == 0x11) then other else parse_udp frame len (14 + ihl)))

unfoldable pub parse_header : List ℕ → ℕ → Parsed
parse_header frame len =
    if ltb len 14
    then other
    else with_be16 frame 12 (λ ethertype.
      if ethertype == 0x88f7
      then parse_common frame len 14
      else if ethertype == 0x0800
      then parse_ipv4 frame len
      else other)
