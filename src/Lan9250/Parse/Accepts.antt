-- ===== src/Lan9250/Parse/Accepts.antt =====
-- The frames that `lan9250_ptp_parse_header` recognises: PTP over Ethernet, and over UDP and IPv4.
use rp2350_zephyr_stepper.Prelude.{
  ℕ, ◌+◌, ◌*◌, ◌^◌, ◌≤◌, ◌≡◌, Bool, true, false, not, ◌&&◌, ◌||◌, Option, some, none, List, arith,
  refl, ◌∙◌, ◌⊎◌, ltb, ◌==◌, if◌then◌else◌, bit_and, get_elem?,
}
use rp2350_zephyr_stepper.Lan9250.Parse.{
  Parsed, ptp, other, out_of_bounds, with_be16, parse_common, parse_udp, parse_ipv4, parse_header,
}

-- The frame holds the byte at this place.
abbrev pub Byte : List ℕ → ℕ → ℕ → Type 0
Byte frame i b = get_elem? frame i ≡ some b

-- The PTP header of the frame starts at `off`.
pub data Carries (frame : List ℕ) : ℕ → Type 0 where
  over_ethernet : Byte frame 12 0x88 → Byte frame 13 0xf7 → Carries frame 14
  over_udp :
      (v hi lo : ℕ)
      → Byte frame 12 0x08
      → Byte frame 13 0x00
      → Byte frame 14 v
      → 5 ≤ bit_and v 0x0f
      → Byte frame 23 0x11
      → Byte frame (14 + bit_and v 0x0f * 4 + 2) hi
      → Byte frame (14 + bit_and v 0x0f * 4 + 2 + 1) lo
      → (hi * 2 ^ 8 + lo ≡ 319) ⊎ (hi * 2 ^ 8 + lo ≡ 320)
      → Carries frame (14 + bit_and v 0x0f * 4 + 8)

byte_of :
    (o : Option ℕ) (b : ℕ) (k : ℕ → Parsed)
    → o ≡ some b
    → (elim o [ none ↦ out_of_bounds | some b ↦ k b ]) ≡ k b
byte_of none b k e = cc
byte_of (some c) b k e = cc

else_of : (t : Bool) (p q : Parsed) → t ≡ false → (if t then p else q) ≡ q
else_of t p q e = rw e refl

then_of : (t : Bool) (p q : Parsed) → t ≡ true → (if t then p else q) ≡ p
then_of t p q e = rw e refl

-- What the parser does with the EtherType.
abbrev by_type : List ℕ → ℕ → ℕ → Parsed
by_type frame len ethertype =
    if ethertype == 0x88f7
    then parse_common frame len 14
    else if ethertype == 0x0800
    then parse_ipv4 frame len
    else other

module _ (frame : List ℕ) (len : ℕ) where
  be16-read :
      (i hi lo : ℕ) (k : ℕ → Parsed)
      → Byte frame i hi
      → Byte frame (i + 1) lo
      → with_be16 frame i k ≡ k (hi * 2 ^ 8 + lo)
  be16-read i hi lo k p q =
      byte_of (get_elem? frame i) hi _ p ∙ byte_of (get_elem? frame (i + 1)) lo _ q

  common-read :
      (off b hi lo : ℕ)
      → off + 32 ≤ len
      → Byte frame off b
      → Byte frame (off + 30) hi
      → Byte frame (off + 30 + 1) lo
      → parse_common frame len off ≡ ptp (bit_and b 0x0f) (hi * 2 ^ 8 + lo)
  unfolding parse_common
  common-read off b hi lo h p q r =
      else_of (ltb len (off + 32)) _ _ (ground arith)
      ∙ byte_of (get_elem? frame off) b _ p
      ∙ be16-read (off + 30) hi lo (λ seq_id. ptp (bit_and b 0x0f) seq_id) q r

  udp-read :
      (off hi lo : ℕ)
      → Byte frame (off + 2) hi
      → Byte frame (off + 2 + 1) lo
      → (hi * 2 ^ 8 + lo ≡ 319) ⊎ (hi * 2 ^ 8 + lo ≡ 320)
      → parse_udp frame len off ≡ parse_common frame len (off + 8)
  unfolding parse_udp
  udp-read off hi lo p q r =
      be16-read (off + 2) hi lo
        (λ port.
          if not (port == 319) && not (port == 320)
          then other
          else parse_common frame len (off + 8))
        p q
      ∙ else_of (not (hi * 2 ^ 8 + lo == 319) && not (hi * 2 ^ 8 + lo == 320)) other _
          (ground arith)

  ipv4-read :
      (v hi lo : ℕ)
      → 14 + bit_and v 0x0f * 4 + 8 ≤ len
      → Byte frame 14 v
      → 5 ≤ bit_and v 0x0f
      → Byte frame 23 0x11
      → Byte frame (14 + bit_and v 0x0f * 4 + 2) hi
      → Byte frame (14 + bit_and v 0x0f * 4 + 2 + 1) lo
      → (hi * 2 ^ 8 + lo ≡ 319) ⊎ (hi * 2 ^ 8 + lo ≡ 320)
      → parse_ipv4 frame len ≡ parse_common frame len (14 + bit_and v 0x0f * 4 + 8)
  unfolding parse_ipv4
  ipv4-read v hi lo h p ihl u m n port =
      else_of (ltb len 15) _ _ (ground arith)
      ∙ byte_of (get_elem? frame 14) v _ p
      ∙ else_of (ltb (bit_and v 0x0f * 4) 20 || ltb len (14 + bit_and v 0x0f * 4 + 8)) _ _
          (ground arith)
      ∙ byte_of (get_elem? frame 23) 0x11 _ u
      ∙ udp-read (14 + bit_and v 0x0f * 4) hi lo m n port

  -- A frame that carries a PTP header over Ethernet, or over UDP port 319 or 320 and IPv4, and
  -- whose length reaches 32 bytes behind the start of that header, is recognised, with the message
  -- type and the sequence number that stand in the header.
  pub parse_header-ptp :
      (off b hi lo : ℕ)
      → Carries frame off
      → off + 32 ≤ len
      → Byte frame off b
      → Byte frame (off + 30) hi
      → Byte frame (off + 30 + 1) lo
      → parse_header frame len ≡ ptp (bit_and b 0x0f) (hi * 2 ^ 8 + lo)
  unfolding parse_header
  parse_header-ptp off b hi lo (over_ethernet e f) h p q r =
      else_of (ltb len 14) _ _ (ground arith)
      ∙ be16-read 12 0x88 0xf7 (by_type frame len) e f
      ∙ common-read 14 b hi lo h p q r
  parse_header-ptp off b hi lo (over_udp v x y e f g ihl u m n port) h p q r =
      else_of (ltb len 14) _ _ (ground arith)
      ∙ be16-read 12 0x08 0x00 (by_type frame len) e f
      ∙ ipv4-read v x y (ground arith) g ihl u m n port
      ∙ common-read (14 + bit_and v 0x0f * 4 + 8) b hi lo h p q r
