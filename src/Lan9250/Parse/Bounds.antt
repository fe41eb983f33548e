-- ===== src/Lan9250/Parse/Bounds.antt =====
-- `lan9250_ptp_parse_header` reads no byte behind the frame, and recognises the frames it should.
use rp2350_zephyr_stepper.Prelude.{
  ℕ, zero, suc, ◌+◌, ◌*◌, ◌^◌, ◌<◌, ◌≤◌, ◌≡◌, ◌≢◌, Bool, true, false, not, ◌&&◌, ◌||◌, Option, none,
  some, List, [], ◌∷◌, arith, refl, ltb, ◌==◌, if◌then◌else◌, bit_and, get_elem?, length,
}
use rp2350_zephyr_stepper.Lan9250.Parse.{
  Parsed, out_of_bounds, other, ptp, with_byte, with_be16, parse_common, parse_udp, parse_ipv4,
  parse_header,
}

get_elem?-some :
    (frame : List ℕ) (i : ℕ) → i < length frame → (b : ℕ) × (get_elem? frame i ≡ some b)
get_elem?-some [] i h = elim h [ ]
get_elem?-some (b ∷ frame) zero h = (b, refl)
get_elem?-some (b ∷ frame) (suc i) h = get_elem?-some frame i (omega arith)

other_stays : other ≢ out_of_bounds
other_stays e = cc

ptp_stays : (t s : ℕ) → ptp t s ≢ out_of_bounds
ptp_stays t s e = cc

if_stays :
    (t : Bool) {p q : Parsed}
    → (t ≡ true → p ≢ out_of_bounds)
    → (t ≡ false → q ≢ out_of_bounds)
    → (if t then p else q) ≢ out_of_bounds
if_stays true h k = h refl
if_stays false h k = k refl

byte_stays :
    (r : Option ℕ) (k : ℕ → Parsed) (b : ℕ)
    → r ≡ some b
    → k b ≢ out_of_bounds
    → (elim r [ none ↦ out_of_bounds | some b ↦ k b ]) ≢ out_of_bounds
byte_stays none k b e h = λ _. cc
byte_stays (some c) k b e h = λ f. h (cc)

module _ (frame : List ℕ) where
  with_byte-InBounds :
      (i : ℕ) (k : ℕ → Parsed)
      → i < length frame
      → ((b : ℕ) → k b ≢ out_of_bounds)
      → with_byte frame i k ≢ out_of_bounds
  with_byte-InBounds i k h safe =
      let (b, e) = get_elem?-some frame i h in byte_stays (get_elem? frame i) k b e (safe b)

  with_be16-InBounds :
      (i : ℕ) (k : ℕ → Parsed)
      → i + 1 < length frame
      → ((v : ℕ) → k v ≢ out_of_bounds)
      → with_be16 frame i k ≢ out_of_bounds
  with_be16-InBounds i k h safe =
      with_byte-InBounds i _ (omega arith)
        λ hi. with_byte-InBounds (i + 1) (λ lo. k (hi * 2 ^ 8 + lo)) h λ lo. safe (hi * 2 ^ 8 + lo)

  module _ (len : ℕ) (fits : len ≤ length frame) where
    parse_common-InBounds : (off : ℕ) → parse_common frame len off ≢ out_of_bounds
    unfolding parse_common
    parse_common-InBounds off =
        if_stays (ltb len (off + 32)) (λ _. other_stays)
          λ t.
            with_byte-InBounds off
              (λ b. with_be16 frame (off + 30) (λ seq_id. ptp (bit_and b 0x0f) seq_id))
              (ground arith)
              λ b.
                with_be16-InBounds (off + 30) (λ seq_id. ptp (bit_and b 0x0f) seq_id) (ground arith)
                  λ s. ptp_stays (bit_and b 0x0f) s

    parse_udp-InBounds : (off : ℕ) → off + 8 ≤ len → parse_udp frame len off ≢ out_of_bounds
    unfolding parse_udp
    parse_udp-InBounds off h = with_be16-InBounds (off + 2) _ (omega arith) λ port.
        if_stays (not (port == 319) && not (port == 320)) (λ _. other_stays)
          λ t. parse_common-InBounds (off + 8)

    parse_ipv4-InBounds : parse_ipv4 frame len ≢ out_of_bounds
    unfolding parse_ipv4
    parse_ipv4-InBounds =
        if_stays (ltb len 15) (λ _. other_stays)
          λ t. with_byte-InBounds 14 _ (ground arith) λ b.
            let ihl = bit_and b 0x0f * 4 in
            if_stays (ltb ihl 20 || ltb len (14 + ihl + 8)) (λ _. other_stays)
              λ u. with_byte-InBounds (14 + 9) _ (ground arith) λ p.
                if_stays (not (p == 0x11)) (λ _. other_stays)
                  λ v. parse_udp-InBounds (14 + ihl) (ground arith)

  -- Whatever a frame holds, lan9250_ptp_parse_header reads only bytes that are there, if the
  -- length it is given is at most the number of bytes of the frame.
  pub parse_header-InBounds :
      (len : ℕ) → len ≤ length frame → parse_header frame len ≢ out_of_bounds
  unfolding parse_header
  parse_header-InBounds len fits =
      if_stays (ltb len 14) (λ _. other_stays)
        λ t. with_be16-InBounds 12 _ (ground arith) λ ethertype.
          if_stays (ethertype == 0x88f7) (λ _. parse_common-InBounds len fits 14)
            λ u. if_stays (ethertype == 0x0800) (λ _. parse_ipv4-InBounds len fits) λ v. other_stays
