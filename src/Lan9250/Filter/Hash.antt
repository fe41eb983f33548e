-- ===== src/Lan9250/Filter/Hash.antt =====
-- The hash table that the counters stand for.
use rp2350_zephyr_stepper.Prelude.{
  ℕ, zero, suc, ◌+◌, ◌-◌, ◌*◌, ◌/◌, ◌%◌, ◌^◌, ◌<◌, ◌≤◌, ◌≡◌, ◌∙◌, true, false, List, [], ◌∷◌, ◌++◌,
  arith, refl, ap, length, get_or, take, drop, ◌==◌, ltb, if◌then◌else◌, Bool-cases, inl, inr, Bool,
  bit_and, bit_xor, bit_or_power, bit_xor-bound, sym, length-take, take-drop, get_or-take,
  get_or-drop, get_or-replicate, replicate,
}
use rp2350_zephyr_stepper.Lan9250.Filter.{
  crc_bits, crc_bytes, ether_crc, mcast_hash_bit, HashWords, hash_words, mcast_table, refcounted,
}
use native.Mathlib.Nat.{div-div-eq-div-mul}
use rp2350_zephyr_stepper.Lan9250.Filter.Counts.{
  join_all, in_bucket, join_all-get, length-refcounted,
}

-- The number with the binary digit 1 at place k + i for each counter i that is not 0.
abbrev pub mask : ℕ → List ℕ → ℕ
mask k [] = 0
mask k (n ∷ rest) = (if n == 0 then 0 else 2 ^ k) + mask (suc k) rest

hash_words-high :
    (ns : List ℕ) (bit j : ℕ) (w : HashWords)
    → bit ≡ 32 + j
    → w.hashh < 2 ^ j
    → hash_words w ns bit ≡ record { hashl = w.hashl; hashh = w.hashh + mask j ns }
unfolding hash_words
hash_words-high [] bit j w e h = let z : w.hashh + 0 ≡ w.hashh = omega arith in rw z refl
hash_words-high (n ∷ rest) bit j w e h = elim (Bool-cases (n == 0)) [
  | inl none_joined ↦
      let next = hash_words-high rest (suc bit) (suc j) w (omega arith) (omega arith) in
      let sum : w.hashh + (0 + mask (suc j) rest) ≡ w.hashh + mask (suc j) rest = omega arith in
      rw (none_joined, sum) next
  | inr joined ↦
      let late : ltb bit 32 ≡ false = ground arith in
      let place : bit - 32 ≡ j = omega arith in
      let w' : HashWords = record { hashl = w.hashl; hashh = w.hashh + 2 ^ j } in
      let next = hash_words-high rest (suc bit) (suc j) w' (omega arith) (omega arith) in
      let sum : w.hashh + (2 ^ j + mask (suc j) rest) ≡ w.hashh + 2 ^ j + mask (suc j) rest =
        omega arith in
      rw (joined, late, place, bit_or_power j w.hashh h, sum) next
]

hash_words-low :
    (ns : List ℕ) (bit : ℕ) (w : HashWords)
    → bit + length ns ≤ 32
    → w.hashl < 2 ^ bit
    → hash_words w ns bit ≡ record { hashl = w.hashl + mask bit ns; hashh = w.hashh }
unfolding hash_words
hash_words-low [] bit w e h = let z : w.hashl + 0 ≡ w.hashl = omega arith in rw z refl
hash_words-low (n ∷ rest) bit w e h = elim (Bool-cases (n == 0)) [
  | inl none_joined ↦
      let next = hash_words-low rest (suc bit) w (omega arith) (omega arith) in
      let sum : w.hashl + (0 + mask (suc bit) rest) ≡ w.hashl + mask (suc bit) rest = omega arith in
      rw (none_joined, sum) next
  | inr joined ↦
      let early : ltb bit 32 ≡ true = ground arith in
      let w' : HashWords = record { hashl = w.hashl + 2 ^ bit; hashh = w.hashh } in
      let next = hash_words-low rest (suc bit) w' (omega arith) (omega arith) in
      let sum : w.hashl + (2 ^ bit + mask (suc bit) rest)
          ≡ w.hashl + 2 ^ bit + mask (suc bit) rest =
        omega arith in
      rw (joined, early, bit_or_power bit w.hashl h, sum) next
]

hash_words-append :
    (xs ys : List ℕ) (bit : ℕ) (w : HashWords)
    → hash_words w (xs ++ ys) bit ≡ hash_words (hash_words w xs bit) ys (bit + length xs)
unfolding hash_words
hash_words-append [] ys bit w = let z : bit + 0 ≡ bit = omega arith in rw z refl
hash_words-append (x ∷ xs) ys bit w =
    let z : bit + suc (length xs) ≡ suc bit + length xs = omega arith in
    rw z (hash_words-append xs ys (suc bit) _)

mask-suc : (k : ℕ) (ns : List ℕ) → mask (suc k) ns ≡ 2 * mask k ns
mask-suc k [] = omega arith
mask-suc k (n ∷ rest) =
    let power : 2 ^ suc k ≡ 2 * 2 ^ k = omega arith in ground (arith, power, mask-suc (suc k) rest)

mask-bit : (ns : List ℕ) (i : ℕ) → mask 0 ns / 2 ^ i % 2 ≡ (if get_or ns i 0 == 0 then 0 else 1)
mask-bit [] i = omega arith
mask-bit (n ∷ rest) zero = elim (Bool-cases (n == 0)) [
  | inl none_joined ↦ rw none_joined (omega (arith, mask-suc 0 rest))
  | inr joined ↦ rw joined (omega (arith, mask-suc 0 rest))
]
mask-bit (n ∷ rest) (suc i) =
    let half : ((if n == 0 then 0 else 2 ^ 0) + mask 1 rest) / 2 ≡ mask 0 rest =
      elim (Bool-cases (n == 0)) [
        | inl none_joined ↦ rw none_joined (omega (arith, mask-suc 0 rest))
        | inr joined ↦ rw joined (omega (arith, mask-suc 0 rest))
      ] in
    let power : 2 ^ suc i ≡ 2 * 2 ^ i = omega arith in
    let halves = div-div-eq-div-mul ((if n == 0 then 0 else 2 ^ 0) + mask 1 rest) 2 (2 ^ i) in
    rw (power, sym halves, half) (mask-bit rest i)

-- A bit of the hash table, as the chip looks it up.
abbrev pub hash_bit : HashWords → ℕ → ℕ
hash_bit w i = (if ltb i 32 then w.hashl / 2 ^ i else w.hashh / 2 ^ (i - 32)) % 2

pub mcast_table-words :
    (counters : List ℕ)
    → 32 ≤ length counters
    → mcast_table counters
      ≡ record { hashl = 0 + mask 0 (take 32 counters); hashh = 0 + mask 0 (drop 32 counters) }
unfolding mcast_table
mcast_table-words counters h =
    let w0 : HashWords = record { hashl = 0; hashh = 0 } in
    let len : length (take 32 counters) ≡ 32 = omega (arith, length-take 32 counters) in
    ap (λ ns. hash_words w0 ns 0) (sym (take-drop 32 counters))
    ∙ hash_words-append (take 32 counters) (drop 32 counters) 0 w0
    ∙ rw (hash_words-low (take 32 counters) 0 w0 (omega (arith, len)) (omega arith)) (
        hash_words-high (drop 32 counters) (0 + length (take 32 counters)) 0 _ (omega (arith, len))
          (omega arith))

pub mcast_table-bit :
    (counters : List ℕ) (i : ℕ)
    → 32 ≤ length counters
    → hash_bit (mcast_table counters) i ≡ (if get_or counters i 0 == 0 then 0 else 1)
mcast_table-bit counters i h = rw (mcast_table-words counters h) (elim (Bool-cases (ltb i 32)) [
  | inl low ↦
      let at_i = get_or-take 32 i counters 0 (ground arith) in
      let sum : 0 + mask 0 (take 32 counters) ≡ mask 0 (take 32 counters) = omega arith in
      rw (low, sum) (rw at_i at (mask-bit (take 32 counters) i))
  | inr high ↦
      let place : 32 + (i - 32) ≡ i = ground arith in
      let at_i = rw place at (get_or-drop 32 (i - 32) counters 0) in
      let sum : 0 + mask 0 (drop 32 counters) ≡ mask 0 (drop 32 counters) = omega arith in
      rw (high, sum) (rw at_i at (mask-bit (drop 32 counters) (i - 32)))
])

crc_bits-bound : (n crc byte : ℕ) → crc < 2 ^ 32 → crc_bits n crc byte < 2 ^ 32
unfolding crc_bits
crc_bits-bound zero crc byte h = h
crc_bits-bound (suc n) crc byte h =
    crc_bits-bound n _ (byte / 2)
      (bit_xor-bound 32 (crc / 2) _ (omega arith) (poly (bit_and (bit_xor crc byte) 1 == 0)))
  where
    poly : (b : Bool) → (if b then 0 else 0xedb8_8320) < 2 ^ 32
    poly true = omega arith
    poly false = omega arith

crc_bytes-bound : (addr : List ℕ) (crc : ℕ) → crc < 2 ^ 32 → crc_bytes crc addr < 2 ^ 32
unfolding crc_bytes
crc_bytes-bound [] crc h = h
crc_bytes-bound (byte ∷ rest) crc h = crc_bytes-bound rest _ (crc_bits-bound 8 crc byte h)

-- The bucket of every address is one of the 64.
pub mcast_hash_bit-bound : (addr : List ℕ) → mcast_hash_bit addr < 64
unfolding mcast_hash_bit ether_crc
mcast_hash_bit-bound addr = omega (arith, crc_bytes-bound addr 0xffff_ffff (omega arith))

length-join_all :
    (groups : List (List ℕ)) (counters : List ℕ)
    → length (join_all groups counters) ≡ length counters
length-join_all [] counters = refl
length-join_all (addr ∷ rest) counters =
    length-join_all rest (refcounted true addr counters) ∙ length-refcounted true addr counters

-- After joins of any groups, starting with no group and with fewer than 256 of them in the bucket
-- of an address, the hash table that the driver writes has the bit of that address set exactly if
-- one of the groups falls into its bucket.
pub join_all-hash_bit :
    (groups : List (List ℕ)) (addr : List ℕ)
    → in_bucket (mcast_hash_bit addr) groups < 256
    → hash_bit (mcast_table (join_all groups (replicate 64 0))) (mcast_hash_bit addr)
      ≡ (if in_bucket (mcast_hash_bit addr) groups == 0 then 0 else 1)
join_all-hash_bit groups addr h =
    let bit = mcast_hash_bit addr in
    let start = get_or-replicate {A = ℕ} 64 bit 0 in
    let inside = mcast_hash_bit-bound addr in
    let counter : get_or (join_all groups (replicate 64 0)) bit 0 ≡ in_bucket bit groups =
      omega
        (arith, join_all-get groups (replicate 64 0) bit inside (omega (arith, start)), start) in
    rw counter at (
      mcast_table-bit (join_all groups (replicate 64 0)) bit
        (omega (arith, length-join_all groups (replicate 64 0))))
