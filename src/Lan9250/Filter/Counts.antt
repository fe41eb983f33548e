-- ===== src/Lan9250/Filter/Counts.antt =====
-- The counters behind the multicast hash filter.
use rp2350_zephyr_stepper.Prelude.{
  ℕ, zero, suc, ◌+◌, ◌-◌, ◌%◌, ◌^◌, ◌<◌, ◌≡◌, Bool, true, false, List, [], ◌∷◌, arith, refl, ap,
  length, get_or, set, ◌==◌, if◌then◌else◌, Bool-cases, inl, inr, length-set, get_or-set_self,
  get_or-set_ne, ltb,
}
use rp2350_zephyr_stepper.Lan9250.Filter.{mcast_hash_bit, counted, refcounted}

-- The joins of some groups, one after the other.
abbrev pub join_all : List (List ℕ) → List ℕ → List ℕ
join_all [] counters = counters
join_all (addr ∷ rest) counters = join_all rest (refcounted true addr counters)

-- How many of the groups fall into the bucket.
abbrev pub in_bucket : ℕ → List (List ℕ) → ℕ
in_bucket bit [] = 0
in_bucket bit (addr ∷ rest) = (if mcast_hash_bit addr == bit then 1 else 0) + in_bucket bit rest

-- What a join or a leave does to a counter.
pub refcounted-get :
    (joins : Bool) (bit : ℕ) (addr counters : List ℕ)
    → bit < length counters
    → get_or (refcounted joins addr counters) bit 0 ≡ (
        if mcast_hash_bit addr == bit
        then counted joins (get_or counters bit 0)
        else get_or counters bit 0)
unfolding refcounted
refcounted-get joins bit addr counters h = elim (Bool-cases (mcast_hash_bit addr == bit)) [
  | inl here ↦
      let e : mcast_hash_bit addr ≡ bit = ground arith in
      rw here (rw e (get_or-set_self counters bit (counted joins (get_or counters bit 0)) 0 h))
  | inr away ↦ rw away (get_or-set_ne counters (mcast_hash_bit addr) bit _ 0 (ground arith))
]

pub length-refcounted :
    (joins : Bool) (addr counters : List ℕ)
    → length (refcounted joins addr counters) ≡ length counters
unfolding refcounted
length-refcounted joins addr counters = length-set counters (mcast_hash_bit addr) _

-- After joins of any groups, the counter of a bucket of the array that held less than 256 has gone
-- up by the number of the groups that fall into the bucket, modulo 256, so that it is 0 again
-- after 256 of them.
pub join_all-get :
    (groups : List (List ℕ)) (counters : List ℕ) (bit : ℕ)
    → bit < length counters
    → get_or counters bit 0 < 2 ^ 8
    → get_or (join_all groups counters) bit 0
      ≡ (get_or counters bit 0 + in_bucket bit groups) % 2 ^ 8
unfolding counted
join_all-get [] counters bit h k = ground arith
join_all-get (addr ∷ rest) counters bit h k =
    let step = refcounted-get true bit addr counters h in
    let len : bit < length (refcounted true addr counters) =
      omega (arith, length-refcounted true addr counters, h) in
    elim (Bool-cases (mcast_hash_bit addr == bit)) [
      | inl here ↦
          let now : get_or (refcounted true addr counters) bit 0
              ≡ (get_or counters bit 0 + 1) % 2 ^ 8 =
            ground (arith, step) in
          let more =
            join_all-get rest (refcounted true addr counters) bit len (omega (arith, now)) in
          rw here (omega (arith, more, now))
      | inr away ↦
          let now : get_or (refcounted true addr counters) bit 0 ≡ get_or counters bit 0 =
            ground (arith, step) in
          let more =
            join_all-get rest (refcounted true addr counters) bit len (omega (arith, now)) in
          rw away (omega (arith, more, now))
    ]

set-back : (c : List ℕ) (i x : ℕ) → set (set c i x) i (get_or c i 0) ≡ c
set-back [] i x = refl
set-back (y ∷ c) zero x = refl
set-back (y ∷ c) (suc i) x = ap (λ z. y ∷ z) (set-back c i x)

-- A leave after a join of the same group restores the counters, if the group's bucket is one of
-- the array and its counter was below 255.
pub leave-join :
    (addr counters : List ℕ)
    → mcast_hash_bit addr < length counters
    → get_or counters (mcast_hash_bit addr) 0 < 255
    → refcounted false addr (refcounted true addr counters) ≡ counters
unfolding refcounted counted
leave-join addr counters h k =
    let bit = mcast_hash_bit addr in
    let n = get_or counters bit 0 in
    let up = get_or-set_self counters bit ((n + 1) % 2 ^ 8) 0 h in
    let down : (if ltb 0 ((n + 1) % 2 ^ 8) then (n + 1) % 2 ^ 8 - 1 else (n + 1) % 2 ^ 8) ≡ n =
      ground arith in
    rw (up, down) (set-back counters bit ((n + 1) % 2 ^ 8))
