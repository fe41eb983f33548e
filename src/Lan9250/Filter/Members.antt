-- ===== src/Lan9250/Filter/Members.antt =====
-- The counters of the hash filter under joins and leaves: they count the groups that are joined now.
use rp2350_zephyr_stepper.Prelude.{
  ℕ, ◌+◌, ◌<◌, ◌≤◌, ◌≡◌, ◌∙◌, true, false, List, [], ◌∷◌, ◌++◌, arith, refl, length, get_or,
  replicate, ◌==◌, if◌then◌else◌, Bool-cases, inl, inr, get_or-replicate,
}
use rp2350_zephyr_stepper.Lan9250.Filter.{mcast_hash_bit, counted, refcounted}
use rp2350_zephyr_stepper.Lan9250.Filter.Counts.{in_bucket, length-refcounted, refcounted-get}

in_bucket-append :
    (bit : ℕ) (before : List (List ℕ)) (addr : List ℕ) (after : List (List ℕ))
    → in_bucket bit (before ++ (addr ∷ after))
      ≡ (if mcast_hash_bit addr == bit then 1 else 0) + in_bucket bit (before ++ after)
in_bucket-append bit [] addr after = refl
in_bucket-append bit (g ∷ before) addr after = omega (arith, in_bucket-append bit before addr after)

-- Each counter is the number of the groups in its bucket.
pub record IsCount (groups : List (List ℕ)) (counters : List ℕ) : Type 0 where
  pub buckets : length counters ≡ 64
  pub counts : (bit : ℕ) → bit < 64 → get_or counters bit 0 ≡ in_bucket bit groups
  pub fits : (bit : ℕ) → in_bucket bit groups ≤ 255

pub joined-IsCount :
    (addr : List ℕ) (groups : List (List ℕ)) (counters : List ℕ)
    → in_bucket (mcast_hash_bit addr) groups < 255
    → IsCount groups counters
    → IsCount (addr ∷ groups) (refcounted true addr counters)
unfolding counted
joined-IsCount addr groups counters h c = record {
  buckets = length-refcounted true addr counters ∙ c.buckets;
  counts = λ bit l.
      let now = refcounted-get true bit addr counters (omega (arith, c.buckets)) in
      elim (Bool-cases (mcast_hash_bit addr == bit)) [
        | inl here ↦
            let e : mcast_hash_bit addr ≡ bit = ground arith in
            let room : in_bucket bit groups < 255 = rw e at h in
            let one_more = rw here at now in rw here (omega (arith, one_more, c.counts bit l))
        | inr away ↦ let same = rw away at now in rw away (omega (arith, same, c.counts bit l))
      ];
  fits = λ bit. elim (Bool-cases (mcast_hash_bit addr == bit)) [
    | inl here ↦
        let e : mcast_hash_bit addr ≡ bit = ground arith in
        let room : in_bucket bit groups < 255 = rw e at h in rw here (omega arith)
    | inr away ↦ rw away (omega (arith, c.fits bit))
  ];
}

pub left-IsCount :
    (before : List (List ℕ)) (addr : List ℕ) (after : List (List ℕ)) (counters : List ℕ)
    → IsCount (before ++ (addr ∷ after)) counters
    → IsCount (before ++ after) (refcounted false addr counters)
unfolding counted
left-IsCount before addr after counters c = record {
  buckets = length-refcounted false addr counters ∙ c.buckets;
  counts = λ bit l.
      let now = refcounted-get false bit addr counters (omega (arith, c.buckets)) in
      let here_too = in_bucket-append bit before addr after in
      ground (arith, now, here_too, c.counts bit l);
  fits = λ bit. ground (arith, in_bucket-append bit before addr after, c.fits bit);
}

pub none_joined : IsCount [] (replicate 64 0)
none_joined = record {
  buckets = refl;
  counts = λ bit l. get_or-replicate 64 bit 0;
  fits = λ bit. omega arith;
}
