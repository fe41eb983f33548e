-- ===== src/Lan9250/Filter/Chip.antt =====
-- The hash table in the chip under joins and leaves (lan9250_set_config in
-- drivers/eth_lan9250/eth_lan9250.c): it stands for the groups that are joined now.
use rp2350_zephyr_stepper.Prelude.{
  ℕ, ◌+◌, ◌*◌, ◌^◌, ◌<◌, ◌≤◌, ◌≡◌, ◌∙◌, Bool, true, false, List, [], ◌∷◌, ◌++◌, arith, refl, ap,
  length, get_or, replicate, ◌==◌, if◌then◌else◌, bit_and, take, drop, length-take, length-drop,
  suc,
}
use rp2350_zephyr_stepper.Lan9250.World.{World, Hw, Ret}
use rp2350_zephyr_stepper.Lan9250.Yields.{Yields, yields}
use rp2350_zephyr_stepper.Lan9250.Yields
use rp2350_zephyr_stepper.Lan9250.Regs.{hmac_hashl, hmac_hashh}
use rp2350_zephyr_stepper.Lan9250.Bus.Mac.{MacRegs, IsMacChip, write_mac_reg-Yields}
use rp2350_zephyr_stepper.Lan9250.Filter.{
  mcast_hash_bit, mcast_table, refcounted, HashWords, hash_words, set_config, set_filter,
  mcast_hash_write, filter_dst,
}
use rp2350_zephyr_stepper.Lan9250.Filter.Counts.{in_bucket, length-refcounted}
use rp2350_zephyr_stepper.Lan9250.Filter.Members.{
  IsCount, joined-IsCount, left-IsCount, none_joined,
}
use rp2350_zephyr_stepper.Lan9250.Filter.Hash.{
  hash_bit, mcast_hash_bit-bound, mcast_table-bit, mask, mcast_table-words,
}

-- The driver's counters and the chip's table at the start, and after calls of lan9250_set_config for
-- joins and leaves, with anything in between that leaves both alone. A leave takes one of the joins of
-- its group back; a bucket takes 255 groups, which its counter can hold.
pub data Joined {E : Type 0} (hw : Hw E) (view : E → MacRegs) (fuel : ℕ)
    : List (List ℕ) → World E → Type 0 where
  started :
      {w : World E}
      → w.ctx.mcast_hash_refcount ≡ replicate 64 0
      → (view w.env).regs hmac_hashl ≡ 0
      → (view w.env).regs hmac_hashh ≡ 0
      → Joined hw view fuel [] w
  joined :
      {groups : List (List ℕ)} {w : World E} (addr : List ℕ)
      → (bit_and (get_or addr 0 0) 1 == 0) ≡ false
      → in_bucket (mcast_hash_bit addr) groups < 255
      → Joined hw view fuel groups w
      → Joined hw view fuel (addr ∷ groups) (set_config hw fuel (filter_dst true addr) w).1
  left :
      (before : List (List ℕ)) (addr : List ℕ) (after : List (List ℕ)) {w : World E}
      → (bit_and (get_or addr 0 0) 1 == 0) ≡ false
      → Joined hw view fuel (before ++ (addr ∷ after)) w
      → Joined hw view fuel (before ++ after) (set_config hw fuel (filter_dst false addr) w).1
  meanwhile :
      {groups : List (List ℕ)} {w w' : World E}
      → w'.ctx.mcast_hash_refcount ≡ w.ctx.mcast_hash_refcount
      → (view w'.env).regs ≡ (view w.env).regs
      → Joined hw view fuel groups w
      → Joined hw view fuel groups w'

-- The hash table in the chip.
abbrev pub chip_table : MacRegs → HashWords
chip_table m = record { hashl = m.regs hmac_hashl; hashh = m.regs hmac_hashh }

mask-bound : (k : ℕ) (ns : List ℕ) → mask k ns + 2 ^ k ≤ 2 ^ (k + length ns)
mask-bound k [] = let z : k + 0 ≡ k = omega arith in rw z (omega arith)
mask-bound k (n ∷ ns) =
    let power : 2 ^ suc k ≡ 2 * 2 ^ k = omega arith in
    let place : k + suc (length ns) ≡ suc k + length ns = omega arith in
    rw place (ground (arith, power, mask-bound (suc k) ns))

mcast_table-bound :
    (counters : List ℕ)
    → length counters ≡ 64
    → ((mcast_table counters).hashl < 2 ^ 32) × ((mcast_table counters).hashh < 2 ^ 32)
mcast_table-bound counters h =
    let low : length (take 32 counters) ≡ 32 = omega (arith, length-take 32 counters) in
    let high : length (drop 32 counters) ≡ 32 = omega (arith, length-drop 32 counters) in
    rw (mcast_table-words counters (omega (arith, h))) (
      omega (arith, rw low at (mask-bound 0 (take 32 counters))),
      omega (arith, rw high at (mask-bound 0 (drop 32 counters))),
    )

no_bits : record { hashl = 0; hashh = 0 } ≡ mcast_table (replicate 64 0)
unfolding mcast_table hash_words
no_bits = refl

module _ {E : Type 0} (hw : Hw E) (view : E → MacRegs) (chip : IsMacChip hw view) (fuel : ℕ)
    (some_fuel : 0 < fuel) where
  set_config-Yields :
      (joins : Bool) (addr : List ℕ) (w : World E)
      → (bit_and (get_or addr 0 0) 1 == 0) ≡ false
      → length w.ctx.mcast_hash_refcount ≡ 64
      → Yields
          (λ _ w'.
            (w'.ctx.mcast_hash_refcount ≡ refcounted joins addr w.ctx.mcast_hash_refcount)
            × (chip_table (view w'.env)
                ≡ mcast_table (refcounted joins addr w.ctx.mcast_hash_refcount)))
          (set_config hw fuel (filter_dst joins addr) w)
  unfolding set_config set_filter mcast_hash_write
  set_config-Yields joins addr w multicast len =
      let c = refcounted joins addr w.ctx.mcast_hash_refcount in
      let small = mcast_table-bound c (length-refcounted joins addr _ ∙ len) in
      rw multicast (
        Yields.bind
          (write_mac_reg-Yields hw view chip fuel hmac_hashl (mcast_table c).hashl
            (record w { ctx = record w.ctx { mcast_hash_refcount = c } }) some_fuel (omega arith)
            small.0)
          λ _ w1 a.
            Yields.mono
              (write_mac_reg-Yields hw view chip fuel hmac_hashh (mcast_table c).hashh w1 some_fuel
                (omega arith) small.1)
              λ _ w2 b. (
                ap (λ c. c.mcast_hash_refcount) (b.1 ∙ a.1),
                ap chip_table b.0
                    ∙ ap {B = HashWords}
                        (λ m. record { hashl = m.regs hmac_hashl; hashh = (mcast_table c).hashh })
                        a.0,
              ))

  -- The counters are those of the groups, and the chip has their table.
  record IsFiltering (groups : List (List ℕ)) (w : World E) : Type 0 where
    count : IsCount groups w.ctx.mcast_hash_refcount
    table : chip_table (view w.env) ≡ mcast_table w.ctx.mcast_hash_refcount

  configured :
      {groups : List (List ℕ)} {counters : List ℕ} {r : Ret (Unit {0}) × World E}
      → IsCount groups counters
      → Yields
          (λ _ w'.
            (w'.ctx.mcast_hash_refcount ≡ counters)
            × (chip_table (view w'.env) ≡ mcast_table counters))
          r
      → IsFiltering groups r.1
  configured c (yields h) = record { count = rw h.0 c; table = rw h.0 h.1 }

  Joined-IsFiltering :
      {groups : List (List ℕ)} {w : World E} → Joined hw view fuel groups w → IsFiltering groups w
  Joined-IsFiltering {w} (started e l h) = record {
    count = rw e none_joined;
    table = rw (e, l, h) no_bits;
  }
  Joined-IsFiltering (joined {groups} {w} addr m room j) =
      let i = Joined-IsFiltering j in
      configured (joined-IsCount addr groups _ room i.count)
        (set_config-Yields true addr w m i.count.buckets)
  Joined-IsFiltering (left before addr after {w} m j) =
      let i = Joined-IsFiltering j in
      configured (left-IsCount before addr after _ i.count)
        (set_config-Yields false addr w m i.count.buckets)
  Joined-IsFiltering (meanwhile e f j) =
      let i = Joined-IsFiltering j in
      record {
        count = rw e i.count;
        table = rw e (ap (λ r. chip_table (record { data_reg = 0; regs = r })) f ∙ i.table);
      }

  -- After any joins and leaves of groups by lan9250_set_config, with other code in between that
  -- leaves the counters and the MAC registers alone, the hash table in the chip has the bit of an
  -- address set exactly if one of the groups that are joined now falls into its bucket. Counters
  -- and table are 0 at the start, a leave takes back one of the joins of its group, each join
  -- finds fewer than 255 groups in its bucket, the fuel is above 0, and the chip carries out the
  -- MAC commands as IsMacChip says.
  pub Joined-hash_bit :
      {groups : List (List ℕ)} {w : World E} (addr : List ℕ)
      → Joined hw view fuel groups w
      → hash_bit (chip_table (view w.env)) (mcast_hash_bit addr)
        ≡ (if in_bucket (mcast_hash_bit addr) groups == 0 then 0 else 1)
  Joined-hash_bit {w} addr j =
      let i = Joined-IsFiltering j in
      let bit = mcast_hash_bit addr in
      let count = i.count.counts bit (mcast_hash_bit-bound addr) in
      ap (λ t. hash_bit t bit) i.table
      ∙ rw count at (mcast_table-bit w.ctx.mcast_hash_refcount bit (omega (arith, i.count.buckets)))
