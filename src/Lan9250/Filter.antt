-- ===== src/Lan9250/Filter.antt =====
-- The multicast hash filter and `lan9250_set_config` (drivers/eth_lan9250/eth_lan9250.c).
pub mod Total
pub mod Counts
pub mod Hash
pub mod Members
pub mod Chip
use rp2350_zephyr_stepper.Prelude.{
  ℕ, zero, suc, ◌+◌, ◌-◌, ◌/◌, ◌%◌, ◌^◌, Bool, true, false, not, List, [], ◌∷◌, ltb, ◌==◌,
  if◌then◌else◌, bit_and, bit_or, bit_xor, get_or, set,
}
use rp2350_zephyr_stepper.Lan9250.World.{
  Hw, Io, fail, ◌>>=◌, ◌>>◌, get_ctx, put_ctx, enotsup, ealready,
}
use rp2350_zephyr_stepper.Lan9250.Regs.{
  hmac_hashl, hmac_hashh, hmac_cr, hmac_cr_prms, hmac_cr_mcpas, hmac_cr_ho, hmac_cr_hpfilt,
}
use rp2350_zephyr_stepper.Lan9250.Bus.{clear_bits, read_mac_reg, write_mac_reg}
use rp2350_zephyr_stepper.Lan9250.Setup.{set_macaddr}

-- One bit, eight bits, and the six bytes of an address through the CRC register.
unfoldable pub crc_bits : ℕ → ℕ → ℕ → ℕ
crc_bits zero crc byte = crc
crc_bits (suc n) crc byte =
    crc_bits n (bit_xor (crc / 2) (if bit_and (bit_xor crc byte) 1 == 0 then 0 else 0xedb8_8320))
      (byte / 2)

unfoldable pub crc_bytes : ℕ → List ℕ → ℕ
crc_bytes crc [] = crc
crc_bytes crc (byte ∷ rest) = crc_bytes (crc_bits 8 crc byte) rest

unfoldable pub ether_crc : List ℕ → ℕ
unfolding crc_bytes crc_bits
ether_crc addr = crc_bytes 0xffff_ffff addr

unfoldable pub mcast_hash_bit : List ℕ → ℕ
mcast_hash_bit addr = ether_crc addr / 2 ^ 26

-- The two halves of the hash table.
pub record HashWords : Type 0 where
  pub hashl : ℕ
  pub hashh : ℕ

-- The loop over the counters, from bit `bit` on.
unfoldable pub hash_words : HashWords → List ℕ → ℕ → HashWords
hash_words w [] bit = w
hash_words w (n ∷ rest) bit =
    hash_words
      (if n == 0
        then w
        else if ltb bit 32
        then record w { hashl = bit_or w.hashl (2 ^ bit) }
        else record w { hashh = bit_or w.hashh (2 ^ (bit - 32)) })
      rest (suc bit)

unfoldable pub mcast_table : List ℕ → HashWords
mcast_table counters = hash_words (record { hashl = 0; hashh = 0 }) counters 0

-- `uint8_t` counters.
unfoldable pub counted : Bool → ℕ → ℕ
counted true n = (n + 1) % 2 ^ 8
counted false n = if ltb 0 n then n - 1 else n

-- The counters after a join (`true`) or a leave of the group `addr`.
unfoldable pub refcounted : Bool → List ℕ → List ℕ → List ℕ
refcounted joins addr counters =
    let bit = mcast_hash_bit addr in set counters bit (counted joins (get_or counters bit 0))

-- What `struct ethernet_config` can carry here.
pub data Config : Type 0 where
  mac_address : List ℕ → Config
  promisc_mode : Bool → Config
  filter_dst filter_src : Bool → List ℕ → Config
  unsupported : Config

-- The new value of HMAC_CR.
unfoldable pub promisc_on : ℕ → ℕ
promisc_on reg = clear_bits (bit_or (clear_bits reg hmac_cr_mcpas) hmac_cr_prms) hmac_cr_ho

unfoldable pub promisc_off : ℕ → ℕ
promisc_off reg =
    clear_bits (clear_bits (bit_or (clear_bits reg hmac_cr_mcpas) hmac_cr_hpfilt) hmac_cr_prms)
      hmac_cr_ho

module _ {E : Type 0} (hw : Hw E) (fuel : ℕ) where
  unfoldable pub mcast_hash_write : Io E (Unit {0})
  mcast_hash_write = do
    c ← get_ctx
    let w = mcast_table c.mcast_hash_refcount
    write_mac_reg hw fuel hmac_hashl w.hashl
    write_mac_reg hw fuel hmac_hashh w.hashh

  unfoldable pub set_filter : Bool → List ℕ → Io E (Unit {0})
  set_filter joins addr = if bit_and (get_or addr 0 0) 1 == 0 then fail enotsup else do
    c ← get_ctx
    put_ctx (record c { mcast_hash_refcount = refcounted joins addr c.mcast_hash_refcount })
    mcast_hash_write

  unfoldable pub set_promisc : Bool → Io E (Unit {0})
  set_promisc mode = do
    reg ← read_mac_reg hw fuel hmac_cr
    let already = if bit_and reg hmac_cr_prms == 0 then not mode else mode
    if already
        then fail ealready
        else write_mac_reg hw fuel hmac_cr (if mode then promisc_on reg else promisc_off reg)

  unfoldable pub set_config : Config → Io E (Unit {0})
  set_config (mac_address mac) = do
    c ← get_ctx
    put_ctx (record c { mac_address = mac })
    set_macaddr hw fuel
  set_config (promisc_mode mode) = if hw.promiscuous_mode then set_promisc mode else fail enotsup
  set_config (filter_dst joins addr) = set_filter joins addr
  set_config (filter_src joins addr) = fail enotsup
  set_config unsupported = fail enotsup
