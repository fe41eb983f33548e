-- ===== src/Lan9250/Filter/Total.antt =====
-- `lan9250_set_config` comes to an end.
use rp2350_zephyr_stepper.Prelude.{ℕ, ◌<◌, Bool, List}
use rp2350_zephyr_stepper.Lan9250.World.{Hw}
use rp2350_zephyr_stepper.Lan9250.Bus.Total.{IsKernel, IsTotal}
use rp2350_zephyr_stepper.Lan9250.Bus.Rules.{total_rules}
use rp2350_zephyr_stepper.Lan9250.Setup.{set_macaddr}
use rp2350_zephyr_stepper.Lan9250.Filter.{
  Config, mac_address, promisc_mode, filter_dst, filter_src, unsupported, mcast_hash_write,
  set_filter, set_promisc, set_config,
}

module _ {E : Type 0} (hw : Hw E) (kernel : IsKernel hw) (fuel : ℕ) (enough : 5000 < fuel) where
  pub set_macaddr-IsTotal : IsTotal hw (set_macaddr hw fuel)
  unfolding set_macaddr
  set_macaddr-IsTotal = search total_rules

  mcast_hash_write-IsTotal : IsTotal hw (mcast_hash_write hw fuel)
  unfolding mcast_hash_write
  mcast_hash_write-IsTotal = search total_rules

  set_filter-IsTotal : (joins : Bool) (addr : List ℕ) → IsTotal hw (set_filter hw fuel joins addr)
  unfolding set_filter
  set_filter-IsTotal joins addr = search (total_rules, mcast_hash_write-IsTotal)

  set_promisc-IsTotal : (mode : Bool) → IsTotal hw (set_promisc hw fuel mode)
  unfolding set_promisc
  set_promisc-IsTotal mode = search total_rules

  -- On a kernel whose SPI calls return and whose waits last, every call of lan9250_set_config
  -- comes to an end with a result, whatever the chip answers, for any fuel above 5000.
  pub set_config-IsTotal : (c : Config) → IsTotal hw (set_config hw fuel c)
  unfolding set_config
  set_config-IsTotal (mac_address mac) = search (total_rules, set_macaddr-IsTotal)
  set_config-IsTotal (promisc_mode mode) = search (total_rules, set_promisc-IsTotal)
  set_config-IsTotal (filter_dst joins addr) = set_filter-IsTotal joins addr
  set_config-IsTotal (filter_src joins addr) = search total_rules
  set_config-IsTotal unsupported = search total_rules
