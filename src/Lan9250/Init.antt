-- ===== src/Lan9250/Init.antt =====
-- `lan9250_init` and the interrupt thread (drivers/eth_lan9250/eth_lan9250.c).
pub mod Order
pub mod Round
pub mod Starts
use rp2350_zephyr_stepper.Prelude.{
  ℕ, Bool, true, false, not, Option, none, some, List, ◌==◌, if◌then◌else◌, bit_and,
}
use rp2350_zephyr_stepper.Lan9250.World.{
  Hw, Io, Ret, pure, fail, ◌>>=◌, ◌>>◌, attempt, emit, carrier, get_ctx, put_ctx,
}
use rp2350_zephyr_stepper.Lan9250.Regs.{
  int_en, int_sts, int_sts_phy_int, int_sts_rsfl, phy_interrupt_source,
  phy_interrupt_source_link_up, phy_interrupt_source_link_down, phy_special_control_status,
  phy_special_control_stat_ind,
}
use rp2350_zephyr_stepper.Lan9250.Bus.{wait, write_sys_reg, read_sys_reg, read_phy_reg}
use rp2350_zephyr_stepper.Lan9250.Setup.{load_unique_mac_address, set_macaddr, sw_reset, configure}
use rp2350_zephyr_stepper.Lan9250.Clock.{ieee1588_init, ieee1588_timestamping_init, ieee1588_enable}
use rp2350_zephyr_stepper.Lan9250.Rx.{rx}

abbrev pub einval : ℕ
einval = 22

-- What the kernel answers about the SPI port and the GPIO pins of the devicetree, and the MAC
-- address of the devicetree.
pub record Platform : Type 0 where
  pub spi_is_ready : Bool
  pub interrupt_is_ready : Bool
  pub interrupt_set_up : Ret (Unit {0})
  pub has_reset : Bool
  pub reset_is_ready : Bool
  pub reset_configured : Ret (Unit {0})
  pub devicetree_mac : List ℕ

-- A read whose result is not checked: on an error the variable keeps what it held.
unfoldable pub or_keep : ℕ → Option ℕ → ℕ
or_keep old none = old
or_keep old (some v) = v

-- The locals of the interrupt thread, which live from one round to the next.
pub record Locals : Type 0 where
  pub int_status : ℕ
  pub source : ℕ
  pub enabled : ℕ

module _ {E : Type 0} where
  abbrev pub answer : Ret (Unit {0}) → Io E (Unit {0})
  answer r w = (r, w)

  unfoldable pub require : Bool → Io E (Unit {0})
  require true = pure tt
  require false = fail einval

module _ {E : Type 0} (hw : Hw E) (fuel : ℕ) where
  -- The pulse on the reset pin; its 250 microseconds count as one millisecond here.
  unfoldable pub hard_reset : Platform → Io E (Unit {0})
  hard_reset p =
      if p.has_reset
      then (do require p.reset_is_ready; answer p.reset_configured; wait hw 1; wait hw 20)
      else pure tt

  -- The three 1588 steps, in their order.
  unfoldable pub ieee1588_setup : Io E (Unit {0})
  ieee1588_setup = do ieee1588_init hw; ieee1588_timestamping_init hw; ieee1588_enable hw

  unfoldable pub set_devicetree_mac : Platform → Io E (Unit {0})
  set_devicetree_mac p = do c ← get_ctx; put_ctx (record c { mac_address = p.devicetree_mac })

  unfoldable pub init : ℕ → Platform → Io E (Unit {0})
  init ready p = do
    require p.spi_is_ready
    require p.interrupt_is_ready
    answer p.interrupt_set_up
    hard_reset p
    sw_reset hw fuel
    configure hw fuel ready
    set_devicetree_mac p
    load_unique_mac_address hw
    set_macaddr hw fuel
    ieee1588_setup

  unfoldable pub link_event : ℕ → Io E (Unit {0})
  link_event source =
      if not (bit_and source phy_interrupt_source_link_up == 0)
      then (do
        _ ← attempt (read_phy_reg hw fuel phy_special_control_status)
        _ ← attempt (read_phy_reg hw fuel phy_special_control_stat_ind)
        emit (carrier true))
      else if not (bit_and source phy_interrupt_source_link_down == 0)
      then emit (carrier false)
      else pure tt

  unfoldable pub serve_phy : Locals → Io E ℕ
  serve_phy l = if bit_and l.int_status int_sts_phy_int == 0 then pure l.source else do
    v ← attempt (read_phy_reg hw fuel phy_interrupt_source)
    let source = or_keep l.source v
    link_event source
    pure source

  unfoldable pub serve_rx : Locals → Io E (Unit {0})
  serve_rx l =
      if bit_and l.int_status int_sts_rsfl == 0
      then pure tt
      else do _ ← attempt (write_sys_reg hw int_sts int_sts_rsfl); _ ← attempt (rx hw); pure tt

  -- One round of the thread after an interrupt.
  unfoldable pub thread_round : Locals → Io E Locals
  thread_round l = do
    ier ← attempt (read_sys_reg hw int_en)
    _ ← attempt (write_sys_reg hw int_en 0)
    sts ← attempt (read_sys_reg hw int_sts)
    let l1 : Locals = record {
      int_status = or_keep l.int_status sts;
      source = l.source;
      enabled = or_keep l.enabled ier;
    }
    source ← serve_phy l1
    serve_rx l1
    _ ← attempt (write_sys_reg hw int_en l1.enabled)
    pure (record l1 { source = source })
