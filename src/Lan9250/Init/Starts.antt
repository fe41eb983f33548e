-- ===== src/Lan9250/Init/Starts.antt =====
-- `lan9250_init` comes to an end on a chip that gets ready.
use rp2350_zephyr_stepper.Prelude.{
  ℕ, zero, suc, ◌+◌, ◌<◌, ◌≤◌, ◌≡◌, ◌≢◌, Bool, true, false, List, arith, refl, ◌==◌, bit_and,
  if◌then◌else◌, leb, Bool-cases, inl, inr,
}
use rp2350_zephyr_stepper.Lan9250.World.{World, Hw, Ret, ok, err, hang, pure, and_then, ◌>>◌}
use rp2350_zephyr_stepper.Lan9250.Regs.{
  hw_cfg, hw_cfg_device_ready, reset_timeout, byte_test, botr_mask, byte_test_default,
}
use rp2350_zephyr_stepper.Lan9250.Bus.{get_le32, spi_transceive_dt, read_sys_reg, wait}
use rp2350_zephyr_stepper.Lan9250.Bus.Frames.{read_frame}
use rp2350_zephyr_stepper.Lan9250.Bus.Total.{
  IsKernel, IsTotal, IsTotal-then, Ends, Ends-later, wait_ready-IsTotal, read_sys_reg-IsTotal,
}
use rp2350_zephyr_stepper.Lan9250.Bus.Rules.{total_rules}
use rp2350_zephyr_stepper.Lan9250.Setup.{
  hw_cfg_check, load_unique_mac_address, sw_reset, configure_sys, configure_phy, configure_mac,
  configure,
}
use rp2350_zephyr_stepper.Lan9250.Filter.Total.{set_macaddr-IsTotal}
use rp2350_zephyr_stepper.Lan9250.Clock.{
  ieee1588_init, ieee1588_timestamping_init, timestamping_config, ieee1588_enable, bank_select,
}
use rp2350_zephyr_stepper.Lan9250.Init.{
  Platform, answer, require, hard_reset, set_devicetree_mac, ieee1588_setup, init,
}

-- From `up` milliseconds on, the chip answers the read of HW_CFG, with DEVICE_READY set.
pub record GetsReady {E : Type 0} (hw : Hw E) (up : ℕ) : Type 0 where
  pub answers :
      (e : E)
      → up ≤ hw.uptime e
      → (bytes : List ℕ) × ((hw.spi_read (read_frame hw_cfg) 4 e).0 ≡ ok bytes)
        × ((bit_and (get_le32 bytes) hw_cfg_device_ready == 0) ≡ false)

module _ {E : Type 0} (hw : Hw E) (kernel : IsKernel hw) where
  module _ (up : ℕ) (chip : GetsReady hw up) where
    -- Once the chip is up, one round is enough.
    hw_cfg_check-up :
        (ready : ℕ) (w : World E)
        → up ≤ hw.uptime w.env
        → Ends hw (hw.uptime w.env) (hw_cfg_check hw (suc ready) w)
    unfolding hw_cfg_check read_sys_reg spi_transceive_dt wait
    hw_cfg_check-up ready w h =
        let (bytes, e, set) = chip.answers w.env h in
        let env = (hw.spi_read (read_frame hw_cfg) 4 w.env).1 in
        let t = kernel.read_time (read_frame hw_cfg) 4 w.env in
        let u = kernel.wait_time 1 env in rw (e, set) (omega arith)

    -- A round before that, and those that are left.
    hw_cfg_check-round :
        (ready s : ℕ) (r : Ret ℕ × World E)
        → Ends hw s r
        → s < up
        → up < s + suc ready
        → ((w : World E)
            → up < hw.uptime w.env + ready
            → Ends hw (hw.uptime w.env) (hw_cfg_check hw ready w))
        → Ends hw s (
            and_then r λ tmp.
              wait hw 1
              >> (if bit_and tmp hw_cfg_device_ready == 0 then hw_cfg_check hw ready else pure tt))
    unfolding wait
    hw_cfg_check-round ready s (err x, w) e early h rest = e
    hw_cfg_check-round ready s (hang, w) e early h rest = e
    hw_cfg_check-round ready s (ok tmp, w) e early h rest =
        let w' : World E = record w { env = hw.wait_ms 1 w.env } in
        let t = kernel.wait_time 1 w.env in
        elim (Bool-cases (bit_and tmp hw_cfg_device_ready == 0)) [
          | inl again ↦ rw again (
              Ends-later hw s (hw.uptime w'.env) (hw_cfg_check hw ready w') (omega arith)
                (rest w' (omega arith)))
          | inr done ↦ rw done (omega arith)
        ]

    -- The loop that the source leaves unbounded.
    hw_cfg_check-Ends :
        (ready : ℕ) (w : World E)
        → 0 < ready
        → up < hw.uptime w.env + ready
        → Ends hw (hw.uptime w.env) (hw_cfg_check hw ready w)
    unfolding hw_cfg_check
    hw_cfg_check-Ends zero w p h = absurd (omega arith)
    hw_cfg_check-Ends (suc ready) w p h = elim (Bool-cases (leb up (hw.uptime w.env))) [
      | inl late ↦ hw_cfg_check-up ready w (ground arith)
      | inr early ↦
          hw_cfg_check-round ready (hw.uptime w.env) (read_sys_reg hw hw_cfg w)
            (read_sys_reg-IsTotal hw kernel hw_cfg w) (ground arith) h
            λ w' h'. hw_cfg_check-Ends ready w' (ground arith) h'
    ]

    hw_cfg_check-IsTotal : (ready : ℕ) → up < ready → IsTotal hw (hw_cfg_check hw ready)
    hw_cfg_check-IsTotal ready h w = hw_cfg_check-Ends ready w (omega arith) (omega arith)

  require-IsTotal : (b : Bool) → IsTotal hw (require b)
  unfolding require
  require-IsTotal true = search total_rules
  require-IsTotal false = search total_rules

  answer-IsTotal : (r : Ret (Unit {0})) → r ≢ hang → IsTotal hw (answer r)
  answer-IsTotal (ok t) h w = omega arith
  answer-IsTotal (err e) h w = omega arith
  answer-IsTotal hang h w = absurd (h refl)

  ieee1588_setup-IsTotal : (fuel : ℕ) → IsTotal hw (ieee1588_setup hw fuel)
  unfolding ieee1588_setup ieee1588_init ieee1588_timestamping_init timestamping_config
      ieee1588_enable bank_select
  ieee1588_setup-IsTotal fuel = search total_rules depth 20

  load-IsTotal : IsTotal hw (load_unique_mac_address hw)
  unfolding load_unique_mac_address
  load-IsTotal w = omega arith

  set_devicetree_mac-IsTotal : (fuel : ℕ) (p : Platform) → IsTotal hw (set_devicetree_mac hw fuel p)
  unfolding set_devicetree_mac
  set_devicetree_mac-IsTotal fuel p = search total_rules

  configure_sys-IsTotal : (fuel : ℕ) → IsTotal hw (configure_sys hw fuel)
  unfolding configure_sys
  configure_sys-IsTotal fuel = search total_rules depth 20

  module _ (fuel : ℕ) (enough : 5000 < fuel) where
    configure_phy-IsTotal : IsTotal hw (configure_phy hw fuel)
    unfolding configure_phy
    configure_phy-IsTotal = search total_rules depth 20

    configure_mac-IsTotal : IsTotal hw (configure_mac hw fuel)
    unfolding configure_mac
    configure_mac-IsTotal = search total_rules depth 20

    sw_reset-IsTotal : IsTotal hw (sw_reset hw fuel)
    unfolding sw_reset
    sw_reset-IsTotal =
        let byte_order =
          wait_ready-IsTotal hw kernel fuel enough byte_test botr_mask byte_test_default
            reset_timeout (omega arith) in
        search (total_rules, byte_order)

    hard_reset-IsTotal :
        (p : Platform) → p.reset_configured ≢ hang → IsTotal hw (hard_reset hw fuel p)
    unfolding hard_reset
    hard_reset-IsTotal p h =
        let configured = answer-IsTotal p.reset_configured h in
        search (total_rules, require-IsTotal, configured)

    module _ (up : ℕ) (chip : GetsReady hw up) (ready : ℕ) (rounds : up < ready) where
      configure-IsTotal : IsTotal hw (configure hw fuel ready)
      unfolding configure
      configure-IsTotal =
          let checked = hw_cfg_check-IsTotal up chip ready rounds in
          search
            (
              total_rules, checked, configure_sys-IsTotal, configure_phy-IsTotal,
              configure_mac-IsTotal,
            )
            depth 12

      -- On a kernel whose SPI calls return and whose waits last, lan9250_init comes to an end with
      -- a result, for any fuel above 5000, if the chip answers HW_CFG with DEVICE_READY from some
      -- millisecond on and the loop that waits for it may take more rounds than that, and if the
      -- calls that set up the pins return.
      pub init-IsTotal :
          (p : Platform)
          → p.interrupt_set_up ≢ hang
          → p.reset_configured ≢ hang
          → IsTotal hw (init hw fuel ready p)
      unfolding init
      init-IsTotal p h k = IsTotal-then hw _ _ (require-IsTotal p.spi_is_ready) (
          IsTotal-then hw _ _ (require-IsTotal p.interrupt_is_ready) (
            IsTotal-then hw _ _ (answer-IsTotal p.interrupt_set_up h) (
              IsTotal-then hw _ _ (hard_reset-IsTotal p k) (
                IsTotal-then hw _ _ sw_reset-IsTotal (
                  IsTotal-then hw _ _ configure-IsTotal (
                    IsTotal-then hw _ _ (set_devicetree_mac-IsTotal fuel p) (
                      IsTotal-then hw _ _ load-IsTotal (
                        IsTotal-then hw _ _ (set_macaddr-IsTotal hw kernel fuel enough)
                          (ieee1588_setup-IsTotal fuel)))))))))
