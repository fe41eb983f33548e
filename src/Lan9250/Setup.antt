-- ===== src/Lan9250/Setup.antt =====
-- Reset, configuration and MAC address (drivers/eth_lan9250/eth_lan9250.c).
use rp2350_zephyr_stepper.Prelude.{
  ℕ, zero, suc, ◌-◌, ◌*◌, ◌^◌, List, [], ◌∷◌, ◌==◌, ltb, if◌then◌else◌, bit_and, bit_or, get_or,
  drop, length,
}
use rp2350_zephyr_stepper.Lan9250.World.{
  Hw, Io, Ret, ok, err, hang, pure, fail, blocked, ◌>>=◌, ◌>>◌, get_ctx, enodev,
}
use rp2350_zephyr_stepper.Lan9250.Regs.{
  hw_cfg, hw_cfg_device_ready, reset_ctl, reset_ctl_hmac_rst, reset_ctl_phy_rst,
  reset_ctl_digital_rst, byte_test, botr_mask, byte_test_default, reset_timeout, id_rev,
  id_rev_chip_id, id_rev_chip_id_default, hw_cfg_mbo, hw_cfg_tx_fif_sz_8kb, afc_cfg, irq_cfg,
  irq_cfg_int_deas_100us, irq_cfg_irq_en, irq_cfg_irq_type_pp, int_en, int_en_phy_int_en,
  int_en_rsfl_en, fifo_int, fifo_int_tx_data_available_level, fifo_int_tx_status_level, rx_cfg,
  pmt_ctrl, pmt_ctrl_pm_wake, pmt_ctrl_wol_en, pmt_ctrl_wol_sts, phy_basic_control,
  phy_basic_control_phy_an, phy_basic_control_phy_speed_sel_lsb, phy_basic_control_phy_duplex,
  phy_an_adv, phy_an_adv_asym_pause, phy_an_adv_sym_pause, phy_an_adv_100btx_hd,
  phy_an_adv_100btx_fd, phy_an_adv_10bt_hd, phy_an_adv_10bt_fd, phy_an_adv_selector_default,
  phy_special_modes, phy_special_control_stat_ind, phy_special_control_stat_ind_amdixctrl,
  phy_special_control_stat_ind_amdixen, phy_special_control_stat_ind_sqeoff, phy_interrupt_mask,
  phy_interrupt_source_link_up, phy_interrupt_source_link_down, phy_special_control_status,
  phy_mode_control_status_altint, int_sts, hmac_cr, hmac_cr_padstr, hmac_cr_txen, hmac_cr_rxen,
  hmac_cr_fdpx, hmac_cr_hpfilt, hmac_hashl, hmac_hashh, tx_cfg, tx_cfg_tx_on, hmac_addrl,
  hmac_addrh,
}
use rp2350_zephyr_stepper.Lan9250.Bus.{
  wait, write_sys_reg, read_sys_reg, wait_ready, write_mac_reg, write_phy_reg,
}

-- The or of a list of flags, from the left.
abbrev pub flags : ℕ → List ℕ → ℕ
flags acc [] = acc
flags acc (f ∷ fs) = flags (bit_or acc f) fs

-- The MAC address as the two address registers hold it.
unfoldable pub mac_low : List ℕ → ℕ
mac_low mac =
    bit_or (bit_or (bit_or (get_or mac 0 0) (get_or mac 1 0 * 2 ^ 8)) (get_or mac 2 0 * 2 ^ 16))
      (get_or mac 3 0 * 2 ^ 24)

unfoldable pub mac_high : List ℕ → ℕ
mac_high mac = bit_or (get_or mac 4 0) (get_or mac 5 0 * 2 ^ 8)

-- `mac_address[0] &= ~0x01; mac_address[0] |= 0x02;` on a byte.
abbrev pub local_byte : ℕ → ℕ
local_byte b = bit_or (bit_and b 0xfe) 0x02

unfoldable pub local_unicast : List ℕ → List ℕ
local_unicast [] = []
local_unicast (b ∷ rest) = local_byte b ∷ rest

-- The MAC address that a chip ID of these bytes gives in place of `mac`: with fewer than six bytes
-- `mac` stays.
unfoldable pub unique_mac : Ret (List ℕ) → List ℕ → List ℕ
unique_mac (ok id) mac = if ltb (length id) 6 then mac else local_unicast (drop (length id - 6) id)
unique_mac (err e) mac = mac
unique_mac hang mac = mac

module _ {E : Type 0} (hw : Hw E) where
  unfoldable pub load_unique_mac_address : Io E (Unit {0})
  load_unique_mac_address w =
      let mac = unique_mac (hw.device_id w.env) w.ctx.mac_address in
      (ok tt, record w { ctx = record w.ctx { mac_address = mac } })

  -- `do … while ((tmp & DEVICE_READY) == 0)`, without a timeout in the source.
  unfoldable pub hw_cfg_check : ℕ → Io E (Unit {0})
  hw_cfg_check zero = blocked
  hw_cfg_check (suc fuel) = do
    tmp ← read_sys_reg hw hw_cfg
    wait hw 1
    if bit_and tmp hw_cfg_device_ready == 0 then hw_cfg_check fuel else pure tt

  module _ (fuel : ℕ) where
    unfoldable pub set_macaddr : Io E (Unit {0})
    set_macaddr = do
      c ← get_ctx
      write_mac_reg hw fuel hmac_addrl (mac_low c.mac_address)
      write_mac_reg hw fuel hmac_addrh (mac_high c.mac_address)

    unfoldable pub sw_reset : Io E (Unit {0})
    sw_reset = do
      write_sys_reg hw reset_ctl
          (flags reset_ctl_hmac_rst (reset_ctl_phy_rst ∷ reset_ctl_digital_rst ∷ []))
      wait_ready hw fuel byte_test botr_mask byte_test_default reset_timeout

    -- The system registers of `lan9250_configure`, up to the power management.
    unfoldable pub configure_sys : Io E (Unit {0})
    configure_sys = do
      write_sys_reg hw hw_cfg (bit_or hw_cfg_mbo hw_cfg_tx_fif_sz_8kb)
      write_sys_reg hw afc_cfg 0x006e_3741
      write_sys_reg hw irq_cfg
          (flags irq_cfg_int_deas_100us (irq_cfg_irq_en ∷ irq_cfg_irq_type_pp ∷ []))
      write_sys_reg hw int_en (bit_or int_en_phy_int_en int_en_rsfl_en)
      write_sys_reg hw fifo_int (bit_or fifo_int_tx_data_available_level fifo_int_tx_status_level)
      write_sys_reg hw rx_cfg (bit_or 0x0600_0000 0x0000_0400)
      write_sys_reg hw pmt_ctrl (flags pmt_ctrl_pm_wake (pmt_ctrl_wol_en ∷ pmt_ctrl_wol_sts ∷ []))

    unfoldable pub configure_phy : Io E (Unit {0})
    configure_phy = do
      write_phy_reg hw fuel phy_basic_control (
          flags phy_basic_control_phy_an
            (phy_basic_control_phy_speed_sel_lsb ∷ phy_basic_control_phy_duplex ∷ []))
      write_phy_reg hw fuel phy_an_adv (
          flags phy_an_adv_asym_pause (
            phy_an_adv_sym_pause ∷ phy_an_adv_100btx_hd ∷ phy_an_adv_100btx_fd ∷ phy_an_adv_10bt_hd
            ∷ phy_an_adv_10bt_fd ∷ phy_an_adv_selector_default ∷ []))
      write_phy_reg hw fuel phy_special_modes (bit_or 0x00e0 1)
      write_phy_reg hw fuel phy_special_control_stat_ind (
          flags phy_special_control_stat_ind_amdixctrl
            (phy_special_control_stat_ind_amdixen ∷ phy_special_control_stat_ind_sqeoff ∷ []))
      write_phy_reg hw fuel phy_interrupt_mask
          (bit_or phy_interrupt_source_link_up phy_interrupt_source_link_down)
      write_phy_reg hw fuel phy_special_control_status phy_mode_control_status_altint

    unfoldable pub configure_mac : Io E (Unit {0})
    configure_mac = do
      write_sys_reg hw int_sts 0xffff_ffff
      write_mac_reg hw fuel hmac_cr
          (flags hmac_cr_padstr (hmac_cr_txen ∷ hmac_cr_rxen ∷ hmac_cr_fdpx ∷ hmac_cr_hpfilt ∷ []))
      write_mac_reg hw fuel hmac_hashl 0
      write_mac_reg hw fuel hmac_hashh 0
      write_sys_reg hw tx_cfg tx_cfg_tx_on

    -- `ready` is the fuel of the check that the source leaves unbounded.
    unfoldable pub configure : ℕ → Io E (Unit {0})
    configure ready = do
      hw_cfg_check ready
      tmp ← read_sys_reg hw id_rev
      if bit_and tmp id_rev_chip_id == id_rev_chip_id_default
          then configure_sys >> (configure_phy >> configure_mac)
          else fail enodev
