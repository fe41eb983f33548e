-- ===== src/Lan9250/Regs/Mac.antt =====
-- The host MAC and PHY registers and their bits, as drivers/eth_lan9250/eth_lan9250_priv.h
-- defines them (the prefix `LAN9250_` is left out).
use rp2350_zephyr_stepper.Prelude.{ℕ}

abbrev pub phy_timeout : ℕ
phy_timeout = 2000

abbrev pub mac_timeout : ℕ
mac_timeout = 2000

abbrev pub mac_csr_cmd : ℕ
mac_csr_cmd = 0x00a4

abbrev pub mac_csr_data : ℕ
mac_csr_data = 0x00a8

abbrev pub hmac_cr : ℕ
hmac_cr = 0x01

abbrev pub hmac_addrh : ℕ
hmac_addrh = 0x02

abbrev pub hmac_addrl : ℕ
hmac_addrl = 0x03

abbrev pub hmac_hashh : ℕ
hmac_hashh = 0x04

abbrev pub hmac_hashl : ℕ
hmac_hashl = 0x05

abbrev pub hmac_mii_acc : ℕ
hmac_mii_acc = 0x06

abbrev pub hmac_mii_data : ℕ
hmac_mii_data = 0x07

abbrev pub phy_basic_control : ℕ
phy_basic_control = 0x00

abbrev pub phy_an_adv : ℕ
phy_an_adv = 0x04

abbrev pub phy_special_modes : ℕ
phy_special_modes = 0x12

abbrev pub phy_special_control_stat_ind : ℕ
phy_special_control_stat_ind = 0x1b

abbrev pub phy_interrupt_source : ℕ
phy_interrupt_source = 0x1d

abbrev pub phy_interrupt_mask : ℕ
phy_interrupt_mask = 0x1e

abbrev pub phy_special_control_status : ℕ
phy_special_control_status = 0x1f

abbrev pub mac_csr_cmd_busy : ℕ
mac_csr_cmd_busy = 0x80000000

abbrev pub mac_csr_cmd_read : ℕ
mac_csr_cmd_read = 0x40000000

abbrev pub hmac_cr_fdpx : ℕ
hmac_cr_fdpx = 0x00100000

abbrev pub hmac_cr_mcpas : ℕ
hmac_cr_mcpas = 0x00080000

abbrev pub hmac_cr_prms : ℕ
hmac_cr_prms = 0x00040000

abbrev pub hmac_cr_ho : ℕ
hmac_cr_ho = 0x00008000

abbrev pub hmac_cr_hpfilt : ℕ
hmac_cr_hpfilt = 0x00002000

abbrev pub hmac_cr_padstr : ℕ
hmac_cr_padstr = 0x00000100

abbrev pub hmac_cr_txen : ℕ
hmac_cr_txen = 0x00000008

abbrev pub hmac_cr_rxen : ℕ
hmac_cr_rxen = 0x00000004

abbrev pub hmac_mii_acc_miiw_r : ℕ
hmac_mii_acc_miiw_r = 0x00000002

abbrev pub hmac_mii_acc_miibzy : ℕ
hmac_mii_acc_miibzy = 0x00000001

abbrev pub phy_basic_control_phy_speed_sel_lsb : ℕ
phy_basic_control_phy_speed_sel_lsb = 0x2000

abbrev pub phy_basic_control_phy_an : ℕ
phy_basic_control_phy_an = 0x1000

abbrev pub phy_basic_control_phy_duplex : ℕ
phy_basic_control_phy_duplex = 0x0100

abbrev pub phy_an_adv_asym_pause : ℕ
phy_an_adv_asym_pause = 0x0800

abbrev pub phy_an_adv_sym_pause : ℕ
phy_an_adv_sym_pause = 0x0400

abbrev pub phy_an_adv_100btx_fd : ℕ
phy_an_adv_100btx_fd = 0x0100

abbrev pub phy_an_adv_100btx_hd : ℕ
phy_an_adv_100btx_hd = 0x0080

abbrev pub phy_an_adv_10bt_fd : ℕ
phy_an_adv_10bt_fd = 0x0040

abbrev pub phy_an_adv_10bt_hd : ℕ
phy_an_adv_10bt_hd = 0x0020

abbrev pub phy_an_adv_selector_default : ℕ
phy_an_adv_selector_default = 0x0001

abbrev pub phy_mode_control_status_altint : ℕ
phy_mode_control_status_altint = 0x0040

abbrev pub phy_special_control_stat_ind_amdixctrl : ℕ
phy_special_control_stat_ind_amdixctrl = 0x8000

abbrev pub phy_special_control_stat_ind_amdixen : ℕ
phy_special_control_stat_ind_amdixen = 0x4000

abbrev pub phy_special_control_stat_ind_sqeoff : ℕ
phy_special_control_stat_ind_sqeoff = 0x0800

abbrev pub phy_interrupt_source_link_up : ℕ
phy_interrupt_source_link_up = 0x0200

abbrev pub phy_interrupt_source_link_down : ℕ
phy_interrupt_source_link_down = 0x0010
