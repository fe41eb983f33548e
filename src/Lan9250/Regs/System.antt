-- ===== src/Lan9250/Regs/System.antt =====
-- The system registers and their bits, as drivers/eth_lan9250/eth_lan9250_priv.h
-- defines them (the prefix `LAN9250_` is left out).
use rp2350_zephyr_stepper.Prelude.{ℕ}

abbrev pub reset_timeout : ℕ
reset_timeout = 5000

abbrev pub spi_instr_write : ℕ
spi_instr_write = 0x02

abbrev pub spi_instr_read : ℕ
spi_instr_read = 0x03

abbrev pub tx_cmd_a_int_on_comp : ℕ
tx_cmd_a_int_on_comp = 0x80000000

abbrev pub tx_cmd_a_buffer_align_4b : ℕ
tx_cmd_a_buffer_align_4b = 0x00000000

abbrev pub tx_cmd_a_start_offset_0b : ℕ
tx_cmd_a_start_offset_0b = 0x00000000

abbrev pub tx_cmd_a_first_seg : ℕ
tx_cmd_a_first_seg = 0x00002000

abbrev pub tx_cmd_a_last_seg : ℕ
tx_cmd_a_last_seg = 0x00001000

abbrev pub tx_cmd_b_packet_tag : ℕ
tx_cmd_b_packet_tag = 0xffff0000

abbrev pub rx_sts_packet_len : ℕ
rx_sts_packet_len = 0x3fff0000

abbrev pub rx_data_fifo : ℕ
rx_data_fifo = 0x0000

abbrev pub tx_data_fifo : ℕ
tx_data_fifo = 0x0020

abbrev pub rx_status_fifo : ℕ
rx_status_fifo = 0x0040

abbrev pub tx_status_fifo : ℕ
tx_status_fifo = 0x0048

abbrev pub id_rev : ℕ
id_rev = 0x0050

abbrev pub irq_cfg : ℕ
irq_cfg = 0x0054

abbrev pub int_sts : ℕ
int_sts = 0x0058

abbrev pub int_en : ℕ
int_en = 0x005c

abbrev pub byte_test : ℕ
byte_test = 0x0064

abbrev pub fifo_int : ℕ
fifo_int = 0x0068

abbrev pub rx_cfg : ℕ
rx_cfg = 0x006c

abbrev pub tx_cfg : ℕ
tx_cfg = 0x0070

abbrev pub hw_cfg : ℕ
hw_cfg = 0x0074

abbrev pub rx_fifo_inf : ℕ
rx_fifo_inf = 0x007c

abbrev pub tx_fifo_inf : ℕ
tx_fifo_inf = 0x0080

abbrev pub pmt_ctrl : ℕ
pmt_ctrl = 0x0084

abbrev pub rx_drop : ℕ
rx_drop = 0x00a0

abbrev pub afc_cfg : ℕ
afc_cfg = 0x00ac

abbrev pub reset_ctl : ℕ
reset_ctl = 0x01f8

abbrev pub led_cfg : ℕ
led_cfg = 0x01bc

abbrev pub gpio_cfg : ℕ
gpio_cfg = 0x01e0

abbrev pub irq_cfg_int_deas_100us : ℕ
irq_cfg_int_deas_100us = 0x0a000000

abbrev pub irq_cfg_irq_en : ℕ
irq_cfg_irq_en = 0x00000100

abbrev pub irq_cfg_irq_type_pp : ℕ
irq_cfg_irq_type_pp = 0x00000001

abbrev pub int_sts_phy_int : ℕ
int_sts_phy_int = 0x04000000

abbrev pub int_sts_rsfl : ℕ
int_sts_rsfl = 0x00000008

abbrev pub int_en_phy_int_en : ℕ
int_en_phy_int_en = 0x04000000

abbrev pub int_en_rsfl_en : ℕ
int_en_rsfl_en = 0x00000008

abbrev pub byte_test_default : ℕ
byte_test_default = 0x87654321

abbrev pub botr_mask : ℕ
botr_mask = 0xffffffff

abbrev pub fifo_int_tx_data_available_level : ℕ
fifo_int_tx_data_available_level = 0xff000000

abbrev pub fifo_int_tx_status_level : ℕ
fifo_int_tx_status_level = 0x00ff0000

abbrev pub tx_cfg_tx_on : ℕ
tx_cfg_tx_on = 0x00000002

abbrev pub hw_cfg_device_ready : ℕ
hw_cfg_device_ready = 0x08000000

abbrev pub hw_cfg_mbo : ℕ
hw_cfg_mbo = 0x00100000

abbrev pub hw_cfg_tx_fif_sz_8kb : ℕ
hw_cfg_tx_fif_sz_8kb = 0x00080000

abbrev pub tx_fifo_inf_txsused : ℕ
tx_fifo_inf_txsused = 0x00ff0000

abbrev pub tx_fifo_inf_txfree : ℕ
tx_fifo_inf_txfree = 0x0000ffff

abbrev pub pmt_ctrl_pm_wake : ℕ
pmt_ctrl_pm_wake = 0x08000000

abbrev pub pmt_ctrl_wol_en : ℕ
pmt_ctrl_wol_en = 0x00000200

abbrev pub pmt_ctrl_wol_sts : ℕ
pmt_ctrl_wol_sts = 0x00000020

abbrev pub reset_ctl_hmac_rst : ℕ
reset_ctl_hmac_rst = 0x00000020

abbrev pub reset_ctl_phy_rst : ℕ
reset_ctl_phy_rst = 0x00000002

abbrev pub reset_ctl_digital_rst : ℕ
reset_ctl_digital_rst = 0x00000001

abbrev pub id_rev_chip_id : ℕ
id_rev_chip_id = 0xffff0000

abbrev pub id_rev_chip_id_default : ℕ
id_rev_chip_id_default = 0x92500000
