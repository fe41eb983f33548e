-- ===== src/Lan9250/Regs/Ieee1588.antt =====
-- The registers of the 1588 unit and their bits, as drivers/eth_lan9250/eth_lan9250_priv.h
-- defines them (the prefix `LAN9250_` is left out).
use rp2350_zephyr_stepper.Prelude.{ℕ}

abbrev pub ieee1588_cmd_ctl : ℕ
ieee1588_cmd_ctl = 0x0100

abbrev pub ieee1588_general_config : ℕ
ieee1588_general_config = 0x0104

abbrev pub ieee1588_int_sts : ℕ
ieee1588_int_sts = 0x0108

abbrev pub ieee1588_clock_sec : ℕ
ieee1588_clock_sec = 0x0110

abbrev pub ieee1588_clock_ns : ℕ
ieee1588_clock_ns = 0x0114

abbrev pub ieee1588_clock_subns : ℕ
ieee1588_clock_subns = 0x0118

abbrev pub ieee1588_clock_rate_adj : ℕ
ieee1588_clock_rate_adj = 0x011c

abbrev pub ieee1588_clock_rate_adj_dir : ℕ
ieee1588_clock_rate_adj_dir = 0x80000000

abbrev pub ieee1588_clock_rate_adj_value_mask : ℕ
ieee1588_clock_rate_adj_value_mask = 0x3fffffff

abbrev pub ieee1588_int_sts_tx_ts_int : ℕ
ieee1588_int_sts_tx_ts_int = 0x00001000

abbrev pub ieee1588_int_sts_rx_ts_int : ℕ
ieee1588_int_sts_rx_ts_int = 0x00000100

abbrev pub ieee1588_bank_port_gpio_sel : ℕ
ieee1588_bank_port_gpio_sel = 0x0154

abbrev pub ieee1588_bank_sel_port_general : ℕ
ieee1588_bank_sel_port_general = 0

abbrev pub ieee1588_bank_sel_port_rx : ℕ
ieee1588_bank_sel_port_rx = 1

abbrev pub ieee1588_bank_sel_port_tx : ℕ
ieee1588_bank_sel_port_tx = 2

abbrev pub ieee1588_cap_info : ℕ
ieee1588_cap_info = 0x0160

abbrev pub ieee1588_cap_info_tx_ts_cnt_mask : ℕ
ieee1588_cap_info_tx_ts_cnt_mask = 0x00000070

abbrev pub ieee1588_cap_info_rx_ts_cnt_mask : ℕ
ieee1588_cap_info_rx_ts_cnt_mask = 0x00000007

abbrev pub ieee1588_rx_timestamp_config : ℕ
ieee1588_rx_timestamp_config = 0x015c

abbrev pub ieee1588_rx_timestamp_config_message_en_mask : ℕ
ieee1588_rx_timestamp_config_message_en_mask = 0x0000ffff

abbrev pub ieee1588_rx_ingress_sec : ℕ
ieee1588_rx_ingress_sec = 0x016c

abbrev pub ieee1588_rx_ingress_ns : ℕ
ieee1588_rx_ingress_ns = 0x0170

abbrev pub ieee1588_rx_msg_header : ℕ
ieee1588_rx_msg_header = 0x0174

abbrev pub ieee1588_msg_header_msg_type_mask : ℕ
ieee1588_msg_header_msg_type_mask = 0x000f0000

abbrev pub ieee1588_msg_header_msg_type_shift : ℕ
ieee1588_msg_header_msg_type_shift = 16

abbrev pub ieee1588_msg_header_seq_id_mask : ℕ
ieee1588_msg_header_seq_id_mask = 0x0000ffff

abbrev pub ieee1588_tx_timestamp_config : ℕ
ieee1588_tx_timestamp_config = 0x015c

abbrev pub ieee1588_tx_timestamp_config_message_en_mask : ℕ
ieee1588_tx_timestamp_config_message_en_mask = 0x0000ffff

abbrev pub ieee1588_tx_egress_sec : ℕ
ieee1588_tx_egress_sec = 0x016c

abbrev pub ieee1588_tx_egress_ns : ℕ
ieee1588_tx_egress_ns = 0x0170

abbrev pub ieee1588_tx_msg_header : ℕ
ieee1588_tx_msg_header = 0x0174

abbrev pub ieee1588_cmd_ctl_clock_load : ℕ
ieee1588_cmd_ctl_clock_load = 0x00000010

abbrev pub ieee1588_cmd_ctl_clock_read : ℕ
ieee1588_cmd_ctl_clock_read = 0x00000008

abbrev pub ieee1588_cmd_ctl_enable : ℕ
ieee1588_cmd_ctl_enable = 0x00000004

abbrev pub ieee1588_general_config_tsu_enable : ℕ
ieee1588_general_config_tsu_enable = 0x00010000

abbrev pub ieee1588_general_config_reload_add_a : ℕ
ieee1588_general_config_reload_add_a = 0x00000001

abbrev pub ieee1588_general_config_clock_event_a_mask : ℕ
ieee1588_general_config_clock_event_a_mask = 0x0000000c

abbrev pub ieee1588_general_config_clock_event_a_shift : ℕ
ieee1588_general_config_clock_event_a_shift = 2

abbrev pub ieee1588_clock_event_mode_100ns_pulse : ℕ
ieee1588_clock_event_mode_100ns_pulse = 0x0

abbrev pub ieee1588_rx_pending_max : ℕ
ieee1588_rx_pending_max = 16
