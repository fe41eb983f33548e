-- ===== src/Lan9250/Clock.antt =====
-- The 1588 hardware clock (drivers/eth_lan9250/eth_lan9250.c and ptp_clock_lan9250.c).
pub mod Running
pub mod Chip
use rp2350_zephyr_stepper.Prelude.{
  ℕ, zero, suc, ◌+◌, ◌-◌, ◌*◌, ◌/◌, ◌%◌, ◌^◌, Bool, true, false, Option, none, some, List, [], ◌∷◌,
  ltb, if◌then◌else◌, bit_and, bit_or, ℤ, pos, negsuc, ◌+ℤ◌, unsigned32,
}
use rp2350_zephyr_stepper.Lan9250.World.{
  World, Hw, Io, Ret, ok, err, hang, pure, fail, ◌>>=◌, ◌>>◌, and_then, erange, locked,
}
use rp2350_zephyr_stepper.Lan9250.Regs.{
  ieee1588_cmd_ctl, ieee1588_cmd_ctl_enable, ieee1588_cmd_ctl_clock_load,
  ieee1588_cmd_ctl_clock_read, ieee1588_general_config, ieee1588_general_config_tsu_enable,
  ieee1588_clock_sec, ieee1588_clock_ns, ieee1588_clock_subns, ieee1588_clock_rate_adj,
  ieee1588_clock_rate_adj_value_mask, ieee1588_clock_rate_adj_dir, led_cfg, gpio_cfg,
  ieee1588_general_config_clock_event_a_mask, ieee1588_general_config_clock_event_a_shift,
  ieee1588_general_config_reload_add_a, ieee1588_clock_event_mode_100ns_pulse, rx_drop,
  ieee1588_bank_port_gpio_sel, ieee1588_bank_sel_port_rx, ieee1588_bank_sel_port_tx,
  ieee1588_rx_timestamp_config, ieee1588_rx_timestamp_config_message_en_mask,
  ieee1588_tx_timestamp_config, ieee1588_tx_timestamp_config_message_en_mask,
}
use rp2350_zephyr_stepper.Lan9250.Bus.{clear_bits, write_sys_reg, read_sys_reg}

-- The register macros with a parameter.
abbrev pub clock_target_sec : ℕ → ℕ
clock_target_sec x = 0x012c + 0x10 * x

abbrev pub clock_target_ns : ℕ → ℕ
clock_target_ns x = 0x0130 + 0x10 * x

abbrev pub clock_target_reload_sec : ℕ → ℕ
clock_target_reload_sec x = 0x0134 + 0x10 * x

abbrev pub clock_target_reload_ns : ℕ → ℕ
clock_target_reload_ns x = 0x0138 + 0x10 * x

abbrev pub led_cfg_led_en : ℕ → ℕ
led_cfg_led_en x = 2 ^ x

abbrev pub gpio_cfg_1588_gpio_ch_sel : ℕ → ℕ
gpio_cfg_1588_gpio_ch_sel x = 2 ^ (24 + x)

abbrev pub gpio_cfg_gpio_pol : ℕ → ℕ
gpio_cfg_gpio_pol x = 2 ^ (16 + x)

abbrev pub gpio_cfg_1588_gpio_oe : ℕ → ℕ
gpio_cfg_1588_gpio_oe x = 2 ^ (8 + x)

abbrev pub gpio_cfg_gpiobuf : ℕ → ℕ
gpio_cfg_gpiobuf x = 2 ^ x

-- Sync, Delay_Req, Pdelay_Req and Pdelay_Resp.
abbrev pub ptp_message_en_default : ℕ
ptp_message_en_default = bit_or (bit_or (bit_or (2 ^ 0) (2 ^ 1)) (2 ^ 2)) (2 ^ 3)

-- `/` and `%` of C by a positive number: towards zero.
abbrev pub neg_ℕ : ℕ → ℤ
neg_ℕ zero = pos 0
neg_ℕ (suc n) = negsuc n

abbrev pub quot : ℤ → ℕ → ℤ
quot (pos n) d = pos (n / d)
quot (negsuc n) d = neg_ℕ (suc n / d)

abbrev pub rem : ℤ → ℕ → ℤ
rem (pos n) d = pos (n % d)
rem (negsuc n) d = neg_ℕ (suc n % d)

pub record Time : Type 0 where
  pub sec : ℕ
  pub ns : ℕ

-- The arithmetic of `lan9250_ptp_clock_adjust`: the time a step by `increment_ns` leads to. The
-- second counter is a `uint32_t`, and `total_ns` an `int64_t` that no input overflows.
unfoldable pub borrow : ℕ → ℤ → Time
borrow sec (pos n) = record { sec = sec; ns = n }
borrow sec (negsuc n) = record { sec = (sec + 2 ^ 32 - 1) % 2 ^ 32; ns = 1_000_000_000 - suc n }

unfoldable pub adjusted : Time → ℤ → Time
unfolding borrow
adjusted t increment_ns =
    let total_ns = pos t.ns +ℤ increment_ns in
    borrow ((t.sec + unsigned32 (quot total_ns 1_000_000_000)) % 2 ^ 32)
      (rem total_ns 1_000_000_000)

-- The arithmetic on `double` of `lan9250_ptp_clock_rate_adjust`: whether `ppb >= 0`, and the
-- rounded magnitude in units of the register.
pub record Rate : Type 0 where
  pub ppb_nonneg : ℕ → Bool
  pub magnitude : ℕ → ℕ

module _ {E : Type 0} (hw : Hw E) where
  unfoldable pub ieee1588_enable : Io E (Unit {0})
  ieee1588_enable = write_sys_reg hw ieee1588_cmd_ctl ieee1588_cmd_ctl_enable

  unfoldable pub ieee1588_init : Io E (Unit {0})
  ieee1588_init = do
    general_config ← read_sys_reg hw ieee1588_general_config
    write_sys_reg hw ieee1588_general_config
        (bit_or general_config ieee1588_general_config_tsu_enable)
    write_sys_reg hw ieee1588_clock_sec 0
    write_sys_reg hw ieee1588_clock_ns 0
    write_sys_reg hw ieee1588_cmd_ctl ieee1588_cmd_ctl_clock_load

  -- With `subns` NULL, as every caller has it.
  unfoldable pub ptp_clock_read : Io E Time
  ptp_clock_read = do
    write_sys_reg hw ieee1588_cmd_ctl ieee1588_cmd_ctl_clock_read
    sec ← read_sys_reg hw ieee1588_clock_sec
    ns ← read_sys_reg hw ieee1588_clock_ns
    pure (record { sec = sec; ns = ns })

  unfoldable pub ptp_clock_set : ℕ → ℕ → Io E (Unit {0})
  ptp_clock_set sec ns = do
    write_sys_reg hw ieee1588_clock_sec sec
    write_sys_reg hw ieee1588_clock_ns ns
    write_sys_reg hw ieee1588_cmd_ctl ieee1588_cmd_ctl_clock_load

  unfoldable pub ptp_clock_adjust : ℤ → Io E (Unit {0})
  ptp_clock_adjust increment_ns = do
    t ← ptp_clock_read
    let t' = adjusted t increment_ns
    ptp_clock_set t'.sec t'.ns

  unfoldable pub ptp_clock_rate_adjust : Rate → ℕ → Io E (Unit {0})
  ptp_clock_rate_adjust rate ratio =
      let magnitude = rate.magnitude ratio in
      if ltb ieee1588_clock_rate_adj_value_mask magnitude
      then fail erange
      else write_sys_reg hw ieee1588_clock_rate_adj (
          if rate.ppb_nonneg ratio then bit_or magnitude ieee1588_clock_rate_adj_dir else magnitude)

  -- The `ptp_clock_driver_api` glue: `second` is a 48-bit count that is cut to 32 bits.
  unfoldable pub ptp_clock_api_set : ℕ → ℕ → Io E (Unit {0})
  ptp_clock_api_set second nanosecond = ptp_clock_set (second % 2 ^ 32) nanosecond

  unfoldable pub ptp_clock_api_get : Io E Time
  ptp_clock_api_get = ptp_clock_read

  unfoldable pub ieee1588_pps_enable : Io E (Unit {0})
  ieee1588_pps_enable = do
    led ← read_sys_reg hw led_cfg
    write_sys_reg hw led_cfg (clear_bits led (led_cfg_led_en 1))
    gpio ← read_sys_reg hw gpio_cfg
    let gpio1 = bit_or (bit_or gpio (gpio_cfg_gpiobuf 1)) (gpio_cfg_gpio_pol 1)
    let gpio2 = clear_bits gpio1 (gpio_cfg_1588_gpio_ch_sel 1)
    write_sys_reg hw gpio_cfg (bit_or gpio2 (gpio_cfg_1588_gpio_oe 1))
    config ← read_sys_reg hw ieee1588_general_config
    let config1 = clear_bits config ieee1588_general_config_clock_event_a_mask
    let mode =
        ieee1588_clock_event_mode_100ns_pulse * 2 ^ ieee1588_general_config_clock_event_a_shift
    let config2 = clear_bits (bit_or config1 mode) ieee1588_general_config_reload_add_a
    write_sys_reg hw ieee1588_general_config config2
    write_sys_reg hw (clock_target_reload_sec 0) 1
    write_sys_reg hw (clock_target_reload_ns 0) 0
    t ← ptp_clock_read
    write_sys_reg hw (clock_target_sec 0) ((t.sec + 2) % 2 ^ 32)
    write_sys_reg hw (clock_target_ns 0) 0

  unfoldable pub bank_select : ℕ → Io E (Unit {0})
  bank_select bank = write_sys_reg hw ieee1588_bank_port_gpio_sel bank

  -- The part of `lan9250_1588_timestamping_init` under the lock.
  unfoldable pub timestamping_config : Io E (Unit {0})
  timestamping_config = do
    bank_select ieee1588_bank_sel_port_rx
    rx ← read_sys_reg hw ieee1588_rx_timestamp_config
    write_sys_reg hw ieee1588_rx_timestamp_config
        (bit_or (clear_bits rx ieee1588_rx_timestamp_config_message_en_mask) ptp_message_en_default)
    bank_select ieee1588_bank_sel_port_tx
    tx ← read_sys_reg hw ieee1588_tx_timestamp_config
    write_sys_reg hw ieee1588_tx_timestamp_config
        (bit_or (clear_bits tx ieee1588_tx_timestamp_config_message_en_mask) ptp_message_en_default)

  unfoldable pub ieee1588_timestamping_init : Io E (Unit {0})
  ieee1588_timestamping_init = locked timestamping_config

  unfoldable pub rx_drop_get : Io E ℕ
  rx_drop_get = read_sys_reg hw rx_drop
