-- ===== src/Lan9250/Bus.antt =====
-- Register access over SPI, and the indirect MAC and PHY registers behind it
-- (drivers/eth_lan9250/eth_lan9250.c).
pub mod Total
pub mod Rules
pub mod Succeeds
pub mod Frames
pub mod Mac
use rp2350_zephyr_stepper.Prelude.{
  ℕ, zero, suc, ◌+◌, ◌-◌, ◌*◌, ◌/◌, ◌%◌, ◌^◌, Bool, true, false, Option, none, some, List, [], ◌∷◌,
  ◌++◌, leb, ◌==◌, if◌then◌else◌, bit_and, bit_or,
}
use rp2350_zephyr_stepper.Lan9250.World.{
  World, Hw, Io, Ret, ok, err, hang, pure, fail, blocked, ◌>>=◌, ◌>>◌, attempt, caught, log,
  spi_out, spi_in, eio, and_then,
}
use rp2350_zephyr_stepper.Lan9250.Regs.{
  spi_instr_write, spi_instr_read, mac_csr_cmd, mac_csr_data, mac_csr_cmd_busy, mac_csr_cmd_read,
  mac_timeout, phy_timeout, hmac_mii_acc, hmac_mii_data, hmac_mii_acc_miibzy, hmac_mii_acc_miiw_r,
}

-- `sys_put_be16` and `sys_put_le32`, and the 32-bit load of a little-endian machine.
abbrev pub put_be16 : ℕ → List ℕ
put_be16 v = v / 2 ^ 8 % 2 ^ 8 ∷ v % 2 ^ 8 ∷ []

abbrev pub put_le32 : ℕ → List ℕ
put_le32 v = v % 2 ^ 8 ∷ v / 2 ^ 8 % 2 ^ 8 ∷ v / 2 ^ 16 % 2 ^ 8 ∷ v / 2 ^ 24 % 2 ^ 8 ∷ []

abbrev pub get_le32 : List ℕ → ℕ
get_le32 [] = 0
get_le32 (b ∷ bs) = b + 2 ^ 8 * get_le32 bs

-- `reg & ~mask` on 32 bits.
abbrev pub clear_bits : ℕ → ℕ → ℕ
clear_bits reg mask = bit_and reg (2 ^ 32 - 1 - mask)

module _ {E : Type 0} (hw : Hw E) where
  unfoldable pub spi_write_dt : List ℕ → Io E (Unit {0})
  spi_write_dt bytes w =
      let (r, env) = hw.spi_write bytes w.env in (r, log (spi_out bytes) (record w { env = env }))

  unfoldable pub spi_transceive_dt : List ℕ → ℕ → Io E (List ℕ)
  spi_transceive_dt bytes n w =
      let (r, env) = hw.spi_read bytes n w.env in (r, log (spi_in bytes n) (record w { env = env }))

  -- `k_busy_wait` and `k_msleep`.
  unfoldable pub wait : ℕ → Io E (Unit {0})
  wait ms w = (ok tt, record w { env = hw.wait_ms ms w.env })

  unfoldable pub uptime_get : Io E ℕ
  uptime_get w = (ok (hw.uptime w.env), w)

  unfoldable pub write_sys_reg : ℕ → ℕ → Io E (Unit {0})
  write_sys_reg address value =
      spi_write_dt (spi_instr_write ∷ (put_be16 address ++ put_le32 value))

  unfoldable pub read_sys_reg : ℕ → Io E ℕ
  read_sys_reg address = do
    bytes ← spi_transceive_dt (spi_instr_read ∷ put_be16 address) 4
    pure (get_le32 bytes)

  -- Did the read succeed with the expected bits?
  abbrev pub matches : ℕ → ℕ → Option ℕ → Bool
  matches mask expected none = false
  matches mask expected (some tmp) = bit_and tmp mask == expected

  -- The polling loop of `lan9250_wait_ready` and `lan9250_wait_mac_ready`: `read` is the register
  -- access, `end` the time from which the timepoint has expired.
  unfoldable pub poll : ℕ → Io E ℕ → ℕ → ℕ → ℕ → Io E (Unit {0})
  poll zero read mask expected end = blocked
  poll (suc fuel) read mask expected end = do
    tmp ← attempt read
    now ← uptime_get
    if matches mask expected tmp
        then pure tt
        else if leb end now
        then fail eio
        else wait 1 >> poll fuel read mask expected end

  -- The fuel of the loops, in milliseconds of waiting.
  module _ (fuel : ℕ) where
    unfoldable pub wait_ready : ℕ → ℕ → ℕ → ℕ → Io E (Unit {0})
    wait_ready address mask expected m_second = do
      now ← uptime_get
      poll fuel (read_sys_reg address) mask expected (now + m_second)

    unfoldable pub read_mac_reg : ℕ → Io E ℕ
    read_mac_reg address = do
      wait_ready mac_csr_cmd mac_csr_cmd_busy 0 mac_timeout
      write_sys_reg mac_csr_cmd (bit_or (bit_or address mac_csr_cmd_busy) mac_csr_cmd_read)
      wait_ready mac_csr_cmd mac_csr_cmd_busy 0 mac_timeout
      read_sys_reg mac_csr_data

    unfoldable pub write_mac_reg : ℕ → ℕ → Io E (Unit {0})
    write_mac_reg address value = do
      wait_ready mac_csr_cmd mac_csr_cmd_busy 0 mac_timeout
      write_sys_reg mac_csr_data value
      write_sys_reg mac_csr_cmd (bit_or address mac_csr_cmd_busy)
      wait_ready mac_csr_cmd mac_csr_cmd_busy 0 mac_timeout

    unfoldable pub wait_mac_ready : ℕ → ℕ → ℕ → ℕ → Io E (Unit {0})
    wait_mac_ready address mask expected m_second = do
      now ← uptime_get
      poll fuel (read_mac_reg address) mask expected (now + m_second)

    -- The address word of an MII access: PHY address 1 and the register's index.
    abbrev pub mii_index : ℕ → ℕ
    mii_index address = bit_or (2 ^ 11) (bit_and address 0x1f * 2 ^ 6)

    unfoldable pub read_phy_reg : ℕ → Io E ℕ
    read_phy_reg address = do
      wait_mac_ready hmac_mii_acc hmac_mii_acc_miibzy 0 phy_timeout
      write_mac_reg hmac_mii_acc (mii_index address)
      wait_mac_ready hmac_mii_acc hmac_mii_acc_miibzy 0 phy_timeout
      tmp ← read_mac_reg hmac_mii_data
      pure (tmp % 2 ^ 16)

    unfoldable pub write_phy_reg : ℕ → ℕ → Io E (Unit {0})
    write_phy_reg address value = do
      wait_mac_ready hmac_mii_acc hmac_mii_acc_miibzy 0 phy_timeout
      write_mac_reg hmac_mii_data value
      write_mac_reg hmac_mii_acc (bit_or (mii_index address) hmac_mii_acc_miiw_r)
      wait_mac_ready hmac_mii_acc hmac_mii_acc_miibzy 0 phy_timeout
