-- ===== src/Core0/Reset.antt =====
-- The commands of src/bootloader_shell.c: a jump of the boot ROM, and a reset by the watchdog. The
-- registers are a function of the address; the reads and writes of `sys_clear_bits` and
-- `sys_set_bits` go through it. Neither command returns.
pub mod Order
use rp2350_zephyr_stepper.Prelude.{
  ℕ, ◌+◌, ◌-◌, ◌^◌, List, [], ◌∷◌, ◌==◌, if◌then◌else◌, bit_and, bit_or,
}

abbrev pub watchdog_base : ℕ
watchdog_base = 0x400d_8000

abbrev pub watchdog_ctrl_offset : ℕ
watchdog_ctrl_offset = 0x00

abbrev pub watchdog_ctrl_trigger_bits : ℕ
watchdog_ctrl_trigger_bits = 0x8000_0000

abbrev pub watchdog_ctrl_enable_bits : ℕ
watchdog_ctrl_enable_bits = 0x4000_0000

abbrev pub watchdog_scratch4_offset : ℕ
watchdog_scratch4_offset = 0x1c

abbrev pub psm_base : ℕ
psm_base = 0x4001_8000

abbrev pub psm_wdsel_offset : ℕ
psm_wdsel_offset = 0x08

abbrev pub psm_wdsel_bits : ℕ
psm_wdsel_bits = 0x01ff_ffff

abbrev pub psm_wdsel_rosc_bits : ℕ
psm_wdsel_rosc_bits = 0x0000_0004

abbrev pub psm_wdsel_xosc_bits : ℕ
psm_wdsel_xosc_bits = 0x0000_0008

-- The registers, the writes to them, newest first, and the arguments of `rom_reset_usb_boot`.
pub record RegFile : Type 0 where
  pub value : ℕ → ℕ
  pub writes : List (ℕ × ℕ)
  pub usb_boots : List (ℕ × ℕ)

unfoldable pub sys_write32 : ℕ → ℕ → RegFile → RegFile
sys_write32 v addr r = record r {
  value = λ a. if a == addr then v else r.value a;
  writes = (addr, v) ∷ r.writes;
}

unfoldable pub sys_clear_bits : ℕ → ℕ → RegFile → RegFile
unfolding sys_write32
sys_clear_bits addr mask r = sys_write32 (bit_and (r.value addr) (2 ^ 32 - 1 - mask)) addr r

unfoldable pub sys_set_bits : ℕ → ℕ → RegFile → RegFile
unfolding sys_write32
sys_set_bits addr mask r = sys_write32 (bit_or (r.value addr) mask) addr r

unfoldable pub cmd_bootloader : RegFile → RegFile
cmd_bootloader r = record r { usb_boots = (0, 0) ∷ r.usb_boots }

-- The bits of everything but the oscillators.
abbrev pub psm_wdsel_mask : ℕ
psm_wdsel_mask =
    bit_and psm_wdsel_bits (2 ^ 32 - 1 - bit_or psm_wdsel_rosc_bits psm_wdsel_xosc_bits)

unfoldable pub cmd_reset : RegFile → RegFile
unfolding sys_write32 sys_clear_bits sys_set_bits
cmd_reset r =
    let r1 = sys_clear_bits (watchdog_base + watchdog_ctrl_offset) watchdog_ctrl_enable_bits r in
    let r2 = sys_set_bits (psm_base + psm_wdsel_offset) psm_wdsel_mask r1 in
    let r3 = sys_write32 0 (watchdog_base + watchdog_scratch4_offset) r2 in
    sys_set_bits (watchdog_base + watchdog_ctrl_offset) watchdog_ctrl_trigger_bits r3
