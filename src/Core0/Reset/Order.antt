-- ===== src/Core0/Reset/Order.antt =====
-- The registers at the moment of the reset (src/bootloader_shell.c).
use rp2350_zephyr_stepper.Prelude.{◌≡◌, refl, ◌∷◌, bit_and, bit_or}
use rp2350_zephyr_stepper.Core0.Reset.{
  RegFile, sys_write32, sys_clear_bits, sys_set_bits, cmd_reset,
}

-- The reset is triggered by the last of four writes, at a moment when the watchdog is off, the reset selection has
-- what it had and all but the two oscillators' bits, and the boot vector's register holds 0.
pub cmd_reset-writes :
    (r : RegFile)
    → (cmd_reset r).writes
      ≡ (0x400d_8000, bit_or (bit_and (r.value 0x400d_8000) 0xbfff_ffff) 0x8000_0000)
        ∷ (0x400d_801c, 0)
        ∷ (0x4001_8008, bit_or (r.value 0x4001_8008) 0x01ff_fff3)
        ∷ (0x400d_8000, bit_and (r.value 0x400d_8000) 0xbfff_ffff)
        ∷ r.writes
unfolding cmd_reset sys_set_bits sys_clear_bits sys_write32
cmd_reset-writes r = refl
