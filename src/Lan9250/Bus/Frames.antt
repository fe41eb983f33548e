-- ===== src/Lan9250/Bus/Frames.antt =====
-- The SPI frames of a register access, as the chip reads them.
use rp2350_zephyr_stepper.Prelude.{
  ℕ, ◌+◌, ◌*◌, ◌^◌, ◌<◌, ◌≡◌, Option, none, some, List, [], ◌∷◌, ◌++◌, arith, refl, ◌==◌,
  if◌then◌else◌,
}
use rp2350_zephyr_stepper.Lan9250.World.{World, Hw, spi_out, spi_in}
use rp2350_zephyr_stepper.Lan9250.Bus.{
  put_be16, put_le32, get_le32, spi_write_dt, spi_transceive_dt, write_sys_reg, read_sys_reg,
}

-- What a frame asks of the chip.
pub data Access : Type 0 where
  store : ℕ → ℕ → Access
  fetch : ℕ → Access

-- An instruction byte, a big-endian address, and for a write a little-endian word.
unfoldable pub decode : List ℕ → Option Access
decode (i ∷ hi ∷ lo ∷ []) = if i == 3 then some (fetch (hi * 256 + lo)) else none
decode (i ∷ hi ∷ lo ∷ b0 ∷ b1 ∷ b2 ∷ b3 ∷ []) =
    if i == 2
    then some (store (hi * 256 + lo) (b0 + 256 * b1 + 65536 * b2 + 16777216 * b3))
    else none
decode _ = none

abbrev pub write_frame : ℕ → ℕ → List ℕ
write_frame address value = 0x02 ∷ (put_be16 address ++ put_le32 value)

abbrev pub read_frame : ℕ → List ℕ
read_frame address = 0x03 ∷ put_be16 address

pub get_le32-put_le32 : (v : ℕ) → v < 2 ^ 32 → get_le32 (put_le32 v) ≡ v
get_le32-put_le32 v h = omega arith

pub decode-write : (a v : ℕ) → a < 2 ^ 16 → v < 2 ^ 32 → decode (write_frame a v) ≡ some (store a v)
unfolding decode
decode-write a v h k = ground arith

pub decode-read : (a : ℕ) → a < 2 ^ 16 → decode (read_frame a) ≡ some (fetch a)
unfolding decode
decode-read a h = ground arith

module _ {E : Type 0} (hw : Hw E) where
  -- A write of a 32-bit value to a 16-bit address is one SPI frame, and the chip reads from it a
  -- store of that value to that address.
  pub write_sys_reg-decode :
      (a v : ℕ) (w : World E)
      → a < 2 ^ 16
      → v < 2 ^ 32
      → (f : List ℕ) × ((write_sys_reg hw a v w).1.trace ≡ spi_out f ∷ w.trace)
        × (decode f ≡ some (store a v))
  unfolding write_sys_reg spi_write_dt
  write_sys_reg-decode a v w h k = (write_frame a v, refl, decode-write a v h k)

  read_sys_reg-frame :
      (a : ℕ) (w : World E) → (read_sys_reg hw a w).1.trace ≡ spi_in (read_frame a) 4 ∷ w.trace
  unfolding read_sys_reg spi_transceive_dt
  read_sys_reg-frame a w = ground arith
