-- ===== src/Core1/Pins.antt =====
-- The pins that core1 drives through SIO, after the register writes of core1/core1_main.c.
use rp2350_zephyr_stepper.Prelude.{
  ℕ, ◌/◌, ◌%◌, ◌^◌, Bool, true, false, List, [], ◌∷◌, ◌==◌, if◌then◌else◌,
}
use rp2350_zephyr_stepper.Core1.Board.{Reg, Act, wr, delay}

-- A pin under SIO: whether it is driven, and the level that it is driven to.
pub record Pin : Type 0 where
  pub driven : Bool
  pub high : Bool

-- After a reset no pin is driven, and the output bits are 0.
abbrev pub reset_pin : Pin
reset_pin = record { driven = false; high = false }

abbrev has_bit : ℕ → ℕ → Bool
has_bit pin v = v / 2 ^ pin % 2 == 1

-- SIO_GPIO_OE_SET, OUT_SET and OUT_CLR act on the pins whose bits are written.
abbrev pub act_on : ℕ → Act → Pin → Pin
act_on pin (wr Reg.sio_oe_set v) p = if has_bit pin v then record p { driven = true } else p
act_on pin (wr Reg.sio_out_set v) p = if has_bit pin v then record p { high = true } else p
act_on pin (wr Reg.sio_out_clr v) p = if has_bit pin v then record p { high = false } else p
act_on pin (wr _ _) p = p
act_on pin (delay _) p = p

-- The pin after the acts, the newest of which comes first.
abbrev pub pin_after : ℕ → List Act → Pin
pin_after pin [] = reset_pin
pin_after pin (a ∷ before) = act_on pin a (pin_after pin before)
