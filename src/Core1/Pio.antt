-- ===== src/Core1/Pio.antt =====
-- The PIO program that makes the STEP pulses (core1/stepper.pio), run by a state machine of the
-- RP2350: one instruction per cycle, with the side-set bit on the STEP pin during that cycle.
pub mod Wave
pub mod Pulses
use rp2350_zephyr_stepper.Prelude.{
  ℕ, zero, suc, ◌-◌, ◌^◌, Bool, true, false, Option, none, some, List, [], ◌∷◌, get_elem?, ◌==◌,
  if◌then◌else◌,
}

pub data Instr : Type 0 where
  pull_block mov_y_osr mov_x_y : Instr
  jmp_x_dec : ℕ → Instr

-- The instructions with their side-set bits; the labels are `high_loop` and `low_loop`.
abbrev pub high_loop : ℕ
high_loop = 3

abbrev pub low_loop : ℕ
low_loop = 5

abbrev pub stepper : List (Instr × Bool)
stepper =
    (pull_block, false)
    ∷ (mov_y_osr, false)
    ∷ (mov_x_y, true)
    ∷ (jmp_x_dec high_loop, true)
    ∷ (mov_x_y, false)
    ∷ (jmp_x_dec low_loop, false)
    ∷ []

abbrev pub wrap_target : ℕ
wrap_target = 0

abbrev pub wrap : ℕ
wrap = 5

-- A state machine with the words in its TX FIFO, and the levels of the pin, newest first.
pub record Machine : Type 0 where
  pub pc : ℕ
  pub x : ℕ
  pub y : ℕ
  pub osr : ℕ
  pub tx : List ℕ
  pub levels : List Bool

abbrev pub next_pc : ℕ → ℕ
next_pc pc = if pc == wrap then wrap_target else suc pc

-- `x--` on 32 bits.
abbrev pub decremented : ℕ → ℕ
decremented zero = 2 ^ 32 - 1
decremented (suc n) = n

abbrev pub jump_pc : ℕ → ℕ → ℕ → ℕ
jump_pc zero target pc = next_pc pc
jump_pc (suc n) target pc = target

-- A `pull block` on an empty FIFO stalls.
abbrev pub pulled : List ℕ → Machine → Machine
pulled [] m = m
pulled (w ∷ ws) m = record m { osr = w; tx = ws; pc = next_pc m.pc }

unfoldable pub execute : Instr → Machine → Machine
execute pull_block m = pulled m.tx m
execute mov_y_osr m = record m { y = m.osr; pc = next_pc m.pc }
execute mov_x_y m = record m { x = m.y; pc = next_pc m.pc }
execute (jmp_x_dec target) m = record m { x = decremented m.x; pc = jump_pc m.x target m.pc }

abbrev pub issued : Option (Instr × Bool) → Machine → Machine
issued none m = m
issued (some (instr, side)) m = execute instr (record m { levels = side ∷ m.levels })

unfoldable pub cycle : Machine → Machine
unfolding execute
cycle m = issued (get_elem? stepper m.pc) m

unfoldable pub run : ℕ → Machine → Machine
unfolding cycle
run zero m = m
run (suc n) m = run n (cycle m)
