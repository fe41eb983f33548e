-- ===== src/Core1/Main.antt =====
-- `core1_main` (core1/core1_main.c): the set-up of pins, timer and PIO, and the main loop. The
-- masks that the Pico SDK's headers define and the program that pioasm assembles are a parameter.
pub mod Safety
pub mod Startup
use rp2350_zephyr_stepper.Prelude.{ℕ, suc, ◌*◌, ◌^◌, ◌≡◌, some, List, [], ◌∷◌, ◌++◌, bit_or}
use rp2350_zephyr_stepper.Core1.Float.{Fpu}
use rp2350_zephyr_stepper.Core1.Board.{
  Board, pads_iso_clr, io_ctrl, pio_instr_mem, sio_oe_set, sio_out_set, sio_out_clr, resets_clr,
  pio_execctrl, pio_pinctrl, pio_instr, pio_ctrl, delay, write_reg,
}
use rp2350_zephyr_stepper.Core1.Motion.{initial_motion, pin_enable, pin_dir, pin_step, feed}
use rp2350_zephyr_stepper.Core1.Commands.{handle_command}

pub record Sdk : Type 0 where
  pub iso_bits : ℕ
  pub funcsel_lsb : ℕ
  pub reset_timer0_bits : ℕ
  pub reset_pio0_bits : ℕ
  pub stepper_program_instructions : List ℕ
  pub stepper_wrap : ℕ
  pub stepper_wrap_target : ℕ

abbrev pub sio_funcsel : ℕ
sio_funcsel = 5

abbrev pub pio0_funcsel : ℕ
pio0_funcsel = 6

-- The board when core1 leaves its reset handler.
abbrev pub reset_board : Board
reset_board = record { m = initial_motion; rx = []; acts = [] }

module _ (sdk : Sdk) where
  open sdk use {
    iso_bits, funcsel_lsb, reset_timer0_bits, reset_pio0_bits, stepper_program_instructions,
    stepper_wrap, stepper_wrap_target,
  }

  unfoldable pub gpio_pad_init : ℕ → ℕ → Board → Board
  gpio_pad_init pin funcsel b =
      write_reg (io_ctrl pin) (funcsel * 2 ^ funcsel_lsb) (write_reg (pads_iso_clr pin) iso_bits b)

  unfoldable pub enable_dir_init : Board → Board
  unfolding gpio_pad_init
  enable_dir_init b =
      let b1 = gpio_pad_init pin_enable sio_funcsel b in
      let b2 = write_reg sio_oe_set (2 ^ pin_enable) b1 in
      let b3 = write_reg sio_out_set (2 ^ pin_enable) b2 in
      let b4 = gpio_pad_init pin_dir sio_funcsel b3 in
      let b5 = write_reg sio_oe_set (2 ^ pin_dir) b4 in write_reg sio_out_set (2 ^ pin_dir) b5

  -- The reset is released; the wait for RESETS_RESET_DONE is the hardware's.
  unfoldable pub timer0_init : Board → Board
  timer0_init b = write_reg resets_clr reset_timer0_bits b

  unfoldable pub load_program : List ℕ → ℕ → Board → Board
  load_program [] i b = b
  load_program (instr ∷ rest) i b = load_program rest (suc i) (write_reg (pio_instr_mem i) instr b)

  unfoldable pub pio_step_init : Board → Board
  unfolding gpio_pad_init load_program
  pio_step_init b =
      let b1 = write_reg resets_clr reset_pio0_bits b in
      let b2 = gpio_pad_init pin_step pio0_funcsel b1 in
      let b3 = load_program stepper_program_instructions 0 b2 in
      let wrap = bit_or (stepper_wrap * 2 ^ 12) (stepper_wrap_target * 2 ^ 7) in
      let b4 = write_reg pio_execctrl wrap b3 in
      let b5 = write_reg pio_pinctrl (bit_or (2 ^ 26) (pin_step * 2 ^ 5)) b4 in
      let b6 = write_reg pio_instr 0xe09f b5 in
      let b7 = write_reg pio_pinctrl (bit_or (2 ^ 29) (pin_step * 2 ^ 10)) b6 in
      write_reg pio_ctrl 1 b7

  -- Everything before `while (1)`.
  unfoldable pub core1_init : Board → Board
  unfolding enable_dir_init timer0_init pio_step_init
  core1_init b =
      let b1 = pio_step_init (timer0_init (enable_dir_init b)) in
      write_reg sio_out_clr (2 ^ pin_enable) (record b1 { acts = delay 10_000 ∷ b1.acts })

-- The main loop: a round in which the PIO has room for some steps, and words from core0 between
-- rounds. A round that waits for a word has no successor until core0 sends it.
module _ (fpu : Fpu) where
  pub data Step : Board → Board → Type 0 where
    deliver : (b : Board) (w : ℕ) → Step b (record b { rx = b.rx ++ (w ∷ []) })
    round : (room : ℕ) (b b' : Board) → handle_command (feed fpu room b) ≡ some (tt, b') → Step b b'

  -- A run in which every round starts from a board where `Ok` holds.
  pub data Reach (Ok : Board → Type 0) (s : Board) : Board → Type 0 where
    here : Reach Ok s s
    next : {t u : Board} → Reach Ok s t → Ok t → Step t u → Reach Ok s u
