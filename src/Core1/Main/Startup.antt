-- ===== src/Core1/Main/Startup.antt =====
-- The pins of the motor driver and the PIO during the set-up before the main loop.
use rp2350_zephyr_stepper.Prelude.{
  ℕ, suc, ◌^◌, ◌≡◌, Bool, true, false, ◌&&◌, List, [], ◌∷◌, refl, ap, ◌∙◌, not, if◌then◌else◌,
}
use rp2350_zephyr_stepper.Core1.Board.{
  Reg, Board, Act, wr, delay, sio_oe_set, sio_out_clr, pio_ctrl,
}
use rp2350_zephyr_stepper.Core1.Pins.{Pin, pin_after}
use rp2350_zephyr_stepper.Core1.Motion.{pin_enable, pin_dir}
use rp2350_zephyr_stepper.Core1.Main.{
  Sdk, reset_board, gpio_pad_init, enable_dir_init, timer0_init, load_program, pio_step_init,
  core1_init,
}

abbrev pub is_low : Pin → Bool
is_low p = p.driven && not p.high

-- The acts after which the pin is driven low.
abbrev pub low_after : ℕ → List Act → List Act
low_after pin [] = []
low_after pin (a ∷ before) =
    if is_low (pin_after pin (a ∷ before)) then a ∷ low_after pin before else low_after pin before

-- The acts that start a state machine of the PIO or feed it.
abbrev pub pio_acts : List Act → List Act
pio_acts [] = []
pio_acts (wr Reg.pio_ctrl v ∷ before) = wr pio_ctrl v ∷ pio_acts before
pio_acts (wr Reg.pio_txf0 v ∷ before) = wr Reg.pio_txf0 v ∷ pio_acts before
pio_acts (_ ∷ before) = pio_acts before

-- The motor driver, whose ENABLE is active low, and the PIO during a set-up.
pub record IsQuiet (acts : List Act) : Type 0 where
  pub before : List Act
  pub end : acts ≡ wr sio_out_clr (2 ^ pin_enable) ∷ delay 10_000 ∷ before
  pub enabled : is_low (pin_after pin_enable acts) ≡ true
  pub disabled : low_after pin_enable before ≡ wr sio_oe_set (2 ^ pin_enable) ∷ []
  pub waiting : pio_acts before ≡ wr pio_ctrl 1 ∷ []
  pub forward : pin_after pin_dir acts ≡ record { driven = true; high = true }

module _ (sdk : Sdk) where
  load_program-pin :
      (pin : ℕ) (code : List ℕ) (i : ℕ) (b : Board)
      → pin_after pin (load_program sdk code i b).acts ≡ pin_after pin b.acts
  unfolding load_program
  load_program-pin pin [] i b = refl
  load_program-pin pin (instr ∷ rest) i b = load_program-pin pin rest (suc i) _

  load_program-low :
      (pin : ℕ) (code : List ℕ) (i : ℕ) (b : Board)
      → is_low (pin_after pin b.acts) ≡ false
      → low_after pin (load_program sdk code i b).acts ≡ low_after pin b.acts
  unfolding load_program
  load_program-low pin [] i b h = refl
  load_program-low pin (instr ∷ rest) i b h = load_program-low pin rest (suc i) _ h ∙ rw h refl

  load_program-pio :
      (code : List ℕ) (i : ℕ) (b : Board)
      → pio_acts (load_program sdk code i b).acts ≡ pio_acts b.acts
  unfolding load_program
  load_program-pio [] i b = refl
  load_program-pio (instr ∷ rest) i b = load_program-pio rest (suc i) _

  -- Whatever PIO program is loaded, from pins as after a reset, the set-up ends with a wait of 10
  -- ms and then the write that pulls ENABLE low and so switches the motor driver on. Before this
  -- wait ENABLE is driven low after one write only, the one that makes it an output, and the PIO's
  -- state machine is started but never fed. At the end DIR is driven high.
  pub core1_init-IsQuiet : IsQuiet (core1_init sdk reset_board).acts
  unfolding core1_init enable_dir_init timer0_init pio_step_init gpio_pad_init
  core1_init-IsQuiet =
      let code = sdk.stepper_program_instructions in
      record {
        before = _;
        end = refl;
        enabled = rw (load_program-pin pin_enable code 0) refl;
        disabled =
            rw (load_program-pin pin_enable code 0) (load_program-low pin_enable code 0 _ refl);
        waiting = ap (λ l. wr pio_ctrl 1 ∷ l) (load_program-pio code 0 _);
        forward = rw (load_program-pin pin_dir code 0) refl;
      }
