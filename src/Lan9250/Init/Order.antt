-- ===== src/Lan9250/Init/Order.antt =====
-- The order of the 1588 set-up: the clock is enabled last.
use rp2350_zephyr_stepper.Prelude.{
  ℕ, ◌+◌, ◌*◌, ◌≡◌, ◌⊎◌, inl, inr, ◌/◌, ◌%◌, ◌^◌, false, not, ◌&&◌, List, [], ◌∷◌, arith, refl,
  ◌==◌, if◌then◌else◌, bit_and,
}
use rp2350_zephyr_stepper.Lan9250.World.{
  World, Hw, Io, Ret, ok, err, hang, Event, spi_out, and_then, ◌>>=◌,
}
use rp2350_zephyr_stepper.Lan9250.Regs.{
  ieee1588_cmd_ctl, ieee1588_cmd_ctl_enable, ieee1588_cmd_ctl_clock_load, ieee1588_general_config,
  ieee1588_clock_sec, ieee1588_clock_ns, ieee1588_bank_port_gpio_sel, ieee1588_rx_timestamp_config,
  ieee1588_tx_timestamp_config,
}
use rp2350_zephyr_stepper.Lan9250.Bus.{spi_write_dt, spi_transceive_dt, write_sys_reg, read_sys_reg}
use rp2350_zephyr_stepper.Lan9250.Keeps.{Keeps, Keeps-bind, Keeps-then, Keeps-locked, keeps_rules}
use rp2350_zephyr_stepper.Lan9250.Clock.{
  ieee1588_enable, ieee1588_init, ieee1588_timestamping_init, timestamping_config, bank_select,
}
use rp2350_zephyr_stepper.Lan9250.Init.{ieee1588_setup}

-- A write that enables the 1588 clock.
abbrev pub enabling : Event → ℕ
enabling (spi_out (i ∷ hi ∷ lo ∷ b0 ∷ rest)) =
    if (hi * 256 + lo == ieee1588_cmd_ctl) && not (bit_and b0 ieee1588_cmd_ctl_enable == 0)
    then 1
    else 0
enabling _ = 0

abbrev pub enables : List Event → ℕ
enables [] = 0
enables (e ∷ es) = enabling e + enables es

-- No write has enabled the clock since there were `n` that did, or just the last write has.
abbrev pub Last : ℕ → List Event → Type 0
Last n trace =
    (enables trace ≡ n)
    ⊎ ((e : Event) × (before : List Event) × (trace ≡ e ∷ before)
        × (enabling e ≡ 1)
        × (enables before ≡ n))

-- A function that does not enable the clock, whatever it returns.
abbrev IsSilent : {E A : Type 0} → ℕ → Io E A → Type 0
IsSilent {E} n m = Keeps (λ (w : World E). enables w.trace ≡ n) m

module _ {E : Type 0} where
  and_then-Last :
      {A B : Type 0} (n : ℕ) (r : Ret A × World E) (k : A → Io E B)
      → enables r.1.trace ≡ n
      → ((a : A) (w : World E) → enables w.trace ≡ n → Last n (k a w).1.trace)
      → Last n (and_then r k).1.trace
  and_then-Last n (ok a, w) k h f = f a w h
  and_then-Last n (err e, w) k h f = inl h
  and_then-Last n (hang, w) k h f = inl h

module _ {E : Type 0} (hw : Hw E) (n : ℕ) where
  transceive-IsSilent : (bytes : List ℕ) (k : ℕ) → IsSilent n (spi_transceive_dt hw bytes k)
  unfolding spi_transceive_dt
  transceive-IsSilent bytes k = record { keeps = λ w h. omega (arith, h) }

  read-IsSilent : (a : ℕ) → IsSilent n (read_sys_reg hw a)
  unfolding read_sys_reg
  read-IsSilent a = search (keeps_rules, transceive-IsSilent)

  -- A write to a register other than CMD_CTL.
  write-IsSilent :
      (a v : ℕ)
      → (a / 2 ^ 8 % 2 ^ 8 * 256 + a % 2 ^ 8 == ieee1588_cmd_ctl) ≡ false
      → IsSilent n (write_sys_reg hw a v)
  unfolding write_sys_reg spi_write_dt
  write-IsSilent a v h = record { keeps = λ w before. ground (arith, h, before) }

  load-IsSilent : IsSilent n (write_sys_reg hw ieee1588_cmd_ctl ieee1588_cmd_ctl_clock_load)
  unfolding write_sys_reg spi_write_dt
  load-IsSilent = record { keeps = λ w h. omega (arith, h) }

  ieee1588_init-IsSilent : IsSilent n (ieee1588_init hw)
  unfolding ieee1588_init
  ieee1588_init-IsSilent = Keeps-bind _ _ (read-IsSilent ieee1588_general_config) λ g.
      Keeps-then _ _ (write-IsSilent ieee1588_general_config _ refl) (
        Keeps-then _ _ (write-IsSilent ieee1588_clock_sec 0 refl)
          (Keeps-then _ _ (write-IsSilent ieee1588_clock_ns 0 refl) load-IsSilent))

  bank_select-IsSilent : (bank : ℕ) → IsSilent n (bank_select hw bank)
  unfolding bank_select
  bank_select-IsSilent bank = write-IsSilent ieee1588_bank_port_gpio_sel bank refl

  timestamping_init-IsSilent : IsSilent n (ieee1588_timestamping_init hw)
  unfolding ieee1588_timestamping_init timestamping_config
  timestamping_init-IsSilent =
      let rx_config = write-IsSilent ieee1588_rx_timestamp_config in
      let tx_config = write-IsSilent ieee1588_tx_timestamp_config in
      Keeps-locked _ (record { keeps = λ w b. omega (arith, b) })
        (record { keeps = λ w b. omega (arith, b) })
        (Keeps-then _ _ (bank_select-IsSilent _) (
          Keeps-bind _ _ (read-IsSilent ieee1588_rx_timestamp_config) λ r.
            Keeps-then _ _ (rx_config _ refl) (
              Keeps-then _ _ (bank_select-IsSilent _) (
                Keeps-bind _ _ (read-IsSilent ieee1588_tx_timestamp_config)
                  λ t. tx_config _ refl))))

module _ {E : Type 0} (hw : Hw E) where
  enable-Last : (n : ℕ) (w : World E) → enables w.trace ≡ n → Last n (ieee1588_enable hw w).1.trace
  unfolding ieee1588_enable write_sys_reg spi_write_dt
  enable-Last n w h = inr (_, w.trace, refl, refl, h)

  -- Whatever the chip answers and wherever the 1588 set-up of lan9250_init stops, either it makes
  -- no write that enables the clock, or exactly one, and that is its last event.
  pub ieee1588_setup-Last :
      (fuel : ℕ) (w : World E) → Last (enables w.trace) (ieee1588_setup hw fuel w).1.trace
  unfolding ieee1588_setup
  ieee1588_setup-Last fuel w =
      let n = enables w.trace in
      and_then-Last n (ieee1588_init hw w)
        (λ _. ieee1588_timestamping_init hw >>= λ _. ieee1588_enable hw)
        ((ieee1588_init-IsSilent hw n).keeps w refl)
        λ _ w1 h1.
          and_then-Last n (ieee1588_timestamping_init hw w1) (λ _. ieee1588_enable hw)
            ((timestamping_init-IsSilent hw n).keeps w1 h1) λ _ w2 h2. enable-Last n w2 h2
