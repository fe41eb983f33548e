-- ===== src/Lan9250/Bus/Mac.antt =====
-- The MAC registers behind MAC_CSR_DATA and MAC_CSR_CMD, as the chip keeps them, and what
-- `lan9250_write_mac_reg` does to them (drivers/eth_lan9250/eth_lan9250.c).
use rp2350_zephyr_stepper.Prelude.{
  ℕ, zero, suc, ◌+◌, ◌/◌, ◌%◌, ◌^◌, ◌<◌, ◌≡◌, ◌∙◌, refl, ap, true, List, arith, bit_and, bit_or,
  bit_or_power, ◌==◌, if◌then◌else◌,
}
use rp2350_zephyr_stepper.Lan9250.World.{World, Hw, ok}
use rp2350_zephyr_stepper.Lan9250.Yields.{Yields, yields}
use rp2350_zephyr_stepper.Lan9250.Yields
use rp2350_zephyr_stepper.Lan9250.Regs.{mac_csr_cmd, mac_csr_data, mac_csr_cmd_busy, mac_timeout}
use rp2350_zephyr_stepper.Lan9250.Bus.{
  get_le32, spi_write_dt, spi_transceive_dt, uptime_get, write_sys_reg, read_sys_reg, poll,
  wait_ready, write_mac_reg,
}
use rp2350_zephyr_stepper.Lan9250.Bus.Frames.{write_frame, read_frame}

-- MAC_CSR_DATA and the MAC registers by their index.
pub record MacRegs : Type 0 where
  pub data_reg : ℕ
  pub regs : ℕ → ℕ

abbrev pub mac_set : ℕ → ℕ → MacRegs → MacRegs
mac_set i v m = record m { regs = λ r. if r == i then v else m.regs r }

-- A command with its busy bit, and without its read bit, writes the register of its low byte.
abbrev pub mac_store : ℕ → ℕ → MacRegs → MacRegs
mac_store a v m =
    if a == mac_csr_data
    then record m { data_reg = v }
    else if a == mac_csr_cmd
    then (if v / 2 ^ 30 == 2 then mac_set (v % 2 ^ 8) m.data_reg m else m)
    else m

-- A chip whose SPI port works, and which has carried out a command when the driver asks for it.
pub record IsMacChip {E : Type 0} (hw : Hw E) (view : E → MacRegs) : Type 0 where
  pub store_ok :
      (a v : ℕ) (e : E) → a < 2 ^ 16 → v < 2 ^ 32 → (hw.spi_write (write_frame a v) e).0 ≡ ok tt
  pub store_view :
      (a v : ℕ) (e : E)
      → a < 2 ^ 16
      → v < 2 ^ 32
      → view (hw.spi_write (write_frame a v) e).1 ≡ mac_store a v (view e)
  pub idle :
      (e : E)
      → (bytes : List ℕ) × ((hw.spi_read (read_frame mac_csr_cmd) 4 e).0 ≡ ok bytes)
        × (bit_and (get_le32 bytes) mac_csr_cmd_busy ≡ 0)
  pub idle_view : (e : E) → view (hw.spi_read (read_frame mac_csr_cmd) 4 e).1 ≡ view e

mac_store-command :
    (i : ℕ) (m : MacRegs)
    → i < 2 ^ 8
    → mac_store mac_csr_cmd (bit_or i mac_csr_cmd_busy) m ≡ mac_set i m.data_reg m
mac_store-command i m h =
    let command : bit_or i mac_csr_cmd_busy ≡ i + 2 ^ 31 = bit_or_power 31 i (omega arith) in
    let writes : ((i + 2 ^ 31) / 2 ^ 30 == 2) ≡ true = ground arith in
    let index : (i + 2 ^ 31) % 2 ^ 8 ≡ i = omega arith in rw (command, writes, index) refl

module _ {E : Type 0} (hw : Hw E) (view : E → MacRegs) (chip : IsMacChip hw view) where
  -- The access succeeds, leaves the driver's state, and the MAC registers are as given.
  abbrev pub Leaves : World E → MacRegs → World E → Type 0
  Leaves w m w' = (view w'.env ≡ m) × (w'.ctx ≡ w.ctx)

  store-Yields :
      (a v : ℕ) (w : World E)
      → a < 2 ^ 16
      → v < 2 ^ 32
      → Yields (λ _ w'. Leaves w (mac_store a v (view w.env)) w') (write_sys_reg hw a v w)
  unfolding write_sys_reg spi_write_dt
  store-Yields a v w h k =
      rw (chip.store_ok a v w.env h k) (yields (chip.store_view a v w.env h k, refl))

  wait-Yields :
      (fuel : ℕ) (w : World E)
      → 0 < fuel
      → Yields
          (λ _ w'. Leaves w (view w.env) w')
          (wait_ready hw fuel mac_csr_cmd mac_csr_cmd_busy 0 mac_timeout w)
  unfolding wait_ready poll uptime_get read_sys_reg spi_transceive_dt
  wait-Yields zero w h = absurd (omega arith)
  wait-Yields (suc fuel) w h =
      let (bytes, answer, not_busy) = chip.idle w.env in
      rw (answer, not_busy) (yields (chip.idle_view w.env, refl))

  pub write_mac_reg-Yields :
      (fuel i v : ℕ) (w : World E)
      → 0 < fuel
      → i < 2 ^ 8
      → v < 2 ^ 32
      → Yields
          (λ _ w'. Leaves w (mac_set i v (record (view w.env) { data_reg = v })) w')
          (write_mac_reg hw fuel i v w)
  unfolding write_mac_reg
  write_mac_reg-Yields fuel i v w h k l =
      let command : bit_or i mac_csr_cmd_busy ≡ i + 2 ^ 31 = bit_or_power 31 i (omega arith) in
      Yields.bind (wait-Yields fuel w h) λ _ w1 a.
        Yields.bind (store-Yields mac_csr_data v w1 (omega arith) l) λ _ w2 b.
          Yields.bind
            (store-Yields mac_csr_cmd (bit_or i mac_csr_cmd_busy) w2 (omega arith)
              (omega (arith, command)))
            λ _ w3 c. Yields.mono (wait-Yields fuel w3 h) λ _ w4 d. (
              d.0
                  ∙ c.0
                  ∙ mac_store-command i (view w2.env) k
                  ∙ ap (λ m. mac_set i m.data_reg m)
                      (b.0 ∙ ap {A = MacRegs} (λ m. record m { data_reg = v }) a.0),
              d.1 ∙ c.1 ∙ b.1 ∙ a.1,
            )
