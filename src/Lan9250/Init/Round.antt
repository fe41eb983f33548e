-- ===== src/Lan9250/Init/Round.antt =====
-- A round of the interrupt thread switches the interrupts on again.
use rp2350_zephyr_stepper.Prelude.{ℕ, ◌<◌, ◌≤◌, ◌≡◌, ◌≢◌, Option, List, ◌∷◌, arith, refl}
use rp2350_zephyr_stepper.Lan9250.World.{
  World, Hw, Event, ok, err, hang, log, Ret, caught, attempt, spi_out,
}
use rp2350_zephyr_stepper.Lan9250.Yields.{Yields, yields}
use rp2350_zephyr_stepper.Lan9250.Yields
use rp2350_zephyr_stepper.Lan9250.Regs.{int_en, int_sts}
use rp2350_zephyr_stepper.Lan9250.Bus.{spi_write_dt, write_sys_reg, read_sys_reg}
use rp2350_zephyr_stepper.Lan9250.Bus.Frames.{write_frame}
use rp2350_zephyr_stepper.Lan9250.Bus.Rules.{total_rules}
use rp2350_zephyr_stepper.Lan9250.Bus.Total.{IsKernel, read_sys_reg-IsTotal, write_sys_reg-IsTotal}
use rp2350_zephyr_stepper.Lan9250.Bus.Succeeds.{Succeeds, attempt-Succeeds, success_rules}
use rp2350_zephyr_stepper.Lan9250.Rx.Total.{IsStack, rx-IsTotal}
use rp2350_zephyr_stepper.Lan9250.Init.{
  Locals, or_keep, link_event, serve_phy, serve_rx, thread_round,
}

-- What INT_EN is read as at the start of a round: `none` when the read fails.
abbrev pub enabled_at : {E : Type 0} → Hw E → World E → Ret (Option ℕ)
enabled_at hw w = (attempt (read_sys_reg hw int_en) w).0

-- The last event is a write of `value` to `address`.
abbrev pub LastWrite : ℕ → ℕ → List Event → Type 0
LastWrite address value trace =
    (before : List Event) × (trace ≡ spi_out (write_frame address value) ∷ before)

module _ {E : Type 0} (hw : Hw E) (kernel : IsKernel hw) (fuel : ℕ) (enough : 5000 < fuel) where
  link_event-Succeeds : (source : ℕ) → Succeeds hw (link_event hw fuel source)
  unfolding link_event
  link_event-Succeeds source = search (success_rules, total_rules)

  serve_phy-Succeeds : (l : Locals) → Succeeds hw (serve_phy hw fuel l)
  unfolding serve_phy
  serve_phy-Succeeds l = search (success_rules, total_rules, link_event-Succeeds)

  caught-LastWrite :
      (s a v : ℕ) (w : World E) (r : Ret (Unit {0}))
      → r ≢ hang
      → s ≤ hw.uptime w.env
      → Yields
          (λ _ w'. (s ≤ hw.uptime w'.env) × LastWrite a v w'.trace)
          (caught (r, log (spi_out (write_frame a v)) w))
  caught-LastWrite s a v w (ok t) returns h = yields (h, (w.trace, refl))
  caught-LastWrite s a v w (err e) returns h = yields (h, (w.trace, refl))
  caught-LastWrite s a v w hang returns h = absurd (returns refl)

  -- A write whose error is passed over.
  write-LastWrite :
      (s a v : ℕ) (w : World E)
      → s ≤ hw.uptime w.env
      → Yields
          (λ _ w'. (s ≤ hw.uptime w'.env) × LastWrite a v w'.trace)
          (attempt (write_sys_reg hw a v) w)
  unfolding write_sys_reg spi_write_dt
  write-LastWrite s a v w h =
      let frame = write_frame a v in
      caught-LastWrite s a v (record w { env = (hw.spi_write frame w.env).1 })
        (hw.spi_write frame w.env).0 (kernel.write_returns frame w.env)
        (omega (arith, kernel.write_time frame w.env))

  read-first :
      (w : World E)
      → Yields
          (λ o w'. (hw.uptime w.env ≤ hw.uptime w'.env) × (enabled_at hw w ≡ ok o))
          (attempt (read_sys_reg hw int_en) w)
  read-first w =
      again (attempt (read_sys_reg hw int_en) w)
        (attempt-Succeeds hw _ (read_sys_reg-IsTotal hw kernel int_en) w)
    where
      again :
          (r : Ret (Option ℕ) × World E)
          → Yields (λ _ w'. hw.uptime w.env ≤ hw.uptime w'.env) r
          → Yields (λ o w'. (hw.uptime w.env ≤ hw.uptime w'.env) × (r.0 ≡ ok o)) r
      again _ (yields h) = yields (h, refl)

  module _ (stack : IsStack hw) (room : 0 < hw.buf_data_size) where
    serve_rx-Succeeds : (l : Locals) → Succeeds hw (serve_rx hw fuel l)
    unfolding serve_rx
    serve_rx-Succeeds l = search (success_rules, total_rules, rx-IsTotal)

    -- On a kernel whose SPI calls return, whose waits last and whose clock no call turns back, for
    -- any fuel above 5000 and a transfer size above 0, a round of the interrupt thread comes to an
    -- end, whatever the chip answers and whichever accesses fail, and its last SPI transfer writes
    -- INT_EN with the value that the round read there at its start, or with the old one if that
    -- read failed.
    pub thread_round-Yields :
        (l : Locals) (w : World E)
        → Yields
            (λ l' w'.
              (hw.uptime w.env ≤ hw.uptime w'.env)
              × LastWrite int_en l'.enabled w'.trace
              × ((o : Option ℕ) × (enabled_at hw w ≡ ok o) × (l'.enabled ≡ or_keep l.enabled o)))
            (thread_round hw fuel l w)
    unfolding thread_round
    thread_round-Yields l w = Yields.bind (read-first w) λ ier w1 h1.
        Yields.bind (attempt-Succeeds hw _ (write_sys_reg-IsTotal hw kernel int_en 0) w1) λ _ w2 h2.
          Yields.bind (attempt-Succeeds hw _ (read_sys_reg-IsTotal hw kernel int_sts) w2)
            λ sts w3 h3.
              let l1 : Locals = record {
                int_status = or_keep l.int_status sts;
                source = l.source;
                enabled = or_keep l.enabled ier;
              } in
              Yields.bind (serve_phy-Succeeds l1 w3) λ source w4 h4.
                Yields.bind (serve_rx-Succeeds l1 w4) λ _ w5 h5.
                  Yields.bind (write-LastWrite (hw.uptime w.env) int_en l1.enabled w5 (omega arith))
                    λ _ w6 h6. yields (h6.0, h6.1, (ier, h1.1, refl))
