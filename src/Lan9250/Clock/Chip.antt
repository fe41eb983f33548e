-- ===== src/Lan9250/Clock/Chip.antt =====
-- What the driver's clock functions (drivers/eth_lan9250/eth_lan9250.c) do to the chip's running clock.
use rp2350_zephyr_stepper.Prelude.{
  ℕ, ◌+◌, ◌/◌, ap, ◌∙◌, sym, ◌%◌, ◌^◌, ◌<◌, ◌≤◌, ◌≡◌, arith, ℤ, pos, negsuc, ◌+ℤ◌, pos_part,
  neg_part,
}
use rp2350_zephyr_stepper.Lan9250.World.{World, Hw, ok}
use rp2350_zephyr_stepper.Lan9250.Regs.{
  ieee1588_cmd_ctl, ieee1588_clock_sec, ieee1588_clock_ns, ieee1588_cmd_ctl_clock_load,
  ieee1588_cmd_ctl_clock_read,
}
use rp2350_zephyr_stepper.Lan9250.Yields.{Yields, yields}
use rp2350_zephyr_stepper.Lan9250.Yields
use rp2350_zephyr_stepper.Lan9250.Bus.{
  put_le32, spi_write_dt, spi_transceive_dt, write_sys_reg, read_sys_reg,
}
use rp2350_zephyr_stepper.Lan9250.Bus.Frames.{read_frame, get_le32-put_le32}
use rp2350_zephyr_stepper.Lan9250.Clock.{
  Time, borrow, adjusted, ptp_clock_read, ptp_clock_set, ptp_clock_adjust,
}
use rp2350_zephyr_stepper.Lan9250.Clock.Running.{
  IsTime, nanos, span, ChipClock, shown_at, Runs, IsLatched, IsLoaded, IsClockChip,
}

-- For a proper time and an increment of at most 2^31 nanoseconds either way, the step computes a
-- proper time, moved by exactly the increment modulo the span of the 32-bit second counter.
adjusted-nanos :
    (t : Time) (inc : ℤ)
    → IsTime t
    → pos_part inc + neg_part inc ≤ 2 ^ 31
    → IsTime (adjusted t inc)
      × ((nanos (adjusted t inc) + neg_part inc) % span ≡ (nanos t + pos_part inc) % span)
unfolding adjusted borrow ◌+ℤ◌
adjusted-nanos t (pos n) h k = ground arith
adjusted-nanos t (negsuc n) h k = ground arith

-- At `moment`, between the two states, the clock showed the time `t`.
pub record IsShown (c c' : ChipClock) (t : Time) : Type 0 where
  pub moment : ℕ
  pub since : c.ticks ≤ moment
  pub until : moment ≤ c'.ticks
  pub phase : c'.phase ≡ c.phase
  pub proper : IsTime t
  pub shown : nanos t ≡ shown_at c moment

-- The clock was read at one moment and loaded at a later one, with the time read moved by `inc`.
pub record IsStepped (inc : ℤ) (c c' : ChipClock) : Type 0 where
  pub read_at : ℕ
  pub loaded_at : ℕ
  pub since : c.ticks ≤ read_at
  pub order : read_at ≤ loaded_at
  pub until : loaded_at ≤ c'.ticks
  pub moved :
      (shown_at c' loaded_at + neg_part inc) % span ≡ (shown_at c read_at + pos_part inc) % span

-- A register pair that was latched is a proper time.
latched-nanos :
    (n : ℕ)
    → n < span
    → IsTime (record { sec = n / 1_000_000_000; ns = n % 1_000_000_000 })
      × (nanos (record { sec = n / 1_000_000_000; ns = n % 1_000_000_000 }) ≡ n)
latched-nanos n h = ((omega arith, omega arith), omega arith)

moved-lem :
    (shown target add sub time : ℕ)
    → shown ≡ target % span
    → (target + sub) % span ≡ (time + add) % span
    → (shown + sub) % span ≡ (time + add) % span
moved-lem shown target add sub time e f = omega arith

module _ {E : Type 0} (hw : Hw E) (view : E → ChipClock) (chip : IsClockChip hw view) where
  -- What an access that leaves the clock running does to the registers.
  abbrev Keeps : ℕ → ℕ → World E → World E → Type 0
  Keeps sec ns w w' =
      Runs (view w.env) (view w'.env) × ((view w'.env).sec_reg ≡ sec) × ((view w'.env).ns_reg ≡ ns)

  sec-Yields :
      (v : ℕ) (w : World E)
      → v < 2 ^ 32
      → Yields (λ _ w'. Keeps v (view w.env).ns_reg w w') (write_sys_reg hw ieee1588_clock_sec v w)
  unfolding write_sys_reg spi_write_dt
  sec-Yields v w h =
      rw (chip.store_ok ieee1588_clock_sec v w.env (omega arith) h)
        (yields (chip.store_sec v w.env h))

  ns-Yields :
      (v : ℕ) (w : World E)
      → v < 2 ^ 32
      → Yields (λ _ w'. Keeps (view w.env).sec_reg v w w') (write_sys_reg hw ieee1588_clock_ns v w)
  unfolding write_sys_reg spi_write_dt
  ns-Yields v w h =
      rw (chip.store_ok ieee1588_clock_ns v w.env (omega arith) h)
        (yields (chip.store_ns v w.env h))

  latch-Yields :
      (w : World E)
      → Yields
          (λ _ w'. IsLatched (view w.env) (view w'.env))
          (write_sys_reg hw ieee1588_cmd_ctl ieee1588_cmd_ctl_clock_read w)
  unfolding write_sys_reg spi_write_dt
  latch-Yields w =
      rw
        (chip.store_ok ieee1588_cmd_ctl ieee1588_cmd_ctl_clock_read w.env (omega arith)
          (omega arith))
        (yields (chip.clock_read w.env))

  load-Yields :
      (w : World E)
      → Yields
          (λ _ w'. IsLoaded (view w.env) (view w'.env))
          (write_sys_reg hw ieee1588_cmd_ctl ieee1588_cmd_ctl_clock_load w)
  unfolding write_sys_reg spi_write_dt
  load-Yields w =
      rw
        (chip.store_ok ieee1588_cmd_ctl ieee1588_cmd_ctl_clock_load w.env (omega arith)
          (omega arith))
        (yields (chip.clock_load w.env))

  -- A read of a register that holds `v`.
  fetch-Yields :
      (a v : ℕ) (w : World E)
      → (hw.spi_read (read_frame a) 4 w.env).0 ≡ ok (put_le32 v)
      → v < 2 ^ 32
      → Yields
          (λ x w'. (x ≡ v) × Keeps (view w.env).sec_reg (view w.env).ns_reg w w')
          (read_sys_reg hw a w)
  unfolding read_sys_reg spi_transceive_dt
  fetch-Yields a v w e h = rw e (yields (get_le32-put_le32 v h, chip.fetch_view a w.env))

  -- A read succeeds, and gives a time that the clock showed at one moment while it went on.
  ptp_clock_read-Yields :
      (w : World E) → Yields (λ t w'. IsShown (view w.env) (view w'.env) t) (ptp_clock_read hw w)
  unfolding ptp_clock_read
  ptp_clock_read-Yields w = Yields.bind (latch-Yields w) λ _ w1 l.
      let n = shown_at (view w.env) l.moment in
      let (proper, same) = latched-nanos n (omega arith) in
      let seconds = chip.fetch_sec w1.env ∙ ap (λ v. ok (put_le32 v)) l.sec_reg in
      Yields.bind (fetch-Yields ieee1588_clock_sec (n / 1_000_000_000) w1 seconds (omega arith))
        λ s w2 f.
          let parts = chip.fetch_ns w2.env ∙ ap (λ v. ok (put_le32 v)) (f.1.2 ∙ l.ns_reg) in
          Yields.bind (fetch-Yields ieee1588_clock_ns (n % 1_000_000_000) w2 parts (omega arith))
            λ m w3 g. yields (
              rw (f.0, g.0)
                (record {
                  moment = l.moment;
                  since = l.since;
                  until = omega (arith, l.until, f.1.0.1, g.1.0.1);
                  phase = g.1.0.0 ∙ f.1.0.0 ∙ l.phase;
                  proper = proper;
                  shown = same;
                }))

  -- Setting the clock to a time of 32-bit seconds and nanoseconds succeeds, and at one moment the
  -- clock shows it.
  ptp_clock_set-Yields :
      (sec ns : ℕ) (w : World E)
      → sec < 2 ^ 32
      → ns < 2 ^ 32
      → Yields
          (λ _ w'.
            (t : ℕ) × ((view w.env).ticks ≤ t)
            × (t ≤ (view w'.env).ticks)
            × (shown_at (view w'.env) t ≡ nanos (record { sec = sec; ns = ns }) % span))
          (ptp_clock_set hw sec ns w)
  unfolding ptp_clock_set
  ptp_clock_set-Yields sec ns w h k = Yields.bind (sec-Yields sec w h) λ _ w1 f.
      Yields.bind (ns-Yields ns w1 k) λ _ w2 g. Yields.mono (load-Yields w2) λ _ w3 l. (
        l.moment,
        omega (arith, l.since, f.0.1, g.0.1),
        l.until,
        rw (sym (g.1 ∙ f.1), sym (g.2)) (l.shown),
      )

  -- On a chip that takes the frames as IsClockChip says, with a clock that runs on during every
  -- access, a step by a signed 32-bit number of nanoseconds succeeds: there are a moment at which
  -- the clock is read and a later one at which it is loaded, both within the call, and at the
  -- second the clock shows what it showed at the first, moved by exactly that number, modulo the
  -- span of its 32-bit second counter.
  pub ptp_clock_adjust-Yields :
      (inc : ℤ) (w : World E)
      → pos_part inc + neg_part inc ≤ 2 ^ 31
      → Yields (λ _ w'. IsStepped inc (view w.env) (view w'.env)) (ptp_clock_adjust hw inc w)
  unfolding ptp_clock_adjust
  ptp_clock_adjust-Yields inc w k = Yields.bind (ptp_clock_read-Yields w) λ t w1 r.
      let (proper, same) = adjusted-nanos t inc r.proper k in
      Yields.mono
        (ptp_clock_set-Yields (adjusted t inc).sec (adjusted t inc).ns w1 (proper.0) (omega arith))
        λ _ w2 (moment, since, until, shown). record {
          read_at = r.moment;
          loaded_at = moment;
          since = r.since;
          order = omega (arith, r.until);
          until = until;
          moved = moved-lem _ _ _ _ _ shown (same ∙ ap (λ n. (n + pos_part inc) % span) r.shown);
        }
