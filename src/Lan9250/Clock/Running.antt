-- ===== src/Lan9250/Clock/Running.antt =====
-- The 1588 clock as the chip keeps it: a clock that runs on by itself, and the registers through which
-- it is read and set.
use rp2350_zephyr_stepper.Prelude.{ℕ, ◌+◌, ◌*◌, ◌/◌, ◌%◌, ◌^◌, ◌<◌, ◌≤◌, ◌≡◌}
use rp2350_zephyr_stepper.Lan9250.World.{Hw, ok}
use rp2350_zephyr_stepper.Lan9250.Regs.{
  ieee1588_cmd_ctl, ieee1588_clock_sec, ieee1588_clock_ns, ieee1588_cmd_ctl_clock_load,
  ieee1588_cmd_ctl_clock_read,
}
use rp2350_zephyr_stepper.Lan9250.Bus.{put_le32}
use rp2350_zephyr_stepper.Lan9250.Bus.Frames.{write_frame, read_frame}
use rp2350_zephyr_stepper.Lan9250.Clock.{Time}

-- A time that the clock can show.
abbrev pub IsTime : Time → Type 0
IsTime t = (t.sec < 2 ^ 32) × (t.ns < 1_000_000_000)

-- Nanoseconds since the second counter was 0.
abbrev pub nanos : Time → ℕ
nanos t = t.sec * 1_000_000_000 + t.ns

-- The span of the second counter, in nanoseconds.
abbrev pub span : ℕ
span = 2 ^ 32 * 1_000_000_000

-- The clock's two registers, and the running clock behind them: `ticks` are the nanoseconds that
-- it has counted up to now, and `phase` is what is added to them for the time that it shows.
pub record ChipClock : Type 0 where
  pub sec_reg : ℕ
  pub ns_reg : ℕ
  pub phase : ℕ
  pub ticks : ℕ

-- What the clock shows when it has counted `t` nanoseconds, in nanoseconds.
abbrev pub shown_at : ChipClock → ℕ → ℕ
shown_at c t = (c.phase + t) % span

-- An access took some time.
abbrev pub Runs : ChipClock → ChipClock → Type 0
Runs c c' = (c'.phase ≡ c.phase) × (c.ticks ≤ c'.ticks)

-- At one moment of the access, the registers took what the clock then showed.
pub record IsLatched (c c' : ChipClock) : Type 0 where
  pub moment : ℕ
  pub since : c.ticks ≤ moment
  pub until : moment ≤ c'.ticks
  pub phase : c'.phase ≡ c.phase
  pub sec_reg : c'.sec_reg ≡ shown_at c moment / 1_000_000_000
  pub ns_reg : c'.ns_reg ≡ shown_at c moment % 1_000_000_000

-- At one moment of the access, the clock took what the registers held.
pub record IsLoaded (c c' : ChipClock) : Type 0 where
  pub moment : ℕ
  pub since : c.ticks ≤ moment
  pub until : moment ≤ c'.ticks
  pub shown : shown_at c' moment ≡ (c.sec_reg * 1_000_000_000 + c.ns_reg) % span

-- A chip whose SPI port works, and whose clock goes on by an unknown time in each access.
pub record IsClockChip {E : Type 0} (hw : Hw E) (view : E → ChipClock) : Type 0 where
  pub store_ok :
      (a v : ℕ) (e : E) → a < 2 ^ 16 → v < 2 ^ 32 → (hw.spi_write (write_frame a v) e).0 ≡ ok tt
  pub store_sec :
      (v : ℕ) (e : E)
      → v < 2 ^ 32
      → let c = view e in
        let c' = view (hw.spi_write (write_frame ieee1588_clock_sec v) e).1 in
        Runs c c' × (c'.sec_reg ≡ v) × (c'.ns_reg ≡ c.ns_reg)
  pub store_ns :
      (v : ℕ) (e : E)
      → v < 2 ^ 32
      → let c = view e in
        let c' = view (hw.spi_write (write_frame ieee1588_clock_ns v) e).1 in
        Runs c c' × (c'.sec_reg ≡ c.sec_reg) × (c'.ns_reg ≡ v)
  pub clock_read :
      (e : E)
      → IsLatched
          (view e)
          (view (hw.spi_write (write_frame ieee1588_cmd_ctl ieee1588_cmd_ctl_clock_read) e).1)
  pub clock_load :
      (e : E)
      → IsLoaded
          (view e)
          (view (hw.spi_write (write_frame ieee1588_cmd_ctl ieee1588_cmd_ctl_clock_load) e).1)
  pub fetch_sec :
      (e : E) → (hw.spi_read (read_frame ieee1588_clock_sec) 4 e).0 ≡ ok (put_le32 (view e).sec_reg)
  pub fetch_ns :
      (e : E) → (hw.spi_read (read_frame ieee1588_clock_ns) 4 e).0 ≡ ok (put_le32 (view e).ns_reg)
  pub fetch_view :
      (a : ℕ) (e : E)
      → let c = view e in
        let c' = view (hw.spi_read (read_frame a) 4 e).1 in
        Runs c c' × (c'.sec_reg ≡ c.sec_reg) × (c'.ns_reg ≡ c.ns_reg)
