-- ===== src/Lan9250/Timestamps/Stamps.antt =====
-- Which functions give no timestamp.
use rp2350_zephyr_stepper.Prelude.{ℕ, Option, none, some, List, [], ◌∷◌}
use rp2350_zephyr_stepper.Lan9250.World.{
  World, Hw, Context, Pending, Event, pkt_stamp, pkt_ref, emit, put_ctx, ◌>>◌,
}
use rp2350_zephyr_stepper.Lan9250.Keeps.{Keeps, keeps_rules}
use rp2350_zephyr_stepper.Lan9250.Bus.{spi_write_dt, spi_transceive_dt, write_sys_reg, read_sys_reg}
use rp2350_zephyr_stepper.Lan9250.Timestamps.Captures.{poll_rx_capture-Keeps}
use rp2350_zephyr_stepper.Lan9250.Timestamps.{poll_rx_capture, unref_slot, queued, enqueue}

-- The timestamps that packets were given: the packet, the seconds and the nanoseconds.
abbrev pub stamps : List Event → List (ℕ × ℕ × ℕ)
stamps [] = []
stamps (pkt_stamp p sec ns ∷ es) = (p, sec, ns) ∷ stamps es
stamps (_ ∷ es) = stamps es

module _ {E : Type 0} (P : List (ℕ × ℕ × ℕ) → Context → Type 0) where
  -- What is true of the timestamps given so far and of the driver's state.
  abbrev pub Seen : World E → Type 0
  Seen w = P (stamps w.trace) w.ctx

  module _ (hw : Hw E) where
    pub write_sys_reg-Keeps : (a v : ℕ) → Keeps Seen (write_sys_reg hw a v)
    unfolding write_sys_reg spi_write_dt
    write_sys_reg-Keeps a v = record { keeps = λ w b. b }

    transceive-Keeps : (bytes : List ℕ) (n : ℕ) → Keeps Seen (spi_transceive_dt hw bytes n)
    unfolding spi_transceive_dt
    transceive-Keeps bytes n = record { keeps = λ w b. b }

    read_sys_reg-Keeps : (a : ℕ) → Keeps Seen (read_sys_reg hw a)
    unfolding read_sys_reg
    read_sys_reg-Keeps a = search (keeps_rules, transceive-Keeps)

    pub capture-Keeps : Keeps Seen (poll_rx_capture hw)
    capture-Keeps =
        poll_rx_capture-Keeps hw Seen write_sys_reg-Keeps (λ a _ _. read_sys_reg-Keeps a)

    unref_slot-Keeps : (slot : Option Pending) → Keeps Seen (unref_slot hw slot)
    unfolding unref_slot
    unref_slot-Keeps none = record { keeps = λ w b. b }
    unref_slot-Keeps (some p) = record { keeps = λ w b. b }

module _ {E : Type 0} (P : List (ℕ × ℕ × ℕ) → Type 0) (hw : Hw E) where
  put_queued-Keeps :
      (now pkt t s slot : ℕ) (c : Context)
      → Keeps {E = E}
          (λ w. P (stamps w.trace))
          (emit (pkt_ref pkt) >> put_ctx (queued hw now pkt t s slot c))
  put_queued-Keeps now pkt t s slot c = record { keeps = λ w b. b }

  pub enqueue-Keeps : (pkt t s : ℕ) → Keeps (λ w. P (stamps w.trace)) (enqueue hw pkt t s)
  unfolding enqueue
  enqueue-Keeps pkt t s = search (keeps_rules, unref_slot-Keeps (λ x _. P x) hw, put_queued-Keeps)
