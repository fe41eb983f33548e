-- ===== src/Lan9250/Rx/Content.antt =====
-- The matching of timestamps does not touch the RX data FIFO and the packet.
use rp2350_zephyr_stepper.Prelude.{
  ℕ, ◌/◌, ◌^◌, ◌<◌, ◌≡◌, ◌∙◌, false, some, List, min, ◌∷◌, bit_and, ◌==◌,
}
use rp2350_zephyr_stepper.Lan9250.World.{
  World, Hw, Ret, ok, err, hang, Context, Event, pkt_ref, pkt_unref, pkt_stamp, emit, put_ctx,
}
use rp2350_zephyr_stepper.Lan9250.Keeps.{Keeps, Keeps-bind, Keeps-pure, keeps_rules}
use rp2350_zephyr_stepper.Lan9250.Regs.{rx_fifo_inf, rx_status_fifo, rx_sts_packet_len}
use rp2350_zephyr_stepper.Lan9250.Bus.{
  get_le32, spi_write_dt, spi_transceive_dt, write_sys_reg, read_sys_reg,
}
use rp2350_zephyr_stepper.Lan9250.Bus.Frames.{read_frame}
use rp2350_zephyr_stepper.Lan9250.Parse.{Parsed, parse_header, ptp, other, out_of_bounds}
use rp2350_zephyr_stepper.Lan9250.Timestamps.Correlates.{correlate-Keeps}
use rp2350_zephyr_stepper.Lan9250.Timestamps.{correlate_parsed, check_header, rx_timestamp_check}
use rp2350_zephyr_stepper.Lan9250.Rx.Fifo.{IsFifo}

-- The rest of the chip and of the packet pool. Beside the RX data FIFO there are the lengths of the
-- frames in it: while there is one, the count is above 0, and a read of the status gives the first.
-- No other access touches the RX data FIFO or the packet, and for a frame of `n` bytes the pool
-- gives the packet.
pub record IsReceiver {E : Type 0} (hw : Hw E) (pkt : ℕ) (fifo packet lengths : E → List ℕ) (n : ℕ)
    : Type 0 where
  pub port : IsFifo hw pkt fifo packet
  pub writes_keep :
      (bytes : List ℕ) (e : E)
      → (fifo (hw.spi_write bytes e).1 ≡ fifo e) × (packet (hw.spi_write bytes e).1 ≡ packet e)
  pub reads_keep :
      (a : ℕ) (e : E)
      → 0 < a
      → a < 2 ^ 16
      → (fifo (hw.spi_read (read_frame a) 4 e).1 ≡ fifo e)
        × (packet (hw.spi_read (read_frame a) 4 e).1 ≡ packet e)
  pub counts :
      (m : ℕ) (ms : List ℕ) (e : E)
      → lengths e ≡ m ∷ ms
      → (bytes : List ℕ) × ((hw.spi_read (read_frame rx_fifo_inf) 4 e).0 ≡ ok bytes)
        × ((bit_and (get_le32 bytes) 0x00ff_0000 / 2 ^ 16 == 0) ≡ false)
        × (lengths (hw.spi_read (read_frame rx_fifo_inf) 4 e).1 ≡ m ∷ ms)
  pub measures :
      (m : ℕ) (ms : List ℕ) (e : E)
      → lengths e ≡ m ∷ ms
      → (bytes : List ℕ) × ((hw.spi_read (read_frame rx_status_fifo) 4 e).0 ≡ ok bytes)
        × (bit_and (get_le32 bytes) rx_sts_packet_len / 2 ^ 16 ≡ m)
  pub allocates : (e : E) → (hw.rx_alloc n e).0 ≡ some pkt
  pub alloc_keeps :
      (e : E) → (fifo (hw.rx_alloc n e).1 ≡ fifo e) × (packet (hw.rx_alloc n e).1 ≡ packet e)
  pub recv_keeps :
      (e : E) → (fifo (hw.recv_data pkt e).1 ≡ fifo e) × (packet (hw.recv_data pkt e).1 ≡ packet e)

module _ {E : Type 0} (hw : Hw E) (pkt : ℕ) (fifo packet lengths : E → List ℕ) (n : ℕ)
    (chip : IsReceiver hw pkt fifo packet lengths n) (f p : List ℕ) where
  -- What the FIFO and the packet hold.
  abbrev pub Content : World E → Type 0
  Content w = (fifo w.env ≡ f) × (packet w.env ≡ p)

  write_sys_reg-Keeps : (a v : ℕ) → Keeps Content (write_sys_reg hw a v)
  unfolding write_sys_reg spi_write_dt
  write_sys_reg-Keeps a v = record {
    keeps = λ w b. let k = chip.writes_keep _ w.env in (k.0 ∙ b.0, k.1 ∙ b.1);
  }

  pub read_sys_reg-Keeps : (a : ℕ) → 0 < a → a < 2 ^ 16 → Keeps Content (read_sys_reg hw a)
  unfolding read_sys_reg spi_transceive_dt
  read_sys_reg-Keeps a h l =
      Keeps-bind _ _
        (record { keeps = λ w b. let k = chip.reads_keep a w.env h l in (k.0 ∙ b.0, k.1 ∙ b.1) })
        λ bytes. Keeps-pure _

  emit-Keeps : (e : Event) → Keeps Content (emit e)
  emit-Keeps e = record { keeps = λ w b. b }

  put-Keeps : (c : Context) → Keeps Content (put_ctx c)
  put-Keeps c = record { keeps = λ w b. b }

  correlate_parsed-Keeps : (q : ℕ) (h : Parsed) → Keeps Content (correlate_parsed hw q h)
  unfolding correlate_parsed
  correlate_parsed-Keeps q (ptp t s) = search (
    keeps_rules,
    emit-Keeps,
    correlate-Keeps hw Content write_sys_reg-Keeps read_sys_reg-Keeps (λ p. emit-Keeps (pkt_ref p))
        (λ p. emit-Keeps (pkt_unref p)) (λ p sec ns. emit-Keeps (pkt_stamp p sec ns)) put-Keeps,
  )
  correlate_parsed-Keeps q other = search keeps_rules
  correlate_parsed-Keeps q out_of_bounds = search keeps_rules

  check_header-Keeps : (q len : ℕ) (r : Ret (List ℕ)) → Keeps Content (check_header hw q len r)
  unfolding check_header
  check_header-Keeps q len (ok header) = correlate_parsed-Keeps q (parse_header header len)
  check_header-Keeps q len (err e) = search keeps_rules
  check_header-Keeps q len hang = search keeps_rules

  pub rx_timestamp_check-Keeps : (q len : ℕ) → Keeps Content (rx_timestamp_check hw q len)
  unfolding rx_timestamp_check
  rx_timestamp_check-Keeps q len = record {
    keeps = λ w b. (check_header-Keeps q _ (hw.pkt_read q (min len 128) w.env)).keeps w b;
  }
