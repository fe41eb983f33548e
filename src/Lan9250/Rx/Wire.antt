-- ===== src/Lan9250/Rx/Wire.antt =====
-- A frame from one board's transmission to another's reception: `lan9250_tx` rounds the frame up to
-- whole words, and `lan9250_rx` reads the bytes that are added off the FIFO again.
use rp2350_zephyr_stepper.Prelude.{
  ℕ, ◌+◌, ◌≤◌, ◌<◌, ◌≡◌, ◌∙◌, ap, List, [], ◌∷◌, ◌++◌, arith, refl, take, drop, length, take_over,
  length-take, length-drop, append_assoc,
}
use rp2350_zephyr_stepper.Lan9250.World.{World, Hw, ok, Event, spi_out}
use rp2350_zephyr_stepper.Lan9250.Bus.{spi_write_dt}
use rp2350_zephyr_stepper.Lan9250.Rx.{align, end_pad, write_buf, fill_buf, send_frame, rx}
use rp2350_zephyr_stepper.Lan9250.Rx.Drain.{align-end_pad}
use rp2350_zephyr_stepper.Lan9250.Rx.Content.{IsReceiver}
use rp2350_zephyr_stepper.Lan9250.Rx.Delivers.{Handed, rx-Yields}
use rp2350_zephyr_stepper.Lan9250.Bus.Total.{IsKernel}
use rp2350_zephyr_stepper.Lan9250.Yields.{Yields}

-- The data of the last SPI write, behind its instruction and its address.
abbrev pub payload : List Event → List ℕ
payload (spi_out (i ∷ hi ∷ lo ∷ bytes) ∷ before) = bytes
payload _ = []

pad-length :
    (n : ℕ) (buf : List ℕ)
    → align n ≤ length buf
    → length (take (end_pad n) (drop n buf)) ≡ end_pad n
pad-length n buf h =
    omega (arith, length-take (end_pad n) (drop n buf), length-drop n buf, (align-end_pad n).0)

module _ {S : Type 0} (sender : Hw S) where
  send_frame-payload :
      (pkt : ℕ) (frame : List ℕ) (w : World S)
      → sender.pkt_read pkt (length frame) w.env ≡ ok frame
      → payload (send_frame sender pkt (length frame) w).1.trace
        ≡ frame ++ take (end_pad (length frame)) (drop (length frame) w.ctx.buf)
  unfolding send_frame fill_buf write_buf spi_write_dt
  send_frame-payload pkt frame w q =
      let n = length frame in
      let e : align n ≡ n + end_pad n = (align-end_pad n).0 in
      rw (send_frame, fill_buf, q, e) (take_over n (end_pad n) frame (drop n w.ctx.buf) refl)

module _ {S E : Type 0} (sender : Hw S) (receiver : Hw E) (kernel : IsKernel receiver) (pkt : ℕ)
    (fifo packet lengths : E → List ℕ) (frame : List ℕ)
    (chip : IsReceiver receiver pkt fifo packet lengths (length frame)) where
  -- When the RX data FIFO of a board holds, behind the offset word, the data that another board's
  -- transmission of a frame writes to the chip, with any bytes behind it, and the frame's length
  -- is the first among those of the frames that wait there, lan9250_rx succeeds, the packet gets
  -- exactly that frame, and exactly the bytes behind it stay in the FIFO, for every transfer size
  -- above 0, on a chip and a packet pool with the laws of IsReceiver and a kernel with those of
  -- IsKernel, if the frame is not empty and, rounded up to whole words, is not longer than the
  -- sender's buffer.
  pub send_frame-rx :
      (sent : ℕ) (offset rest more : List ℕ) (w1 : World S) (w2 : World E)
      → 0 < receiver.buf_data_size
      → 0 < length frame
      → sender.pkt_read sent (length frame) w1.env ≡ ok frame
      → align (length frame) ≤ length w1.ctx.buf
      → length offset ≡ 4
      → lengths w2.env ≡ length frame ∷ more
      → fifo w2.env ≡ offset ++ (payload (send_frame sender sent (length frame) w1).1.trace ++ rest)
      → Yields
          (λ _ w'.
            (fifo w'.env ≡ rest) × (packet w'.env ≡ packet w2.env ++ frame) × Handed pkt w'.trace)
          (rx receiver w2)
  send_frame-rx sent offset rest more w1 w2 room some_bytes q fits len l at_fifo =
      let n = length frame in
      let pad = take (end_pad n) (drop n w1.ctx.buf) in
      rx-Yields receiver kernel pkt fifo packet lengths n chip room frame pad rest refl
        (pad-length n w1.ctx.buf fits) offset more w2 some_bytes len l
        (at_fifo
          ∙ ap (λ l. offset ++ (l ++ rest)) (send_frame-payload sender sent frame w1 q)
          ∙ ap (λ l. offset ++ l) (append_assoc frame pad rest))
