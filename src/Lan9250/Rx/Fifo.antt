-- ===== src/Lan9250/Rx/Fifo.antt =====
-- What a frame's bytes become on their way through the data FIFOs.
use rp2350_zephyr_stepper.Prelude.{
  ℕ, zero, suc, ◌+◌, ◌-◌, ◌<◌, ◌≡◌, ◌∙◌, ap, List, ◌∷◌, ◌++◌, arith, refl, min, ◌==◌, take, drop,
  length, take-append, drop-append, take_add, drop_add, append_assoc, Bool-cases, inl, inr,
}
use rp2350_zephyr_stepper.Lan9250.World.{World, Hw, ok, Ret}
use rp2350_zephyr_stepper.Lan9250.Yields.{Yields, yields}
use rp2350_zephyr_stepper.Lan9250.Yields
use rp2350_zephyr_stepper.Lan9250.Regs.{spi_instr_read, rx_data_fifo}
use rp2350_zephyr_stepper.Lan9250.Bus.{put_be16, spi_transceive_dt}
use rp2350_zephyr_stepper.Lan9250.Rx.{read_buf, pkt_append, receive, read_pad}

-- The bytes in the RX data FIFO and those in the packet at hand: a read takes the bytes out of the
-- FIFO in their order, and the packet pool puts bytes behind those that are there.
pub record IsFifo {E : Type 0} (hw : Hw E) (pkt : ℕ) (fifo packet : E → List ℕ) : Type 0 where
  pub reads :
      (n : ℕ) (e : E)
      → (hw.spi_read (spi_instr_read ∷ put_be16 rx_data_fifo) n e).0 ≡ ok (take n (fifo e))
  pub reads_fifo :
      (n : ℕ) (e : E)
      → fifo (hw.spi_read (spi_instr_read ∷ put_be16 rx_data_fifo) n e).1 ≡ drop n (fifo e)
  pub reads_packet :
      (n : ℕ) (e : E)
      → packet (hw.spi_read (spi_instr_read ∷ put_be16 rx_data_fifo) n e).1 ≡ packet e
  pub append_fifo : (bytes : List ℕ) (e : E) → fifo (hw.pkt_append pkt bytes e) ≡ fifo e
  pub append_packet :
      (bytes : List ℕ) (e : E) → packet (hw.pkt_append pkt bytes e) ≡ packet e ++ bytes

-- The run succeeds with these bytes in the FIFO and in the packet.
abbrev pub Holds :
    {E A : Type 0} (fifo packet : E → List ℕ) (in_fifo in_packet : List ℕ)
    → Ret A × World E
    → Type 0
Holds fifo packet in_fifo in_packet =
    Yields (λ _ w. (fifo w.env ≡ in_fifo) × (packet w.env ≡ in_packet))

module _ {E : Type 0} (hw : Hw E) (pkt : ℕ) (fifo packet : E → List ℕ)
    (port : IsFifo hw pkt fifo packet) where
  read_buf-Yields :
      (n : ℕ) (w : World E)
      → Yields
          (λ bytes w'.
            (bytes ≡ take n (fifo w.env))
            × (fifo w'.env ≡ drop n (fifo w.env))
            × (packet w'.env ≡ packet w.env))
          (read_buf hw n w)
  unfolding read_buf spi_transceive_dt
  read_buf-Yields n w =
      rw (port.reads n w.env) (yields (refl, port.reads_fifo n w.env, port.reads_packet n w.env))

  read_pad-Holds :
      (n : ℕ) (w : World E)
      → Holds fifo packet (drop n (fifo w.env)) (packet w.env) (read_pad hw n w)
  unfolding read_pad
  read_pad-Holds n w = elim (Bool-cases (n == 0)) [
    | inl nil ↦ let z : n ≡ 0 = ground arith in rw (nil, z) (yields (refl, refl))
    | inr more ↦ rw more (Yields.bind (read_buf-Yields n w) λ _ w1 h. yields (h.1, h.2))
  ]

  module _ (size : ℕ) (room : 0 < size) where
    receive-Holds :
        (fuel n : ℕ) (w : World E)
        → n < fuel
        → Holds fifo packet
            (drop n (fifo w.env))
            (packet w.env ++ take n (fifo w.env))
            (receive hw fuel size pkt n w)
    unfolding receive pkt_append
    receive-Holds zero n w h = absurd (omega arith)
    receive-Holds (suc fuel) n w h =
        let m = min n size in
        Yields.bind (read_buf-Yields m w) λ bytes w1 h1.
          let w2 : World E = record w1 { env = hw.pkt_append pkt bytes w1.env } in
          let at_fifo : fifo w2.env ≡ drop m (fifo w.env) = port.append_fifo bytes w1.env ∙ h1.1 in
          let at_packet : packet w2.env ≡ packet w.env ++ take m (fifo w.env) =
            port.append_packet bytes w1.env ∙ rw (h1.0, h1.2) refl in
          elim (Bool-cases (n - m == 0)) [
            | inl last ↦
                let all : m ≡ n = ground arith in
                rw last (
                  yields (
                    at_fifo ∙ ap (λ k. drop k (fifo w.env)) all,
                    at_packet ∙ ap (λ k. packet w.env ++ take k (fifo w.env)) all,
                  ))
            | inr more ↦
                let e : m + (n - m) ≡ n = omega arith in
                rw more (
                  Yields.mono (receive-Holds fuel (n - m) w2 (ground arith)) λ _ w3 h3. (
                    h3.0
                        ∙ ap (drop (n - m)) at_fifo
                        ∙ drop_add m (n - m) (fifo w.env)
                        ∙ ap (λ k. drop k (fifo w.env)) e,
                    h3.1
                        ∙ rw (at_packet, at_fifo)
                            (append_assoc (packet w.env) (take m (fifo w.env))
                                (take (n - m) (drop m (fifo w.env)))
                              ∙ ap (λ l. packet w.env ++ l)
                                  (take_add m (n - m) (fifo w.env)
                                    ∙ ap (λ k. take k (fifo w.env)) e)),
                  ))
          ]

    -- A frame at the head of the FIFO, and what stands behind it.
    pub receive-frame :
        (n : ℕ) (frame behind : List ℕ) (w : World E)
        → length frame ≡ n
        → fifo w.env ≡ frame ++ behind
        → Holds fifo packet behind (packet w.env ++ frame) (receive hw (n + 1) size pkt n w)
    receive-frame n frame behind w len q =
        Yields.mono (receive-Holds (n + 1) n w (omega arith)) λ _ w1 h. (
          h.0 ∙ ap (drop n) q ∙ drop-append n frame behind len,
          h.1 ∙ ap (λ l. packet w.env ++ l) (ap (take n) q ∙ take-append n frame behind len),
        )

  pub read_pad-pad :
      (k : ℕ) (pad rest held : List ℕ) (w : World E)
      → length pad ≡ k
      → (fifo w.env ≡ pad ++ rest) × (packet w.env ≡ held)
      → Holds fifo packet rest held (read_pad hw k w)
  read_pad-pad k pad rest held w len h =
      Yields.mono (read_pad-Holds k w)
        λ _ w1 h1. (h1.0 ∙ ap (drop k) h.0 ∙ drop-append k pad rest len, h1.1 ∙ h.1)
