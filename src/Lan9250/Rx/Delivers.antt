-- ===== src/Lan9250/Rx/Delivers.antt =====
-- `lan9250_rx` delivers the frame at the head of the FIFO.
use rp2350_zephyr_stepper.Prelude.{
  ℕ, ◌≤◌, ◌/◌, ◌^◌, ◌<◌, ◌≡◌, ◌∙◌, ap, Bool, true, false, some, List, ◌∷◌, ◌++◌, arith, refl,
  length, drop, drop-append, bit_and, ltb, ◌==◌, if◌then◌else◌,
}
use rp2350_zephyr_stepper.Lan9250.World.{
  World, Hw, Io, Ret, Event, rx_done, pkt_unref, rx_error, emit, pure,
}
use rp2350_zephyr_stepper.Lan9250.Yields.{Yields, yields}
use rp2350_zephyr_stepper.Lan9250.Yields
use rp2350_zephyr_stepper.Lan9250.Keeps.{Keeps}
use rp2350_zephyr_stepper.Lan9250.Regs.{
  rx_data_fifo, rx_fifo_inf, rx_status_fifo, rx_sts_packet_len,
}
use rp2350_zephyr_stepper.Lan9250.Bus.{spi_transceive_dt, read_sys_reg}
use rp2350_zephyr_stepper.Lan9250.Bus.Total.{IsKernel}
use rp2350_zephyr_stepper.Lan9250.Bus.Succeeds.{Succeeds}
use rp2350_zephyr_stepper.Lan9250.Timestamps.{rx_timestamp_check}
use rp2350_zephyr_stepper.Lan9250.Timestamps.Succeeds.{rx_timestamp_check-Succeeds}
use rp2350_zephyr_stepper.Lan9250.Rx.{
  max_frame_size, end_pad, rx_alloc, recv_data, sem_give, deliver, allocated, rx,
}
use rp2350_zephyr_stepper.Lan9250.Rx.Fifo.{Holds, receive-frame, read_pad-pad}
use rp2350_zephyr_stepper.Lan9250.Rx.Content.{IsReceiver, Content, rx_timestamp_check-Keeps}

-- The packet goes to the network stack, or back to the pool if that does not take it.
abbrev pub Handed : ℕ → List Event → Type 0
Handed pkt trace =
    (taken : Bool) × (before : List Event) × (trace
      ≡ (if taken then rx_done pkt else pkt_unref pkt) ∷ before)

module _ {E : Type 0} (hw : Hw E) (kernel : IsKernel hw) (pkt : ℕ)
    (fifo packet lengths : E → List ℕ) (n : ℕ)
    (chip : IsReceiver hw pkt fifo packet lengths n) where
  -- A function that succeeds and keeps what it may keep.
  both :
      {A : Type 0} (I : World E → Type 0) (m : Io E A) (w : World E)
      → Succeeds hw m
      → Keeps I m
      → I w
      → Yields (λ _ w'. I w') (m w)
  both {A} I m w t k b = ended (m w) (t w) (k.keeps w b)
    where
      ended :
          (r : Ret A × World E)
          → Yields (λ _ w'. hw.uptime w.env ≤ hw.uptime w'.env) r
          → I r.1
          → Yields (λ _ w'. I w') r
      ended _ (yields h) i = yields i

  checked :
      (f p : List ℕ) (w : World E)
      → (fifo w.env ≡ f) × (packet w.env ≡ p)
      → Holds fifo packet f p (rx_timestamp_check hw pkt n w)
  checked f p w b =
      both (Content hw pkt fifo packet lengths n chip f p) (rx_timestamp_check hw pkt n) w
        (rx_timestamp_check-Succeeds hw kernel pkt n)
        (rx_timestamp_check-Keeps hw pkt fifo packet lengths n chip f p pkt n) b

  module _ (room : 0 < hw.buf_data_size) (frame pad rest : List ℕ) (size : length frame ≡ n)
      (padded : length pad ≡ end_pad n) where
    deliver-Yields :
        (w : World E)
        → fifo w.env ≡ frame ++ (pad ++ rest)
        → Yields
            (λ _ w'.
              (fifo w'.env ≡ rest) × (packet w'.env ≡ packet w.env ++ frame) × Handed pkt w'.trace)
            (deliver hw pkt n w)
    unfolding deliver recv_data sem_give
    deliver-Yields w q =
        Yields.bind
          (receive-frame hw pkt fifo packet chip.port hw.buf_data_size room n frame (pad ++ rest) w
            size q)
          λ _ w1 h1.
            Yields.bind
              (read_pad-pad hw pkt fifo packet chip.port (end_pad n) pad rest
                (packet w.env ++ frame) w1 padded h1)
              λ _ w2 h2. Yields.bind (checked rest (packet w.env ++ frame) w2 h2) λ _ w3 h3.
                let k = chip.recv_keeps w3.env in
                yields (k.0 ∙ h3.0, k.1 ∙ h3.1, ((hw.recv_data pkt w3.env).0, w3.trace, refl))

    -- The register reads in front of the frame.
    read_inf :
        (more : List ℕ) (w : World E)
        → lengths w.env ≡ n ∷ more
        → Yields
            (λ v w'.
              ((bit_and v 0x00ff_0000 / 2 ^ 16 == 0) ≡ false)
              × (fifo w'.env ≡ fifo w.env)
              × (packet w'.env ≡ packet w.env)
              × (lengths w'.env ≡ n ∷ more))
            (read_sys_reg hw rx_fifo_inf w)
    unfolding read_sys_reg spi_transceive_dt
    read_inf more w l =
        let (bytes, e, some_left, same) = chip.counts n more w.env l in
        let k = chip.reads_keep rx_fifo_inf w.env (omega arith) (omega arith) in
        rw e (yields (some_left, k.0, k.1, same))

    read_status :
        (more : List ℕ) (w : World E)
        → lengths w.env ≡ n ∷ more
        → Yields
            (λ v w'.
              (bit_and v rx_sts_packet_len / 2 ^ 16 ≡ n)
              × (fifo w'.env ≡ fifo w.env)
              × (packet w'.env ≡ packet w.env))
            (read_sys_reg hw rx_status_fifo w)
    unfolding read_sys_reg spi_transceive_dt
    read_status more w l =
        let (bytes, e, len) = chip.measures n more w.env l in
        let k = chip.reads_keep rx_status_fifo w.env (omega arith) (omega arith) in
        rw e (yields (len, k.0, k.1))

    -- The start-of-packet offset, one word.
    read_offset :
        (offset behind : List ℕ) (w : World E)
        → length offset ≡ 4
        → fifo w.env ≡ offset ++ behind
        → Holds fifo packet behind (packet w.env) (read_sys_reg hw rx_data_fifo w)
    unfolding read_sys_reg spi_transceive_dt
    read_offset offset behind w len q = rw (chip.port.reads 4 w.env) (
        yields (
          chip.port.reads_fifo 4 w.env ∙ ap (drop 4) q ∙ drop-append 4 offset behind len,
          chip.port.reads_packet 4 w.env,
        ))

    warned :
        (w : World E) (long : Bool)
        → Yields (λ _ w'. w'.env ≡ w.env) ((if long then emit rx_error else pure tt) w)
    warned w true = yields refl
    warned w false = yields refl

    alloc :
        (w : World E)
        → Yields
            (λ o w'. (o ≡ some pkt) × (fifo w'.env ≡ fifo w.env) × (packet w'.env ≡ packet w.env))
            (rx_alloc hw n w)
    unfolding rx_alloc
    alloc w = let k = chip.alloc_keeps w.env in yields (chip.allocates w.env, k.0, k.1)

    received :
        (w w5 : World E)
        → fifo w5.env ≡ frame ++ (pad ++ rest)
        → packet w5.env ≡ packet w.env
        → Yields
            (λ _ w'.
              (fifo w'.env ≡ rest) × (packet w'.env ≡ packet w.env ++ frame) × Handed pkt w'.trace)
            (allocated hw n (some pkt) w5)
    unfolding allocated
    received w w5 q held =
        Yields.mono (deliver-Yields w5 q) λ _ w' h. (h.0, h.1 ∙ ap (λ l. l ++ frame) held, h.2)

    -- With a frame of n > 0 bytes at the head of the RX data FIFO, behind the offset word and
    -- before its padding and any further bytes, and n first among the lengths of the frames that
    -- wait in the chip, lan9250_rx succeeds, puts exactly the frame's bytes, in order, behind what
    -- the packet holds, leaves exactly the further bytes in the FIFO, and hands the packet to the
    -- network stack or gives it back to the pool as its last event, for every transfer size above
    -- 0, on a chip and a packet pool with the laws of IsReceiver and a kernel with those of
    -- IsKernel.
    pub rx-Yields :
        (offset more : List ℕ) (w : World E)
        → 0 < n
        → length offset ≡ 4
        → lengths w.env ≡ n ∷ more
        → fifo w.env ≡ offset ++ (frame ++ (pad ++ rest))
        → Yields
            (λ _ w'.
              (fifo w'.env ≡ rest) × (packet w'.env ≡ packet w.env ++ frame) × Handed pkt w'.trace)
            (rx hw w)
    unfolding rx
    rx-Yields offset more w positive len l q = Yields.bind (read_inf more w l) λ inf w1 h1.
        Yields.bind (read_status more w1 h1.3) λ sts w2 h2.
          let some_bytes : (n == 0) ≡ false = ground arith in
          let at_offset : fifo w2.env ≡ offset ++ (frame ++ (pad ++ rest)) = h2.1 ∙ h1.1 ∙ q in
          let held : packet w2.env ≡ packet w.env = h2.2 ∙ h1.2 in
          rw (h1.0, h2.0, some_bytes)
            (Yields.bind (read_offset offset (frame ++ (pad ++ rest)) w2 len at_offset) λ _ w3 h3.
              Yields.bind (warned w3 (ltb max_frame_size n)) λ _ w4 h4.
                Yields.bind (alloc w4) λ o w5 h5.
                  rw (h5.0) (received w w5 (h5.1 ∙ rw h4 (h3.0)) (h5.2 ∙ rw h4 (h3.1 ∙ held))))
