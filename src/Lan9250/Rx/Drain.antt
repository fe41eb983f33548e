-- ===== src/Lan9250/Rx/Drain.antt =====
-- A received frame leaves the RX data FIFO completely, whether it is delivered or dropped.
use rp2350_zephyr_stepper.Prelude.{
  ℕ, zero, suc, ◌+◌, ◌-◌, ◌*◌, ◌%◌, ◌<◌, ◌≡◌, some, List, [], ◌∷◌, arith, refl, min, ◌==◌,
  if◌then◌else◌, Bool-cases, inl, inr,
}
use rp2350_zephyr_stepper.Lan9250.World.{
  World, Hw, Io, Ret, ok, Event, lock_bank, locked, unlocked, spi_in, pkt_unref, rx_error, log,
  caught, ◌>>◌, Pending,
}
use rp2350_zephyr_stepper.Lan9250.Yields.{Yields, yields}
use rp2350_zephyr_stepper.Lan9250.Yields
use rp2350_zephyr_stepper.Lan9250.Regs.{rx_data_fifo}
use rp2350_zephyr_stepper.Lan9250.Bus.{spi_transceive_dt, uptime_get}
use rp2350_zephyr_stepper.Lan9250.Timestamps.{unref_all, rx_pending_expire, pending_deadline}
use rp2350_zephyr_stepper.Lan9250.Slots.{expired}
use rp2350_zephyr_stepper.Lan9250.Rx.{
  align, end_pad, read_buf, discard, pkt_append, receive, read_pad, drop_frame,
}

-- The length that the transmitter aligns to is the length with the receiver's padding, a multiple
-- of 4, and less than 4 bytes above the frame's.
pub align-end_pad : (n : ℕ) → (align n ≡ n + end_pad n) × (align n % 4 ≡ 0) × (align n < n + 4)
unfolding align end_pad
align-end_pad n = (omega arith, omega arith, omega arith)

-- The bytes that a transfer takes out of the RX data FIFO.
abbrev pub taken : Event → ℕ
taken (spi_in (i ∷ hi ∷ lo ∷ []) n) = if hi * 256 + lo == rx_data_fifo then n else 0
taken _ = 0

abbrev pub drained : List Event → ℕ
drained [] = 0
drained (e ∷ es) = taken e + drained es

-- An SPI controller whose reads succeed.
pub record IsReader {E : Type 0} (hw : Hw E) : Type 0 where
  pub reads :
      (bytes : List ℕ) (n : ℕ) (e : E) → (got : List ℕ) × ((hw.spi_read bytes n e).0 ≡ ok got)

-- The run succeeds and takes `n` bytes.
abbrev pub Drains : {E A : Type 0} → ℕ → World E → Ret A × World E → Type 0
Drains n w = Yields (λ _ w'. drained w'.trace ≡ n + drained w.trace)

module _ {E : Type 0} (hw : Hw E) (reader : IsReader hw) where
  read_buf-Drains : (n : ℕ) (w : World E) → Drains n w (read_buf hw n w)
  unfolding read_buf spi_transceive_dt
  read_buf-Drains n w = let (got, e) = reader.reads (3 ∷ 0 ∷ 0 ∷ []) n w.env in rw e (yields refl)

  attempt-Drains :
      {A : Type 0} (n : ℕ) (w : World E) (r : Ret A × World E)
      → Drains n w r
      → Yields
          (λ o w'. (a : A) × ((o ≡ some a) × (drained w'.trace ≡ n + drained w.trace)))
          (caught r)
  attempt-Drains n w r (yields h) = yields (_, (refl, h))

  read_pad-Drains : (n : ℕ) (w : World E) → Drains n w (read_pad hw n w)
  unfolding read_pad
  read_pad-Drains n w = elim (Bool-cases (n == 0)) [
    | inl nil ↦ rw nil (yields (ground arith))
    | inr more ↦ rw more (Yields.bind (read_buf-Drains n w) λ _ w1 h. yields h)
  ]

  module _ (size : ℕ) (room : 0 < size) where
    discard-Drains : (fuel n : ℕ) (w : World E) → n < fuel → Drains n w (discard hw fuel size n w)
    unfolding discard
    discard-Drains zero n w h = absurd (omega arith)
    discard-Drains (suc fuel) n w h = elim (Bool-cases (n == 0)) [
      | inl nil ↦ rw nil (yields (ground arith))
      | inr more ↦ rw more (
          Yields.bind (attempt-Drains (min n size) w _ (read_buf-Drains (min n size) w)) λ o w1 k.
            rw (k.1.0) (
              Yields.mono (discard-Drains fuel (n - min n size) w1 (ground arith))
                λ _ w2 d. ground (arith, k.1.1, d)))
    ]

    receive-Drains :
        (fuel pkt n : ℕ) (w : World E) → n < fuel → Drains n w (receive hw fuel size pkt n w)
    unfolding receive pkt_append
    receive-Drains zero pkt n w h = absurd (omega arith)
    receive-Drains (suc fuel) pkt n w h = Yields.bind (read_buf-Drains (min n size) w) λ bytes w1 k.
        elim (Bool-cases (n - min n size == 0)) [
          | inl last ↦ rw last (yields (ground arith))
          | inr more ↦ rw more (
              Yields.mono
                (receive-Drains fuel pkt (n - min n size)
                  (record w1 { env = hw.pkt_append pkt bytes w1.env }) (ground arith))
                λ _ w2 d. ground (arith, k, d))
        ]

    -- On an SPI port whose reads succeed and for a transfer size above 0, the loop that reads a
    -- frame of n bytes into a packet and the read of the padding succeed, and take exactly the n
    -- bytes and the padding off the RX data FIFO.
    pub receive-read_pad-Drains :
        (pkt n : ℕ) (w : World E)
        → Drains (n + end_pad n) w ((receive hw (n + 1) size pkt n >> read_pad hw (end_pad n)) w)
    receive-read_pad-Drains pkt n w =
        Yields.bind (receive-Drains (n + 1) pkt n w (omega arith))
          λ _ w1 h. Yields.mono (read_pad-Drains (end_pad n) w1) λ _ w2 k. omega (arith, h, k)

  unref_all-Drains : (ps : List Pending) (w : World E) → Drains 0 w (unref_all ps w)
  unfolding unref_all
  unref_all-Drains [] w = yields (omega arith)
  unref_all-Drains (p ∷ ps) w =
      Yields.mono (unref_all-Drains ps (log (pkt_unref p.pkt) w)) λ _ w' h. omega (arith, h)

  expire-Drains : (now : ℕ) (w : World E) → Drains 0 w (rx_pending_expire now w)
  unfolding rx_pending_expire
  expire-Drains now w =
      Yields.bind (unref_all-Drains (expired pending_deadline now w.ctx.rx_pending) w)
        λ _ w1 h. yields h

  locked-Drains :
      (n : ℕ) (w : World E) (m : Io E (Unit {0}))
      → Drains n (log lock_bank w) (m (log lock_bank w))
      → Drains n w (locked m w)
  locked-Drains n w m d = released (m (log lock_bank w)) d
    where
      released :
          (r : Ret (Unit {0}) × World E) → Drains n (log lock_bank w) r → Drains n w (unlocked r)
      released (_, w1) (yields h) = yields (omega (arith, h))

  -- On an SPI port whose reads succeed and for a transfer size above 0, a frame of n bytes for
  -- which no packet could be had is dropped with success, and exactly its n bytes and its padding
  -- are taken off the RX data FIFO.
  pub drop_frame-Drains :
      (n : ℕ) (w : World E) → 0 < hw.buf_data_size → Drains (n + end_pad n) w (drop_frame hw n w)
  unfolding drop_frame uptime_get
  drop_frame-Drains n w room =
      Yields.bind
        (locked-Drains 0 (log rx_error w) (rx_pending_expire (hw.uptime w.env))
          (expire-Drains (hw.uptime w.env) (log lock_bank (log rx_error w))))
        λ _ w1 h1.
          Yields.bind (discard-Drains hw.buf_data_size room (n + 1) n w1 (omega arith)) λ _ w2 h2.
            Yields.bind (attempt-Drains (end_pad n) w2 _ (read_pad-Drains (end_pad n) w2))
              λ _ w3 h3. yields (omega (arith, h1, h2, h3.1.1))
