-- ===== src/Lan9250/Timestamps/Chip.antt =====
-- The RX capture registers as the chip keeps them: a bank select, the number of captured events, and
-- the registers of the first of them, and what the driver's poll makes of them.
use rp2350_zephyr_stepper.Prelude.{
  ℕ, ◌/◌, ◌^◌, ◌<◌, ◌≡◌, ◌∙◌, Bool, true, false, none, some, List, [], ◌∷◌, arith, refl, ap,
  bit_and, ◌==◌,
}
use rp2350_zephyr_stepper.Lan9250.World.{log, lock_bank, World, Hw, Ret, ok, err, eio, hang, caught}
use rp2350_zephyr_stepper.Lan9250.Yields.{Yields, yields}
use rp2350_zephyr_stepper.Lan9250.Yields
use rp2350_zephyr_stepper.Lan9250.Bus.{
  put_le32, get_le32, spi_write_dt, spi_transceive_dt, write_sys_reg, read_sys_reg,
}
use rp2350_zephyr_stepper.Lan9250.Bus.Frames.{write_frame, read_frame, get_le32-put_le32}
use rp2350_zephyr_stepper.Lan9250.Clock.{bank_select}
use rp2350_zephyr_stepper.Lan9250.Timestamps.{
  Capture, rx_pending_expire, read_capture, poll_rx_capture,
}
use rp2350_zephyr_stepper.Lan9250.Timestamps.Sweep.{event_at, expire-Yields, Yields-end}

-- The selected bank, and the received events that the chip has captured, the oldest first.
pub record RxCaptures : Type 0 where
  pub bank : ℕ
  pub events : List Capture

abbrev pub is_empty : List Capture → Bool
is_empty [] = true
is_empty (_ ∷ _) = false

-- The chip has captured `k`, and no event before it is left.
abbrev pub IsFirst : Capture → RxCaptures → Type 0
IsFirst k u = (rest : List Capture) × (u.events ≡ k ∷ rest)

-- A chip whose SPI port works, by the addresses and fields of its registers: 0x154 selects the
-- bank; in bank 0, bits 2:0 of 0x160 count the captured events; in bank 1, 0x174 holds the type
-- (bits 19:16) and the sequence number (bits 15:0) of the first event, 0x16C its seconds and 0x170
-- its nanoseconds. The other banks have other registers at these addresses, of which nothing is
-- said. An access leaves the first event in place, and others may be captured behind it meanwhile.
pub record IsCaptureChip {E : Type 0} (hw : Hw E) (view : E → RxCaptures) : Type 0 where
  pub select_ok : (bank : ℕ) (e : E) → (hw.spi_write (write_frame 0x0154 bank) e).0 ≡ ok tt
  pub select_bank :
      (bank : ℕ) (e : E)
      → bank < 4
      → (view (hw.spi_write (write_frame 0x0154 bank) e).1).bank ≡ bank
  pub select_first :
      (bank : ℕ) (k : Capture) (e : E)
      → IsFirst k (view e)
      → IsFirst k (view (hw.spi_write (write_frame 0x0154 bank) e).1)
  pub read_bank : (a : ℕ) (e : E) → (view (hw.spi_read (read_frame a) 4 e).1).bank ≡ (view e).bank
  pub read_first :
      (a : ℕ) (k : Capture) (e : E)
      → IsFirst k (view e)
      → IsFirst k (view (hw.spi_read (read_frame a) 4 e).1)
  pub cap_info :
      (e : E)
      → (view e).bank ≡ 0
      → (v : ℕ) × ((hw.spi_read (read_frame 0x0160) 4 e).0 ≡ ok (put_le32 v))
        × (v < 2 ^ 32)
        × ((bit_and v 0x07 == 0) ≡ is_empty (view e).events)
  pub msg_header :
      (k : Capture) (e : E)
      → (view e).bank ≡ 1
      → IsFirst k (view e)
      → (v : ℕ) × ((hw.spi_read (read_frame 0x0174) 4 e).0 ≡ ok (put_le32 v))
        × (v < 2 ^ 32)
        × (bit_and v 0x000f_0000 / 2 ^ 16 ≡ k.msg_type)
        × (bit_and v 0x0000_ffff ≡ k.seq_id)
  pub ingress_sec :
      (k : Capture) (e : E)
      → (view e).bank ≡ 1
      → IsFirst k (view e)
      → ((hw.spi_read (read_frame 0x016c) 4 e).0 ≡ ok (put_le32 k.sec)) × (k.sec < 2 ^ 32)
  pub ingress_ns :
      (k : Capture) (e : E)
      → (view e).bank ≡ 1
      → IsFirst k (view e)
      → ((hw.spi_read (read_frame 0x0170) 4 e).0 ≡ ok (put_le32 k.ns)) × (k.ns < 2 ^ 32)

-- The chip at the moment at which the count of the captured events is read.
abbrev pub counted : {E : Type 0} → Hw E → (E → RxCaptures) → E → RxCaptures
counted hw view e = view (hw.spi_write (write_frame 0x0154 0) e).1

module _ {E : Type 0} (hw : Hw E) (view : E → RxCaptures) (chip : IsCaptureChip hw view) where
  -- The driver has selected a bank, and the first event is `k`.
  abbrev Shows : ℕ → Capture → World E → Type 0
  Shows bank k w = ((view w.env).bank ≡ bank) × IsFirst k (view w.env)

  select-Shows :
      (bank : ℕ) (k : Capture) (w : World E)
      → bank < 4
      → IsFirst k (view w.env)
      → Yields (λ _ w'. Shows bank k w') (bank_select hw bank w)
  unfolding bank_select write_sys_reg spi_write_dt
  select-Shows bank k w h f =
      rw (chip.select_ok bank w.env)
        (yields (chip.select_bank bank w.env h, chip.select_first bank k w.env f))

  -- A read of a register that holds `v`.
  read-Shows :
      (a v bank : ℕ) (k : Capture) (w : World E)
      → (hw.spi_read (read_frame a) 4 w.env).0 ≡ ok (put_le32 v)
      → v < 2 ^ 32
      → Shows bank k w
      → Yields (λ x w'. (x ≡ v) × Shows bank k w') (read_sys_reg hw a w)
  unfolding read_sys_reg spi_transceive_dt
  read-Shows a v bank k w e h s = rw e (
      yields (get_le32-put_le32 v h, (chip.read_bank a w.env ∙ s.0, chip.read_first a k w.env s.1)))

  -- The poll gives the first event that the chip has captured.
  poll_rx_capture-first :
      (k : Capture) (w : World E)
      → IsFirst k (view w.env)
      → Yields (λ c _. c ≡ k) (poll_rx_capture hw w)
  unfolding poll_rx_capture read_capture
  poll_rx_capture-first k w f = Yields.bind (select-Shows 0 k w (omega arith) f) λ _ w1 s1.
      let (v, e, h, count) = chip.cap_info w1.env s1.0 in
      Yields.bind (read-Shows 0x0160 v 0 k w1 e h s1) λ x w2 s2.
        let some_left : (bit_and x 0x07 == 0) ≡ false =
          ap (λ y. bit_and y 0x07 == 0) s2.0 ∙ count ∙ ap is_empty s1.1.1 in
        rw some_left (
          Yields.bind (select-Shows 1 k w2 (omega arith) s2.1.1) λ _ w3 s3.
            let (u, d, l, t, s) = chip.msg_header k w3.env s3.0 s3.1 in
            Yields.bind (read-Shows 0x0174 u 1 k w3 d l s3) λ y w4 s4.
              let seconds = chip.ingress_sec k w4.env s4.1.0 s4.1.1 in
              Yields.bind (read-Shows 0x016c k.sec 1 k w4 seconds.0 seconds.1 s4.1) λ a w5 s5.
                let nanos = chip.ingress_ns k w5.env s5.1.0 s5.1.1 in
                Yields.bind (read-Shows 0x0170 k.ns 1 k w5 nanos.0 nanos.1 s5.1)
                  λ b w6 s6. yields (rw (s4.0, s5.0, s6.0, t, s) refl))

  -- The event that is read when a frame's packet is looked at is the first one of the chip.
  pub event_at-first :
      (k : Capture) (w : World E) → IsFirst k (view w.env) → event_at hw w ≡ ok (some k)
  event_at-first k w f =
      let swept = Yields-end _ _ (expire-Yields (hw.uptime w.env) (log lock_bank w)) in
      let w1 = (rx_pending_expire (hw.uptime w.env) (log lock_bank w)).1 in
      polled (poll_rx_capture hw w1) (poll_rx_capture-first k w1 (rw (swept.2) f))
    where
      polled : (r : Ret Capture × World E) → Yields (λ c _. c ≡ k) r → (caught r).0 ≡ ok (some k)
      polled (_, _) (yields e) = ap (λ x. ok (some x)) e

  poll_rx_capture-none :
      (w : World E) → (counted hw view w.env).events ≡ [] → (poll_rx_capture hw w).0 ≡ err eio
  unfolding poll_rx_capture bank_select write_sys_reg spi_write_dt read_sys_reg spi_transceive_dt
  poll_rx_capture-none w f =
      let e = (hw.spi_write (write_frame 0x0154 0) w.env).1 in
      let (v, answer, h, count) = chip.cap_info e (chip.select_bank 0 w.env (omega arith)) in
      let none_left : (bit_and (get_le32 (put_le32 v)) 0x07 == 0) ≡ true =
        rw (get_le32-put_le32 v h) (count ∙ ap is_empty f) in
      rw (chip.select_ok 0 w.env, answer, none_left) refl

  -- While the chip has captured nothing, nothing is read.
  pub event_at-none : (w : World E) → (counted hw view w.env).events ≡ [] → event_at hw w ≡ ok none
  event_at-none w f =
      let swept = Yields-end _ _ (expire-Yields (hw.uptime w.env) (log lock_bank w)) in
      let w1 = (rx_pending_expire (hw.uptime w.env) (log lock_bank w)).1 in
      polled (poll_rx_capture hw w1)
        (poll_rx_capture-none w1 (ap (λ e. (counted hw view e).events) (swept.2) ∙ f))
    where
      polled : (r : Ret Capture × World E) → r.0 ≡ err eio → (caught r).0 ≡ ok none
      polled (ok c, _) e = cc
      polled (err c, _) e = refl
      polled (hang, _) e = cc
