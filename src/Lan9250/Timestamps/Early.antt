-- ===== src/Lan9250/Timestamps/Early.antt =====
-- An event that is captured before its packet was looked at is kept for the packet.
use rp2350_zephyr_stepper.Prelude.{ℕ, ◌+◌, ◌<◌, ◌≡◌, false, ◌∷◌, refl, ap, length}
use rp2350_zephyr_stepper.Lan9250.World.{log, lock_bank, World, Hw}
use rp2350_zephyr_stepper.Lan9250.Yields.{Yields, yields}
use rp2350_zephyr_stepper.Lan9250.Bus.Total.{IsKernel}
use rp2350_zephyr_stepper.Lan9250.Slots.{kept}
use rp2350_zephyr_stepper.Lan9250.Slots.Lookup.{Absent, find-OnlyAt}
use rp2350_zephyr_stepper.Lan9250.Timestamps.{
  Capture, same_event, pending_is, unclaimed_is, expire_ctx, stash, take_unclaimed, attach,
  correlate, rx_timestamp_check, rx_pending_timeout_ms,
}
use rp2350_zephyr_stepper.Lan9250.Timestamps.Stamps.{stamps}
use rp2350_zephyr_stepper.Lan9250.Timestamps.Chip.{
  RxCaptures, IsFirst, IsCaptureChip, event_at-first,
}
use rp2350_zephyr_stepper.Lan9250.Timestamps.Sweep.{IsPtpFrame, check-Yields, Yields-end}
use rp2350_zephyr_stepper.Lan9250.Timestamps.Waiting.{correlate-Yields}
use rp2350_zephyr_stepper.Lan9250.Timestamps.Stashed.{
  IsStashed, kept-IsStashed, Stashed, correlate-Stashed,
}

module _ {E : Type 0} (hw : Hw E) (k : Capture) (kernel : IsKernel hw) where
  correlate-Claims :
      (pkt until : ℕ) (w : World E)
      → hw.uptime w.env < until
      → IsStashed k until w.ctx.rx_unclaimed
      → Yields
          (λ _ w'. stamps w'.trace ≡ (pkt, k.sec, k.ns) ∷ stamps w.trace)
          (correlate hw pkt k.msg_type k.seq_id w)
  unfolding expire_ctx attach take_unclaimed
  correlate-Claims pkt until w early stash =
      correlate-Yields hw pkt k.msg_type k.seq_id w λ w1 h _ _.
        let now = hw.uptime w.env in
        let i : IsStashed k until w1.ctx.rx_unclaimed =
          rw (ap (λ c. c.rx_unclaimed) h.1)
            (kept-IsStashed k until now w.ctx.rx_unclaimed early stash) in
        let found =
          find-OnlyAt (unclaimed_is k.msg_type k.seq_id) w1.ctx.rx_unclaimed i.slot i.entry i.there
            i.fits i.only in
        rw found (yields (rw (i.holds.0, i.holds.1, h.0) refl))

module _ {E : Type 0} (hw : Hw E) (view : E → RxCaptures) (chip : IsCaptureChip hw view)
    (k : Capture) (kernel : IsKernel hw) where
  -- On a chip with the capture registers of IsCaptureChip, an event that the chip has captured
  -- first before its frame is looked at waits for it: when another frame is looked at first, and
  -- the frame of the event within 2000 ms, lan9250_1588_rx_timestamp_check succeeds for the latter
  -- and gives its packet the time of the event, and no other timestamp. The kernel has the laws of
  -- IsKernel, rx_unclaimed has a slot and is the same in between, and at first nothing with the
  -- type and sequence number of the event was waiting in either array and no event for the other
  -- frame, whose type or number is a different one, was kept.
  pub rx_timestamp_check-early :
      (q len' t' s' pkt len : ℕ) (w1 w2 : World E)
      → IsPtpFrame hw w1 q len' t' s'
      → same_event k.msg_type k.seq_id t' s' ≡ false
      → Absent (pending_is k.msg_type k.seq_id) w1.ctx.rx_pending
      → Absent (unclaimed_is k.msg_type k.seq_id) w1.ctx.rx_unclaimed
      → Absent (unclaimed_is t' s') w1.ctx.rx_unclaimed
      → 0 < length w1.ctx.rx_unclaimed
      → IsFirst k (view w1.env)
      → w2.ctx.rx_unclaimed ≡ (rx_timestamp_check hw q len' w1).1.ctx.rx_unclaimed
      → hw.uptime w2.env < hw.uptime w1.env + rx_pending_timeout_ms
      → IsPtpFrame hw w2 pkt len k.msg_type k.seq_id
      → Yields
          (λ _ w'. stamps w'.trace ≡ (pkt, k.sec, k.ns) ∷ stamps w2.trace)
          (rx_timestamp_check hw pkt len w2)
  rx_timestamp_check-early q len' t' s' pkt len w1 w2 f1 other absent unclaimed not_own room first
        kept early f2 =
      let until = hw.uptime w1.env + rx_pending_timeout_ms in
      let stashed =
        Yields-end (Stashed hw k (stamps w1.trace) until) (rx_timestamp_check hw q len' w1) (
          check-Yields hw q len' t' s' w1 f1 (λ w' h. h)
            (correlate-Stashed hw k kernel q t' s' (log lock_bank w1) other absent unclaimed not_own
              room (event_at-first hw view chip k w1 first))) in
      check-Yields hw pkt len k.msg_type k.seq_id w2 f2 (λ w' h. h)
        (correlate-Claims hw k kernel pkt until (log lock_bank w2) early (rw kept stashed.1))
