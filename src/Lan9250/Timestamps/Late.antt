-- ===== src/Lan9250/Timestamps/Late.antt =====
-- An event that is captured after its packet was looked at reaches the packet.
use rp2350_zephyr_stepper.Prelude.{
  ℕ, ◌+◌, ◌<◌, ◌≡◌, ◌∙◌, true, false, not, ◌&&◌, Option, some, List, [], ◌∷◌, arith, refl, ap,
  length, if◌then◌else◌,
}
use rp2350_zephyr_stepper.Lan9250.World.{log, lock_bank, World, Hw, ok, Pending, pure, attempt}
use rp2350_zephyr_stepper.Lan9250.Yields.{Yields, yields}
use rp2350_zephyr_stepper.Lan9250.Yields
use rp2350_zephyr_stepper.Lan9250.Keeps.{keeps_rules}
use rp2350_zephyr_stepper.Lan9250.Bus.{uptime_get, write_sys_reg}
use rp2350_zephyr_stepper.Lan9250.Bus.Total.{IsKernel, write_sys_reg-IsTotal}
use rp2350_zephyr_stepper.Lan9250.Bus.Succeeds.{success_rules, attempt-Succeeds}
use rp2350_zephyr_stepper.Lan9250.Slots.{kept}
use rp2350_zephyr_stepper.Lan9250.Slots.Lookup.{
  Absent, find-OnlyAt, kept-Absent, kept-OnlyAt, get_or-kept_alive,
}
use rp2350_zephyr_stepper.Lan9250.Timestamps.{
  Capture, same_event, pending_is, unclaimed_is, pending_deadline, unclaimed_deadline, expire_ctx,
  other_packet, match_other, match_capture, take_capture, enqueue, correlate, rx_timestamp_check,
  msg_type_is_timestamped, rx_pending_timeout_ms,
}
use rp2350_zephyr_stepper.Lan9250.Timestamps.Stamps.{stamps, enqueue-Keeps}
use rp2350_zephyr_stepper.Lan9250.Timestamps.Succeeds.{enqueue-Succeeds}
use rp2350_zephyr_stepper.Lan9250.Timestamps.Chip.{
  RxCaptures, IsFirst, IsCaptureChip, counted, event_at-first, event_at-none,
}
use rp2350_zephyr_stepper.Lan9250.Timestamps.Sweep.{
  event_after, Same, acknowledge-Same, Keeps-Yields, IsPtpFrame, check-Yields, Yields-end,
}
use rp2350_zephyr_stepper.Lan9250.Timestamps.Waiting.{
  IsWaiting, correlate-Yields, correlate-Waits, attach-Yields,
}

module _ {E : Type 0} (hw : Hw E) (kernel : IsKernel hw) (pkt : ℕ) (k : Capture) where
  match_capture-Delivers :
      (q t' s' until : ℕ) (w : World E)
      → same_event k.msg_type k.seq_id t' s' ≡ false
      → IsWaiting pkt k.msg_type k.seq_id until w.ctx.rx_pending
      → Yields
          (λ _ w'. stamps w'.trace ≡ (pkt, k.sec, k.ns) ∷ stamps w.trace)
          (match_capture hw q t' s' k w)
  unfolding match_capture match_other uptime_get other_packet
  match_capture-Delivers q t' s' until w other i =
      let found =
        find-OnlyAt (pending_is k.msg_type k.seq_id) w.ctx.rx_pending i.slot i.entry i.there i.wants
          i.only in
      rw (other, found) (yields (ap (λ p. (p, k.sec, k.ns) ∷ stamps w.trace) i.holds))

  take_capture-Delivers :
      (q t' s' until : ℕ) (w : World E)
      → same_event k.msg_type k.seq_id t' s' ≡ false
      → IsWaiting pkt k.msg_type k.seq_id until w.ctx.rx_pending
      → Yields
          (λ _ w'. stamps w'.trace ≡ (pkt, k.sec, k.ns) ∷ stamps w.trace)
          (take_capture hw q t' s' (some k) w)
  unfolding take_capture
  take_capture-Delivers q t' s' until w other i =
      Yields.bind
        (Keeps-Yields hw (Same hw (stamps w.trace) w.ctx) (attempt (write_sys_reg hw _ _)) w
          (attempt-Succeeds hw _ (write_sys_reg-IsTotal hw kernel _ _))
          (acknowledge-Same hw (stamps w.trace) w.ctx _ _) (refl, refl))
        λ _ w1 h.
          Yields.mono
            (match_capture-Delivers q t' s' until w1 other (rw (ap (λ c. c.rx_pending) h.0.1) i))
            λ _ w2 e. e ∙ ap (λ l. (pkt, k.sec, k.ns) ∷ l) h.0.0

  -- A sweep leaves what waits and is not due.
  kept-IsWaiting :
      (until now : ℕ) (slots : List (Option Pending))
      → now < until
      → IsWaiting pkt k.msg_type k.seq_id until slots
      → IsWaiting pkt k.msg_type k.seq_id until (kept pending_deadline now slots)
  kept-IsWaiting until now slots early i = record {
    slot = i.slot;
    entry = i.entry;
    there =
        get_or-kept_alive pending_deadline now slots i.slot i.entry i.there
          (omega (arith, i.lasts));
    only = kept-OnlyAt (pending_is k.msg_type k.seq_id) pending_deadline now slots i.slot i.only;
    holds = i.holds;
    wants = i.wants;
    lasts = i.lasts;
  }

  correlate-Delivers :
      (q t' s' until : ℕ) (w : World E)
      → hw.uptime w.env < until
      → same_event k.msg_type k.seq_id t' s' ≡ false
      → Absent (unclaimed_is t' s') w.ctx.rx_unclaimed
      → IsWaiting pkt k.msg_type k.seq_id until w.ctx.rx_pending
      → event_after hw w ≡ ok (some k)
      → Yields
          (λ _ w'. stamps w'.trace ≡ (pkt, k.sec, k.ns) ∷ stamps w.trace)
          (correlate hw q t' s' w)
  unfolding expire_ctx
  correlate-Delivers q t' s' until w early other unclaimed i e =
      correlate-Yields hw q t' s' w λ w1 h same_env same_event.
        let now = hw.uptime w.env in
        let absent1 : Absent (unclaimed_is t' s') w1.ctx.rx_unclaimed =
          rw (ap (λ c. c.rx_unclaimed) h.1) (
            kept-Absent (unclaimed_is t' s') unclaimed_deadline now w.ctx.rx_unclaimed unclaimed) in
        let Stamped : World E → Type 0 =
          λ w'. stamps w'.trace ≡ (pkt, k.sec, k.ns) ∷ stamps w.trace in
        Yields.bind {P = λ _ w'. Stamped w'}
          (attach-Yields hw q t' s' kernel (some k) w1 absent1 (same_event ∙ e) λ w2 l _.
            Yields.mono
              (take_capture-Delivers q t' s' until w2 other (
                rw (ap (λ c. c.rx_pending) (l.1 ∙ h.1))
                  (kept-IsWaiting until now w.ctx.rx_pending early i)))
              λ _ w3 f. f ∙ ap (λ l. (pkt, k.sec, k.ns) ∷ l) (l.0 ∙ h.0))
          λ b w3 f.
            Yields.mono
              (Keeps-Yields hw Stamped
                (if not b && msg_type_is_timestamped t' then enqueue hw q t' s' else pure tt) w3
                (search (success_rules, enqueue-Succeeds hw))
                (search
                  (keeps_rules, enqueue-Keeps (λ l. l ≡ (pkt, k.sec, k.ns) ∷ stamps w.trace) hw))
                f)
              λ _ w4 g. g.0

module _ {E : Type 0} (hw : Hw E) (view : E → RxCaptures) (chip : IsCaptureChip hw view)
    (kernel : IsKernel hw) (pkt : ℕ) (k : Capture) where
  -- On a chip with the capture registers of IsCaptureChip, a frame of a timestamped PTP type that
  -- is looked at before the chip has captured its event gets its timestamp afterwards: when the
  -- chip had captured no event as it was asked for their number, and within 2000 ms its first
  -- captured event is the one of that frame as another frame is looked at,
  -- lan9250_1588_rx_timestamp_check succeeds and gives the time of the event to the packet of the
  -- first frame, and gives no other timestamp. The kernel has the laws of IsKernel, rx_pending has
  -- a slot and is the same in between, at first nothing with the first frame's type and sequence
  -- number was waiting in either array, and then no event for the other frame, whose type or
  -- number is a different one, was kept.
  pub rx_timestamp_check-late :
      (len q len' t' s' : ℕ) (w1 w2 : World E)
      → IsPtpFrame hw w1 pkt len k.msg_type k.seq_id
      → msg_type_is_timestamped k.msg_type ≡ true
      → Absent (pending_is k.msg_type k.seq_id) w1.ctx.rx_pending
      → Absent (unclaimed_is k.msg_type k.seq_id) w1.ctx.rx_unclaimed
      → 0 < length w1.ctx.rx_pending
      → (counted hw view w1.env).events ≡ []
      → w2.ctx.rx_pending ≡ (rx_timestamp_check hw pkt len w1).1.ctx.rx_pending
      → hw.uptime w2.env < hw.uptime w1.env + rx_pending_timeout_ms
      → IsPtpFrame hw w2 q len' t' s'
      → same_event k.msg_type k.seq_id t' s' ≡ false
      → Absent (unclaimed_is t' s') w2.ctx.rx_unclaimed
      → IsFirst k (view w2.env)
      → Yields
          (λ _ w'. stamps w'.trace ≡ (pkt, k.sec, k.ns) ∷ stamps w2.trace)
          (rx_timestamp_check hw q len' w2)
  rx_timestamp_check-late len q len' t' s' w1 w2 f1 timed absent stash room none_yet kept early f2
        other stash2 first =
      let until = hw.uptime w1.env + rx_pending_timeout_ms in
      let waits =
        Yields-end
          (λ w'.
            (stamps w'.trace ≡ stamps w1.trace)
            × IsWaiting pkt k.msg_type k.seq_id until w'.ctx.rx_pending)
          (rx_timestamp_check hw pkt len w1)
          (check-Yields hw pkt len k.msg_type k.seq_id w1 f1 (λ w' h. h)
            (correlate-Waits hw pkt k.msg_type k.seq_id kernel (log lock_bank w1) timed stash absent
              room (event_at-none hw view chip w1 none_yet))) in
      check-Yields hw q len' t' s' w2 f2 (λ w' h. h)
        (correlate-Delivers hw kernel pkt k q t' s' until (log lock_bank w2) early other stash2
          (rw kept waits.1) (event_at-first hw view chip k w2 first))
