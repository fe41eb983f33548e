-- ===== src/Lan9250/Timestamps/Stashed.antt =====
-- An event that is nobody's is kept in `rx_unclaimed`.
use rp2350_zephyr_stepper.Prelude.{
  ℕ, ◌+◌, ◌<◌, ◌≤◌, ◌≡◌, ◌∙◌, true, false, not, ◌&&◌, Bool, Option, none, some, List, arith, refl,
  ap, length, get_or, get_or-set_self, if◌then◌else◌,
}
use rp2350_zephyr_stepper.Lan9250.World.{World, Hw, ok, Unclaimed, pure, attempt}
use rp2350_zephyr_stepper.Lan9250.Yields.{Yields, yields}
use rp2350_zephyr_stepper.Lan9250.Yields
use rp2350_zephyr_stepper.Lan9250.Bus.{uptime_get, write_sys_reg}
use rp2350_zephyr_stepper.Lan9250.Bus.Total.{IsKernel, write_sys_reg-IsTotal}
use rp2350_zephyr_stepper.Lan9250.Bus.Succeeds.{attempt-Succeeds}
use rp2350_zephyr_stepper.Lan9250.Slots.{kept, target}
use rp2350_zephyr_stepper.Lan9250.Slots.Target.{target-bound, length-kept}
use rp2350_zephyr_stepper.Lan9250.Slots.Lookup.{
  Absent, OnlyAt, find-Absent, set-OnlyAt, kept-Absent, kept-OnlyAt, get_or-kept_alive,
}
use rp2350_zephyr_stepper.Lan9250.Timestamps.{
  Capture, same_event, pending_is, unclaimed_is, pending_deadline, unclaimed_deadline, expire_ctx,
  stash, other_packet, match_other, match_capture, take_capture, queued, enqueue, correlate,
  msg_type_is_timestamped, rx_pending_timeout_ms,
}
use rp2350_zephyr_stepper.Lan9250.Timestamps.Stamps.{stamps}
use rp2350_zephyr_stepper.Lan9250.Timestamps.Sweep.{
  event_after, Same, acknowledge-Same, Keeps-Yields,
}
use rp2350_zephyr_stepper.Lan9250.Timestamps.Waiting.{
  correlate-Yields, attach-Yields, unref_slot-Yields,
}

-- The event waits for its packet in a slot of its own, until some moment not before `until`.
pub record IsStashed (k : Capture) (until : ℕ) (slots : List (Option Unclaimed)) : Type 0 where
  pub slot : ℕ
  pub entry : Unclaimed
  pub there : get_or slots slot none ≡ some entry
  pub only : OnlyAt (unclaimed_is k.msg_type k.seq_id) slot slots
  pub holds : (entry.sec ≡ k.sec) × (entry.ns ≡ k.ns)
  pub fits : unclaimed_is k.msg_type k.seq_id entry ≡ true
  pub lasts : until ≤ entry.deadline

-- A sweep leaves what is not due.
pub kept-IsStashed :
    (k : Capture) (until now : ℕ) (slots : List (Option Unclaimed))
    → now < until
    → IsStashed k until slots
    → IsStashed k until (kept unclaimed_deadline now slots)
kept-IsStashed k until now slots early i = record {
  slot = i.slot;
  entry = i.entry;
  there =
      get_or-kept_alive unclaimed_deadline now slots i.slot i.entry i.there
        (omega (arith, i.lasts));
  only = kept-OnlyAt (unclaimed_is k.msg_type k.seq_id) unclaimed_deadline now slots i.slot i.only;
  holds = i.holds;
  fits = i.fits;
  lasts = i.lasts;
}

module _ {E : Type 0} (hw : Hw E) (k : Capture) where
  -- No timestamp so far, and the event is kept.
  abbrev pub Stashed : List (ℕ × ℕ × ℕ) → ℕ → World E → Type 0
  Stashed x until w = (stamps w.trace ≡ x) × IsStashed k until w.ctx.rx_unclaimed

  match_capture-Stashed :
      (q t' s' until : ℕ) (w : World E)
      → same_event k.msg_type k.seq_id t' s' ≡ false
      → Absent (pending_is k.msg_type k.seq_id) w.ctx.rx_pending
      → Absent (unclaimed_is k.msg_type k.seq_id) w.ctx.rx_unclaimed
      → 0 < length w.ctx.rx_unclaimed
      → until ≤ hw.uptime w.env + rx_pending_timeout_ms
      → Yields (λ _ w'. Stashed (stamps w.trace) until w') (match_capture hw q t' s' k w)
  unfolding match_capture match_other uptime_get other_packet stash
  match_capture-Stashed q t' s' until w other absent unclaimed room soon =
      let slots = w.ctx.rx_unclaimed in
      let i = target unclaimed_deadline slots in
      let u : Unclaimed = record {
        msg_type = k.msg_type;
        seq_id = k.seq_id;
        sec = k.sec;
        ns = k.ns;
        deadline = hw.uptime w.env + rx_pending_timeout_ms;
      } in
      rw (other, find-Absent (pending_is k.msg_type k.seq_id) w.ctx.rx_pending absent)
        (yields (
          refl,
          record {
            slot = i;
            entry = u;
            there =
                get_or-set_self slots i (some u) none (target-bound unclaimed_deadline slots room);
            only = set-OnlyAt (unclaimed_is k.msg_type k.seq_id) slots i u unclaimed;
            holds = (refl, refl);
            fits = ground arith;
            lasts = soon;
          },
        ))

  enqueue-Stashed :
      (q t' s' until : ℕ) (x : List (ℕ × ℕ × ℕ)) (w : World E)
      → Stashed x until w
      → Yields (λ _ w'. Stashed x until w') (enqueue hw q t' s' w)
  unfolding enqueue queued uptime_get
  enqueue-Stashed q t' s' until x w h =
      Yields.bind
        (unref_slot-Yields hw q t' s'
          (get_or w.ctx.rx_pending (target pending_deadline w.ctx.rx_pending) none) w)
        λ _ w1 same. yields (same.0.0 ∙ h.0, h.1)

  rest-Stashed :
      (q t' s' until : ℕ) (x : List (ℕ × ℕ × ℕ)) (b : Bool) (w : World E)
      → Stashed x until w
      → Yields (λ _ w'. Stashed x until w') ((if b then enqueue hw q t' s' else pure tt) w)
  rest-Stashed q t' s' until x true w h = enqueue-Stashed q t' s' until x w h
  rest-Stashed q t' s' until x false w h = yields h

  module _ (kernel : IsKernel hw) where
    take_capture-Stashed :
        (q t' s' until : ℕ) (w : World E)
        → same_event k.msg_type k.seq_id t' s' ≡ false
        → Absent (pending_is k.msg_type k.seq_id) w.ctx.rx_pending
        → Absent (unclaimed_is k.msg_type k.seq_id) w.ctx.rx_unclaimed
        → 0 < length w.ctx.rx_unclaimed
        → until ≤ hw.uptime w.env + rx_pending_timeout_ms
        → Yields (λ _ w'. Stashed (stamps w.trace) until w') (take_capture hw q t' s' (some k) w)
    unfolding take_capture
    take_capture-Stashed q t' s' until w other absent unclaimed room soon =
        Yields.bind
          (Keeps-Yields hw (Same hw (stamps w.trace) w.ctx) (attempt (write_sys_reg hw _ _)) w
            (attempt-Succeeds hw _ (write_sys_reg-IsTotal hw kernel _ _))
            (acknowledge-Same hw (stamps w.trace) w.ctx _ _) (refl, refl))
          λ _ w1 h.
            let c = h.0.1 in
            Yields.mono
              (match_capture-Stashed q t' s' until w1 other (rw c absent) (rw c unclaimed)
                (rw c room) (omega (arith, h.1, soon)))
              λ _ w2 e. (e.0 ∙ h.0.0, e.1)

    pub correlate-Stashed :
        (q t' s' : ℕ) (w : World E)
        → same_event k.msg_type k.seq_id t' s' ≡ false
        → Absent (pending_is k.msg_type k.seq_id) w.ctx.rx_pending
        → Absent (unclaimed_is k.msg_type k.seq_id) w.ctx.rx_unclaimed
        → Absent (unclaimed_is t' s') w.ctx.rx_unclaimed
        → 0 < length w.ctx.rx_unclaimed
        → event_after hw w ≡ ok (some k)
        → Yields
            (λ _ w'. Stashed (stamps w.trace) (hw.uptime w.env + rx_pending_timeout_ms) w')
            (correlate hw q t' s' w)
    unfolding expire_ctx
    correlate-Stashed q t' s' w other absent unclaimed not_own room e =
        correlate-Yields hw q t' s' w λ w1 h same_env same_event.
          let now = hw.uptime w.env in
          let until = now + rx_pending_timeout_ms in
          let start : hw.uptime w1.env ≡ now = ap hw.uptime same_env in
          let pending : w1.ctx.rx_pending ≡ kept pending_deadline now w.ctx.rx_pending =
            ap (λ c. c.rx_pending) h.1 in
          let slots : w1.ctx.rx_unclaimed ≡ kept unclaimed_deadline now w.ctx.rx_unclaimed =
            ap (λ c. c.rx_unclaimed) h.1 in
          Yields.bind {P = λ _ w'. Stashed (stamps w.trace) until w'}
            (attach-Yields hw q t' s' kernel (some k) w1
              (rw slots (
                kept-Absent (unclaimed_is t' s') unclaimed_deadline now w.ctx.rx_unclaimed not_own))
              (same_event ∙ e)
              λ w2 l later.
                Yields.mono
                  (take_capture-Stashed q t' s' until w2 other
                    (rw (ap (λ c. c.rx_pending) l.1 ∙ pending) (
                      kept-Absent (pending_is k.msg_type k.seq_id) pending_deadline now
                        w.ctx.rx_pending absent))
                    (rw (ap (λ c. c.rx_unclaimed) l.1 ∙ slots) (
                      kept-Absent (unclaimed_is k.msg_type k.seq_id) unclaimed_deadline now
                        w.ctx.rx_unclaimed unclaimed))
                    (rw (ap (λ c. c.rx_unclaimed) l.1 ∙ slots)
                      (omega (arith, length-kept unclaimed_deadline now w.ctx.rx_unclaimed)))
                    (omega (arith, later, start)))
                  λ _ w3 f. (f.0 ∙ l.0 ∙ h.0, f.1))
            λ b w3 f.
              rest-Stashed q t' s' until (stamps w.trace) (not b && msg_type_is_timestamped t') w3 f
