-- ===== src/Lan9250/Timestamps/Waiting.antt =====
-- A packet whose event has not been captured yet waits in `rx_pending`.
use rp2350_zephyr_stepper.Prelude.{
  ℕ, ◌+◌, ◌<◌, ◌≤◌, ◌≡◌, ◌∙◌, true, false, not, ◌&&◌, Bool, Option, none, some, List, arith, refl,
  ap, length, get_or, get_or-set_self, if◌then◌else◌,
}
use rp2350_zephyr_stepper.Lan9250.World.{
  World, Hw, Io, Ret, ok, Pending, attempt, and_then, ◌>>=◌, pure,
}
use rp2350_zephyr_stepper.Lan9250.Yields.{Yields, yields}
use rp2350_zephyr_stepper.Lan9250.Yields
use rp2350_zephyr_stepper.Lan9250.Bus.{uptime_get}
use rp2350_zephyr_stepper.Lan9250.Bus.Total.{IsKernel}
use rp2350_zephyr_stepper.Lan9250.Bus.Succeeds.{attempt-Succeeds}
use rp2350_zephyr_stepper.Lan9250.Slots.{kept, target}
use rp2350_zephyr_stepper.Lan9250.Slots.Target.{target-bound, length-kept}
use rp2350_zephyr_stepper.Lan9250.Slots.Lookup.{
  Absent, OnlyAt, find-Absent, set-OnlyAt, kept-Absent,
}
use rp2350_zephyr_stepper.Lan9250.Timestamps.{
  Capture, pending_is, unclaimed_is, pending_deadline, unclaimed_deadline, rx_pending_expire,
  expire_ctx, poll_rx_capture, take_capture, hardware_event, take_unclaimed, attach, unref_slot,
  queued, enqueue, correlate, msg_type_is_timestamped, rx_pending_timeout_ms,
}
use rp2350_zephyr_stepper.Lan9250.Timestamps.Stamps.{stamps}
use rp2350_zephyr_stepper.Lan9250.Timestamps.Total.{poll_rx_capture-IsTotal}
use rp2350_zephyr_stepper.Lan9250.Timestamps.Sweep.{
  expire-Yields, captured, event_after, Same, poll-Same, Keeps-Yields,
}

module _ {E : Type 0} (hw : Hw E) (pkt t s : ℕ) where
  -- The rest of the check, after the sweep.
  abbrev pub after_sweep : Io E (Unit {0})
  after_sweep = attach hw pkt t s >>= λ attached.
      if not attached && msg_type_is_timestamped t then enqueue hw pkt t s else pure tt

  pub correlate-Yields :
      {P : Unit {0} → World E → Type 0} (w : World E)
      → ((w1 : World E)
          → Same hw (stamps w.trace) (expire_ctx (hw.uptime w.env) w.ctx) w1
          → w1.env ≡ w.env
          → captured hw w1 ≡ event_after hw w
          → Yields P (after_sweep w1))
      → Yields P (correlate hw pkt t s w)
  unfolding correlate uptime_get
  correlate-Yields w next =
      swept (rx_pending_expire (hw.uptime w.env) w) (expire-Yields (hw.uptime w.env) w) next
    where
      swept :
          {P : Unit {0} → World E → Type 0} (r : Ret (Unit {0}) × World E)
          → Yields
              (λ _ w'.
                (stamps w'.trace ≡ stamps w.trace)
                × (w'.ctx ≡ expire_ctx (hw.uptime w.env) w.ctx)
                × (w'.env ≡ w.env))
              r
          → ((w1 : World E)
              → Same hw (stamps w.trace) (expire_ctx (hw.uptime w.env) w.ctx) w1
              → w1.env ≡ w.env
              → captured hw w1 ≡ captured hw r.1
              → Yields P (after_sweep w1))
          → Yields P (and_then r λ _. after_sweep)
      swept (_, w1) (yields h) next = next w1 (h.0, h.1) h.2 refl

  module _ (kernel : IsKernel hw) where
    -- No timestamp was kept for the packet, so that the chip is asked for one.
    pub attach-Yields :
        {P : Bool → World E → Type 0} (event : Option Capture) (w : World E)
        → Absent (unclaimed_is t s) w.ctx.rx_unclaimed
        → captured hw w ≡ ok event
        → ((w1 : World E)
            → Same hw (stamps w.trace) w.ctx w1
            → hw.uptime w.env ≤ hw.uptime w1.env
            → Yields P (take_capture hw pkt t s event w1))
        → Yields P (attach hw pkt t s w)
    unfolding attach take_unclaimed hardware_event
    attach-Yields event w absent e next =
        rw (find-Absent (unclaimed_is t s) w.ctx.rx_unclaimed absent) (
          asked (attempt (poll_rx_capture hw) w) e
            (Keeps-Yields hw (Same hw (stamps w.trace) w.ctx) (attempt (poll_rx_capture hw)) w
              (attempt-Succeeds hw _ (poll_rx_capture-IsTotal hw kernel))
              (poll-Same hw (stamps w.trace) w.ctx) (refl, refl))
            next)
      where
        asked :
            {P : Bool → World E → Type 0} (r : Ret (Option Capture) × World E)
            → r.0 ≡ ok event
            → Yields
                (λ _ w'. Same hw (stamps w.trace) w.ctx w' × (hw.uptime w.env ≤ hw.uptime w'.env))
                r
            → ((w1 : World E)
                → Same hw (stamps w.trace) w.ctx w1
                → hw.uptime w.env ≤ hw.uptime w1.env
                → Yields P (take_capture hw pkt t s event w1))
            → Yields P (and_then r (take_capture hw pkt t s))
        asked (_, w1) e (yields {a = a} h) next =
            let same : a ≡ event = ground (arith, e) in rw same (next w1 h.0 h.1)

-- The packet waits for its event in a slot of its own, until some moment not before `until`.
pub record IsWaiting (pkt t s until : ℕ) (slots : List (Option Pending)) : Type 0 where
  pub slot : ℕ
  pub entry : Pending
  pub there : get_or slots slot none ≡ some entry
  pub only : OnlyAt (pending_is t s) slot slots
  pub holds : entry.pkt ≡ pkt
  pub wants : pending_is t s entry ≡ true
  pub lasts : until ≤ entry.deadline

IsWaiting-earlier :
    (pkt t s n m : ℕ) (slots : List (Option Pending))
    → n ≤ m
    → IsWaiting pkt t s m slots
    → IsWaiting pkt t s n slots
IsWaiting-earlier pkt t s n m slots h i = record {
  slot = i.slot;
  entry = i.entry;
  there = i.there;
  only = i.only;
  holds = i.holds;
  wants = i.wants;
  lasts = omega (arith, i.lasts);
}

module _ {E : Type 0} (hw : Hw E) (pkt t s : ℕ) where
  pub unref_slot-Yields :
      (o : Option Pending) (w : World E)
      → Yields (λ _ w'. Same hw (stamps w.trace) w.ctx w' × (w'.env ≡ w.env)) (unref_slot hw o w)
  unfolding unref_slot
  unref_slot-Yields none w = yields ((refl, refl), refl)
  unref_slot-Yields (some p) w = yields ((refl, refl), refl)

  enqueue-Yields :
      (w : World E)
      → Absent (pending_is t s) w.ctx.rx_pending
      → 0 < length w.ctx.rx_pending
      → Yields
          (λ _ w'.
            (stamps w'.trace ≡ stamps w.trace)
            × (w'.ctx.rx_unclaimed ≡ w.ctx.rx_unclaimed)
            × IsWaiting pkt t s (hw.uptime w.env + rx_pending_timeout_ms) w'.ctx.rx_pending)
          (enqueue hw pkt t s w)
  unfolding enqueue queued uptime_get
  enqueue-Yields w absent room =
      let slots = w.ctx.rx_pending in
      let i = target pending_deadline slots in
      Yields.bind (unref_slot-Yields (get_or slots i none) w) λ _ w1 h.
        let p : Pending = record {
          pkt = pkt;
          msg_type = t;
          seq_id = s;
          deadline = hw.uptime w.env + rx_pending_timeout_ms;
        } in
        yields (
          h.0.0,
          refl,
          record {
            slot = i;
            entry = p;
            there =
                get_or-set_self slots i (some p) none (target-bound pending_deadline slots room);
            only = set-OnlyAt (pending_is t s) slots i p absent;
            holds = refl;
            wants = ground arith;
            lasts = omega arith;
          },
        )

  -- Without an event, the packet waits.
  pub correlate-Waits :
      IsKernel hw
      → (w : World E) → msg_type_is_timestamped t ≡ true
      → Absent (unclaimed_is t s) w.ctx.rx_unclaimed
      → Absent (pending_is t s) w.ctx.rx_pending
      → 0 < length w.ctx.rx_pending
      → event_after hw w ≡ ok none
      → Yields
          (λ _ w'.
            (stamps w'.trace ≡ stamps w.trace)
            × IsWaiting pkt t s (hw.uptime w.env + rx_pending_timeout_ms) w'.ctx.rx_pending)
          (correlate hw pkt t s w)
  unfolding expire_ctx take_capture
  correlate-Waits kernel w timed unclaimed absent room e =
      correlate-Yields hw pkt t s w λ w1 h same_env same_event.
        let now = hw.uptime w.env in
        let start : hw.uptime w1.env ≡ now = ap hw.uptime same_env in
        let absent1 : Absent (unclaimed_is t s) w1.ctx.rx_unclaimed =
          rw (ap (λ c. c.rx_unclaimed) h.1)
            (kept-Absent (unclaimed_is t s) unclaimed_deadline now w.ctx.rx_unclaimed unclaimed) in
        Yields.bind
          {P = λ b w'.
            (b ≡ false)
            × Same hw (stamps w1.trace) w1.ctx w'
            × (hw.uptime w1.env ≤ hw.uptime w'.env)}
          (attach-Yields hw pkt t s kernel none w1 absent1 (same_event ∙ e)
            λ w2 k l. yields (refl, k, l))
          λ b w2 k.
            let slots : w2.ctx.rx_pending ≡ kept pending_deadline now w.ctx.rx_pending =
              ap (λ c. c.rx_pending) (k.1.1 ∙ h.1) in
            let absent2 : Absent (pending_is t s) w2.ctx.rx_pending =
              rw slots
                (kept-Absent (pending_is t s) pending_deadline now w.ctx.rx_pending absent) in
            let room2 : 0 < length w2.ctx.rx_pending =
              rw slots (omega (arith, length-kept pending_deadline now w.ctx.rx_pending)) in
            rw (k.0, timed)
              (Yields.mono (enqueue-Yields w2 absent2 room2) λ _ w3 q. (
                q.0 ∙ k.1.0 ∙ h.0,
                IsWaiting-earlier pkt t s _ _ _ (omega (arith, k.2, start)) q.2,
              ))
