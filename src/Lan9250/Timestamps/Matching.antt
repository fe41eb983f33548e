-- ===== src/Lan9250/Timestamps/Matching.antt =====
-- Which timestamp `lan9250_1588_rx_timestamp_check` gives to which packet.
use rp2350_zephyr_stepper.Prelude.{
  ℕ, ◌≡◌, inl, inr, sym, false, not, ◌&&◌, Option, none, some, List, arith, refl, Bool-cases, min,
  if◌then◌else◌,
}
use rp2350_zephyr_stepper.Lan9250.World.{
  World, Hw, Io, Ret, ok, err, hang, Context, Pending, Unclaimed, attempt, and_then, log, lock_bank,
  unlocked, ◌>>=◌, pure,
}
use rp2350_zephyr_stepper.Lan9250.Yields.{Yields, yields}
use rp2350_zephyr_stepper.Lan9250.Keeps.{Keeps-pure, and_then-keeps, keeps_rules}
use rp2350_zephyr_stepper.Lan9250.Bus.{write_sys_reg, uptime_get}
use rp2350_zephyr_stepper.Lan9250.Parse.{ptp, parse_header}
use rp2350_zephyr_stepper.Lan9250.Slots.{find}
use rp2350_zephyr_stepper.Lan9250.Slots.Target.{FoundAt, find-FoundAt}
use rp2350_zephyr_stepper.Lan9250.Timestamps.{
  Capture, same_event, pending_is, unclaimed_is, rx_pending_expire, expire_ctx, poll_rx_capture,
  other_packet, match_other, match_capture, take_capture, hardware_event, take_unclaimed, attach,
  enqueue, correlate, correlate_parsed, check_header, rx_timestamp_check, msg_type_is_timestamped,
}
use rp2350_zephyr_stepper.Lan9250.Timestamps.Matched.{
  same_event-Keyed, Matched-expired, waiting, early, fresh, Matched, none_given, given,
}
use rp2350_zephyr_stepper.Lan9250.Timestamps.Sweep.{
  expire-Yields, captured, event_after, event_at, Same, acknowledge-Same, poll-Same,
}
use rp2350_zephyr_stepper.Lan9250.Timestamps.Stamps.{stamps, enqueue-Keeps}

module _ {E : Type 0} (hw : Hw E) (pkt t s : ℕ) where
  -- The event at hand is for a packet that waits, if for any.
  other_packet-Matched :
      (k : Capture) (now : ℕ) (c : Context) (w : World E) (event : Ret (Option Capture))
      (o : Option (Pending × ℕ))
      → FoundAt (pending_is k.msg_type k.seq_id) c.rx_pending o
      → event ≡ ok (some k)
      → Matched pkt t s c event (stamps w.trace) (stamps (other_packet hw k now c o w).1.trace)
  unfolding other_packet
  other_packet-Matched k now c w event none f e = none_given
  other_packet-Matched k now c w event (some (p, i)) f e =
      let a : p.msg_type ≡ k.msg_type = ground (arith, f.2) in
      let b : p.seq_id ≡ k.seq_id = ground (arith, f.2) in
      given (rw (sym a, sym b) (waiting i p f.1)) (fresh k e)

  Matched-since :
      {c c' : Context} {event : Ret (Option Capture)} {x x' y : List (ℕ × ℕ × ℕ)}
      → x ≡ x'
      → c ≡ c'
      → Matched pkt t s c event x y
      → Matched pkt t s c' event x' y
  Matched-since e f m = rw (e, f) at m

  match_capture-Matched :
      (k : Capture) (event : Ret (Option Capture)) (w : World E)
      → event ≡ ok (some k)
      → Matched pkt t s w.ctx event (stamps w.trace) (stamps (match_capture hw pkt t s k w).1.trace)
  unfolding match_capture match_other uptime_get
  match_capture-Matched k event w e = elim (Bool-cases (same_event k.msg_type k.seq_id t s)) [
    | inl hit ↦
        rw hit
          (given (same_event-Keyed pkt t s w.ctx.rx_pending k.msg_type k.seq_id hit) (fresh k e))
    | inr miss ↦
        let test = pending_is k.msg_type k.seq_id in
        let o = find test w.ctx.rx_pending in
        rw miss (
          and_then-keeps {I = λ w'. Matched pkt t s w.ctx event (stamps w.trace) (stamps w'.trace)}
            (other_packet hw k (hw.uptime w.env) w.ctx o w) _
            (other_packet-Matched k (hw.uptime w.env) w.ctx w event o
              (find-FoundAt test w.ctx.rx_pending) e)
            λ _. Keeps-pure false)
  ]

  -- A call that gave none, and what comes after it.
  Matched-after :
      {A B : Type 0} (r : Ret A × World E) (k : A → Io E B) (event : Ret (Option Capture))
      (w : World E)
      → Same hw (stamps w.trace) w.ctx r.1
      → ((a : A) (w1 : World E)
          → Matched pkt t s w1.ctx event (stamps w1.trace) (stamps (k a w1).1.trace))
      → Matched pkt t s w.ctx event (stamps w.trace) (stamps (and_then r k).1.trace)
  Matched-after (ok a, w1) k event w h m = Matched-since h.0 h.1 (m a w1)
  Matched-after (err e, w1) k event w h m = Matched-since h.0 h.1 none_given
  Matched-after (hang, w1) k event w h m = Matched-since h.0 h.1 none_given

  take_capture-Matched :
      (r : Ret (Option Capture) × World E) (w : World E)
      → Same hw (stamps w.trace) w.ctx r.1
      → Matched pkt t s w.ctx r.0
          (stamps w.trace)
          (stamps (and_then r (take_capture hw pkt t s)).1.trace)
  unfolding take_capture
  take_capture-Matched (ok none, w1) w h = Matched-since h.0 h.1 none_given
  take_capture-Matched (ok (some k), w1) w h = Matched-since h.0 h.1 (
      Matched-after (attempt (write_sys_reg hw _ _) w1) _ (ok (some k)) w1
        ((acknowledge-Same hw (stamps w1.trace) w1.ctx _ _).keeps w1 (refl, refl))
        λ _ w2. match_capture-Matched k (ok (some k)) w2 refl)
  take_capture-Matched (err e, w1) w h = Matched-since h.0 h.1 none_given
  take_capture-Matched (hang, w1) w h = Matched-since h.0 h.1 none_given

  hardware_event-Matched :
      (w : World E)
      → Matched pkt t s w.ctx
          (captured hw w)
          (stamps w.trace)
          (stamps (hardware_event hw pkt t s w).1.trace)
  unfolding hardware_event
  hardware_event-Matched w =
      take_capture-Matched (attempt (poll_rx_capture hw) w) w
        ((poll-Same hw (stamps w.trace) w.ctx).keeps w (refl, refl))

  take_unclaimed-Matched :
      (w : World E) (o : Option (Unclaimed × ℕ))
      → FoundAt (unclaimed_is t s) w.ctx.rx_unclaimed o
      → Matched pkt t s w.ctx
          (captured hw w)
          (stamps w.trace)
          (stamps (take_unclaimed hw pkt t s w.ctx o w).1.trace)
  unfolding take_unclaimed
  take_unclaimed-Matched w none f = hardware_event-Matched w
  take_unclaimed-Matched w (some (u, i)) f =
      given (same_event-Keyed pkt t s w.ctx.rx_pending u.msg_type u.seq_id f.2) (early i u f.1)

  attach-Matched :
      (w : World E)
      → Matched pkt t s w.ctx
          (captured hw w)
          (stamps w.trace)
          (stamps (attach hw pkt t s w).1.trace)
  unfolding attach
  attach-Matched w =
      take_unclaimed-Matched w (find (unclaimed_is t s) w.ctx.rx_unclaimed)
        (find-FoundAt (unclaimed_is t s) w.ctx.rx_unclaimed)

module _ {E : Type 0} (hw : Hw E) where
  correlate-Matched :
      (pkt t s : ℕ) (w : World E)
      → Matched pkt t s w.ctx
          (event_after hw w)
          (stamps w.trace)
          (stamps (correlate hw pkt t s w).1.trace)
  unfolding correlate uptime_get
  correlate-Matched pkt t s w = swept (rx_pending_expire now w) (expire-Yields now w)
    where
      now : ℕ
      now = hw.uptime w.env

      rest : Io E (Unit {0})
      rest = attach hw pkt t s >>= λ attached.
          if not attached && msg_type_is_timestamped t then enqueue hw pkt t s else pure tt

      swept :
          (r : Ret (Unit {0}) × World E)
          → Yields
              (λ _ w'.
                (stamps w'.trace ≡ stamps w.trace)
                × (w'.ctx ≡ expire_ctx now w.ctx)
                × (w'.env ≡ w.env))
              r
          → Matched pkt t s w.ctx
              (captured hw r.1)
              (stamps w.trace)
              (stamps (and_then r (λ _. rest)).1.trace)
      swept (_, w1) (yields h) = Matched-expired pkt t s now w.ctx (captured hw w1) _ _ (
          Matched-since hw pkt t s h.0 h.1 (
            and_then-keeps
              {I = λ w'.
                Matched pkt t s w1.ctx (captured hw w1) (stamps w1.trace) (stamps w'.trace)}
              (attach hw pkt t s w1) _ (attach-Matched hw pkt t s w1)
              λ attached. search (
                keeps_rules,
                enqueue-Keeps (Matched pkt t s w1.ctx (captured hw w1) (stamps w1.trace)),
              )))

  unlocked-Matched :
      (pkt t s : ℕ) (w : World E) (r : Ret (Unit {0}) × World E)
      → Matched pkt t s w.ctx (event_at hw w) (stamps w.trace) (stamps r.1.trace)
      → Matched pkt t s w.ctx (event_at hw w) (stamps w.trace) (stamps (unlocked r).1.trace)
  unlocked-Matched pkt t s w (ok a, w1) m = m
  unlocked-Matched pkt t s w (err e, w1) m = m
  unlocked-Matched pkt t s w (hang, w1) m = m

  check_header-Matched :
      (pkt n t s : ℕ) (r : Ret (List ℕ)) (header : List ℕ) (w : World E)
      → r ≡ ok header
      → parse_header header n ≡ ptp t s
      → Matched pkt t s w.ctx
          (event_at hw w)
          (stamps w.trace)
          (stamps (check_header hw pkt n r w).1.trace)
  unfolding check_header correlate_parsed
  check_header-Matched pkt n t s r header w e f =
      rw (e, f)
        (unlocked-Matched pkt t s w (correlate hw pkt t s (log lock_bank w))
          (correlate-Matched pkt t s (log lock_bank w)))

  -- For a frame whose header is read and parsed as a PTP message, lan9250_1588_rx_timestamp_check
  -- gives at most one packet a timestamp, whatever the chip answers and whatever the result: the
  -- frame's packet or one that waited in rx_pending, with the timestamp of an entry of
  -- rx_unclaimed or of the event captured now, and only where message type and sequence number of
  -- the two are the same.
  pub rx_timestamp_check-Matched :
      (pkt len t s : ℕ) (header : List ℕ) (w : World E)
      → hw.pkt_read pkt (min len 128) w.env ≡ ok header
      → parse_header header (min len 128) ≡ ptp t s
      → Matched pkt t s w.ctx
          (event_at hw w)
          (stamps w.trace)
          (stamps (rx_timestamp_check hw pkt len w).1.trace)
  unfolding rx_timestamp_check
  rx_timestamp_check-Matched pkt len t s header w e f =
      check_header-Matched pkt (min len 128) t s _ header w e f
