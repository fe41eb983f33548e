-- ===== src/Lan9250/Timestamps/Matched.antt =====
-- Which packet a timestamp may go to.
use rp2350_zephyr_stepper.Prelude.{ℕ, ◌≡◌, true, Option, none, some, List, ◌∷◌, arith, get_or}
use rp2350_zephyr_stepper.Lan9250.World.{Ret, ok, Context, Pending, Unclaimed}
use rp2350_zephyr_stepper.Lan9250.Timestamps.{
  Capture, same_event, expire_ctx, pending_deadline, unclaimed_deadline,
}
use rp2350_zephyr_stepper.Lan9250.Slots.Target.{get_or-kept}

-- The packet of the frame at hand with its message type and its sequence number, or a packet that
-- waits in a slot with those it waits for.
pub data Keyed (pkt t s : ℕ) (slots : List (Option Pending)) : ℕ → ℕ → ℕ → Type 0 where
  own : Keyed pkt t s slots pkt t s
  waiting :
      (i : ℕ) (p : Pending)
      → get_or slots i none ≡ some p
      → Keyed pkt t s slots p.pkt p.msg_type p.seq_id

-- A timestamp with its message type and its sequence number: one that was kept for its packet, or
-- the event at hand.
pub data Timed (slots : List (Option Unclaimed)) (event : Ret (Option Capture))
    : ℕ → ℕ → ℕ → ℕ → Type 0 where
  early :
      (i : ℕ) (u : Unclaimed)
      → get_or slots i none ≡ some u
      → Timed slots event u.msg_type u.seq_id u.sec u.ns
  fresh : (k : Capture) → event ≡ ok (some k) → Timed slots event k.msg_type k.seq_id k.sec k.ns

-- At most one packet was given a timestamp, and it has the key of that timestamp.
pub data Matched (pkt t s : ℕ) (c : Context) (event : Ret (Option Capture))
    (before : List (ℕ × ℕ × ℕ)) : List (ℕ × ℕ × ℕ) → Type 0 where
  none_given : Matched pkt t s c event before before
  given :
      {p t' s' sec ns : ℕ}
      → Keyed pkt t s c.rx_pending p t' s'
      → Timed c.rx_unclaimed event t' s' sec ns
      → Matched pkt t s c event before ((p, sec, ns) ∷ before)

pub same_event-Keyed :
    (pkt t s : ℕ) (slots : List (Option Pending)) (t' s' : ℕ)
    → same_event t' s' t s ≡ true
    → Keyed pkt t s slots pkt t' s'
same_event-Keyed pkt t s slots t' s' h =
    let e : t' ≡ t = ground arith in let f : s' ≡ s = ground arith in rw (e, f) own

-- What has not expired was there before.
pub Matched-expired :
    (pkt t s now : ℕ) (c : Context) (event : Ret (Option Capture)) (x y : List (ℕ × ℕ × ℕ))
    → Matched pkt t s (expire_ctx now c) event x y
    → Matched pkt t s c event x y
unfolding expire_ctx
Matched-expired pkt t s now c event x y none_given = none_given
Matched-expired pkt t s now c event x y (given k m) = given (keyed k) (timed m)
  where
    keyed :
        {p t' s' : ℕ}
        → Keyed pkt t s (expire_ctx now c).rx_pending p t' s'
        → Keyed pkt t s c.rx_pending p t' s'
    keyed own = own
    keyed (waiting i p h) = waiting i p (get_or-kept pending_deadline now c.rx_pending i p h)

    timed :
        {t' s' sec ns : ℕ}
        → Timed (expire_ctx now c).rx_unclaimed event t' s' sec ns
        → Timed c.rx_unclaimed event t' s' sec ns
    timed (early i u h) = early i u (get_or-kept unclaimed_deadline now c.rx_unclaimed i u h)
    timed (fresh k h) = fresh k h
