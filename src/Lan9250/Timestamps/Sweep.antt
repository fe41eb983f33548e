-- ===== src/Lan9250/Timestamps/Sweep.antt =====
-- The steps of `lan9250_1588_rx_timestamp_check` that give no timestamp: the sweep of old entries,
-- the reads of a captured event, and its acknowledgement.
use rp2350_zephyr_stepper.Prelude.{ℕ, ◌≡◌, ◌≤◌, Option, List, [], ◌∷◌, refl, min}
use rp2350_zephyr_stepper.Lan9250.World.{
  World, Hw, Io, Ret, ok, Context, Pending, attempt, log, pkt_unref, lock_bank, unlock_bank,
  unlocked,
}
use rp2350_zephyr_stepper.Lan9250.Yields.{Yields, yields}
use rp2350_zephyr_stepper.Lan9250.Yields
use rp2350_zephyr_stepper.Lan9250.Keeps.{Keeps, Keeps-attempt}
use rp2350_zephyr_stepper.Lan9250.Bus.{write_sys_reg}
use rp2350_zephyr_stepper.Lan9250.Bus.Succeeds.{Succeeds}
use rp2350_zephyr_stepper.Lan9250.Parse.{ptp, parse_header}
use rp2350_zephyr_stepper.Lan9250.Slots.{expired}
use rp2350_zephyr_stepper.Lan9250.Timestamps.{
  Capture, pending_deadline, unref_all, rx_pending_expire, expire_ctx, poll_rx_capture, correlate,
  correlate_parsed, check_header, rx_timestamp_check,
}
use rp2350_zephyr_stepper.Lan9250.Timestamps.Stamps.{stamps, write_sys_reg-Keeps, capture-Keeps}

unref_all-Yields :
    {E : Type 0} (ps : List Pending) (w : World E)
    → Yields
        (λ _ w'. (stamps w'.trace ≡ stamps w.trace) × (w'.ctx ≡ w.ctx) × (w'.env ≡ w.env))
        (unref_all ps w)
unfolding unref_all
unref_all-Yields [] w = yields (refl, refl, refl)
unref_all-Yields (p ∷ ps) w = unref_all-Yields ps (log (pkt_unref p.pkt) w)

pub expire-Yields :
    {E : Type 0} (now : ℕ) (w : World E)
    → Yields
        (λ _ w'.
          (stamps w'.trace ≡ stamps w.trace) × (w'.ctx ≡ expire_ctx now w.ctx) × (w'.env ≡ w.env))
        (rx_pending_expire now w)
unfolding rx_pending_expire
expire-Yields now w =
    Yields.bind (unref_all-Yields (expired pending_deadline now w.ctx.rx_pending) w)
      λ _ w1 h. yields (h.0, refl, h.2)

module _ {E : Type 0} (hw : Hw E) where
  -- What the driver reads when it asks the chip for an event.
  abbrev pub captured : World E → Ret (Option Capture)
  captured w = (attempt (poll_rx_capture hw) w).0

  -- What the driver reads of the chip's events when it looks at a frame's packet: old entries are
  -- swept first, under the lock. Timestamps/Chip says how this depends on the chip.
  abbrev pub event_after : World E → Ret (Option Capture)
  event_after w = captured (rx_pending_expire (hw.uptime w.env) w).1

  abbrev pub event_at : World E → Ret (Option Capture)
  event_at w = event_after (log lock_bank w)

  -- The timestamps given so far and the driver's state.
  abbrev pub Same : List (ℕ × ℕ × ℕ) → Context → World E → Type 0
  Same x c w = (stamps w.trace ≡ x) × (w.ctx ≡ c)

  pub acknowledge-Same :
      (x : List (ℕ × ℕ × ℕ)) (c : Context) (a v : ℕ)
      → Keeps (Same x c) (attempt (write_sys_reg hw a v))
  acknowledge-Same x c a v = Keeps-attempt _ (write_sys_reg-Keeps (λ y d. (y ≡ x) × (d ≡ c)) hw a v)

  pub poll-Same :
      (x : List (ℕ × ℕ × ℕ)) (c : Context) → Keeps (Same x c) (attempt (poll_rx_capture hw))
  poll-Same x c = Keeps-attempt _ (capture-Keeps (λ y d. (y ≡ x) × (d ≡ c)) hw)

module _ {E A : Type 0} (hw : Hw E) (I : World E → Type 0) (time : ℕ) where
  kept-Yields :
      (r : Ret A × World E)
      → Yields (λ _ w'. time ≤ hw.uptime w'.env) r
      → I r.1
      → Yields (λ _ w'. I w' × (time ≤ hw.uptime w'.env)) r
  kept-Yields (_, w) (yields h) i = yields (i, h)

-- A function that succeeds and keeps `I`.
pub Keeps-Yields :
    {E A : Type 0} (hw : Hw E) (I : World E → Type 0) (m : Io E A) (w : World E)
    → Succeeds hw m
    → Keeps I m
    → I w
    → Yields (λ _ w'. I w' × (hw.uptime w.env ≤ hw.uptime w'.env)) (m w)
Keeps-Yields hw I m w s k i = kept-Yields hw I (hw.uptime w.env) (m w) (s w) (k.keeps w i)

-- A frame whose header is read and parsed as a PTP message.
abbrev pub IsPtpFrame : {E : Type 0} → Hw E → World E → ℕ → ℕ → ℕ → ℕ → Type 0
IsPtpFrame hw w pkt len t s =
    (header : List ℕ) × (hw.pkt_read pkt (min len 128) w.env ≡ ok header)
    × (parse_header header (min len 128) ≡ ptp t s)

module _ {E : Type 0} (hw : Hw E) {P : Unit {0} → World E → Type 0} where
  unlocked-Yields :
      ((w' : World E) → P tt w' → P tt (log unlock_bank w'))
      → (r : Ret (Unit {0}) × World E) → Yields P r
      → Yields P (unlocked r)
  unlocked-Yields closed (_, w) (yields h) = yields (closed w h)

  pub check-Yields :
      (pkt len t s : ℕ) (w : World E)
      → IsPtpFrame hw w pkt len t s
      → ((w' : World E) → P tt w' → P tt (log unlock_bank w'))
      → Yields P (correlate hw pkt t s (log lock_bank w))
      → Yields P (rx_timestamp_check hw pkt len w)
  unfolding rx_timestamp_check check_header correlate_parsed
  check-Yields pkt len t s w (header, e, f) closed y =
      rw (e, f) (unlocked-Yields closed (correlate hw pkt t s (log lock_bank w)) y)

pub Yields-end :
    {E A : Type 0} (P : World E → Type 0) (r : Ret A × World E) → Yields (λ _ w'. P w') r → P r.1
Yields-end P (_, w) (yields h) = h
