-- ===== src/Lan9250/Timestamps/Correlates.antt =====
-- The matching of timestamps keeps whatever its register accesses, its packet calls and its updates
-- of the driver's state keep.
use rp2350_zephyr_stepper.Prelude.{ℕ, ◌^◌, ◌<◌, Option, none, some, List, [], ◌∷◌}
use rp2350_zephyr_stepper.Lan9250.World.{
  World, Hw, Context, Pending, Unclaimed, pkt_ref, pkt_unref, pkt_stamp, tx_stamped, emit, put_ctx,
}
use rp2350_zephyr_stepper.Lan9250.Keeps.{Keeps, Keeps-then, keeps_rules}
use rp2350_zephyr_stepper.Lan9250.Bus.{wait, write_sys_reg, read_sys_reg}
use rp2350_zephyr_stepper.Lan9250.Timestamps.Captures.{poll_rx_capture-Keeps, poll_tx_capture-Keeps}
use rp2350_zephyr_stepper.Lan9250.Timestamps.{
  Capture, unref_all, rx_pending_expire, other_packet, match_other, match_capture, take_capture,
  poll_rx_capture, hardware_event, take_unclaimed, attach, unref_slot, enqueue, correlate,
}
use rp2350_zephyr_stepper.Lan9250.TxTimestamps.{poll_tx_capture, tx_captured, tx_correlate}

module _ {E : Type 0} (hw : Hw E) (I : World E → Type 0)
    (writes : (a v : ℕ) → Keeps I (write_sys_reg hw a v))
    (reads : (a : ℕ) → 0 < a → a < 2 ^ 16 → Keeps I (read_sys_reg hw a))
    (refs : (p : ℕ) → Keeps {E = E} I (emit (pkt_ref p)))
    (unrefs : (p : ℕ) → Keeps {E = E} I (emit (pkt_unref p)))
    (stamping : (p sec ns : ℕ) → Keeps {E = E} I (emit (pkt_stamp p sec ns)))
    (puts : (c : Context) → Keeps {E = E} I (put_ctx c)) where
  capture-Keeps : Keeps {E = E} I (poll_rx_capture hw)
  capture-Keeps = poll_rx_capture-Keeps hw I writes reads

  unref_all-Keeps : (ps : List Pending) → Keeps {E = E} I (unref_all ps)
  unfolding unref_all
  unref_all-Keeps [] = search keeps_rules
  unref_all-Keeps (q ∷ ps) = Keeps-then _ _ (unrefs q.pkt) (unref_all-Keeps ps)

  pub rx_pending_expire-Keeps : (now : ℕ) → Keeps {E = E} I (rx_pending_expire now)
  unfolding rx_pending_expire
  rx_pending_expire-Keeps now = search (keeps_rules, puts, unref_all-Keeps)

  unref_slot-Keeps : (slot : Option Pending) → Keeps {E = E} I (unref_slot hw slot)
  unfolding unref_slot
  unref_slot-Keeps none = search keeps_rules
  unref_slot-Keeps (some q) = search (keeps_rules, unrefs)

  enqueue-Keeps : (q t s : ℕ) → Keeps {E = E} I (enqueue hw q t s)
  unfolding enqueue
  enqueue-Keeps q t s = search (keeps_rules, refs, puts, unref_slot-Keeps)

  other_packet-Keeps :
      (cap : Capture) (now : ℕ) (c : Context) (found : Option (Pending × ℕ))
      → Keeps {E = E} I (other_packet hw cap now c found)
  unfolding other_packet
  other_packet-Keeps cap now c none = puts _
  other_packet-Keeps cap now c (some (q, i)) = search (keeps_rules, unrefs, stamping, puts)

  match_capture-Keeps : (q t s : ℕ) (cap : Capture) → Keeps {E = E} I (match_capture hw q t s cap)
  unfolding match_capture match_other
  match_capture-Keeps q t s cap = search (keeps_rules, stamping, puts, other_packet-Keeps)

  take_capture-Keeps : (q t s : ℕ) (k : Option Capture) → Keeps {E = E} I (take_capture hw q t s k)
  unfolding take_capture
  take_capture-Keeps q t s none = search keeps_rules
  take_capture-Keeps q t s (some k) = search (keeps_rules, writes, match_capture-Keeps)

  take_unclaimed-Keeps :
      (q t s : ℕ) (c : Context) (found : Option (Unclaimed × ℕ))
      → Keeps {E = E} I (take_unclaimed hw q t s c found)
  unfolding take_unclaimed hardware_event
  take_unclaimed-Keeps q t s c none = search (keeps_rules, capture-Keeps, take_capture-Keeps)
  take_unclaimed-Keeps q t s c (some (u, i)) = search (keeps_rules, stamping, puts)

  pub correlate-Keeps : (q t s : ℕ) → Keeps {E = E} I (correlate hw q t s)
  unfolding correlate attach
  correlate-Keeps q t s =
      search (keeps_rules, rx_pending_expire-Keeps, take_unclaimed-Keeps, enqueue-Keeps)

module _ {E : Type 0} (hw : Hw E) (I : World E → Type 0)
    (writes : (a v : ℕ) → Keeps I (write_sys_reg hw a v))
    (reads : (a : ℕ) → 0 < a → a < 2 ^ 16 → Keeps I (read_sys_reg hw a))
    (stamping : (p sec ns : ℕ) → Keeps {E = E} I (emit (pkt_stamp p sec ns)))
    (waits : (ms : ℕ) → Keeps {E = E} I (wait hw ms))
    (sent : (p : ℕ) → Keeps {E = E} I (emit (tx_stamped p))) where
  tx_capture-Keeps : Keeps {E = E} I (poll_tx_capture hw)
  tx_capture-Keeps = poll_tx_capture-Keeps hw I writes reads waits

  tx_captured-Keeps :
      (pkt t s : ℕ) (cap : Option Capture) → Keeps {E = E} I (tx_captured hw pkt t s cap)
  unfolding tx_captured
  tx_captured-Keeps pkt t s none = search keeps_rules
  tx_captured-Keeps pkt t s (some c) = search (keeps_rules, stamping, sent, writes)

  pub tx_correlate-Keeps : (pkt t s : ℕ) → Keeps {E = E} I (tx_correlate hw pkt t s)
  unfolding tx_correlate
  tx_correlate-Keeps pkt t s = search (keeps_rules, tx_capture-Keeps, tx_captured-Keeps)
