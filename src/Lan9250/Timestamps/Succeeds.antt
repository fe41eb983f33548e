-- ===== src/Lan9250/Timestamps/Succeeds.antt =====
-- The matching of timestamps passes over every error.
use rp2350_zephyr_stepper.Prelude.{ℕ, Option, none, some, List, [], ◌∷◌}
use rp2350_zephyr_stepper.Lan9250.World.{Ret, ok, err, hang, Hw, Context, Pending, Unclaimed}
use rp2350_zephyr_stepper.Lan9250.Bus.Total.{IsKernel}
use rp2350_zephyr_stepper.Lan9250.Bus.Rules.{total_rules}
use rp2350_zephyr_stepper.Lan9250.Bus.Succeeds.{Succeeds, success_rules}
use rp2350_zephyr_stepper.Lan9250.Parse.{Parsed, parse_header, ptp, other, out_of_bounds}
use rp2350_zephyr_stepper.Lan9250.Timestamps.{
  Capture, unref_all, rx_pending_expire, other_packet, match_other, match_capture, take_capture,
  hardware_event, take_unclaimed, attach, unref_slot, enqueue, correlate, correlate_parsed,
  check_header, rx_timestamp_check,
}
use rp2350_zephyr_stepper.Lan9250.TxTimestamps.{
  tx_captured, tx_correlate, tx_parsed, tx_timestamp_check,
}
use rp2350_zephyr_stepper.Lan9250.Timestamps.Total.{
  poll_rx_capture-IsTotal, poll_tx_capture-IsTotal,
}

module _ {E : Type 0} (hw : Hw E) where
  unref_all-Succeeds : (ps : List Pending) → Succeeds hw (unref_all ps)
  unfolding unref_all
  unref_all-Succeeds [] = search success_rules
  unref_all-Succeeds (p ∷ ps) = search (success_rules, total_rules, unref_all-Succeeds ps)

  pub rx_pending_expire-Succeeds : (now : ℕ) → Succeeds hw (rx_pending_expire now)
  unfolding rx_pending_expire
  rx_pending_expire-Succeeds now = search (success_rules, total_rules, unref_all-Succeeds)

  unref_slot-Succeeds : (slot : Option Pending) → Succeeds hw (unref_slot hw slot)
  unfolding unref_slot
  unref_slot-Succeeds none = search success_rules
  unref_slot-Succeeds (some p) = search success_rules

  pub enqueue-Succeeds : (pkt t s : ℕ) → Succeeds hw (enqueue hw pkt t s)
  unfolding enqueue
  enqueue-Succeeds pkt t s = search (success_rules, total_rules, unref_slot-Succeeds)

  other_packet-Succeeds :
      (cap : Capture) (now : ℕ) (c : Context) (found : Option (Pending × ℕ))
      → Succeeds hw (other_packet hw cap now c found)
  unfolding other_packet
  other_packet-Succeeds cap now c none = search success_rules
  other_packet-Succeeds cap now c (some (p, i)) = search success_rules

  match_capture-Succeeds :
      (pkt t s : ℕ) (cap : Capture) → Succeeds hw (match_capture hw pkt t s cap)
  unfolding match_capture match_other
  match_capture-Succeeds pkt t s cap = search (success_rules, total_rules, other_packet-Succeeds)

module _ {E : Type 0} (hw : Hw E) (kernel : IsKernel hw) where
  take_capture-Succeeds :
      (pkt t s : ℕ) (k : Option Capture) → Succeeds hw (take_capture hw pkt t s k)
  unfolding take_capture
  take_capture-Succeeds pkt t s none = search success_rules
  take_capture-Succeeds pkt t s (some k) =
      search (success_rules, total_rules, match_capture-Succeeds)

  take_unclaimed-Succeeds :
      (pkt t s : ℕ) (c : Context) (found : Option (Unclaimed × ℕ))
      → Succeeds hw (take_unclaimed hw pkt t s c found)
  unfolding take_unclaimed hardware_event
  take_unclaimed-Succeeds pkt t s c none =
      search (success_rules, total_rules, poll_rx_capture-IsTotal, take_capture-Succeeds)
  take_unclaimed-Succeeds pkt t s c (some (u, i)) = search success_rules

  pub correlate-Succeeds : (pkt t s : ℕ) → Succeeds hw (correlate hw pkt t s)
  unfolding correlate attach
  correlate-Succeeds pkt t s = search (
    success_rules, total_rules, rx_pending_expire-Succeeds, take_unclaimed-Succeeds,
    enqueue-Succeeds,
  )

  correlate_parsed-Succeeds : (pkt : ℕ) (p : Parsed) → Succeeds hw (correlate_parsed hw pkt p)
  unfolding correlate_parsed
  correlate_parsed-Succeeds pkt (ptp t s) = search (success_rules, correlate-Succeeds)
  correlate_parsed-Succeeds pkt other = search success_rules
  correlate_parsed-Succeeds pkt out_of_bounds = search success_rules

  check_header-Succeeds :
      (pkt header_len : ℕ) (r : Ret (List ℕ)) → Succeeds hw (check_header hw pkt header_len r)
  unfolding check_header
  check_header-Succeeds pkt n (ok header) = correlate_parsed-Succeeds pkt (parse_header header n)
  check_header-Succeeds pkt n (err e) = search success_rules
  check_header-Succeeds pkt n hang = search success_rules

  pub rx_timestamp_check-Succeeds :
      (pkt pkt_len : ℕ) → Succeeds hw (rx_timestamp_check hw pkt pkt_len)
  unfolding rx_timestamp_check
  rx_timestamp_check-Succeeds pkt pkt_len w = check_header-Succeeds pkt _ _ w

  tx_captured-Succeeds :
      (pkt t s : ℕ) (cap : Option Capture) → Succeeds hw (tx_captured hw pkt t s cap)
  unfolding tx_captured
  tx_captured-Succeeds pkt t s none = search success_rules
  tx_captured-Succeeds pkt t s (some k) = search (success_rules, total_rules)

  pub tx_correlate-Succeeds : (pkt t s : ℕ) → Succeeds hw (tx_correlate hw pkt t s)
  unfolding tx_correlate
  tx_correlate-Succeeds pkt t s =
      search (success_rules, poll_tx_capture-IsTotal, tx_captured-Succeeds)

  tx_parsed-Succeeds : (pkt : ℕ) (p : Parsed) → Succeeds hw (tx_parsed hw pkt p)
  unfolding tx_parsed
  tx_parsed-Succeeds pkt (ptp t s) = search (success_rules, tx_correlate-Succeeds)
  tx_parsed-Succeeds pkt other = search success_rules
  tx_parsed-Succeeds pkt out_of_bounds = search success_rules

  pub tx_timestamp_check-Succeeds :
      (pkt : ℕ) (frame : List ℕ) (len : ℕ) → Succeeds hw (tx_timestamp_check hw pkt frame len)
  unfolding tx_timestamp_check
  tx_timestamp_check-Succeeds pkt frame len = tx_parsed-Succeeds pkt (parse_header frame len)
