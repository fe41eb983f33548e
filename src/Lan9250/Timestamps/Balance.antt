-- ===== src/Lan9250/Timestamps/Balance.antt =====
-- `lan9250_1588_rx_timestamp_check` keeps the references that it takes in balance.
use rp2350_zephyr_stepper.Prelude.{
  ℕ, ◌+◌, ◌<◌, ◌≡◌, true, false, Option, none, some, List, arith, refl, length, get_or, length-set,
  min,
}
use rp2350_zephyr_stepper.Lan9250.World.{
  World, Hw, Ret, ok, err, hang, Context, Pending, Unclaimed, pkt_ref, pkt_stamp, ◌>>=◌, ◌>>◌, pure,
  emit, lock_bank, unlock_bank, get_ctx, put_ctx,
}
use rp2350_zephyr_stepper.Lan9250.Bus.{
  spi_write_dt, spi_transceive_dt, write_sys_reg, read_sys_reg, uptime_get,
}
use rp2350_zephyr_stepper.Lan9250.Keeps.{Keeps-if, Keeps-then, Keeps-pure, keeps_rules}
use rp2350_zephyr_stepper.Lan9250.Parse.{Parsed, ptp, other, out_of_bounds, parse_header}
use rp2350_zephyr_stepper.Lan9250.Slots.{find, target}
use rp2350_zephyr_stepper.Lan9250.Slots.Target.{FoundAt, find-FoundAt, target-bound}
use rp2350_zephyr_stepper.Lan9250.Timestamps.Captures.{poll_rx_capture-Keeps}
use rp2350_zephyr_stepper.Lan9250.Timestamps.Refs.{
  IsBalanced, IsKeeping, held-set, rx_pending_expire-IsKeeping,
}
use rp2350_zephyr_stepper.Lan9250.Timestamps.{
  pending_deadline, pending_is, unclaimed_is, Capture, poll_rx_capture, claim, stash, release,
  match_other, match_capture, hardware_event, attach, queued, other_packet, take_capture,
  take_unclaimed, rx_pending_timeout_ms, unref_slot, enqueue, correlate, rx_timestamp_check,
  check_header, correlate_parsed,
}

module _ (q : ℕ) {E : Type 0} (hw : Hw E) where
  write_sys_reg-IsKeeping : (a v : ℕ) → IsKeeping q (write_sys_reg hw a v)
  unfolding write_sys_reg spi_write_dt
  write_sys_reg-IsKeeping a v = record { keeps = λ w b. (omega (arith, b.0), b.1) }

  transceive-IsKeeping : (bytes : List ℕ) (n : ℕ) → IsKeeping q (spi_transceive_dt hw bytes n)
  unfolding spi_transceive_dt
  transceive-IsKeeping bytes n = record { keeps = λ w b. (omega (arith, b.0), b.1) }

  read_sys_reg-IsKeeping : (a : ℕ) → IsKeeping q (read_sys_reg hw a)
  unfolding read_sys_reg
  read_sys_reg-IsKeeping a = search (keeps_rules, transceive-IsKeeping)

  poll_rx_capture-IsKeeping : IsKeeping q (poll_rx_capture hw)
  poll_rx_capture-IsKeeping =
      poll_rx_capture-Keeps hw _ write_sys_reg-IsKeeping (λ a _ _. read_sys_reg-IsKeeping a)

  matched :
      (k : Capture) (now : ℕ) (w : World E) (o : Option (Pending × ℕ))
      → FoundAt (pending_is k.msg_type k.seq_id) w.ctx.rx_pending o
      → IsBalanced q w
      → IsBalanced q (other_packet hw k now w.ctx o w).1
  unfolding other_packet release stash
  matched k now w none f b = b
  matched k now w (some (p, i)) f b =
      let gone = rw (f.1) at (held-set q w.ctx.rx_pending i none f.0) in
      (omega (arith, b.0, gone), omega (arith, b.1, length-set w.ctx.rx_pending i none))

  match_other-IsKeeping : (k : Capture) → IsKeeping q (match_other hw k)
  unfolding match_other uptime_get
  match_other-IsKeeping k = record {
    keeps = λ w b.
        matched k (hw.uptime w.env) w (find (pending_is k.msg_type k.seq_id) w.ctx.rx_pending)
          (find-FoundAt (pending_is k.msg_type k.seq_id) w.ctx.rx_pending) b;
  }

  stamp-IsKeeping :
      (pkt sec ns : ℕ) (f : Context → Context)
      → ((c : Context) → (f c).rx_pending ≡ c.rx_pending)
      → IsKeeping q (do c ← get_ctx; emit {E = E} (pkt_stamp pkt sec ns); put_ctx (f c); pure true)
  stamp-IsKeeping pkt sec ns f same = record {
    keeps = λ w b. rw (same w.ctx) (omega (arith, b.0), b.1);
  }

  match_capture-IsKeeping : (pkt t s : ℕ) (k : Capture) → IsKeeping q (match_capture hw pkt t s k)
  unfolding match_capture
  match_capture-IsKeeping pkt t s k =
      Keeps-if _ _ _ (stamp-IsKeeping pkt k.sec k.ns _ (λ c. refl))
        (Keeps-then _ _ (match_other-IsKeeping k) (Keeps-pure false))

  captured : (pkt t s : ℕ) (o : Option Capture) → IsKeeping q (take_capture hw pkt t s o)
  unfolding take_capture
  captured pkt t s none = search keeps_rules
  captured pkt t s (some k) = search (keeps_rules, write_sys_reg-IsKeeping, match_capture-IsKeeping)

  hardware_event-IsKeeping : (pkt t s : ℕ) → IsKeeping q (hardware_event hw pkt t s)
  unfolding hardware_event
  hardware_event-IsKeeping pkt t s = search (keeps_rules, poll_rx_capture-IsKeeping, captured)

  attached :
      (pkt t s : ℕ) (w : World E) (o : Option (Unclaimed × ℕ))
      → IsBalanced q w
      → IsBalanced q (take_unclaimed hw pkt t s w.ctx o w).1
  unfolding take_unclaimed claim
  attached pkt t s w none b = (hardware_event-IsKeeping pkt t s).keeps w b
  attached pkt t s w (some (u, i)) b = (omega (arith, b.0), b.1)

  attach-IsKeeping : (pkt t s : ℕ) → IsKeeping q (attach hw pkt t s)
  unfolding attach
  attach-IsKeeping pkt t s = record {
    keeps = λ w b. attached pkt t s w (find (unclaimed_is t s) w.ctx.rx_unclaimed) b;
  }

  -- The reference of the slot's old packet goes, and the new one is counted.
  unref_slot-enqueue :
      (pkt t s now slot : ℕ) (w : World E) (o : Option Pending)
      → get_or w.ctx.rx_pending slot none ≡ o
      → slot < length w.ctx.rx_pending
      → IsBalanced q w
      → IsBalanced q
          (((unref_slot hw o) >> (emit (pkt_ref pkt) >> put_ctx (queued hw now pkt t s slot w.ctx)))
            w).1
  unfolding unref_slot queued
  unref_slot-enqueue pkt t s now slot w none e h b =
      let new : Option Pending =
        some (record {
          pkt = pkt;
          msg_type = t;
          seq_id = s;
          deadline = now + rx_pending_timeout_ms;
        }) in
      let moved = rw e at (held-set q w.ctx.rx_pending slot new h) in
      (omega (arith, b.0, moved), omega (arith, b.1, length-set w.ctx.rx_pending slot new))
  unref_slot-enqueue pkt t s now slot w (some p) e h b =
      let new : Option Pending =
        some (record {
          pkt = pkt;
          msg_type = t;
          seq_id = s;
          deadline = now + rx_pending_timeout_ms;
        }) in
      let moved = rw e at (held-set q w.ctx.rx_pending slot new h) in
      (omega (arith, b.0, moved), omega (arith, b.1, length-set w.ctx.rx_pending slot new))

  enqueue-IsKeeping : (pkt t s : ℕ) → IsKeeping q (enqueue hw pkt t s)
  unfolding enqueue uptime_get
  enqueue-IsKeeping pkt t s = record {
    keeps = λ w b.
        let slot = target pending_deadline w.ctx.rx_pending in
        unref_slot-enqueue pkt t s (hw.uptime w.env) slot w (get_or w.ctx.rx_pending slot none) refl
          (target-bound pending_deadline w.ctx.rx_pending b.1) b;
  }

  correlate-IsKeeping : (pkt t s : ℕ) → IsKeeping q (correlate hw pkt t s)
  unfolding correlate
  correlate-IsKeeping pkt t s =
      search (keeps_rules, rx_pending_expire-IsKeeping, attach-IsKeeping, enqueue-IsKeeping)

  lock-IsKeeping : IsKeeping q (emit {E = E} lock_bank)
  lock-IsKeeping = record { keeps = λ w b. (omega (arith, b.0), b.1) }

  unlock-IsKeeping : IsKeeping q (emit {E = E} unlock_bank)
  unlock-IsKeeping = record { keeps = λ w b. (omega (arith, b.0), b.1) }

  correlate_parsed-IsKeeping : (pkt : ℕ) (p : Parsed) → IsKeeping q (correlate_parsed hw pkt p)
  unfolding correlate_parsed
  correlate_parsed-IsKeeping pkt (ptp t s) =
      search (keeps_rules, lock-IsKeeping, unlock-IsKeeping, correlate-IsKeeping)
  correlate_parsed-IsKeeping pkt other = search keeps_rules
  correlate_parsed-IsKeeping pkt out_of_bounds = search keeps_rules

  checked : (pkt n : ℕ) (r : Ret (List ℕ)) → IsKeeping q (check_header hw pkt n r)
  unfolding check_header
  checked pkt n (ok header) = correlate_parsed-IsKeeping pkt (parse_header header n)
  checked pkt n (err e) = search keeps_rules
  checked pkt n hang = search keeps_rules

  -- Whatever the chip answers and whatever the result, lan9250_1588_rx_timestamp_check keeps the
  -- references on each packet in balance: those taken are those given back and one for each slot
  -- of rx_pending that holds the packet. The array has at least one slot.
  pub rx_timestamp_check-IsKeeping : (pkt len : ℕ) → IsKeeping q (rx_timestamp_check hw pkt len)
  unfolding rx_timestamp_check
  rx_timestamp_check-IsKeeping pkt len = record {
    keeps = λ w b. (checked pkt (min len 128) (hw.pkt_read pkt (min len 128) w.env)).keeps w b;
  }
