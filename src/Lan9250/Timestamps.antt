-- ===== src/Lan9250/Timestamps.antt =====
-- The matching of hardware RX and TX timestamps to packets (drivers/eth_lan9250/eth_lan9250.c).
pub mod Refs
pub mod Balance
pub mod Total
pub mod Succeeds
pub mod Captures
pub mod Stamps
pub mod Correlates
pub mod Sweep
pub mod Chip
pub mod Waiting
pub mod Late
pub mod Stashed
pub mod Early
pub mod Matched
pub mod Matching
use rp2350_zephyr_stepper.Prelude.{
  ℕ, zero, suc, ◌+◌, ◌-◌, ◌/◌, ◌%◌, ◌^◌, Bool, true, false, not, ◌&&◌, Option, none, some, List, [],
  ◌∷◌, ltb, ◌==◌, if◌then◌else◌, bit_and, set, get_or, min,
}
use rp2350_zephyr_stepper.Lan9250.World.{
  Ret, hang, err, ok, Hw, Io, Context, Pending, Unclaimed, Diag, pure, fail, ◌>>=◌, ◌>>◌, attempt,
  locked, emit, get_ctx, put_ctx, pkt_ref, pkt_unref, pkt_stamp, tx_stamped, eio,
}
use rp2350_zephyr_stepper.Lan9250.Regs.{
  ieee1588_bank_sel_port_general, ieee1588_bank_sel_port_rx, ieee1588_bank_sel_port_tx,
  ieee1588_cap_info, ieee1588_cap_info_rx_ts_cnt_mask, ieee1588_cap_info_tx_ts_cnt_mask,
  ieee1588_rx_msg_header, ieee1588_rx_ingress_sec, ieee1588_rx_ingress_ns, ieee1588_tx_msg_header,
  ieee1588_tx_egress_sec, ieee1588_tx_egress_ns, ieee1588_msg_header_msg_type_mask,
  ieee1588_msg_header_msg_type_shift, ieee1588_msg_header_seq_id_mask, ieee1588_int_sts,
  ieee1588_int_sts_rx_ts_int, ieee1588_int_sts_tx_ts_int,
}
use rp2350_zephyr_stepper.Lan9250.Bus.{wait, uptime_get, write_sys_reg, read_sys_reg}
use rp2350_zephyr_stepper.Lan9250.Clock.{bank_select, ptp_message_en_default}
use rp2350_zephyr_stepper.Lan9250.Parse.{Parsed, out_of_bounds, other, ptp, parse_header}
use rp2350_zephyr_stepper.Lan9250.Slots.{expired, kept, find, target}

abbrev pub rx_pending_timeout_ms : ℕ
rx_pending_timeout_ms = 2000

abbrev pub msg_type_is_timestamped : ℕ → Bool
msg_type_is_timestamped msg_type = not (bit_and (2 ^ msg_type) ptp_message_en_default == 0)

-- A timestamp that the hardware captured.
pub record Capture : Type 0 where
  pub msg_type : ℕ
  pub seq_id : ℕ
  pub sec : ℕ
  pub ns : ℕ

abbrev pub header_msg_type : ℕ → ℕ
header_msg_type h =
    bit_and h ieee1588_msg_header_msg_type_mask / 2 ^ ieee1588_msg_header_msg_type_shift

abbrev pub header_seq_id : ℕ → ℕ
header_seq_id h = bit_and h ieee1588_msg_header_seq_id_mask

abbrev pub pending_deadline : Pending → ℕ
pending_deadline p = p.deadline

abbrev pub unclaimed_deadline : Unclaimed → ℕ
unclaimed_deadline u = u.deadline

-- The `uint32_t` counters.
abbrev pub count_up : ℕ → ℕ → ℕ
count_up n k = (n + k) % 2 ^ 32

-- `diag_rx_match_summary`, whose message goes to the log.
unfoldable pub summarised : ℕ → Diag → Diag
summarised now d =
    if ltb (now - d.last_summary_ms) 10_000 then d else record d { last_summary_ms = now }

abbrev pub count : {A : Type 0} → List A → ℕ
count [] = 0
count (x ∷ xs) = suc (count xs)

-- The context after `lan9250_1588_rx_pending_expire` at `now`.
unfoldable pub expire_ctx : ℕ → Context → Context
unfolding summarised
expire_ctx now c =
    let gone = expired pending_deadline now c.rx_pending in
    let d = record c.diag { expired_unmatched = count_up c.diag.expired_unmatched (count gone) } in
    record c {
      rx_pending = kept pending_deadline now c.rx_pending;
      rx_unclaimed = kept unclaimed_deadline now c.rx_unclaimed;
      diag = summarised now d;
    }

module _ {E : Type 0} where
  unfoldable pub unref_all : List Pending → Io E (Unit {0})
  unref_all [] = pure tt
  unref_all (p ∷ ps) = emit (pkt_unref p.pkt) >> unref_all ps

  unfoldable pub rx_pending_expire : ℕ → Io E (Unit {0})
  rx_pending_expire now = do
    c ← get_ctx
    unref_all (expired pending_deadline now c.rx_pending)
    put_ctx (expire_ctx now c)

-- Same message type and sequence number.
abbrev pub same_event : ℕ → ℕ → ℕ → ℕ → Bool
same_event t s t' s' = t == t' && s == s'

abbrev pub pending_is : ℕ → ℕ → Pending → Bool
pending_is t s p = same_event p.msg_type p.seq_id t s

abbrev pub unclaimed_is : ℕ → ℕ → Unclaimed → Bool
unclaimed_is t s u = same_event u.msg_type u.seq_id t s

-- One captured RX timestamp, if there is one that can be read; it is acknowledged once read.
module _ {E : Type 0} (hw : Hw E) where
  unfoldable pub read_capture : ℕ → ℕ → ℕ → Io E Capture
  read_capture msg_header sec_reg ns_reg = do
    h ← read_sys_reg hw msg_header
    sec ← read_sys_reg hw sec_reg
    ns ← read_sys_reg hw ns_reg
    pure (record { msg_type = header_msg_type h; seq_id = header_seq_id h; sec = sec; ns = ns })

  unfoldable pub poll_rx_capture : Io E Capture
  poll_rx_capture = do
    bank_select hw ieee1588_bank_sel_port_general
    cap_info ← read_sys_reg hw ieee1588_cap_info
    if bit_and cap_info ieee1588_cap_info_rx_ts_cnt_mask == 0 then fail eio else do
      bank_select hw ieee1588_bank_sel_port_rx
      read_capture ieee1588_rx_msg_header ieee1588_rx_ingress_sec ieee1588_rx_ingress_ns

  -- The frame at hand takes a timestamp that came before it.
  unfoldable pub claim : ℕ → ℕ → Unclaimed → ℕ → Context → Context
  claim t s u i c = record c {
    rx_unclaimed = set c.rx_unclaimed i none;
    diag = record c.diag { matched_immediate = count_up c.diag.matched_immediate 1 };
  }

  -- An event that is not the frame's: a pending packet takes it, or it is kept as unclaimed.
  unfoldable pub stash : ℕ → Capture → Context → Context
  stash now cap c =
      let slot = target unclaimed_deadline c.rx_unclaimed in
      record c {
        rx_unclaimed = set c.rx_unclaimed slot (
            some (record {
              msg_type = cap.msg_type;
              seq_id = cap.seq_id;
              sec = cap.sec;
              ns = cap.ns;
              deadline = now + rx_pending_timeout_ms;
            }));
      }

  unfoldable pub release : ℕ → Context → Context
  release i c = record c {
    rx_pending = set c.rx_pending i none;
    diag = record c.diag { matched_pending = count_up c.diag.matched_pending 1 };
  }

  unfoldable pub other_packet : Capture → ℕ → Context → Option (Pending × ℕ) → Io E (Unit {0})
  unfolding release stash
  other_packet cap now c none = put_ctx (stash now cap c)
  other_packet cap now c (some (p, i)) = do
    emit (pkt_stamp p.pkt cap.sec cap.ns)
    emit (pkt_unref p.pkt)
    put_ctx (release i c)

  unfoldable pub match_other : Capture → Io E (Unit {0})
  match_other cap = do
    c ← get_ctx
    now ← uptime_get hw
    other_packet cap now c (find (pending_is cap.msg_type cap.seq_id) c.rx_pending)

  -- The result says whether the frame's packet has its timestamp.
  unfoldable pub match_capture : ℕ → ℕ → ℕ → Capture → Io E Bool
  match_capture pkt t s cap =
      if same_event cap.msg_type cap.seq_id t s
      then (do
        c ← get_ctx
        emit (pkt_stamp pkt cap.sec cap.ns)
        put_ctx (record c {
          diag = record c.diag { matched_immediate = count_up c.diag.matched_immediate 1 };
        })
        pure true)
      else match_other cap >> pure false

  unfoldable pub take_capture : ℕ → ℕ → ℕ → Option Capture → Io E Bool
  take_capture pkt t s none = pure false
  take_capture pkt t s (some k) = do
    _ ← attempt (write_sys_reg hw ieee1588_int_sts ieee1588_int_sts_rx_ts_int)
    match_capture pkt t s k

  unfoldable pub hardware_event : ℕ → ℕ → ℕ → Io E Bool
  hardware_event pkt t s = do k ← attempt poll_rx_capture; take_capture pkt t s k

  unfoldable pub take_unclaimed : ℕ → ℕ → ℕ → Context → Option (Unclaimed × ℕ) → Io E Bool
  unfolding claim
  take_unclaimed pkt t s c none = hardware_event pkt t s
  take_unclaimed pkt t s c (some (u, i)) = do
    emit (pkt_stamp pkt u.sec u.ns)
    put_ctx (claim t s u i c)
    pure true

  unfoldable pub attach : ℕ → ℕ → ℕ → Io E Bool
  attach pkt t s = do c ← get_ctx; take_unclaimed pkt t s c (find (unclaimed_is t s) c.rx_unclaimed)

  -- The packet waits in a slot, which may push out the one with the earliest deadline.
  unfoldable pub queued : ℕ → ℕ → ℕ → ℕ → ℕ → Context → Context
  queued now pkt t s slot c = record c {
    rx_pending = set c.rx_pending slot (
        some
          (record { pkt = pkt; msg_type = t; seq_id = s; deadline = now + rx_pending_timeout_ms }));
    diag = record c.diag { queued_pending = count_up c.diag.queued_pending 1 };
  }

  unfoldable pub unref_slot : Option Pending → Io E (Unit {0})
  unref_slot none = pure tt
  unref_slot (some p) = emit (pkt_unref p.pkt)

  unfoldable pub enqueue : ℕ → ℕ → ℕ → Io E (Unit {0})
  enqueue pkt t s = do
    c ← get_ctx
    now ← uptime_get hw
    let slot = target pending_deadline c.rx_pending
    unref_slot (get_or c.rx_pending slot none)
    emit (pkt_ref pkt)
    put_ctx (queued now pkt t s slot c)

  -- The part of `lan9250_1588_rx_timestamp_check` under the lock.
  unfoldable pub correlate : ℕ → ℕ → ℕ → Io E (Unit {0})
  correlate pkt t s = do
    now ← uptime_get hw
    rx_pending_expire now
    attached ← attach pkt t s
    if not attached && msg_type_is_timestamped t then enqueue pkt t s else pure tt

  unfoldable pub correlate_parsed : ℕ → Parsed → Io E (Unit {0})
  correlate_parsed pkt (ptp t s) = locked (correlate pkt t s)
  correlate_parsed pkt other = pure tt
  correlate_parsed pkt out_of_bounds = pure tt

  unfoldable pub check_header : ℕ → ℕ → Ret (List ℕ) → Io E (Unit {0})
  check_header pkt header_len (ok header) = correlate_parsed pkt (parse_header header header_len)
  check_header pkt header_len (err e) = pure tt
  check_header pkt header_len hang = pure tt

  unfoldable pub rx_timestamp_check : ℕ → ℕ → Io E (Unit {0})
  rx_timestamp_check pkt pkt_len w =
      let header_len = min pkt_len 128 in
      check_header pkt header_len (hw.pkt_read pkt header_len w.env) w
