-- ===== src/Lan9250/TxTimestamps.antt =====
-- `lan9250_1588_tx_timestamp_check` (drivers/eth_lan9250/eth_lan9250.c).
use rp2350_zephyr_stepper.Prelude.{
  ℕ, zero, suc, Option, none, some, List, ◌==◌, if◌then◌else◌, bit_and,
}
use rp2350_zephyr_stepper.Lan9250.World.{
  Hw, Io, pure, fail, ◌>>=◌, ◌>>◌, attempt, locked, emit, pkt_stamp, tx_stamped, eio,
}
use rp2350_zephyr_stepper.Lan9250.Regs.{
  ieee1588_bank_sel_port_general, ieee1588_bank_sel_port_tx, ieee1588_cap_info,
  ieee1588_cap_info_tx_ts_cnt_mask, ieee1588_tx_msg_header, ieee1588_tx_egress_sec,
  ieee1588_tx_egress_ns, ieee1588_int_sts, ieee1588_int_sts_tx_ts_int,
}
use rp2350_zephyr_stepper.Lan9250.Bus.{wait, write_sys_reg, read_sys_reg}
use rp2350_zephyr_stepper.Lan9250.Clock.{bank_select}
use rp2350_zephyr_stepper.Lan9250.Parse.{Parsed, ptp, other, out_of_bounds, parse_header}
use rp2350_zephyr_stepper.Lan9250.Timestamps.{Capture, same_event, read_capture}

abbrev pub tx_ts_poll_attempts : ℕ
tx_ts_poll_attempts = 5

module _ {E : Type 0} (hw : Hw E) where
  -- `CAP_INFO` until it shows an event, at most `attempts` more times; the last value read.
  unfoldable pub poll_tx_cap : ℕ → ℕ → Io E ℕ
  poll_tx_cap zero cap_info = pure cap_info
  poll_tx_cap (suc attempts) cap_info = do
    cap ← read_sys_reg hw ieee1588_cap_info
    if bit_and cap ieee1588_cap_info_tx_ts_cnt_mask == 0
        then wait hw 1 >> poll_tx_cap attempts cap
        else pure cap

  unfoldable pub poll_tx_capture : Io E Capture
  poll_tx_capture = do
    bank_select hw ieee1588_bank_sel_port_general
    cap_info ← poll_tx_cap tx_ts_poll_attempts 0
    if bit_and cap_info ieee1588_cap_info_tx_ts_cnt_mask == 0 then fail eio else do
      bank_select hw ieee1588_bank_sel_port_tx
      read_capture hw ieee1588_tx_msg_header ieee1588_tx_egress_sec ieee1588_tx_egress_ns

  -- An event that is not the packet's is dropped; it is acknowledged all the same.
  unfoldable pub tx_captured : ℕ → ℕ → ℕ → Option Capture → Io E (Unit {0})
  tx_captured pkt t s none = pure tt
  tx_captured pkt t s (some k) = do
    (if same_event k.msg_type k.seq_id t s
        then (emit (pkt_stamp pkt k.sec k.ns)
            >> (if hw.timestamp_thread then emit (tx_stamped pkt) else pure tt))
        else pure tt)
    _ ← attempt (write_sys_reg hw ieee1588_int_sts ieee1588_int_sts_tx_ts_int)
    pure tt

  unfoldable pub tx_correlate : ℕ → ℕ → ℕ → Io E (Unit {0})
  tx_correlate pkt t s = do cap ← attempt poll_tx_capture; tx_captured pkt t s cap

  unfoldable pub tx_parsed : ℕ → Parsed → Io E (Unit {0})
  tx_parsed pkt (ptp t s) = locked (tx_correlate pkt t s)
  tx_parsed pkt other = pure tt
  tx_parsed pkt out_of_bounds = pure tt

  unfoldable pub tx_timestamp_check : ℕ → List ℕ → ℕ → Io E (Unit {0})
  tx_timestamp_check pkt frame len = tx_parsed pkt (parse_header frame len)
