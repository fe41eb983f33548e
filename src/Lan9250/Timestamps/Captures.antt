-- ===== src/Lan9250/Timestamps/Captures.antt =====
-- The reads of a captured timestamp keep what the register accesses keep.
use rp2350_zephyr_stepper.Prelude.{ℕ, zero, suc, ◌^◌, ◌<◌, arith}
use rp2350_zephyr_stepper.Lan9250.World.{World, Hw}
use rp2350_zephyr_stepper.Lan9250.Keeps.{Keeps, Keeps-bind, Keeps-pure, keeps_rules}
use rp2350_zephyr_stepper.Lan9250.Regs.{
  ieee1588_cap_info, ieee1588_rx_msg_header, ieee1588_rx_ingress_sec, ieee1588_rx_ingress_ns,
  ieee1588_tx_msg_header, ieee1588_tx_egress_sec, ieee1588_tx_egress_ns,
}
use rp2350_zephyr_stepper.Lan9250.Bus.{wait, write_sys_reg, read_sys_reg}
use rp2350_zephyr_stepper.Lan9250.Clock.{bank_select}
use rp2350_zephyr_stepper.Lan9250.Timestamps.{read_capture, poll_rx_capture}
use rp2350_zephyr_stepper.Lan9250.TxTimestamps.{poll_tx_cap, poll_tx_capture}

-- The data FIFOs are the register at address 0, which is none of those read here.
module _ {E : Type 0} (hw : Hw E) (I : World E → Type 0)
    (writes : (a v : ℕ) → Keeps I (write_sys_reg hw a v))
    (reads : (a : ℕ) → 0 < a → a < 2 ^ 16 → Keeps I (read_sys_reg hw a)) where
  bank_select-Keeps : (bank : ℕ) → Keeps I (bank_select hw bank)
  unfolding bank_select
  bank_select-Keeps bank = writes _ bank

  read_capture-Keeps :
      (h s n : ℕ)
      → Keeps I (read_sys_reg hw h)
      → Keeps I (read_sys_reg hw s)
      → Keeps I (read_sys_reg hw n)
      → Keeps I (read_capture hw h s n)
  unfolding read_capture
  read_capture-Keeps h s n f g k =
      Keeps-bind _ _ f λ _. Keeps-bind _ _ g λ _. Keeps-bind _ _ k λ _. Keeps-pure _

  cap_info-Keeps : Keeps I (read_sys_reg hw ieee1588_cap_info)
  cap_info-Keeps = reads ieee1588_cap_info (omega arith) (omega arith)

  rx_capture-Keeps :
      Keeps I
        (read_capture hw ieee1588_rx_msg_header ieee1588_rx_ingress_sec ieee1588_rx_ingress_ns)
  rx_capture-Keeps =
      read_capture-Keeps _ _ _ (reads ieee1588_rx_msg_header (omega arith) (omega arith))
        (reads ieee1588_rx_ingress_sec (omega arith) (omega arith))
        (reads ieee1588_rx_ingress_ns (omega arith) (omega arith))

  tx_capture-Keeps :
      Keeps I (read_capture hw ieee1588_tx_msg_header ieee1588_tx_egress_sec ieee1588_tx_egress_ns)
  tx_capture-Keeps =
      read_capture-Keeps _ _ _ (reads ieee1588_tx_msg_header (omega arith) (omega arith))
        (reads ieee1588_tx_egress_sec (omega arith) (omega arith))
        (reads ieee1588_tx_egress_ns (omega arith) (omega arith))

  pub poll_rx_capture-Keeps : Keeps I (poll_rx_capture hw)
  unfolding poll_rx_capture
  poll_rx_capture-Keeps = search (keeps_rules, bank_select-Keeps, cap_info-Keeps, rx_capture-Keeps)

  module _ (waits : (ms : ℕ) → Keeps I (wait hw ms)) where
    poll_tx_cap-Keeps : (attempts cap_info : ℕ) → Keeps I (poll_tx_cap hw attempts cap_info)
    unfolding poll_tx_cap
    poll_tx_cap-Keeps zero cap_info = search keeps_rules
    poll_tx_cap-Keeps (suc attempts) cap_info =
        search (keeps_rules, cap_info-Keeps, poll_tx_cap-Keeps attempts)

    pub poll_tx_capture-Keeps : Keeps I (poll_tx_capture hw)
    unfolding poll_tx_capture
    poll_tx_capture-Keeps =
        search (keeps_rules, bank_select-Keeps, poll_tx_cap-Keeps, tx_capture-Keeps)
