-- ===== src/Lan9250/Timestamps/Total.antt =====
-- The reads of a captured timestamp come to an end.
use rp2350_zephyr_stepper.Prelude.{ℕ, zero, suc}
use rp2350_zephyr_stepper.Lan9250.World.{Hw}
use rp2350_zephyr_stepper.Lan9250.Bus.Total.{IsKernel, IsTotal}
use rp2350_zephyr_stepper.Lan9250.Bus.Rules.{total_rules}
use rp2350_zephyr_stepper.Lan9250.Clock.{bank_select}
use rp2350_zephyr_stepper.Lan9250.Timestamps.{read_capture, poll_rx_capture}
use rp2350_zephyr_stepper.Lan9250.TxTimestamps.{poll_tx_cap, poll_tx_capture}

module _ {E : Type 0} (hw : Hw E) (kernel : IsKernel hw) where
  bank_select-IsTotal : (bank : ℕ) → IsTotal hw (bank_select hw bank)
  unfolding bank_select
  bank_select-IsTotal bank = search total_rules

  read_capture-IsTotal : (a b c : ℕ) → IsTotal hw (read_capture hw a b c)
  unfolding read_capture
  read_capture-IsTotal a b c = search total_rules

  pub poll_rx_capture-IsTotal : IsTotal hw (poll_rx_capture hw)
  unfolding poll_rx_capture
  poll_rx_capture-IsTotal = search (total_rules, bank_select-IsTotal, read_capture-IsTotal)

  poll_tx_cap-IsTotal : (attempts cap_info : ℕ) → IsTotal hw (poll_tx_cap hw attempts cap_info)
  unfolding poll_tx_cap
  poll_tx_cap-IsTotal zero cap_info = search total_rules
  poll_tx_cap-IsTotal (suc attempts) cap_info = search (total_rules, poll_tx_cap-IsTotal attempts)

  pub poll_tx_capture-IsTotal : IsTotal hw (poll_tx_capture hw)
  unfolding poll_tx_capture
  poll_tx_capture-IsTotal =
      search (total_rules, bank_select-IsTotal, poll_tx_cap-IsTotal, read_capture-IsTotal)
