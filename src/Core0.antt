-- ===== src/Core0.antt =====
-- The Zephyr application of the first core (src/): its shells, the launch of core1, and what it
-- does with the network.
pub mod Mailbox
pub mod Stepper
pub mod Launch
pub mod Network
pub mod Ptp
pub mod TxTest
pub mod Hostname
pub mod Reset
pub mod Main
pub mod Link
mod Tests
mod BootTests
