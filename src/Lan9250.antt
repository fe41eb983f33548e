-- ===== src/Lan9250.antt =====
-- The Ethernet controller's driver (drivers/eth_lan9250/).
pub mod Regs
pub mod World
pub mod Yields
pub mod Bus
pub mod Keeps
pub mod Locks
pub mod Setup
pub mod Clock
pub mod Parse
pub mod Slots
pub mod Timestamps
pub mod TxTimestamps
pub mod Rx
pub mod Filter
pub mod Init
pub mod Api
pub mod Tests
mod FrameTests
mod RoundTests
mod EventTests
mod FilterTests
mod BoardTests
