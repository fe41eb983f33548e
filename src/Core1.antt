-- ===== src/Core1.antt =====
-- The bare-metal motion controller of the second core (core1/core1_main.c).
pub mod Float
pub mod Protocol
pub mod Board
pub mod Pins
pub mod Motion
pub mod Commands
pub mod Main
pub mod Start
pub mod Pio
mod Tests
mod BootTests
