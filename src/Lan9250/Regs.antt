-- ===== src/Lan9250/Regs.antt =====
-- The LAN9250's registers, passed on from three modules.
mod System
mod Ieee1588
mod Mac
pub use System.*
pub use Ieee1588.*
pub use Mac.*
