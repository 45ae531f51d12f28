-- ===== src/Tests.antt =====
-- The theorems at concrete inputs, and short runs of the definitions.
pub mod Platform
pub mod Buffers
pub mod Channels
pub mod Polls
pub mod Managers
pub mod Rounds
pub mod Relayed
pub mod Ptys
pub mod Terminals
pub mod Mains
pub mod Kernel
pub mod Steady
pub mod Signalled
pub mod Launched
