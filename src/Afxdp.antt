-- ===== src/Afxdp.antt =====
-- The AF_XDP datapath: onvm/onvm_mgr/afxdp.
pub mod Config
pub mod Ring
pub mod Frames
pub mod Datapath
pub mod Setup
pub mod System
mod Sample
mod Tests
pub mod Args
pub mod Preflight
pub mod Lifecycle
pub mod Threads
pub mod Kern
