-- ===== src/Mgr.antt =====
-- The DPDK manager's bookkeeping: the NFs and their services, the cores they run on, and the service
-- chains: onvm/onvm_mgr/onvm_nf.c and parts of onvm/onvm_nflib.
pub mod Cores
pub mod Services
pub mod Chain
pub mod Messages
pub mod Threads
pub mod Sample
mod Tests
