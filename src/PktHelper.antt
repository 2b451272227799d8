-- ===== src/PktHelper.antt =====
-- The helpers for packets of onvm/onvm_nflib/onvm_pkt_helper.c: addresses, checksums, and the making of packets.
pub mod Address
pub mod Checksum
pub mod Generate
mod Tests
