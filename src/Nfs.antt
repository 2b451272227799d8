-- ===== src/Nfs.antt =====
-- NFs that the repository brings along, on the packets that they get (examples/).
pub mod TokenBucket
pub mod FairQueue
