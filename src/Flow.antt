-- ===== src/Flow.antt =====
-- The flow table and the flow director of onvm/onvm_nflib/onvm_flow_table.c, onvm_flow_table.h and onvm_flow_dir.c.
-- rte_hash and rte_softrss_be are parameters, and memory is known by the number of its pointer.
pub mod Key
pub mod Dir
mod Tests
