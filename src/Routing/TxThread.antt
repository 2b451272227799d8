-- ===== src/Routing/TxThread.antt =====
-- A round of the TX thread of onvm/onvm_mgr/main.c: a burst off the ring of each NF of its range is routed, and the
-- buffers are flushed.
mod Burst
mod Laws
mod Tests
use afxdp_path_manager.Common.{
  ℕ, zero, suc, ◌+◌, ◌-◌, not, Option, none, some, length, leb, ltb, if◌then◌else◌, update, ◌>>=◌,
}
use afxdp_path_manager.Mgr.Services.{max_nfs, is_valid}
use afxdp_path_manager.Mgr.Threads.{Range}
use afxdp_path_manager.Routing.{packet_read_size, Dpdk, Dequeue, Env, Switch}
use afxdp_path_manager.Routing.Queues.{flush_nfs, flush_all_nfs, flush_ports, flush_all_ports}
use afxdp_path_manager.Routing.Batch.{process_tx_batch}

module _ {D : Dpdk} (Q : Dequeue D) where
  -- The body of the loop over the NFs
  unfoldable pub tx_nf : Env → ℕ → Switch D → Option (Switch D)
  unfolding process_tx_batch
  tx_nf env i s =
      let (pkts, ring) = Q.dequeue_burst (s.tx_q i) packet_read_size in
      let taken : Switch D = record s { tx_q = update s.tx_q i ring } in
      if leb max_nfs i
      then none
      else if not (is_valid (env.mgr.nfs i))
      then some s
      else if ltb 0 (length pkts)
      then process_tx_batch env pkts i taken
      else some taken

  -- The loop over the NFs, for as many as are left from `i` on
  unfoldable pub tx_nfs : Env → ℕ → ℕ → Switch D → Option (Switch D)
  unfolding tx_nf
  tx_nfs env zero i s = some s
  tx_nfs env (suc n) i s = tx_nf env i s >>= tx_nfs env n (i + 1)

  -- A round of tx_thread_main
  unfoldable pub tx_round : Env → Range → Switch D → Option (Switch D)
  unfolding tx_nfs flush_ports flush_nfs
  tx_round env r s =
      tx_nfs env (r.last_nf - r.first_nf) r.first_nf s >>= flush_all_ports env >>= λ t.
      some (flush_all_nfs env none t)
