-- ===== src/Routing/NfLoop.antt =====
-- How an NF takes packets: onvm_nflib_dequeue_packets of onvm/onvm_nflib/onvm_nflib.c. The NF's function for a packet
-- is an argument: it answers an action and the packet's meta data.
pub mod Laws
mod Tests
use afxdp_path_manager.Common.{
  ℕ, Bool, List, [], ◌∷◌, ◌++◌, length, if◌then◌else◌, ◌==◌, add_u64, update, Option, some, true,
  ◌>>=◌,
}
use afxdp_path_manager.Routing.{packet_read_size, Meta, Dpdk, Dequeue, Env, Switch}
use afxdp_path_manager.Routing.Queues.{enqueue_tx_thread, flush_nfs, flush_all_nfs}
use afxdp_path_manager.Routing.Batch.{process_tx_batch}

-- The packets in the local `tx_buf`, those that the NF keeps, the meta data, and `tx_buffer` of the NF's counters
pub record Handled : Type 0 where
  pub tx_buf : List ℕ
  pub kept : List ℕ
  pub metas : ℕ → Meta
  pub tx_buffer : ℕ

-- The body of the loop over the burst, for what the NF answers
unfoldable pub handle : (ℕ → Meta → ℕ × Meta) → ℕ → Handled → Handled
handle handler pkt h =
    let (ret_act, m) = handler pkt (h.metas pkt) in
    let metas = update h.metas pkt m in
    if ret_act == 0
    then record h { tx_buf = h.tx_buf ++ pkt ∷ []; metas = metas }
    else record h { kept = h.kept ++ pkt ∷ []; metas = metas; tx_buffer = add_u64 h.tx_buffer 1 }

unfoldable pub handle_all : (ℕ → Meta → ℕ × Meta) → List ℕ → Handled → Handled
unfolding handle
handle_all handler [] h = h
handle_all handler (pkt ∷ pkts) h = handle_all handler pkts (handle handler pkt h)

-- The packets in `pkts` that are counted by the result, what the NF keeps and its counter, and the state
pub record Dequeued (D : Dpdk) : Type 0 where
  pub batch : List ℕ
  pub kept : List ℕ
  pub tx_buffer : ℕ
  pub switch : Switch D

module _ {D : Dpdk} (Q : Dequeue D) where
  -- onvm_nflib_dequeue_packets; `handle_tx` is ONVM_NF_HANDLE_TX, and `tx_buffer` the counter before.
  unfoldable pub dequeue_packets : Bool → ℕ → (ℕ → Meta → ℕ × Meta) → ℕ → Switch D → Dequeued D
  unfolding handle_all enqueue_tx_thread
  dequeue_packets handle_tx nf handler tx_buffer s =
      let (pkts, ring) = Q.dequeue_burst (s.rx_q nf) packet_read_size in
      let taken : Switch D = record s { rx_q = update s.rx_q nf ring } in
      let h =
        handle_all handler pkts
          (record { tx_buf = []; kept = []; metas = s.pkt_meta; tx_buffer = tx_buffer }) in
      let done : Switch D = record taken { pkt_meta = h.metas } in
      let sent = enqueue_tx_thread nf (record done { to_tx_buf = h.tx_buf }) in
      if length pkts == 0
      then record { batch = []; kept = []; tx_buffer = tx_buffer; switch = taken }
      else if handle_tx
      then record { batch = pkts; kept = h.kept; tx_buffer = h.tx_buffer; switch = done }
      else record {
        batch = [];
        kept = h.kept;
        tx_buffer = h.tx_buffer;
        switch = record sent { to_tx_buf = s.to_tx_buf };
      }

  -- A pass of the loop of onvm_nflib_thread_main_loop over the packets: dequeued, routed, and the buffers flushed
  unfoldable pub nf_pass : Env → ℕ → (ℕ → Meta → ℕ × Meta) → ℕ → Switch D → Option (Dequeued D)
  unfolding dequeue_packets process_tx_batch enqueue_tx_thread flush_nfs
  nf_pass env nf handler tx_buffer s =
      let r = dequeue_packets true nf handler tx_buffer s in
      let routed =
        if length r.batch == 0 then some r.switch else process_tx_batch env r.batch nf r.switch in
      routed >>= λ t.
      some (record r { switch = flush_all_nfs env (some nf) (enqueue_tx_thread nf t) })
