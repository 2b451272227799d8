-- ===== src/Routing/Queues.antt =====
-- The buffers of onvm/onvm_nflib/onvm_pkt_common.c in front of the NFs' rings and the ports: enqueueing a
-- packet, and flushing a buffer. `none` is an access outside an array.
pub mod Account
pub mod Room
pub mod Returns
pub mod Own
pub mod Order
pub mod Labels
pub mod Rings
use afxdp_path_manager.Common.{
  ℕ, zero, suc, ◌-◌, not, ◌||◌, List, [], ◌∷◌, ◌++◌, Option, none, some, length, take, drop, leb,
  ltb, ◌==◌, if◌then◌else◌, add_u64, update, ◌>>=◌,
}
use afxdp_path_manager.Mgr.Services.{max_nfs, max_services, is_valid, service_to_nf_map}
use afxdp_path_manager.Routing.{packet_read_size, rte_max_ethports, NfStats, Dpdk, Env, Switch}

-- The counters of one NF changed; `none` is the NF NULL.
abbrev pub change_at : (NfStats → NfStats) → Option ℕ → (ℕ → NfStats) → ℕ → NfStats
change_at f none stats = stats
change_at f (some i) stats = update stats i (f (stats i))

abbrev pub add_rx : ℕ → NfStats → NfStats
add_rx n st = record st { rx = add_u64 st.rx n }

abbrev pub add_rx_drop : ℕ → NfStats → NfStats
add_rx_drop n st = record st { rx_drop = add_u64 st.rx_drop n }

abbrev pub add_tx : ℕ → NfStats → NfStats
add_tx n st = record st { tx = add_u64 st.tx n }

abbrev pub add_tx_drop : ℕ → NfStats → NfStats
add_tx_drop n st = record st { tx_drop = add_u64 st.tx_drop n }

module _ {D : Dpdk} where
  abbrev pub count_in : (NfStats → NfStats) → Option ℕ → Switch D → Switch D
  count_in f nf s = record s { stats = change_at f nf s.stats }

  -- onvm_pkt_drop, for its effect; it returns 1.
  abbrev pub drop_pkt : ℕ → Switch D → Switch D
  drop_pkt pkt s = record s { freed = s.freed ++ pkt ∷ [] }

  -- onvm_pkt_drop_batch, and the loops that drop a buffer
  unfoldable pub drop_batch : List ℕ → Switch D → Switch D
  drop_batch [] s = s
  drop_batch (pkt ∷ pkts) s = drop_batch pkts (drop_pkt pkt s)

  -- onvm_pkt_flush_nf_queue: the two outcomes of the ring
  abbrev pub nf_queue_refused : ℕ → List ℕ → D.Ring → Option ℕ → Switch D → Switch D
  nf_queue_refused nf_id buf ring source s = count_in (add_tx_drop (length buf)) source (
      count_in (add_rx_drop (length buf)) (some nf_id)
        (drop_batch buf (record s { rx_q = update s.rx_q nf_id ring })))

  abbrev pub nf_queue_taken : ℕ → List ℕ → D.Ring → Option ℕ → Switch D → Switch D
  nf_queue_taken nf_id buf ring source s =
      count_in (add_tx (length buf)) source
        (count_in (add_rx (length buf)) (some nf_id) (record s { rx_q = update s.rx_q nf_id ring }))

  abbrev pub clear_nf_buf : ℕ → Switch D → Switch D
  clear_nf_buf nf_id s = record s { nf_rx_bufs = update s.nf_rx_bufs nf_id [] }

  -- onvm_pkt_flush_nf_queue
  unfoldable pub flush_nf_queue : Env → ℕ → Option ℕ → Switch D → Switch D
  flush_nf_queue env nf_id source s =
      let buf = s.nf_rx_bufs nf_id in
      let (taken, ring) = D.enqueue_bulk (s.rx_q nf_id) buf in
      if (length buf == 0) || not (is_valid (env.mgr.nfs nf_id))
      then s
      else clear_nf_buf nf_id (
          if taken
          then nf_queue_taken nf_id buf ring source s
          else nf_queue_refused nf_id buf ring source s)

  -- The loop of onvm_pkt_flush_all_nfs: the NFs from `i` on, `todo` many
  unfoldable pub flush_nfs : Env → Option ℕ → ℕ → ℕ → Switch D → Switch D
  flush_nfs env source zero i s = s
  flush_nfs env source (suc todo) i s =
      flush_nfs env source todo (suc i) (flush_nf_queue env i source s)

  -- onvm_pkt_flush_all_nfs
  abbrev pub flush_all_nfs : Env → Option ℕ → Switch D → Switch D
  flush_all_nfs env source s = flush_nfs env source max_nfs 0 s

  abbrev pub add_to_nf_buf : ℕ → ℕ → Switch D → Switch D
  add_to_nf_buf nf_id pkt s = record s {
    nf_rx_bufs = update s.nf_rx_bufs nf_id (s.nf_rx_bufs nf_id ++ pkt ∷ []);
  }

  -- The end of onvm_pkt_enqueue_nf
  unfoldable pub buffer_nf : Env → ℕ → ℕ → Option ℕ → Switch D → Switch D
  buffer_nf env nf_id pkt source s =
      let added = add_to_nf_buf nf_id pkt s in
      if length (added.nf_rx_bufs nf_id) == packet_read_size
      then flush_nf_queue env nf_id source added
      else added

  -- onvm_pkt_enqueue_nf
  unfoldable pub enqueue_nf : Env → ℕ → ℕ → Option ℕ → Switch D → Option (Switch D)
  enqueue_nf env dst_service_id pkt source s =
      let dst_instance_id = service_to_nf_map dst_service_id (env.rss pkt) env.mgr in
      let dropped = count_in (add_tx_drop 1) source (drop_pkt pkt s) in
      if leb max_services dst_service_id
      then none
      else if dst_instance_id == 0
      then some dropped
      else if leb max_nfs dst_instance_id
      then none
      else if not (is_valid (env.mgr.nfs dst_instance_id))
      then some dropped
      else if leb packet_read_size (length (s.nf_rx_bufs dst_instance_id))
      then none
      else some (buffer_nf env dst_instance_id pkt source s)

  -- onvm_pkt_flush_port_queue behind its tests: what the NIC takes, and the rest dropped
  unfoldable pub send_port : Env → ℕ → Switch D → Switch D
  send_port env port s =
      let buf = s.port_tx_bufs port in
      let (sent, nic) = D.tx_burst s.nic port env.queue_id buf in
      let out : Switch D = record s { nic = nic; sent = s.sent ++ take sent buf } in
      let unsent = drop_batch (drop sent buf) out in
      let counted : Switch D =
        if ltb sent (length buf)
        then record unsent {
          port_tx_drop =
              update unsent.port_tx_drop port
                (add_u64 (unsent.port_tx_drop port) (length buf - sent));
        }
        else out in
      record counted {
        port_tx = update counted.port_tx port (add_u64 (counted.port_tx port) sent);
        port_tx_bufs = update counted.port_tx_bufs port [];
      }

  -- onvm_pkt_flush_port_queue
  unfoldable pub flush_port_queue : Env → ℕ → Switch D → Option (Switch D)
  flush_port_queue env port s =
      if not env.is_mgr
      then some s
      else if leb rte_max_ethports port
      then none
      else if length (s.port_tx_bufs port) == 0
      then some s
      else some (send_port env port s)

  -- The loop of onvm_pkt_flush_all_ports
  unfoldable pub flush_ports : Env → List ℕ → Switch D → Option (Switch D)
  flush_ports env [] s = some s
  flush_ports env (port ∷ ports) s = flush_port_queue env port s >>= flush_ports env ports

  -- onvm_pkt_flush_all_ports
  abbrev pub flush_all_ports : Env → Switch D → Option (Switch D)
  flush_all_ports env s = flush_ports env env.port_id s

  abbrev pub add_to_port_buf : ℕ → ℕ → Switch D → Switch D
  add_to_port_buf port pkt s = record s {
    port_tx_bufs = update s.port_tx_bufs port (s.port_tx_bufs port ++ pkt ∷ []);
  }

  -- onvm_pkt_enqueue_port. In an NF `tx_thread_info` is the other member of a union.
  unfoldable pub enqueue_port : Env → ℕ → ℕ → Switch D → Option (Switch D)
  unfolding flush_port_queue
  enqueue_port env port pkt s =
      let added = add_to_port_buf port pkt s in
      if leb rte_max_ethports port
      then none
      else if not (env.port_init port)
      then some s
      else if not env.is_mgr || leb packet_read_size (length (s.port_tx_bufs port))
      then none
      else if length (added.port_tx_bufs port) == packet_read_size
      then flush_port_queue env port added
      else some added

  -- onvm_pkt_enqueue_tx_thread for the NF's own buffer
  unfoldable pub enqueue_tx_thread : ℕ → Switch D → Switch D
  enqueue_tx_thread nf_id s =
      let buf = s.to_tx_buf in
      let (taken, ring) = D.enqueue_bulk (s.tx_q nf_id) buf in
      let out : Switch D = record s { tx_q = update s.tx_q nf_id ring } in
      let refused = drop_batch buf (count_in (add_tx_drop (length buf)) (some nf_id) out) in
      let done = if taken then count_in (add_tx (length buf)) (some nf_id) out else refused in
      if length buf == 0 then s else record done { to_tx_buf = [] }
