-- ===== src/Routing/Batch.antt =====
-- The batches of packets: onvm_pkt_process_rx_batch of onvm/onvm_mgr/onvm_pkt.c, for the packets of a NIC, and
-- onvm_pkt_process_tx_batch of onvm/onvm_nflib/onvm_pkt_common.c, for those that an NF has put on its TX ring.
-- FLOW_LOOKUP is defined, as in the manager's Makefile. `none` is an access outside an array.
pub mod Paths
pub mod Receive
pub mod Transmit
use afxdp_path_manager.Common.{
  ℕ, ◌+◌, ◌%◌, ◌||◌, Bool, List, [], ◌∷◌, ◌++◌, Option, none, some, length, leb, ◌==◌,
  if◌then◌else◌, add_u64, u8_mod, update, ◌>>=◌,
}
use afxdp_path_manager.Mgr.Chain.{Chain, next_action, next_destination}
use afxdp_path_manager.Routing.{
  packet_read_size, onvm_nf_action_drop, onvm_nf_action_next, onvm_nf_action_tonf,
  onvm_nf_action_out, Meta, NfStats, Dpdk, Env, Switch,
}
use afxdp_path_manager.Routing.Queues.{
  add_tx, count_in, drop_pkt, enqueue_nf, enqueue_port, enqueue_tx_thread, flush_all_nfs,
}

-- The chain of a packet: its flow's, or the default one.
abbrev pub chain_of : Env → ℕ → Chain
chain_of env pkt = elim (env.flow pkt) [ none ↦ env.default_chain | some sc ↦ sc ]

-- `meta->action = onvm_sc_next_action(...); meta->destination = onvm_sc_next_destination(...);`
abbrev pub follow_chain : Env → ℕ → Meta → Option Meta
follow_chain env pkt m = next_action (chain_of env pkt) m.chain_index >>= λ action.
    next_destination (chain_of env pkt) m.chain_index >>= λ destination.
    some (record m { action = action; destination = destination })

-- `(meta->chain_index)++`
abbrev pub next_in_chain : Meta → Meta
next_in_chain m = record m { chain_index = (m.chain_index + 1) % u8_mod }

abbrev pub add_act_drop : ℕ → NfStats → NfStats
add_act_drop n st = record st { act_drop = add_u64 st.act_drop n }

abbrev pub add_act_next : ℕ → NfStats → NfStats
add_act_next n st = record st { act_next = add_u64 st.act_next n }

abbrev pub add_act_tonf : ℕ → NfStats → NfStats
add_act_tonf n st = record st { act_tonf = add_u64 st.act_tonf n }

abbrev pub add_act_out : ℕ → NfStats → NfStats
add_act_out n st = record st { act_out = add_u64 st.act_out n }

-- The actions that onvm_pkt_process_tx_batch knows
abbrev pub is_action : ℕ → Bool
is_action action =
    (action == onvm_nf_action_drop)
    || (action == onvm_nf_action_next)
    || (action == onvm_nf_action_tonf)
    || (action == onvm_nf_action_out)

module _ {D : Dpdk} where
  abbrev pub set_meta : ℕ → Meta → Switch D → Switch D
  set_meta pkt m s = record s { pkt_meta = update s.pkt_meta pkt m }

  -- onvm_pkt_process_rx_batch: one packet
  unfoldable pub rx_packet : Env → ℕ → Switch D → Option (Switch D)
  rx_packet env pkt s =
      follow_chain env pkt (record (s.pkt_meta pkt) { src = 0; chain_index = 0 }) >>= λ m.
      enqueue_nf env m.destination pkt none (set_meta pkt (next_in_chain m) s)

  -- onvm_pkt_process_rx_batch: the loop
  unfoldable pub rx_packets : Env → List ℕ → Switch D → Option (Switch D)
  rx_packets env [] s = some s
  rx_packets env (pkt ∷ pkts) s = rx_packet env pkt s >>= rx_packets env pkts

  -- onvm_pkt_process_rx_batch
  unfoldable pub process_rx_batch : Env → List ℕ → Switch D → Option (Switch D)
  process_rx_batch env pkts s = rx_packets env pkts s >>= λ t. some (flush_all_nfs env none t)

  -- onvm_pkt_process_next_action: the switch on the action. `!onvm_pkt_drop(pkt)` is 0.
  unfoldable pub next_action_of : Env → Meta → ℕ → ℕ → Switch D → Option (Switch D)
  next_action_of env m pkt nf s =
      if m.action == onvm_nf_action_drop
      then some (count_in (add_act_drop 0) (some nf) (drop_pkt pkt s))
      else if m.action == onvm_nf_action_tonf
      then enqueue_nf env m.destination pkt (some nf) (count_in (add_act_tonf 1) (some nf) s)
      else if m.action == onvm_nf_action_out
      then enqueue_port env m.destination pkt (count_in (add_act_out 1) (some nf) s)
      else some s

  -- onvm_pkt_process_next_action, for the NF in slot `nf`. Its last write is to the packet's meta data wherever
  -- the packet is by then.
  unfoldable pub process_next_action : Env → ℕ → ℕ → Switch D → Option (Switch D)
  process_next_action env pkt nf s = follow_chain env pkt (s.pkt_meta pkt) >>= λ m.
      next_action_of env m pkt nf (set_meta pkt m s) >>= λ t.
      some (set_meta pkt (next_in_chain (t.pkt_meta pkt)) t)

  abbrev pub add_to_own_buf : ℕ → Switch D → Switch D
  add_to_own_buf pkt s = record s { to_tx_buf = s.to_tx_buf ++ pkt ∷ [] }

  -- The action OUT in an NF
  unfoldable pub out_of_nf : ℕ → ℕ → Switch D → Option (Switch D)
  out_of_nf pkt nf s =
      let added = add_to_own_buf pkt (count_in (add_act_out 1) (some nf) s) in
      if leb packet_read_size (length s.to_tx_buf)
      then none
      else if length added.to_tx_buf == packet_read_size
      then some (enqueue_tx_thread nf added)
      else some added

  -- onvm_pkt_process_tx_batch: one packet with one of the four actions, whose `src` is set. `!onvm_pkt_drop(pkt)`
  -- is 0.
  unfoldable pub tx_packet : Env → Meta → ℕ → ℕ → Switch D → Option (Switch D)
  tx_packet env m pkt nf s =
      if m.action == onvm_nf_action_drop
      then some
          (count_in (add_tx 0) (some nf) (drop_pkt pkt (count_in (add_act_drop 1) (some nf) s)))
      else if m.action == onvm_nf_action_next
      then process_next_action env pkt nf (count_in (add_act_next 1) (some nf) s)
      else if m.action == onvm_nf_action_tonf
      then enqueue_nf env m.destination pkt (some nf) (count_in (add_act_tonf 1) (some nf) s)
      else if env.is_mgr
      then enqueue_port env m.destination pkt s
      else out_of_nf pkt nf s

  -- onvm_pkt_process_tx_batch, for the NF in slot `nf`; a packet with no valid action ends it.
  unfoldable pub process_tx_batch : Env → List ℕ → ℕ → Switch D → Option (Switch D)
  process_tx_batch env [] nf s = some s
  process_tx_batch env (pkt ∷ pkts) nf s =
      let m = record (s.pkt_meta pkt) { src = (env.mgr.nfs nf).instance_id } in
      let marked = set_meta pkt m s in
      if is_action m.action
      then tx_packet env m pkt nf marked >>= process_tx_batch env pkts nf
      else some (drop_pkt pkt marked)
