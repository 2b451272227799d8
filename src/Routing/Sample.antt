-- ===== src/Routing/Sample.antt =====
-- DPDK with lists for rings, and a switch with one running NF, for the tests.
use afxdp_path_manager.Common.{
  ℕ, zero, suc, ◌+◌, ◌<◌, ◌≡◌, refl, sym, take, drop, take-append-drop, length-take, true, List, [],
  ◌∷◌, ◌++◌, none, some, length, min, get_elem?, ◌==◌, leb, if◌then◌else◌, arith,
}
use afxdp_path_manager.Mgr.Chain.{Entry}
use afxdp_path_manager.Mgr.Chain.Laws.{IsRouted}
use afxdp_path_manager.Mgr.Services.{max_services}
use afxdp_path_manager.Mgr.Services.History.{Reach-IsConsistent}
use afxdp_path_manager.Mgr.Sample.{running, history, empty-IsConsistent, one_hop}
use afxdp_path_manager.Routing.{NfStats, Dpdk, DpdkLaws, Dequeue, DequeueLaws, Env, Switch}
use afxdp_path_manager.Routing.Queues.Account.{HasRoom}
use afxdp_path_manager.Routing.Batch.Paths.{IsSound}

-- The NIC takes 20 packets at a time.
abbrev pub sample_dpdk : Dpdk
sample_dpdk = record {
  Ring = List ℕ;
  Nic = ℕ;
  enqueue_bulk =
      λ r pkts. let room = leb (length r + length pkts) 40 in (room, if room then r ++ pkts else r);
  tx_burst = λ nic port id pkts. (min 20 (length pkts), nic + 1);
  entries = λ r. r;
  capacity = 40;
}

pub sample_laws : DpdkLaws sample_dpdk
sample_laws = record {
  enqueue_taken = λ r pkts e. rw e refl;
  enqueue_refused = λ r pkts e. rw e refl;
  enqueue_room = λ r pkts h. ground (arith, h);
  tx_burst_bound = λ nic port id pkts. omega arith;
}

abbrev pub sample_dequeue : Dequeue sample_dpdk
sample_dequeue = record { dequeue_burst = λ r n. (take n r, drop n r) }

pub sample_dequeue_laws : DequeueLaws sample_dequeue
sample_dequeue_laws = record {
  dequeued = λ r n. sym (take-append-drop n r);
  dequeue_bound = λ r n. omega (arith, length-take n r);
}

-- Port 0 is set up; all packets follow a chain to the service 4, whose NF is in slot 1.
abbrev pub sample_env : Env
sample_env = record {
  mgr = running;
  port_init = λ port. leb port 0;
  port_id = 0 ∷ [];
  flow = λ pkt. none;
  default_chain = one_hop;
  rss = λ pkt. pkt;
  queue_id = 0;
  is_mgr = true;
}

one_hop-hops : (i : ℕ) (e : Entry) → get_elem? one_hop.sc i ≡ some e → e.destination < max_services
one_hop-hops zero e h = ground (arith, h)
one_hop-hops (suc zero) e h = ground (arith, h)
one_hop-hops (suc (suc zero)) e h = ground (arith, h)
one_hop-hops (suc (suc (suc zero))) e h = ground (arith, h)
one_hop-hops (suc (suc (suc (suc i)))) e h = ground (arith, h)

pub one_hop-IsRouted : IsRouted max_services one_hop
one_hop-IsRouted = record {
  chain = record { sized = refl; inside = omega arith };
  hops = one_hop-hops;
}

pub sample_env-IsSound : IsSound sample_env
sample_env-IsSound = record {
  consistent = Reach-IsConsistent empty-IsConsistent history;
  default = one_hop-IsRouted;
  flows = λ pkt c e. ground (arith, e);
  ports = λ port i. ground (arith, i);
}

abbrev no_stats : NfStats
no_stats = record {
  rx = 0;
  rx_drop = 0;
  tx = 0;
  tx_drop = 0;
  act_out = 0;
  act_tonf = 0;
  act_drop = 0;
  act_next = 0;
}

-- Packet 7 waits in front of the NF. Packet 1 is to be sent through port 0, packet 2 through port 3, packet 3
-- dropped; the others follow their chain.
abbrev pub sample : Switch sample_dpdk
sample = record {
  pkt_meta = λ pkt. record {
    action = if pkt == 3 then 0 else if leb pkt 2 then 3 else 1;
    destination = if pkt == 2 then 3 else 0;
    src = 0;
    chain_index = 0;
    flags = 0;
  };
  nf_rx_bufs = λ i. if i == 1 then 7 ∷ [] else [];
  port_tx_bufs = λ i. [];
  to_tx_buf = [];
  rx_q = λ i. [];
  tx_q = λ i. [];
  stats = λ i. no_stats;
  port_rx = λ i. 0;
  port_tx = λ i. 0;
  port_tx_drop = λ i. 0;
  nic = 0;
  sent = [];
  freed = [];
}

pub sample-HasRoom : HasRoom sample
sample-HasRoom = record {
  nf_bufs = λ i. ground arith;
  port_bufs = λ i. omega arith;
  own_buf = omega arith;
}
