-- ===== src/Nflib/Loop/Tests.antt =====
-- The theorem on onvm_nflib_thread_main_loop of onvm/onvm_nflib/onvm_nflib.c, with an NF in slot 1.
use afxdp_path_manager.Common.{
  ℕ, ◌≤◌, ◌≡◌, refl, true, false, [], ◌∷◌, none, ◌==◌, if◌then◌else◌, arith, count, total-single,
  total-none, inr,
}
use afxdp_path_manager.Mgr.Services.{max_nfs}
use afxdp_path_manager.Routing.{rte_max_ethports, Meta, Switch}
use afxdp_path_manager.Routing.Sample.{
  sample_dequeue, sample_dequeue_laws, sample_dpdk, sample_laws, sample_env, sample_env-IsSound,
  sample, sample-HasRoom,
}
use afxdp_path_manager.Nflib.{returns}
use afxdp_path_manager.Nflib.Loop.{
  msg_noop, msg_stop, msg_from_nf, Running, NfEnv, thread_main_loop,
}
use afxdp_path_manager.Nflib.Loop.Laws.{at_head, behind}
use afxdp_path_manager.Nflib.Loop.Packets.{SendsWell, IsOrderly, thread_main_loop-IsOrderly}
use afxdp_path_manager.Routing.Batch.Paths.{IsSound}
use afxdp_path_manager.Routing.Queues.Account.{held}
use afxdp_path_manager.Nflib.Sample.{before}

-- Two packets in front of the NF, which drops all that it gets, and a message to stop behind another one
abbrev drops : ℕ → Meta → ℕ × Meta
drops pkt m = (0, record m { action = 0; destination = 0 })

abbrev nf_env : NfEnv sample_dpdk
nf_env = record {
  nf = 1;
  env = record sample_env { is_mgr = false };
  pkt_handler = drops;
  has_msg_handler = true;
  user_actions = none;
  time_to_live = 0;
  pkt_limit = 0;
  share_cores = true;
  timer_hz = 1000;
  start_time = 0;
  tsc_cycles = λ round. round;
  main_keep_running = λ round. true;
  woken = λ round. false;
  others = λ round. (msg_noop ∷ [], λ s. s);
}

abbrev two_packets : Switch sample_dpdk
two_packets = record sample { nf_rx_bufs = λ i. []; rx_q = λ i. if i == 1 then 5 ∷ 6 ∷ [] else [] }

two_packets-IsOrderly : IsOrderly sample_laws sample_dequeue_laws two_packets
unfolding held
two_packets-IsOrderly = record {
  room = record {
    nf_bufs = λ i. omega arith;
    port_bufs = sample-HasRoom.port_bufs;
    own_buf = sample-HasRoom.own_buf;
  };
  once = λ q.
      let in_front =
        total-single max_nfs (λ i. count q (if i == 1 then 5 ∷ 6 ∷ [] else [])) 1 (omega arith)
          (λ i ne. let other : (i == 1) ≡ false = ground (arith, ne) in rw other refl) in
      let no_nfs = total-none max_nfs (λ i. 0) (λ i l. refl) in
      let no_ports = total-none rte_max_ethports (λ i. 0) (λ i l. refl) in
      let few : count q (5 ∷ 6 ∷ []) ≤ 1 = ground arith in
      omega (arith, in_front, no_nfs, no_ports, few);
}

abbrev looping : Running sample_dpdk
looping = record {
  keep_running = true;
  core = 3;
  affinity = 3;
  msg_q = msg_from_nf 50 ∷ msg_stop ∷ [];
  received = [];
  freed = [];
  msgs_back = 0;
  process = before;
  switch = two_packets;
  tx_buffer = 0;
}

own_env-IsSound : IsSound nf_env.env
own_env-IsSound = record {
  consistent = sample_env-IsSound.consistent;
  default = sample_env-IsSound.default;
  flows = sample_env-IsSound.flows;
  ports = sample_env-IsSound.ports;
}

drops-well : SendsWell nf_env.env drops
drops-well pkt m = (inr (ground arith), omega arith)

thread_main_loop-IsOrderly_example :
    (s : Running sample_dpdk) × (thread_main_loop sample_dequeue 3 nf_env 0 looping ≡ returns s)
    × IsOrderly sample_laws sample_dequeue_laws s.switch
thread_main_loop-IsOrderly_example =
    thread_main_loop-IsOrderly sample_laws sample_dequeue_laws nf_env 1 0 3 looping own_env-IsSound
      (omega arith) drops-well (λ round s o. o) two_packets-IsOrderly (behind at_head) (omega arith)
