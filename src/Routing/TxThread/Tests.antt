-- ===== src/Routing/TxThread/Tests.antt =====
-- The theorem on a round of the TX thread of onvm/onvm_mgr/main.c, with three packets that an NF has sent.
use afxdp_path_manager.Common.{
  ℕ, ◌+◌, ◌≡◌, refl, [], ◌∷◌, some, count, if◌then◌else◌, ◌==◌, total-single, arith,
}
use afxdp_path_manager.Mgr.Services.{max_nfs}
use afxdp_path_manager.Mgr.Threads.{Range}
use afxdp_path_manager.Routing.{Switch}
use afxdp_path_manager.Routing.Queues.Account.{HasRoom, held}
use afxdp_path_manager.Routing.TxThread.{tx_round}
use afxdp_path_manager.Routing.TxThread.Burst.{waiting, IsWaiting}
use afxdp_path_manager.Routing.TxThread.Laws.{round_lost, tx_round-account}
use afxdp_path_manager.Routing.Sample.{
  sample_dpdk, sample_laws, sample_dequeue, sample_dequeue_laws, sample_env, sample_env-IsSound,
  sample, sample-HasRoom,
}

-- Packet 1 is to go out of port 0, packet 2 of a port that is not set up, and packet 3 is to be dropped.
abbrev sending : Switch sample_dpdk
sending = record sample { tx_q = λ i. if i == 1 then 1 ∷ 2 ∷ 3 ∷ [] else [] }

sending-HasRoom : HasRoom sending
sending-HasRoom = record {
  nf_bufs = sample-HasRoom.nf_bufs;
  port_bufs = sample-HasRoom.port_bufs;
  own_buf = sample-HasRoom.own_buf;
}

sending-IsWaiting : IsWaiting sending
unfolding waiting
sending-IsWaiting = record {
  once = λ a.
      let one =
        total-single max_nfs (λ i. count a (if i == 1 then 1 ∷ 2 ∷ 3 ∷ [] else [])) 1 (omega arith)
          (λ i z. ground (arith, z)) in
      ground (arith, one);
  known = λ i a h k. ground arith;
}

abbrev all_nfs : Range
all_nfs = record { first_nf = 1; last_nf = 128 }

tx_round-account_example :
    (t : Switch sample_dpdk) × (tx_round sample_dequeue sample_env all_nfs sending ≡ some t)
    × HasRoom t
    × ((a : ℕ)
        → held a t + count a (round_lost sample_dequeue sample_env 127 1 sending) ≡ held a sending)
tx_round-account_example =
    tx_round-account sample_dequeue_laws sample_laws sample_env all_nfs sending sample_env-IsSound
      refl (omega arith) (omega arith) sending-IsWaiting sending-HasRoom
