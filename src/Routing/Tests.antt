-- ===== src/Routing/Tests.antt =====
-- The theorems on the packet routing (onvm/onvm_nflib/onvm_pkt_common.c, onvm/onvm_mgr/onvm_pkt.c) at concrete
-- batches.
use afxdp_path_manager.Common.{
  ℕ, ◌+◌, ◌≤◌, ◌<◌, ◌≡◌, refl, true, List, [], ◌∷◌, some, length, count, arith, inl,
}
use afxdp_path_manager.Mgr.Chain.{next_action, next_destination}
use afxdp_path_manager.Mgr.Services.{max_nfs, is_valid}
use afxdp_path_manager.Routing.{Switch}
use afxdp_path_manager.Routing.Queues.Account.{HasRoom, held}
use afxdp_path_manager.Routing.Queues.Returns.{Takes}
use afxdp_path_manager.Routing.Batch.{process_rx_batch, process_tx_batch}
use afxdp_path_manager.Routing.Batch.Receive.{Received, process_rx_batch-Received}
use afxdp_path_manager.Routing.Batch.Transmit.{hop_loses, loses, lost}
use afxdp_path_manager.Routing.Batch.Transmit.Account.{Sendable, process_tx_batch-account}
use afxdp_path_manager.Routing.Threads.{rx_round, bursts, rx_round-Takes}
use afxdp_path_manager.Routing.Sample.{
  sample_dpdk, sample_laws, sample_env, sample_env-IsSound, sample, sample-HasRoom,
}

process_rx_batch-Received_example :
    (t : Switch sample_dpdk) × (process_rx_batch sample_env (5 ∷ 6 ∷ []) sample ≡ some t)
    × Received sample_laws sample_env (5 ∷ 6 ∷ []) sample t
    × ((i : ℕ) → i < max_nfs → is_valid (sample_env.mgr.nfs i) ≡ true → length (t.nf_rx_bufs i) ≡ 0)
process_rx_batch-Received_example =
    process_rx_batch-Received sample_laws sample_env (5 ∷ 6 ∷ []) sample sample_env-IsSound
      sample-HasRoom

abbrev batch : List ℕ
batch = 1 ∷ 2 ∷ 3 ∷ 4 ∷ []

batch-once : (q : ℕ) → count q batch ≤ 1
batch-once q = ground arith

batch-Sendable : (q : ℕ) → 0 < count q batch → Sendable sample_env (sample.pkt_meta q)
batch-Sendable q i = (inl refl, ground arith)

process_tx_batch-account_example :
    (t : Switch sample_dpdk) × (process_tx_batch sample_env batch 1 sample ≡ some t)
    × HasRoom t
    × ((a : ℕ)
        → held a t + count a (lost sample_env sample.pkt_meta batch)
          ≡ held a sample + count a batch)
process_tx_batch-account_example =
    process_tx_batch-account sample_laws sample_env batch 1 sample sample_env-IsSound (omega arith)
      batch-once batch-Sendable sample-HasRoom

-- Of that batch the packet for the port that is not set up is lost.
lost-batch : lost sample_env sample.pkt_meta batch ≡ 2 ∷ []
unfolding lost loses hop_loses next_action next_destination
lost-batch = refl

rx_round-Takes_example :
    (t : Switch sample_dpdk) × (rx_round sample_env (λ port. 8 ∷ 9 ∷ []) (0 ∷ []) sample ≡ some t)
    × Takes (bursts (λ port. 8 ∷ 9 ∷ []) (0 ∷ [])) sample t
rx_round-Takes_example =
    rx_round-Takes sample_laws sample_env (λ port. 8 ∷ 9 ∷ []) (0 ∷ []) sample sample_env-IsSound
      (λ port i. ground (arith, i)) sample-HasRoom
