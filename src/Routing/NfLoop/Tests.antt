-- ===== src/Routing/NfLoop/Tests.antt =====
-- The theorems on the NF's loop of onvm/onvm_nflib/onvm_nflib.c, with two packets in front of an NF that keeps one of
-- them.
use afxdp_path_manager.Common.{
  ℕ, ◌+◌, ◌≤◌, ◌<◌, ◌≡◌, refl, true, false, [], ◌∷◌, some, count, if◌then◌else◌, ◌==◌, inl, inr,
  Bool-cases, update, arith,
}
use afxdp_path_manager.Routing.{Meta, Env, Switch}
use afxdp_path_manager.Routing.Queues.Account.{HasRoom, held}
use afxdp_path_manager.Routing.Batch.Paths.{IsSound}
use afxdp_path_manager.Routing.Batch.Transmit.{lost}
use afxdp_path_manager.Routing.Batch.Transmit.Account.{Sendable}
use afxdp_path_manager.Routing.NfLoop.{Dequeued, handle_all, handle, dequeue_packets, nf_pass}
use afxdp_path_manager.Routing.NfLoop.Laws.{nf_pass-account}
use afxdp_path_manager.Routing.Sample.{
  sample_dequeue, sample_dequeue_laws, sample_dpdk, sample_laws, sample_env, sample_env-IsSound,
  sample, sample-HasRoom,
}

-- Both packets are to go out of port 0; the NF keeps packet 6.
abbrev keeps_six : ℕ → Meta → ℕ × Meta
keeps_six pkt m = (if pkt == 6 then 1 else 0, record m { action = 3; destination = 0 })

abbrev waiting : Switch sample_dpdk
waiting = record sample { rx_q = λ i. if i == 1 then 5 ∷ 6 ∷ [] else [] }

waiting-HasRoom : HasRoom waiting
waiting-HasRoom = record {
  nf_bufs = sample-HasRoom.nf_bufs;
  port_bufs = sample-HasRoom.port_bufs;
  own_buf = sample-HasRoom.own_buf;
}

abbrev nf_env : Env
nf_env = record sample_env { is_mgr = false }

nf_env-IsSound : IsSound nf_env
nf_env-IsSound = record {
  consistent = sample_env-IsSound.consistent;
  default = sample_env-IsSound.default;
  flows = sample_env-IsSound.flows;
  ports = sample_env-IsSound.ports;
}

abbrev taken : Dequeued sample_dpdk
taken = dequeue_packets sample_dequeue true 1 keeps_six 0 waiting

taken_once : (q : ℕ) → count q taken.batch ≤ 1
unfolding dequeue_packets
taken_once q = ground arith

taken-Sendable : (q : ℕ) → 0 < count q taken.batch → Sendable nf_env (taken.switch.pkt_meta q)
unfolding dequeue_packets handle_all handle
taken-Sendable q i = elim (Bool-cases (q == 6)) [
  | inl e ↦ rw (update, e) (inr (omega arith), omega arith)
  | inr e ↦
      let five : (q == 5) ≡ true = ground (arith, i, e) in
      rw (update, e, five) (inr (omega arith), omega arith)
]

nf_pass-account_example :
    (t : Dequeued sample_dpdk) × (nf_pass sample_dequeue nf_env 1 keeps_six 0 waiting ≡ some t)
    × HasRoom t.switch
    × ((a : ℕ)
        → held a t.switch + count a (lost nf_env taken.switch.pkt_meta taken.batch)
          ≡ held a waiting)
nf_pass-account_example =
    nf_pass-account sample_laws sample_dequeue_laws nf_env 1 0 keeps_six waiting nf_env-IsSound
      (omega arith) waiting-HasRoom taken_once taken-Sendable

-- The packet that the NF keeps is routed too.
kept_six : taken.kept ≡ 6 ∷ []
unfolding dequeue_packets handle_all handle
kept_six = refl

routed_six : taken.batch ≡ 5 ∷ 6 ∷ []
unfolding dequeue_packets handle_all handle
routed_six = refl
