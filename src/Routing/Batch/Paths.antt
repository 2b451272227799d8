-- ===== src/Routing/Batch/Paths.antt =====
-- What the chains tell a packet: with chains inside their arrays whose hops name services or ports that exist, the
-- next hop of a packet is defined at every index.
use afxdp_path_manager.Common.{ℕ, ◌<◌, ◌≡◌, refl, some, Option-cases, inl, inr, arith, count}
use afxdp_path_manager.Mgr.Chain.{Chain}
use afxdp_path_manager.Mgr.Chain.Laws.{IsRouted, next_hop_defined}
use afxdp_path_manager.Mgr.Services.{max_services}
use afxdp_path_manager.Mgr.Services.History.{IsConsistent}
use afxdp_path_manager.Routing.{rte_max_ethports, Meta, Env}
use afxdp_path_manager.Routing.Batch.{chain_of, follow_chain}

-- The surroundings in which batches are processed; there are as many services as ports
pub record IsSound (env : Env) : Type 0 where
  pub consistent : IsConsistent env.mgr
  pub default : IsRouted max_services env.default_chain
  pub flows : (pkt : ℕ) (c : Chain) → env.flow pkt ≡ some c → IsRouted max_services c
  pub ports : (port : ℕ) → 0 < count port env.port_id → port < rte_max_ethports

chain_of-IsRouted : (env : Env) (pkt : ℕ) → IsSound env → IsRouted max_services (chain_of env pkt)
chain_of-IsRouted env pkt v = elim (Option-cases (env.flow pkt)) [
  | inl e ↦ rw (chain_of, e) v.default
  | inr (c, e) ↦ rw (chain_of, e) (v.flows pkt c e)
]

-- What onvm_sc_next_action and onvm_sc_next_destination give for a packet
pub follow_chain-defined :
    (env : Env) (pkt : ℕ) (m : Meta)
    → IsSound env
    → (n : Meta) × (follow_chain env pkt m ≡ some n) × (n.destination < max_services)
follow_chain-defined env pkt m v =
    let (action, destination, a, d, h) =
      next_hop_defined max_services (chain_of env pkt) m.chain_index (omega arith)
        (chain_of-IsRouted env pkt v) in
    (record m { action = action; destination = destination }, rw (a, d) refl, h)
