-- ===== src/Routing/Threads.antt =====
-- A round of the RX thread of onvm/onvm_mgr/main.c: a burst from each port goes to the NFs, or is dropped while no
-- NF is there.
use afxdp_path_manager.Common.{
  ℕ, ◌≡◌, ◌<◌, refl, ap, ◌∙◌, false, List, [], ◌∷◌, ◌++◌, Option, none, some, length, count, leb,
  ◌==◌, if◌then◌else◌, Bool-cases, inl, inr, add_u64, update, arith, ◌>>=◌, count-append,
}
use afxdp_path_manager.Routing.{rte_max_ethports, Dpdk, DpdkLaws, Env, Switch}
use afxdp_path_manager.Routing.Queues.{drop_batch}
use afxdp_path_manager.Routing.Queues.Account.{drop_batch_lem, HasRoom, held}
use afxdp_path_manager.Routing.Queues.Returns.{Takes, Takes-none, Takes-trans}
use afxdp_path_manager.Routing.Batch.{process_rx_batch}
use afxdp_path_manager.Routing.Batch.Paths.{IsSound}
use afxdp_path_manager.Routing.Batch.Receive.{process_rx_batch-Received}

module _ {D : Dpdk} where
  -- The body of the loop over the ports, for a burst of a port
  unfoldable pub rx_port : Env → ℕ → List ℕ → Switch D → Option (Switch D)
  unfolding drop_batch process_rx_batch
  rx_port env port pkts s =
      let counted : Switch D = record s {
        port_rx = update s.port_rx port (add_u64 (s.port_rx port) (length pkts));
      } in
      if leb rte_max_ethports port
      then none
      else if length pkts == 0
      then some counted
      else if env.mgr.num_nfs == 0
      then some (drop_batch pkts counted)
      else process_rx_batch env pkts counted

  -- The loop over the ports; `burst` is what rte_eth_rx_burst answers on each.
  unfoldable pub rx_round : Env → (ℕ → List ℕ) → List ℕ → Switch D → Option (Switch D)
  unfolding rx_port
  rx_round env burst [] s = some s
  rx_round env burst (port ∷ ports) s = rx_port env port (burst port) s >>= rx_round env burst ports

-- The packets of all bursts
pub bursts : (ℕ → List ℕ) → List ℕ → List ℕ
bursts burst [] = []
bursts burst (port ∷ ports) = burst port ++ bursts burst ports

length_zero : (pkts : List ℕ) → length pkts ≡ 0 → pkts ≡ []
length_zero [] e = refl
length_zero (pkt ∷ pkts) e = absurd (omega arith)

module _ {D : Dpdk} (L : DpdkLaws D) where
  rx_port-Takes :
      (env : Env) (port : ℕ) (pkts : List ℕ) (s : Switch D)
      → IsSound env
      → port < rte_max_ethports
      → HasRoom s
      → (t : Switch D) × (rx_port env port pkts s ≡ some t) × Takes pkts s t
  unfolding rx_port held
  rx_port-Takes env port pkts s v h room =
      let counted : Switch D = record s {
        port_rx = update s.port_rx port (add_u64 (s.port_rx port) (length pkts));
      } in
      let room' : HasRoom counted = record {
        nf_bufs = room.nf_bufs;
        port_bufs = room.port_bufs;
        own_buf = room.own_buf;
      } in
      let known : leb rte_max_ethports port ≡ false = ground (arith, h) in
      elim (Bool-cases (length pkts == 0)) [
        | inl e ↦ (
          counted,
          rw (known, e) refl,
          record {
            account =
                λ a. let none_in = length_zero pkts (ground (arith, e)) in rw none_in (omega arith);
            room = room';
          },
        )
        | inr e ↦ elim (Bool-cases (env.mgr.num_nfs == 0)) [
          | inl f ↦ (
            drop_batch pkts counted,
            rw (known, e, f) refl,
            rw (drop_batch_lem pkts counted) (record {
              account = λ a. omega (arith, count-append a s.freed pkts);
              room = record {
                nf_bufs = room.nf_bufs;
                port_bufs = room.port_bufs;
                own_buf = room.own_buf;
              };
            }),
          )
          | inr f ↦
              let (t, g, received, emptied) =
                process_rx_batch-Received L env pkts counted v room' in
              (
                t,
                rw (known, e, f) g,
                record { account = received.takes.account; room = received.takes.room },
              )
        ]
      ]

  -- In sound surroundings a round of the RX thread accesses no array out of bounds, whatever packets come in: each of
  -- them, and each older one, is once in a buffer or ring, sent, or freed, and no buffer is full.
  pub rx_round-Takes :
      (env : Env) (burst : ℕ → List ℕ) (ports : List ℕ) (s : Switch D)
      → IsSound env
      → ((port : ℕ) → 0 < count port ports → port < rte_max_ethports)
      → HasRoom s
      → (t : Switch D) × (rx_round env burst ports s ≡ some t) × Takes (bursts burst ports) s t
  unfolding rx_round bursts
  rx_round-Takes env burst [] s v h room = (s, refl, Takes-none room)
  rx_round-Takes env burst (port ∷ ports) s v h room =
      let (t, e, first) = rx_port-Takes env port (burst port) s v (h port (ground arith)) room in
      let (u, f, others) =
        rx_round-Takes env burst ports t v (λ p i. h p (ground (arith, i))) first.room in
      (u, ap (λ o. o >>= rx_round env burst ports) e ∙ f, Takes-trans first others)
