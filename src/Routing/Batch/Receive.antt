-- ===== src/Routing/Batch/Receive.antt =====
-- onvm_pkt_process_rx_batch: no packet of the batch is lost, each NF gets its packets in order, and no packet
-- waits in the buffer of an NF that runs.
use afxdp_path_manager.Common.{
  ℕ, ◌≡◌, ◌<◌, refl, sym, ap, ◌∙◌, subst, true, List, [], ◌∷◌, ◌++◌, append-nil, none, some, length,
  ◌==◌, if◌then◌else◌, arith, ◌>>=◌,
}
use afxdp_path_manager.Mgr.Chain.{next_destination}
use afxdp_path_manager.Mgr.Services.{max_nfs, is_valid, service_to_nf_map}
use afxdp_path_manager.Routing.{Meta, Dpdk, DpdkLaws, Env, Switch}
use afxdp_path_manager.Routing.Queues.{flush_nfs, enqueue_nf}
use afxdp_path_manager.Routing.Queues.Account.{HasRoom, held, held-flush_nfs}
use afxdp_path_manager.Routing.Queues.Room.{flush_nfs-HasRoom, flush_nfs-bufs}
use afxdp_path_manager.Routing.Queues.Returns.{Takes, Takes-trans, Takes-none, enqueue_nf-Takes}
use afxdp_path_manager.Routing.Queues.Order.{
  InOrder, InOrder-refl, InOrder-trans, flush_nfs-InOrder, enqueue_nf-InOrder,
}
use afxdp_path_manager.Routing.Batch.{
  chain_of, follow_chain, next_in_chain, set_meta, rx_packet, rx_packets, process_rx_batch,
}
use afxdp_path_manager.Routing.Batch.Paths.{IsSound, follow_chain-defined}

-- The service that the first hop of a packet's chain names
pub first_service : Env → ℕ → ℕ
first_service env pkt = elim (next_destination (chain_of env pkt) 0) [ none ↦ 0 | some d ↦ d ]

-- The packets of a batch that are for the NF in slot `i`
pub for_nf : Env → ℕ → List ℕ → List ℕ
unfolding first_service
for_nf env i [] = []
for_nf env i (pkt ∷ pkts) =
    (if service_to_nf_map (first_service env pkt) (env.rss pkt) env.mgr == i then pkt ∷ [] else [])
    ++ for_nf env i pkts

module _ {D : Dpdk} (L : DpdkLaws D) where
  -- The packets came in, and each NF gets its own in order.
  pub record Received (env : Env) (pkts : List ℕ) (s t : Switch D) : Type 0 where
    pub takes : Takes pkts s t
    pub order : (i : ℕ) → InOrder env (for_nf env i pkts) i s t

  first_service-follow :
      (env : Env) (pkt : ℕ) (m n : Meta)
      → m.chain_index ≡ 0
      → follow_chain env pkt m ≡ some n
      → first_service env pkt ≡ n.destination
  unfolding first_service
  first_service-follow env pkt m n z e = ground (arith, e, z)

  rx_packet-Received :
      (env : Env) (pkt : ℕ) (s : Switch D)
      → IsSound env
      → HasRoom s
      → (t : Switch D) × (rx_packet env pkt s ≡ some t) × Received env (pkt ∷ []) s t
  unfolding rx_packet for_nf held
  rx_packet-Received env pkt s v room =
      let fresh : Meta = record (s.pkt_meta pkt) { src = 0; chain_index = 0 } in
      let (m, followed, known) = follow_chain-defined env pkt fresh v in
      let marked = set_meta pkt (next_in_chain m) s in
      let (t, e, takes) =
        enqueue_nf-Takes L env m.destination pkt none marked v.consistent known
          (record { nf_bufs = room.nf_bufs; port_bufs = room.port_bufs; own_buf = room.own_buf }) in
      let first = first_service-follow env pkt fresh m refl followed in
      (
        t,
        ap
              (λ o.
                o >>= λ n. enqueue_nf env n.destination pkt none (set_meta pkt (next_in_chain n) s))
              followed
            ∙ e,
        record {
          takes = record { account = takes.account; room = takes.room };
          order = λ i.
              subst (λ l. InOrder env l i s t) (sym (append-nil _))
                (rw first (
                  let o = enqueue_nf-InOrder L env m.destination pkt i none marked t e in
                  record { sub = o.sub; exact = o.exact }));
        },
      )

  for_nf-append :
      (env : Env) (i pkt : ℕ) (pkts : List ℕ)
      → for_nf env i (pkt ∷ []) ++ for_nf env i pkts ≡ for_nf env i (pkt ∷ pkts)
  unfolding for_nf
  for_nf-append env i pkt pkts = ap (λ l. l ++ for_nf env i pkts) (append-nil _)

  rx_packets-Received :
      (env : Env) (pkts : List ℕ) (s : Switch D)
      → IsSound env
      → HasRoom s
      → (t : Switch D) × (rx_packets env pkts s ≡ some t) × Received env pkts s t
  unfolding rx_packets for_nf
  rx_packets-Received env [] s v room =
      (s, refl, record { takes = Takes-none room; order = λ i. InOrder-refl env i s })
  rx_packets-Received env (pkt ∷ pkts) s v room =
      let (t, e, first) = rx_packet-Received env pkt s v room in
      let (u, f, others) = rx_packets-Received env pkts t v first.takes.room in
      (
        u,
        ap (λ o. o >>= rx_packets env pkts) e ∙ f,
        record {
          takes = Takes-trans first.takes others.takes;
          order = λ i.
              subst (λ l. InOrder env l i s u) (for_nf-append env i pkt pkts)
                (InOrder-trans (first.order i) (others.order i));
        },
      )

  -- In sound surroundings and with room in the buffers, onvm_pkt_process_rx_batch accesses no array out of
  -- bounds. Each packet of the batch and each older one is once in a buffer or ring, sent, or freed; what each NF
  -- gets is its older packets and behind them those of the batch whose first hop is a service that the
  -- map answers with the NF, in order, less those dropped, and all of them if
  -- the NF runs and its ring has room; no packet waits in the buffer of an NF that
  -- runs, and no buffer is full.
  pub process_rx_batch-Received :
      (env : Env) (pkts : List ℕ) (s : Switch D)
      → IsSound env
      → HasRoom s
      → (t : Switch D) × (process_rx_batch env pkts s ≡ some t)
        × Received env pkts s t
        × ((i : ℕ) → i < max_nfs → is_valid (env.mgr.nfs i) ≡ true → length (t.nf_rx_bufs i) ≡ 0)
  unfolding process_rx_batch
  process_rx_batch-Received env pkts s v room =
      let (t, e, r) = rx_packets-Received env pkts s v room in
      let u = flush_nfs env none max_nfs 0 t in
      (
        u,
        ap (λ o. o >>= λ n. some (flush_nfs env none max_nfs 0 n)) e,
        record {
          takes = record {
            account =
                λ a. held-flush_nfs L env a none max_nfs 0 t (omega arith) ∙ r.takes.account a;
            room = flush_nfs-HasRoom env none max_nfs 0 t r.takes.room;
          };
          order = λ i.
              subst (λ l. InOrder env l i s u) (append-nil (for_nf env i pkts))
                (InOrder-trans (r.order i) (flush_nfs-InOrder L env i none max_nfs 0 t));
        },
        λ i h running. ground (arith, flush_nfs-bufs env none max_nfs 0 i t, h, running),
      )
