-- ===== src/Nflib/Loop/Packets.antt =====
-- The packets of an NF through the whole of onvm_nflib_thread_main_loop of onvm/onvm_nflib/onvm_nflib.c.
use afxdp_path_manager.Common.{
  ℕ, suc, ◌≤◌, ◌<◌, ◌≡◌, ◌⊎◌, refl, sym, subst, inl, inr, true, List, [], ◌∷◌, length, count, some,
  ◌==◌, Bool-cases, arith, update,
}
use afxdp_path_manager.Mgr.Services.{max_nfs}
use afxdp_path_manager.Routing.{
  Meta, Dpdk, DpdkLaws, Dequeue, DequeueLaws, Env, Switch, packet_read_size,
}
use afxdp_path_manager.Routing.Queues.Account.{HasRoom, held}
use afxdp_path_manager.Routing.Batch.Paths.{IsSound}
use afxdp_path_manager.Routing.Batch.Transmit.Account.{Sendable}
use afxdp_path_manager.Routing.NfLoop.{
  Handled, Dequeued, handle, handle_all, dequeue_packets, nf_pass,
}
use afxdp_path_manager.Routing.NfLoop.Laws.{dequeue_packets-batch, nf_pass-account}
use afxdp_path_manager.Nflib.{returns}
use afxdp_path_manager.Nflib.Loop.{Running, NfEnv, thread_main_loop}
use afxdp_path_manager.Nflib.Loop.Laws.{StopsAfter, IsKept, thread_main_loop-stops}

-- The NF's function sends each packet to a service or port that exists, by an action that it may use.
abbrev pub SendsWell : Env → (ℕ → Meta → ℕ × Meta) → Type 0
SendsWell env handler = (pkt : ℕ) (m : Meta) → Sendable env (handler pkt m).1

handle-metas :
    (handler : ℕ → Meta → ℕ × Meta) (pkt : ℕ) (h : Handled)
    → (handle handler pkt h).metas ≡ update h.metas pkt (handler pkt (h.metas pkt)).1
unfolding handle
handle-metas handler pkt h = elim (Bool-cases ((handler pkt (h.metas pkt)).0 == 0)) [
  | inl e ↦ rw e refl
  | inr e ↦ rw e refl
]

handle-Sendable :
    (env : Env) (handler : ℕ → Meta → ℕ × Meta) (pkt q : ℕ) (h : Handled)
    → SendsWell env handler
    → (q ≡ pkt) ⊎ Sendable env (h.metas q)
    → Sendable env ((handle handler pkt h).metas q)
handle-Sendable env handler pkt q h well known =
    subst (λ metas. Sendable env (metas q)) (sym (handle-metas handler pkt h))
      (elim (Bool-cases (q == pkt)) [
        | inl e ↦ rw e (well pkt (h.metas pkt))
        | inr e ↦
            rw e (elim known [ inl same ↦ absurd (ground (arith, e, same)) | inr fine ↦ fine ])
      ])

handle_all-Sendable :
    (env : Env) (handler : ℕ → Meta → ℕ × Meta) (pkts : List ℕ) (q : ℕ) (h : Handled)
    → SendsWell env handler
    → (0 < count q pkts) ⊎ Sendable env (h.metas q)
    → Sendable env ((handle_all handler pkts h).metas q)
unfolding handle_all
handle_all-Sendable env handler [] q h well known = elim known [
  | inl none_there ↦ absurd (ground (arith, none_there))
  | inr fine ↦ fine
]
handle_all-Sendable env handler (pkt ∷ pkts) q h well known =
    handle_all-Sendable env handler pkts q (handle handler pkt h) well
      (elim (Bool-cases (q == pkt)) [
        | inl e ↦ inr (handle-Sendable env handler pkt q h well (inl (ground (arith, e))))
        | inr e ↦ elim known [
          | inl there ↦ inl (ground (arith, e, there))
          | inr fine ↦ inr (handle-Sendable env handler pkt q h well (inr fine))
        ]
      ])

module _ {D : Dpdk} (L : DpdkLaws D) {Q : Dequeue D} (V : DequeueLaws Q) where
  dequeue_packets-Sendable :
      (env : Env) (nf tx_buffer : ℕ) (handler : ℕ → Meta → ℕ × Meta) (s : Switch D)
      → SendsWell env handler
      → let r = dequeue_packets Q true nf handler tx_buffer s in
        (q : ℕ) → 0 < count q r.batch → Sendable env (r.switch.pkt_meta q)
  unfolding dequeue_packets
  dequeue_packets-Sendable env nf tx_buffer handler s well q =
      let pkts = (Q.dequeue_burst (s.rx_q nf) packet_read_size).0 in
      let fresh : Handled = record {
        tx_buf = [];
        kept = [];
        metas = s.pkt_meta;
        tx_buffer = tx_buffer;
      } in
      elim (Bool-cases (length pkts == 0)) [
        | inl e ↦ rw e (λ there. absurd (ground (arith, there)))
        | inr e ↦ rw e (λ there. handle_all-Sendable env handler pkts q fresh well (inl there))
      ]

  -- No buffer is full, and no packet is twice in the buffers and rings, sent or freed.
  pub record IsOrderly (s : Switch D) : Type 0 where
    pub room : HasRoom s
    pub once : (q : ℕ) → held q s ≤ 1

  -- A pass of the NF's loop keeps this, and is defined.
  nf_pass-IsOrderly :
      (env : Env) (nf tx_buffer : ℕ) (handler : ℕ → Meta → ℕ × Meta) (s : Switch D)
      → IsSound env
      → nf < max_nfs
      → SendsWell env handler
      → IsOrderly s
      → (d : Dequeued D) × (nf_pass Q env nf handler tx_buffer s ≡ some d) × IsOrderly d.switch
  nf_pass-IsOrderly env nf tx_buffer handler s sound h well o =
      let r = dequeue_packets Q true nf handler tx_buffer s in
      let (room, account, kept) = dequeue_packets-batch L V nf tx_buffer handler s h o.room in
      let (d, is, room', account') =
        nf_pass-account L V env nf tx_buffer handler s sound h o.room
          (λ q. omega (arith, account q, o.once q))
          (dequeue_packets-Sendable env nf tx_buffer handler s well) in
      (d, is, record { room = room'; once = λ q. omega (arith, account' q, o.once q) })

  -- Let no buffer be full and no packet be anywhere twice, and let the other threads keep this. Let the NF's function
  -- send each packet to a service or port that exists, and let a message to stop stand in the NF's queue behind
  -- `n` others. Then, whatever comes in and whatever else the queue holds, onvm_nflib_thread_main_loop
  -- returns after at most `n + 1` rounds without an access out of bounds, and still no buffer is full and no packet
  -- anywhere twice.
  pub thread_main_loop-IsOrderly :
      (e : NfEnv D) (n round rounds : ℕ) (r : Running D)
      → IsSound e.env
      → e.nf < max_nfs
      → SendsWell e.env e.pkt_handler
      → ((round : ℕ) (s : Switch D) → IsOrderly s → IsOrderly ((e.others round).1 s))
      → IsOrderly r.switch
      → StopsAfter n r.msg_q
      → suc n < rounds
      → (s : Running D) × (thread_main_loop Q rounds e round r ≡ returns s) × IsOrderly s.switch
  thread_main_loop-IsOrderly e n round rounds r sound h well kept o stops enough =
      let keeps : IsKept Q e IsOrderly = record {
        pass =
            λ s tx_buffer p. nf_pass-IsOrderly e.env e.nf tx_buffer e.pkt_handler s sound h well p;
        others = kept;
      } in
      thread_main_loop-stops Q e IsOrderly keeps n round rounds r o stops enough
