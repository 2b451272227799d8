-- ===== src/Routing/Queues/Account.antt =====
-- The whereabouts of packets: each operation on the buffers of onvm/onvm_nflib/onvm_pkt_common.c keeps every
-- packet just once in a buffer or ring, sent, or freed, and leaves room in the buffers.
use afxdp_path_manager.Common.{
  ℕ, zero, suc, ◌+◌, ◌≤◌, ◌<◌, ◌≡◌, ◌≢◌, refl, sym, ap, ◌∙◌, true, false, not, List, [], ◌∷◌, ◌++◌,
  Option, some, length, take, take_all, drop, count, count-append, count-take-drop, append_assoc,
  append-nil, update, total, total-update, ◌==◌, Bool-cases, ◌⊎◌, inl, inr, arith, ltb, ◌||◌,
}
use afxdp_path_manager.Mgr.Services.{max_nfs, is_valid}
use afxdp_path_manager.Routing.{packet_read_size, rte_max_ethports, Dpdk, DpdkLaws, Env, Switch}
use afxdp_path_manager.Routing.Queues.{
  drop_batch, nf_queue_refused, nf_queue_taken, clear_nf_buf, count_in, add_tx_drop, add_rx_drop,
  flush_nf_queue, flush_nfs, buffer_nf, send_port, add_to_nf_buf,
}

module _ {D : Dpdk} where
  pub drop_batch_lem :
      (pkts : List ℕ) (s : Switch D) → drop_batch pkts s ≡ record s { freed = s.freed ++ pkts }
  unfolding drop_batch
  drop_batch_lem [] s = ap (λ l. record s { freed = l }) (sym (append-nil s.freed))
  drop_batch_lem (pkt ∷ pkts) s =
      drop_batch_lem pkts (record s { freed = s.freed ++ pkt ∷ [] })
      ∙ ap (λ l. record s { freed = l }) (append_assoc s.freed (pkt ∷ []) pkts)

  -- What a flush of an NF's buffer comes to
  pub flush_nf_queue-cases {ℓ} :
      (env : Env) (id : ℕ) (source : Option ℕ) (s : Switch D) (P : Switch D → Type ℓ)
      → let buf = s.nf_rx_bufs id in
        let ring = (D.enqueue_bulk (s.rx_q id) buf).1 in
        ((length buf ≡ 0) ⊎ (is_valid (env.mgr.nfs id) ≡ false) → P s)
        → (length buf ≢ 0
            → is_valid (env.mgr.nfs id) ≡ true
            → (D.enqueue_bulk (s.rx_q id) buf).0 ≡ true
            → P (clear_nf_buf id (nf_queue_taken id buf ring source s)))
        → (length buf ≢ 0
            → is_valid (env.mgr.nfs id) ≡ true
            → (D.enqueue_bulk (s.rx_q id) buf).0 ≡ false
            → P (
                clear_nf_buf id (
                  count_in (add_tx_drop (length buf)) source (
                    count_in
                      (add_rx_drop (length buf))
                      (some id)
                      (record s { rx_q = update s.rx_q id ring; freed = s.freed ++ buf })))))
        → P (flush_nf_queue env id source s)
  unfolding flush_nf_queue
  flush_nf_queue-cases env id source s P stays taken refused =
      let buf = s.nf_rx_bufs id in
      let ring = (D.enqueue_bulk (s.rx_q id) buf).1 in
      elim (Bool-cases ((length buf == 0) || not (is_valid (env.mgr.nfs id)))) [
        | inl e ↦ rw e (stays (ground (arith, e)))
        | inr e ↦
            let some_in : length buf ≢ 0 = ground (arith, e) in
            let valid : is_valid (env.mgr.nfs id) ≡ true = ground (arith, e) in
            elim (Bool-cases (D.enqueue_bulk (s.rx_q id) buf).0) [
              | inl t ↦ rw (e, t) (taken some_in valid t)
              | inr f ↦
                  rw
                    (
                      e,
                      f,
                      nf_queue_refused,
                      drop_batch_lem buf (record s { rx_q = update s.rx_q id ring }),
                    )
                    (refused some_in valid f)
            ]
      ]

  -- How often a packet stands in the NFs' buffers and rings, in the ports' buffers and in an NF's own, and among
  -- the packets that were sent or freed.
  unfoldable pub held : ℕ → Switch D → ℕ
  held a s =
      total max_nfs (λ i. count a (s.nf_rx_bufs i))
      + total max_nfs (λ i. count a (D.entries (s.rx_q i)))
      + total max_nfs (λ i. count a (D.entries (s.tx_q i)))
      + total rte_max_ethports (λ i. count a (s.port_tx_bufs i))
      + count a s.to_tx_buf
      + count a s.sent
      + count a s.freed

  -- No buffer is full.
  pub record HasRoom (s : Switch D) : Type 0 where
    pub nf_bufs : (i : ℕ) → length (s.nf_rx_bufs i) < packet_read_size
    pub port_bufs : (i : ℕ) → length (s.port_tx_bufs i) < packet_read_size
    pub own_buf : length s.to_tx_buf < packet_read_size

module _ {D : Dpdk} (L : DpdkLaws D) where
  -- Flushing an NF's buffer
  pub held-flush_nf_queue :
      (env : Env) (a id : ℕ) (source : Option ℕ) (s : Switch D)
      → id < max_nfs
      → held a (flush_nf_queue env id source s) ≡ held a s
  unfolding held
  held-flush_nf_queue env a id source s h =
      let buf = s.nf_rx_bufs id in
      let ring = (D.enqueue_bulk (s.rx_q id) buf).1 in
      let moved = total-update (λ r. count a (D.entries r)) s.rx_q max_nfs id ring h in
      let emptied = total-update (count a) s.nf_rx_bufs max_nfs id [] h in
      flush_nf_queue-cases env id source s (λ t. held a t ≡ held a s) (λ e. refl)
        (λ n v t.
          let there = ap (count a) (L.enqueue_taken (s.rx_q id) buf t) in
          omega (arith, moved, emptied, there, count-append a (D.entries (s.rx_q id)) buf))
        (λ n v f.
          let there = ap (count a) (L.enqueue_refused (s.rx_q id) buf f) in
          omega (arith, moved, emptied, there, count-append a s.freed buf))

  pub held-flush_nfs :
      (env : Env) (a : ℕ) (source : Option ℕ) (todo i : ℕ) (s : Switch D)
      → i + todo ≤ max_nfs
      → held a (flush_nfs env source todo i s) ≡ held a s
  unfolding flush_nfs
  held-flush_nfs env a source zero i s h = refl
  held-flush_nfs env a source (suc todo) i s h =
      held-flush_nfs env a source todo (suc i) (flush_nf_queue env i source s) (omega arith)
      ∙ held-flush_nf_queue env a i source s (omega arith)

  -- A packet put into an NF's buffer
  pub held-buffer_nf :
      (env : Env) (a id pkt : ℕ) (source : Option ℕ) (s : Switch D)
      → id < max_nfs
      → held a (buffer_nf env id pkt source s) ≡ held a s + count a (pkt ∷ [])
  unfolding held buffer_nf
  held-buffer_nf env a id pkt source s h =
      let added = add_to_nf_buf id pkt s in
      let longer = total-update (count a) s.nf_rx_bufs max_nfs id (s.nf_rx_bufs id ++ pkt ∷ []) h in
      let sum : held a added ≡ held a s + count a (pkt ∷ []) =
        omega (arith, longer, count-append a (s.nf_rx_bufs id) (pkt ∷ [])) in
      elim (Bool-cases (length (added.nf_rx_bufs id) == packet_read_size)) [
        | inl e ↦ rw e (held-flush_nf_queue env a id source added h ∙ sum)
        | inr e ↦ rw e sum
      ]

  -- Flushing a port's buffer
  pub held-send_port :
      (env : Env) (a port : ℕ) (s : Switch D)
      → port < rte_max_ethports
      → held a (send_port env port s) ≡ held a s
  unfolding held send_port
  held-send_port env a port s h =
      let buf = s.port_tx_bufs port in
      let (n, nic) = D.tx_burst s.nic port env.queue_id buf in
      let out : Switch D = record s { nic = nic; sent = s.sent ++ take n buf } in
      let emptied = total-update (count a) s.port_tx_bufs rte_max_ethports port [] h in
      let bound = L.tx_burst_bound s.nic port env.queue_id buf in
      let parts = count-take-drop a n buf in
      let gone = count-append a s.sent (take n buf) in
      elim (Bool-cases (ltb n (length buf))) [
        | inl e ↦
            rw (e, drop_batch_lem (drop n buf) out)
              (omega (arith, emptied, parts, gone, count-append a s.freed (drop n buf)))
        | inr e ↦
            let all : count a (take n buf) ≡ count a buf =
              ap (count a) (take_all n buf (ground (arith, e))) in
            rw e (omega (arith, emptied, all, gone))
      ]
