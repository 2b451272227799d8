-- ===== src/Routing/Queues/Room.antt =====
-- The buffers of onvm/onvm_nflib/onvm_pkt_common.c never fill up: each operation leaves room for a packet in each.
use afxdp_path_manager.Common.{
  ℕ, zero, suc, ◌+◌, ◌≡◌, refl, true, ◌&&◌, [], ◌∷◌, Option, length, length-append, ◌==◌,
  Bool-cases, inl, inr, arith, ltb, leb, ◌∙◌, if◌then◌else◌,
}
use afxdp_path_manager.Mgr.Services.{is_valid}
use afxdp_path_manager.Routing.{packet_read_size, Dpdk, Env, Switch}
use afxdp_path_manager.Routing.Queues.{flush_nf_queue, flush_nfs, buffer_nf, add_to_nf_buf}
use afxdp_path_manager.Routing.Queues.Account.{flush_nf_queue-cases, HasRoom}

module _ {D : Dpdk} where
  -- A flush changes the buffer of its NF only, and empties it just if the NF runs.
  pub flush_nf_queue-bufs :
      (env : Env) (id i : ℕ) (source : Option ℕ) (s : Switch D)
      → length ((flush_nf_queue env id source s).nf_rx_bufs i)
        ≡ (if (i == id) && is_valid (env.mgr.nfs id) then 0 else length (s.nf_rx_bufs i))
  flush_nf_queue-bufs env id i source s =
      flush_nf_queue-cases env id source s
        (λ t.
          length (t.nf_rx_bufs i)
          ≡ (if (i == id) && is_valid (env.mgr.nfs id) then 0 else length (s.nf_rx_bufs i)))
        (λ e. elim (Bool-cases (i == id)) [
          | inl same ↦ let eq : i ≡ id = ground (arith, same) in rw eq (ground (arith, e))
          | inr other ↦ rw other refl
        ])
        (λ n v t. ground (arith, v)) (λ n v f. ground (arith, v))

  pub flush_nf_queue-rest :
      (env : Env) (id : ℕ) (source : Option ℕ) (s : Switch D)
      → let t = flush_nf_queue env id source s in
        (t.port_tx_bufs ≡ s.port_tx_bufs) × (t.to_tx_buf ≡ s.to_tx_buf) × (t.pkt_meta ≡ s.pkt_meta)
  flush_nf_queue-rest env id source s =
      flush_nf_queue-cases env id source s
        (λ t.
          (t.port_tx_bufs ≡ s.port_tx_bufs)
          × (t.to_tx_buf ≡ s.to_tx_buf)
          × (t.pkt_meta ≡ s.pkt_meta))
        (λ e. (refl, refl, refl)) (λ n v t. (refl, refl, refl)) (λ n v f. (refl, refl, refl))

  pub flush_nf_queue-HasRoom :
      (env : Env) (id : ℕ) (source : Option ℕ) (s : Switch D)
      → HasRoom s
      → HasRoom (flush_nf_queue env id source s)
  flush_nf_queue-HasRoom env id source s v =
      let (ports, own, metas) = flush_nf_queue-rest env id source s in
      record {
        nf_bufs = λ i. ground (arith, flush_nf_queue-bufs env id i source s, v.nf_bufs i);
        port_bufs = λ i. rw ports (v.port_bufs i);
        own_buf = rw own v.own_buf;
      }

  pub flush_nfs-HasRoom :
      (env : Env) (source : Option ℕ) (todo i : ℕ) (s : Switch D)
      → HasRoom s
      → HasRoom (flush_nfs env source todo i s)
  unfolding flush_nfs
  flush_nfs-HasRoom env source zero i s v = v
  flush_nfs-HasRoom env source (suc todo) i s v =
      flush_nfs-HasRoom env source todo (suc i) (flush_nf_queue env i source s)
        (flush_nf_queue-HasRoom env i source s v)

  -- A packet is put into the buffer of an NF that runs; a full buffer is flushed at once.
  pub buffer_nf-HasRoom :
      (env : Env) (id pkt : ℕ) (source : Option ℕ) (s : Switch D)
      → is_valid (env.mgr.nfs id) ≡ true
      → HasRoom s
      → HasRoom (buffer_nf env id pkt source s)
  unfolding buffer_nf
  buffer_nf-HasRoom env id pkt source s valid v =
      let added = add_to_nf_buf id pkt s in
      let longer = length-append (s.nf_rx_bufs id) (pkt ∷ []) in
      let (ports, own, metas) = flush_nf_queue-rest env id source added in
      elim (Bool-cases (length (added.nf_rx_bufs id) == packet_read_size)) [
        | inl e ↦ rw e (record {
          nf_bufs =
              λ i. ground (arith, flush_nf_queue-bufs env id i source added, v.nf_bufs i, valid);
          port_bufs = λ i. rw ports (v.port_bufs i);
          own_buf = rw own v.own_buf;
        })
        | inr e ↦ rw e (record {
          nf_bufs = λ i. ground (arith, longer, v.nf_bufs i, v.nf_bufs id, e);
          port_bufs = v.port_bufs;
          own_buf = v.own_buf;
        })
      ]

  -- Behind a flush of all, no NF that runs has a packet in its buffer, and no other buffer changed.
  pub flush_nfs-bufs :
      (env : Env) (source : Option ℕ) (todo i j : ℕ) (s : Switch D)
      → length ((flush_nfs env source todo i s).nf_rx_bufs j) ≡ (
          if leb i j && ltb j (i + todo) && is_valid (env.mgr.nfs j)
          then 0
          else length (s.nf_rx_bufs j))
  unfolding flush_nfs
  flush_nfs-bufs env source zero i j s = ground arith
  flush_nfs-bufs env source (suc todo) i j s =
      flush_nfs-bufs env source todo (suc i) j (flush_nf_queue env i source s)
      ∙ elim (Bool-cases (j == i)) [
        | inl e ↦
            let same : j ≡ i = ground (arith, e) in
            rw same (ground (arith, flush_nf_queue-bufs env i i source s))
        | inr e ↦ ground (arith, e, flush_nf_queue-bufs env i j source s)
      ]
