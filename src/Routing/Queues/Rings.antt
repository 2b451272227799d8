-- ===== src/Routing/Queues/Rings.antt =====
-- The manager's operations of onvm/onvm_nflib/onvm_pkt_common.c leave the rings alone that the NFs send by.
use afxdp_path_manager.Common.{
  ℕ, ◌≡◌, refl, ◌++◌, Option, some, length, take, drop, ◌==◌, Bool-cases, inl, inr, arith, ltb,
}
use afxdp_path_manager.Mgr.Services.{service_to_nf_map}
use afxdp_path_manager.Routing.{packet_read_size, Dpdk, DpdkLaws, Env, Switch}
use afxdp_path_manager.Routing.Queues.{
  flush_nf_queue, buffer_nf, enqueue_nf, send_port, flush_port_queue, enqueue_port, add_to_nf_buf,
  add_to_port_buf,
}
use afxdp_path_manager.Routing.Queues.Account.{drop_batch_lem, flush_nf_queue-cases}
use afxdp_path_manager.Routing.Queues.Order.{enqueue_nf-result}

module _ {D : Dpdk} where
  flush_nf_queue-tx_q :
      (env : Env) (id : ℕ) (source : Option ℕ) (s : Switch D)
      → (flush_nf_queue env id source s).tx_q ≡ s.tx_q
  flush_nf_queue-tx_q env id source s =
      flush_nf_queue-cases env id source s (λ t. t.tx_q ≡ s.tx_q) (λ e. refl) (λ n v t. refl)
        (λ n v f. refl)

  buffer_nf-tx_q :
      (env : Env) (id pkt : ℕ) (source : Option ℕ) (s : Switch D)
      → (buffer_nf env id pkt source s).tx_q ≡ s.tx_q
  unfolding buffer_nf
  buffer_nf-tx_q env id pkt source s =
      let added = add_to_nf_buf id pkt s in
      elim (Bool-cases (length (added.nf_rx_bufs id) == packet_read_size)) [
        | inl e ↦ rw e (flush_nf_queue-tx_q env id source added)
        | inr e ↦ rw e refl
      ]

  send_port-tx_q : (env : Env) (port : ℕ) (s : Switch D) → (send_port env port s).tx_q ≡ s.tx_q
  unfolding send_port
  send_port-tx_q env port s =
      let buf = s.port_tx_bufs port in
      let (n, nic) = D.tx_burst s.nic port env.queue_id buf in
      let out : Switch D = record s { nic = nic; sent = s.sent ++ take n buf } in
      elim (Bool-cases (ltb n (length buf))) [
        | inl e ↦ rw (e, drop_batch_lem (drop n buf) out) refl
        | inr e ↦ rw e refl
      ]

  flush_port_queue-tx_q :
      (env : Env) (port : ℕ) (s t : Switch D)
      → flush_port_queue env port s ≡ some t
      → t.tx_q ≡ s.tx_q
  unfolding flush_port_queue
  flush_port_queue-tx_q env port s t e = ground (arith, e, send_port-tx_q env port s)

  pub enqueue_port-tx_q :
      (env : Env) (port pkt : ℕ) (s t : Switch D)
      → enqueue_port env port pkt s ≡ some t
      → t.tx_q ≡ s.tx_q
  unfolding enqueue_port
  enqueue_port-tx_q env port pkt s t e =
      let flushed = flush_port_queue-tx_q env port (add_to_port_buf port pkt s) t in
      ground (arith, e, flushed)

module _ {D : Dpdk} (L : DpdkLaws D) where
  pub enqueue_nf-tx_q :
      (env : Env) (service pkt : ℕ) (source : Option ℕ) (s t : Switch D)
      → enqueue_nf env service pkt source s ≡ some t
      → t.tx_q ≡ s.tx_q
  enqueue_nf-tx_q env service pkt source s t e =
      elim (enqueue_nf-result L env service pkt source s t e) [
        | inl (d, why) ↦ rw d refl
        | inr b ↦
            rw b (buffer_nf-tx_q env (service_to_nf_map service (env.rss pkt) env.mgr) pkt source s)
      ]
