-- ===== src/Routing/Queues/Labels.antt =====
-- The buffers carry packets; the operations on them leave the packets' meta data alone.
use afxdp_path_manager.Common.{
  ℕ, ◌≡◌, refl, ◌++◌, Option, some, length, take, drop, update, ◌==◌, Bool-cases, inl, inr, arith,
  ltb,
}
use afxdp_path_manager.Mgr.Services.{service_to_nf_map}
use afxdp_path_manager.Routing.{packet_read_size, Dpdk, DpdkLaws, Env, Switch}
use afxdp_path_manager.Routing.Queues.{
  count_in, add_tx_drop, buffer_nf, enqueue_nf, send_port, flush_port_queue, enqueue_port,
  enqueue_tx_thread, add_to_nf_buf, add_to_port_buf,
}
use afxdp_path_manager.Routing.Queues.Account.{drop_batch_lem}
use afxdp_path_manager.Routing.Queues.Room.{flush_nf_queue-rest}
use afxdp_path_manager.Routing.Queues.Order.{enqueue_nf-result}

module _ {D : Dpdk} where
  buffer_nf-meta :
      (env : Env) (id pkt : ℕ) (source : Option ℕ) (s : Switch D)
      → (buffer_nf env id pkt source s).pkt_meta ≡ s.pkt_meta
  unfolding buffer_nf
  buffer_nf-meta env id pkt source s =
      let added = add_to_nf_buf id pkt s in
      elim (Bool-cases (length (added.nf_rx_bufs id) == packet_read_size)) [
        | inl e ↦ rw e (flush_nf_queue-rest env id source added).2
        | inr e ↦ rw e refl
      ]

  send_port-meta :
      (env : Env) (port : ℕ) (s : Switch D) → (send_port env port s).pkt_meta ≡ s.pkt_meta
  unfolding send_port
  send_port-meta env port s =
      let buf = s.port_tx_bufs port in
      let (n, nic) = D.tx_burst s.nic port env.queue_id buf in
      let out : Switch D = record s { nic = nic; sent = s.sent ++ take n buf } in
      elim (Bool-cases (ltb n (length buf))) [
        | inl e ↦ rw (e, drop_batch_lem (drop n buf) out) refl
        | inr e ↦ rw e refl
      ]

  flush_port_queue-meta :
      (env : Env) (port : ℕ) (s t : Switch D)
      → flush_port_queue env port s ≡ some t
      → t.pkt_meta ≡ s.pkt_meta
  unfolding flush_port_queue
  flush_port_queue-meta env port s t e = ground (arith, e, send_port-meta env port s)

  pub enqueue_port-meta :
      (env : Env) (port pkt : ℕ) (s t : Switch D)
      → enqueue_port env port pkt s ≡ some t
      → t.pkt_meta ≡ s.pkt_meta
  unfolding enqueue_port
  enqueue_port-meta env port pkt s t e =
      let flushed = flush_port_queue-meta env port (add_to_port_buf port pkt s) t in
      ground (arith, e, flushed)

  pub enqueue_tx_thread-meta :
      (nf_id : ℕ) (s : Switch D) → (enqueue_tx_thread nf_id s).pkt_meta ≡ s.pkt_meta
  unfolding enqueue_tx_thread
  enqueue_tx_thread-meta nf_id s =
      let buf = s.to_tx_buf in
      let out : Switch D = record s {
        tx_q = update s.tx_q nf_id (D.enqueue_bulk (s.tx_q nf_id) buf).1;
      } in
      elim (Bool-cases (length buf == 0)) [
        | inl e ↦ rw e refl
        | inr e ↦ elim (Bool-cases (D.enqueue_bulk (s.tx_q nf_id) buf).0) [
          | inl t ↦ rw (e, t) refl
          | inr f ↦
              rw (e, f, drop_batch_lem buf (count_in (add_tx_drop (length buf)) (some nf_id) out))
                refl
        ]
      ]

module _ {D : Dpdk} (L : DpdkLaws D) where
  pub enqueue_nf-meta :
      (env : Env) (service pkt : ℕ) (source : Option ℕ) (s t : Switch D)
      → enqueue_nf env service pkt source s ≡ some t
      → t.pkt_meta ≡ s.pkt_meta
  enqueue_nf-meta env service pkt source s t e =
      elim (enqueue_nf-result L env service pkt source s t e) [
        | inl (d, why) ↦ rw d refl
        | inr b ↦
            rw b (buffer_nf-meta env (service_to_nf_map service (env.rss pkt) env.mgr) pkt source s)
      ]
