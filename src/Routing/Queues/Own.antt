-- ===== src/Routing/Queues/Own.antt =====
-- onvm_pkt_enqueue_tx_thread of onvm/onvm_nflib/onvm_pkt_common.c keeps every packet, and empties the NF's own buffer.
use afxdp_path_manager.Common.{
  ℕ, ◌+◌, ◌<◌, ◌≡◌, refl, ap, [], some, length, count, count-append, update, total, total-update,
  ◌==◌, Bool-cases, inl, inr, arith,
}
use afxdp_path_manager.Mgr.Services.{max_nfs}
use afxdp_path_manager.Routing.{packet_read_size, Dpdk, DpdkLaws, Switch}
use afxdp_path_manager.Routing.Queues.{count_in, add_tx_drop, enqueue_tx_thread}
use afxdp_path_manager.Routing.Queues.Account.{drop_batch_lem, held}
use afxdp_path_manager.Routing.Queues.Returns.{Takes, Takes-none}

module _ {D : Dpdk} (L : DpdkLaws D) where
  -- onvm_pkt_enqueue_tx_thread empties the NF's own buffer.
  pub enqueue_tx_thread-empties :
      (nf_id : ℕ) (s : Switch D) → length (enqueue_tx_thread nf_id s).to_tx_buf ≡ 0
  unfolding enqueue_tx_thread
  enqueue_tx_thread-empties nf_id s = elim (Bool-cases (length s.to_tx_buf == 0)) [
    | inl e ↦ rw e (ground (arith, e))
    | inr e ↦ rw e refl
  ]

  pub enqueue_tx_thread-Takes :
      (nf_id : ℕ) (s : Switch D)
      → nf_id < max_nfs
      → ((i : ℕ) → length (s.nf_rx_bufs i) < packet_read_size)
      → ((i : ℕ) → length (s.port_tx_bufs i) < packet_read_size)
      → Takes [] s (enqueue_tx_thread nf_id s)
  unfolding enqueue_tx_thread held
  enqueue_tx_thread-Takes nf_id s h nfs ports =
      let buf = s.to_tx_buf in
      let ring = (D.enqueue_bulk (s.tx_q nf_id) buf).1 in
      let out : Switch D = record s { tx_q = update s.tx_q nf_id ring } in
      let moved : (a : ℕ)
          → total max_nfs (λ i. count a (D.entries (update s.tx_q nf_id ring i)))
              + count a (D.entries (s.tx_q nf_id))
            ≡ total max_nfs (λ i. count a (D.entries (s.tx_q i))) + count a (D.entries ring) =
        λ a. total-update (λ r. count a (D.entries r)) s.tx_q max_nfs nf_id ring h in
      elim (Bool-cases (length buf == 0)) [
        | inl e ↦
            rw e (
              Takes-none (record { nf_bufs = nfs; port_bufs = ports; own_buf = ground (arith, e) }))
        | inr e ↦ elim (Bool-cases (D.enqueue_bulk (s.tx_q nf_id) buf).0) [
          | inl t ↦
              let there = L.enqueue_taken (s.tx_q nf_id) buf t in
              rw (e, t)
                (record {
                  account = λ a. omega (
                    arith,
                    moved a,
                    ap (count a) there,
                    count-append a (D.entries (s.tx_q nf_id)) buf,
                  );
                  room = record { nf_bufs = nfs; port_bufs = ports; own_buf = omega arith };
                })
          | inr f ↦
              let there = L.enqueue_refused (s.tx_q nf_id) buf f in
              rw (e, f, drop_batch_lem buf (count_in (add_tx_drop (length buf)) (some nf_id) out))
                (record {
                  account =
                      λ a. omega (arith, moved a, ap (count a) there, count-append a s.freed buf);
                  room = record { nf_bufs = nfs; port_bufs = ports; own_buf = omega arith };
                })
        ]
      ]
