-- ===== src/Routing/NfLoop/Laws.antt =====
-- What becomes of the packets that an NF takes: without ONVM_NF_HANDLE_TX those that it keeps are its own, with it
-- they are routed all the same.
use afxdp_path_manager.Common.{
  ℕ, ◌+◌, ◌≤◌, ◌<◌, ◌≡◌, refl, ap, ◌∙◌, true, false, List, [], ◌∷◌, length, count, count-append,
  some, ◌>>=◌, total-update, if◌then◌else◌, ◌==◌, Bool-cases, inl, inr, arith, update,
}
use afxdp_path_manager.Mgr.Services.{max_nfs}
use afxdp_path_manager.Routing.{
  Dequeue, DequeueLaws, packet_read_size, Meta, Dpdk, DpdkLaws, Env, Switch,
}
use afxdp_path_manager.Routing.Queues.{enqueue_tx_thread, flush_nfs}
use afxdp_path_manager.Routing.Queues.Account.{HasRoom, held, held-flush_nfs}
use afxdp_path_manager.Routing.Queues.Room.{flush_nfs-HasRoom}
use afxdp_path_manager.Routing.Batch.{process_tx_batch}
use afxdp_path_manager.Routing.Batch.Paths.{IsSound}
use afxdp_path_manager.Routing.Batch.Transmit.{lost}
use afxdp_path_manager.Routing.Batch.Transmit.Account.{Sendable, process_tx_batch-account}
use afxdp_path_manager.Routing.Queues.Own.{enqueue_tx_thread-Takes, enqueue_tx_thread-empties}
use afxdp_path_manager.Routing.NfLoop.{
  Handled, Dequeued, handle, handle_all, dequeue_packets, nf_pass,
}

-- Each packet is passed on or kept.
handle-split :
    (handler : ℕ → Meta → ℕ × Meta) (pkt a : ℕ) (h : Handled)
    → count a (handle handler pkt h).tx_buf + count a (handle handler pkt h).kept
      ≡ count a h.tx_buf + count a h.kept + count a (pkt ∷ [])
unfolding handle
handle-split handler pkt a h = elim (Bool-cases ((handler pkt (h.metas pkt)).0 == 0)) [
  | inl e ↦ rw e (omega (arith, count-append a h.tx_buf (pkt ∷ [])))
  | inr e ↦ rw e (omega (arith, count-append a h.kept (pkt ∷ [])))
]

handle_all-split :
    (handler : ℕ → Meta → ℕ × Meta) (pkts : List ℕ) (a : ℕ) (h : Handled)
    → count a (handle_all handler pkts h).tx_buf + count a (handle_all handler pkts h).kept
      ≡ count a h.tx_buf + count a h.kept + count a pkts
unfolding handle_all
handle_all-split handler [] a h = omega arith
handle_all-split handler (pkt ∷ pkts) a h = omega (
  arith,
  handle-split handler pkt a h,
  handle_all-split handler pkts a (handle handler pkt h),
  count-append a (pkt ∷ []) pkts,
)

none_in : (a : ℕ) (pkts : List ℕ) → length pkts ≡ 0 → count a pkts ≡ 0
none_in a [] e = refl
none_in a (pkt ∷ pkts) e = absurd (omega (arith, e))

module _ {D : Dpdk} (L : DpdkLaws D) {Q : Dequeue D} (V : DequeueLaws Q) where
  -- A burst off an NF's ring
  burst-held :
      (nf a : ℕ) (s : Switch D) (metas : ℕ → Meta)
      → nf < max_nfs
      → let (pkts, ring) = Q.dequeue_burst (s.rx_q nf) packet_read_size in
        held a (record s { rx_q = update s.rx_q nf ring; pkt_meta = metas }) + count a pkts
        ≡ held a s
  unfolding held
  burst-held nf a s metas h =
      let (pkts, ring) = Q.dequeue_burst (s.rx_q nf) packet_read_size in
      let moved = total-update (λ r. count a (D.entries r)) s.rx_q max_nfs nf ring h in
      let there = ap (count a) (V.dequeued (s.rx_q nf) packet_read_size) in
      omega (arith, moved, there, count-append a pkts (D.entries ring))

  -- Another own buffer
  held-own_buf :
      (a : ℕ) (own : List ℕ) (t : Switch D)
      → held a (record t { to_tx_buf = own }) + count a t.to_tx_buf ≡ held a t + count a own
  unfolding held
  held-own_buf a own t = omega arith

  -- With ONVM_NF_HANDLE_TX the packets that onvm_nflib_dequeue_packets leaves to be routed are all that it takes off the
  -- ring, those that the NF keeps among them. The others stay where they were, and no buffer is full.
  pub dequeue_packets-batch :
      (nf tx_buffer : ℕ) (handler : ℕ → Meta → ℕ × Meta) (s : Switch D)
      → nf < max_nfs
      → HasRoom s
      → let r = dequeue_packets Q true nf handler tx_buffer s in
        HasRoom r.switch
        × ((a : ℕ) → held a r.switch + count a r.batch ≡ held a s)
        × ((a : ℕ) → count a r.kept ≤ count a r.batch)
  unfolding dequeue_packets
  dequeue_packets-batch nf tx_buffer handler s h room =
      let pkts = (Q.dequeue_burst (s.rx_q nf) packet_read_size).0 in
      let handled =
        handle_all handler pkts
          (record { tx_buf = []; kept = []; metas = s.pkt_meta; tx_buffer = tx_buffer }) in
      elim (Bool-cases (length pkts == 0)) [
        | inl e ↦ rw e (
          record { nf_bufs = room.nf_bufs; port_bufs = room.port_bufs; own_buf = room.own_buf },
          λ a. omega (arith, burst-held nf a s s.pkt_meta h, none_in a pkts (ground (arith, e))),
          λ a. omega arith,
        )
        | inr e ↦ rw e (
          record { nf_bufs = room.nf_bufs; port_bufs = room.port_bufs; own_buf = room.own_buf },
          λ a. burst-held nf a s handled.metas h,
          λ a. omega (
            arith,
            handle_all-split handler pkts a
                (record { tx_buf = []; kept = []; metas = s.pkt_meta; tx_buffer = tx_buffer }),
          ),
        )
      ]

  -- Without it the packets that the NF keeps are in no buffer or ring any more, and all others are where they were, on
  -- the way to the TX thread, or freed; no buffer is full.
  pub dequeue_packets-kept :
      (nf tx_buffer : ℕ) (handler : ℕ → Meta → ℕ × Meta) (s : Switch D)
      → nf < max_nfs
      → HasRoom s
      → let r = dequeue_packets Q false nf handler tx_buffer s in
        HasRoom r.switch × ((a : ℕ) → held a r.switch + count a r.kept ≡ held a s)
  unfolding dequeue_packets
  dequeue_packets-kept nf tx_buffer handler s h room =
      let (pkts, ring) = Q.dequeue_burst (s.rx_q nf) packet_read_size in
      let handled =
        handle_all handler pkts
          (record { tx_buf = []; kept = []; metas = s.pkt_meta; tx_buffer = tx_buffer }) in
      let done : Switch D = record s { rx_q = update s.rx_q nf ring; pkt_meta = handled.metas } in
      elim (Bool-cases (length pkts == 0)) [
        | inl e ↦ rw e (
          record { nf_bufs = room.nf_bufs; port_bufs = room.port_bufs; own_buf = room.own_buf },
          λ a. omega (arith, burst-held nf a s s.pkt_meta h, none_in a pkts (ground (arith, e))),
        )
        | inr e ↦
            let moved =
              enqueue_tx_thread-Takes L nf (record done { to_tx_buf = handled.tx_buf }) h
                room.nf_bufs room.port_bufs in
            rw e (
              record {
                nf_bufs = moved.room.nf_bufs;
                port_bufs = moved.room.port_bufs;
                own_buf = room.own_buf;
              },
              λ a. omega (
                arith,
                moved.account a,
                held-own_buf a handled.tx_buf done,
                held-own_buf a s.to_tx_buf
                    (enqueue_tx_thread nf (record done { to_tx_buf = handled.tx_buf })),
                none_in a
                    (enqueue_tx_thread nf (record done { to_tx_buf = handled.tx_buf })).to_tx_buf
                    (enqueue_tx_thread-empties L nf (record done { to_tx_buf = handled.tx_buf })),
                burst-held nf a s handled.metas h,
                handle_all-split handler pkts a
                    (record { tx_buf = []; kept = []; metas = s.pkt_meta; tx_buffer = tx_buffer }),
              ),
            )
      ]

  -- The test for an empty burst makes no difference.
  process_tx_batch-nonempty :
      (env : Env) (nf : ℕ) (pkts : List ℕ) (s : Switch D)
      → (if length pkts == 0 then some s else process_tx_batch env pkts nf s)
        ≡ process_tx_batch env pkts nf s
  unfolding process_tx_batch
  process_tx_batch-nonempty env nf [] s = refl
  process_tx_batch-nonempty env nf (pkt ∷ pkts) s =
      let several : (length (pkt ∷ pkts) == 0) ≡ false = ground arith in rw several refl

  -- Let the burst hold no packet twice, and let the NF's function send each of its packets, also those that it keeps, to
  -- a service or port that exists, by an action that an NF may use. Then a pass of the NF's loop accesses no
  -- array out of bounds, and each packet, also one that the NF keeps, is once in a buffer or ring, sent, or freed,
  -- but for those in `lost`. No buffer is full.
  pub nf_pass-account :
      (env : Env) (nf tx_buffer : ℕ) (handler : ℕ → Meta → ℕ × Meta) (s : Switch D)
      → IsSound env
      → nf < max_nfs
      → HasRoom s
      → let r = dequeue_packets Q true nf handler tx_buffer s in
        ((q : ℕ) → count q r.batch ≤ 1)
        → ((q : ℕ) → 0 < count q r.batch → Sendable env (r.switch.pkt_meta q))
        → (t : Dequeued D) × (nf_pass Q env nf handler tx_buffer s ≡ some t)
          × HasRoom t.switch
          × ((a : ℕ) → held a t.switch + count a (lost env r.switch.pkt_meta r.batch) ≡ held a s)
  unfolding nf_pass process_tx_batch
  nf_pass-account env nf tx_buffer handler s v h room once may =
      let r = dequeue_packets Q true nf handler tx_buffer s in
      let (room', account, kept) = dequeue_packets-batch nf tx_buffer handler s h room in
      let (t, e, last, routed) =
        process_tx_batch-account L env r.batch nf r.switch v h once may room' in
      let moved = enqueue_tx_thread-Takes L nf t h last.nf_bufs last.port_bufs in
      let flushed : (a : ℕ)
          → held a (flush_nfs env (some nf) max_nfs 0 (enqueue_tx_thread nf t))
            ≡ held a (enqueue_tx_thread nf t) =
        λ a. held-flush_nfs L env a (some nf) max_nfs 0 (enqueue_tx_thread nf t) (omega arith) in
      (
        record r { switch = flush_nfs env (some nf) max_nfs 0 (enqueue_tx_thread nf t) },
        ap
            (λ o. o >>= λ u.
              some
                (record r { switch = flush_nfs env (some nf) max_nfs 0 (enqueue_tx_thread nf u) }))
            (process_tx_batch-nonempty env nf r.batch r.switch ∙ e),
        flush_nfs-HasRoom env (some nf) max_nfs 0 (enqueue_tx_thread nf t) moved.room,
        λ a. omega (arith, account a, routed a, moved.account a, flushed a),
      )
