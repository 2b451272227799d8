-- ===== src/Routing/TxThread/Burst.antt =====
-- A burst off the ring that an NF sends by, for the TX thread of onvm/onvm_mgr/main.c.
use afxdp_path_manager.Common.{
  ℕ, ◌+◌, ◌≤◌, ◌<◌, ◌≡◌, ◌≢◌, ap, ◌∙◌, List, count, count-append, total, total-update, le_total,
  two_le_total, ◌==◌, Bool-cases, inl, inr, arith, update,
}
use afxdp_path_manager.Mgr.Services.{max_nfs, max_services}
use afxdp_path_manager.Routing.{packet_read_size, Dpdk, Dequeue, DequeueLaws, Switch}
use afxdp_path_manager.Routing.Queues.Account.{held}

module _ {D : Dpdk} where
  -- How often a packet stands in the rings that the NFs send by
  unfoldable pub waiting : ℕ → Switch D → ℕ
  waiting a s = total max_nfs (λ i. count a (D.entries (s.tx_q i)))

  -- No packet waits twice, and each is for a service or a port that exists.
  pub record IsWaiting (s : Switch D) : Type 0 where
    pub once : (a : ℕ) → waiting a s ≤ 1
    pub known :
        (i a : ℕ)
        → i < max_nfs
        → 0 < count a (D.entries (s.tx_q i))
        → (s.pkt_meta a).destination < max_services

module _ {D : Dpdk} (Q : Dequeue D) where
  abbrev pub burst : ℕ → Switch D → List ℕ
  burst i s = (Q.dequeue_burst (s.tx_q i) packet_read_size).0

  abbrev pub rest : ℕ → Switch D → D.Ring
  rest i s = (Q.dequeue_burst (s.tx_q i) packet_read_size).1

module _ {D : Dpdk} {Q : Dequeue D} (V : DequeueLaws Q) where
  pub count-burst :
      (i a : ℕ) (s : Switch D)
      → count a (D.entries (s.tx_q i)) ≡ count a (burst Q i s) + count a (D.entries (rest Q i s))
  count-burst i a s =
      ap (count a) (V.dequeued (s.tx_q i) packet_read_size)
      ∙ count-append a (burst Q i s) (D.entries (rest Q i s))

  -- A burst off an NF's ring
  pub burst-held :
      (i a : ℕ) (s : Switch D)
      → i < max_nfs
      → held a (record s { tx_q = update s.tx_q i (rest Q i s) }) + count a (burst Q i s) ≡ held a s
  unfolding held
  burst-held i a s h =
      let moved = total-update (λ r. count a (D.entries r)) s.tx_q max_nfs i (rest Q i s) h in
      omega (arith, moved, count-burst i a s)

  pub burst-once : (i a : ℕ) (s : Switch D) → i < max_nfs → IsWaiting s → count a (burst Q i s) ≤ 1
  unfolding waiting
  burst-once i a s h w = omega (
    arith,
    count-burst i a s,
    w.once a,
    le_total max_nfs (λ j. count a (D.entries (s.tx_q j))) i h,
  )

  -- What waits elsewhere, or stays, is not in the burst.
  pub elsewhere :
      (i j a : ℕ) (s : Switch D)
      → i < max_nfs
      → j < max_nfs
      → j ≢ i
      → IsWaiting s
      → 0 < count a (D.entries (s.tx_q j))
      → count a (burst Q i s) ≡ 0
  unfolding waiting
  elsewhere i j a s h k d w here = omega (
    arith,
    count-burst i a s,
    w.once a,
    two_le_total max_nfs (λ l. count a (D.entries (s.tx_q l))) j i k h d,
  )

  stays :
      (i a : ℕ) (s : Switch D)
      → i < max_nfs
      → IsWaiting s
      → 0 < count a (D.entries (rest Q i s))
      → count a (burst Q i s) ≡ 0
  unfolding waiting
  stays i a s h w here = omega (
    arith,
    count-burst i a s,
    w.once a,
    le_total max_nfs (λ l. count a (D.entries (s.tx_q l))) i h,
  )

  -- After a burst the rest still waits.
  pub burst-IsWaiting :
      (i : ℕ) (s t : Switch D)
      → i < max_nfs
      → IsWaiting s
      → t.tx_q ≡ update s.tx_q i (rest Q i s)
      → ((q : ℕ) → count q (burst Q i s) ≡ 0 → t.pkt_meta q ≡ s.pkt_meta q)
      → IsWaiting t
  unfolding waiting
  burst-IsWaiting i s t h w rings metas = record {
    once = λ a. rw rings (
        omega (
          arith,
          w.once a,
          count-burst i a s,
          total-update (λ r. count a (D.entries r)) s.tx_q max_nfs i (rest Q i s) h,
        ));
    known = λ j a k here. elim (Bool-cases (j == i)) [
      | inl e ↦
          let left : 0 < count a (D.entries (rest Q i s)) = rw (rings, update, e) at here in
          let before : 0 < count a (D.entries (s.tx_q i)) =
            omega (arith, left, count-burst i a s) in
          rw (metas a (stays i a s h w left)) (w.known i a h before)
      | inr e ↦
          let left : 0 < count a (D.entries (s.tx_q j)) = rw (rings, update, e) at here in
          let other : j ≢ i = ground (arith, e) in
          rw (metas a (elsewhere i j a s h k other w left)) (w.known j a k left)
    ];
  }
