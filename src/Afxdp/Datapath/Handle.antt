-- ===== src/Afxdp/Datapath/Handle.antt =====
-- afxdp_handle_receive as a whole.
use afxdp_path_manager.Common.{
  ℕ, suc, ◌+◌, ◌-◌, ◌≤◌, ◌<◌, ◌≡◌, refl, sym, ap, subst, ==_iff, ◌∙◌, ◌++◌, Option, some, length,
  take, drop, arith, ◌==◌, Bool-cases, inl, inr, u32_mod, append-nil, take-nil, length-take,
}
use afxdp_path_manager.Afxdp.Config.{num_frames, fill_ring_size, rx_batch_size}
use afxdp_path_manager.Afxdp.Frames.Laws.{IsValid}
use afxdp_path_manager.Afxdp.Ring.{Desc, Xsk, XskLaws, advance}
use afxdp_path_manager.Afxdp.Datapath.{
  Socket, to_tx, bounce, drop_rest, release_rx, refill, process_batch, handle_receive, complete_tx,
}
use afxdp_path_manager.Afxdp.Datapath.Stats.{Counted, tally-Counted, idle-Counted}
use afxdp_path_manager.Afxdp.Datapath.Complete.{
  at_hand, Keeps, Keeps-trans, IsSound, Keeps-IsSound, complete_tx-Returns,
}
use afxdp_path_manager.Afxdp.Datapath.Refill.{missing, Refilled, refill_returns}
use afxdp_path_manager.Afxdp.Datapath.Receive.{
  peeked, batch_size, batch, Bounced-Keeps, batch-Bounced,
}

module _ {X : Xsk} (L : XskLaws X) where
  to_tx-le :
      (tx : X.tx.Ring) (rcvd : ℕ)
      → (to_tx X tx rcvd ≤ X.tx.nb_free tx rcvd) × (to_tx X tx rcvd ≤ rcvd)
  unfolding to_tx
  to_tx-le tx rcvd = ground arith

  -- Looking at the RX ring changes nothing that counts, in either direction.
  peeked-Keeps : (s : Socket X) (m : ℕ) → IsValid s.frames → Keeps s (peeked s m)
  peeked-Keeps s m v =
      let same = L.rx.peek_keeps s.rx m in
      record {
        valid = v;
        frames = λ a. rw same refl;
        size = rw same refl;
        counter = refl;
        stocked = omega arith;
      }

  peeked-Keeps_back : (s : Socket X) (m : ℕ) → IsValid s.frames → Keeps (peeked s m) s
  peeked-Keeps_back s m v =
      let same = L.rx.peek_keeps s.rx m in
      record {
        valid = v;
        frames = λ a. rw same refl;
        size = rw same refl;
        counter = refl;
        stocked = omega arith;
      }

  Refilled-Keeps : (s t : Socket X) → Refilled s t → missing s ≡ 0 → Keeps s t
  Refilled-Keeps s t r e =
      let txs = ap X.tx.entries r.tx in
      let cqs = ap X.cq.entries r.cq in
      let rxs = ap X.rx.entries r.rx in
      record {
        valid = r.valid;
        frames = λ a. rw e at (r.frames a) ∙ omega arith;
        size = omega (arith, r.size);
        counter = omega (arith, ap length txs, ap length cqs, r.counter);
        stocked = omega (arith, r.size, ap length txs, ap length cqs, ap length rxs);
      }

  -- With a fill ring's worth of frames at hand the refill has a frame for each slot.
  missing-zero : (s : Socket X) → fill_ring_size ≤ at_hand s → missing s ≡ 0
  missing-zero s h = omega (arith, L.fq.nb_free_bound s.fq s.frames.umem_frame_free)

  -- What a round of the receive loop has done. `mid` is the socket behind the completions.
  pub record Handled (s t : Socket X) : Type 0 where
    pub mid : Socket X
    pub completed : complete_tx X s ≡ some mid
    pub sent :
        X.tx.entries t.tx
        ≡ X.tx.entries mid.tx
          ++ take (to_tx X mid.tx (batch_size mid rx_batch_size)) (batch mid rx_batch_size)
    pub received : X.rx.entries t.rx ≡ drop (batch_size mid rx_batch_size) (X.rx.entries mid.rx)
    pub kept : Keeps s t
    pub counted :
        Counted mid.stats
          (batch mid rx_batch_size)
          (to_tx X mid.tx (batch_size mid rx_batch_size))
          t.stats

  process_batch-steps :
      (fuel : ℕ) (s s2 t : Socket X) (rcvd idx n : ℕ)
      → refill X fuel s ≡ some s2
      → to_tx X s2.tx rcvd ≡ n
      → drop_rest X (bounce X s2 idx n) (advance idx n) (rcvd - n) ≡ some t
      → process_batch X fuel s rcvd idx ≡ some (release_rx X t rcvd)
  unfolding process_batch
  process_batch-steps fuel s s2 t rcvd idx n refills e dropped = rw (refills, e, dropped) refl

  -- What steps 3 to 5 do to a socket whose RX ring has been looked at.
  abbrev Processed : Socket X → ℕ → Option (Socket X) → Type 0
  Processed s m r =
      (t : Socket X) × (r ≡ some t)
      × (X.tx.entries t.tx ≡ X.tx.entries s.tx ++ take (to_tx X s.tx (batch_size s m)) (batch s m))
      × (X.rx.entries t.rx ≡ drop (batch_size s m) (X.rx.entries s.rx))
      × Keeps s t
      × Counted s.stats (batch s m) (to_tx X s.tx (batch_size s m)) t.stats

  process-Processed :
      (fuel : ℕ) (s : Socket X) (m : ℕ)
      → m ≤ num_frames
      → IsSound s
      → fill_ring_size ≤ at_hand s
      → Processed s m
          (process_batch X (suc fuel) (peeked s m) (batch_size s m) (X.rx.peek s.rx m).1)
  unfolding process_batch
  process-Processed fuel s m small v h =
      let p = peeked-Keeps s m v.valid in
      let (s2, refills, r) = refill_returns L fuel (peeked s m) v.valid in
      let k2 = Refilled-Keeps (peeked s m) s2 r (missing-zero (peeked s m) h) in
      let s' : Socket X = record s2 { rx = s.rx } in
      let same : s2 ≡ peeked s' m = λ i. record s2 { rx = r.rx i } in
      let k3 = Keeps-trans (rw same at k2) (peeked-Keeps_back s' m r.valid) in
      let k : Keeps s s' = Keeps-trans p k3 in
      let v' = Keeps-IsSound v k in
      let n = to_tx X s.tx (batch_size s m) in
      let le = to_tx-le s.tx (batch_size s m) in
      let out : s'.outstanding_tx + n < u32_mod =
        omega (arith, v'.flight, v'.fits, le.1, L.rx.peek_bound s.rx m) in
      let (t, u, dropped, released, b) =
        batch-Bounced L s' m n (rw r.tx le.0) le.1 v'.valid v'.fits (omega (arith, out)) in
      let idx = (X.rx.peek s.rx m).1 in
      let dropped' =
        subst (λ q. drop_rest X (bounce X q idx n) (advance idx n) (batch_size s m - n) ≡ some t)
          (sym same) dropped in
      (
        u,
        process_batch-steps (suc fuel) (peeked s m) s2 t (batch_size s m) idx n refills
              (ap (λ tx. to_tx X tx (batch_size s m)) r.tx) dropped'
            ∙ ap some released,
        b.sent ∙ ap (λ tx. X.tx.entries tx ++ take n (batch s m)) r.tx,
        b.received,
        Keeps-trans k (
            Bounced-Keeps m n b
              (omega (
                arith,
                le.1,
                length-take (batch_size s m) (X.rx.entries s.rx),
                L.rx.peek_avail s.rx m,
              ))
              out),
        rw (b.stats, r.stats)
            (tally-Counted s.stats (batch s m) n (batch_size s m) (
              omega
                (arith, length-take (batch_size s m) (X.rx.entries s.rx), L.rx.peek_avail s.rx m))),
      )

  -- A round of the receive loop on a sound socket with a fill ring's worth of frames at hand: no
  -- assertion fails and no reservation is refused, so that one try is enough. As much of the oldest
  -- batch as finds slots goes to the TX ring unchanged and in order; the batch leaves the RX ring;
  -- and every frame is kept, once. The counters
  -- grow by what was received and what was sent; a packet that finds no slot counts as received only.
  pub handle_receive_returns :
      (fuel : ℕ) (s : Socket X)
      → IsSound s
      → fill_ring_size ≤ at_hand s
      → (t : Socket X) × (handle_receive X (suc fuel) s ≡ some t) × Handled s t
  unfolding handle_receive
  handle_receive_returns fuel s v h =
      let (mid, completed, k) = complete_tx-Returns L s v in
      let v' = Keeps-IsSound v k in
      let m = rx_batch_size in
      elim (Bool-cases (batch_size mid m == 0)) [
        | inl e ↦
            let zero_batch : batch_size mid m ≡ 0 = (==_iff _ _).0 e in
            let le = to_tx-le mid.tx (batch_size mid m) in
            (
              peeked mid m,
              rw (completed, e) refl,
              record {
                mid = mid;
                completed = completed;
                sent = rw zero_batch (rw (take-nil Desc (to_tx X mid.tx 0)) (sym (append-nil _)));
                received = rw zero_batch (L.rx.peek_keeps mid.rx m);
                kept = Keeps-trans k (peeked-Keeps mid m v'.valid);
                counted = rw zero_batch (idle-Counted mid.stats _);
              },
            )
        | inr e ↦
            let (t, et, sent, received, l, counted) =
              process-Processed fuel mid m (omega arith) v' (omega (arith, k.stocked)) in
            (
              t,
              rw (completed, e) et,
              record {
                mid = mid;
                completed = completed;
                sent = sent;
                received = received;
                kept = Keeps-trans k l;
                counted = counted;
              },
            )
      ]
