-- ===== src/Routing/TxThread/Laws.antt =====
-- What becomes of the packets that NFs have sent, in a round of the TX thread of onvm/onvm_mgr/main.c.
use afxdp_path_manager.Common.{
  ℕ, zero, suc, ◌+◌, ◌-◌, ◌≤◌, ◌<◌, ◌≡◌, refl, ap, ap₂, ◌∙◌, true, false, List, [], ◌∷◌, ◌++◌, some,
  none, length, count, count-append, ltb, leb, if◌then◌else◌, Bool-cases, inl, inr, arith, update,
  ◌>>=◌,
}
use afxdp_path_manager.Mgr.Services.{max_nfs, is_valid}
use afxdp_path_manager.Mgr.Threads.{Range}
use afxdp_path_manager.Routing.{packet_read_size, Dpdk, DpdkLaws, Dequeue, DequeueLaws, Env, Switch}
use afxdp_path_manager.Routing.Queues.{flush_ports, flush_nfs}
use afxdp_path_manager.Routing.Queues.Account.{HasRoom, held, held-flush_nfs}
use afxdp_path_manager.Routing.Queues.Room.{flush_nfs-HasRoom}
use afxdp_path_manager.Routing.Queues.Returns.{flush_ports-Takes}
use afxdp_path_manager.Routing.Batch.{process_tx_batch}
use afxdp_path_manager.Routing.Batch.Paths.{IsSound}
use afxdp_path_manager.Routing.Batch.Transmit.{lost}
use afxdp_path_manager.Routing.Batch.Transmit.Account.{lost_agree, process_tx_batch-account}
use afxdp_path_manager.Routing.Batch.Transmit.Packet.{update_other}
use afxdp_path_manager.Routing.Batch.Transmit.Aside.{process_tx_batch-Aside}
use afxdp_path_manager.Routing.TxThread.{tx_nf, tx_nfs, tx_round}
use afxdp_path_manager.Routing.TxThread.Burst.{
  IsWaiting, burst, rest, count-burst, burst-held, burst-once, elsewhere, burst-IsWaiting,
}

module _ {D : Dpdk} (Q : Dequeue D) where
  -- The packets that the round loses of one NF's burst, and of those of `n` NFs from `i` on
  abbrev nf_lost : Env → ℕ → Switch D → List ℕ
  nf_lost env i s = if is_valid (env.mgr.nfs i) then lost env s.pkt_meta (burst Q i s) else []

  unfoldable pub round_lost : Env → ℕ → ℕ → Switch D → List ℕ
  round_lost env zero i s = []
  round_lost env (suc n) i s = nf_lost env i s ++ round_lost env n (i + 1) s

module _ {D : Dpdk} where
  -- From `i` on the rings are as before, and so are the meta data of their packets.
  record Same (i : ℕ) (s t : Switch D) : Type 0 where
    rings : (j : ℕ) → i ≤ j → t.tx_q j ≡ s.tx_q j
    metas :
        (j q : ℕ)
        → i ≤ j
        → j < max_nfs
        → 0 < count q (D.entries (s.tx_q j))
        → t.pkt_meta q ≡ s.pkt_meta q

module _ {D : Dpdk} {Q : Dequeue D} (V : DequeueLaws Q) where
  round_lost-Same :
      (env : Env) (n i : ℕ) (s t : Switch D)
      → i + n ≤ max_nfs
      → Same i s t
      → round_lost Q env n i t ≡ round_lost Q env n i s
  unfolding round_lost
  round_lost-Same env zero i s t h v = refl
  round_lost-Same env (suc n) i s t h v =
      let ring = v.rings i (omega arith) in
      let one : lost env t.pkt_meta (burst Q i s) ≡ lost env s.pkt_meta (burst Q i s) =
        lost_agree env s.pkt_meta t.pkt_meta (burst Q i s) (λ q k.
          v.metas i q (omega arith) (omega arith) (omega (arith, k, count-burst V i q s))) in
      let others = round_lost-Same env n (i + 1) s t (omega arith) (record {
        rings = λ j k. v.rings j (omega (arith, k));
        metas = λ j q k. v.metas j q (omega (arith, k));
      }) in
      let part : lost env t.pkt_meta (burst Q i t) ≡ lost env s.pkt_meta (burst Q i s) =
        ap (λ r. lost env t.pkt_meta (Q.dequeue_burst r packet_read_size).0) ring ∙ one in
      ap₂ (λ xs ys. (if is_valid (env.mgr.nfs i) then xs else []) ++ ys) part others

  module _ (L : DpdkLaws D) where
    -- One NF's part of the round
    record Sent (env : Env) (i : ℕ) (s t : Switch D) : Type 0 where
      room : HasRoom t
      left : IsWaiting t
      account : (a : ℕ) → held a t + count a (nf_lost Q env i s) ≡ held a s
      same : Same (i + 1) s t

    -- The test for an empty burst makes no difference.
    process_tx_batch-skip :
        (env : Env) (pkts : List ℕ) (nf : ℕ) (s : Switch D)
        → (if ltb 0 (length pkts) then process_tx_batch env pkts nf s else some s)
          ≡ process_tx_batch env pkts nf s
    unfolding process_tx_batch
    process_tx_batch-skip env [] nf s = refl
    process_tx_batch-skip env (pkt ∷ pkts) nf s =
        let several : ltb 0 (length (pkt ∷ pkts)) ≡ true = ground arith in rw several refl

    tx_nf-Sent :
        (env : Env) (i : ℕ) (s : Switch D)
        → IsSound env
        → env.is_mgr ≡ true
        → i < max_nfs
        → IsWaiting s
        → HasRoom s
        → (t : Switch D) × (tx_nf Q env i s ≡ some t) × Sent env i s t
    unfolding tx_nf
    tx_nf-Sent env i s v mg h w room =
        let inside : leb max_nfs i ≡ false = ground (arith, h) in
        let taken : Switch D = record s { tx_q = update s.tx_q i (rest Q i s) } in
        elim (Bool-cases (is_valid (env.mgr.nfs i))) [
          | inr e ↦ (
            s,
            rw (inside, e) refl,
            record {
              room = room;
              left = w;
              account = λ a. rw e (omega arith);
              same = record { rings = λ j k. refl; metas = λ j q k n c. refl };
            },
          )
          | inl e ↦
              let (t, f, last, account) =
                process_tx_batch-account L env (burst Q i s) i taken v h
                  (λ q. burst-once V i q s h w)
                  (λ q k. (inl mg, w.known i q h (omega (arith, k, count-burst V i q s))))
                  (record {
                    nf_bufs = room.nf_bufs;
                    port_bufs = room.port_bufs;
                    own_buf = room.own_buf;
                  }) in
              let aside = process_tx_batch-Aside L env (burst Q i s) i taken t mg f in
              (
                t,
                rw (inside, e) (process_tx_batch-skip env (burst Q i s) i taken ∙ f),
                record {
                  room = last;
                  left = burst-IsWaiting V i s t h w aside.rings aside.metas;
                  account = λ a. rw e (omega (arith, account a, burst-held V i a s h));
                  same = record {
                    rings = λ j k.
                        ap (λ r. r j) aside.rings
                        ∙ update_other s.tx_q i j (rest Q i s) (omega (arith, k));
                    metas =
                        λ j q k n c. aside.metas q (elsewhere V i j q s h n (omega (arith, k)) w c);
                  };
                },
              )
        ]

    tx_nfs-account :
        (env : Env) (n i : ℕ) (s : Switch D)
        → IsSound env
        → env.is_mgr ≡ true
        → i + n ≤ max_nfs
        → IsWaiting s
        → HasRoom s
        → (t : Switch D) × (tx_nfs Q env n i s ≡ some t)
          × HasRoom t
          × ((a : ℕ) → held a t + count a (round_lost Q env n i s) ≡ held a s)
    unfolding tx_nfs round_lost
    tx_nfs-account env zero i s v mg h w room = (s, refl, room, λ a. omega arith)
    tx_nfs-account env (suc n) i s v mg h w room =
        let (t, e, sent) = tx_nf-Sent env i s v mg (omega arith) w room in
        let (u, f, last, account) =
          tx_nfs-account env n (i + 1) t v mg (omega arith) sent.left sent.room in
        let same = round_lost-Same env n (i + 1) s t (omega arith) sent.same in
        (
          u,
          ap (λ o. o >>= tx_nfs Q env n (i + 1)) e ∙ f,
          last,
          λ a. omega (
            arith,
            rw same at (account a),
            sent.account a,
            count-append a (nf_lost Q env i s) (round_lost Q env n (i + 1) s),
          ),
        )

    -- In sound surroundings, in the manager, let no packet stand twice in the rings that the NFs send by, and let each
    -- there be for a service or port that exists. Then a round of the TX thread accesses no array out of bounds. Of
    -- the bursts that it takes off the rings of the running NFs of its range it loses just `round_lost`; each
    -- other packet is once in a buffer or ring, sent, or freed. No buffer is full.
    pub tx_round-account :
        (env : Env) (r : Range) (s : Switch D)
        → IsSound env
        → env.is_mgr ≡ true
        → r.first_nf ≤ r.last_nf
        → r.last_nf ≤ max_nfs
        → IsWaiting s
        → HasRoom s
        → (t : Switch D) × (tx_round Q env r s ≡ some t)
          × HasRoom t
          × ((a : ℕ)
              → held a t + count a (round_lost Q env (r.last_nf - r.first_nf) r.first_nf s)
                ≡ held a s)
    unfolding tx_round
    tx_round-account env r s v mg order last w room =
        let n = r.last_nf - r.first_nf in
        let (t, e, room', account) = tx_nfs-account env n r.first_nf s v mg (omega arith) w room in
        let (u, f, flushed) = flush_ports-Takes L env env.port_id t v.ports room' in
        (
          flush_nfs env none max_nfs 0 u,
          ap (λ o. o >>= flush_ports env env.port_id >>= λ x. some (flush_nfs env none max_nfs 0 x))
                e
              ∙ ap (λ o. o >>= λ x. some (flush_nfs env none max_nfs 0 x)) f,
          flush_nfs-HasRoom env none max_nfs 0 u flushed.room,
          λ a. omega (
            arith,
            held-flush_nfs L env a none max_nfs 0 u (omega arith),
            flushed.account a,
            account a,
          ),
        )
