-- ===== src/Afxdp/Datapath/Receive.antt =====
-- afxdp_handle_receive: what becomes of a batch of received descriptors.
use afxdp_path_manager.Common.{
  ℕ, ◌+◌, ◌-◌, ◌≤◌, ◌<◌, ◌≡◌, refl, sym, ap, ◌∙◌, List, ◌++◌, some, length, count, take, drop,
  arith, ltb, Bool-cases, inl, inr, count-append, length-append, length-map, length-take,
  length-drop, add_u32, take-append, drop-append, u32_mod, append-nil,
}
use afxdp_path_manager.Afxdp.Config.{num_frames}
use afxdp_path_manager.Afxdp.Frames.Laws.{IsValid, free_list, free_frames-Freed, free_frames-total}
use afxdp_path_manager.Afxdp.Ring.{
  Desc, addrs, Xsk, XskLaws, write_all, read_all, read_all-add, length-read_all, count-addrs-append,
  count-addrs-take-drop, advance,
}
use afxdp_path_manager.Afxdp.Datapath.{
  StatsRecord, Socket, count_all, count_bounced, count_dropped, bounce, drop_rest, release_rx,
}
use afxdp_path_manager.Afxdp.Datapath.Stats.{tally}
use afxdp_path_manager.Afxdp.Datapath.Complete.{occupied, Keeps}

module _ {X : Xsk} where
  -- A socket whose RX ring has been looked at, for a batch of at most `m`.
  abbrev pub peeked : Socket X → ℕ → Socket X
  peeked s m = record s { rx = (X.rx.peek s.rx m).2 }

  abbrev pub batch_size : Socket X → ℕ → ℕ
  batch_size s m = (X.rx.peek s.rx m).0

  -- The batch: the oldest descriptors of the ring.
  abbrev pub batch : Socket X → ℕ → List Desc
  batch s m = take (batch_size s m) (X.rx.entries s.rx)

  -- What a batch of which the first `n` descriptors find a slot on the TX ring leaves: those are on
  -- the TX ring, unchanged and in order; the frames of the others are on the free list; the whole
  -- batch is off the RX ring.
  pub record Bounced (s : Socket X) (m n : ℕ) (t : Socket X) : Type 0 where
    pub sent : X.tx.entries t.tx ≡ X.tx.entries s.tx ++ take n (batch s m)
    pub dropped : free_list t.frames ≡ free_list s.frames ++ addrs (drop n (batch s m))
    pub received : X.rx.entries t.rx ≡ drop (batch_size s m) (X.rx.entries s.rx)
    pub free : t.frames.umem_frame_free ≡ s.frames.umem_frame_free + length (drop n (batch s m))
    pub valid : IsValid t.frames
    pub fq : t.fq ≡ s.fq
    pub cq : t.cq ≡ s.cq
    pub counter : t.outstanding_tx ≡ add_u32 s.outstanding_tx n
    pub stats : t.stats ≡ tally s.stats (batch s m) n (batch_size s m)

  -- The frames of the batch are all accounted for.
  pub Bounced-Keeps :
      {s t : Socket X} (m n : ℕ)
      → Bounced s m n t
      → n ≤ length (batch s m)
      → s.outstanding_tx + n < u32_mod
      → Keeps s t
  Bounced-Keeps {s} {t} m n b h w =
      let rx = X.rx.entries s.rx in
      let ds = batch s m in
      let k = batch_size s m in
      let sizes : length (take n ds) + length (drop n ds) ≡ length ds =
        omega (arith, length-take n ds, length-drop n ds) in
      let batch_len : length ds + length (drop k rx) ≡ length rx =
        omega (arith, length-take k rx, length-drop k rx) in
      let same_fq = ap (λ r. length (X.fq.entries r)) b.fq in
      let same_cq = ap (λ r. length (X.cq.entries r)) b.cq in
      let sent_len = ap length b.sent ∙ length-append (X.tx.entries s.tx) (take n ds) in
      record {
        valid = b.valid;
        frames = λ a. omega (
          arith,
          count-addrs-take-drop a n ds,
          count-addrs-take-drop a k rx,
          ap (λ xs. count a (addrs xs)) b.sent,
          count-addrs-append a (X.tx.entries s.tx) (take n ds),
          ap (count a) b.dropped,
          count-append a (free_list s.frames) (addrs (drop n ds)),
          ap (λ xs. count a (addrs xs)) b.received,
          ap (λ r. count a (X.fq.entries r)) b.fq,
          ap (λ r. count a (X.cq.entries r)) b.cq,
        );
        size =
            omega
              (arith, b.free, sizes, batch_len, same_fq, same_cq, sent_len, ap length b.received);
        counter = omega (arith, b.counter, same_cq, sent_len, length-take n ds);
        stocked = omega (arith, b.free, same_fq);
      }

module _ {X : Xsk} (L : XskLaws X) where
  -- The reads for the TX ring and those for the free list are the two parts of the batch.
  read_parts :
      (s : Socket X) (m n : ℕ)
      → n ≤ batch_size s m
      → let firsts = read_all X.rx (peeked s m).rx (X.rx.peek s.rx m).1 n in
        let rest =
          read_all X.rx (peeked s m).rx (advance (X.rx.peek s.rx m).1 n) (batch_size s m - n) in
        (firsts ≡ take n (batch s m)) × (rest ≡ drop n (batch s m))
  read_parts s m n h =
      let r = (X.rx.peek s.rx m).2 in
      let idx = (X.rx.peek s.rx m).1 in
      let k = batch_size s m in
      let firsts = read_all X.rx r idx n in
      let rest = read_all X.rx r (advance idx n) (k - n) in
      let sum : n + (k - n) ≡ k = omega arith in
      let whole : firsts ++ rest ≡ batch s m =
        sym (read_all-add X.rx r idx n (k - n))
        ∙ ap (read_all X.rx r idx) sum
        ∙ L.rx.read_peeked s.rx m in
      let len = length-read_all X.rx r idx n in
      (
        rw (← whole) (rw len at (sym (take-append firsts rest))),
        rw (← whole) (rw len at (sym (drop-append firsts rest))),
      )

  -- What the writes to the TX ring leave.
  abbrev Sent : Socket X → ℕ → ℕ → Type 0
  Sent s m n =
      (tx : X.tx.Ring) × (stats : StatsRecord) × (bounce X (peeked s m) (X.rx.peek s.rx m).1 n
        ≡ record (peeked s m) {
          tx = tx;
          outstanding_tx = add_u32 s.outstanding_tx n;
          stats = stats;
        })
      × (X.tx.entries tx ≡ X.tx.entries s.tx ++ take n (batch s m))
      × (stats ≡ count_all count_bounced s.stats (take n (batch s m)))

  bounce-Sent :
      (s : Socket X) (m n : ℕ)
      → n ≤ X.tx.nb_free s.tx (batch_size s m)
      → n ≤ batch_size s m
      → s.outstanding_tx < u32_mod
      → Sent s m n
  unfolding bounce count_all
  bounce-Sent s m n free h w = elim (Bool-cases (ltb 0 n)) [
    | inl e ↦
        let idx = (X.rx.peek s.rx m).1 in
        let descs = read_all X.rx (peeked s m).rx idx n in
        let slots = X.tx.reserve s.tx n in
        let len = length-read_all X.rx (peeked s m).rx idx n in
        let granted : (X.tx.reserve s.tx (length descs)).0 ≡ length descs =
          rw len (L.tx.reserve_granted s.tx (batch_size s m) n free) in
        (
          X.tx.submit (write_all X.tx slots.2 slots.1 descs) n,
          count_all count_bounced s.stats descs,
          rw e refl,
          rw (← (read_parts s m n h).0) (rw len at (L.tx.publish s.tx descs granted)),
          ap (count_all count_bounced s.stats) (read_parts s m n h).0,
        )
    | inr e ↦
        let zero_n : n ≡ 0 = ground arith in
        let same : add_u32 s.outstanding_tx n ≡ s.outstanding_tx = omega arith in
        (
          s.tx,
          s.stats,
          rw (e, same) refl,
          rw zero_n (sym (append-nil (X.tx.entries s.tx))),
          rw (zero_n, count_all) refl,
        )
  ]

  -- The batch goes its two ways, if the frames of the descriptors that find no slot find room.
  pub batch-Bounced :
      (s : Socket X) (m n : ℕ)
      → n ≤ X.tx.nb_free s.tx (batch_size s m)
      → n ≤ batch_size s m
      → IsValid s.frames
      → occupied s ≤ num_frames
      → s.outstanding_tx < u32_mod
      → (t u : Socket X) × (drop_rest X
            (bounce X (peeked s m) (X.rx.peek s.rx m).1 n)
            (advance (X.rx.peek s.rx m).1 n)
            (batch_size s m - n)
          ≡ some t)
        × (release_rx X t (batch_size s m) ≡ u)
        × Bounced s m n u
  unfolding drop_rest release_rx
  batch-Bounced s m n free h v fits w =
      let (tx, stats, put, grown, counted) = bounce-Sent s m n free h w in
      let ds = drop n (batch s m) in
      let room : s.frames.umem_frame_free + length (addrs ds) ≤ num_frames = omega (
        arith,
        length-map (λ (d : Desc). d.addr) ds,
        length-drop n (batch s m),
        length-take (batch_size s m) (X.rx.entries s.rx),
      ) in
      let (g, freed) = free_frames-total (addrs ds) s.frames room in
      let f = free_frames-Freed (addrs ds) s.frames v freed in
      let t : Socket X = record (peeked s m) {
        tx = tx;
        frames = g;
        outstanding_tx = add_u32 s.outstanding_tx n;
        stats = count_all count_dropped stats ds;
      } in
      (
        t,
        release_rx X t (batch_size s m),
        rw (put, (read_parts s m n h).1, freed) refl,
        refl,
        record {
          sent = grown;
          dropped = f.stack;
          received = L.rx.release_peeked s.rx m;
          free = omega (arith, f.more, length-map (λ (d : Desc). d.addr) ds);
          valid = f.valid;
          fq = refl;
          cq = refl;
          counter = refl;
          stats = rw counted refl;
        },
      )
