-- ===== src/Nfs/FairQueue/Turns.antt =====
-- The queues of examples/fair_queue/fair_queue_helper.h take turns: a queue with packets is served before any other is
-- served twice.
use afxdp_path_manager.Common.{
  ℕ, zero, suc, ◌+◌, ◌%◌, ◌≤◌, ◌<◌, ◌≡◌, ◌≢◌, refl, sym, ap, ◌∙◌, true, false, false≢true,
  Option-cases, List, [], ◌∷◌, Option, none, some, count, ltb, ◌==◌, add_u64, Bool-cases, inl, inr,
  arith, update, ◌>>=◌,
}
use afxdp_path_manager.Nfs.FairQueue.{
  queue_size, FairQueue, is_null, dequeue, get_dequeue_qid, fairqueue_dequeue,
}
use afxdp_path_manager.Nfs.FairQueue.Search.{next_qid, ahead, empty, Found, find_qid-Found}

-- The static variable names a queue, and no lock is held.
pub record IsFair (f : FairQueue) : Type 0 where
  pub inside : f.qid < f.num_queues
  pub free : (i : ℕ) → i < f.num_queues → (f.fq i).lock ≡ false

around : (n qid : ℕ) → qid < n → ahead n (next_qid n qid) qid + 1 ≡ n
around n qid h = ground (arith, h)

-- A queue served, as dequeue leaves it
abbrev taken : FairQueue → ℕ → FairQueue
taken f sid =
    let q = f.fq sid in
    record f {
      fq = update f.fq sid (record q {
        pkts = update q.pkts q.head none;
        head = (q.head + 1) % queue_size;
        tx = add_u64 q.tx 1;
      });
      qid = next_qid f.num_queues sid;
    }

taken-IsFair : (f : FairQueue) (sid : ℕ) → sid < f.num_queues → IsFair f → IsFair (taken f sid)
taken-IsFair f sid h v = record {
  inside = ground (arith, h);
  free = λ i k. elim (Bool-cases (i == sid)) [
    | inl e ↦ rw (update, e) (v.free sid h)
    | inr e ↦ rw (update, e) (v.free i k)
  ];
}

-- What a dequeue does: nothing if all queues are empty, or else it serves the first that is not.
data Turn (f : FairQueue) : Option (ℕ × Option ℕ) × FairQueue → Type 0 where
  nothing :
      {q : ℕ}
      → q < f.num_queues
      → ((j : ℕ) → j < f.num_queues → empty f j ≡ true)
      → Turn f (none, record f { qid = q })
  turn :
      {sid pkt : ℕ}
      → sid < f.num_queues
      → ((j : ℕ)
          → j < f.num_queues
          → empty f j ≡ false
          → ahead f.num_queues f.qid sid ≤ ahead f.num_queues f.qid j)
      → Turn f (some (sid, some pkt), taken f sid)

Found-Turn :
    (f : FairQueue) (r : Option ℕ × ℕ)
    → IsFair f
    → get_dequeue_qid f ≡ some r
    → Found f f.qid f.num_queues r
    → (d : Option (ℕ × Option ℕ) × FairQueue) × (fairqueue_dequeue f ≡ some d) × Turn f d
unfolding Found fairqueue_dequeue dequeue
Found-Turn f (none, q) v e (h, all) = (
  (none, record f { qid = q }),
  rw e refl,
  nothing h (λ j k. all j k (ground (arith, k, v.inside))),
)
Found-Turn f (some sid, q) v e (h, full, left, others) =
    elim (Option-cases ((f.fq sid).pkts (f.fq sid).head)) [
      | inl c ↦ absurd (false≢true (sym full ∙ ap is_null c))
      | inr (pkt, c) ↦ (
        (some (sid, some pkt), taken f sid),
        rw (e, v.free sid h, c, left) refl,
        turn h (λ j k full'.
            elim (Bool-cases (ltb (ahead f.num_queues f.qid j) (ahead f.num_queues f.qid sid))) [
              | inl less ↦ absurd (false≢true (sym full' ∙ others j k (ground (arith, less))))
              | inr less ↦ ground (arith, less)
            ]),
      )
    ]

fairqueue_dequeue-Turn :
    (f : FairQueue)
    → IsFair f
    → (d : Option (ℕ × Option ℕ) × FairQueue) × (fairqueue_dequeue f ≡ some d) × Turn f d
unfolding get_dequeue_qid
fairqueue_dequeue-Turn f v =
    let (r, e, found) =
      find_qid-Found f.num_queues f.qid f f.qid v.inside v.inside
        (around f.num_queues f.qid v.inside) in
    Found-Turn f r v e found

-- The queues that `n` dequeues serve, in order
unfoldable pub serve : ℕ → FairQueue → Option (List ℕ × FairQueue)
unfolding fairqueue_dequeue
serve zero f = some ([], f)
serve (suc n) f = fairqueue_dequeue f >>= λ (r, g).
    serve n g >>= λ (ids, h). some (elim r [ none ↦ ids | some (sid, pkt) ↦ sid ∷ ids ], h)

Turn-IsFair :
    (f : FairQueue) (d : Option (ℕ × Option ℕ) × FairQueue) → IsFair f → Turn f d → IsFair d.1
Turn-IsFair f (none, g) v (nothing h all) = record { inside = h; free = v.free }
Turn-IsFair f (some (sid, some pkt), g) v (turn h first) = taken-IsFair f sid h v
Turn-IsFair f (some (sid, none), g) v d = elim d [ ]

-- Every run of dequeues ends.
serve-defined : (n : ℕ) (f : FairQueue) → IsFair f → (r : List ℕ × FairQueue) × (serve n f ≡ some r)
unfolding serve
serve-defined zero f v = (([], f), refl)
serve-defined (suc n) f v =
    let ((r, g), e, d) = fairqueue_dequeue-Turn f v in
    let ((ids, h), k) = serve-defined n g (Turn-IsFair f (r, g) v d) in
    ((elim r [ none ↦ ids | some (sid, pkt) ↦ sid ∷ ids ], h), rw (e, k) refl)

-- Another queue served, this one is nearer.
ahead-taken :
    (n qid sid id : ℕ)
    → qid < n
    → sid < n
    → id < n
    → id ≢ sid
    → ahead n qid sid ≤ ahead n qid id
    → ahead n (next_qid n sid) id < ahead n qid id
ahead-taken n qid sid id h k l d e = ground (arith, h, k, l, d, e)

serve-next :
    (n id : ℕ) (f : FairQueue) (d : Option (ℕ × Option ℕ) × FairQueue)
    → IsFair f
    → id < f.num_queues
    → empty f id ≡ false
    → ahead f.num_queues f.qid id < suc n
    → fairqueue_dequeue f ≡ some d
    → Turn f d
    → ((g : FairQueue)
        → IsFair g
        → id < g.num_queues
        → empty g id ≡ false
        → ahead g.num_queues g.qid id < n
        → (r : List ℕ × FairQueue) × (serve n g ≡ some r) × (0 < count id r.0))
    → (r : List ℕ × FairQueue) × (serve (suc n) f ≡ some r) × (0 < count id r.0)
unfolding serve
serve-next n id f (none, g) v h full near e (nothing k all) others =
    absurd (false≢true (sym full ∙ all id h))
serve-next n id f (some (sid, none), g) v h full near e d others = elim d [ ]
serve-next n id f (some (sid, some pkt), g) v h full near e (turn k first) others =
    elim (Bool-cases (id == sid)) [
      | inl s ↦
          let ((ids, last), d) = serve-defined n (taken f sid) (taken-IsFair f sid k v) in
          ((sid ∷ ids, last), rw (e, d) refl, ground (arith, s))
      | inr s ↦
          let other : id ≢ sid = ground (arith, s) in
          let nearer = ahead-taken f.num_queues f.qid sid id v.inside k h other (first id h full) in
          let ((ids, last), d, found) =
            others (taken f sid) (taken-IsFair f sid k v) h (rw (update, s) full)
              (omega (arith, nearer, near)) in
          ((sid ∷ ids, last), rw (e, d) refl, ground (arith, found))
    ]

-- Let no lock be held. Then a queue with packets is served by the next dequeues, as many as there are queues from the one
-- whose turn it is up to it, and so at the latest when each queue has had its turn.
pub serve-reaches :
    (n id : ℕ) (f : FairQueue)
    → IsFair f
    → id < f.num_queues
    → empty f id ≡ false
    → ahead f.num_queues f.qid id < n
    → (r : List ℕ × FairQueue) × (serve n f ≡ some r) × (0 < count id r.0)
serve-reaches zero id f v h full near = absurd (omega (arith, near))
serve-reaches (suc n) id f v h full near =
    let (d, e, what) = fairqueue_dequeue-Turn f v in
    serve-next n id f d v h full near e what
      (λ g v' h' full' near'. serve-reaches n id g v' h' full' near')
