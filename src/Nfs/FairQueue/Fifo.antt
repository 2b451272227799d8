-- ===== src/Nfs/FairQueue/Fifo.antt =====
-- Each queue of examples/fair_queue/fair_queue_helper.h is a list, first in first out, until it overflows.
use afxdp_path_manager.Common.{
  ℕ, zero, suc, ◌+◌, ◌%◌, ◌≤◌, ◌<◌, ◌≡◌, refl, sym, ap, ◌∙◌, true, false, not, List, [], ◌∷◌, ◌++◌,
  none, some, length, length-append, get_elem?, add_u64, ◌==◌, if◌then◌else◌, ◌&&◌, Bool-cases, inl,
  inr, arith, update,
}
use afxdp_path_manager.Nfs.FairQueue.{queue_size, Queue, is_null, enqueue, dequeue}

-- The ring holds these packets, the oldest at the head, and nobody holds the lock.
pub record IsFifo (items : List ℕ) (q : Queue) : Type 0 where
  pub inside : q.head < queue_size
  pub fits : length items ≤ queue_size
  pub ends : q.tail ≡ (q.head + length items) % queue_size
  pub slots : (i : ℕ) → i < queue_size → q.pkts ((q.head + i) % queue_size) ≡ get_elem? items i
  pub free : q.lock ≡ false

get_elem?-snoc :
    (items : List ℕ) (pkt i : ℕ)
    → get_elem? (items ++ pkt ∷ []) i ≡ (if i == length items then some pkt else get_elem? items i)
get_elem?-snoc [] pkt zero = ground arith
get_elem?-snoc [] pkt (suc i) = ground arith
get_elem?-snoc (x ∷ items) pkt zero = ground arith
get_elem?-snoc (x ∷ items) pkt (suc i) = ground (arith, get_elem?-snoc items pkt i)

get_elem?-past : (items : List ℕ) (i : ℕ) → length items ≤ i → get_elem? items i ≡ none
get_elem?-past [] i h = refl
get_elem?-past (x ∷ items) zero h = absurd (omega (arith, h))
get_elem?-past (x ∷ items) (suc i) h = get_elem?-past items i (omega (arith, h))

-- The oldest packet is at the head.
head_lem : (items : List ℕ) (q : Queue) → IsFifo items q → q.pkts q.head ≡ get_elem? items 0
head_lem items q v =
    let at : (q.head + 0) % queue_size ≡ q.head = omega (arith, v.inside) in
    ap q.pkts (sym at) ∙ v.slots 0 (omega arith)

-- The test of fairqueue_enqueue says whether the ring is full.
full_lem :
    (items : List ℕ) (q : Queue)
    → IsFifo items q
    → ((q.head == q.tail) && not (is_null (q.pkts q.head))) ≡ (length items == queue_size)
full_lem [] q v =
    rw (head_lem [] q v)
      (elim (Bool-cases (q.head == q.tail)) [ inl e ↦ rw e refl | inr e ↦ rw e refl ])
full_lem (x ∷ items) q v =
    let meets : (q.head == (q.head + length (x ∷ items)) % queue_size)
        ≡ (length (x ∷ items) == queue_size) =
      ground (arith, v.fits, v.inside) in
    rw (head_lem (x ∷ items) q v, v.ends, meets)
      (elim (Bool-cases (length (x ∷ items) == queue_size)) [
        | inl e ↦ rw e refl
        | inr e ↦ rw e refl
      ])

-- With room a packet goes to the end.
pub enqueue-IsFifo :
    (pkt : ℕ) (items : List ℕ) (q : Queue)
    → IsFifo items q
    → length items < queue_size
    → (t : Queue) × (enqueue pkt q ≡ some (true, t)) × IsFifo (items ++ pkt ∷ []) t
unfolding enqueue
enqueue-IsFifo pkt items q v room =
    let t : Queue = record q {
      pkts = update q.pkts q.tail (some pkt);
      tail = (q.tail + 1) % queue_size;
      rx = add_u64 q.rx 1;
    } in
    let not_full : ((q.head == q.tail) && not (is_null (q.pkts q.head))) ≡ false =
      full_lem items q v ∙ ground (arith, room) in
    (
      t,
      rw (v.free, not_full) refl,
      record {
        inside = v.inside;
        fits = omega (arith, length-append items (pkt ∷ []), room);
        ends = rw v.ends (omega (arith, length-append items (pkt ∷ [])));
        slots = λ i h. elim (Bool-cases (i == length items)) [
          | inl e ↦
              let same : i ≡ length items = ground (arith, e) in
              let here : ((q.head + i) % queue_size == q.tail) ≡ true =
                ground (arith, same, v.ends) in
              rw (update, here, get_elem?-snoc items pkt i, e) refl
          | inr e ↦
              let there : ((q.head + i) % queue_size == q.tail) ≡ false =
                ground (arith, e, h, room, v.ends, v.inside) in
              rw (update, there, get_elem?-snoc items pkt i, e) (v.slots i h)
        ];
        free = v.free;
      },
    )

-- The oldest packet is taken off; an empty queue answers NULL.
pub dequeue-IsFifo :
    (pkt : ℕ) (items : List ℕ) (q : Queue)
    → IsFifo (pkt ∷ items) q
    → (t : Queue) × (dequeue q ≡ some (some pkt, t)) × IsFifo items t
unfolding dequeue
dequeue-IsFifo pkt items q v =
    let t : Queue = record q {
      pkts = update q.pkts q.head none;
      head = (q.head + 1) % queue_size;
      tx = add_u64 q.tx 1;
    } in
    (
      t,
      rw (v.free, head_lem (pkt ∷ items) q v) refl,
      record {
        inside = omega arith;
        fits = omega (arith, v.fits);
        ends = rw v.ends (omega arith);
        slots = λ i h. elim (Bool-cases (suc i == queue_size)) [
          | inl e ↦
              let here : (((q.head + 1) % queue_size + i) % queue_size == q.head) ≡ true =
                ground (arith, e, v.inside) in
              rw (update, here) (sym (get_elem?-past items i (ground (arith, e, v.fits))))
          | inr e ↦
              let there : (((q.head + 1) % queue_size + i) % queue_size == q.head) ≡ false =
                ground (arith, e, h, v.inside) in
              let at : ((q.head + 1) % queue_size + i) % queue_size
                  ≡ (q.head + suc i) % queue_size =
                omega arith in
              rw (update, there, at) (v.slots (suc i) (ground (arith, e, h)))
        ];
        free = v.free;
      },
    )

-- Without room the packet is refused, and the lock is kept: no other packet gets into the queue or out of it.
pub enqueue-stuck :
    (pkt : ℕ) (items : List ℕ) (q : Queue)
    → IsFifo items q
    → length items ≡ queue_size
    → (t : Queue) × (enqueue pkt q ≡ some (false, t))
      × ((other : ℕ) → enqueue other t ≡ none)
      × (dequeue t ≡ none)
unfolding enqueue dequeue
enqueue-stuck pkt items q v full =
    let t : Queue = record q { lock = true; rx_drop = add_u64 q.rx_drop 1 } in
    let is_full : ((q.head == q.tail) && not (is_null (q.pkts q.head))) ≡ true =
      full_lem items q v ∙ ground (arith, full) in
    (t, rw (v.free, is_full) refl, λ other. refl, refl)
