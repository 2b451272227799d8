-- ===== src/Nfs/FairQueue/Tests.antt =====
-- The theorems on examples/fair_queue/fair_queue_helper.h, with three queues, of which the last has a packet.
use afxdp_path_manager.Common.{
  ℕ, zero, suc, ◌+◌, ◌%◌, ◌≡◌, ◌<◌, refl, sym, true, false, List, [], ◌∷◌, ◌++◌, none, some, count,
  replicate, length-replicate, get_elem?, if◌then◌else◌, ◌==◌, Bool-cases, inl, inr, arith,
}
use afxdp_path_manager.Nfs.FairQueue.{queue_size, Queue, FairQueue, enqueue, dequeue}
use afxdp_path_manager.Nfs.FairQueue.Fifo.{IsFifo, enqueue-IsFifo, dequeue-IsFifo, enqueue-stuck}
use afxdp_path_manager.Nfs.FairQueue.Turns.{IsFair, serve, serve-reaches}

abbrev eight : ℕ
eight = 8

-- One packet in slot 5
abbrev one : Queue
one = record {
  head = 5;
  tail = 6;
  pkts = λ i. if i == 5 then some 8 else none;
  lock = false;
  rx = 1;
  tx = 0;
  rx_drop = 0;
}

past : (i : ℕ) → 0 < i → get_elem? (eight ∷ []) i ≡ none
past zero h = absurd (omega (arith, h))
past (suc i) h = refl

one-IsFifo : IsFifo (8 ∷ []) one
one-IsFifo = record {
  inside = omega arith;
  fits = omega arith;
  ends = refl;
  slots = λ i h. elim (Bool-cases (i == 0)) [
    | inl e ↦ let first : i ≡ 0 = ground (arith, e) in rw first refl
    | inr e ↦
        let other : ((5 + i) % queue_size == 5) ≡ false = ground (arith, e, h) in
        rw other (sym (past i (ground (arith, e))))
  ];
  free = refl;
}

enqueue-IsFifo_example :
    (t : Queue) × (enqueue 9 one ≡ some (true, t)) × IsFifo ((8 ∷ []) ++ 9 ∷ []) t
enqueue-IsFifo_example = enqueue-IsFifo 9 (8 ∷ []) one one-IsFifo (omega arith)

dequeue-IsFifo_example : (t : Queue) × (dequeue one ≡ some (some 8, t)) × IsFifo [] t
dequeue-IsFifo_example = dequeue-IsFifo 8 [] one one-IsFifo

-- A ring full of packet 8
abbrev all_eight : Queue
all_eight = record one { head = 0; tail = 0; pkts = λ i. some 8 }

get_elem?-replicate : (n i : ℕ) → i < n → get_elem? (replicate n eight) i ≡ some 8
get_elem?-replicate zero i h = absurd (omega (arith, h))
get_elem?-replicate (suc n) zero h = refl
get_elem?-replicate (suc n) (suc i) h = get_elem?-replicate n i (omega (arith, h))

all_eight-IsFifo : IsFifo (replicate queue_size eight) all_eight
all_eight-IsFifo =
    let size = length-replicate queue_size eight in
    record {
      inside = omega arith;
      fits = omega (arith, size);
      ends = omega (arith, size);
      slots = λ i h. sym (get_elem?-replicate queue_size i h);
      free = refl;
    }

enqueue-stuck_example :
    (t : Queue) × (enqueue 9 all_eight ≡ some (false, t))
    × ((other : ℕ) → enqueue other t ≡ none)
    × (dequeue t ≡ none)
enqueue-stuck_example =
    enqueue-stuck 9 (replicate queue_size eight) all_eight all_eight-IsFifo
      (length-replicate queue_size eight)

abbrev three_queues : FairQueue
three_queues = record {
  fq = λ i. if i == 2 then one else record one { pkts = λ j. none };
  num_queues = 3;
  qid = 0;
}

three_queues-IsFair : IsFair three_queues
three_queues-IsFair = record { inside = omega arith; free = λ i h. ground arith }

serve-reaches_example :
    (r : List ℕ × FairQueue) × (serve 3 three_queues ≡ some r) × (0 < count 2 r.0)
serve-reaches_example =
    serve-reaches 3 2 three_queues three_queues-IsFair (omega arith) refl (omega arith)
