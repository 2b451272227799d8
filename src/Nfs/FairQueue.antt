-- ===== src/Nfs/FairQueue.antt =====
-- The queues of examples/fair_queue/fair_queue_helper.h: rings of packets that are served in turn. A packet is the number of
-- its mbuf, and the lock of a queue is a flag. The static variable `qid` of get_dequeue_qid is a field. `none` is a wait for
-- a lock that nobody gives back, or an access out of bounds.
mod Fifo
mod Search
mod Turns
mod Tests
use afxdp_path_manager.Common.{
  ℕ, zero, suc, ◌+◌, ◌%◌, Bool, true, false, not, ◌&&◌, List, Option, none, some, ◌==◌,
  if◌then◌else◌, add_u64, update, ◌>>=◌,
}
use afxdp_path_manager.Flow.Key.{fill_key}

-- QUEUE_SIZE, which is NF_QUEUE_RINGSIZE
abbrev pub queue_size : ℕ
queue_size = 16384

-- `struct fairqueue_queue`; `none` in `pkts` is NULL.
pub record Queue : Type 0 where
  pub head : ℕ
  pub tail : ℕ
  pub pkts : ℕ → Option ℕ
  pub lock : Bool
  pub rx : ℕ
  pub tx : ℕ
  pub rx_drop : ℕ

-- `struct fairqueue_t`, with the static variable
pub record FairQueue : Type 0 where
  pub fq : ℕ → Queue
  pub num_queues : ℕ
  pub qid : ℕ

abbrev pub is_null : Option ℕ → Bool
is_null none = true
is_null (some pkt) = false

-- fairqueue_enqueue behind the choice of the queue: whether it answers 0, and the queue
unfoldable pub enqueue : ℕ → Queue → Option (Bool × Queue)
enqueue pkt q =
    if q.lock
    then none
    else if (q.head == q.tail) && not (is_null (q.pkts q.head))
    then some (false, record q { lock = true; rx_drop = add_u64 q.rx_drop 1 })
    else some (
      true,
      record q {
        pkts = update q.pkts q.tail (some pkt);
        tail = (q.tail + 1) % queue_size;
        rx = add_u64 q.rx 1;
      },
    )

-- fairqueue_dequeue behind the choice of the queue
unfoldable pub dequeue : Queue → Option (Option ℕ × Queue)
dequeue q =
    if q.lock
    then none
    else some (
      q.pkts q.head,
      record q {
        pkts = update q.pkts q.head none;
        head = (q.head + 1) % queue_size;
        tx = add_u64 q.tx 1;
      },
    )

-- The loop of get_dequeue_qid: the answer, and `qid`. It ends when `qid` is `start_qid` again; `fuel` bounds the rounds.
unfoldable pub find_qid : ℕ → ℕ → FairQueue → ℕ → Option (Option ℕ × ℕ)
find_qid zero start_qid f qid = none
find_qid (suc fuel) start_qid f qid =
    let q = f.fq qid in
    let next = (qid + 1) % f.num_queues in
    let rest = find_qid fuel start_qid f next in
    if is_null (q.pkts q.head)
    then if next == start_qid then some (none, next) else rest
    else some (some qid, next)

-- get_dequeue_qid
unfoldable pub get_dequeue_qid : FairQueue → Option (Option ℕ × ℕ)
unfolding find_qid
get_dequeue_qid f = find_qid f.num_queues f.qid f f.qid

-- fairqueue_dequeue: the queue that is served and its packet, or none
unfoldable pub fairqueue_dequeue : FairQueue → Option (Option (ℕ × Option ℕ) × FairQueue)
unfolding get_dequeue_qid dequeue
fairqueue_dequeue f = get_dequeue_qid f >>= λ (found, qid). elim found [
  | none ↦ some (none, record f { qid = qid })
  | some id ↦ dequeue (f.fq id) >>= λ (pkt, q).
      some (some (id, pkt), record f { fq = update f.fq id q; qid = qid })
]

-- get_enqueue_qid; `crc` is rte_hash_crc_4byte, and the inner `none` is -1.
unfoldable pub get_enqueue_qid : (ℕ → ℕ → ℕ) → ℕ → List ℕ → Option (Option ℕ)
unfolding fill_key
get_enqueue_qid crc num_queues bytes = fill_key bytes >>= λ filled. elim filled [
  | none ↦ some none
  | some key ↦
      let hash =
        crc key.dst_port
          (crc key.src_port (crc key.dst_addr (crc key.src_addr (crc key.proto num_queues)))) in
      some (some (hash % num_queues))
]

-- fairqueue_enqueue of a packet with these bytes
unfoldable pub fairqueue_enqueue : (ℕ → ℕ → ℕ) → ℕ → List ℕ → FairQueue → Option (Bool × FairQueue)
unfolding get_enqueue_qid enqueue
fairqueue_enqueue crc pkt bytes f = get_enqueue_qid crc f.num_queues bytes >>= λ found. elim found [
  | none ↦ some (false, f)
  | some id ↦ enqueue pkt (f.fq id) >>= λ (ok, q). some (ok, record f { fq = update f.fq id q })
]
