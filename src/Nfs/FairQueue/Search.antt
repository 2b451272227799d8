-- ===== src/Nfs/FairQueue/Search.antt =====
-- The search of get_dequeue_qid (examples/fair_queue/fair_queue_helper.h): which queue it finds.
use afxdp_path_manager.Common.{
  ℕ, zero, suc, ◌+◌, ◌-◌, ◌%◌, ◌<◌, ◌≡◌, ◌≢◌, refl, sym, ap, ◌∙◌, Bool, true, false, false≢true,
  Option, none, some, leb, ◌==◌, if◌then◌else◌, Bool-cases, inl, inr, arith,
}
use native.Mathlib.Nat.{mod_self, mod-eq_of_lt}
use afxdp_path_manager.Nfs.FairQueue.{FairQueue, is_null, find_qid}

-- The queue behind `qid`, and how many queues are before `id` from `qid` on
abbrev pub next_qid : ℕ → ℕ → ℕ
next_qid n qid = if qid + 1 == n then 0 else qid + 1

abbrev pub ahead : ℕ → ℕ → ℕ → ℕ
ahead n qid id = if leb qid id then id - qid else id + n - qid

next_qid_lem : (n qid : ℕ) → qid < n → (qid + 1) % n ≡ next_qid n qid
next_qid_lem n qid h = elim (Bool-cases (qid + 1 == n)) [
  | inl e ↦ let same : qid + 1 ≡ n = ground (arith, e) in rw (e, same) (mod_self n)
  | inr e ↦ rw e (mod-eq_of_lt (ground (arith, e, h)))
]

abbrev pub empty : FairQueue → ℕ → Bool
empty f id = is_null ((f.fq id).pkts (f.fq id).head)

-- What a search from `qid` over `todo` queues finds, and where it leaves the static variable
unfoldable pub Found : FairQueue → ℕ → ℕ → Option ℕ × ℕ → Type 0
Found f qid todo (none, q) =
    (q < f.num_queues)
    × ((j : ℕ) → j < f.num_queues → ahead f.num_queues qid j < todo → empty f j ≡ true)
Found f qid todo (some id, q) =
    (id < f.num_queues)
    × (empty f id ≡ false)
    × (q ≡ next_qid f.num_queues id)
    × ((j : ℕ)
        → j < f.num_queues
        → ahead f.num_queues qid j < ahead f.num_queues qid id
        → empty f j ≡ true)

ahead-zero : (n qid j : ℕ) → qid < n → j < n → ahead n qid j ≡ 0 → j ≡ qid
ahead-zero n qid j h k e = ground (arith, e, h, k)

ahead-next_qid :
    (n qid j : ℕ) → qid < n → j < n → j ≢ qid → ahead n qid j ≡ ahead n (next_qid n qid) j + 1
ahead-next_qid n qid j h k d = ground (arith, h, k, d)

-- An empty queue is passed over.
Found-next :
    (f : FairQueue) (qid todo : ℕ) (r : Option ℕ × ℕ)
    → qid < f.num_queues
    → empty f qid ≡ true
    → Found f (next_qid f.num_queues qid) todo r
    → Found f qid (suc todo) r
unfolding Found
Found-next f qid todo (none, q) h b (l, others) = (
  l,
  λ j k less. elim (Bool-cases (j == qid)) [
    | inl e ↦ let same : j ≡ qid = ground (arith, e) in rw same b
    | inr e ↦
        let other : j ≢ qid = ground (arith, e) in
        others j k (omega (arith, less, ahead-next_qid f.num_queues qid j h k other))
  ],
)
Found-next f qid todo (some id, q) h b (l, full, left, others) =
    let other_id : id ≢ qid = λ z. false≢true (sym full ∙ ap (empty f) z ∙ b) in
    (
      l,
      full,
      left,
      λ j k less. elim (Bool-cases (j == qid)) [
        | inl e ↦ let same : j ≡ qid = ground (arith, e) in rw same b
        | inr e ↦
            let other : j ≢ qid = ground (arith, e) in
            others j k (
              omega (
                arith,
                less,
                ahead-next_qid f.num_queues qid j h k other,
                ahead-next_qid f.num_queues qid id h l other_id,
              ))
      ],
    )

pub find_qid-Found :
    (todo start : ℕ) (f : FairQueue) (qid : ℕ)
    → qid < f.num_queues
    → start < f.num_queues
    → ahead f.num_queues (next_qid f.num_queues qid) start + 1 ≡ todo
    → (r : Option ℕ × ℕ) × (find_qid todo start f qid ≡ some r) × Found f qid todo r
unfolding find_qid Found
find_qid-Found zero start f qid h k e = absurd (omega (arith, e))
find_qid-Found (suc todo) start f qid h k e =
    let n = f.num_queues in
    let next = next_qid n qid in
    elim (Bool-cases (empty f qid)) [
      | inr b ↦ (
        (some qid, next),
        rw (next_qid_lem n qid h, b) refl,
        (h, b, refl, λ j l less. absurd (ground (arith, less))),
      )
      | inl b ↦ elim (Bool-cases (next == start)) [
        | inl c ↦ (
          (none, next),
          rw (next_qid_lem n qid h, b, c) refl,
          (
            ground (arith, h),
            λ j l less.
                let only : todo ≡ 0 = ground (arith, e, c, h) in
                let same = ahead-zero n qid j h l (omega (arith, less, only)) in rw same b,
          ),
        )
        | inr c ↦
            let inside : next < n = ground (arith, h) in
            let other : start ≢ next = ground (arith, c) in
            let (r, d, found) =
              find_qid-Found todo start f next inside k
                (omega (arith, e, ahead-next_qid n next start inside k other)) in
            (r, rw (next_qid_lem n qid h, b, c) d, Found-next f qid todo r h b found)
      ]
    ]
