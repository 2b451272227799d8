-- ===== src/Afxdp/Datapath/Refill.antt =====
-- Step 3 of afxdp_handle_receive: what the refill of the fill ring posts to the kernel.
use afxdp_path_manager.Common.{
  ℕ, suc, ◌+◌, ◌-◌, ◌≤◌, ◌≡◌, refl, ap, ◌++◌, some, length, count, take, replicate, reverse, arith,
  ltb, Bool-cases, inl, inr, count-append, length-append, ==_iff, sym, append-nil,
}
use afxdp_path_manager.Afxdp.Config.{invalid_umem_frame}
use afxdp_path_manager.Afxdp.Frames.{alloc_frames, umem_free_frames}
use afxdp_path_manager.Afxdp.Frames.Laws.{
  IsValid, free_list, alloc_frames-Allocated, count-alloc_frames, length-alloc_frames,
}
use afxdp_path_manager.Afxdp.Ring.{Xsk, XskLaws, write_all}
use afxdp_path_manager.Afxdp.Datapath.{Socket, refill, reserve_retry}
use afxdp_path_manager.Afxdp.Datapath.Complete.{held, occupied}

module _ {X : Xsk} where
  -- The slots that the refill fills, and how many of them it has no frame for.
  abbrev pub stock : Socket X → ℕ
  stock s = X.fq.nb_free s.fq s.frames.umem_frame_free

  abbrev pub missing : Socket X → ℕ
  missing s = stock s - s.frames.umem_frame_free

  -- The fill ring gets the free frames from the top of the stack, and then the sentinel in each
  -- slot that is left; nothing else changes.
  pub record Refilled (s t : Socket X) : Type 0 where
    pub posted :
        X.fq.entries t.fq
        ≡ X.fq.entries s.fq
          ++ (take (stock s) (reverse (free_list s.frames))
              ++ replicate (missing s) invalid_umem_frame)
    pub valid : IsValid t.frames
    pub frames : (a : ℕ) → held a t ≡ held a s + count a (replicate (missing s) invalid_umem_frame)
    pub size : occupied t ≡ occupied s + missing s
    pub rx : t.rx ≡ s.rx
    pub tx : t.tx ≡ s.tx
    pub cq : t.cq ≡ s.cq
    pub counter : t.outstanding_tx ≡ s.outstanding_tx
    pub stats : t.stats ≡ s.stats

module _ {X : Xsk} (L : XskLaws X) where
  -- The first reservation is granted: the loop goes round no more.
  reserve_retry_granted :
      (fuel : ℕ) (r : X.fq.Ring) (n m : ℕ)
      → m ≤ X.fq.nb_free r n
      → reserve_retry X (suc fuel) r m ≡ some ((X.fq.reserve r m).1, (X.fq.reserve r m).2)
  unfolding reserve_retry
  reserve_retry_granted fuel r n m h = rw ((==_iff _ _).1 (L.fq.reserve_granted r n m h)) refl

  abbrev refilled : Socket X → Socket X
  refilled s =
      let n = stock s in
      let slot = X.fq.reserve s.fq n in
      record s {
        fq = X.fq.submit (write_all X.fq slot.2 slot.1 (alloc_frames n s.frames).0) n;
        frames = (alloc_frames n s.frames).1;
      }

  refilled-Refilled : (s : Socket X) → IsValid s.frames → Refilled s (refilled s)
  refilled-Refilled s v =
      let n = stock s in
      let es = (alloc_frames n s.frames).0 in
      let a = alloc_frames-Allocated n s.frames v in
      let len = length-alloc_frames n s.frames in
      let granted : (X.fq.reserve s.fq (length es)).0 ≡ length es =
        rw len (L.fq.reserve_granted s.fq s.frames.umem_frame_free n (omega arith)) in
      let grown : X.fq.entries (refilled s).fq ≡ X.fq.entries s.fq ++ es =
        rw len at (L.fq.publish s.fq es granted) in
      record {
        posted = rw (← a.frames) grown;
        valid = a.valid;
        frames = λ b. omega (
          arith,
          ap (count b) grown,
          count-append b (X.fq.entries s.fq) es,
          count-alloc_frames b n s.frames v,
        );
        size = omega (arith, ap length grown, length-append (X.fq.entries s.fq) es, len, a.fewer);
        rx = refl;
        tx = refl;
        cq = refl;
        counter = refl;
        stats = refl;
      }

  idle-Refilled : (s : Socket X) → IsValid s.frames → stock s ≡ 0 → Refilled s s
  idle-Refilled s v e =
      let none_missing : missing s ≡ 0 = omega arith in
      record {
        posted = rw (none_missing, e) (sym (append-nil (X.fq.entries s.fq)));
        valid = v;
        frames = λ b. rw none_missing (omega arith);
        size = omega arith;
        rx = refl;
        tx = refl;
        cq = refl;
        counter = refl;
        stats = refl;
      }

  -- With room on the ring the first reservation is granted, and the call returns.
  pub refill_returns :
      (fuel : ℕ) (s : Socket X)
      → IsValid s.frames
      → (t : Socket X) × (refill X (suc fuel) s ≡ some t) × Refilled s t
  unfolding refill umem_free_frames
  refill_returns fuel s v = elim (Bool-cases (ltb 0 (stock s))) [
    | inl e ↦ (
      refilled s,
      rw (e, reserve_retry_granted fuel s.fq s.frames.umem_frame_free (stock s) (omega arith)) refl,
      refilled-Refilled s v,
    )
    | inr e ↦ (s, rw e refl, idle-Refilled s v (ground arith))
  ]
