-- ===== src/Afxdp/Datapath/Complete.antt =====
-- afxdp_complete_tx: the completed frames come back, and none is lost.
use afxdp_path_manager.Common.{
  ℕ, ◌<◌, ◌⊎◌, ◌++◌, sym, append-nil, ==_iff, ◌+◌, ◌-◌, ◌≤◌, ◌≡◌, refl, ap, ◌∙◌, List, Option, some,
  length, count, take, drop, map-append, arith, ltb, if◌then◌else◌, ◌==◌, Bool-cases, inl, inr,
  count-append, length-append, length-map, length-take, length-drop, count-take-drop,
}
use afxdp_path_manager.Afxdp.Config.{num_frames, comp_ring_size}
use afxdp_path_manager.Afxdp.Frames.{Frames}
use afxdp_path_manager.Afxdp.Frames.Laws.{
  IsValid, Freed, free_list, free_frames-Freed, free_frames-total,
}
use afxdp_path_manager.Afxdp.Ring.{Desc, addrs, Xsk, XskLaws}
use afxdp_path_manager.Afxdp.Datapath.{Socket, reclaim, complete_tx}

module _ {X : Xsk} where
  -- How often an address stands on the free list or in one of the four rings.
  abbrev pub held : ℕ → Socket X → ℕ
  held a s =
      count a (free_list s.frames)
      + count a (X.fq.entries s.fq)
      + count a (addrs (X.rx.entries s.rx))
      + count a (addrs (X.tx.entries s.tx))
      + count a (X.cq.entries s.cq)

  -- How many frames are on the free list and in the rings.
  abbrev pub occupied : Socket X → ℕ
  occupied s =
      s.frames.umem_frame_free
      + length (X.fq.entries s.fq)
      + length (X.rx.entries s.rx)
      + length (X.tx.entries s.tx)
      + length (X.cq.entries s.cq)

  -- The descriptors that user space has submitted and not seen completed.
  abbrev pub sent_out : Socket X → ℕ
  sent_out s = length (X.tx.entries s.tx) + length (X.cq.entries s.cq)

  -- The frames that user space may use for reception, now or later.
  abbrev pub at_hand : Socket X → ℕ
  at_hand s = s.frames.umem_frame_free + length (X.fq.entries s.fq)

  -- What a call leaves as it was: the frames, each as often as before, and the distance between
  -- the counter and the descriptors sent out; and the free list and the fill ring together have no
  -- fewer frames than before.
  pub record Keeps (s t : Socket X) : Type 0 where
    pub valid : IsValid t.frames
    pub frames : (a : ℕ) → held a t ≡ held a s
    pub size : occupied t ≡ occupied s
    pub counter : t.outstanding_tx + sent_out s ≡ s.outstanding_tx + sent_out t
    pub stocked : at_hand s ≤ at_hand t

  pub Keeps-trans : {s t u : Socket X} → Keeps s t → Keeps t u → Keeps s u
  Keeps-trans {s} {t} {u} k l = record {
    valid = l.valid;
    frames = λ a. l.frames a ∙ k.frames a;
    size = l.size ∙ k.size;
    counter = omega (arith, k.counter, l.counter);
    stocked = omega (arith, k.stocked, l.stocked);
  }

  -- A socket that the datapath may run on: no more frames than there are, and a counter that is no
  -- less than the descriptors sent out, and exceeds them by no more than the kernel can hold.
  pub record IsSound (s : Socket X) : Type 0 where
    pub valid : IsValid s.frames
    pub fits : occupied s ≤ num_frames
    pub sent : sent_out s ≤ s.outstanding_tx
    pub flight : s.outstanding_tx ≤ sent_out s + num_frames

  pub Keeps-IsSound : {s t : Socket X} → IsSound s → Keeps s t → IsSound t
  Keeps-IsSound {s} {t} v k = record {
    valid = k.valid;
    fits = omega (arith, k.size, v.fits);
    sent = omega (arith, k.counter, v.sent);
    flight = omega (arith, k.counter, v.flight);
  }

  -- A call returns, and keeps all that.
  abbrev pub Returns : Socket X → Option (Socket X) → Type 0
  Returns s r = (t : Socket X) × (r ≡ some t) × Keeps s t

module _ {X : Xsk} (L : XskLaws X) where
  -- The entries that a look at the completion ring reports.
  abbrev completions : Socket X → ℕ → List ℕ
  completions s n = take (X.cq.peek s.cq n).0 (X.cq.entries s.cq)

  -- the socket that `reclaim` leaves behind the release of the reported entries
  abbrev reclaimed : Socket X → ℕ → Frames → Socket X
  reclaimed s n g =
      let k = (X.cq.peek s.cq n).0 in
      record s {
        frames = g;
        cq = X.cq.release (X.cq.peek s.cq n).2 k;
        outstanding_tx =
            s.outstanding_tx - (if ltb k s.outstanding_tx then k else s.outstanding_tx);
      }

  reclaimed-Keeps :
      (s : Socket X) (n : ℕ) (g : Frames)
      → Freed s.frames (completions s n) g
      → sent_out s ≤ s.outstanding_tx
      → Keeps s (reclaimed s n g)
  reclaimed-Keeps s n g f h =
      let k = (X.cq.peek s.cq n).0 in
      let cq = X.cq.entries s.cq in
      let avail : k ≤ length cq = L.cq.peek_avail s.cq n in
      let taken : length (completions s n) ≡ k = omega (arith, length-take k cq) in
      let left : X.cq.entries (reclaimed s n g).cq ≡ drop k cq = L.cq.release_peeked s.cq n in
      let rest : length (X.cq.entries (reclaimed s n g).cq) + k ≡ length cq =
        rw left (omega (arith, length-drop k cq)) in
      record {
        valid = f.valid;
        frames = λ a. omega (
          arith,
          ap (count a) f.stack,
          ap (count a) left,
          count-append a (free_list s.frames) (completions s n),
          count-take-drop a k cq,
        );
        size = omega (arith, f.more, taken, rest);
        counter = ground (arith, rest, avail);
        stocked = omega (arith, f.more);
      }

  -- What the completions do to a socket whose kernel has been woken: the reported entries leave the ring for the top
  -- of the free list, in order, and the counter falls by their number; the rest stays as it was.
  pub record Drained (s t : Socket X) : Type 0 where
    pub reported : ℕ
    pub looked : (X.cq.peek s.cq comp_ring_size).0 ≡ reported
    pub ring : X.cq.entries t.cq ≡ drop reported (X.cq.entries s.cq)
    pub freed : free_list t.frames ≡ free_list s.frames ++ take reported (X.cq.entries s.cq)
    pub counter : t.outstanding_tx + reported ≡ s.outstanding_tx
    pub rx : t.rx ≡ s.rx
    pub tx : t.tx ≡ s.tx
    pub fq : t.fq ≡ s.fq
    pub stats : t.stats ≡ s.stats

  reclaim-Returns :
      (s : Socket X)
      → IsValid s.frames
      → s.frames.umem_frame_free + length (X.cq.entries s.cq) ≤ num_frames
      → sent_out s ≤ s.outstanding_tx
      → (t : Socket X) × (reclaim X s (X.cq.peek s.cq comp_ring_size) ≡ some t)
        × Keeps s t
        × Drained s t
  unfolding reclaim
  reclaim-Returns s v h out =
      let n = comp_ring_size in
      let k = (X.cq.peek s.cq n).0 in
      elim (Bool-cases (ltb 0 k)) [
        | inl e ↦
            let reads = L.cq.read_peeked s.cq n in
            let fits : s.frames.umem_frame_free + length (completions s n) ≤ num_frames =
              omega (arith, length-take k (X.cq.entries s.cq)) in
            let (g, eg) = free_frames-total (completions s n) s.frames fits in
            let f = free_frames-Freed (completions s n) s.frames v eg in
            let few : k ≤ s.outstanding_tx = omega (arith, L.cq.peek_avail s.cq n) in
            (
              reclaimed s n g,
              rw (e, reads, eg) refl,
              reclaimed-Keeps s n g f out,
              record {
                reported = k;
                looked = refl;
                ring = L.cq.release_peeked s.cq n;
                freed = f.stack;
                counter = ground (arith, few);
                rx = refl;
                tx = refl;
                fq = refl;
                stats = refl;
              },
            )
        | inr e ↦
            let same = L.cq.peek_keeps s.cq n in
            let zero_seen : k ≡ 0 = ground (arith, e) in
            (
              record s { cq = (X.cq.peek s.cq n).2 },
              rw e refl,
              record {
                valid = v;
                frames = λ a. rw same refl;
                size = rw same refl;
                counter = rw same refl;
                stocked = omega arith;
              },
              record {
                reported = 0;
                looked = zero_seen;
                ring = same;
                freed = sym (append-nil (free_list s.frames));
                counter = omega arith;
                rx = refl;
                tx = refl;
                fq = refl;
                stats = refl;
              },
            )
      ]

  abbrev pub kicked : Socket X → Socket X
  kicked s = record s { tx = (X.sendto s.tx s.cq).0; cq = (X.sendto s.tx s.cq).1 }

  kicked-Keeps : (s : Socket X) → IsValid s.frames → Keeps s (kicked s)
  kicked-Keeps s v =
      let (sent, before, after) = L.sendto_sent s.tx s.cq in
      let lens : length (X.tx.entries s.tx) + length (X.cq.entries s.cq)
          ≡ length (X.tx.entries (kicked s).tx) + length (X.cq.entries (kicked s).cq) =
        rw (before, after)
          (omega (
            arith,
            length-append sent (X.tx.entries (kicked s).tx),
            length-append (X.cq.entries s.cq) (addrs sent),
            length-map (λ (d : Desc). d.addr) sent,
          )) in
      record {
        valid = v;
        frames = λ a.
            rw (before, after)
              (omega (
                arith,
                ap (count a) (map-append (λ (d : Desc). d.addr) sent (X.tx.entries (kicked s).tx)),
                count-append a (addrs sent) (addrs (X.tx.entries (kicked s).tx)),
                count-append a (X.cq.entries s.cq) (addrs sent),
              ));
        size = omega (arith, lens);
        counter = omega (arith, lens);
        stocked = omega arith;
      }

  -- On a sound socket afxdp_complete_tx fails no assertion, and returns. When nothing is outstanding it changes
  -- nothing. Otherwise it wakes the kernel, and what the completion ring then reports leaves the ring for the top of
  -- the free list, in order; the counter falls by the number of these frames; the other rings are as the kernel left
  -- them; and every frame is kept.
  pub complete_tx-Drained :
      (s : Socket X)
      → IsSound s
      → ((s.outstanding_tx ≡ 0) × (complete_tx X s ≡ some s))
        ⊎ ((0 < s.outstanding_tx)
            × ((t : Socket X) × (complete_tx X s ≡ some t) × Keeps s t × Drained (kicked s) t))
  unfolding complete_tx
  complete_tx-Drained s v = elim (Bool-cases (s.outstanding_tx == 0)) [
    | inl e ↦ inl ((==_iff s.outstanding_tx 0).0 e, rw e refl)
    | inr e ↦
        let k = kicked-Keeps s v.valid in
        let (t, et, l, d) =
          reclaim-Returns (kicked s) v.valid (omega (arith, k.size, v.fits))
            (omega (arith, k.counter, v.sent)) in
        let some_out : 0 < s.outstanding_tx = ground (arith, e) in
        inr (some_out, (t, rw e et, Keeps-trans k l, d))
  ]

  -- Every frame is kept, whether the ring is drained or not.
  pub complete_tx-Returns : (s : Socket X) → IsSound s → Returns s (complete_tx X s)
  complete_tx-Returns s v = elim (complete_tx-Drained s v) [
    | inl (e, r) ↦ (
      s,
      r,
      record {
        valid = v.valid;
        frames = λ a. refl;
        size = refl;
        counter = refl;
        stocked = omega arith;
      },
    )
    | inr (h, (t, r, k, d)) ↦ (t, r, k)
  ]
