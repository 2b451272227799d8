-- ===== src/Afxdp/Setup/Laws.antt =====
-- The state that afxdp_configure_socket sets up, and its error paths.
use afxdp_path_manager.Common.{
  ℕ, ◌+◌, ◌-◌, ◌≡◌, ap, ◌∙◌, inl, inr, List, [], ◌∷◌, ◌++◌, none, some, length, count, arith, Bool,
  true,
}
use afxdp_path_manager.Afxdp.Config.{num_frames, fill_ring_size}
use afxdp_path_manager.Afxdp.Frames.{init_frames, alloc_frames, frame_addrs}
use afxdp_path_manager.Afxdp.Frames.Laws.{
  IsValid, alloc_frames-Allocated, count-alloc_frames, length-alloc_frames, init_frames-IsValid,
  free_list-init_frames, free-init_frames,
}
use afxdp_path_manager.Afxdp.Ring.{Xsk, XskLaws, addrs}
use afxdp_path_manager.Afxdp.Datapath.{Socket}
use afxdp_path_manager.Afxdp.Datapath.Complete.{held, occupied, sent_out}
use afxdp_path_manager.Afxdp.Setup.{
  Resource, Event, acquired, released, UmemCalls, UmemInfo, SocketCalls, socket_info, xsk_socket,
  one, umem_info, umem_region, acquisitions, releases, populate, configure_umem, configure_socket,
  fill_and_return,
}

-- All frames are somewhere, each as often as in the UMEM; the counter is exact.
pub record IsWhole {X : Xsk} (frame_size : ℕ) (s : Socket X) : Type 0 where
  pub valid : IsValid s.frames
  pub size : occupied s ≡ num_frames
  pub counter : s.outstanding_tx ≡ sent_out s
  pub frames : (a : ℕ) → held a s ≡ count a (frame_addrs frame_size 0 num_frames)

-- The rings as the kernel hands them out.
pub record AreEmpty (X : Xsk) (umem : UmemInfo X) (c : SocketCalls X) : Type 0 where
  pub rx : X.rx.entries c.rx ≡ []
  pub tx : X.tx.entries c.tx ≡ []
  pub fq : X.fq.entries umem.fq ≡ []
  pub cq : X.cq.entries umem.cq ≡ []

module _ {X : Xsk} (L : XskLaws X) where
  -- The frames of the fill ring come from the top of the full stack.
  populate_filled :
      (z : ℕ) (umem : UmemInfo X) (c : SocketCalls X)
      → AreEmpty X umem c
      → let slots = X.fq.reserve umem.fq fill_ring_size in
        slots.0 ≡ fill_ring_size
        → X.fq.entries (populate X z umem c slots.1 slots.2).fq
          ≡ (alloc_frames fill_ring_size (init_frames z)).0
  unfolding populate
  populate_filled z umem c e granted =
      let n = fill_ring_size in
      let es = (alloc_frames n (init_frames z)).0 in
      let len = length-alloc_frames n (init_frames z) in
      rw len at (L.fq.publish umem.fq es (rw len granted)) ∙ ap (λ xs. xs ++ es) e.fq

  pub populate_posted :
      (z : ℕ) (umem : UmemInfo X) (c : SocketCalls X)
      → AreEmpty X umem c
      → let slots = X.fq.reserve umem.fq fill_ring_size in
        slots.0 ≡ fill_ring_size
        → length (X.fq.entries (populate X z umem c slots.1 slots.2).fq) ≡ fill_ring_size
  populate_posted z umem c e granted =
      ap length (populate_filled z umem c e granted)
      ∙ length-alloc_frames fill_ring_size (init_frames z)

  pub populate-IsWhole :
      (z : ℕ) (umem : UmemInfo X) (c : SocketCalls X)
      → AreEmpty X umem c
      → let slots = X.fq.reserve umem.fq fill_ring_size in
        slots.0 ≡ fill_ring_size → IsWhole z (populate X z umem c slots.1 slots.2)
  unfolding populate
  populate-IsWhole z umem c e granted =
      let n = fill_ring_size in
      let f = init_frames z in
      let v = init_frames-IsValid z in
      let a = alloc_frames-Allocated n f v in
      let len = length-alloc_frames n f in
      let filled = populate_filled z umem c e granted in
      let full = free-init_frames z in
      let enough : n - f.umem_frame_free ≡ 0 = omega (arith, full) in
      record {
        valid = a.valid;
        size = omega (
          arith,
          ap length filled,
          len,
          a.fewer,
          full,
          ap length e.rx,
          ap length e.tx,
          ap length e.cq,
        );
        counter = omega (arith, ap length e.tx, ap length e.cq);
        frames = λ b. omega (
          arith,
          ap (count b) filled,
          rw enough at (count-alloc_frames b n f v),
          ap (count b) (free_list-init_frames z),
          ap (λ xs. count b (addrs xs)) e.rx,
          ap (λ xs. count b (addrs xs)) e.tx,
          ap (count b) e.cq,
        );
      }

  -- A fresh fill ring grants all its slots.
  fresh_granted :
      (r : X.fq.Ring) → X.fq.entries r ≡ [] → (X.fq.reserve r fill_ring_size).0 ≡ fill_ring_size
  fresh_granted r e = elim (L.fq.nb_free_exact r fill_ring_size) [
    | inl enough ↦ L.fq.reserve_granted r fill_ring_size fill_ring_size enough
    | inr all ↦ L.fq.reserve_granted r fill_ring_size fill_ring_size (omega (arith, ap length e))
  ]

  -- If every library call succeeds on fresh rings, afxdp_configure_socket returns a socket with all
  -- frames, each once on the free list or the fill ring, and holds what it acquired.
  pub configure_socket_ok :
      (z : ℕ) (custom : Bool) (umem : UmemInfo X) (c : SocketCalls X)
      → AreEmpty X umem c
      → c.calloc_ok ≡ true
      → c.create_ret ≡ 0
      → c.update_ret ≡ 0
      → (s : Socket X) × (configure_socket X z custom umem c
          ≡ (some s, acquired socket_info ∷ acquired xsk_socket ∷ []))
        × IsWhole z s
  unfolding configure_socket fill_and_return
  configure_socket_ok z custom umem c e calloc create update =
      let slots = X.fq.reserve umem.fq fill_ring_size in
      let granted = fresh_granted umem.fq e.fq in
      (
        populate X z umem c slots.1 slots.2,
        ground (arith, granted),
        populate-IsWhole z umem c e granted,
      )

-- On every error path afxdp_configure_socket gives back what it acquired, each thing as often as it
-- acquired it.
pub configure_socket_no_leak :
    (X : Xsk) (z : ℕ) (custom : Bool) (umem : UmemInfo X) (c : SocketCalls X) (r : Resource)
    → (configure_socket X z custom umem c).0 ≡ none
    → acquisitions r (configure_socket X z custom umem c).1
      ≡ releases r (configure_socket X z custom umem c).1
unfolding configure_socket fill_and_return
configure_socket_no_leak X z custom umem c r h = ground arith

-- So does afxdp_configure_umem.
pub configure_umem_no_leak :
    (X : Xsk) (c : UmemCalls X) (r : Resource)
    → (configure_umem X c).0 ≡ none
    → acquisitions r (configure_umem X c).1 ≡ releases r (configure_umem X c).1
unfolding configure_umem
configure_umem_no_leak X c r h = ground arith

-- The account of the two functions: what is not given back belongs to the result.
pub configure_socket_account :
    (X : Xsk) (z : ℕ) (custom : Bool) (umem : UmemInfo X) (c : SocketCalls X) (r : Resource)
    → let ran = configure_socket X z custom umem c in
      acquisitions r ran.1
      ≡ releases r ran.1 + elim ran.0 [ none ↦ 0 | some s ↦ one r socket_info + one r xsk_socket ]
unfolding configure_socket fill_and_return
configure_socket_account X z custom umem c r = ground arith

pub configure_umem_account :
    (X : Xsk) (c : UmemCalls X) (r : Resource)
    → let ran = configure_umem X c in
      acquisitions r ran.1
      ≡ releases r ran.1 + elim ran.0 [ none ↦ 0 | some u ↦ one r umem_info + one r umem_region ]
unfolding configure_umem
configure_umem_account X c r = ground arith

pub acquisitions-append :
    (r : Resource) (es fs : List Event)
    → acquisitions r (es ++ fs) ≡ acquisitions r es + acquisitions r fs
acquisitions-append r [] fs = omega arith
acquisitions-append r (acquired q ∷ es) fs = omega (arith, acquisitions-append r es fs)
acquisitions-append r (released q ∷ es) fs = acquisitions-append r es fs

pub releases-append :
    (r : Resource) (es fs : List Event) → releases r (es ++ fs) ≡ releases r es + releases r fs
releases-append r [] fs = omega arith
releases-append r (acquired q ∷ es) fs = releases-append r es fs
releases-append r (released q ∷ es) fs = omega (arith, releases-append r es fs)
