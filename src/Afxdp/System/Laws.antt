-- ===== src/Afxdp/System/Laws.antt =====
-- What the kernel's moves and the rounds of the receive loop keep, in whatever order they come.
use afxdp_path_manager.Common.{
  ℕ, suc, ltb, Bool-cases, inl, inr, ◌⊎◌, sym, ◌+◌, ◌*◌, ◌/◌, ◌≤◌, ◌<◌, ◌≡◌, ap, ◌∙◌, [], ◌∷◌, ◌++◌,
  some, length, count, arith, u32_mod, length-append, count-append,
}
use afxdp_path_manager.Afxdp.Config.{
  num_frames, fill_ring_size, rx_ring_size, comp_ring_size, invalid_umem_frame,
}
use afxdp_path_manager.Afxdp.Frames.{frame_addrs}
use afxdp_path_manager.Afxdp.Frames.Laws.{free_list}
use afxdp_path_manager.Afxdp.Ring.{addrs, Xsk, XskLaws}
use afxdp_path_manager.Afxdp.Datapath.{Socket, handle_receive}
use afxdp_path_manager.Afxdp.Datapath.Complete.{held, at_hand, Keeps, IsSound}
use afxdp_path_manager.Afxdp.Datapath.Handle.{Handled, handle_receive_returns}
use afxdp_path_manager.Afxdp.Setup.Laws.{IsWhole}
use afxdp_path_manager.Afxdp.System.{
  System, Move, take_frame, deliver, take_desc, complete, Reach, here, kernel, receive, IsStocked,
  places, spread, IsIntact,
}
use afxdp_path_manager.Afxdp.System.Frames.{
  tally, tally-cons, tally-moved, tally-addrs-append, tally-append, tally_agree, tally_cong,
  count-le-tally, tally-frame_addrs-le, tally-invalid,
}

module _ (z : ℕ) {X : Xsk} where
  count-places : (a : ℕ) (s : Socket X) → count a (places z s) ≡ held a s
  count-places a s =
      let cq = X.cq.entries s.cq in
      let tx = addrs (X.tx.entries s.tx) in
      let rx = addrs (X.rx.entries s.rx) in
      let fq = X.fq.entries s.fq in
      omega (
        arith,
        count-append a (free_list s.frames) (fq ++ (rx ++ (tx ++ cq))),
        count-append a fq (rx ++ (tx ++ cq)),
        count-append a rx (tx ++ cq),
        count-append a tx cq,
      )

  tally-places :
      (k : ℕ) (s : Socket X)
      → tally z k (places z s)
        ≡ tally z k (free_list s.frames)
          + tally z k (X.fq.entries s.fq)
          + tally z k (addrs (X.rx.entries s.rx))
          + tally z k (addrs (X.tx.entries s.tx))
          + tally z k (X.cq.entries s.cq)
  tally-places k s =
      let cq = X.cq.entries s.cq in
      let tx = addrs (X.tx.entries s.tx) in
      let rx = addrs (X.rx.entries s.rx) in
      let fq = X.fq.entries s.fq in
      omega (
        arith,
        tally-append z k (free_list s.frames) (fq ++ (rx ++ (tx ++ cq))),
        tally-append z k fq (rx ++ (tx ++ cq)),
        tally-append z k rx (tx ++ cq),
        tally-append z k tx cq,
      )

  -- The socket that the set-up returns, with nothing in the kernel's hands
  pub IsWhole-IsIntact :
      (s : Socket X)
      → IsWhole z s
      → IsIntact z (record { socket = s; rx_flight = []; tx_flight = [] })
  unfolding tally
  IsWhole-IsIntact s w = record {
    valid = w.valid;
    size = omega (arith, w.size);
    counter = omega (arith, w.counter);
    frames = λ k.
        let same =
          tally_cong z k (places z s) (frame_addrs z 0 num_frames)
            (λ a. count-places a s ∙ w.frames a) in
        omega (arith, same);
  }

  pub Move-IsIntact : {v w : System X} → IsIntact z v → Move z v w → IsIntact z w
  unfolding tally
  Move-IsIntact i (take_frame y a fq e) = record {
    valid = i.valid;
    size = omega (arith, i.size, ap length e);
    counter = i.counter;
    frames = λ k.
        let s = y.socket in
        let t : Socket X = record s { fq = fq } in
        omega (
          arith,
          i.frames k,
          tally-places k s,
          tally-places k t,
          ap (tally z k) e,
          tally-cons z k a (X.fq.entries fq),
          tally-cons z k a y.rx_flight,
        );
  }
  Move-IsIntact i (deliver y a front back d rx e same f) = record {
    valid = i.valid;
    size = omega (
      arith,
      i.size,
      ap length e,
      ap length f,
      length-append front (a ∷ back),
      length-append front back,
      length-append (X.rx.entries y.socket.rx) (d ∷ []),
    );
    counter = i.counter;
    frames = λ k.
        let s = y.socket in
        let t : Socket X = record s { rx = rx } in
        omega (
          arith,
          i.frames k,
          tally-places k s,
          tally-places k t,
          ap (λ ds. tally z k (addrs ds)) f,
          tally-addrs-append z k (X.rx.entries s.rx) d,
          tally_agree z k d.addr a same,
          tally-moved z k a front back y.rx_flight e,
        );
  }
  Move-IsIntact i (take_desc y d tx e) = record {
    valid = i.valid;
    size = omega (arith, i.size, ap length e);
    counter = omega (arith, i.counter, ap length e);
    frames = λ k.
        let s = y.socket in
        let t : Socket X = record s { tx = tx } in
        omega (
          arith,
          i.frames k,
          tally-places k s,
          tally-places k t,
          ap (λ ds. tally z k (addrs ds)) e,
          tally-cons z k d.addr (addrs (X.tx.entries tx)),
          tally-cons z k d.addr y.tx_flight,
        );
  }
  Move-IsIntact i (complete y a front back cq e f) =
      let lens : length (X.cq.entries cq) + length (front ++ back)
          ≡ length (X.cq.entries y.socket.cq) + length y.tx_flight =
        omega (
          arith,
          ap length e,
          ap length f,
          length-append front (a ∷ back),
          length-append front back,
          length-append (X.cq.entries y.socket.cq) (a ∷ []),
        ) in
      record {
        valid = i.valid;
        size = omega (arith, i.size, lens);
        counter = omega (arith, i.counter, lens);
        frames = λ k.
            let s = y.socket in
            let t : Socket X = record s { cq = cq } in
            omega (
              arith,
              i.frames k,
              tally-places k s,
              tally-places k t,
              ap (tally z k) f,
              tally-append z k (X.cq.entries s.cq) (a ∷ []),
              tally-moved z k a front back y.tx_flight e,
            );
      }

module _ (z : ℕ) {X : Xsk} (L : XskLaws X) where
  Keeps-IsIntact :
      (y : System X) (t : Socket X)
      → IsIntact z y
      → Keeps y.socket t
      → IsIntact z (record y { socket = t })
  Keeps-IsIntact y t i k = record {
    valid = k.valid;
    size = omega (arith, k.size, i.size);
    counter = omega (arith, k.counter, i.counter);
    frames = λ f.
        let same =
          tally_cong z f (places z t) (places z y.socket)
            (λ a. count-places z a t ∙ k.frames a ∙ sym (count-places z a y.socket)) in
        omega (arith, same, i.frames f);
  }

  -- A round on an intact system with a fill ring's worth at hand
  pub receive_IsIntact :
      (fuel : ℕ) (y : System X)
      → IsIntact z y
      → fill_ring_size ≤ at_hand y.socket
      → (t : Socket X) × (handle_receive X (suc fuel) y.socket ≡ some t)
        × Handled L y.socket t
        × IsIntact z (record y { socket = t })
  receive_IsIntact fuel y i h =
      let sound : IsSound y.socket = record {
        valid = i.valid;
        fits = omega (arith, i.size);
        sent = omega (arith, i.counter);
        flight = omega (arith, i.counter, i.size);
      } in
      let (t, e, handled) = handle_receive_returns L fuel y.socket sound h in
      (t, e, handled, Keeps-IsIntact y t i handled.kept)

  intact : {y w : System X} → IsIntact z y → (r : Reach z y w) → IsStocked z r → IsIntact z w
  unfolding IsStocked
  intact i here s = i
  intact i (kernel r m) s = Move-IsIntact z (intact i r s) m
  intact i (receive {v} fuel t r e) (s, h) =
      let (u, eu, handled, iu) = receive_IsIntact fuel v (intact i r s) h in
      let same : t ≡ u = cc in rw same iu

  -- A kernel that holds no more than a ring's worth for each direction leaves a fill ring's worth at hand.
  pub at_hand-le :
      (y : System X)
      → IsIntact z y
      → length (X.rx.entries y.socket.rx) + length y.rx_flight ≤ rx_ring_size
      → length (X.cq.entries y.socket.cq) + length y.tx_flight ≤ comp_ring_size
      → fill_ring_size ≤ at_hand y.socket
  at_hand-le y i h k = omega (arith, i.size, L.tx.nb_free_bound y.socket.tx 0, h, k)

  -- Let the system be intact at first. Between rounds the kernel takes frames off the rings and keeps them,
  -- hands received ones back with the packet anywhere in the frame, and completes transmissions in any order.
  -- As long as each round of the receive loop began with a fill ring's worth of frames on the free list and the
  -- fill ring together, whatever the order of moves and rounds: each frame of the UMEM is on the free list, in
  -- a ring or with the kernel, as often as at first, and the counter of outstanding transmissions is the number
  -- of descriptors sent out and not yet reclaimed. Then either less than a fill ring's worth is at hand, or the
  -- next round returns with one try per reservation, does what `Handled` says and keeps all this.
  pub Reach-IsIntact :
      {y w : System X} (fuel : ℕ)
      → IsIntact z y
      → (r : Reach z y w) → IsStocked z r
      → IsIntact z w
        × ((at_hand w.socket < fill_ring_size)
            ⊎ ((t : Socket X) × (handle_receive X (suc fuel) w.socket ≡ some t)
                × Handled L w.socket t
                × IsIntact z (record w { socket = t })))
  Reach-IsIntact {w} fuel i r s =
      let v = intact i r s in
      (
        v,
        elim (Bool-cases (ltb (at_hand w.socket) fill_ring_size)) [
          | inl e ↦ inl (ground (arith, e))
          | inr e ↦ inr (receive_IsIntact fuel w v (ground (arith, e)))
        ],
      )

  -- Let the system be intact at first. Between rounds the kernel takes frames off the rings and keeps them,
  -- hands received ones back with the packet anywhere in the frame, and completes transmissions in any order.
  -- Let frames have a positive size with which the UMEM's addresses fit in 32 bits, and let each round of the
  -- receive loop begin with a fill ring's worth of frames at hand. Then at no time does a frame stand twice on
  -- the free list, in the rings and in the kernel's hands together, and the sentinel is never on the fill ring.
  pub Reach-unique :
      {y w : System X}
      → 0 < z
      → num_frames * z ≤ u32_mod
      → IsIntact z y
      → (r : Reach z y w) → IsStocked z r
      → ((k : ℕ) → spread z k w ≤ 1) × (count invalid_umem_frame (X.fq.entries w.socket.fq) ≡ 0)
  Reach-unique {w} p small i r s =
      let v = intact i r s in
      let own = invalid_umem_frame / z in
      (
        λ k.
            omega
              (arith, v.frames k, tally-frame_addrs-le z p k 0 num_frames (omega (arith, small))),
        omega (
          arith,
          v.frames own,
          tally-places z own w.socket,
          tally-invalid z p small,
          count-le-tally z invalid_umem_frame (X.fq.entries w.socket.fq),
        ),
      )
