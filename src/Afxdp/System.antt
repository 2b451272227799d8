-- ===== src/Afxdp/System.antt =====
-- The datapath and the kernel as one system: rounds of the receive loop, interleaved with the kernel's moves of
-- frames. The kernel takes a frame off the fill ring, keeps it as long as it likes, and hands it back with a packet
-- somewhere in it; it takes a descriptor off the TX ring, and reports its address when it has sent it. What
-- `sendto` itself takes off the TX ring it also completes, as `XskLaws` says; what it leaves there, these moves take.
pub mod Frames
pub mod Laws
use afxdp_path_manager.Common.{ℕ, suc, ◌+◌, ◌/◌, ◌≤◌, ◌≡◌, List, [], ◌∷◌, ◌++◌, some, length}
use afxdp_path_manager.Afxdp.Config.{num_frames, fill_ring_size}
use afxdp_path_manager.Afxdp.Frames.{frame_addrs}
use afxdp_path_manager.Afxdp.Frames.Laws.{IsValid, free_list}
use afxdp_path_manager.Afxdp.Ring.{Desc, addrs, Xsk}
use afxdp_path_manager.Afxdp.Datapath.{Socket, handle_receive}
use afxdp_path_manager.Afxdp.Datapath.Complete.{occupied, sent_out, at_hand}
use afxdp_path_manager.Afxdp.System.Frames.{tally}

-- The socket, and the addresses that the kernel has taken for packets to come and for packets to go
pub record System (X : Xsk) : Type 0 where
  pub socket : Socket X
  pub rx_flight : List ℕ
  pub tx_flight : List ℕ

module _ (z : ℕ) {X : Xsk} where
  -- A move of the kernel, for frames of `z` bytes
  pub data Move : System X → System X → Type 0 where
    take_frame :
        (y : System X) (a : ℕ) (fq : X.fq.Ring)
        → X.fq.entries y.socket.fq ≡ a ∷ X.fq.entries fq
        → Move y (record y { socket = record y.socket { fq = fq }; rx_flight = a ∷ y.rx_flight })
    -- The packet lies in the frame that was taken, behind what headroom the kernel likes.
    deliver :
        (y : System X) (a : ℕ) (front back : List ℕ) (d : Desc) (rx : X.rx.Ring)
        → y.rx_flight ≡ front ++ a ∷ back
        → d.addr / z ≡ a / z
        → X.rx.entries rx ≡ X.rx.entries y.socket.rx ++ d ∷ []
        → Move y (record y { socket = record y.socket { rx = rx }; rx_flight = front ++ back })
    take_desc :
        (y : System X) (d : Desc) (tx : X.tx.Ring)
        → X.tx.entries y.socket.tx ≡ d ∷ X.tx.entries tx
        → Move y
            (record y { socket = record y.socket { tx = tx }; tx_flight = d.addr ∷ y.tx_flight })
    -- Transmissions may complete in any order.
    complete :
        (y : System X) (a : ℕ) (front back : List ℕ) (cq : X.cq.Ring)
        → y.tx_flight ≡ front ++ a ∷ back
        → X.cq.entries cq ≡ X.cq.entries y.socket.cq ++ a ∷ []
        → Move y (record y { socket = record y.socket { cq = cq }; tx_flight = front ++ back })

  pub data Reach (y : System X) : System X → Type 0 where
    here : Reach y y
    kernel : {v w : System X} → Reach y v → Move v w → Reach y w
    -- A round of the receive loop
    receive :
        {v : System X} (fuel : ℕ) (t : Socket X)
        → Reach y v
        → handle_receive X (suc fuel) v.socket ≡ some t
        → Reach y (record v { socket = t })

  -- Whenever a round of the receive loop began, a fill ring's worth of frames was at hand.
  unfoldable pub IsStocked : {y w : System X} → Reach y w → Type 0
  IsStocked here = Unit
  IsStocked (kernel r m) = IsStocked r
  IsStocked (receive {v} fuel t r e) = IsStocked r × (fill_ring_size ≤ at_hand v.socket)

  -- The addresses on the free list and in the rings
  abbrev pub places : Socket X → List ℕ
  places s =
      free_list s.frames
      ++ (X.fq.entries s.fq
          ++ (addrs (X.rx.entries s.rx) ++ (addrs (X.tx.entries s.tx) ++ X.cq.entries s.cq)))

  -- How often the frame `k` is on the free list, in a ring or with the kernel
  abbrev pub spread : ℕ → System X → ℕ
  spread k y = tally z k (places y.socket) + tally z k y.rx_flight + tally z k y.tx_flight

  -- Each frame of the UMEM is somewhere, and the counter of outstanding transmissions is exact.
  pub record IsIntact (y : System X) : Type 0 where
    pub valid : IsValid y.socket.frames
    pub size : occupied y.socket + length y.rx_flight + length y.tx_flight ≡ num_frames
    pub counter : y.socket.outstanding_tx ≡ sent_out y.socket + length y.tx_flight
    pub frames : (k : ℕ) → spread k y ≡ tally z k (frame_addrs z 0 num_frames)
