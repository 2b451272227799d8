-- ===== src/Afxdp/Threads/Laws.antt =====
-- What the worker threads guarantee: what the RX thread does in its rounds, and the manager thread
-- stops the program at its limits.
use afxdp_path_manager.Common.{
  ℕ, suc, ◌≤◌, ◌≡◌, refl, sym, ap, ◌∙◌, inl, inr, pos, leb_ℤ, Bool, true, false, not, ◌&&◌, ◌||◌,
  List, [], ◌∷◌, some, arith, Bool-cases,
}
use afxdp_path_manager.Afxdp.Args.{Config}
use afxdp_path_manager.Afxdp.Config.{fill_ring_size}
use afxdp_path_manager.Afxdp.Ring.{Xsk, XskLaws}
use afxdp_path_manager.Afxdp.Datapath.{Socket, handle_receive}
use afxdp_path_manager.Afxdp.Datapath.Complete.{at_hand}
use afxdp_path_manager.Afxdp.Datapath.Handle.{Handled}
use afxdp_path_manager.Afxdp.System.{System, Move, IsIntact}
use afxdp_path_manager.Afxdp.System.Laws.{Move-IsIntact, receive_IsIntact}
use afxdp_path_manager.Afxdp.Threads.{
  RxRound, rx_and_process, MgrRound, Mgr, mgr_round, mgr_thread_main, is_expired, is_over,
}

-- The kernel's moves between two rounds
pub data Moves {X : Xsk} (z : ℕ) (y : System X) : System X → Type 0 where
  still : Moves z y y
  moves : {v w : System X} → Moves z y v → Move z v w → Moves z y w

-- The test of what `poll` returned
abbrev pub is_idle : {X : Xsk} → Bool → RxRound X → Bool
is_idle poll r = poll && leb_ℤ r.poll_ret (pos 0)

module _ {X : Xsk} (L : XskLaws X) (z fuel : ℕ) (poll : Bool) where
  -- What the kernel does before each round that the thread comes to is made of its moves; and where the round goes on
  -- to the rings, a fill ring's worth of frames is at hand.
  pub data AreFed : List (RxRound X) → System X → Type 0 where
    no_more : (y : System X) → AreFed [] y
    leaves :
        (r : RxRound X) (rs : List (RxRound X)) (y : System X)
        → r.global_exit ≡ true
        → AreFed (r ∷ rs) y
    idles :
        (r : RxRound X) (rs : List (RxRound X)) (y v : System X)
        → Moves z y v
        → v.socket ≡ r.kernel y.socket
        → is_idle poll r ≡ true
        → AreFed rs v
        → AreFed (r ∷ rs) y
    feeds :
        (r : RxRound X) (rs : List (RxRound X)) (y v : System X)
        → Moves z y v
        → v.socket ≡ r.kernel y.socket
        → is_idle poll r ≡ false
        → fill_ring_size ≤ at_hand v.socket
        → ((t : Socket X)
            → handle_receive X (suc fuel) v.socket ≡ some t
            → AreFed rs (record v { socket = t }))
        → AreFed (r ∷ rs) y

  -- What the thread does: it leaves when it sees `global_exit`, goes round when `poll` has nothing in poll mode, and
  -- handles the rings otherwise.
  pub data Runs : List (RxRound X) → System X → System X → Type 0 where
    waits : (y : System X) → Runs [] y y
    exits :
        (r : RxRound X) (rs : List (RxRound X)) (y : System X)
        → r.global_exit ≡ true
        → Runs (r ∷ rs) y y
    skips :
        (r : RxRound X) (rs : List (RxRound X)) (y v w : System X)
        → r.global_exit ≡ false
        → Moves z y v
        → v.socket ≡ r.kernel y.socket
        → is_idle poll r ≡ true
        → Runs rs v w
        → Runs (r ∷ rs) y w
    serves :
        (r : RxRound X) (rs : List (RxRound X)) (y v w : System X) (t : Socket X)
        → r.global_exit ≡ false
        → Moves z y v
        → v.socket ≡ r.kernel y.socket
        → is_idle poll r ≡ false
        → Handled L v.socket t
        → Runs rs (record v { socket = t }) w
        → Runs (r ∷ rs) y w

  Moves-IsIntact : {y v : System X} → Moves z y v → IsIntact z y → IsIntact z v
  Moves-IsIntact still i = i
  Moves-IsIntact (moves ms m) i = Move-IsIntact z (Moves-IsIntact ms i) m

  -- Let each round that the thread comes to find what the kernel's moves made of the socket, and a fill ring's worth of
  -- frames at hand where it goes on to the rings. Then the RX thread ends with a socket, so no assertion failed and
  -- no reservation was refused; it has left at the first `global_exit` that it saw, gone round where `poll` had
  -- nothing in poll mode, and in every other round done to the rings what `Handled` says; and each frame of the UMEM
  -- is on the free list, in a ring or with the kernel.
  pub rx_and_process-Runs :
      (rounds : List (RxRound X)) (y : System X)
      → AreFed rounds y
      → IsIntact z y
      → (w : System X) × (rx_and_process X (suc fuel) poll rounds y.socket ≡ some w.socket)
        × Runs rounds y w
        × IsIntact z w
  unfolding rx_and_process
  rx_and_process-Runs [] y (no_more _) i = (y, refl, waits y, i)
  rx_and_process-Runs (r ∷ rs) y (leaves _ _ _ e) i = (y, rw e refl, exits r rs y e, i)
  rx_and_process-Runs (r ∷ rs) y (idles _ _ _ v ms k idle f) i = elim (Bool-cases r.global_exit) [
    | inl e ↦ (y, rw e refl, exits r rs y e, i)
    | inr e ↦
        let (w, ew, run, iw) = rx_and_process-Runs rs v f (Moves-IsIntact ms i) in
        (
          w,
          simp (e, idle) (ap (rx_and_process X (suc fuel) poll rs) (sym k) ∙ ew),
          skips r rs y v w e ms k idle run,
          iw,
        )
  ]
  rx_and_process-Runs (r ∷ rs) y (feeds _ _ _ v ms k idle h f) i = elim (Bool-cases r.global_exit) [
    | inl e ↦ (y, rw e refl, exits r rs y e, i)
    | inr e ↦
        let (t, et, done, it) = receive_IsIntact z L fuel v (Moves-IsIntact ms i) h in
        let (w, ew, run, iw) = rx_and_process-Runs rs (record v { socket = t }) (f t et) it in
        let et' = ap (handle_receive X (suc fuel)) (sym k) ∙ et in
        (w, simp (e, idle, et') ew, serves r rs y v w t e ms k idle done run, iw)
  ]

-- Somewhere in the rounds a limit is reached.
pub is_reached : Config → ℕ → List MgrRound → Bool
is_reached cfg start_time [] = false
is_reached cfg start_time (r ∷ rs) =
    is_expired cfg start_time r || is_over cfg r || is_reached cfg start_time rs

-- Nobody else sets `global_exit`.
unfoldable pub is_undisturbed : List MgrRound → Bool
is_undisturbed [] = true
is_undisturbed (r ∷ rs) = not r.exit_before && not r.exit_after && is_undisturbed rs

-- A manager thread that has set `global_exit` does no further round.
mgr_thread_stopped :
    (cfg : Config) (start_time : ℕ) (rounds : List MgrRound) (m : Mgr)
    → m.stops ≡ true
    → mgr_thread_main cfg start_time rounds m ≡ m
unfolding mgr_thread_main
mgr_thread_stopped cfg start_time [] m e = refl
mgr_thread_stopped cfg start_time (r ∷ rs) m e = rw e refl

-- While nobody else stops the program, the manager thread stops it just when in some round the time
-- to live has passed or the packet limit is reached, each where it is set.
pub mgr_thread_stops_iff :
    (cfg : Config) (start_time : ℕ) (rounds : List MgrRound) (m : Mgr)
    → is_undisturbed rounds ≡ true
    → m.stops ≡ false
    → (mgr_thread_main cfg start_time rounds m).stops ≡ is_reached cfg start_time rounds
unfolding mgr_thread_main mgr_round is_reached is_undisturbed
mgr_thread_stops_iff cfg start_time [] m u e = e
mgr_thread_stops_iff cfg start_time (r ∷ rs) m u e =
    let next = mgr_round cfg start_time r m in
    let still : next.stops ≡ true → (mgr_thread_main cfg start_time rs next).stops ≡ true =
      λ h. ap (λ n. n.stops) (mgr_thread_stopped cfg start_time rs next h) ∙ h in
    ground (arith, still, mgr_thread_stops_iff cfg start_time rs next)
