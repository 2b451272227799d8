-- ===== src/Afxdp/Tests/Rings.antt =====
-- The theorems on frames, rings and the receive loop of onvm/onvm_mgr/afxdp/onvm_afxdp.c at concrete sockets.
use afxdp_path_manager.Common.{
  ℕ, ◌+◌, ◌*◌, ◌/◌, refl, sym, ap, ◌∙◌, length, take_all, length-take, ◌<◌, ◌⊎◌, ◌≡◌, ◌≤◌, List, [],
  ◌∷◌, pos, true, false, some, arith, count,
}
use afxdp_path_manager.Afxdp.Config.{fill_ring_size, invalid_umem_frame}
use afxdp_path_manager.Afxdp.Datapath.{Socket, complete_tx, refill, handle_receive}
use afxdp_path_manager.Afxdp.Datapath.Complete.{
  Keeps, at_hand, kicked, Drained, complete_tx-Drained,
}
use afxdp_path_manager.Afxdp.Datapath.Refill.{Refilled, refill_returns}
use afxdp_path_manager.Afxdp.Datapath.Handle.{Handled, handle_receive_returns}
use afxdp_path_manager.Afxdp.Setup.{populate}
use afxdp_path_manager.Afxdp.Setup.Laws.{populate-IsWhole, populate_posted}
use afxdp_path_manager.Afxdp.Ring.{Desc}
use afxdp_path_manager.Afxdp.System.{
  System, Move, take_frame, deliver, Reach, here, kernel, receive, IsStocked, IsIntact, spread,
}
use afxdp_path_manager.Afxdp.System.Laws.{
  IsWhole-IsIntact, Move-IsIntact, at_hand-le, receive_IsIntact, Reach-IsIntact, Reach-unique,
}
use afxdp_path_manager.Afxdp.Threads.{RxRound, rx_and_process}
use afxdp_path_manager.Afxdp.Threads.Laws.{
  still, moves, AreFed, idles, feeds, no_more, Runs, rx_and_process-Runs,
}
use afxdp_path_manager.Afxdp.Sample.{sample_xsk, sample_laws}
use afxdp_path_manager.Afxdp.Tests.{
  some_frames-IsValid, busy, busy-IsSound, new_umem, socket_calls, rings-AreEmpty,
}

complete_tx-Drained_example :
    ((busy.outstanding_tx ≡ 0) × (complete_tx sample_xsk busy ≡ some busy))
    ⊎ ((0 < busy.outstanding_tx)
        × ((t : Socket sample_xsk) × (complete_tx sample_xsk busy ≡ some t)
            × Keeps busy t
            × Drained sample_laws (kicked sample_laws busy) t))
complete_tx-Drained_example = complete_tx-Drained sample_laws busy busy-IsSound

refill_returns_example :
    (t : Socket sample_xsk) × (refill sample_xsk 1 busy ≡ some t) × Refilled busy t
refill_returns_example = refill_returns sample_laws 0 busy some_frames-IsValid

handle_receive_returns_example :
    (t : Socket sample_xsk) × (handle_receive sample_xsk 1 busy ≡ some t)
    × Handled sample_laws busy t
handle_receive_returns_example =
    handle_receive_returns sample_laws 0 busy busy-IsSound (omega arith)

uncons : (xs : List ℕ) → 0 < length xs → (a : ℕ) × (rest : List ℕ) × (xs ≡ a ∷ rest)
uncons [] h = absurd (omega (arith, h))
uncons (a ∷ rest) h = (a, rest, refl)

-- What the set-up leaves, with nothing in the kernel's hands
unfoldable start : Socket sample_xsk
start =
    populate sample_xsk 4096 new_umem socket_calls
      (sample_xsk.fq.reserve new_umem.fq fill_ring_size).1
      (sample_xsk.fq.reserve new_umem.fq fill_ring_size).2

abbrev at_first : System sample_xsk
at_first = record { socket = start; rx_flight = []; tx_flight = [] }

at_first-IsIntact : IsIntact 4096 at_first
unfolding start
at_first-IsIntact =
    IsWhole-IsIntact 4096 start
      (populate-IsWhole sample_laws 4096 new_umem socket_calls rings-AreEmpty refl)

posted : (a : ℕ) × (rest : List ℕ) × (sample_xsk.fq.entries start.fq ≡ a ∷ rest)
unfolding start
posted =
    let n = populate_posted sample_laws 4096 new_umem socket_calls rings-AreEmpty refl in
    uncons (sample_xsk.fq.entries start.fq) (omega (arith, n))

-- The kernel takes the oldest frame of the fill ring.
abbrev taken_fq : sample_xsk.fq.Ring
taken_fq = record { items = posted.1; staged = [] }

taken_rest : sample_xsk.fq.entries start.fq ≡ posted.0 ∷ sample_xsk.fq.entries taken_fq
taken_rest =
    let (a, rest, e) = posted in
    let small : length rest ≤ fill_ring_size =
      omega (arith, ap length e, length-take fill_ring_size start.fq.items) in
    e ∙ ap (◌∷◌ posted.0) (sym (take_all fill_ring_size rest small))

abbrev taken : System sample_xsk
taken = record {
  socket = record start { fq = taken_fq };
  rx_flight = posted.0 ∷ [];
  tx_flight = [];
}

-- It puts a packet of 100 bytes into it, 256 bytes behind the start of the frame.
abbrev packet : Desc
packet = record { addr = posted.0 / 4096 * 4096 + 256; len = 100 }

packet_inside : packet.addr / 4096 ≡ posted.0 / 4096
packet_inside = omega arith

abbrev delivered : System sample_xsk
delivered = record {
  socket = record start { fq = taken_fq; rx = packet ∷ [] };
  rx_flight = [];
  tx_flight = [];
}

taking : Move 4096 at_first taken
taking = take_frame at_first posted.0 taken_fq taken_rest

delivering : Move 4096 taken delivered
unfolding start populate
delivering = deliver taken posted.0 [] [] packet (packet ∷ []) refl packet_inside refl

delivered-IsIntact : IsIntact 4096 delivered
delivered-IsIntact = Move-IsIntact 4096 (Move-IsIntact 4096 at_first-IsIntact taking) delivering

delivered_stocked : fill_ring_size ≤ at_hand delivered.socket
unfolding start populate
delivered_stocked =
    at_hand-le 4096 sample_laws delivered delivered-IsIntact (omega arith) (omega arith)

first_round :
    (t : Socket sample_xsk) × (handle_receive sample_xsk 1 delivered.socket ≡ some t)
    × Handled sample_laws delivered.socket t
    × IsIntact 4096 (record delivered { socket = t })
first_round = receive_IsIntact 4096 sample_laws 0 delivered delivered-IsIntact delivered_stocked

abbrev second : System sample_xsk
second = record delivered { socket = first_round.0 }

-- Two moves of the kernel and a round
one_round : Reach 4096 at_first second
one_round = receive 0 first_round.0 (kernel (kernel here taking) delivering) first_round.1

one_round-IsStocked : IsStocked 4096 one_round
unfolding one_round IsStocked
one_round-IsStocked = (tt, delivered_stocked)

Reach-IsIntact_example :
    IsIntact 4096 second
    × ((at_hand second.socket < fill_ring_size)
        ⊎ ((t : Socket sample_xsk) × (handle_receive sample_xsk 1 second.socket ≡ some t)
            × Handled sample_laws second.socket t
            × IsIntact 4096 (record second { socket = t })))
Reach-IsIntact_example =
    Reach-IsIntact 4096 sample_laws 0 at_first-IsIntact one_round one_round-IsStocked

Reach-unique_example :
    ((k : ℕ) → spread 4096 k second ≤ 1)
    × (count invalid_umem_frame (sample_xsk.fq.entries second.socket.fq) ≡ 0)
Reach-unique_example =
    Reach-unique 4096 sample_laws (omega arith) (omega arith) at_first-IsIntact one_round
      one_round-IsStocked

-- `poll` times out once, then the packet is there.
abbrev idle_round : RxRound sample_xsk
idle_round = record { global_exit = false; poll_ret = pos 0; kernel = λ s. s }

abbrev busy_round : RxRound sample_xsk
busy_round = record { global_exit = false; poll_ret = pos 1; kernel = λ s. delivered.socket }

two_rounds-AreFed : AreFed sample_laws 4096 0 true (idle_round ∷ busy_round ∷ []) at_first
two_rounds-AreFed = idles idle_round (busy_round ∷ []) at_first at_first still refl refl (
    feeds busy_round [] at_first delivered (moves (moves still taking) delivering) refl refl
      delivered_stocked (λ t e. no_more (record delivered { socket = t })))

rx_and_process-Runs_example :
    (w : System sample_xsk) × (rx_and_process sample_xsk 1 true (idle_round ∷ busy_round ∷ []) start
      ≡ some w.socket)
    × Runs sample_laws 4096 0 true (idle_round ∷ busy_round ∷ []) at_first w
    × IsIntact 4096 w
rx_and_process-Runs_example =
    rx_and_process-Runs sample_laws 4096 0 true (idle_round ∷ busy_round ∷ []) at_first
      two_rounds-AreFed at_first-IsIntact
