-- ===== src/Afxdp/Setup.antt =====
-- afxdp_configure_umem and afxdp_configure_socket of onvm/onvm_mgr/afxdp/onvm_afxdp.c: what is
-- acquired, in which order, and what is given back when a step fails.
pub mod Laws
use afxdp_path_manager.Common.{
  ℕ, List, [], ◌∷◌, Option, none, some, Bool, true, false, ◌+◌, if◌then◌else◌, ◌==◌, ◌&&◌, not,
}
use afxdp_path_manager.Afxdp.Config.{fill_ring_size}
use afxdp_path_manager.Afxdp.Frames.{init_frames, alloc_frames}
use afxdp_path_manager.Afxdp.Ring.{Xsk, write_all}
use afxdp_path_manager.Afxdp.Datapath.{Socket, StatsRecord}

-- What the program acquires and gives back by a call of a library.
pub data Resource : Type 0 where
  umem_info umem_region socket_info xsk_socket xdp_program xdp_attachment packet_memory : Resource

pub data Event : Type 0 where
  acquired released : Resource → Event

abbrev pub is_same : Resource → Resource → Bool
is_same umem_info umem_info = true
is_same umem_region umem_region = true
is_same socket_info socket_info = true
is_same xsk_socket xsk_socket = true
is_same xdp_program xdp_program = true
is_same xdp_attachment xdp_attachment = true
is_same packet_memory packet_memory = true
is_same _ _ = false

abbrev pub one : Resource → Resource → ℕ
one r q = if is_same r q then 1 else 0

-- How often a resource is acquired, and given back.
abbrev pub acquisitions : Resource → List Event → ℕ
acquisitions r [] = 0
acquisitions r (acquired q ∷ es) = one r q + acquisitions r es
acquisitions r (released q ∷ es) = acquisitions r es

abbrev pub releases : Resource → List Event → ℕ
releases r [] = 0
releases r (acquired q ∷ es) = releases r es
releases r (released q ∷ es) = one r q + releases r es

-- A call that yields a value or nothing, with what it acquired and gave back, oldest first.
abbrev pub Traced : Type 0 → Type 0
Traced A = Option A × List Event

-- The answers of the libraries in a run of afxdp_configure_umem.
pub record UmemCalls (X : Xsk) : Type 0 where
  pub calloc_ok : Bool
  -- xsk_umem__create: the return value, and the two rings
  pub create_ret : ℕ
  pub fq : X.fq.Ring
  pub cq : X.cq.Ring

-- `struct afxdp_umem_info`, its rings.
pub record UmemInfo (X : Xsk) : Type 0 where
  pub fq : X.fq.Ring
  pub cq : X.cq.Ring

-- The answers of the libraries in a run of afxdp_configure_socket.
pub record SocketCalls (X : Xsk) : Type 0 where
  pub calloc_ok : Bool
  -- xsk_socket__create: the return value, and the two rings
  pub create_ret : ℕ
  pub rx : X.rx.Ring
  pub tx : X.tx.Ring
  -- xsk_socket__update_xskmap
  pub update_ret : ℕ

abbrev pub no_stats : StatsRecord
no_stats = record {
  timestamp = 0;
  rx_packets = 0;
  rx_bytes = 0;
  tx_packets = 0;
  tx_bytes = 0;
  rx_dropped = 0;
}

module _ (X : Xsk) where
  -- afxdp_configure_umem. A return value is zero or an error.
  unfoldable pub configure_umem : UmemCalls X → Traced (UmemInfo X)
  configure_umem c =
      if not c.calloc_ok
      then (none, [])
      else if not (c.create_ret == 0)
      then (none, acquired umem_info ∷ released umem_info ∷ [])
      else (some (record { fq = c.fq; cq = c.cq }), acquired umem_info ∷ acquired umem_region ∷ [])

  -- The fill ring gets as many frames as it has slots, and the socket starts with empty counters.
  unfoldable pub populate : ℕ → UmemInfo X → SocketCalls X → ℕ → X.fq.Ring → Socket X
  populate frame_size umem c idx fq =
      let (addresses, frames) = alloc_frames fill_ring_size (init_frames frame_size) in
      record {
        rx = c.rx;
        tx = c.tx;
        fq = X.fq.submit (write_all X.fq fq idx addresses) fill_ring_size;
        cq = umem.cq;
        frames = frames;
        outstanding_tx = 0;
        stats = no_stats;
      }

  -- The part behind the XSKMAP: the free list, and the fill ring.
  unfoldable pub fill_and_return : ℕ → UmemInfo X → SocketCalls X → Traced (Socket X)
  unfolding populate
  fill_and_return frame_size umem c =
      let (ret, idx, fq) = X.fq.reserve umem.fq fill_ring_size in
      if not (ret == fill_ring_size)
      then (none, released xsk_socket ∷ released socket_info ∷ [])
      else (some (populate frame_size umem c idx fq), [])

  -- afxdp_configure_socket, for `cfg->custom_xdp_prog`.
  unfoldable pub configure_socket : ℕ → Bool → UmemInfo X → SocketCalls X → Traced (Socket X)
  unfolding fill_and_return
  configure_socket frame_size custom_xdp_prog umem c =
      if not c.calloc_ok
      then (none, [])
      else if not (c.create_ret == 0)
      then (none, acquired socket_info ∷ released socket_info ∷ [])
      else if custom_xdp_prog && not (c.update_ret == 0)
      then (
        none,
        acquired socket_info
            ∷ acquired xsk_socket
            ∷ released xsk_socket
            ∷ released socket_info
            ∷ [],
      )
      else (let (s, events) = fill_and_return frame_size umem c in
          (s, acquired socket_info ∷ acquired xsk_socket ∷ events))
