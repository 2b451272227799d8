-- ===== src/Afxdp/Tests.antt =====
-- Runs of the datapath of onvm/onvm_mgr/afxdp/onvm_afxdp.c on rings that are plain lists: the sockets and
-- the answers of the libraries that the tests of the components share.
mod Rings
mod Manager
mod Inputs
use afxdp_path_manager.Common.{ℕ, ◌≡◌, ◌+◌, ◌*◌, refl, [], ◌∷◌, true, some, arith}
use afxdp_path_manager.Afxdp.Config.{num_frames}
use afxdp_path_manager.Afxdp.Frames.{Frames, frame_addrs}
use afxdp_path_manager.Afxdp.Frames.Laws.{IsValid, length-frame_addrs}
use afxdp_path_manager.Afxdp.Ring.{Desc}
use afxdp_path_manager.Afxdp.Datapath.{Socket}
use afxdp_path_manager.Afxdp.Datapath.Complete.{IsSound}
use afxdp_path_manager.Afxdp.Setup.{
  UmemInfo, UmemCalls, SocketCalls, no_stats, configure_socket, acquired, socket_info, xsk_socket,
}
use afxdp_path_manager.Afxdp.Setup.Laws.{IsWhole, AreEmpty, configure_socket_ok}
use afxdp_path_manager.Afxdp.Sample.{sample_xsk, sample_laws}

-- 20000 free frames
abbrev pub some_frames : Frames
some_frames = record { umem_frame_addr = frame_addrs 4096 0 num_frames; umem_frame_free = 20000 }

pub some_frames-IsValid : IsValid some_frames
some_frames-IsValid = record { sized = length-frame_addrs 4096 0 num_frames; inside = omega arith }

abbrev desc : ℕ → Desc
desc n = record { addr = n * 4096; len = 60 + n }

-- Two packets have come in, one is on its way out, and one transmission is completed.
abbrev pub busy : Socket sample_xsk
busy = record {
  rx = desc 30001 ∷ desc 30002 ∷ [];
  tx = record { items = desc 30003 ∷ []; staged = [] };
  fq = record { items = 122896384 ∷ []; staged = [] };
  cq = 122900480 ∷ [];
  frames = some_frames;
  outstanding_tx = 2;
  stats = no_stats;
}

pub busy-IsSound : IsSound busy
busy-IsSound = record {
  valid = some_frames-IsValid;
  fits = omega arith;
  sent = omega arith;
  flight = omega arith;
}

abbrev pub new_umem : UmemInfo sample_xsk
new_umem = record { fq = record { items = []; staged = [] }; cq = [] }

abbrev pub umem_calls : UmemCalls sample_xsk
umem_calls = record { calloc_ok = true; create_ret = 0; fq = new_umem.fq; cq = [] }

abbrev pub socket_calls : SocketCalls sample_xsk
socket_calls = record {
  calloc_ok = true;
  create_ret = 0;
  rx = [];
  tx = record { items = []; staged = [] };
  update_ret = 0;
}

pub rings-AreEmpty : AreEmpty sample_xsk new_umem socket_calls
rings-AreEmpty = record { rx = refl; tx = refl; fq = refl; cq = refl }

configure_socket_ok_example :
    (s : Socket sample_xsk) × (configure_socket sample_xsk 4096 true new_umem socket_calls
      ≡ (some s, acquired socket_info ∷ acquired xsk_socket ∷ []))
    × IsWhole 4096 s
configure_socket_ok_example =
    configure_socket_ok sample_laws 4096 true new_umem socket_calls rings-AreEmpty refl refl refl

-- The socket that the manager starts with.
pub fresh : Socket sample_xsk
fresh =
    (configure_socket_ok sample_laws 4096 true new_umem socket_calls rings-AreEmpty refl refl
      refl).0

pub fresh-IsWhole : IsWhole 4096 fresh
unfolding fresh
fresh-IsWhole =
    (configure_socket_ok sample_laws 4096 true new_umem socket_calls rings-AreEmpty refl refl
      refl).2
