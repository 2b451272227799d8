-- ===== src/Afxdp/Frames.antt =====
-- The UMEM frame allocator of onvm/onvm_mgr/afxdp/onvm_afxdp.c: a stack of frame addresses in the
-- array `umem_frame_addr`, of which the first `umem_frame_free` are free.
pub mod Laws
use afxdp_path_manager.Common.{
  ℕ, zero, suc, ◌+◌, ◌-◌, ◌*◌, ◌%◌, List, [], ◌∷◌, Option, none, some, get_or, set, ltb, ◌==◌,
  if◌then◌else◌, u32_mod, ◌>>=◌,
}
use afxdp_path_manager.Afxdp.Config.{num_frames, invalid_umem_frame}

-- The two fields of `struct afxdp_socket_info` that the allocator uses.
pub record Frames : Type 0 where
  pub umem_frame_addr : List ℕ
  pub umem_frame_free : ℕ

-- afxdp_alloc_umem_frame; the array is never read out of bounds (`Frames.Laws.IsValid`).
pub alloc_umem_frame : Frames → ℕ × Frames
alloc_umem_frame xsk = if xsk.umem_frame_free == 0 then (invalid_umem_frame, xsk) else (
  get_or xsk.umem_frame_addr (xsk.umem_frame_free - 1) invalid_umem_frame,
  record {
    umem_frame_addr = set xsk.umem_frame_addr (xsk.umem_frame_free - 1) invalid_umem_frame;
    umem_frame_free = xsk.umem_frame_free - 1;
  },
)

-- afxdp_free_umem_frame; `none` is the failing assertion.
pub free_umem_frame : Frames → ℕ → Option Frames
free_umem_frame xsk frame =
    if ltb xsk.umem_frame_free num_frames
    then some (record {
      umem_frame_addr = set xsk.umem_frame_addr xsk.umem_frame_free frame;
      umem_frame_free = xsk.umem_frame_free + 1;
    })
    else none

-- afxdp_umem_free_frames
unfoldable pub umem_free_frames : Frames → ℕ
umem_free_frames xsk = xsk.umem_frame_free

-- `for (i = 0; i < n; i++) ... = afxdp_alloc_umem_frame(xsk);`: the frames in order.
pub alloc_frames : ℕ → Frames → List ℕ × Frames
unfolding alloc_umem_frame
alloc_frames zero xsk = ([], xsk)
alloc_frames (suc n) xsk =
    let (frame, xsk') = alloc_umem_frame xsk in
    let (frames, xsk'') = alloc_frames n xsk' in (frame ∷ frames, xsk'')

-- `for (...) afxdp_free_umem_frame(xsk, ...);`
pub free_frames : Frames → List ℕ → Option Frames
free_frames xsk [] = some xsk
free_frames xsk (frame ∷ frames) = free_umem_frame xsk frame >>= λ xsk'. free_frames xsk' frames

-- `for (i = 0; i < AFXDP_NUM_FRAMES; i++) umem_frame_addr[i] = i * AFXDP_FRAME_SIZE;`, from `i` on
-- for `n` rounds; the product is a `uint32_t`.
unfoldable pub frame_addrs : ℕ → ℕ → ℕ → List ℕ
frame_addrs frame_size i zero = []
frame_addrs frame_size i (suc n) = i * frame_size % u32_mod ∷ frame_addrs frame_size (i + 1) n

-- All frames start as free.
pub init_frames : ℕ → Frames
init_frames frame_size = record {
  umem_frame_addr = frame_addrs frame_size 0 num_frames;
  umem_frame_free = num_frames;
}
