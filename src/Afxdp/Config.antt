-- ===== src/Afxdp/Config.antt =====
-- onvm/onvm_mgr/afxdp/onvm_afxdp_config.h: the sizes that the datapath is built with.
use afxdp_path_manager.Common.{ℕ, ◌+◌, ◌-◌, ◌*◌, ◌/◌, ◌^◌}

-- AFXDP_NUM_FRAMES
abbrev pub num_frames : ℕ
num_frames = 32768

-- AFXDP_INVALID_UMEM_FRAME, which is UINT64_MAX
abbrev pub invalid_umem_frame : ℕ
invalid_umem_frame = 2 ^ 64 - 1

-- AFXDP_RX_RING_SIZE
abbrev pub rx_ring_size : ℕ
rx_ring_size = 8192

-- AFXDP_TX_RING_SIZE
abbrev pub tx_ring_size : ℕ
tx_ring_size = 8192

-- AFXDP_FILL_RING_SIZE
abbrev pub fill_ring_size : ℕ
fill_ring_size = 8192

-- AFXDP_COMP_RING_SIZE
abbrev pub comp_ring_size : ℕ
comp_ring_size = 8192

-- AFXDP_RX_BATCH_SIZE
abbrev pub rx_batch_size : ℕ
rx_batch_size = 64

-- AFXDP_HUGEPAGE_SIZE
abbrev pub hugepage_size : ℕ
hugepage_size = 2 * 1024 * 1024

-- AFXDP_UMEM_TOTAL_BYTES, for the size of a frame
pub umem_total_bytes : ℕ → ℕ
umem_total_bytes frame_size = num_frames * frame_size

-- AFXDP_UMEM_HUGEPAGE_ALIGNED: `x & ~(2^21 - 1)` clears the low 21 bits.
pub umem_hugepage_aligned : ℕ → ℕ
unfolding umem_total_bytes
umem_hugepage_aligned frame_size =
    (umem_total_bytes frame_size + hugepage_size - 1) / 2 ^ 21 * 2 ^ 21
