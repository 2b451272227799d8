-- ===== src/Afxdp/Preflight.antt =====
-- afxdp_preflight_checks of onvm/onvm_mgr/afxdp/onvm_afxdp.c: the checks of the machine before the
-- XDP program is loaded. What the program reads of sysfs, of `uname` and of `access` is an argument.
pub mod Laws
use afxdp_path_manager.Common.{
  ℕ, ◌+◌, ◌-◌, ◌*◌, ◌/◌, ℤ, pos, leb_ℤ, Bool, true, false, ◌&&◌, ◌||◌, not, List, [], ◌∷◌, Option,
  none, some, ltb, ◌==◌, if◌then◌else◌,
}
use afxdp_path_manager.Afxdp.Config.{umem_hugepage_aligned}
use afxdp_path_manager.Afxdp.Args.{Config, AttachMode, native, skb, bytes}

-- The negative results.
pub data Errno : Type 0 where
  enodev enotsup einval enoent : Errno

-- The answers of the machine.
pub record Machine : Type 0 where
  -- what `operstate` says, if it can be read
  pub operstate : Option (List ℕ)
  -- what the link `device/driver` holds
  pub driver : Option (List ℕ)
  -- the names under `queues`
  pub queues : Option (List (List ℕ))
  -- `access(cfg->xdp_obj_file, R_OK) == 0`
  pub obj_readable : Bool
  -- the version that `uname` reports
  pub kernel_major : ℕ
  pub kernel_minor : ℕ

pub same_text : List ℕ → List ℕ → Bool
same_text [] [] = true
same_text [] (d ∷ ds) = false
same_text (c ∷ cs) [] = false
same_text (c ∷ cs) (d ∷ ds) = c == d && same_text cs ds

-- afxdp_native_xdp_drivers
pub native_xdp_drivers : List (List ℕ)
native_xdp_drivers =
    bytes "i40e"
    ∷ bytes "ixgbe"
    ∷ bytes "ixgbevf"
    ∷ bytes "mlx5_core"
    ∷ bytes "mlx4_en"
    ∷ bytes "ice"
    ∷ bytes "bnxt_en"
    ∷ bytes "nfp"
    ∷ bytes "qede"
    ∷ bytes "ena"
    ∷ bytes "virtio_net"
    ∷ bytes "veth"
    ∷ bytes "tun"
    ∷ bytes "thunderx"
    ∷ bytes "dpaa2-eth"
    ∷ bytes "mvneta"
    ∷ bytes "mvpp2"
    ∷ bytes "sfc"
    ∷ []

-- The loop over that table.
pub is_listed : List ℕ → List (List ℕ) → Bool
unfolding same_text
is_listed drv [] = false
is_listed drv (d ∷ ds) = same_text drv d || is_listed drv ds

-- `drv = strrchr(buf, '/'); drv = drv ? drv + 1 : buf;`
pub basename_from : List ℕ → List ℕ → List ℕ
basename_from best [] = best
basename_from best (c ∷ cs) = basename_from (if c == b'/' then cs else best) cs

pub basename : List ℕ → List ℕ
unfolding basename_from
basename buf = basename_from buf buf

-- `strncmp(ent->d_name, "rx-", 3) == 0`
unfoldable pub is_rx_queue : List ℕ → Bool
is_rx_queue (r ∷ x ∷ d ∷ rest) = r == b'r' && (x == b'x' && d == b'-')
is_rx_queue _ = false

unfoldable pub count_queues : List (List ℕ) → ℕ
unfolding is_rx_queue
count_queues [] = 0
count_queues (n ∷ ns) = (if is_rx_queue n then 1 else 0) + count_queues ns

unfoldable pub queue_count : Machine → ℕ
unfolding count_queues
queue_count m = elim m.queues [ none ↦ 0 | some names ↦ count_queues names ]

abbrev pub is_native : AttachMode → Bool
is_native native = true
is_native _ = false

abbrev pub is_skb : AttachMode → Bool
is_skb skb = true
is_skb _ = false

-- Step 2 for what `readlink` reports. An empty link is as good as none.
pub driver_ok : Option (List ℕ) → Bool
unfolding is_listed basename native_xdp_drivers
driver_ok none = false
driver_ok (some []) = false
driver_ok (some (c ∷ cs)) = is_listed (basename (c ∷ cs)) native_xdp_drivers

-- Step 3, with the comparison of signed integers.
unfoldable pub queue_ok : ℕ → ℤ → Bool
queue_ok count queue = not (ltb 0 count && leb_ℤ (pos count) queue)

-- Step 5
unfoldable pub kernel_ok : ℕ → ℕ → Bool
kernel_ok major minor = not (ltb major 4 || (major == 4 && ltb minor 18))

-- Step 1, which only warns about a state other than "up"
abbrev pub is_readable : Option (List ℕ) → Bool
is_readable none = false
is_readable (some state) = true

-- afxdp_preflight_checks; `none` is the result 0. Step 6 only warns.
unfoldable pub preflight_checks : Machine → Config → Option Errno
preflight_checks m cfg =
    if not (is_readable m.operstate)
    then some enodev
    else if is_native cfg.attach_mode && not (driver_ok m.driver)
    then some enotsup
    else if not (queue_ok (queue_count m) cfg.xsk_if_queue)
    then some einval
    else if not m.obj_readable
    then some enoent
    else if not (kernel_ok m.kernel_major m.kernel_minor)
    then some enotsup
    else if cfg.bind_zerocopy && cfg.bind_copy
    then some einval
    else if cfg.bind_zerocopy && is_skb cfg.attach_mode
    then some einval
    else none

-- Step 6: how many huge pages of `hp_size_kb` KiB the UMEM needs.
pub hugepages_needed : ℕ → ℕ → ℕ
hugepages_needed frame_size hp_size_kb =
    (umem_hugepage_aligned frame_size + (hp_size_kb * 1024 - 1)) / (hp_size_kb * 1024)
