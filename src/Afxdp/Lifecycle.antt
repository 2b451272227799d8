-- ===== src/Afxdp/Lifecycle.antt =====
-- afxdp_preallocate_hugepages, afxdp_init, afxdp_run and afxdp_cleanup of
-- onvm/onvm_mgr/afxdp/onvm_afxdp.c, and `main` of onvm/onvm_mgr/main.c in AF_XDP mode: what the manager
-- holds, what it acquires and gives back, and what it returns.
pub mod Laws
pub mod Run
use afxdp_path_manager.Common.{
  ℕ, zero, suc, ◌*◌, ℤ, pos, negsuc, Bool, true, false, not, ◌||◌, ◌&&◌, List, [], ◌∷◌, ◌++◌,
  Option, none, some, ◌==◌, if◌then◌else◌,
}
use afxdp_path_manager.Afxdp.Config.{num_frames, umem_hugepage_aligned}
use afxdp_path_manager.Afxdp.Args.{Config, Opt, parse_args, unspec}
use afxdp_path_manager.Afxdp.Preflight.{
  Machine, Errno, enodev, enotsup, einval, enoent, preflight_checks,
}
use afxdp_path_manager.Afxdp.Ring.{Xsk}
use afxdp_path_manager.Afxdp.Datapath.{Socket}
use afxdp_path_manager.Afxdp.Setup.{
  Event, acquired, released, umem_info, umem_region, socket_info, xsk_socket, xdp_program,
  xdp_attachment, packet_memory, Traced, UmemCalls, UmemInfo, SocketCalls, configure_umem,
  configure_socket,
}

-- `-n`, for an error number
abbrev pub minus : ℕ → ℤ
minus zero = pos 0
minus (suc n) = negsuc n

abbrev pub negate : ℤ → ℤ
negate (pos n) = minus n
negate (negsuc n) = pos (suc n)

abbrev pub is_neg : ℤ → Bool
is_neg (pos n) = false
is_neg (negsuc n) = true

abbrev pub is_zero : ℤ → Bool
is_zero (pos zero) = true
is_zero _ = false

pub errno : Errno → ℤ
errno enodev = minus 19
errno enotsup = minus 95
errno einval = minus 22
errno enoent = minus 2

-- `ctx->xdp_prog`: NULL, the error pointer that libxdp returns, or a program, which is attached to the
-- interface or not.
pub data Prog : Type 0 where
  null error_pointer loaded attached : Prog

-- `struct afxdp_manager_ctx`
pub record Ctx (X : Xsk) : Type 0 where
  pub cfg : Config
  pub umem : Option (UmemInfo X)
  pub packet_buffer : Bool
  pub xsk_socket : Option (Socket X)
  pub xdp_prog : Prog
  pub packet_buffer_size : ℕ
  pub packet_buffer_size_aligned : ℕ
  pub xsk_map_fd : ℤ
  pub global_exit : Bool
  pub use_hugepages : Bool
  pub hugepage_preallocated : Bool

-- The answers of the libraries in a run of the manager.
pub record Calls (X : Xsk) : Type 0 where
  pub frame_size : ℕ
  pub if_nametoindex : List ℕ → ℤ
  pub opts : List Opt
  pub machine : Machine
  -- libxdp_get_error on what xdp_program__create returned
  pub get_error : ℤ
  -- xdp_program__attach
  pub attach : ℤ
  -- bpf_map__fd
  pub map_fd : ℤ
  -- 0, or the error of setrlimit
  pub rlimit_errno : ℕ
  pub mmap_ok : Bool
  pub memalign_ok : Bool
  pub umem : UmemCalls X
  pub socket : SocketCalls X
  -- pthread_create for the three threads
  pub rx_create : ℕ
  pub mgr_create : ℕ
  pub wakeup_create : ℕ

abbrev zero_config : Config
zero_config = record {
  pkt_limit = 0;
  ifname = [];
  xdp_obj_file = [];
  xdp_prog_name = [];
  attach_mode = unspec;
  time_to_live = 0;
  ifindex = pos 0;
  xsk_if_queue = pos 0;
  stats_interval = pos 0;
  bind_copy = false;
  bind_zerocopy = false;
  xsk_poll_mode = false;
  custom_xdp_prog = false;
  verbose = false;
}

module _ (X : Xsk) where
  abbrev pub Outcome : Type 0
  Outcome = ℤ × Ctx X × List Event

  -- `memset(&ctx, 0, sizeof(ctx))`
  unfoldable pub zero_ctx : Ctx X
  zero_ctx = record {
    cfg = zero_config;
    umem = none;
    packet_buffer = false;
    xsk_socket = none;
    xdp_prog = null;
    packet_buffer_size = 0;
    packet_buffer_size_aligned = 0;
    xsk_map_fd = pos 0;
    global_exit = false;
    use_hugepages = false;
    hugepage_preallocated = false;
  }

  -- The context with the new buffer, on hugepages if `mmap` gave them.
  abbrev pub with_buffer : Calls X → Ctx X → Ctx X
  with_buffer c ctx = record ctx {
    use_hugepages = c.mmap_ok;
    packet_buffer = true;
    packet_buffer_size = num_frames * c.frame_size;
    packet_buffer_size_aligned = umem_hugepage_aligned c.frame_size;
  }

  -- afxdp_alloc_hugepage_buffer: `mmap`, and where it fails `posix_memalign`.
  unfoldable pub alloc_hugepage_buffer : Calls X → Ctx X → Outcome
  alloc_hugepage_buffer c ctx =
      if not (c.mmap_ok || c.memalign_ok)
      then (minus 12, ctx, [])
      else (pos 0, with_buffer c ctx, acquired packet_memory ∷ [])

  -- afxdp_preallocate_hugepages
  pub preallocate_hugepages : Calls X → Ctx X → Outcome
  unfolding alloc_hugepage_buffer
  preallocate_hugepages c ctx =
      if ctx.packet_buffer
      then (pos 0, ctx, [])
      else (let (ret, ctx', es) = alloc_hugepage_buffer c ctx in
          if is_zero ret
          then (ret, record ctx' { hugepage_preallocated = true }, es)
          else (ret, ctx', es))

  -- The continuation of a step behind the events of the steps before it.
  abbrev pub after : List Event → Outcome → Outcome
  after es (ret, ctx, fs) = (ret, ctx, es ++ fs)

  -- Step 8 of afxdp_init, for the UMEM of step 7.
  unfoldable pub init_socket : Calls X → UmemInfo X → Ctx X → Outcome
  init_socket c u ctx =
      let (s, es) = configure_socket X c.frame_size ctx.cfg.custom_xdp_prog u c.socket in
      elim s [
        | none ↦ (
          minus 19,
          record ctx { umem = none },
          es ++ (released umem_region ∷ released umem_info ∷ []),
        )
        | some socket ↦ (pos 0, record ctx { umem = some u; xsk_socket = some socket }, es)
      ]

  -- Step 7, behind the UMEM's configuration
  unfoldable pub with_umem : Calls X → Ctx X → Traced (UmemInfo X) → Outcome
  unfolding init_socket
  with_umem c ctx (none, es) = (minus 12, record ctx { umem = none }, es)
  with_umem c ctx (some info, es) = after es (init_socket c info ctx)

  unfoldable pub init_umem : Calls X → Ctx X → Outcome
  unfolding with_umem
  init_umem c ctx = with_umem c ctx (configure_umem X c.umem)

  -- Step 6
  unfoldable pub init_buffer : Calls X → Ctx X → Outcome
  unfolding init_umem alloc_hugepage_buffer
  init_buffer c ctx =
      let sized : Ctx X = record ctx { packet_buffer_size = num_frames * c.frame_size } in
      let fresh = alloc_hugepage_buffer c sized in
      if ctx.packet_buffer
      then init_umem c sized
      else if is_zero fresh.0
      then after fresh.2 (init_umem c fresh.1)
      else (minus 12, fresh.1, fresh.2)

  -- Steps 4 and 5
  unfoldable pub init_program : Calls X → Ctx X → Outcome
  unfolding init_buffer
  init_program c ctx =
      let mapped : Ctx X = record ctx { xdp_prog = attached; xsk_map_fd = c.map_fd } in
      let es = acquired xdp_program ∷ acquired xdp_attachment ∷ [] in
      if not (is_zero c.get_error)
      then (negate c.get_error, record ctx { xdp_prog = error_pointer }, [])
      else if not (is_zero c.attach)
      then (c.attach, record ctx { xdp_prog = loaded }, acquired xdp_program ∷ [])
      else if is_neg c.map_fd
      then (minus 2, mapped, es)
      else if not (c.rlimit_errno == 0)
      then (minus c.rlimit_errno, mapped, es)
      else after es (init_buffer c mapped)

  -- afxdp_init behind step 1
  unfoldable pub start : Calls X → Ctx X → Config → Outcome
  unfolding init_program
  start c ctx cfg = elim (preflight_checks c.machine cfg) [
    | some e ↦ (errno e, record ctx { global_exit = false; cfg = cfg }, [])
    | none ↦ init_program c (record ctx { global_exit = false; cfg = cfg })
  ]

  -- afxdp_init; `none` is an `exit` of the option parser.
  pub init : Calls X → Ctx X → Option Outcome
  unfolding start
  init c ctx = elim (parse_args c.if_nametoindex c.opts) [
    | none ↦ none
    | some cfg ↦ some (start c ctx cfg)
  ]

  -- The first step of afxdp_cleanup, for the result of xdp_program__detach, which is only logged.
  pub detach : Bool → Ctx X → Ctx X × List Event
  detach detach_ok ctx =
      let gone : Ctx X = record ctx { xdp_prog = null } in
      elim ctx.xdp_prog [
        | null ↦ (ctx, [])
        | error_pointer ↦ (gone, [])
        | loaded ↦ (gone, released xdp_program ∷ [])
        | attached ↦ (
          gone,
          (if detach_ok then released xdp_attachment ∷ [] else []) ++ (released xdp_program ∷ []),
        )
      ]

  pub delete_socket : Ctx X → Ctx X × List Event
  delete_socket ctx = elim ctx.xsk_socket [
    | none ↦ (ctx, [])
    | some s ↦ (record ctx { xsk_socket = none }, released xsk_socket ∷ released socket_info ∷ [])
  ]

  pub delete_umem : Ctx X → Ctx X × List Event
  delete_umem ctx = elim ctx.umem [
    | none ↦ (ctx, [])
    | some u ↦ (record ctx { umem = none }, released umem_region ∷ released umem_info ∷ [])
  ]

  pub release_buffer : Bool → Ctx X → Ctx X × List Event
  release_buffer final_cleanup ctx =
      if final_cleanup && ctx.packet_buffer
      then (record ctx { packet_buffer = false }, released packet_memory ∷ [])
      else (ctx, [])

  -- afxdp_cleanup
  pub cleanup : Bool → Bool → Ctx X → Ctx X × List Event
  unfolding detach delete_socket delete_umem release_buffer
  cleanup detach_ok final_cleanup ctx =
      let (ctx1, es1) = detach detach_ok ctx in
      let (ctx2, es2) = delete_socket ctx1 in
      let (ctx3, es3) = delete_umem ctx2 in
      let (ctx4, es4) = release_buffer final_cleanup ctx3 in (ctx4, es1 ++ (es2 ++ (es3 ++ es4)))
