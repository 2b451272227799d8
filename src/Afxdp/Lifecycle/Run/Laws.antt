-- ===== src/Afxdp/Lifecycle/Run/Laws.antt =====
-- What `main` leaves behind in AF_XDP mode, and when its behaviour is defined.
use afxdp_path_manager.Common.{
  ℕ, zero, suc, ◌*◌, ◌+◌, ◌≡◌, refl, ◌⊎◌, inl, inr, ◌↔◌, ℤ, pos, negsuc, Bool, true, false, List,
  ◌++◌, none, some, arith, ◌≢◌,
}
use afxdp_path_manager.Afxdp.Config.{num_frames}
use afxdp_path_manager.Afxdp.Args.{Config, parse_args}
use afxdp_path_manager.Afxdp.Preflight.{preflight_checks}
use afxdp_path_manager.Afxdp.Ring.{Xsk}
use afxdp_path_manager.Afxdp.Setup.{
  UmemInfo, Traced, configure_umem, Resource, Event, acquisitions, releases,
}
use afxdp_path_manager.Afxdp.Setup.Laws.{acquisitions-append, releases-append}
use afxdp_path_manager.Afxdp.Lifecycle.{
  is_neg, Ctx, Calls, zero_ctx, init_socket, with_umem, init_umem, init_buffer, init_program, start,
  init, cleanup, alloc_hugepage_buffer, with_buffer, minus, errno, attached,
}
use afxdp_path_manager.Afxdp.Lifecycle.Laws.{
  holds, IsBalanced, IsClosed, init-IsBalanced, init_cases, init_parsed, cleanup_lem,
  cleanup-acquisitions,
}
use afxdp_path_manager.Afxdp.Lifecycle.Run.{run, undefined, ended, no_socket, run_and_cleanup, main}

-- afxdp_run joins just the threads that it started, unless the RX thread runs and one of the other two could
-- not be created.
pub run_joins_iff :
    {X : Xsk} (c : Calls X)
    → ((run c).joined ≡ (run c).started)
      ↔ ((c.rx_create ≢ 0) ⊎ ((c.mgr_create ≡ 0) × (c.wakeup_create ≡ 0)))
unfolding run
run_joins_iff c = ground arith

zero_ctx-IsClosed : (X : Xsk) → IsClosed (zero_ctx X)
unfolding zero_ctx
zero_ctx-IsClosed X = record { umem = refl; socket = refl; prog = refl }

zero_ctx-holds : (X : Xsk) (r : Resource) → holds r (zero_ctx X) ≡ 0
unfolding zero_ctx holds
zero_ctx-holds X r = omega arith

minus-is_neg : (n : ℕ) → n ≢ 0 → is_neg (minus n) ≡ true
minus-is_neg zero p = ground (arith, p)
minus-is_neg (suc n) p = refl

module _ {X : Xsk} where
  -- When afxdp_init succeeds, main then returns and libxdp detaches the program without an error, each resource that the run acquired is given back.
  pub main_ok :
      (c : Calls X) (n : ℕ) (ctx : Ctx X) (before : List Event) (ret : ℤ) (es : List Event)
      (r : Resource)
      → init X c (zero_ctx X) ≡ some (pos n, ctx, before)
      → main true c ≡ ended ret es
      → acquisitions r es ≡ releases r es
  unfolding main run_and_cleanup IsBalanced
  main_ok c n ctx before ret es r e f =
      let tail = (cleanup X true true ctx).1 in
      let ran : run_and_cleanup true c (pos n, ctx, before) ≡ ended ret es = rw (e, main) at f in
      let all : es ≡ before ++ tail = ground (arith, ran) in
      let back = cleanup_lem true ctx r in
      rw all (
        omega (
          arith,
          init-IsBalanced c (zero_ctx X) (pos n, ctx, before) r (zero_ctx-IsClosed X) e,
          zero_ctx-holds X r,
          back.0,
          back.1,
          cleanup-acquisitions true ctx r,
          acquisitions-append r before tail,
          releases-append r before tail,
        ))

  -- When afxdp_init fails, main returns -1 and leaves behind what the context holds, since it calls no
  -- afxdp_cleanup: the packet memory, and the program on the interface, if it came so far.
  pub main_failed :
      (c : Calls X) (d : Bool) (n : ℕ) (ctx : Ctx X) (es : List Event)
      → init X c (zero_ctx X) ≡ some (negsuc n, ctx, es)
      → (main d c ≡ ended (negsuc 0) es)
        × ((r : Resource) → acquisitions r es ≡ releases r es + holds r ctx)
  unfolding main IsBalanced
  main_failed c d n ctx es e = (
    rw (e, main) refl,
    λ r. omega (
      arith,
      init-IsBalanced c (zero_ctx X) (negsuc n, ctx, es) r (zero_ctx-IsClosed X) e,
      zero_ctx-holds X r,
    ),
  )

  -- afxdp_init returns a negative number or leaves a socket, unless libxdp reports an error where it loads
  -- or attaches the program.
  with_umem-socket :
      (c : Calls X) (ctx : Ctx X) (ran : Traced (UmemInfo X))
      → let o = with_umem X c ctx ran in (is_neg o.0 ≡ true) ⊎ (no_socket o.1 ≡ false)
  unfolding with_umem init_socket
  with_umem-socket c ctx (none, es) = inl refl
  with_umem-socket c ctx (some u, es) = ground arith

  init_buffer-socket :
      (c : Calls X) (ctx : Ctx X)
      → let o = init_buffer X c ctx in (is_neg o.0 ≡ true) ⊎ (no_socket o.1 ≡ false)
  unfolding init_buffer init_umem alloc_hugepage_buffer
  init_buffer-socket c ctx =
      let sized : Ctx X = record ctx { packet_buffer_size = num_frames * c.frame_size } in
      ground (
        arith,
        with_umem-socket c sized (configure_umem X c.umem),
        with_umem-socket c (with_buffer X c sized) (configure_umem X c.umem),
      )

  start-socket :
      (c : Calls X) (ctx : Ctx X) (cfg : Config)
      → c.get_error ≡ pos 0
      → (c.attach ≡ pos 0) ⊎ (is_neg c.attach ≡ true)
      → let o = start X c ctx cfg in (is_neg o.0 ≡ true) ⊎ (no_socket o.1 ≡ false)
  unfolding start init_program errno
  start-socket c ctx cfg e a =
      let mapped : Ctx X = record ctx {
        global_exit = false;
        cfg = cfg;
        xdp_prog = attached;
        xsk_map_fd = c.map_fd;
      } in
      ground (arith, init_buffer-socket c mapped, minus-is_neg c.rlimit_errno)

  -- If libxdp reports no error where it loads the program, and none but a negative one where it attaches it,
  -- and the three threads can be created, main exits in the option parser or returns.
  pub main_defined :
      (c : Calls X) (d : Bool)
      → c.get_error ≡ pos 0
      → (c.attach ≡ pos 0) ⊎ (is_neg c.attach ≡ true)
      → c.mgr_create ≡ 0
      → c.wakeup_create ≡ 0
      → main d c ≢ undefined
  unfolding main run_and_cleanup
  main_defined c d e a m w h = elim (init_cases c (zero_ctx X)) [
    | inl n ↦ ground (arith, rw (n, main) at h)
    | inr (cfg, p, s) ↦ ground (arith, rw (s, main) at h, start-socket c (zero_ctx X) cfg e a, m, w)
  ]

  -- If libxdp cannot load the program and the RX thread starts, main runs on without a socket: the RX
  -- thread reads through NULL.
  pub main_undefined :
      (c : Calls X) (d : Bool) (cfg : Config) (n : ℕ)
      → parse_args c.if_nametoindex c.opts ≡ some cfg
      → preflight_checks c.machine cfg ≡ none
      → c.get_error ≡ negsuc n
      → c.rx_create ≡ 0
      → main d c ≡ undefined
  unfolding main run_and_cleanup start init_program zero_ctx
  main_undefined c d cfg n p q e rx =
      let failed : (start X c (zero_ctx X) cfg).0 ≡ pos (suc n) = ground (arith, q, e) in
      let bare : no_socket (start X c (zero_ctx X) cfg).1 ≡ true = ground (arith, q, e) in
      rw (init_parsed c (zero_ctx X) cfg p, main) (ground (arith, failed, bare, rx))
