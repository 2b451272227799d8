-- ===== src/Afxdp/Lifecycle/Laws.antt =====
-- What the manager holds: every step of afxdp_init and afxdp_cleanup keeps the account.
use afxdp_path_manager.Common.{
  ◌⊎◌, inl, inr, ℕ, ◌+◌, ◌*◌, ◌≡◌, refl, Bool, true, false, not, ◌&&◌, [], ◌∷◌, Option, none, some,
  arith, if◌then◌else◌,
}
use afxdp_path_manager.Afxdp.Config.{num_frames}
use afxdp_path_manager.Afxdp.Args.{Config, parse_args}
use afxdp_path_manager.Afxdp.Ring.{Xsk}
use afxdp_path_manager.Afxdp.Setup.{
  Resource, acquired, released, one, acquisitions, releases, umem_info, umem_region, socket_info,
  xsk_socket, xdp_program, xdp_attachment, packet_memory, UmemInfo, Traced, configure_umem,
  configure_socket,
}
use afxdp_path_manager.Afxdp.Setup.Laws.{
  configure_socket_account, configure_umem_account, acquisitions-append, releases-append,
}
use afxdp_path_manager.Afxdp.Lifecycle.{
  start, with_umem, with_buffer, Ctx, Calls, Outcome, null, error_pointer, loaded, attached,
  alloc_hugepage_buffer, preallocate_hugepages, init_socket, init_umem, init_buffer, init_program,
  init, detach, delete_socket, delete_umem, release_buffer, cleanup,
}

module _ {X : Xsk} where
  -- How often a context owns a resource.
  unfoldable pub holds : Resource → Ctx X → ℕ
  holds r ctx =
      elim ctx.umem [ none ↦ 0 | some u ↦ one r umem_info + one r umem_region ]
      + elim ctx.xsk_socket [ none ↦ 0 | some s ↦ one r socket_info + one r xsk_socket ]
      + elim ctx.xdp_prog [
        | null ↦ 0
        | error_pointer ↦ 0
        | loaded ↦ one r xdp_program
        | attached ↦ one r xdp_program + one r xdp_attachment
      ]
      + (if ctx.packet_buffer then one r packet_memory else 0)

  -- What is owned before and acquired is given back or owned after.
  unfoldable pub IsBalanced : Resource → Ctx X → Outcome X → Type 0
  unfolding holds
  IsBalanced r before (ret, ctx, es) =
      holds r before + acquisitions r es ≡ releases r es + holds r ctx

  -- A context without socket, UMEM and program, as before afxdp_init.
  pub record IsClosed (ctx : Ctx X) : Type 0 where
    pub umem : ctx.umem ≡ none
    pub socket : ctx.xsk_socket ≡ none
    pub prog : ctx.xdp_prog ≡ null

  -- Step 8 keeps the account, given the UMEM of step 7.
  init_socket-account :
      (c : Calls X) (u : UmemInfo X) (ctx : Ctx X) (r : Resource)
      → ctx.umem ≡ none
      → ctx.xsk_socket ≡ none
      → let o = init_socket X c u ctx in
        holds r ctx + (one r umem_info + one r umem_region) + acquisitions r o.2
        ≡ releases r o.2 + holds r o.1
  unfolding init_socket holds
  init_socket-account c u ctx r a b =
      let ran = configure_socket X c.frame_size ctx.cfg.custom_xdp_prog u c.socket in
      let gone = released umem_region ∷ released umem_info ∷ [] in
      ground (
        arith,
        configure_socket_account X c.frame_size ctx.cfg.custom_xdp_prog u c.socket r,
        acquisitions-append r ran.1 gone,
        releases-append r ran.1 gone,
      )

  with_umem-IsBalanced :
      (c : Calls X) (ctx : Ctx X) (r : Resource) (ran : Traced (UmemInfo X))
      → ctx.umem ≡ none
      → ctx.xsk_socket ≡ none
      → acquisitions r ran.1
        ≡ releases r ran.1 + elim ran.0 [ none ↦ 0 | some u ↦ one r umem_info + one r umem_region ]
      → IsBalanced r ctx (with_umem X c ctx ran)
  unfolding with_umem IsBalanced holds
  with_umem-IsBalanced c ctx r (none, es) a b acc = ground (arith, acc)
  with_umem-IsBalanced c ctx r (some info, es) a b acc =
      let o = init_socket X c info ctx in
      omega (
        arith,
        acc,
        init_socket-account c info ctx r a b,
        acquisitions-append r es o.2,
        releases-append r es o.2,
      )

  init_umem-IsBalanced :
      (c : Calls X) (ctx : Ctx X) (r : Resource)
      → ctx.umem ≡ none
      → ctx.xsk_socket ≡ none
      → IsBalanced r ctx (init_umem X c ctx)
  unfolding init_umem
  init_umem-IsBalanced c ctx r a b =
      with_umem-IsBalanced c ctx r (configure_umem X c.umem) a b (configure_umem_account X c.umem r)

  init_buffer-IsBalanced :
      (c : Calls X) (ctx : Ctx X) (r : Resource)
      → ctx.umem ≡ none
      → ctx.xsk_socket ≡ none
      → IsBalanced r ctx (init_buffer X c ctx)
  unfolding init_buffer alloc_hugepage_buffer IsBalanced holds
  init_buffer-IsBalanced c ctx r a b =
      let sized : Ctx X = record ctx { packet_buffer_size = num_frames * c.frame_size } in
      let fresh = with_buffer X c sized in
      let o = init_umem X c fresh in
      ground (
        arith,
        init_umem-IsBalanced c sized r a b,
        init_umem-IsBalanced c fresh r a b,
        acquisitions-append r (acquired packet_memory ∷ []) o.2,
        releases-append r (acquired packet_memory ∷ []) o.2,
      )

  init_program-IsBalanced :
      (c : Calls X) (ctx : Ctx X) (r : Resource)
      → IsClosed ctx
      → IsBalanced r ctx (init_program X c ctx)
  unfolding init_program IsBalanced holds
  init_program-IsBalanced c ctx r cl =
      let mapped : Ctx X = record ctx { xdp_prog = attached; xsk_map_fd = c.map_fd } in
      ground
        (arith, cl.umem, cl.socket, cl.prog, init_buffer-IsBalanced c mapped r cl.umem cl.socket)

  -- Either the option parser exits, or afxdp_init runs with what it returns.
  pub init_cases :
      (c : Calls X) (ctx : Ctx X)
      → (init X c ctx ≡ none)
        ⊎ ((cfg : Config) × (parse_args c.if_nametoindex c.opts ≡ some cfg)
            × (init X c ctx ≡ some (start X c ctx cfg)))
  unfolding init
  init_cases c ctx = go (parse_args c.if_nametoindex c.opts) refl
    where
      go :
          (p : Option Config)
          → parse_args c.if_nametoindex c.opts ≡ p
          → (init X c ctx ≡ none)
            ⊎ ((cfg : Config) × (parse_args c.if_nametoindex c.opts ≡ some cfg)
                × (init X c ctx ≡ some (start X c ctx cfg)))
      go none e = inl (rw (e, init) refl)
      go (some cfg) e = inr (cfg, e, rw (e, init) refl)

  pub init_parsed :
      (c : Calls X) (ctx : Ctx X) (cfg : Config)
      → parse_args c.if_nametoindex c.opts ≡ some cfg
      → init X c ctx ≡ some (start X c ctx cfg)
  unfolding init
  init_parsed c ctx cfg e = rw (e, init) refl

  start-IsBalanced :
      (c : Calls X) (ctx : Ctx X) (cfg : Config) (r : Resource)
      → IsClosed ctx
      → IsBalanced r ctx (start X c ctx cfg)
  unfolding start IsBalanced holds
  start-IsBalanced c ctx cfg r cl =
      let fresh : Ctx X = record ctx { global_exit = false; cfg = cfg } in
      ground (
        arith,
        init_program-IsBalanced c fresh r
            (record { umem = cl.umem; socket = cl.socket; prog = cl.prog }),
      )

  -- Whatever the libraries answer, afxdp_init on a closed context loses track of nothing: each resource
  -- that the context held or afxdp_init acquired is given back or held by the context it leaves.
  pub init-IsBalanced :
      (c : Calls X) (ctx : Ctx X) (o : Outcome X) (r : Resource)
      → IsClosed ctx
      → init X c ctx ≡ some o
      → IsBalanced r ctx o
  init-IsBalanced c ctx o r cl e = elim (init_cases c ctx) [
    | inl n ↦ ground (arith, n, e)
    | inr (cfg, p, s) ↦
        let same : start X c ctx cfg ≡ o = cc in rw same at (start-IsBalanced c ctx cfg r cl)
  ]

  preallocate-IsBalanced :
      (c : Calls X) (ctx : Ctx X) (r : Resource) → IsBalanced r ctx (preallocate_hugepages X c ctx)
  unfolding preallocate_hugepages alloc_hugepage_buffer IsBalanced holds
  preallocate-IsBalanced c ctx r = ground arith

  -- If xdp_program__detach succeeds, a final afxdp_cleanup leaves nothing behind: each resource is given back
  -- as often as the context held it. Between two runs it keeps the packet memory, and nothing else.
  pub cleanup_lem :
      (final : Bool) (ctx : Ctx X) (r : Resource)
      → (holds r ctx
          ≡ releases r (cleanup X true final ctx).1 + holds r (cleanup X true final ctx).0)
        × (holds r (cleanup X true final ctx).0
            ≡ (if not final && ctx.packet_buffer then one r packet_memory else 0))
  unfolding cleanup detach delete_socket delete_umem release_buffer holds
  cleanup_lem final ctx r = ground arith

  pub cleanup-acquisitions :
      (final : Bool) (ctx : Ctx X) (r : Resource) → acquisitions r (cleanup X true final ctx).1 ≡ 0
  unfolding cleanup detach delete_socket delete_umem release_buffer
  cleanup-acquisitions final ctx r = ground arith
