-- ===== src/Afxdp/Lifecycle/Run.antt =====
-- afxdp_run of onvm/onvm_mgr/afxdp/onvm_afxdp.c, with its three threads' launch, and `main` of
-- onvm/onvm_mgr/main.c built for AF_XDP.

pub mod Laws
use afxdp_path_manager.Common.{
  ℤ, pos, negsuc, Bool, true, false, not, ◌&&◌, ◌||◌, List, [], ◌∷◌, ◌++◌, none, some, ◌==◌,
  if◌then◌else◌,
}
use afxdp_path_manager.Afxdp.Ring.{Xsk}
use afxdp_path_manager.Afxdp.Setup.{Event}
use afxdp_path_manager.Afxdp.Lifecycle.{minus, is_neg, Ctx, Calls, Outcome, zero_ctx, init, cleanup}

pub data Thread : Type 0 where
  rx_thread mgr_thread wakeup_thread : Thread

-- What a run of afxdp_run does: its return value, whether it sets `global_exit`, the threads that
-- `pthread_create` started, and those it joins.
pub record Ran : Type 0 where
  pub ret : ℤ
  pub stops : Bool
  pub started : List Thread
  pub joined : List Thread

-- There is one thread of each kind.
unfoldable pub run : {X : Xsk} → Calls X → Ran
run c =
    if not (c.rx_create == 0)
    then record { ret = minus c.rx_create; stops = true; started = []; joined = [] }
    else record {
      ret = pos 0;
      stops = not ((c.mgr_create == 0) && (c.wakeup_create == 0));
      started =
          rx_thread
          ∷ ((if c.mgr_create == 0 then mgr_thread ∷ [] else [])
              ++ (if c.wakeup_create == 0 then wakeup_thread ∷ [] else []));
      joined = rx_thread ∷ mgr_thread ∷ wakeup_thread ∷ [];
    }

-- How `main` ends: an `exit` of the option parser, a run that C leaves undefined (a thread reads
-- through the NULL of `ctx->xsk_socket`, or a thread is joined that was never started), or a return.
pub data End : Type 0 where
  exited undefined : End
  ended : ℤ → List Event → End

module _ {X : Xsk} where
  abbrev pub no_socket : Ctx X → Bool
  no_socket ctx = elim ctx.xsk_socket [ none ↦ true | some s ↦ false ]

  -- `main` behind afxdp_init
  unfoldable pub run_and_cleanup : Bool → Calls X → Outcome X → End
  unfolding run
  run_and_cleanup detach_ok c (ret, ctx, es) =
      let ran = run c in
      if (c.rx_create == 0)
        && (no_socket ctx || not ((c.mgr_create == 0) && (c.wakeup_create == 0)))
      then undefined
      else ended ran.ret (es ++ (cleanup X detach_ok true ctx).1)

  -- main, for the result of xdp_program__detach
  unfoldable pub main : Bool → Calls X → End
  unfolding run_and_cleanup
  main detach_ok c = elim (init X c (zero_ctx X)) [
    | none ↦ exited
    | some o ↦ if is_neg o.0 then ended (negsuc 0) o.2 else run_and_cleanup detach_ok c o
  ]
