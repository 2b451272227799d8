-- ===== src/Nflib/Dangling.antt =====
-- onvm_nflib_nf_tx_mgr_init of onvm/onvm_nflib/onvm_nflib.c when memory runs out: it frees the queue manager and leaves
-- the pointer in the NF's slot, and its caller does not learn of it.
use afxdp_path_manager.Common.{
  ℕ, suc, ◌≡◌, ◌≢◌, refl, sym, ap, ◌∙◌, inl, inr, Bool, true, false, Option, none, some, ◌==◌,
  Bool-cases, ℤ, pos, arith,
}
use afxdp_path_manager.Nflib.{
  TxMgr, FunctionTable, LocalCtx, Process, returns, undefined, returns-injective, release,
}
use afxdp_path_manager.Nflib.Start.{
  Answers, NfStart, nf_tx_mgr_init, clear_nf, finish_init, start_nf, save_function_table,
}
use afxdp_path_manager.Nflib.Start.Laws.{asked, HasShared, clear_shared}
use afxdp_path_manager.Nflib.Start.Memory.{start_nf-finish}
use afxdp_path_manager.Nflib.Stop.{free_tx_mgr, terminate_children, StopAnswers, cleanup, stop}
use afxdp_path_manager.Nflib.Stop.Children.{IsWoken-field, terminate_children-Waits}
use afxdp_path_manager.Nflib.Stop.Laws.{free_state_data-none}

-- The second or the third allocation fails.
pub data RunsOut (m : ℕ) : Option ℕ → Option ℕ → Type 0 where
  at_second : {bufs : Option ℕ} → RunsOut m none bufs
  at_third : {b : ℕ} → m ≢ b → RunsOut m (some b) none

-- The slot points at a queue manager that is not allocated, and has no state data.
record IsDangling (p : Process) (id : ℕ) : Type 0 where
  tx_mgr : TxMgr
  there : (p.nfs id).nf_tx_mgr ≡ some tx_mgr
  dead : p.live tx_mgr.addr ≡ false
  no_data : (p.nfs id).state_data ≡ none

nf_tx_mgr_init-IsDangling :
    (m : ℕ) (buf bufs : Option ℕ) (id : ℕ) (p : Process)
    → RunsOut m buf bufs
    → (p.nfs id).state_data ≡ none
    → (q : Process) × (nf_tx_mgr_init (some m) buf bufs id p ≡ returns q) × IsDangling q id
unfolding nf_tx_mgr_init release
nf_tx_mgr_init-IsDangling m none bufs id p at_second e =
    let self : (id == id) ≡ true = ground arith in
    let own : (m == m) ≡ true = ground arith in
    rw own (
      _,
      refl,
      record {
        tx_mgr = record { addr = m; id = 0; to_tx_buf = none; nf_rx_bufs = none };
        there = rw self refl;
        dead = rw own refl;
        no_data = rw self e;
      },
    )
nf_tx_mgr_init-IsDangling m (some b) none id p (at_third ne) e =
    let self : (id == id) ≡ true = ground arith in
    let own : (m == m) ≡ true = ground arith in
    let same : (b == b) ≡ true = ground arith in
    let other : (m == b) ≡ false = ground (arith, ne) in
    let own_id = (p.nfs id).instance_id in
    rw (same, other, own)
      (
        _,
        refl,
        record {
          tx_mgr = record { addr = m; id = own_id; to_tx_buf = some b; nf_rx_bufs = none };
          there = rw self refl;
          dead = rw own refl;
          no_data = rw self e;
        },
      )
nf_tx_mgr_init-IsDangling m (some b) (some bs) id p out e = elim out [ ]

-- The rest of the start and the functions of the NF change nothing of it.
IsDangling-running :
    (p : Process) (id : ℕ) (table : FunctionTable)
    → IsDangling p id
    → IsDangling (save_function_table id table (clear_nf id p)) id
IsDangling-running p id table d =
    let self : (id == id) ≡ true = ground arith in
    record {
      tx_mgr = d.tx_mgr;
      there = rw self d.there;
      dead = d.dead;
      no_data = rw self d.no_data;
    }

cleanup-undefined :
    (a : StopAnswers) (ctx : LocalCtx) (p : Process) (id : ℕ)
    → ctx.nf_init_finished ≡ true
    → ctx.nf ≡ some id
    → IsDangling p id
    → cleanup a ctx p ≡ undefined
unfolding cleanup free_tx_mgr
cleanup-undefined a ctx p id finished nf d =
    let (q, e, f, mgr, table) = free_state_data-none p id d.no_data in
    let dead : q.live d.tx_mgr.addr ≡ false = ap (λ l. l d.tx_mgr.addr) f.live ∙ d.dead in
    let gone : free_tx_mgr id q ≡ undefined = rw (free_tx_mgr, mgr ∙ d.there, dead) refl in
    simp (finished, nf, e, gone) refl

stop-undefined :
    (share_cores : Bool) (children : ℕ → ℤ) (a : StopAnswers) (ctx : LocalCtx) (p : Process)
    (id : ℕ)
    → ctx.nf_init_finished ≡ true
    → ctx.nf_stopped ≡ false
    → ctx.nf ≡ some id
    → IsDangling p id
    → stop share_cores children a ctx p ≡ undefined
unfolding stop
stop-undefined share_cores children a ctx p id finished fresh nf d =
    let q = (terminate_children share_cores id children p).0 in
    let (bound, why, same) = terminate_children-Waits share_cores id children p in
    let known : LocalCtx = record ctx { nf = some id; nf_stopped = true } in
    let still : IsDangling q id = record {
      tx_mgr = d.tx_mgr;
      there = IsWoken-field (λ nf. nf.nf_tx_mgr) same (λ nf. refl) id ∙ d.there;
      dead = ap (λ l. l d.tx_mgr.addr) same.live ∙ d.dead;
      no_data = IsWoken-field (λ nf. nf.state_data) same (λ nf. refl) id ∙ d.no_data;
    } in
    elim (Bool-cases (p.live ctx.addr)) [
      | inl here ↦ simp (here, nf, fresh) (cleanup-undefined a known q id finished refl still)
      | inr gone ↦ rw gone refl
    ]

-- Let the allocation of the queue manager succeed and one of the two behind it fail. When onvm_nflib_start_nf returns
-- 0 all the same, and the NF gets its functions and has no state data, then onvm_nflib_stop is not defined:
-- it reads and frees the queue manager, which onvm_nflib_nf_tx_mgr_init has freed before.
pub stop-dangling :
    (seconds : ℕ) (a : Answers) (s : StopAnswers) (children : ℕ → ℤ) (ctx : LocalCtx) (p : Process)
    (r : NfStart) (table : FunctionTable) (m : ℕ)
    → start_nf seconds a ctx p ≡ returns r
    → r.ret ≡ pos 0
    → HasShared a
    → a.tx_mgr ≡ some m
    → RunsOut m a.to_tx_buf a.nf_rx_bufs
    → ctx.nf_init_finished ≡ false
    → ctx.nf_stopped ≡ false
    → (p.nfs a.instance_id).state_data ≡ none
    → stop a.share_cores children s r.ctx (save_function_table a.instance_id table r.process)
      ≡ undefined
unfolding finish_init
stop-dangling seconds a s children ctx p r table m e zero_ret shared em out early fresh none_yet =
    let id = a.instance_id in
    let given : Process = record (asked p) { cfgs_back = suc p.cfgs_back } in
    let (q, is, d) = nf_tx_mgr_init-IsDangling m a.to_tx_buf a.nf_rx_bufs id given out none_yet in
    let init : nf_tx_mgr_init a.tx_mgr a.to_tx_buf a.nf_rx_bufs id given ≡ returns q =
      ap (λ o. nf_tx_mgr_init o a.to_tx_buf a.nf_rx_bufs id given) em ∙ is in
    let known : LocalCtx = record ctx { nf = some id; nf_init_finished = true } in
    let last : NfStart = record { ret = pos 0; ctx = known; process = clear_nf id q } in
    let got : finish_init a ctx (asked p) ≡ returns last =
      rw (init, clear_shared a (clear_nf id q) shared, early) refl in
    let same = returns-injective (sym (start_nf-finish seconds a ctx p r e zero_ret) ∙ got) in
    let end =
      stop-undefined a.share_cores children s known (save_function_table id table (clear_nf id q))
        id refl fresh refl (IsDangling-running q id table d) in
    ap
      (λ (t : NfStart).
        stop a.share_cores children s t.ctx (save_function_table id table t.process))
      same
    ∙ end
