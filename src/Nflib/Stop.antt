-- ===== src/Nflib/Stop.antt =====
-- onvm_nflib_stop of onvm/onvm_nflib/onvm_nflib.c and what it calls. The number of children, which the manager
-- lowers, is a function of the seconds since the call.
pub mod Children
pub mod Laws
use afxdp_path_manager.Common.{
  ℕ, zero, suc, ◌+◌, ◌-◌, Bool, true, false, not, ◌&&◌, [], ◌∷◌, ◌++◌, none, some, ◌==◌, ℤ, pos,
  leb_ℤ, if◌then◌else◌,
}
use afxdp_path_manager.Mgr.Services.{max_nfs}
use afxdp_path_manager.Nflib.{
  nf_running, LocalCtx, stopping, Process, CallResult, returns, exits, undefined, ◌and_then◌,
  release, release_some, set_nf,
}

-- NF_TERM_STOP_ITER_TIMES
abbrev pub nf_term_stop_iter_times : ℕ
nf_term_stop_iter_times = 10

-- The body of the loop over the NFs: a child of `nf` that sleeps is woken. `sem_post` raises its semaphore.
unfoldable pub wake_child : Bool → ℕ → ℕ → Process → Process
wake_child share_cores id i p =
    let nf = p.nfs i in
    if not (nf.parent == (p.nfs id).instance_id)
    then p
    else if not (nf.status == nf_running)
    then p
    else if share_cores && nf.sleep_state
    then set_nf i (record nf { sleep_state = false; nf_mutex = nf.nf_mutex + 1 }) p
    else p

-- The loop over the NFs, for the last `n` of them
unfoldable pub wake_children : Bool → ℕ → ℕ → Process → Process
unfolding wake_child
wake_children share_cores id zero p = p
wake_children share_cores id (suc n) p =
    wake_children share_cores id n (wake_child share_cores id (max_nfs - suc n) p)

-- onvm_nflib_terminate_children, for the rounds that it has left and the seconds passed: the process, and when it ends
unfoldable pub terminate_rounds : Bool → ℕ → (ℕ → ℤ) → ℕ → ℕ → Process → Process × ℕ
unfolding wake_children
terminate_rounds share_cores id children zero now p = (p, now)
terminate_rounds share_cores id children (suc left) now p =
    let later =
      terminate_rounds share_cores id children left (now + 1)
        (wake_children share_cores id max_nfs p) in
    if leb_ℤ (children now) (pos 0) then (p, now) else later

unfoldable pub terminate_children : Bool → ℕ → (ℕ → ℤ) → Process → Process × ℕ
unfolding terminate_rounds
terminate_children share_cores id children p =
    terminate_rounds share_cores id children nf_term_stop_iter_times 0 p

-- The part of onvm_nflib_cleanup for the queue manager: reading it when it is not allocated is not defined.
unfoldable pub free_tx_mgr : ℕ → Process → CallResult Process
unfolding release
free_tx_mgr id p = elim (p.nfs id).nf_tx_mgr [
  | none ↦ returns p
  | some tx_mgr ↦
      if p.live tx_mgr.addr
      then (release_some tx_mgr.to_tx_buf p
          and_then release_some tx_mgr.nf_rx_bufs
          and_then release tx_mgr.addr
          and_then λ q. returns (set_nf id (record (q.nfs id) { nf_tx_mgr = none }) q))
      else undefined
]

unfoldable pub free_state_data : ℕ → Process → CallResult Process
unfolding release
free_state_data id p = release_some (p.nfs id).state_data p and_then λ q.
    returns (set_nf id (record (q.nfs id) { state_data = none }) q)

unfoldable pub free_function_table : ℕ → Process → CallResult Process
unfolding release
free_function_table id p = elim (p.nfs id).function_table [
  | none ↦ returns p
  | some table ↦ release table.addr p and_then λ q.
      returns (set_nf id (record (q.nfs id) { function_table = none }) q)
]

-- What the surroundings answer: the manager's queue is there, rte_mempool_get and rte_ring_enqueue succeed
pub record StopAnswers : Type 0 where
  pub queue_found : Bool
  pub msg_got : Bool
  pub enqueued : Bool

-- onvm_nflib_cleanup for a context that is not NULL
unfoldable pub cleanup : StopAnswers → LocalCtx → Process → CallResult Process
unfolding release free_tx_mgr free_state_data free_function_table
cleanup a ctx p = if not ctx.nf_init_finished then release ctx.addr p else elim ctx.nf [
  | none ↦ exits
  | some id ↦
      free_state_data id p and_then free_tx_mgr id and_then free_function_table id and_then λ q.
      if not a.queue_found
      then exits
      else if not a.msg_got
      then exits
      else if not a.enqueued
      then exits
      else release ctx.addr (record q { to_mgr = q.to_mgr ++ stopping id ∷ [] })
]

-- onvm_nflib_stop for a context that is not NULL. The statistics are only printed.
unfoldable pub stop : Bool → (ℕ → ℤ) → StopAnswers → LocalCtx → Process → CallResult Process
stop share_cores children a ctx p = if not (p.live ctx.addr) then undefined else elim ctx.nf [
  | none ↦ returns p
  | some id ↦
      if ctx.nf_stopped
      then returns p
      else let (q, seconds) = terminate_children share_cores id children p in
        cleanup a (record ctx { nf_stopped = true }) q
]
