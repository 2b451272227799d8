-- ===== src/Nflib/Start.antt =====
-- onvm_nflib_start_nf of onvm/onvm_nflib/onvm_nflib.c and what it calls. The time is counted in seconds from the
-- call on; the manager's answer and the flag `keep_running` are functions of it.
pub mod Wait
pub mod Laws
pub mod Memory
use afxdp_path_manager.Common.{
  ℕ, zero, suc, ◌+◌, Bool, true, not, ◌&&◌, [], ◌∷◌, ◌++◌, Option, none, some, leb, ◌==◌, ℤ, pos,
  negsuc, if◌then◌else◌,
}
use afxdp_path_manager.Nflib.{
  nf_waiting_for_id, nf_starting, nf_id_conflict, nf_core_busy, onvm_signal_termination, TxMgr,
  FunctionTable, LocalCtx, starting, Process, CallResult, returns, exits, waits, ◌and_then◌,
  acquire, release, set_nf,
}

-- NF_TERM_INIT_ITER_TIMES and NF_TERM_WAIT_TIME
abbrev pub nf_term_init_iter_times : ℕ
nf_term_init_iter_times = 3

abbrev pub nf_term_wait_time : ℕ
nf_term_wait_time = 1

-- onvm_nflib_nf_tx_mgr_init, for what the three calls of rte_zmalloc answer
unfoldable pub nf_tx_mgr_init : Option ℕ → Option ℕ → Option ℕ → ℕ → Process → CallResult Process
unfolding release
nf_tx_mgr_init none buf bufs id p = returns (set_nf id (record (p.nfs id) { nf_tx_mgr = none }) p)
nf_tx_mgr_init (some mgr) none bufs id p =
    let tx_mgr : TxMgr = record { addr = mgr; id = 0; to_tx_buf = none; nf_rx_bufs = none } in
    release mgr (acquire mgr (set_nf id (record (p.nfs id) { nf_tx_mgr = some tx_mgr }) p))
nf_tx_mgr_init (some mgr) (some buf) none id p =
    let own_id = (p.nfs id).instance_id in
    let tx_mgr : TxMgr = record {
      addr = mgr;
      id = own_id;
      to_tx_buf = some buf;
      nf_rx_bufs = none;
    } in
    release buf
      (acquire buf (acquire mgr (set_nf id (record (p.nfs id) { nf_tx_mgr = some tx_mgr }) p)))
    and_then release mgr
nf_tx_mgr_init (some mgr) (some buf) (some bufs) id p =
    let own_id = (p.nfs id).instance_id in
    let tx_mgr : TxMgr = record {
      addr = mgr;
      id = own_id;
      to_tx_buf = some buf;
      nf_rx_bufs = some bufs;
    } in
    returns (
      acquire bufs
        (acquire buf (acquire mgr (set_nf id (record (p.nfs id) { nf_tx_mgr = some tx_mgr }) p))))

-- init_shared_core_mode_info, for whether sem_open, shmget and shmat succeed. The segment's content is not known,
-- and the semaphore is not part of the state.
unfoldable pub init_shared_core_mode_info : Bool × Bool × Bool → Process → CallResult Process
init_shared_core_mode_info (sem_opened, segment_found, attached) p =
    if not sem_opened
    then exits
    else if not segment_found
    then exits
    else if not attached
    then exits
    else returns p

-- What the surroundings answer: pthread_sigmask, rte_mempool_get and rte_ring_enqueue succeed; the status and
-- the id that the manager writes; the flag `keep_running`; the allocations; ONVM_NF_SHARE_CORES
pub record Answers : Type 0 where
  pub masked : Bool
  pub msg_got : Bool
  pub enqueued : Bool
  pub status : ℕ → ℕ
  pub instance_id : ℕ
  pub keep_running : ℕ → Bool
  pub tx_mgr : Option ℕ
  pub to_tx_buf : Option ℕ
  pub nf_rx_bufs : Option ℕ
  pub share_cores : Bool
  pub shared : Bool × Bool × Bool

-- The inner loop, for the rounds that it has left: the time when it ends
unfoldable pub wait_for_mgr : ℕ → (ℕ → ℕ) → ℕ → ℕ
wait_for_mgr zero status now = now
wait_for_mgr (suc left) status now =
    let later = wait_for_mgr left status (now + nf_term_wait_time) in
    if status now == nf_starting then now else later

-- How the wait ends: with an answer, or with a signal, at a time
pub data WaitEnd : Type 0 where
  answered : ℕ → WaitEnd
  terminated : ℕ → WaitEnd

-- The wait for an id, within a number of seconds
unfoldable pub wait_for_id : ℕ → (ℕ → ℕ) → (ℕ → Bool) → ℕ → CallResult WaitEnd
unfolding wait_for_mgr
wait_for_id zero status keep_running now = waits
wait_for_id (suc seconds) status keep_running now =
    let later = wait_for_id seconds status keep_running (now + 1) in
    if not (status now == nf_waiting_for_id)
    then returns (answered now)
    else if not (keep_running (now + 1))
    then returns (terminated (wait_for_mgr nf_term_init_iter_times status (now + 1)))
    else later

-- `-NF_ID_CONFLICT` to `-NF_CORE_BUSY`, which are the statuses 5 to 12, and -1
unfoldable pub refusal : ℕ → ℤ
refusal zero = negsuc 0
refusal (suc n) =
    if leb nf_id_conflict (suc n) && leb (suc n) nf_core_busy then negsuc n else negsuc 0

-- The value returned, the context and the process
pub record NfStart : Type 0 where
  pub ret : ℤ
  pub ctx : LocalCtx
  pub process : Process

-- The context with the slot that the manager has assigned
abbrev pub mark_finished : ℕ → LocalCtx → LocalCtx
mark_finished id ctx =
    if ctx.nf_init_finished then ctx else record ctx { nf = some id; nf_init_finished = true }

-- No parent, no children, no functions
abbrev pub clear_nf : ℕ → Process → Process
clear_nf id p =
    set_nf id (record (p.nfs id) { parent = 0; children_cnt = pos 0; function_table = none }) p

-- The part behind the wait when the manager has assigned an id
unfoldable pub finish_init : Answers → LocalCtx → Process → CallResult NfStart
unfolding nf_tx_mgr_init init_shared_core_mode_info
finish_init a ctx p =
    nf_tx_mgr_init a.tx_mgr a.to_tx_buf a.nf_rx_bufs a.instance_id
      (record p { cfgs_back = suc p.cfgs_back })
    and_then (λ q.
        let cleared = clear_nf a.instance_id q in
        if a.share_cores then init_shared_core_mode_info a.shared cleared else returns cleared)
    and_then (λ q.
        returns (record { ret = pos 0; ctx = mark_finished a.instance_id ctx; process = q }))

-- The part behind the wait
unfoldable pub after_wait : Answers → LocalCtx → Process → WaitEnd → CallResult NfStart
unfolding finish_init refusal
after_wait a ctx p (terminated now) =
    let known = record ctx { nf = some a.instance_id; nf_init_finished = true } in
    returns (record {
      ret = onvm_signal_termination;
      ctx = if a.status now == nf_starting then known else ctx;
      process = p;
    })
after_wait a ctx p (answered now) =
    if a.status now == nf_starting
    then finish_init a ctx p
    else returns (record {
      ret = refusal (a.status now);
      ctx = ctx;
      process = record p { cfgs_back = suc p.cfgs_back };
    })

-- onvm_nflib_start_nf, for a manager that is given a number of seconds
unfoldable pub start_nf : ℕ → Answers → LocalCtx → Process → CallResult NfStart
unfolding wait_for_id after_wait
start_nf seconds a ctx p =
    let sent = record p { to_mgr = p.to_mgr ++ starting ∷ [] } in
    if not a.masked
    then returns (record { ret = negsuc 0; ctx = ctx; process = p })
    else if not (a.keep_running 0)
    then returns (record { ret = onvm_signal_termination; ctx = ctx; process = p })
    else if not a.msg_got
    then exits
    else if not a.enqueued
    then exits
    else wait_for_id seconds a.status a.keep_running 0 and_then after_wait a ctx sent

-- What onvm_nflib_init does when the call has returned 0
abbrev pub save_function_table : ℕ → FunctionTable → Process → Process
save_function_table id table p = set_nf id (record (p.nfs id) { function_table = some table }) p
