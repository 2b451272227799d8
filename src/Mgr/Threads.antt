-- ===== src/Mgr/Threads.antt =====
-- The TX threads and the wakeup thread that main of onvm/onvm_mgr/main.c launches for DPDK: how many there are, which
-- NFs each serves, and a round of wakeup_thread_main. The semaphores are numbers, and what the rings hold is an
-- argument.
mod Ranges
mod Wakeup
mod Tests
use afxdp_path_manager.Common.{
  ℕ, zero, suc, ◌+◌, ◌-◌, ◌*◌, ◌/◌, ◌%◌, min, Bool, true, false, not, ◌&&◌, Option, none, some,
  if◌then◌else◌, ltb, ◌==◌, u32_mod, sub_u32, add_u64, update,
}
use afxdp_path_manager.Mgr.Services.{max_nfs, Mgr, is_valid}

-- The number of TX threads: of the lcores one is for the statistics, one for RX, and with shared cores one for
-- wakeups. `none` is the exit for too few cores.
unfoldable pub tx_lcores : Bool → ℕ → Option ℕ
tx_lcores share_cores lcores =
    let rest = sub_u32 (sub_u32 lcores 1) 1 in
    if share_cores
    then if ltb (sub_u32 rest 1) 1 then none else some (sub_u32 rest 1)
    else some rest

-- `ceil((float)MAX_NFS / tx_lcores)`, which is exact for whole numbers. For 0 the C value is not defined, and
-- no thread is there to use it.
abbrev pub nfs_per : ℕ → ℕ
nfs_per lcores = (max_nfs + (lcores - 1)) / lcores

-- The fields `first_nf` and `last_nf`
pub record Range : Type 0 where
  pub first_nf : ℕ
  pub last_nf : ℕ

unfoldable pub nf_range : ℕ → ℕ → Range
nf_range per i = record {
  first_nf = min ((i * per + 1) % u32_mod) max_nfs;
  last_nf = min (((i + 1) * per + 1) % u32_mod) max_nfs;
}

-- `struct nf_wakeup_info`
pub record WakeupInfo : Type 0 where
  pub mutex : ℕ
  pub shm_server : ℕ
  pub num_wakeups : ℕ

-- whether_wakeup_client, on the counts of `rx_q` and `msg_q`
unfoldable pub whether_wakeup_client : ℕ → ℕ → WakeupInfo → Bool
whether_wakeup_client pkts msgs info =
    if ltb pkts 1 && ltb msgs 1 then false else if info.shm_server == 0 then false else true

unfoldable pub wakeup_client : WakeupInfo → WakeupInfo
wakeup_client info = record {
  mutex = info.mutex + 1;
  shm_server = 0;
  num_wakeups = add_u64 info.num_wakeups 1;
}

module _ (m : Mgr) (pkts msgs : ℕ → ℕ) where
  -- The body of the loop over the NFs
  unfoldable pub wakeup_nf : ℕ → (ℕ → WakeupInfo) → ℕ → WakeupInfo
  unfolding whether_wakeup_client wakeup_client
  wakeup_nf i infos =
      if not (is_valid (m.nfs i))
      then infos
      else if not (whether_wakeup_client (pkts i) (msgs i) (infos i))
      then infos
      else update infos i (wakeup_client (infos i))

  -- The loop over the NFs, for as many as are left from `i` on
  unfoldable pub wakeup_nfs : ℕ → ℕ → (ℕ → WakeupInfo) → ℕ → WakeupInfo
  unfolding wakeup_nf
  wakeup_nfs zero i infos = infos
  wakeup_nfs (suc n) i infos = wakeup_nfs n (i + 1) (wakeup_nf i infos)

  -- A round of wakeup_thread_main
  unfoldable pub wakeup_round : Range → (ℕ → WakeupInfo) → ℕ → WakeupInfo
  unfolding wakeup_nfs
  wakeup_round r infos = wakeup_nfs (r.last_nf - r.first_nf) r.first_nf infos
