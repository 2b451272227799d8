-- ===== src/Mgr/Threads/Tests.antt =====
-- The theorems on the threads of onvm/onvm_mgr/main.c, with six lcores and one running NF.
use afxdp_path_manager.Common.{ℕ, ◌≡◌, refl, true, some, leb, if◌then◌else◌}
use afxdp_path_manager.Mgr.Sample.{running}
use afxdp_path_manager.Mgr.Threads.{tx_lcores, WakeupInfo, wakeup_round}

abbrev two_lcores : ℕ
two_lcores = 2

-- Three TX threads share the NFs.
three : tx_lcores true 6 ≡ some 3
unfolding tx_lcores
three = refl

-- All sleep, and the ring of the first NF has two packets.
abbrev asleep : ℕ → WakeupInfo
asleep id = record { mutex = 0; shm_server = 1; num_wakeups = 7 }

abbrev two_pkts : ℕ → ℕ
two_pkts id = if leb id 1 then 2 else 0

abbrev no_msgs : ℕ → ℕ
no_msgs id = 0

-- The one wakeup thread serves all NFs.
abbrev woken_up : ℕ → WakeupInfo
woken_up = wakeup_round running two_pkts no_msgs (record { first_nf = 1; last_nf = 128 }) asleep
