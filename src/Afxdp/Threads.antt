-- ===== src/Afxdp/Threads.antt =====
-- The worker threads of onvm/onvm_mgr/afxdp/onvm_afxdp.c: afxdp_rx_and_process, afxdp_mgr_thread_main
-- and afxdp_wakeup_thread_main. A thread runs over the rounds of its loop, oldest first, each with what
-- the thread sees of the world; a list that ends is a thread that still runs.
pub mod Laws
use afxdp_path_manager.Common.{
  ℕ, ◌/◌, ℤ, pos, Bool, true, not, ◌&&◌, ◌||◌, List, [], ◌∷◌, Option, none, some, leb, leb_ℤ, ◌==◌,
  if◌then◌else◌, sub_u64, ◌>>=◌,
}
use afxdp_path_manager.Afxdp.Args.{Config}
use afxdp_path_manager.Afxdp.Ring.{Xsk}
use afxdp_path_manager.Afxdp.Datapath.{Socket, StatsRecord, handle_receive}

-- A round of the RX thread: `global_exit`, what `poll` returns if it is called, and the socket that
-- the kernel leaves of the one before the round.
pub record RxRound (X : Xsk) : Type 0 where
  pub global_exit : Bool
  pub poll_ret : ℤ
  pub kernel : Socket X → Socket X

module _ (X : Xsk) where
  -- afxdp_rx_and_process, with `fuel` tries for each reservation
  pub rx_and_process : ℕ → Bool → List (RxRound X) → Socket X → Option (Socket X)
  rx_and_process fuel xsk_poll_mode [] s = some s
  rx_and_process fuel xsk_poll_mode (r ∷ rs) s =
      let s' = r.kernel s in
      let again = rx_and_process fuel xsk_poll_mode rs in
      if r.global_exit
      then some s
      else if xsk_poll_mode && leb_ℤ r.poll_ret (pos 0)
      then again s'
      else (handle_receive X fuel s' >>= again)

-- A round of the manager thread: `global_exit` at the head of the loop and behind the `sleep`, the
-- counters then, and the two readings of the clock.
pub record MgrRound : Type 0 where
  pub exit_before : Bool
  pub exit_after : Bool
  pub stats : StatsRecord
  pub print_time : ℕ
  pub ttl_time : ℕ

-- The manager thread's variables, the records that it printed, latest first, and `global_exit` as far as
-- the thread sets it.
pub record Mgr : Type 0 where
  pub previous : StatsRecord
  pub printed : List StatsRecord
  pub stops : Bool

abbrev pub elapsed_s : ℕ → ℕ → ℕ
elapsed_s start_time now = sub_u64 now start_time / 1000000000

-- The two limits
abbrev pub is_expired : Config → ℕ → MgrRound → Bool
is_expired cfg start_time r =
    not (cfg.time_to_live == 0) && leb cfg.time_to_live (elapsed_s start_time r.ttl_time)

abbrev pub is_over : Config → MgrRound → Bool
is_over cfg r = not (cfg.pkt_limit == 0) && leb cfg.pkt_limit r.stats.rx_packets

-- The loop body behind the two tests of `global_exit`
pub mgr_round : Config → ℕ → MgrRound → Mgr → Mgr
mgr_round cfg start_time r m =
    let now : StatsRecord = record (r.stats) { timestamp = r.print_time } in
    record {
      previous = if cfg.verbose then now else m.previous;
      printed = if cfg.verbose then now ∷ m.printed else m.printed;
      stops = is_expired cfg start_time r || is_over cfg r || m.stops;
    }

-- afxdp_mgr_thread_main; the thread sees its own `global_exit` in the next round.
pub mgr_thread_main : Config → ℕ → List MgrRound → Mgr → Mgr
unfolding mgr_round
mgr_thread_main cfg start_time [] m = m
mgr_thread_main cfg start_time (r ∷ rs) m =
    let next = mgr_thread_main cfg start_time rs (mgr_round cfg start_time r m) in
    if m.stops || r.exit_before || r.exit_after then m else next

-- afxdp_wakeup_thread_main: the values of `global_exit` that it sees, and the one that it leaves, if its
-- loop ends.
pub wakeup_thread_main : List Bool → Option Bool
wakeup_thread_main [] = none
wakeup_thread_main (global_exit ∷ rest_seen) =
    if global_exit then some true else wakeup_thread_main rest_seen
