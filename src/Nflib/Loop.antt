-- ===== src/Nflib/Loop.antt =====
-- onvm_nflib_thread_main_loop of onvm/onvm_nflib/onvm_nflib.c behind its start: packets, messages and limits, round
-- by round. What other threads do before a round, and what the NF's functions and the clock answer in it, are
-- functions of the round.
pub mod Laws
pub mod Packets
mod Tests
use afxdp_path_manager.Common.{
  ℕ, zero, suc, ◌+◌, ◌*◌, ◌/◌, ◌%◌, Bool, false, not, ◌&&◌, List, [], ◌∷◌, ◌++◌, length, Option,
  none, some, leb, ◌==◌, ℤ, if◌then◌else◌, sub_u64, u64_mod,
}
use afxdp_path_manager.Routing.{Meta, Dpdk, Dequeue, Env, Switch}
use afxdp_path_manager.Routing.NfLoop.{Dequeued, nf_pass}
use afxdp_path_manager.Nflib.{Process, CallResult, returns, undefined, waits, ◌and_then◌}
use afxdp_path_manager.Nflib.Scale.{ScaleInfo, scale}

-- `struct onvm_nf_msg`: with a request to scale what the calls for the thread return, with another core the address
-- of `msg_data` and the core there
pub data NfMsg : Type 0 where
  msg_noop : NfMsg
  msg_stop : NfMsg
  msg_scale : ScaleInfo → ℤ → ℤ → NfMsg
  msg_from_nf : ℕ → NfMsg
  msg_change_core : ℕ → ℕ → NfMsg

-- What a running NF changes: the flag and the core of its own, the core that its thread runs on, its queue of messages,
-- the data that its msg_handler got and that were freed, the message structs given back, the table of NFs, and the
-- routing with the counter `tx_buffer`
pub record Running (D : Dpdk) : Type 0 where
  pub keep_running : Bool
  pub core : ℕ
  pub affinity : ℕ
  pub msg_q : List NfMsg
  pub received : List ℕ
  pub freed : List ℕ
  pub msgs_back : ℕ
  pub process : Process
  pub switch : Switch D
  pub tx_buffer : ℕ

-- What does not change: the NF's functions and limits, what the routing looks up, and what the surroundings answer.
-- `others` is what other threads put on the queue and do to the routing before a round, `woken` whether
-- sem_wait returns in it, and `main_keep_running` the flag of the main context.
pub record NfEnv (D : Dpdk) : Type 0 where
  pub nf : ℕ
  pub env : Env
  pub pkt_handler : ℕ → Meta → ℕ × Meta
  pub has_msg_handler : Bool
  pub user_actions : Option (ℕ → Bool)
  pub time_to_live : ℕ
  pub pkt_limit : ℕ
  pub share_cores : Bool
  pub timer_hz : ℕ
  pub start_time : ℕ
  pub tsc_cycles : ℕ → ℕ
  pub main_keep_running : ℕ → Bool
  pub woken : ℕ → Bool
  pub others : ℕ → List NfMsg × (Switch D → Switch D)

-- PKT_TTL_MULTIPLIER and TIME_TTL_MULTIPLIER
abbrev pub pkt_ttl_multiplier : ℕ
pkt_ttl_multiplier = 1000000

abbrev pub time_ttl_multiplier : ℕ
time_ttl_multiplier = 1

module _ {D : Dpdk} where
  -- onvm_nflib_handle_msg
  unfoldable pub handle_msg : NfEnv D → NfMsg → Running D → Running D
  handle_msg e msg_noop r = r
  handle_msg e msg_stop r = record r { keep_running = false }
  handle_msg e (msg_scale info created detached) r = record r {
    process = (scale created detached info r.process).1;
  }
  handle_msg e (msg_from_nf data_ptr) r =
      if e.has_msg_handler then record r { received = r.received ++ data_ptr ∷ [] } else r
  handle_msg e (msg_change_core data_ptr core) r = record r {
    core = core;
    affinity = core;
    freed = r.freed ++ data_ptr ∷ [];
  }

  -- onvm_nflib_dequeue_messages, for the queue
  unfoldable pub dequeue_messages : NfEnv D → List NfMsg → Running D → Running D
  unfolding handle_msg
  dequeue_messages e [] r = r
  dequeue_messages e (msg ∷ msgs) r =
      let done = handle_msg e msg (record r { msg_q = msgs }) in
      record done { msgs_back = suc done.msgs_back }

  unfoldable pub act : Option (ℕ → Bool) → ℕ → Running D → Running D
  act none round r = r
  act (some user_actions) round r = record r {
    keep_running = not (user_actions round) && r.keep_running;
  }

  -- The two limits
  abbrev pub is_past_ttl : NfEnv D → ℕ → Bool
  is_past_ttl e round =
      not (e.time_to_live == 0)
      && leb e.time_to_live
          ((sub_u64 (e.tsc_cycles round) e.start_time * time_ttl_multiplier) % u64_mod / e.timer_hz)

  abbrev pub is_over_limit : NfEnv D → Running D → Bool
  is_over_limit e r =
      not (e.pkt_limit == 0) && leb (e.pkt_limit * pkt_ttl_multiplier) (r.switch.stats e.nf).rx

  unfoldable pub check_limits : NfEnv D → ℕ → Running D → Running D
  check_limits e round r =
      let timed = if is_past_ttl e round then record r { keep_running = false } else r in
      if is_over_limit e r then record timed { keep_running = false } else timed

  -- What other threads have done before the round
  abbrev pub arrive : NfEnv D → ℕ → Running D → Running D
  arrive e round r = record r {
    msg_q = r.msg_q ++ (e.others round).0;
    switch = (e.others round).1 r.switch;
  }

  -- Whether the NF sleeps
  abbrev pub is_idle : NfEnv D → Running D → Bool
  is_idle e r =
      e.share_cores && (length (D.entries (r.switch.rx_q e.nf)) == 0 && length r.msg_q == 0)

  -- Behind the packets
  unfoldable pub after_packets :
      NfEnv D → ℕ → Running D → Option (Dequeued D) → CallResult (Running D)
  unfolding dequeue_messages act check_limits
  after_packets e round r none = undefined
  after_packets e round r (some d) =
      let passed = record r { switch = d.switch; tx_buffer = d.tx_buffer } in
      let told = dequeue_messages e passed.msg_q passed in
      returns (check_limits e round (act e.user_actions round told))

  module _ (Q : Dequeue D) where
    -- The body of the loop
    unfoldable pub loop_round : NfEnv D → ℕ → Running D → CallResult (Running D)
    unfolding after_packets
    loop_round e round r =
        let now = arrive e round r in
        if is_idle e now && not (e.woken round)
        then waits
        else after_packets e round now (nf_pass Q e.env e.nf e.pkt_handler now.tx_buffer now.switch)

    -- onvm_nflib_thread_main_loop behind its start, for a number of rounds and from a round on
    unfoldable pub thread_main_loop : ℕ → NfEnv D → ℕ → Running D → CallResult (Running D)
    unfolding loop_round
    thread_main_loop zero e round r = waits
    thread_main_loop (suc rounds) e round r =
        let rest = loop_round e round r and_then thread_main_loop rounds e (round + 1) in
        if r.keep_running && e.main_keep_running round then rest else returns r
