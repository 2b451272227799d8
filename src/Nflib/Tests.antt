-- ===== src/Nflib/Tests.antt =====
-- The theorems on onvm/onvm_nflib/onvm_nflib.c, with an NF that the manager puts into slot 1.
use afxdp_path_manager.Common.{
  ◌&&◌, ℕ, ◌≤◌, ◌≡◌, ◌≢◌, ◌⊎◌, refl, true, false, [], ◌∷◌, none, some, ltb, leb, ◌==◌, ℤ, pos,
  leb_ℤ, if◌then◌else◌, arith, update, inl,
}
use afxdp_path_manager.Mgr.Services.{max_nfs}
use afxdp_path_manager.Nflib.{
  TxMgr, LocalCtx, starting, stopping, Process, returns, undefined, release, set_nf,
}
use afxdp_path_manager.Nflib.Start.{
  Answers, NfStart, start_nf, wait_for_id, after_wait, finish_init, nf_tx_mgr_init,
  save_function_table, clear_nf,
}
use afxdp_path_manager.Nflib.Start.Wait.{IsOver}
use afxdp_path_manager.Nflib.Start.Laws.{Result, start_nf-Result, asked}
use afxdp_path_manager.Nflib.Start.Memory.{equip}
use afxdp_path_manager.Nflib.Stop.{StopAnswers, terminate_children, stop}
use afxdp_path_manager.Nflib.Stop.Laws.{IsGood, Owns}
use afxdp_path_manager.Nflib.Stop.Children.{IsWoken, is_due, terminate_children-Waits}
use afxdp_path_manager.Nflib.Scale.{ScaleInfo, scale, set_children, adopt, inherit_parent_config}
use afxdp_path_manager.Nflib.Scale.Laws.{scale-accepts}
use afxdp_path_manager.Nflib.Family.{stop-inherited}
use afxdp_path_manager.Nflib.Balance.{AreNew, stop-start_nf}
use afxdp_path_manager.Nflib.Dangling.{at_third, stop-dangling}
use afxdp_path_manager.Nflib.Sample.{fresh_nf, before, ctx, table}

-- The manager answers after two seconds.
abbrev answers : Answers
answers = record {
  masked = true;
  msg_got = true;
  enqueued = true;
  status = λ now. if ltb now 2 then 0 else 1;
  instance_id = 1;
  keep_running = λ now. true;
  tx_mgr = some 30;
  to_tx_buf = some 31;
  nf_rx_bufs = some 32;
  share_cores = false;
  shared = (false, false, false);
}

abbrev got_through : StopAnswers
got_through = record { queue_found = true; msg_got = true; enqueued = true }

abbrev known : LocalCtx
known = record ctx { nf = some 1; nf_init_finished = true }

abbrev started : NfStart
started = record {
  ret = pos 0;
  ctx = known;
  process = clear_nf 1 (equip 30 31 32 1 (record (asked before) { cfgs_back = 1 }));
}

runs : start_nf 5 answers ctx before ≡ returns started
unfolding start_nf wait_for_id after_wait finish_init nf_tx_mgr_init
runs = refl

abbrev no_children : ℕ → ℤ
no_children now = pos 0

all_new : AreNew before 30 31 32 20 10
all_new = record {
  new_m = refl;
  new_b = refl;
  new_bs = refl;
  old_t = refl;
  old_c = refl;
  bs_b = ground arith;
  m_b = ground arith;
  m_bs = ground arith;
  c_t = ground arith;
}

good : IsGood got_through
unfolding IsGood
good = (refl, refl, refl)

stop-start_nf_example :
    (z : Process) × (stop false no_children got_through known
        (save_function_table 1 table started.process)
      ≡ returns z)
    × (z.to_mgr ≡ starting ∷ stopping 1 ∷ [])
    × (z.cfgs_back ≡ 1)
    × ((x : ℕ) → z.live x ≡ update (update before.live 20 false) 10 false x)
stop-start_nf_example =
    stop-start_nf 5 answers got_through no_children ctx before started table 30 31 32 runs refl
      (inl refl) refl refl refl all_new refl refl refl good

IsOver-at_two : IsOver answers.status answers.keep_running 2
IsOver-at_two = inl (λ e. ground (arith, e))

some-apart : (m n : ℕ) → some 30 ≡ some m → some 31 ≡ some n → m ≢ n
some-apart m n e f g = ground (arith, e, f, g)

start_nf-Result_example :
    (r : NfStart) × (start_nf 5 answers ctx before ≡ returns r) × Result answers ctx before 2 r
start_nf-Result_example =
    start_nf-Result answers ctx before 2 5 refl refl refl refl (λ m n e f. some-apart m n e f)
      (inl refl) IsOver-at_two (omega arith)

-- The third allocation fails.
abbrev short : Answers
short = record answers { nf_rx_bufs = none }

abbrev left_behind : TxMgr
left_behind = record { addr = 30; id = 1; to_tx_buf = some 31; nf_rx_bufs = none }

abbrev short_process : Process
short_process =
    record (set_nf 1 (record fresh_nf { nf_tx_mgr = some left_behind }) (asked before)) {
      live = update (update (update (update before.live 30 true) 31 true) 31 false) 30 false;
      cfgs_back = 1;
    }

abbrev short_start : NfStart
short_start = record { ret = pos 0; ctx = known; process = clear_nf 1 short_process }

runs_short : start_nf 5 short ctx before ≡ returns short_start
unfolding start_nf wait_for_id after_wait finish_init nf_tx_mgr_init release
runs_short = refl

stop-dangling_example :
    stop false no_children got_through known (save_function_table 1 table short_start.process)
    ≡ undefined
stop-dangling_example =
    stop-dangling 5 short got_through no_children ctx before short_start table 30 runs_short refl
      (inl refl) refl (at_third (ground arith)) refl refl refl

-- The NF in slot 1 has no children left after a second; slot 2 is a child that sleeps.
abbrev family : Process
family = record before {
  nfs = λ i.
      if i == 2 then record fresh_nf { status = 2; parent = 1; sleep_state = true } else fresh_nf;
}

abbrev leaving : ℕ → ℤ
leaving now = if now == 0 then pos 1 else pos 0

terminate_children-Waits_example :
    let (q, seconds) = terminate_children true 1 leaving family in
    (seconds ≤ 10)
    × ((leb_ℤ (leaving seconds) (pos 0) ≡ true) ⊎ (seconds ≡ 10))
    × IsWoken (λ j. ltb 0 seconds && (ltb j max_nfs && is_due true 1 (family.nfs j))) family q
terminate_children-Waits_example = terminate_children-Waits true 1 leaving family

-- Slot 2 is a running child of slot 1.
abbrev child_mgr : TxMgr
child_mgr = record { addr = 30; id = 2; to_tx_buf = some 31; nf_rx_bufs = some 32 }

abbrev with_child : Process
with_child = record before {
  nfs = λ i.
      if i == 2
      then record fresh_nf { instance_id = 2; status = 2; nf_tx_mgr = some child_mgr }
      else record fresh_nf { function_table = some table };
  live = λ a. leb a 40;
}

abbrev child_ctx : LocalCtx
child_ctx = record ctx { nf = some 2; nf_init_finished = true }

child-Owns : Owns (adopt 2 (inherit_parent_config 1 none with_child) with_child) 2 30 31 32 20 10
unfolding adopt inherit_parent_config
child-Owns = record {
  no_data = refl;
  own_id = 2;
  handler = true;
  manager = refl;
  table = refl;
  live_m = refl;
  live_b = refl;
  live_bs = refl;
  live_t = refl;
  live_c = refl;
  other_bs = refl;
  other_m = (refl, refl);
  other_t = (refl, refl, refl);
  other_c = (refl, refl, refl, refl);
}

stop-inherited_example :
    (z : Process) × (stop false no_children got_through child_ctx
        (adopt 2 (inherit_parent_config 1 none with_child) with_child)
      ≡ returns z)
    × ((z.nfs 1).function_table ≡ some table)
    × (z.live 20 ≡ false)
stop-inherited_example =
    stop-inherited false no_children got_through child_ctx with_child 1 2 30 31 32 table
      (ground arith) refl good refl refl refl child-Owns

-- Neither a service nor functions: no child could start.
abbrev nothing : ScaleInfo
nothing = record { service_id = 0; function_table = none; state_data = none; parent = 1 }

-- EAGAIN from pthread_create
scale-accepts_example :
    scale (pos 11) (pos 0) nothing before ≡ (pos 0, set_children 1 (pos 1) before)
scale-accepts_example = scale-accepts 11 0 nothing before
