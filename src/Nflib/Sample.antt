-- ===== src/Nflib/Sample.antt =====
-- An NF of onvm/onvm_nflib/onvm_nflib.c before its start, for the tests.
use afxdp_path_manager.Common.{true, false, ◌||◌, [], none, ◌==◌, pos}
use afxdp_path_manager.Nflib.{FunctionTable, NfSlot, LocalCtx, Process}

-- Nothing is allocated but the context at 10 and the functions at 20.
abbrev pub fresh_nf : NfSlot
fresh_nf = record {
  instance_id = 1;
  service_id = 4;
  status = 0;
  core = 3;
  parent = 0;
  children_cnt = pos 0;
  state_data = none;
  nf_tx_mgr = none;
  function_table = none;
  sleep_state = false;
  nf_mutex = 0;
}

abbrev pub before : Process
before = record {
  nfs = λ i. fresh_nf;
  live = λ a. (a == 10) || (a == 20);
  to_mgr = [];
  cfgs_back = 0;
}

abbrev pub ctx : LocalCtx
ctx = record {
  addr = 10;
  nf = none;
  nf_init_finished = false;
  keep_running = true;
  nf_stopped = false;
}

abbrev pub table : FunctionTable
table = record { addr = 20; pkt_handler = true }
