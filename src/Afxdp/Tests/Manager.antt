-- ===== src/Afxdp/Tests/Manager.antt =====
-- The theorems on start, run and end of the AF_XDP manager (onvm/onvm_mgr/afxdp/onvm_afxdp.c, and `main` of
-- onvm/onvm_mgr/main.c) at concrete answers of the libraries.
use afxdp_path_manager.Common.{◌≡◌, refl, List, [], ◌∷◌, ◌++◌, pos, negsuc, true, false, none, some}
use afxdp_path_manager.Afxdp.Args.{
  Config, opt_d, parse_args, bytes, defaults, apply_opt, apply_opts, finish, default_xdp_obj,
  default_xdp_prog, unspec,
}
use afxdp_path_manager.Afxdp.Preflight.{
  Machine, preflight_checks, queue_count, count_queues, is_rx_queue, queue_ok, kernel_ok,
}
use afxdp_path_manager.Afxdp.Setup.{
  Event, acquired, acquisitions, releases, xdp_attachment, xdp_program, packet_memory, UmemCalls,
  SocketCalls, configure_umem, configure_socket, fill_and_return,
}
use afxdp_path_manager.Afxdp.Lifecycle.{
  init_program, init_buffer, alloc_hugepage_buffer, init_umem, with_umem, init_socket, Ctx, Calls,
  Outcome, loaded, zero_ctx, start, init, cleanup,
}
use afxdp_path_manager.Afxdp.Lifecycle.Laws.{IsBalanced, init-IsBalanced, init_parsed}
use afxdp_path_manager.Afxdp.Lifecycle.Run.{run_and_cleanup, run, ended, undefined, main}
use afxdp_path_manager.Afxdp.Lifecycle.Run.Laws.{main_ok, main_undefined}
use afxdp_path_manager.Afxdp.Sample.{sample_xsk}
use afxdp_path_manager.Afxdp.Tests.{umem_calls, socket_calls}

abbrev machine : Machine
machine = record {
  operstate = some (bytes "up");
  driver = some (bytes "../../drivers/ice");
  queues = some (bytes "rx-0" ∷ bytes "tx-0" ∷ []);
  obj_readable = true;
  kernel_major = 5;
  kernel_minor = 4;
}

-- Everything succeeds.
abbrev calls : Calls sample_xsk
calls = record {
  frame_size = 4096;
  if_nametoindex = λ name. pos 2;
  opts = opt_d (bytes "eth1") ∷ [];
  machine = machine;
  get_error = pos 0;
  attach = pos 0;
  map_fd = pos 5;
  rlimit_errno = 0;
  mmap_ok = true;
  memalign_ok = true;
  umem = umem_calls;
  socket = socket_calls;
  rx_create = 0;
  mgr_create = 0;
  wakeup_create = 0;
}

-- The XDP program cannot be loaded.
abbrev unloadable : Calls sample_xsk
unloadable = record calls { get_error = negsuc 21 }

-- The limit on locked memory cannot be raised.
abbrev unlimited : Calls sample_xsk
unlimited = record calls { rlimit_errno = 1 }

abbrev failing_socket : SocketCalls sample_xsk
failing_socket = record socket_calls { update_ret = 22 }

abbrev failing_umem : UmemCalls sample_xsk
failing_umem = record umem_calls { create_ret = 22 }

-- What the option parser makes of `-d eth1`.
abbrev cfg : Config
cfg = record {
  pkt_limit = 0;
  ifname = bytes "eth1";
  xdp_obj_file = default_xdp_obj;
  xdp_prog_name = default_xdp_prog;
  attach_mode = unspec;
  time_to_live = 0;
  ifindex = pos 2;
  xsk_if_queue = pos 0;
  stats_interval = pos 2;
  bind_copy = false;
  bind_zerocopy = false;
  xsk_poll_mode = false;
  custom_xdp_prog = true;
  verbose = false;
}

parsed : parse_args calls.if_nametoindex calls.opts ≡ some cfg
unfolding parse_args apply_opts apply_opt finish defaults
parsed = refl

passed : preflight_checks machine cfg ≡ none
unfolding preflight_checks queue_count count_queues is_rx_queue queue_ok kernel_ok
passed = refl

main_undefined_example : main true unloadable ≡ undefined
main_undefined_example = main_undefined unloadable true cfg 21 parsed passed refl refl

-- The context and the events of a start without and with the limit raised.
abbrev stuck : Outcome sample_xsk
stuck = start sample_xsk unlimited (zero_ctx sample_xsk) cfg

stuck_init :
    init sample_xsk unlimited (zero_ctx sample_xsk)
    ≡ some (negsuc 0, stuck.1, acquired xdp_program ∷ acquired xdp_attachment ∷ [])
unfolding start init_program preflight_checks queue_count count_queues is_rx_queue queue_ok
    kernel_ok
stuck_init = init_parsed unlimited (zero_ctx sample_xsk) cfg parsed

init-IsBalanced_example : IsBalanced xdp_attachment (zero_ctx sample_xsk) stuck
unfolding zero_ctx
init-IsBalanced_example =
    init-IsBalanced unlimited (zero_ctx sample_xsk) stuck xdp_attachment
      (record { umem = refl; socket = refl; prog = refl })
      (init_parsed unlimited (zero_ctx sample_xsk) cfg parsed)

-- A context between afxdp_preallocate_hugepages and the attachment of the program
abbrev half : Ctx sample_xsk
half = record (zero_ctx sample_xsk) { packet_buffer = true; xdp_prog = loaded }

abbrev ready_run : Outcome sample_xsk
ready_run = start sample_xsk calls (zero_ctx sample_xsk) cfg

ready_init : init sample_xsk calls (zero_ctx sample_xsk) ≡ some (pos 0, ready_run.1, ready_run.2)
unfolding start init_program init_buffer alloc_hugepage_buffer init_umem with_umem init_socket
    configure_umem configure_socket fill_and_return preflight_checks queue_count count_queues
    is_rx_queue queue_ok kernel_ok zero_ctx
ready_init = init_parsed calls (zero_ctx sample_xsk) cfg parsed

abbrev all_events : List Event
all_events = ready_run.2 ++ (cleanup sample_xsk true true ready_run.1).1

ready_main : main true calls ≡ ended (pos 0) all_events
unfolding main run_and_cleanup run start init_program init_buffer alloc_hugepage_buffer init_umem
    with_umem init_socket configure_umem configure_socket fill_and_return preflight_checks
    queue_count count_queues is_rx_queue queue_ok kernel_ok zero_ctx
ready_main = rw (ready_init, main) refl

main_ok_example : acquisitions packet_memory all_events ≡ releases packet_memory all_events
main_ok_example =
    main_ok calls 0 ready_run.1 ready_run.2 (pos 0) all_events packet_memory ready_init ready_main
