-- ===== src/Lib.antt =====
-- The AF_XDP path of openNetVM's manager, and the bookkeeping of its DPDK path.
--
-- The manager of this repository runs network functions (NFs). Built with USE_AFXDP it is itself the only NF: an
-- XDP program in the kernel (onvm/onvm_mgr/afxdp/af_xdp_kern.c) steers packets to an AF_XDP socket, and
-- the manager (onvm/onvm_mgr/afxdp/onvm_afxdp.c, called by onvm/onvm_mgr/main.c) takes them off the RX ring
-- and bounces them to the TX ring. Built for DPDK it keeps a table of NFs, puts them on cores, and maps services
-- to NFs (onvm/onvm_mgr/onvm_nf.c, onvm/onvm_nflib), and moves packets between the NICs and the NFs' rings.
--
-- Afxdp/Config    the sizes of onvm_afxdp_config.h.
-- Afxdp/Ring      the rings of libxdp as interfaces: their operations, and the documented behaviour that
--                 the datapath relies on, as records of laws. libxdp and the kernel are not in the repository.
-- Afxdp/Frames    the stack of free frames: afxdp_alloc_umem_frame, afxdp_free_umem_frame.
-- Afxdp/Datapath  afxdp_complete_tx, afxdp_handle_receive and afxdp_process_packet. Complete, Refill, Receive,
--                 Stats and Handle follow the steps of afxdp_handle_receive.
-- Afxdp/Setup     afxdp_configure_umem and afxdp_configure_socket, with an event for each resource that
--                 they acquire or give back.
-- Afxdp/System    the receive loop and the kernel's moves, with the frames that the kernel holds, as one step
--                 relation; Frames counts the addresses of a frame, Laws says what moves and rounds keep.
-- Afxdp/Threads   the loops of the RX, the manager and the wakeup thread.
-- Afxdp/Lifecycle afxdp_init, afxdp_cleanup and the hugepage buffer; Run holds afxdp_run and main.
-- Afxdp/Args      afxdp_parse_args. Afxdp/Preflight: afxdp_preflight_checks.
-- Afxdp/Kern      xdp_sock_prog, on the bytes of a packet; Spec says apart from it which packets are the host's.
-- Mgr/Cores       onvm_threading_get_core and onvm_threading_find_nf_to_reassign_core.
-- Mgr/Services    onvm_nf_next_instance_id, onvm_nf_start, onvm_nf_ready, onvm_nf_stop, onvm_nf_relocate_nf and
--                 onvm_sc_service_to_nf_map. Row, Map, Ids and History state what they keep.
-- Mgr/Chain       onvm_sc_append_entry, onvm_sc_set_entry, and the look-ups of onvm_sc_mgr.h.
-- Mgr/Messages    onvm_nf_check_status, on the messages that are in the queue.
-- Mgr/Threads     the TX threads and the wakeup thread of onvm/onvm_mgr/main.c: which NFs each serves, and a round of
--                 wakeup_thread_main.
-- Routing         the packets of the DPDK path: the interface for DPDK, and the state of a queue manager.
-- Routing/Queues  onvm_pkt_enqueue_nf, onvm_pkt_flush_nf_queue and the other buffers of
--                 onvm/onvm_nflib/onvm_pkt_common.c. Account, Room, Returns, Own, Order and Labels state what
--                 they keep.
-- Routing/Batch   onvm_pkt_process_rx_batch (onvm/onvm_mgr/onvm_pkt.c) and onvm_pkt_process_tx_batch. Paths is
--                 about the chains, Receive and Transmit about the two.
-- Routing/Threads a round of rx_thread_main of onvm/onvm_mgr/main.c.
-- Routing/TxThread a round of tx_thread_main of the same file.
-- Routing/NfLoop  onvm_nflib_dequeue_packets of onvm/onvm_nflib/onvm_nflib.c, and a pass of an NF's loop over its
--                 packets.
-- Nflib           the side of an NF in onvm/onvm_nflib/onvm_nflib.c: its slot, its context and its memory.
-- Nflib/Start     onvm_nflib_start_nf; Wait, Laws and Memory are about the wait for the manager, the value
--                 returned, and what is allocated.
-- Nflib/Stop      onvm_nflib_stop with onvm_nflib_terminate_children (Children) and onvm_nflib_cleanup (Laws);
--                 Nflib/Balance and Nflib/Dangling put start and stop together, Nflib/Family a parent and a child.
-- Nflib/Messages  onvm_nflib_nf_ready and onvm_nflib_send_msg_to_nf.
-- Nflib/Scale     onvm_nflib_scale and onvm_nflib_inherit_parent_config.
-- Nflib/Loop      onvm_nflib_thread_main_loop, with the routing of packets in Nflib/Loop/Packets. What other threads
--                 do between two rounds is an argument.
-- PktHelper       onvm/onvm_nflib/onvm_pkt_helper.c: Address has the swapping and parsing of addresses, Checksum
--                 onvm_pkt_set_checksums on the bytes of a packet (Parts is about TCP and UDP),
--                 Generate the making of packets.
-- Flow/Key        onvm_ft_fill_key and onvm_ft_fill_key_symmetric of onvm/onvm_nflib/onvm_flow_table.h.
-- Flow/Dir        the flow table and onvm/onvm_nflib/onvm_flow_dir.c over an interface for rte_hash.
-- Nfs/TokenBucket the packet handler of examples/simple_fwd_tb/forward_tb.c.
-- Nfs/FairQueue   the queues of examples/fair_queue/fair_queue_helper.h.
-- Common          lists, words, tests and integers over the native numbers.
-- Tests modules   the theorems at concrete inputs; the Sample modules have rings that are plain lists, and a
--                 manager with one NF.
--
-- State is passed explicitly. `none` stands for a failing assertion, an exit, or an access out of bounds, as
-- the comment at each definition says; in Nflib the ends of a call are the constructors of CallResult. The waits and
-- the main loop there run for a number of seconds or rounds, and end before it when the manager answers, a signal
-- comes, or a message to stop is in the queue. The loop that retries a reservation of the fill ring runs on fuel; one
-- try is proved to be enough. Words wrap where the C types do. Frame size is a parameter, since
-- onvm_afxdp_config.h takes it from libxdp's headers.
--
-- Not modelled: logging and statistics output, NUMA binding, signal handlers, what the threads do to each other
-- within a round, and the kernel's moves within a round of the receive loop but for those of `sendto`; of the
-- DPDK path the pools, the manager's sending of messages (onvm_nf_send_msg), the printing of packets, the
-- start-up of DPDK, the options, and the threads of an NF's children from start to end; and all of cJSON, the
-- other examples, the web console and the scripts.
pub mod Common
pub mod Afxdp
pub mod Mgr
pub mod Routing
pub mod Nflib
pub mod Nfs
pub mod PktHelper
pub mod Flow
