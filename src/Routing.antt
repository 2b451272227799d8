-- ===== src/Routing.antt =====
-- The packet routing of onvm/onvm_nflib/onvm_pkt_common.c and onvm/onvm_mgr/onvm_pkt.c: the state that the
-- manager's RX and TX threads and the NFs work on. A packet is the number of its mbuf, and what DPDK does
-- (rings, NICs) is an interface. The pointers that the code tests for NULL are not NULL.
pub mod Queues
pub mod Batch
pub mod Threads
pub mod NfLoop
pub mod TxThread
pub mod Sample
mod Tests
use afxdp_path_manager.Common.{ℕ, ◌+◌, ◌≤◌, ◌≡◌, Bool, true, false, List, ◌++◌, Option, length}
use afxdp_path_manager.Mgr.Services.{Mgr}
use afxdp_path_manager.Mgr.Chain.{Chain}

-- PACKET_READ_SIZE
abbrev pub packet_read_size : ℕ
packet_read_size = 32

-- DPDK's RTE_MAX_ETHPORTS
abbrev pub rte_max_ethports : ℕ
rte_max_ethports = 32

-- ONVM_NF_ACTION_DROP to ONVM_NF_ACTION_OUT
abbrev pub onvm_nf_action_drop : ℕ
onvm_nf_action_drop = 0

abbrev pub onvm_nf_action_next : ℕ
onvm_nf_action_next = 1

abbrev pub onvm_nf_action_tonf : ℕ
onvm_nf_action_tonf = 2

abbrev pub onvm_nf_action_out : ℕ
onvm_nf_action_out = 3

-- `struct onvm_pkt_meta`
pub record Meta : Type 0 where
  pub action : ℕ
  pub destination : ℕ
  pub src : ℕ
  pub chain_index : ℕ
  pub flags : ℕ

-- The counters of `struct onvm_nf` that the routing updates
pub record NfStats : Type 0 where
  pub rx : ℕ
  pub rx_drop : ℕ
  pub tx : ℕ
  pub tx_drop : ℕ
  pub act_out : ℕ
  pub act_tonf : ℕ
  pub act_drop : ℕ
  pub act_next : ℕ

-- What the routing calls of DPDK
pub record Dpdk : Type 1 where
  pub Ring : Type 0
  pub Nic : Type 0
  -- rte_ring_enqueue_bulk: whether the packets were taken, and the ring
  pub enqueue_bulk : Ring → List ℕ → Bool × Ring
  -- rte_eth_tx_burst on a port and a queue: how many packets were taken, and the NIC
  pub tx_burst : Nic → ℕ → ℕ → List ℕ → ℕ × Nic
  -- the packets in a ring, oldest first, and how many a ring holds
  pub entries : Ring → List ℕ
  pub capacity : ℕ

-- What the routing relies on: a ring takes all packets, at its end, or none, and all if it has room; a NIC takes at
-- most what it is offered.
pub record DpdkLaws (D : Dpdk) : Type 0 where
  pub enqueue_taken :
      (r : D.Ring) (pkts : List ℕ)
      → (D.enqueue_bulk r pkts).0 ≡ true
      → D.entries (D.enqueue_bulk r pkts).1 ≡ D.entries r ++ pkts
  pub enqueue_refused :
      (r : D.Ring) (pkts : List ℕ)
      → (D.enqueue_bulk r pkts).0 ≡ false
      → D.entries (D.enqueue_bulk r pkts).1 ≡ D.entries r
  pub enqueue_room :
      (r : D.Ring) (pkts : List ℕ)
      → length (D.entries r) + length pkts ≤ D.capacity
      → (D.enqueue_bulk r pkts).0 ≡ true
  pub tx_burst_bound :
      (nic : D.Nic) (port id : ℕ) (pkts : List ℕ) → (D.tx_burst nic port id pkts).0 ≤ length pkts

-- rte_ring_dequeue_burst: the packets, and the ring
pub record Dequeue (D : Dpdk) : Type 0 where
  pub dequeue_burst : D.Ring → ℕ → List ℕ × D.Ring

-- It takes the oldest packets off, at most so many.
pub record DequeueLaws {D : Dpdk} (Q : Dequeue D) : Type 0 where
  pub dequeued :
      (r : D.Ring) (n : ℕ)
      → D.entries r ≡ (Q.dequeue_burst r n).0 ++ D.entries (Q.dequeue_burst r n).1
  pub dequeue_bound : (r : D.Ring) (n : ℕ) → length (Q.dequeue_burst r n).0 ≤ n

-- What stays the same while a batch is processed: the table of NFs, the ports (`init` by port, `id` the ports in
-- use), the chains (`flow` is what onvm_flow_dir_get_pkt finds for a packet), the packets' hashes, and the fields
-- `id` and `mgr_type_t` of the queue manager.
pub record Env : Type 0 where
  pub mgr : Mgr
  pub port_init : ℕ → Bool
  pub port_id : List ℕ
  pub flow : ℕ → Option Chain
  pub default_chain : Chain
  pub rss : ℕ → ℕ
  pub queue_id : ℕ
  pub is_mgr : Bool

-- What changes: the packets' meta data, the buffers of `struct queue_mgr`, the NFs' rings and counters, the ports'
-- counters, and the packets that the NIC has taken and that were given back to their pool.
pub record Switch (D : Dpdk) : Type 0 where
  pub pkt_meta : ℕ → Meta
  pub nf_rx_bufs : ℕ → List ℕ
  pub port_tx_bufs : ℕ → List ℕ
  pub to_tx_buf : List ℕ
  pub rx_q : ℕ → D.Ring
  pub tx_q : ℕ → D.Ring
  pub stats : ℕ → NfStats
  pub port_rx : ℕ → ℕ
  pub port_tx : ℕ → ℕ
  pub port_tx_drop : ℕ → ℕ
  pub nic : D.Nic
  pub sent : List ℕ
  pub freed : List ℕ
