-- ===== src/Afxdp/Kern.antt =====
-- onvm/onvm_mgr/afxdp/af_xdp_kern.c: the XDP program that steers packets to the AF_XDP socket. A
-- packet is its bytes from `data` to `data_end`; a read outside them is a fault, `none`.
pub mod Spec
pub mod Laws
use afxdp_path_manager.Common.{
  ℕ, ◌+◌, ◌*◌, ◌/◌, ◌%◌, Bool, true, false, ◌||◌, List, Option, none, some, length, get_elem?, set,
  ltb, ◌==◌, if◌then◌else◌, add_u32, ◌>>=◌,
}

-- What the program returns: XDP_PASS, or what `bpf_redirect_map` returns for a queue.
pub data Verdict : Type 0 where
  xdp_pass : Verdict
  redirect_map : ℕ → Verdict

-- The maps: the counters of this CPU, one for each queue, and the queues with a socket.
pub record Maps : Type 0 where
  pub xdp_stats_map : List ℕ
  pub xsks_map : ℕ → Bool

-- A `__be16` at an offset, as the little-endian machine loads it.
pub load_be16 : List ℕ → ℕ → Option ℕ
load_be16 pkt off =
    get_elem? pkt off >>= λ lo. get_elem? pkt (off + 1) >>= λ hi. some (lo + 256 * hi)

-- bpf_htons, which is `__builtin_bswap16`
pub bpf_htons : ℕ → ℕ
bpf_htons x = x % 256 * 256 + x / 256 % 256

abbrev pub eth_hlen : ℕ
eth_hlen = 14

abbrev pub ip_hlen : ℕ
ip_hlen = 20

abbrev pub tcp_hlen : ℕ
tcp_hlen = 20

abbrev pub eth_p_ip : ℕ
eth_p_ip = 0x0800

abbrev pub eth_p_arp : ℕ
eth_p_arp = 0x0806

abbrev pub ipproto_tcp : ℕ
ipproto_tcp = 6

abbrev pub ssh_port : ℕ
ssh_port = 22

-- The TCP part of step 3, for the offset of the TCP header: is the packet passed to the host?
pub passes_tcp : List ℕ → ℕ → Option Bool
unfolding load_be16 bpf_htons
passes_tcp pkt tcph =
    if ltb (length pkt) (tcph + tcp_hlen)
    then some true
    else (load_be16 pkt (tcph + 2) >>= λ dest. load_be16 pkt tcph >>= λ source.
        some (dest == bpf_htons ssh_port || source == bpf_htons ssh_port))

-- The IPv4 part of step 3. `ihl` is the low half of the first byte.
pub passes_ip : List ℕ → Option Bool
unfolding passes_tcp
passes_ip pkt =
    if ltb (length pkt) (eth_hlen + ip_hlen)
    then some true
    else (get_elem? pkt (eth_hlen + 9) >>= λ protocol.
        if protocol == ipproto_tcp
        then (get_elem? pkt eth_hlen >>= λ b. passes_tcp pkt (eth_hlen + b % 16 * 4))
        else some false)

-- Steps 1 to 3: is the packet passed to the host network stack?
pub passes_host : List ℕ → Option Bool
unfolding passes_ip load_be16 bpf_htons
passes_host pkt =
    if ltb (length pkt) eth_hlen
    then some true
    else (load_be16 pkt 12 >>= λ h_proto.
        if h_proto == bpf_htons eth_p_arp
        then some true
        else if h_proto == bpf_htons eth_p_ip
        then passes_ip pkt
        else some false)

-- `if (pkt_count) (*pkt_count)++;`
pub count_packet : List ℕ → ℕ → List ℕ
count_packet stats index = elim (get_elem? stats index) [
  | none ↦ stats
  | some pkt_count ↦ set stats index (add_u32 pkt_count 1)
]

-- The redirect logic.
pub steer : Maps → ℕ → Verdict × Maps
unfolding count_packet
steer maps index = (
  if maps.xsks_map index then redirect_map index else xdp_pass,
  record maps { xdp_stats_map = count_packet maps.xdp_stats_map index },
)

-- xdp_sock_prog, for a packet on the queue `index`.
pub xdp_sock_prog : Maps → ℕ → List ℕ → Option (Verdict × Maps)
unfolding passes_host steer
xdp_sock_prog maps index pkt =
    passes_host pkt >>= λ host. some (if host then (xdp_pass, maps) else steer maps index)
