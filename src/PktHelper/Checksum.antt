-- ===== src/PktHelper/Checksum.antt =====
-- Checksums: calculate_ip_cksum, calculate_tcpudp_cksum and onvm_pkt_set_checksums of
-- onvm/onvm_nflib/onvm_pkt_helper.c, on the bytes of a packet. The host is little endian. `none` is a read behind the
-- packet. What DPDK computes is an interface.
pub mod Words
pub mod Parts
pub mod Laws
use afxdp_path_manager.Common.{
  ℕ, zero, suc, ◌+◌, ◌-◌, ◌*◌, ◌/◌, ◌%◌, Bool, true, false, not, List, [], ◌∷◌, ◌++◌, Option, none,
  some, length, get_or, set, take, drop, leb, ◌==◌, if◌then◌else◌, u8_mod, u16_mod, u32_mod, ◌>>=◌,
}

-- IP_PROTOCOL_TCP and IP_PROTOCOL_UDP
abbrev pub ip_protocol_tcp : ℕ
ip_protocol_tcp = 6

abbrev pub ip_protocol_udp : ℕ
ip_protocol_udp = 17

-- `sizeof(struct rte_ether_hdr)`, `sizeof(struct rte_ipv4_hdr)`, `sizeof(struct rte_udp_hdr)`
abbrev pub ether_hdr_len : ℕ
ether_hdr_len = 14

abbrev pub ipv4_hdr_len : ℕ
ipv4_hdr_len = 20

abbrev pub udp_hdr_len : ℕ
udp_hdr_len = 8

-- The `ol_flags` of an mbuf that the helpers set
pub record OlFlags : Type 0 where
  pub tx_ipv4 : Bool
  pub tx_ip_cksum : Bool
  pub tx_tcp_cksum : Bool
  pub tx_udp_cksum : Bool

-- `struct rte_mbuf`: the packet's bytes, the room in front of them, and what the NIC is told
pub record Mbuf : Type 0 where
  pub bytes : List ℕ
  pub headroom : ℕ
  pub pkt_len : ℕ
  pub l2_len : ℕ
  pub l3_len : ℕ
  pub l4_len : ℕ
  pub ol_flags : OlFlags

-- What onvm_pkt_get_checksum_offload_flags answers for the packet's port
pub record Offload : Type 0 where
  pub ipv4 : Bool
  pub tcp : Bool
  pub udp : Bool

-- DPDK's rte_raw_cksum on some bytes, and rte_ipv4_phdr_cksum on the IP header
pub record Cksum : Type 0 where
  pub raw_cksum : List ℕ → ℕ
  pub phdr_cksum : List ℕ → OlFlags → ℕ

-- A 16-bit field as the host stores it
abbrev pub put_u16 : List ℕ → ℕ → ℕ → List ℕ
put_u16 bytes at v = set (set bytes at (v % u8_mod)) (at + 1) (v / u8_mod)

-- A 16-bit field as the host loads it
abbrev pub load_u16 : List ℕ → ℕ → ℕ
load_u16 bytes at = get_or bytes at 0 + u8_mod * get_or bytes (at + 1) 0

-- onvm_pkt_ipv4_hdr: whether it answers a header, which is behind the Ethernet header
unfoldable pub ipv4_hdr : List ℕ → Option Bool
ipv4_hdr bytes =
    let version = get_or bytes ether_hdr_len 0 / 16 % 16 in
    if leb (length bytes) ether_hdr_len then none else some (version == 4)

-- onvm_pkt_tcp_hdr and onvm_pkt_udp_hdr: whether they answer a header, which is behind an IP header without options
unfoldable pub l4_hdr : ℕ → List ℕ → Option Bool
unfolding ipv4_hdr
l4_hdr protocol bytes = ipv4_hdr bytes >>= λ is_ipv4.
    if not is_ipv4
    then some false
    else if leb (length bytes) (ether_hdr_len + 9)
    then none
    else some (get_or bytes (ether_hdr_len + 9) 0 == protocol)

-- The loop of calculate_tcpudp_cksum, on fuel: the high half is added to the low one until it is 0.
unfoldable pub fold : ℕ → ℕ → ℕ
fold zero cksum = cksum
fold (suc fuel) cksum =
    let folded = fold fuel (cksum / u16_mod + cksum % u16_mod) in
    if cksum / u16_mod == 0 then cksum else folded

-- Two rounds are enough for 32 bits; the third sees the end.
abbrev pub fold_fuel : ℕ
fold_fuel = 3

-- The `l4_len` of calculate_tcpudp_cksum, from the IP header's bytes
unfoldable pub l4_len_of : List ℕ → ℕ → ℕ
l4_len_of ip l3_len = (load_u16 ip 2 + u32_mod - l3_len) % u32_mod

-- onvm_pkt_set_checksums: what an IPv4 packet gets first
abbrev pub mark_ipv4 : Mbuf → Mbuf
mark_ipv4 pkt = record pkt {
  bytes = put_u16 pkt.bytes (ether_hdr_len + 10) 0;
  l2_len = ether_hdr_len;
  l3_len = get_or pkt.bytes ether_hdr_len 0 % 16 * 4;
  ol_flags = record pkt.ol_flags { tx_ipv4 = true };
}

module _ (C : Cksum) where
  -- calculate_ip_cksum
  pub calculate_ip_cksum : List ℕ → ℕ
  calculate_ip_cksum ip =
      let cksum = C.raw_cksum ip in if cksum == u16_mod - 1 then cksum else u16_mod - 1 - cksum

  -- calculate_tcpudp_cksum, for the bytes from the IP header and from the TCP or UDP header on
  pub calculate_tcpudp_cksum : List ℕ → List ℕ → ℕ → ℕ → Option ℕ
  unfolding fold l4_len_of
  calculate_tcpudp_cksum ip l4 l3_len protocol =
      let l4_len = l4_len_of ip l3_len in
      let total_length = l4_len % u16_mod in
      let ph =
        take 8 (drop 12 ip) ++ 0 ∷ protocol ∷ total_length % u8_mod ∷ total_length / u8_mod ∷ [] in
      let cksum = (C.raw_cksum ph + C.raw_cksum (take l4_len l4)) % u32_mod in
      if not (leb l4_len (length l4))
      then none
      else some (u16_mod - 1 - fold fold_fuel cksum % u16_mod)

  -- onvm_pkt_set_checksums: the TCP or UDP header, whose checksum is at `at` and was set to 0
  unfoldable pub set_l4_cksum : ℕ → ℕ → Bool → Mbuf → Option Mbuf
  set_l4_cksum protocol at offloaded pkt =
      let ip = drop ether_hdr_len pkt.bytes in
      if not (leb (at + 2) (length pkt.bytes))
      then none
      else if offloaded
      then some
          (record pkt { bytes = put_u16 pkt.bytes at (C.phdr_cksum ip pkt.ol_flags % u16_mod) })
      else calculate_tcpudp_cksum ip (drop (ether_hdr_len + ipv4_hdr_len) pkt.bytes) pkt.l3_len
          protocol
        >>= λ cksum. some (record pkt { bytes = put_u16 pkt.bytes at cksum })

  -- onvm_pkt_set_checksums: the part for TCP
  unfoldable pub set_tcp_cksum : Bool → Mbuf → Option Mbuf
  unfolding set_l4_cksum
  set_tcp_cksum offloaded pkt =
      let at = ether_hdr_len + ipv4_hdr_len + 16 in
      let data_off = get_or pkt.bytes (ether_hdr_len + ipv4_hdr_len + 12) 0 in
      let cleared = record pkt { bytes = put_u16 pkt.bytes at 0; l4_len = data_off / 16 % 16 } in
      set_l4_cksum ip_protocol_tcp at offloaded cleared >>= λ t.
      some
        (if offloaded then record t { ol_flags = record t.ol_flags { tx_tcp_cksum = true } } else t)

  -- onvm_pkt_set_checksums: the part for UDP
  unfoldable pub set_udp_cksum : Bool → Mbuf → Option Mbuf
  unfolding set_l4_cksum
  set_udp_cksum offloaded pkt =
      let at = ether_hdr_len + ipv4_hdr_len + 6 in
      let cleared = record pkt { bytes = put_u16 pkt.bytes at 0; l4_len = 8 } in
      set_l4_cksum ip_protocol_udp at offloaded cleared >>= λ t.
      some
        (if offloaded then record t { ol_flags = record t.ol_flags { tx_udp_cksum = true } } else t)

  -- onvm_pkt_set_checksums: the IP header's own checksum
  unfoldable pub set_ip_cksum : Bool → Mbuf → Option Mbuf
  unfolding calculate_ip_cksum
  set_ip_cksum offloaded pkt =
      let at = ether_hdr_len + 10 in
      let ip = take pkt.l3_len (drop ether_hdr_len pkt.bytes) in
      if offloaded
      then some (record pkt { ol_flags = record pkt.ol_flags { tx_ip_cksum = true } })
      else if not (leb (ether_hdr_len + pkt.l3_len) (length pkt.bytes))
      then none
      else some (record pkt { bytes = put_u16 pkt.bytes at (calculate_ip_cksum ip) })

  -- onvm_pkt_set_checksums: the parts of a packet with an IPv4 header, and a TCP or UDP header if so said
  unfoldable pub set_all_cksums : Offload → Bool → Bool → Mbuf → Option Mbuf
  unfolding set_tcp_cksum set_udp_cksum set_ip_cksum
  set_all_cksums hw tcp udp pkt = (if tcp then set_tcp_cksum hw.tcp pkt else some pkt) >>= λ t.
      (if udp then set_udp_cksum hw.udp t else some t) >>= set_ip_cksum hw.ipv4

  -- onvm_pkt_set_checksums
  unfoldable pub set_checksums : Offload → Mbuf → Option Mbuf
  unfolding ipv4_hdr l4_hdr set_all_cksums
  set_checksums hw pkt = ipv4_hdr pkt.bytes >>= λ ip. l4_hdr ip_protocol_tcp pkt.bytes >>= λ tcp.
      l4_hdr ip_protocol_udp pkt.bytes >>= λ udp.
      if not ip
      then some pkt
      else if not (leb (ether_hdr_len + 12) (length pkt.bytes))
      then none
      else set_all_cksums hw tcp udp (mark_ipv4 pkt)
