-- ===== src/PktHelper/Generate.antt =====
-- The making of packets: onvm_pkt_generate_udp and onvm_pkt_generate_tcp of
-- onvm/onvm_nflib/onvm_pkt_helper.c. The headers that the caller hands over are their bytes; rte_pktmbuf_prepend is
-- a parameter.
pub mod Laws
use afxdp_path_manager.Common.{
  ℕ, ◌+◌, ◌-◌, ◌/◌, ◌%◌, true, false, List, [], ◌∷◌, ◌++◌, Option, none, some, length, drop, set,
  leb, if◌then◌else◌, u8_mod, u16_mod, ◌>>=◌,
}
use afxdp_path_manager.PktHelper.Checksum.{
  ether_hdr_len, ipv4_hdr_len, Mbuf, Offload, Cksum, set_checksums,
}

-- rte_pktmbuf_prepend: the packet with so many bytes more in front, whatever they are, or NULL
pub record Mbufs : Type 0 where
  pub prepend : Mbuf → ℕ → Option Mbuf

-- What happens to the mbuf that is made: rte_pktmbuf_alloc and rte_pktmbuf_free
pub data MbufEvent : Type 0 where
  allocated freed : MbufEvent

-- How the making ends: no mbuf was left; the mbuf was too small, and NULL is returned after these events; a read
-- behind the packet; or the packet, and the IP header of the caller
pub data Generated : Type 0 where
  no_mbuf : Generated
  too_small : List MbufEvent → Generated
  faulted : Generated
  made : Mbuf → List ℕ → Generated

-- The end of both: the length goes into the caller's header, and the checksums into the packet.
abbrev pub finish : Cksum → Offload → List ℕ → ℕ → Mbuf → Generated
finish C hw iph total_length pkt =
    let be = total_length % u16_mod in
    elim (set_checksums C hw pkt) [
      | none ↦ faulted
      | some t ↦ made t (set (set iph 2 (be / u8_mod)) 3 (be % u8_mod))
    ]

module _ (M : Mbufs) where
  -- A part in front of the packet: rte_pktmbuf_prepend and rte_memcpy
  unfoldable pub push : List ℕ → Mbuf → Option Mbuf
  push part pkt = M.prepend pkt (length part) >>= λ t.
      some (record t { bytes = part ++ drop (length part) t.bytes })

  -- A part that is left out when it is empty
  unfoldable pub push_some : List ℕ → Mbuf → Option Mbuf
  unfolding push
  push_some part pkt = if leb (length part) 0 then some pkt else push part pkt

  module _ (C : Cksum) (hw : Offload) where
    -- onvm_pkt_generate_udp for what rte_pktmbuf_alloc answers
    unfoldable pub generate_udp : Option Mbuf → List ℕ → List ℕ → List ℕ → List ℕ → Generated
    unfolding push
    generate_udp none udp_hdr iph eth_hdr payload = no_mbuf
    generate_udp (some pkt) udp_hdr iph eth_hdr payload =
        let fresh = record pkt {
          l2_len = ether_hdr_len;
          l3_len = ipv4_hdr_len;
          ol_flags = record {
            tx_ipv4 = true;
            tx_ip_cksum = true;
            tx_tcp_cksum = false;
            tx_udp_cksum = true;
          };
        } in
        elim (push payload fresh >>= push udp_hdr >>= push iph >>= push eth_hdr) [
          | none ↦ too_small (allocated ∷ [])
          | some full ↦
              let sized = record full { pkt_len = length full.bytes } in
              finish C hw iph (sized.pkt_len - ether_hdr_len) sized
        ]

    -- onvm_pkt_generate_tcp for what rte_pktmbuf_alloc answers
    unfoldable pub generate_tcp :
        Option Mbuf → List ℕ → List ℕ → List ℕ → List ℕ → List ℕ → Generated
    unfolding push push_some
    generate_tcp none tcp_hdr iph eth_hdr options payload = no_mbuf
    generate_tcp (some pkt) tcp_hdr iph eth_hdr options payload =
        let fresh = record pkt {
          l2_len = ether_hdr_len;
          l3_len = ipv4_hdr_len;
          ol_flags = record {
            tx_ipv4 = true;
            tx_ip_cksum = true;
            tx_tcp_cksum = true;
            tx_udp_cksum = false;
          };
        } in
        elim (push_some payload fresh
          >>= push_some options
          >>= push tcp_hdr
          >>= push iph
          >>= push eth_hdr) [
            | none ↦ too_small (allocated ∷ [])
            | some full ↦
                let sized = record full { pkt_len = length full.bytes } in
                finish C hw iph
                  (length payload + length options + length tcp_hdr + ipv4_hdr_len - ether_hdr_len)
                  sized
          ]
