-- ===== src/PktHelper/Tests.antt =====
-- The theorems on the packet helpers (onvm/onvm_nflib/onvm_pkt_helper.c) at concrete packets.
use afxdp_path_manager.Common.{
  ℕ, inl, inr, ◌+◌, ◌-◌, ◌*◌, ◌%◌, ◌≡◌, refl, true, false, List, [], ◌∷◌, ◌++◌, none, some,
  replicate, leb, if◌then◌else◌, arith,
}
use afxdp_path_manager.PktHelper.Address.{EtherHdr, TextLib, TextLaws, parse_ip, parse_char_ip}
use afxdp_path_manager.PktHelper.Address.Laws.{parse_ip-parse_char_ip}
use afxdp_path_manager.PktHelper.Checksum.{l4_len_of, OlFlags, Mbuf, Offload, Cksum, set_checksums}
use afxdp_path_manager.PktHelper.Checksum.Words.{sum16, CksumLaws}
use afxdp_path_manager.PktHelper.Checksum.Laws.{Fronted, IsSettled, set_checksums-IsSettled}
use afxdp_path_manager.PktHelper.Generate.{Mbufs}

abbrev ether : EtherHdr
ether = record {
  d_addr = 1 ∷ 2 ∷ 3 ∷ 4 ∷ 5 ∷ 6 ∷ [];
  s_addr = 11 ∷ 12 ∷ 13 ∷ 14 ∷ 15 ∷ 16 ∷ [];
  ether_type = 8;
}

-- Text as the numbers in it
abbrev numbers : TextLib
numbers = record {
  Text = List ℕ;
  sscanf_ip = λ t. t;
  snprintf_ip = λ a b c d. a ∷ b ∷ c ∷ d ∷ [];
  rte_ipv4 = λ a b c d. ((a * 256 + b) * 256 + c) * 256 + d;
}

numbers_laws : TextLaws numbers
numbers_laws = record {
  read_written = λ a b c d p q r s. refl;
  rte_ipv4_bytes = λ a b c d p q r s. refl;
}

parse_ip-parse_char_ip_example : parse_ip numbers (parse_char_ip numbers 167772161) ≡ some 167772161
parse_ip-parse_char_ip_example = parse_ip-parse_char_ip numbers 167772161 numbers_laws (omega arith)

-- The remainder of the sum, for the checksum
abbrev plain : Cksum
plain = record { raw_cksum = λ bytes. sum16 bytes % 65535; phdr_cksum = λ ip flags. 7 }

plain_laws : CksumLaws plain
plain_laws = record { bound = λ bytes. omega arith; sum = λ bytes. omega arith }

-- An IP header of 20 bytes for UDP
abbrev ip_hdr : List ℕ
ip_hdr = 69 ∷ 0 ∷ 0 ∷ 60 ∷ 0 ∷ 0 ∷ 0 ∷ 0 ∷ 64 ∷ 17 ∷ 0 ∷ 0 ∷ 10 ∷ 0 ∷ 0 ∷ 1 ∷ 10 ∷ 0 ∷ 0 ∷ 2 ∷ []

abbrev no_flags : OlFlags
no_flags = record {
  tx_ipv4 = false;
  tx_ip_cksum = false;
  tx_tcp_cksum = false;
  tx_udp_cksum = false;
}

abbrev l4_offload : Offload
l4_offload = record { ipv4 = false; tcp = true; udp = true }

abbrev packet : Mbuf
packet = record {
  bytes = replicate 14 1 ++ ip_hdr ++ replicate 40 3;
  headroom = 0;
  pkt_len = 74;
  l2_len = 0;
  l3_len = 0;
  l4_len = 0;
  ol_flags = no_flags;
}

-- A packet whose IP header announces 257 bytes, which is the same in either order
abbrev long_packet : Mbuf
long_packet = record packet {
  bytes =
      replicate 14 1
      ++ (69 ∷ 0 ∷ 1 ∷ 1 ∷ 0 ∷ 0 ∷ 0 ∷ 0 ∷ 64 ∷ 17 ∷ 0 ∷ 0 ∷ 10 ∷ 0 ∷ 0 ∷ 1 ∷ 10 ∷ 0 ∷ 0 ∷ 2 ∷ [])
      ++ replicate 237 3;
  pkt_len = 271;
}

-- A NIC that sums up nothing
abbrev no_offload : Offload
no_offload = record { ipv4 = false; tcp = false; udp = false }

set_checksums-IsSettled_example :
    (t : Mbuf) × (set_checksums plain no_offload long_packet ≡ some t)
    × IsSettled plain plain_laws false t
    × (t.l3_len ≡ 20)
    × Fronted long_packet t
unfolding l4_len_of
set_checksums-IsSettled_example =
    set_checksums-IsSettled plain plain_laws no_offload long_packet refl (omega arith) (omega arith)
      (omega arith) (inl (omega arith)) (inr (inr (omega arith)))

-- Room in front that is filled with zeros
abbrev zeroed : Mbufs
zeroed = record {
  prepend = λ pkt n.
      if leb n pkt.headroom
      then some (record pkt { bytes = replicate n 0 ++ pkt.bytes; headroom = pkt.headroom - n })
      else none;
}

abbrev fresh : Mbuf
fresh = record packet { bytes = []; headroom = 128; pkt_len = 0 }

abbrev udp : List ℕ
udp = replicate 8 5

abbrev ether_bytes : List ℕ
ether_bytes = replicate 14 1

abbrev payload : List ℕ
payload = replicate 32 9
