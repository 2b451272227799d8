-- ===== src/PktHelper/Address.antt =====
-- Addresses in the headers, and as text: the swapping and setting functions of onvm/onvm_nflib/onvm_pkt_helper.c, and
-- onvm_pkt_parse_ip, onvm_pkt_parse_char_ip and onvm_pkt_parse_mac. A field of a header holds the number that the
-- host loads. sscanf and snprintf are parameters.
pub mod Laws
use afxdp_path_manager.Common.{
  ℕ, zero, suc, ◌+◌, ◌*◌, ◌/◌, ◌%◌, ◌^◌, ◌<◌, ◌≡◌, List, [], ◌∷◌, Option, none, some, length,
  get_or, set, not, u8_mod, ◌==◌, if◌then◌else◌,
}

-- `struct rte_ether_hdr`
pub record EtherHdr : Type 0 where
  pub d_addr : List ℕ
  pub s_addr : List ℕ
  pub ether_type : ℕ

-- The fields of `struct rte_ipv4_hdr` that the helpers use
pub record Ipv4Hdr : Type 0 where
  pub version_ihl : ℕ
  pub total_length : ℕ
  pub time_to_live : ℕ
  pub next_proto_id : ℕ
  pub hdr_checksum : ℕ
  pub src_addr : ℕ
  pub dst_addr : ℕ

-- The ports of `struct rte_tcp_hdr`
pub record TcpHdr : Type 0 where
  pub src_port : ℕ
  pub dst_port : ℕ

-- onvm_pkt_set_mac_addr; `mac` gives the address of a port.
pub set_mac_addr : ℕ → ℕ → (ℕ → List ℕ) → EtherHdr → EtherHdr
set_mac_addr src_port_id dst_port_id mac eth = record eth {
  s_addr = mac src_port_id;
  d_addr = mac dst_port_id;
}

-- onvm_pkt_swap_src_mac_addr
pub swap_src_mac_addr : ℕ → (ℕ → List ℕ) → EtherHdr → EtherHdr
swap_src_mac_addr dst_port_id mac eth =
    let copied = record eth { d_addr = eth.s_addr } in record copied { s_addr = mac dst_port_id }

-- onvm_pkt_swap_dst_mac_addr
pub swap_dst_mac_addr : ℕ → (ℕ → List ℕ) → EtherHdr → EtherHdr
swap_dst_mac_addr src_port_id mac eth =
    let copied = record eth { s_addr = eth.d_addr } in record copied { d_addr = mac src_port_id }

-- The first loop of onvm_pkt_swap_ether_hdr, from `i` on: the copy of the source address, and the header
swap_out : ℕ → ℕ → List ℕ → EtherHdr → List ℕ × EtherHdr
swap_out zero i temp hdr = (temp, hdr)
swap_out (suc todo) i temp hdr =
    swap_out todo (suc i) (set temp i (get_or hdr.s_addr i 0))
      (record hdr { s_addr = set hdr.s_addr i (get_or hdr.d_addr i 0) })

-- The second loop
swap_back : ℕ → ℕ → List ℕ → EtherHdr → EtherHdr
swap_back zero i temp hdr = hdr
swap_back (suc todo) i temp hdr =
    swap_back todo (suc i) temp (record hdr { d_addr = set hdr.d_addr i (get_or temp i 0) })

-- RTE_ETHER_ADDR_LEN
abbrev pub ether_addr_len : ℕ
ether_addr_len = 6

-- onvm_pkt_swap_ether_hdr; `temp` is what stands in the local variable before.
pub swap_ether_hdr : List ℕ → EtherHdr → EtherHdr
unfolding swap_out swap_back
swap_ether_hdr temp hdr =
    let (saved, half) = swap_out ether_addr_len 0 temp hdr in swap_back ether_addr_len 0 saved half

-- onvm_pkt_swap_ip_hdr
pub swap_ip_hdr : Ipv4Hdr → Ipv4Hdr
swap_ip_hdr ip_hdr = record ip_hdr { src_addr = ip_hdr.dst_addr; dst_addr = ip_hdr.src_addr }

-- onvm_pkt_swap_tcp_hdr
pub swap_tcp_hdr : TcpHdr → TcpHdr
swap_tcp_hdr tcp_hdr = record { src_port = tcp_hdr.dst_port; dst_port = tcp_hdr.src_port }

-- What the helpers call to read and write text: sscanf with the format "%u.%u.%u.%u" (the numbers converted),
-- snprintf with that format, and the macro RTE_IPV4
pub record TextLib : Type 1 where
  pub Text : Type 0
  pub sscanf_ip : Text → List ℕ
  pub snprintf_ip : ℕ → ℕ → ℕ → ℕ → Text
  pub rte_ipv4 : ℕ → ℕ → ℕ → ℕ → ℕ

-- What is relied on: four bytes are read as they were written, and RTE_IPV4 puts the first in front.
pub record TextLaws (T : TextLib) : Type 0 where
  pub read_written :
      (a b c d : ℕ)
      → a < u8_mod
      → b < u8_mod
      → c < u8_mod
      → d < u8_mod
      → T.sscanf_ip (T.snprintf_ip a b c d) ≡ a ∷ b ∷ c ∷ d ∷ []
  pub rte_ipv4_bytes :
      (a b c d : ℕ)
      → a < u8_mod
      → b < u8_mod
      → c < u8_mod
      → d < u8_mod
      → T.rte_ipv4 a b c d ≡ ((a * u8_mod + b) * u8_mod + c) * u8_mod + d

module _ (T : TextLib) where
  -- onvm_pkt_parse_ip: `none` is -1.
  pub parse_ip : T.Text → Option ℕ
  parse_ip ip_str =
      let ip = T.sscanf_ip ip_str in
      if not (length ip == 4)
      then none
      else some (T.rte_ipv4 (get_or ip 0 0) (get_or ip 1 0) (get_or ip 2 0) (get_or ip 3 0))

  -- onvm_pkt_parse_char_ip
  pub parse_char_ip : ℕ → T.Text
  parse_char_ip ip_src =
      T.snprintf_ip (ip_src / 2 ^ 24 % u8_mod) (ip_src / 2 ^ 16 % u8_mod) (ip_src / 2 ^ 8 % u8_mod)
        (ip_src % u8_mod)
