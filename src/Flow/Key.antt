-- ===== src/Flow/Key.antt =====
-- The key of a flow: onvm_ft_fill_key and onvm_ft_fill_key_symmetric of onvm/onvm_nflib/onvm_flow_table.h, on the bytes
-- of a packet as the host loads them.
pub mod Laws
use afxdp_path_manager.Common.{
  ℕ, ◌+◌, ◌*◌, not, ◌&&◌, List, Option, none, some, length, get_or, leb, ltb, ◌==◌, if◌then◌else◌,
  u16_mod, ◌>>=◌,
}
use afxdp_path_manager.PktHelper.Checksum.{
  ether_hdr_len, ipv4_hdr_len, ip_protocol_tcp, ip_protocol_udp, load_u16, ipv4_hdr,
}

-- `struct onvm_ft_ipv4_5tuple`
pub record Key : Type 0 where
  pub src_addr : ℕ
  pub dst_addr : ℕ
  pub src_port : ℕ
  pub dst_port : ℕ
  pub proto : ℕ

-- A 32-bit field as the host loads it
abbrev pub load_u32 : List ℕ → ℕ → ℕ
load_u32 bytes at = load_u16 bytes at + u16_mod * load_u16 bytes (at + 2)

-- onvm_ft_fill_key: the inner `none` is -EPROTONOSUPPORT, the outer one a read behind the packet.
unfoldable pub fill_key : List ℕ → Option (Option Key)
fill_key bytes =
    let proto = get_or bytes (ether_hdr_len + 9) 0 in
    let l4 = ether_hdr_len + ipv4_hdr_len in
    let key : Key = record {
      src_addr = load_u32 bytes (ether_hdr_len + 12);
      dst_addr = load_u32 bytes (ether_hdr_len + 16);
      src_port = 0;
      dst_port = 0;
      proto = proto;
    } in
    ipv4_hdr bytes >>= λ is_ipv4.
    if not is_ipv4
    then some none
    else if not (leb l4 (length bytes))
    then none
    else if not (proto == ip_protocol_tcp) && not (proto == ip_protocol_udp)
    then some (some key)
    else if not (leb (l4 + 4) (length bytes))
    then none
    else some
        (some (record key { src_port = load_u16 bytes l4; dst_port = load_u16 bytes (l4 + 2) }))

-- onvm_ft_fill_key_symmetric, for a key that onvm_ft_fill_key has filled in
pub symmetric : Key → Key
symmetric key =
    let addrs : Key =
      if ltb key.src_addr key.dst_addr
      then record key { src_addr = key.dst_addr; dst_addr = key.src_addr }
      else key in
    if ltb addrs.src_port addrs.dst_port
    then record addrs { src_port = addrs.dst_port; dst_port = addrs.src_port }
    else addrs

-- onvm_ft_fill_key_symmetric
pub fill_key_symmetric : List ℕ → Option (Option Key)
unfolding fill_key symmetric
fill_key_symmetric bytes = fill_key bytes >>= λ filled.
    some (elim filled [ none ↦ none | some key ↦ some (symmetric key) ])
