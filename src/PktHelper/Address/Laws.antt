-- ===== src/PktHelper/Address/Laws.antt =====
-- The swapping functions exchange the two addresses, and an address survives its text.
use afxdp_path_manager.Common.{
  ℕ, ◌/◌, ◌%◌, ◌^◌, ◌<◌, ◌≡◌, refl, ap, List, [], ◌∷◌, some, length, u8_mod, u32_mod, arith,
}
use afxdp_path_manager.PktHelper.Address.{
  EtherHdr, ether_addr_len, swap_out, swap_back, swap_ether_hdr, TextLib, TextLaws, parse_ip,
  parse_char_ip,
}

six_bytes :
    (xs : List ℕ)
    → length xs ≡ ether_addr_len
    → (a b c d e f : ℕ) × (xs ≡ a ∷ b ∷ c ∷ d ∷ e ∷ f ∷ [])
six_bytes (a ∷ b ∷ c ∷ d ∷ e ∷ f ∷ []) h = (a, b, c, d, e, f, refl)
six_bytes [] h = absurd (omega arith)
six_bytes (a ∷ []) h = absurd (omega arith)
six_bytes (a ∷ b ∷ []) h = absurd (omega arith)
six_bytes (a ∷ b ∷ c ∷ []) h = absurd (omega arith)
six_bytes (a ∷ b ∷ c ∷ d ∷ []) h = absurd (omega arith)
six_bytes (a ∷ b ∷ c ∷ d ∷ e ∷ []) h = absurd (omega arith)
six_bytes (a ∷ b ∷ c ∷ d ∷ e ∷ f ∷ g ∷ xs) h = absurd (omega arith)

-- Whatever stood in the local copy before, the loops of onvm_pkt_swap_ether_hdr exchange the two addresses, if they
-- have six bytes each.
pub swap_ether_hdr_lem :
    (temp : List ℕ) (hdr : EtherHdr)
    → length temp ≡ ether_addr_len
    → length hdr.s_addr ≡ ether_addr_len
    → length hdr.d_addr ≡ ether_addr_len
    → swap_ether_hdr temp hdr ≡ record hdr { s_addr = hdr.d_addr; d_addr = hdr.s_addr }
unfolding swap_ether_hdr swap_out swap_back
swap_ether_hdr_lem temp hdr t s d =
    let (t0, t1, t2, t3, t4, t5, te) = six_bytes temp t in
    let (s0, s1, s2, s3, s4, s5, se) = six_bytes hdr.s_addr s in
    let (d0, d1, d2, d3, d4, d5, de) = six_bytes hdr.d_addr d in rw (te, se, de) refl

-- An IPv4 address survives onvm_pkt_parse_char_ip and onvm_pkt_parse_ip.
pub parse_ip-parse_char_ip :
    (T : TextLib) (ip : ℕ) → TextLaws T → ip < u32_mod → parse_ip T (parse_char_ip T ip) ≡ some ip
unfolding parse_ip parse_char_ip
parse_ip-parse_char_ip T ip L h =
    let a = ip / 2 ^ 24 % u8_mod in
    let b = ip / 2 ^ 16 % u8_mod in
    let c = ip / 2 ^ 8 % u8_mod in
    let d = ip % u8_mod in
    let text = L.read_written a b c d (omega arith) (omega arith) (omega arith) (omega arith) in
    let number = L.rte_ipv4_bytes a b c d (omega arith) (omega arith) (omega arith) (omega arith) in
    rw (text, number) (ap some (omega (arith, h)))
