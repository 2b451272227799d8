-- ===== src/Afxdp/Kern/Spec.antt =====
-- Which packets are the host's: an account of the protocols, apart from the program.
use afxdp_path_manager.Common.{ℕ, ◌+◌, ◌*◌, ◌%◌, ◌≤◌, ◌<◌, ◌≡◌, List, length, get_or}

-- The bytes are bytes.
abbrev pub AreBytes : List ℕ → Type 0
AreBytes pkt = (i : ℕ) → get_or pkt i 0 < 256

-- The number that two bytes stand for on the wire, the high one first.
abbrev pub be16 : List ℕ → ℕ → ℕ
be16 pkt off = 256 * get_or pkt off 0 + get_or pkt (off + 1) 0

-- Where the TCP header starts: behind the IP header and its options.
abbrev pub tcp_start : List ℕ → ℕ
tcp_start pkt = 14 + get_or pkt 14 0 % 16 * 4

-- A whole Ethernet header with the type of IPv4.
pub record IsIpv4 (pkt : List ℕ) : Type 0 where
  pub whole : 14 ≤ length pkt
  pub ethertype : be16 pkt 12 ≡ 0x0800

-- A whole IPv4 header with the protocol of TCP.
pub record IsTcp (pkt : List ℕ) : Type 0 where
  pub ipv4 : IsIpv4 pkt
  pub whole : 34 ≤ length pkt
  pub protocol : get_or pkt 23 0 ≡ 6

-- The packets that go to the host: those with a header cut short, ARP, and SSH in either direction.
pub data ToHost (pkt : List ℕ) : Type 0 where
  short_ethernet : length pkt < 14 → ToHost pkt
  arp : 14 ≤ length pkt → be16 pkt 12 ≡ 0x0806 → ToHost pkt
  short_ip : IsIpv4 pkt → length pkt < 34 → ToHost pkt
  short_tcp : IsTcp pkt → length pkt < tcp_start pkt + 20 → ToHost pkt
  to_ssh :
      IsTcp pkt → tcp_start pkt + 20 ≤ length pkt → be16 pkt (tcp_start pkt + 2) ≡ 22 → ToHost pkt
  from_ssh :
      IsTcp pkt → tcp_start pkt + 20 ≤ length pkt → be16 pkt (tcp_start pkt) ≡ 22 → ToHost pkt
