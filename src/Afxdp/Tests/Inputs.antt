-- ===== src/Afxdp/Tests/Inputs.antt =====
-- The theorems on packets (onvm/onvm_mgr/afxdp/af_xdp_kern.c), options, the machine and the manager thread
-- (onvm/onvm_mgr/afxdp/onvm_afxdp.c) at concrete inputs.
use afxdp_path_manager.Common.{
  ℕ, zero, suc, ◌≡◌, refl, List, [], ◌∷◌, ◌++◌, pos, Bool, true, false, none, some, arith, ◌↔◌,
  ◌==◌, ltb, ◌&&◌,
}
use afxdp_path_manager.Afxdp.Args.{
  Config, Opt, opt_d, opt_S, opt_P, parse_args, bytes, defaults, apply_opt, apply_opts, finish,
  default_xdp_obj, default_xdp_prog, skb,
}
use afxdp_path_manager.Afxdp.Preflight.{Machine, preflight_checks, basename}
use afxdp_path_manager.Afxdp.Preflight.Laws.{
  IsAcceptable, IsDocumented, IsUntested, preflight_iff, basename-append, slash,
}
use afxdp_path_manager.Afxdp.Kern.{Maps, Verdict, redirect_map, xdp_sock_prog}
use afxdp_path_manager.Afxdp.Kern.Spec.{
  AreBytes, ToHost, short_ethernet, arp, short_ip, short_tcp, to_ssh, from_ssh,
}
use afxdp_path_manager.Afxdp.Kern.Laws.{xdp_sock_prog-redirects}
use afxdp_path_manager.Afxdp.Setup.{no_stats}
use afxdp_path_manager.Afxdp.Threads.{MgrRound, Mgr}

abbrev maps : Maps
maps = record { xdp_stats_map = 0 ∷ 7 ∷ []; xsks_map = λ q. q == 1 }

-- The Ethernet header of an ARP packet, and one of IPv6.
abbrev arp_packet : List ℕ
arp_packet = 255 ∷ 255 ∷ 255 ∷ 255 ∷ 255 ∷ 255 ∷ 2 ∷ 0 ∷ 0 ∷ 0 ∷ 0 ∷ 1 ∷ 8 ∷ 6 ∷ []

abbrev ipv6_packet : List ℕ
ipv6_packet = 2 ∷ 0 ∷ 0 ∷ 0 ∷ 0 ∷ 2 ∷ 2 ∷ 0 ∷ 0 ∷ 0 ∷ 0 ∷ 1 ∷ 134 ∷ 221 ∷ []

all_small : List ℕ → Bool
all_small [] = true
all_small (b ∷ bs) = ltb b 256 && all_small bs

small-AreBytes : (pkt : List ℕ) → all_small pkt ≡ true → AreBytes pkt
unfolding all_small
small-AreBytes [] h i = omega arith
small-AreBytes (b ∷ bs) h zero = ground (arith, h)
small-AreBytes (b ∷ bs) h (suc i) = small-AreBytes bs (ground (arith, h)) i

arp_bytes : AreBytes arp_packet
unfolding all_small
arp_bytes = small-AreBytes arp_packet refl

ipv6_bytes : AreBytes ipv6_packet
unfolding all_small
ipv6_bytes = small-AreBytes ipv6_packet refl

ipv6-steered : ¬ ToHost ipv6_packet
ipv6-steered (short_ethernet h) = omega (arith, h)
ipv6-steered (arp a h) = omega (arith, h)
ipv6-steered (short_ip v h) = omega (arith, v.ethertype)
ipv6-steered (short_tcp v h) = omega (arith, v.ipv4.ethertype)
ipv6-steered (to_ssh v a h) = omega (arith, v.ipv4.ethertype)
ipv6-steered (from_ssh v a h) = omega (arith, v.ipv4.ethertype)

xdp_sock_prog-redirects_example :
    (r : Verdict × Maps) × (xdp_sock_prog maps 1 ipv6_packet ≡ some r)
    × ((r.0 ≡ redirect_map 1) ↔ ((maps.xsks_map 1 ≡ true) × ¬ ToHost ipv6_packet))
xdp_sock_prog-redirects_example = xdp_sock_prog-redirects maps 1 ipv6_packet ipv6_bytes

-- `-d eth1 -S -P prog`, where eth1 is interface 2
abbrev cfg : Config
cfg = record {
  pkt_limit = 0;
  ifname = bytes "eth1";
  xdp_obj_file = default_xdp_obj;
  xdp_prog_name = default_xdp_prog;
  attach_mode = skb;
  time_to_live = 0;
  ifindex = pos 2;
  xsk_if_queue = pos 0;
  stats_interval = pos 2;
  bind_copy = true;
  bind_zerocopy = false;
  xsk_poll_mode = false;
  custom_xdp_prog = true;
  verbose = false;
}

abbrev opts : List Opt
opts = opt_d (bytes "eth1") ∷ opt_S ∷ opt_P (bytes "prog") ∷ []

parsed : parse_args (λ name. pos 2) opts ≡ some cfg
unfolding parse_args apply_opts apply_opt finish defaults
parsed = refl

-- A machine without the interface
abbrev machine : Machine
machine = record {
  operstate = none;
  driver = none;
  queues = none;
  obj_readable = true;
  kernel_major = 4;
  kernel_minor = 18;
}

preflight_iff_example :
    ((preflight_checks machine cfg ≡ none) ↔ IsAcceptable machine cfg)
    × (IsDocumented machine cfg ↔ ((preflight_checks machine cfg ≡ none) × IsUntested machine cfg))
preflight_iff_example = preflight_iff machine cfg

basename-append_example : basename (bytes "../drivers" ++ slash ∷ bytes "ice") ≡ bytes "ice"
basename-append_example =
    basename-append (bytes "../drivers") (bytes "ice")
      ((λ e. omega (arith, e)), ((λ e. omega (arith, e)), ((λ e. omega (arith, e)), tt)))

-- A limit of ten packets, which the second round reaches.
abbrev limited : Config
limited = record cfg { pkt_limit = 10 }

abbrev at_count : ℕ → MgrRound
at_count n = record {
  exit_before = false;
  exit_after = false;
  stats = record no_stats { rx_packets = n };
  print_time = 0;
  ttl_time = 0;
}

abbrev two_rounds : List MgrRound
two_rounds = at_count 3 ∷ at_count 12 ∷ []

abbrev at_start : Mgr
at_start = record { previous = no_stats; printed = []; stops = false }
