-- ===== src/Afxdp/Kern/Laws.antt =====
-- What the XDP program does with a packet.
use afxdp_path_manager.Common.{
  ℕ, zero, suc, ◌+◌, ◌*◌, ◌≤◌, ◌<◌, ◌≡◌, ◌↔◌, inl, inr, refl, Bool, true, false, ◌||◌, List, [],
  ◌∷◌, Option, none, some, length, get_elem?, get_or, ltb, ◌==◌, if◌then◌else◌, add_u32, arith,
  Bool-cases, ==_iff, ltb→lt,
}
use afxdp_path_manager.Afxdp.Kern.{
  Verdict, xdp_pass, redirect_map, Maps, load_be16, bpf_htons, passes_tcp, passes_ip, passes_host,
  count_packet, steer, xdp_sock_prog,
}
use afxdp_path_manager.Afxdp.Kern.Spec.{AreBytes, be16, tcp_start, IsIpv4, IsTcp, ToHost}
use afxdp_path_manager.Afxdp.Kern.Spec.ToHost.{
  short_ethernet, arp, short_ip, short_tcp, to_ssh, from_ssh,
}

get_elem?-lt : (xs : List ℕ) (i : ℕ) → i < length xs → get_elem? xs i ≡ some (get_or xs i 0)
get_elem?-lt [] i h = absurd (omega arith)
get_elem?-lt (x ∷ xs) zero h = refl
get_elem?-lt (x ∷ xs) (suc i) h = get_elem?-lt xs i (omega arith)

-- A load inside the packet is no fault, and compares with a swapped constant as the numbers on the
-- wire do.
load_be16-lt :
    (pkt : List ℕ) (off : ℕ)
    → off + 1 < length pkt
    → load_be16 pkt off ≡ some (get_or pkt off 0 + 256 * get_or pkt (off + 1) 0)
unfolding load_be16
load_be16-lt pkt off h = rw (get_elem?-lt pkt off (omega arith), get_elem?-lt pkt (off + 1) h) refl

swapped :
    (lo hi x : ℕ)
    → lo < 256
    → hi < 256
    → x < 65536
    → ((lo + 256 * hi == bpf_htons x) ≡ (256 * lo + hi == x))
unfolding bpf_htons
swapped lo hi x a b c = ground arith

-- The decision, with the reads that are in bounds and the numbers that the fields stand for.
host_tcp : List ℕ → Bool
host_tcp pkt =
    if ltb (length pkt) (tcp_start pkt + 20)
    then true
    else be16 pkt (tcp_start pkt + 2) == 22 || be16 pkt (tcp_start pkt) == 22

host_ip : List ℕ → Bool
host_ip pkt =
    if ltb (length pkt) 34 then true else if get_or pkt 23 0 == 6 then host_tcp pkt else false

host : List ℕ → Bool
host pkt =
    if ltb (length pkt) 14
    then true
    else if be16 pkt 12 == 0x0806
    then true
    else if be16 pkt 12 == 0x0800
    then host_ip pkt
    else false

passes_tcp-host :
    (pkt : List ℕ) → AreBytes pkt → passes_tcp pkt (tcp_start pkt) ≡ some (host_tcp pkt)
unfolding passes_tcp host_tcp
passes_tcp-host pkt b =
    let t = tcp_start pkt in
    elim (Bool-cases (ltb (length pkt) (t + 20))) [
      | inl e ↦ rw e refl
      | inr e ↦
          let h : t + 20 ≤ length pkt = ground arith in
          let far : t + 2 + 1 < length pkt = omega arith in
          let near : t + 1 < length pkt = omega arith in
          rw
            (
              e,
              load_be16-lt pkt (t + 2) far,
              load_be16-lt pkt t near,
              swapped (get_or pkt (t + 2) 0) (get_or pkt (t + 2 + 1) 0) 22 (b _) (b _)
                  (omega arith),
              swapped (get_or pkt t 0) (get_or pkt (t + 1) 0) 22 (b _) (b _) (omega arith),
            )
            refl
    ]

passes_ip-host : (pkt : List ℕ) → AreBytes pkt → passes_ip pkt ≡ some (host_ip pkt)
unfolding passes_ip host_ip
passes_ip-host pkt b = elim (Bool-cases (ltb (length pkt) 34)) [
  | inl e ↦ rw e refl
  | inr e ↦
      let h : 34 ≤ length pkt = ground arith in
      ground (
        arith,
        get_elem?-lt pkt 23 (omega arith),
        get_elem?-lt pkt 14 (omega arith),
        passes_tcp-host pkt b,
      )
]

passes_host-host : (pkt : List ℕ) → AreBytes pkt → passes_host pkt ≡ some (host pkt)
unfolding passes_host host
passes_host-host pkt b = elim (Bool-cases (ltb (length pkt) 14)) [
  | inl e ↦ rw e refl
  | inr e ↦
      let h : 14 ≤ length pkt = ground arith in
      rw
        (
          e,
          load_be16-lt pkt 12 (omega arith),
          swapped (get_or pkt 12 0) (get_or pkt 13 0) 0x0806 (b _) (b _) (omega arith),
          swapped (get_or pkt 12 0) (get_or pkt 13 0) 0x0800 (b _) (b _) (omega arith),
        )
        (ground (arith, passes_ip-host pkt b))
]

host_tcp→ToHost : (pkt : List ℕ) → IsTcp pkt → host_tcp pkt ≡ true → ToHost pkt
unfolding host_tcp
host_tcp→ToHost pkt t h = elim (Bool-cases (ltb (length pkt) (tcp_start pkt + 20))) [
  | inl e ↦ short_tcp t (ltb→lt _ _ e)
  | inr e ↦
      let whole : tcp_start pkt + 20 ≤ length pkt = ground arith in
      elim (Bool-cases (be16 pkt (tcp_start pkt + 2) == 22)) [
        | inl d ↦ to_ssh t whole ((==_iff _ _).0 d)
        | inr d ↦ from_ssh t whole (ground arith)
      ]
]

host_ip→ToHost : (pkt : List ℕ) → IsIpv4 pkt → host_ip pkt ≡ true → ToHost pkt
unfolding host_ip
host_ip→ToHost pkt v h = elim (Bool-cases (ltb (length pkt) 34)) [
  | inl e ↦ short_ip v (ltb→lt _ _ e)
  | inr e ↦
      host_tcp→ToHost pkt (record { ipv4 = v; whole = ground arith; protocol = ground arith })
        (ground arith)
]

host→ToHost : (pkt : List ℕ) → host pkt ≡ true → ToHost pkt
unfolding host
host→ToHost pkt h = elim (Bool-cases (ltb (length pkt) 14)) [
  | inl e ↦ short_ethernet (ltb→lt _ _ e)
  | inr e ↦
      let whole : 14 ≤ length pkt = ground arith in
      elim (Bool-cases (be16 pkt 12 == 0x0806)) [
        | inl a ↦ arp whole ((==_iff _ _).0 a)
        | inr a ↦
            host_ip→ToHost pkt (record { whole = whole; ethertype = ground arith }) (ground arith)
      ]
]

ToHost→host : (pkt : List ℕ) → ToHost pkt → host pkt ≡ true
unfolding host host_ip host_tcp
ToHost→host pkt (short_ethernet a) = ground arith
ToHost→host pkt (arp a b) = ground arith
ToHost→host pkt (short_ip a b) = ground (arith, a.whole, a.ethertype)
ToHost→host pkt (short_tcp a b) =
    ground (arith, a.ipv4.whole, a.ipv4.ethertype, a.whole, a.protocol)
ToHost→host pkt (to_ssh a b c) = ground (arith, a.ipv4.whole, a.ipv4.ethertype, a.whole, a.protocol)
ToHost→host pkt (from_ssh a b c) =
    ground (arith, a.ipv4.whole, a.ipv4.ethertype, a.whole, a.protocol)

-- A packet of the host, whatever its bytes are, passes to the network stack and is not counted.
pub xdp_sock_prog-ToHost :
    (maps : Maps) (index : ℕ) (pkt : List ℕ)
    → AreBytes pkt
    → ToHost pkt
    → xdp_sock_prog maps index pkt ≡ some (xdp_pass, maps)
unfolding xdp_sock_prog
xdp_sock_prog-ToHost maps index pkt b t = rw (passes_host-host pkt b, ToHost→host pkt t) refl

-- Any other packet is counted for its queue, and goes to the socket of the queue if there is one.
pub xdp_sock_prog-steered :
    (maps : Maps) (index : ℕ) (pkt : List ℕ)
    → AreBytes pkt
    → ¬ ToHost pkt
    → xdp_sock_prog maps index pkt
      ≡ some (
        if maps.xsks_map index then redirect_map index else xdp_pass,
        record maps { xdp_stats_map = count_packet maps.xdp_stats_map index },
      )
unfolding xdp_sock_prog steer
xdp_sock_prog-steered maps index pkt b n = elim (Bool-cases (host pkt)) [
  | inl e ↦ absurd (n (host→ToHost pkt e))
  | inr e ↦ rw (passes_host-host pkt b, e) refl
]

-- So a packet is redirected exactly if it is none of the host's and the queue has a socket; the
-- program returns on every packet, and reads no byte outside it.
pub xdp_sock_prog-redirects :
    (maps : Maps) (index : ℕ) (pkt : List ℕ)
    → AreBytes pkt
    → (r : Verdict × Maps) × (xdp_sock_prog maps index pkt ≡ some r)
      × ((r.0 ≡ redirect_map index) ↔ ((maps.xsks_map index ≡ true) × ¬ ToHost pkt))
xdp_sock_prog-redirects maps index pkt b = elim (Bool-cases (host pkt)) [
  | inl e ↦
      let t = host→ToHost pkt e in
      (
        (xdp_pass, maps),
        xdp_sock_prog-ToHost maps index pkt b t,
        (λ p. absurd (cc p), λ q. absurd (q.1 t)),
      )
  | inr e ↦
      let n : ¬ ToHost pkt = λ t. absurd (cc (ToHost→host pkt t)) in
      (
        (
          if maps.xsks_map index then redirect_map index else xdp_pass,
          record maps { xdp_stats_map = count_packet maps.xdp_stats_map index },
        ),
        xdp_sock_prog-steered maps index pkt b n,
        (λ p. (ground arith, n), λ q. rw q.0 refl),
      )
]

-- What becomes of the count of a queue.
abbrev pub bumped : Option ℕ → Option ℕ
bumped none = none
bumped (some n) = some (add_u32 n 1)

count_packet-cons :
    (n : ℕ) (stats : List ℕ) (index : ℕ)
    → count_packet (n ∷ stats) (suc index) ≡ n ∷ count_packet stats index
unfolding count_packet
count_packet-cons n stats index = ground arith

-- The count of a queue that the map has grows by one, as a 32-bit number; the other counts stay,
-- and a queue that the map does not have is not counted.
pub get_elem?-count_packet :
    (stats : List ℕ) (index other : ℕ)
    → get_elem? (count_packet stats index) other
      ≡ (if other == index then bumped (get_elem? stats other) else get_elem? stats other)
unfolding count_packet
get_elem?-count_packet [] index other = ground arith
get_elem?-count_packet (n ∷ stats) zero zero = refl
get_elem?-count_packet (n ∷ stats) zero (suc other) = ground arith
get_elem?-count_packet (n ∷ stats) (suc index) zero =
    rw (count_packet-cons n stats index) (ground arith)
get_elem?-count_packet (n ∷ stats) (suc index) (suc other) =
    rw (count_packet-cons n stats index) (ground (arith, get_elem?-count_packet stats index other))
