-- ===== src/PktHelper/Checksum/Laws.antt =====
-- The checksums that onvm_pkt_set_checksums leaves behind.
use afxdp_path_manager.Common.{
  ℕ, inl, inr, ◌⊎◌, ◌+◌, ◌-◌, ◌*◌, ◌/◌, ◌%◌, ◌≤◌, ◌<◌, ◌≡◌, ◌≢◌, ◌↔◌, refl, ap, ◌∙◌, Bool, true,
  false, List, Option, some, length, get_or, drop, leb, ◌==◌, if◌then◌else◌, u8_mod, u16_mod,
  u32_mod, arith, ◌>>=◌, length-take, length-drop,
}
use afxdp_path_manager.PktHelper.Checksum.{
  ether_hdr_len, ipv4_hdr_len, ip_protocol_tcp, ip_protocol_udp, Mbuf, Offload, Cksum, put_u16,
  load_u16, ipv4_hdr, l4_hdr, fold, fold_fuel, l4_len_of, calculate_ip_cksum, set_tcp_cksum,
  set_udp_cksum, set_ip_cksum, mark_ipv4, set_all_cksums, set_checksums,
}
use afxdp_path_manager.PktHelper.Checksum.Parts.{
  Framed-trans, if-Framed, IsCovered, Framed-IsCovered, l4_len_of_same, set_tcp_cksum-Framed,
  set_udp_cksum-Framed,
}
use afxdp_path_manager.PktHelper.Checksum.Words.{
  sum16, CksumLaws, length-put_u16, get_or-put_u16, load_u16-put_u16, header, header-put_u16,
  get_or-header, sum16-put_u16,
}

-- The loop of calculate_tcpudp_cksum ends after at most two rounds, with the remainder modulo 65535 kept, in 16 bits.
pub fold_lem :
    (cksum : ℕ)
    → cksum < u32_mod
    → (fold fold_fuel cksum < u16_mod) × (fold fold_fuel cksum % 65535 ≡ cksum % 65535)
unfolding fold
fold_lem cksum h = ground (arith, h)

-- calculate_tcpudp_cksum sums over the length that the IP header announces in network byte order, less the header,
-- exactly if the two bytes of the length are the same: it loads the field in the host's order.
pub l4_len_of_iff :
    (ip : List ℕ) (l3_len : ℕ)
    → get_or ip 2 0 < u8_mod
    → get_or ip 3 0 < u8_mod
    → l3_len ≤ get_or ip 3 0 + u8_mod * get_or ip 2 0
    → l3_len < 61
    → (l4_len_of ip l3_len ≡ get_or ip 3 0 + u8_mod * get_or ip 2 0 - l3_len)
      ↔ (get_or ip 2 0 ≡ get_or ip 3 0)
unfolding l4_len_of
l4_len_of_iff ip l3_len a b h s = ground (arith, a, b, h, s)

-- The packet keeps its length, and all in front of the IP header's checksum.
pub record Fronted (pkt t : Mbuf) : Type 0 where
  pub same_length : length t.bytes ≡ length pkt.bytes
  pub same_front : (j : ℕ) → j < ether_hdr_len + 10 → get_or t.bytes j 0 ≡ get_or pkt.bytes j 0

-- The packet's header as the receiver sums it up
pub HasIpChecksum : Mbuf → Type 0
HasIpChecksum t = sum16 (header t.l3_len ether_hdr_len t.bytes) % 65535 ≡ 0

module _ (C : Cksum) (L : CksumLaws C) where
  -- The header with its checksum filled in sums up to 0.
  filled-valid :
      (ip : List ℕ)
      → 11 < length ip
      → load_u16 ip 10 ≡ 0
      → sum16 (put_u16 ip 10 (calculate_ip_cksum C ip)) % 65535 ≡ 0
  unfolding calculate_ip_cksum
  filled-valid ip h z =
      let raw = C.raw_cksum ip in
      let placed = sum16-put_u16 5 ip (calculate_ip_cksum C ip) (omega (arith, h)) in
      let sum = L.sum ip in let bound = L.bound ip in ground (arith, placed, sum, bound, z)

  -- The last part fills the checksum in.
  set_ip_cksum-valid :
      (pkt : Mbuf)
      → 20 ≤ pkt.l3_len
      → ether_hdr_len + pkt.l3_len ≤ length pkt.bytes
      → get_or pkt.bytes 24 0 ≡ 0
      → get_or pkt.bytes 25 0 ≡ 0
      → (t : Mbuf) × (set_ip_cksum C false pkt ≡ some t)
        × HasIpChecksum t
        × (t.l3_len ≡ pkt.l3_len)
        × Fronted pkt t
  unfolding set_ip_cksum HasIpChecksum
  set_ip_cksum-valid pkt n fits low high =
      let ip = header pkt.l3_len ether_hdr_len pkt.bytes in
      let cksum = calculate_ip_cksum C ip in
      let known : leb (ether_hdr_len + pkt.l3_len) (length pkt.bytes) ≡ true =
        ground (arith, fits) in
      let size : length ip ≡ pkt.l3_len = omega (
        arith,
        length-take pkt.l3_len (drop ether_hdr_len pkt.bytes),
        length-drop ether_hdr_len pkt.bytes,
        fits,
      ) in
      let zero_field : load_u16 ip 10 ≡ 0 = omega (
        arith,
        get_or-header pkt.l3_len ether_hdr_len 10 pkt.bytes (omega (arith, n)),
        get_or-header pkt.l3_len ether_hdr_len 11 pkt.bytes (omega (arith, n)),
        low,
        high,
      ) in
      let slice = header-put_u16 pkt.l3_len ether_hdr_len 10 pkt.bytes cksum (omega (arith, n)) in
      (
        record pkt { bytes = put_u16 pkt.bytes (ether_hdr_len + 10) cksum },
        rw known refl,
        ap (λ l. sum16 l % 65535) slice ∙ filled-valid ip (omega (arith, size, n)) zero_field,
        refl,
        record {
          same_length = length-put_u16 pkt.bytes 24 cksum;
          same_front = λ j h.
              get_or-put_u16 pkt.bytes 24 cksum j (λ e. omega (arith, e, h))
                (λ e. omega (arith, e, h));
        },
      )

  -- What becomes of the IP header's checksum: it is right, or left to the NIC in a field that is 0.
  abbrev pub IsSettled : Bool → Mbuf → Type 0
  IsSettled offloaded t =
      ((offloaded ≡ false) × HasIpChecksum t)
      ⊎ ((offloaded ≡ true)
          × (t.ol_flags.tx_ip_cksum ≡ true)
          × (get_or t.bytes 24 0 ≡ 0)
          × (get_or t.bytes 25 0 ≡ 0))

  pub IsSettled-HasIpChecksum :
      (offloaded : Bool) (t : Mbuf) → offloaded ≡ false → IsSettled offloaded t → HasIpChecksum t
  IsSettled-HasIpChecksum offloaded t off settled = elim settled [
    | inl (e, valid) ↦ valid
    | inr (on, told, low, high) ↦ absurd (cc (on, off))
  ]

  set_ip_cksum-IsSettled :
      (offloaded : Bool) (pkt : Mbuf)
      → 20 ≤ pkt.l3_len
      → ether_hdr_len + pkt.l3_len ≤ length pkt.bytes
      → get_or pkt.bytes 24 0 ≡ 0
      → get_or pkt.bytes 25 0 ≡ 0
      → (t : Mbuf) × (set_ip_cksum C offloaded pkt ≡ some t)
        × IsSettled offloaded t
        × (t.l3_len ≡ pkt.l3_len)
        × Fronted pkt t
  unfolding set_ip_cksum
  set_ip_cksum-IsSettled true pkt n fits low high = (
    record pkt { ol_flags = record pkt.ol_flags { tx_ip_cksum = true } },
    refl,
    inr (refl, refl, low, high),
    refl,
    record { same_length = refl; same_front = λ j h. refl },
  )
  set_ip_cksum-IsSettled false pkt n fits low high =
      let (t, e, valid, l3, front) = set_ip_cksum-valid pkt n fits low high in
      (t, e, inl (refl, valid), l3, front)

  -- All parts, with the IP header's checksum field cleared before
  set_all_cksums-IsSettled :
      (hw : Offload) (tcp udp : Bool) (pkt : Mbuf)
      → (tcp ≡ false) ⊎ IsCovered C hw.tcp pkt
      → (udp ≡ false) ⊎ IsCovered C hw.udp pkt
      → 20 ≤ pkt.l3_len
      → ether_hdr_len + pkt.l3_len ≤ length pkt.bytes
      → 54 ≤ length pkt.bytes
      → get_or pkt.bytes 24 0 ≡ 0
      → get_or pkt.bytes 25 0 ≡ 0
      → (t : Mbuf) × (set_all_cksums C hw tcp udp pkt ≡ some t)
        × IsSettled hw.ipv4 t
        × (t.l3_len ≡ pkt.l3_len)
        × Fronted pkt t
  unfolding set_all_cksums
  set_all_cksums-IsSettled hw tcp udp pkt has_tcp has_udp n inside long low high =
      let (t, e, f) = if-Framed C tcp (set_tcp_cksum C hw.tcp) pkt (λ on. elim has_tcp [
        | inl off ↦ absurd (cc (on, off))
        | inr c ↦ set_tcp_cksum-Framed C hw.tcp pkt long c
      ]) in
      let (u, g, k) = if-Framed C udp (set_udp_cksum C hw.udp) t (λ on. elim has_udp [
        | inl off ↦ absurd (cc (on, off))
        | inr c ↦
            set_udp_cksum-Framed C hw.udp t (omega (arith, f.same_length, long))
              (Framed-IsCovered C hw.udp pkt t f c)
      ]) in
      let whole = Framed-trans C pkt t u f k in
      let (w, o, settled, l3_w, front) =
        set_ip_cksum-IsSettled hw.ipv4 u (omega (arith, whole.same_l3, n))
          (omega (arith, whole.same_l3, whole.same_length, inside))
          (whole.same_header 24 (omega arith) ∙ low) (whole.same_header 25 (omega arith) ∙ high) in
      let with_udp : Mbuf → Option Mbuf =
        λ m. (if udp then set_udp_cksum C hw.udp m else some m) >>= set_ip_cksum C hw.ipv4 in
      (
        w,
        ap (λ m. m >>= with_udp) e ∙ ap (λ m. m >>= set_ip_cksum C hw.ipv4) g ∙ o,
        settled,
        l3_w ∙ whole.same_l3,
        record {
          same_length = front.same_length ∙ whole.same_length;
          same_front = λ j h. front.same_front j h ∙ whole.same_header j (omega (arith, h));
        },
      )

  -- The packet is of another protocol, or its NIC sums it up, or the bytes that the software sums over lie in it.
  abbrev pub IsSummable : ℕ → Bool → Mbuf → Type 0
  IsSummable protocol offloaded pkt =
      (get_or pkt.bytes 23 0 ≢ protocol)
      ⊎ ((offloaded ≡ true)
          ⊎ (l4_len_of (drop ether_hdr_len pkt.bytes) (get_or pkt.bytes ether_hdr_len 0 % 16 * 4)
              ≤ length pkt.bytes - (ether_hdr_len + ipv4_hdr_len)))

  IsSummable-IsCovered :
      (protocol : ℕ) (offloaded : Bool) (pkt : Mbuf)
      → IsSummable protocol offloaded pkt
      → ((get_or pkt.bytes 23 0 == protocol) ≡ false) ⊎ IsCovered C offloaded (mark_ipv4 pkt)
  IsSummable-IsCovered protocol offloaded pkt c =
      let stays : (j : ℕ) → j < 24 → get_or (put_u16 pkt.bytes 24 0) j 0 ≡ get_or pkt.bytes j 0 =
        λ j h.
          get_or-put_u16 pkt.bytes 24 0 j (λ e. omega (arith, e, h)) (λ e. omega (arith, e, h)) in
      elim c [
        | inl other ↦ inl (ground (arith, other))
        | inr (inl on) ↦ inr (inl on)
        | inr (inr fits) ↦
            let same =
              l4_len_of_same C (put_u16 pkt.bytes 24 0) pkt.bytes
                (get_or pkt.bytes ether_hdr_len 0 % 16 * 4) (stays 16 (omega arith))
                (stays 17 (omega arith)) in
            inr (inr (omega (arith, fits, same, length-put_u16 pkt.bytes 24 0)))
      ]

  -- For an IPv4 packet whose IP header lies inside it, and that has room for a TCP header: let the NIC sum up its TCP or
  -- UDP, or the bytes that calculate_tcpudp_cksum sums over lie in the packet. Then onvm_pkt_set_checksums reads
  -- nothing behind the packet. Without a NIC that sums up IP it leaves a header that sums up to 0 modulo 65535, as the
  -- receiver checks it; with one it leaves 0 in the field and tells the NIC. The packet keeps its length and all in
  -- front of that checksum.
  pub set_checksums-IsSettled :
      (hw : Offload) (pkt : Mbuf)
      → let l3_len = get_or pkt.bytes ether_hdr_len 0 % 16 * 4 in
        get_or pkt.bytes ether_hdr_len 0 / 16 % 16 ≡ 4
        → 20 ≤ l3_len
        → ether_hdr_len + l3_len ≤ length pkt.bytes
        → 54 ≤ length pkt.bytes
        → IsSummable ip_protocol_tcp hw.tcp pkt
        → IsSummable ip_protocol_udp hw.udp pkt
        → (t : Mbuf) × (set_checksums C hw pkt ≡ some t)
          × IsSettled hw.ipv4 t
          × (t.l3_len ≡ l3_len)
          × Fronted pkt t
  unfolding set_checksums ipv4_hdr l4_hdr
  set_checksums-IsSettled hw pkt version n inside long tcp udp =
      let marked = mark_ipv4 pkt in
      let size : length marked.bytes ≡ length pkt.bytes = length-put_u16 pkt.bytes 24 0 in
      let proto = get_or pkt.bytes 23 0 in
      let field = load_u16-put_u16 pkt.bytes 24 0 (omega (arith, long)) in
      let (t, e, settled, l3, front) =
        set_all_cksums-IsSettled hw (proto == ip_protocol_tcp) (proto == ip_protocol_udp) marked
          (IsSummable-IsCovered ip_protocol_tcp hw.tcp pkt tcp)
          (IsSummable-IsCovered ip_protocol_udp hw.udp pkt udp) n (omega (arith, size, inside))
          (omega (arith, size, long)) (omega (arith, field)) (omega (arith, field)) in
      let is_ipv4 : (get_or pkt.bytes ether_hdr_len 0 / 16 % 16 == 4) ≡ true =
        ground (arith, version) in
      let known : (i : ℕ) → i < 54 → leb (length pkt.bytes) i ≡ false =
        λ i h. ground (arith, long, h) in
      let room : leb 26 (length pkt.bytes) ≡ true = ground (arith, long) in
      (
        t,
        rw (known 14 (omega arith), known 23 (omega arith), is_ipv4, room) e,
        settled,
        l3,
        record {
          same_length = front.same_length ∙ size;
          same_front = λ j h.
              front.same_front j h
              ∙ get_or-put_u16 pkt.bytes 24 0 j (λ e. omega (arith, e, h))
                  (λ e. omega (arith, e, h));
        },
      )
