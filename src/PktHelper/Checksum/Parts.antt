-- ===== src/PktHelper/Checksum/Parts.antt =====
-- The parts of onvm_pkt_set_checksums for TCP and UDP: what they leave alone, and when they read nothing behind the
-- packet.
use afxdp_path_manager.Common.{
  take, [], ◌∷◌, ◌++◌, ℕ, inl, inr, ◌⊎◌, sym, le→leb, Bool-cases, ◌+◌, ◌-◌, ◌/◌, ◌%◌, ◌≤◌, ◌<◌, ◌≡◌,
  ◌≢◌, refl, ap, ◌∙◌, Bool, true, false, List, Option, some, length, get_or, drop, leb,
  if◌then◌else◌, u8_mod, u16_mod, u32_mod, arith, length-drop,
}
use afxdp_path_manager.PktHelper.Checksum.{
  calculate_tcpudp_cksum, ether_hdr_len, ipv4_hdr_len, ip_protocol_tcp, ip_protocol_udp, Mbuf,
  Cksum, put_u16, load_u16, fold, fold_fuel, l4_len_of, set_l4_cksum, set_tcp_cksum, set_udp_cksum,
}
use afxdp_path_manager.PktHelper.Checksum.Words.{length-put_u16, get_or-put_u16, get_or-drop}

-- The l4 part keeps the packet's length, and all in front of the addresses of the IP header.
pub record Framed (pkt t : Mbuf) : Type 0 where
  pub same_length : length t.bytes ≡ length pkt.bytes
  pub same_header : (j : ℕ) → j < ether_hdr_len + 12 → get_or t.bytes j 0 ≡ get_or pkt.bytes j 0
  pub same_l3 : t.l3_len ≡ pkt.l3_len

module _ (C : Cksum) where
  -- The checksum of TCP or UDP is left to the NIC, or the bytes that the software sums over lie in the packet.
  abbrev pub IsCovered : Bool → Mbuf → Type 0
  IsCovered offloaded pkt =
      (offloaded ≡ true)
      ⊎ (l4_len_of (drop ether_hdr_len pkt.bytes) pkt.l3_len
          ≤ length pkt.bytes - (ether_hdr_len + ipv4_hdr_len))

  load_u16-drop :
      (i : ℕ) (bytes : List ℕ)
      → load_u16 (drop ether_hdr_len bytes) i ≡ load_u16 bytes (ether_hdr_len + i)
  load_u16-drop i bytes =
      let next : ether_hdr_len + (i + 1) ≡ ether_hdr_len + i + 1 = omega arith in
      let high = get_or-drop ether_hdr_len (i + 1) bytes ∙ ap (λ k. get_or bytes k 0) next in
      omega (arith, get_or-drop ether_hdr_len i bytes, high)

  -- What is covered stays so when only the checksum of TCP or UDP changes.
  pub l4_len_of_same :
      (xs ys : List ℕ) (l3_len : ℕ)
      → get_or xs 16 0 ≡ get_or ys 16 0
      → get_or xs 17 0 ≡ get_or ys 17 0
      → l4_len_of (drop ether_hdr_len xs) l3_len ≡ l4_len_of (drop ether_hdr_len ys) l3_len
  unfolding l4_len_of
  l4_len_of_same xs ys l3_len p q =
      ap (λ w. (w + u32_mod - l3_len) % u32_mod)
        (load_u16-drop 2 xs ∙ omega (arith, p, q) ∙ sym (load_u16-drop 2 ys))

  summed :
      (protocol l3_len : ℕ) (bytes : List ℕ)
      → l4_len_of (drop ether_hdr_len bytes) l3_len ≤ length bytes - (ether_hdr_len + ipv4_hdr_len)
      → (v : ℕ) × (calculate_tcpudp_cksum C
            (drop ether_hdr_len bytes)
            (drop (ether_hdr_len + ipv4_hdr_len) bytes)
            l3_len
            protocol
          ≡ some v)
  unfolding calculate_tcpudp_cksum
  summed protocol l3_len bytes h =
      let ip = drop ether_hdr_len bytes in
      let inside : leb (l4_len_of ip l3_len) (length (drop (ether_hdr_len + ipv4_hdr_len) bytes))
          ≡ true =
        le→leb _ _ (omega (arith, length-drop (ether_hdr_len + ipv4_hdr_len) bytes, h)) in
      let ph =
        take 8 (drop 12 ip)
        ++ 0
          ∷ protocol
          ∷ l4_len_of ip l3_len % u16_mod % u8_mod
          ∷ l4_len_of ip l3_len % u16_mod / u8_mod
          ∷ [] in
      let l4 = drop (ether_hdr_len + ipv4_hdr_len) bytes in
      let cksum = (C.raw_cksum ph + C.raw_cksum (take (l4_len_of ip l3_len) l4)) % u32_mod in
      (u16_mod - 1 - fold fold_fuel cksum % u16_mod, rw inside refl)

  set_l4_cksum-Framed :
      (protocol at l4_len : ℕ) (offloaded : Bool) (pkt : Mbuf)
      → ether_hdr_len + 12 ≤ at
      → at + 2 ≤ length pkt.bytes
      → IsCovered offloaded pkt
      → (t : Mbuf) × (set_l4_cksum C protocol at offloaded
            (record pkt { bytes = put_u16 pkt.bytes at 0; l4_len = l4_len })
          ≡ some t)
        × Framed pkt t
  unfolding set_l4_cksum
  set_l4_cksum-Framed protocol at l4_len offloaded pkt behind inside covered =
      let cleared : Mbuf = record pkt { bytes = put_u16 pkt.bytes at 0; l4_len = l4_len } in
      let size : length cleared.bytes ≡ length pkt.bytes = length-put_u16 pkt.bytes at 0 in
      let fits : leb (at + 2) (length cleared.bytes) ≡ true = rw size (ground (arith, inside)) in
      let framed : (v : ℕ) → Framed pkt (record cleared { bytes = put_u16 cleared.bytes at v }) =
        λ v. record {
          same_length = length-put_u16 cleared.bytes at v ∙ size;
          same_header = λ j h.
              let p : at ≢ j = λ e. omega (arith, e, h, behind) in
              let q : at + 1 ≢ j = λ e. omega (arith, e, h, behind) in
              get_or-put_u16 cleared.bytes at v j p q ∙ get_or-put_u16 pkt.bytes at 0 j p q;
          same_l3 = refl;
        } in
      elim (Bool-cases offloaded) [
        | inl e ↦
            let v = C.phdr_cksum (drop ether_hdr_len cleared.bytes) pkt.ol_flags % u16_mod in
            (record cleared { bytes = put_u16 cleared.bytes at v }, rw (fits, e) refl, framed v)
        | inr e ↦
            let same : (j : ℕ) → j < 26 → get_or cleared.bytes j 0 ≡ get_or pkt.bytes j 0 = λ j h.
              get_or-put_u16 pkt.bytes at 0 j (λ q. omega (arith, q, h, behind))
                (λ q. omega (arith, q, h, behind)) in
            let here : l4_len_of (drop ether_hdr_len pkt.bytes) pkt.l3_len
                ≤ length pkt.bytes - (ether_hdr_len + ipv4_hdr_len) =
              elim covered [ inl on ↦ absurd (cc (on, e)) | inr c ↦ c ] in
            let fine : l4_len_of (drop ether_hdr_len cleared.bytes) pkt.l3_len
                ≤ length cleared.bytes - (ether_hdr_len + ipv4_hdr_len) =
              omega (
                arith,
                l4_len_of_same cleared.bytes pkt.bytes pkt.l3_len (same 16 (omega arith))
                    (same 17 (omega arith)),
                size,
                here,
              ) in
            let (v, ev) = summed protocol pkt.l3_len cleared.bytes fine in
            (record cleared { bytes = put_u16 cleared.bytes at v }, rw (fits, e, ev) refl, framed v)
      ]

  pub set_tcp_cksum-Framed :
      (offloaded : Bool) (pkt : Mbuf)
      → 54 ≤ length pkt.bytes
      → IsCovered offloaded pkt
      → (t : Mbuf) × (set_tcp_cksum C offloaded pkt ≡ some t) × Framed pkt t
  unfolding set_tcp_cksum
  set_tcp_cksum-Framed true pkt h c =
      let data_off = get_or pkt.bytes (ether_hdr_len + ipv4_hdr_len + 12) 0 in
      let (t, e, f) =
        set_l4_cksum-Framed ip_protocol_tcp 50 (data_off / 16 % 16) true pkt (omega arith)
          (omega (arith, h)) c in
      (
        record t { ol_flags = record t.ol_flags { tx_tcp_cksum = true } },
        rw e refl,
        record { same_length = f.same_length; same_header = f.same_header; same_l3 = f.same_l3 },
      )
  set_tcp_cksum-Framed false pkt h c =
      let data_off = get_or pkt.bytes (ether_hdr_len + ipv4_hdr_len + 12) 0 in
      let (t, e, f) =
        set_l4_cksum-Framed ip_protocol_tcp 50 (data_off / 16 % 16) false pkt (omega arith)
          (omega (arith, h)) c in
      (t, rw e refl, f)

  pub set_udp_cksum-Framed :
      (offloaded : Bool) (pkt : Mbuf)
      → 54 ≤ length pkt.bytes
      → IsCovered offloaded pkt
      → (t : Mbuf) × (set_udp_cksum C offloaded pkt ≡ some t) × Framed pkt t
  unfolding set_udp_cksum
  set_udp_cksum-Framed true pkt h c =
      let (t, e, f) =
        set_l4_cksum-Framed ip_protocol_udp 40 8 true pkt (omega arith) (omega (arith, h)) c in
      (
        record t { ol_flags = record t.ol_flags { tx_udp_cksum = true } },
        rw e refl,
        record { same_length = f.same_length; same_header = f.same_header; same_l3 = f.same_l3 },
      )
  set_udp_cksum-Framed false pkt h c =
      let (t, e, f) =
        set_l4_cksum-Framed ip_protocol_udp 40 8 false pkt (omega arith) (omega (arith, h)) c in
      (t, rw e refl, f)

  pub Framed-IsCovered :
      (offloaded : Bool) (pkt t : Mbuf)
      → Framed pkt t
      → IsCovered offloaded pkt
      → IsCovered offloaded t
  Framed-IsCovered offloaded pkt t f c = elim c [
    | inl on ↦ inl on
    | inr fits ↦
        let same =
          l4_len_of_same t.bytes pkt.bytes pkt.l3_len (f.same_header 16 (omega arith))
            (f.same_header 17 (omega arith)) in
        inr (
          omega (
            arith,
            fits,
            f.same_length,
            same,
            ap (l4_len_of (drop ether_hdr_len t.bytes)) f.same_l3,
          ))
  ]

  Framed-refl : (pkt : Mbuf) → Framed pkt pkt
  Framed-refl pkt = record { same_length = refl; same_header = λ j h. refl; same_l3 = refl }

  pub Framed-trans : (p q r : Mbuf) → Framed p q → Framed q r → Framed p r
  Framed-trans p q r f g = record {
    same_length = g.same_length ∙ f.same_length;
    same_header = λ j h. g.same_header j h ∙ f.same_header j h;
    same_l3 = g.same_l3 ∙ f.same_l3;
  }

  -- A part that is left out when the packet has no such header
  pub if-Framed :
      (b : Bool) (part : Mbuf → Option Mbuf) (pkt : Mbuf)
      → (b ≡ true → (t : Mbuf) × (part pkt ≡ some t) × Framed pkt t)
      → (t : Mbuf) × ((if b then part pkt else some pkt) ≡ some t) × Framed pkt t
  if-Framed true part pkt done = done refl
  if-Framed false part pkt done = (pkt, refl, Framed-refl pkt)
