-- ===== src/Flow/Key/Laws.antt =====
-- Which flows share a symmetric key.
use afxdp_path_manager.Common.{ℕ, ◌≡◌, ◌↔◌, ◌⊎◌, refl, ap, ltb, if◌then◌else◌, arith}
use afxdp_path_manager.Flow.Key.{Key, symmetric}

-- The same two values, in this order or the other
pub Pair : ℕ → ℕ → ℕ → ℕ → Type 0
Pair a b c d = ((a ≡ c) × (b ≡ d)) ⊎ ((a ≡ d) × (b ≡ c))

Key-ext :
    {k l : Key}
    → k.src_addr ≡ l.src_addr
    → k.dst_addr ≡ l.dst_addr
    → k.src_port ≡ l.src_port
    → k.dst_port ≡ l.dst_port
    → k.proto ≡ l.proto
    → k ≡ l
Key-ext {k} {l} a b c d e = rw (a, b, c, d, e) refl

symmetric-fields :
    (k : Key)
    → let s = symmetric k in
      (s.src_addr ≡ (if ltb k.src_addr k.dst_addr then k.dst_addr else k.src_addr))
      × (s.dst_addr ≡ (if ltb k.src_addr k.dst_addr then k.src_addr else k.dst_addr))
      × (s.src_port ≡ (if ltb k.src_port k.dst_port then k.dst_port else k.src_port))
      × (s.dst_port ≡ (if ltb k.src_port k.dst_port then k.src_port else k.dst_port))
      × (s.proto ≡ k.proto)
unfolding symmetric
symmetric-fields k = ground arith

-- Two keys become the same by onvm_ft_fill_key_symmetric exactly if they have the same protocol, the same two addresses
-- in either order, and the same two ports in either order: a flow and its replies share a key, and so does a flow
-- with the ports alone exchanged.
pub symmetric_iff :
    (k l : Key)
    → (symmetric k ≡ symmetric l) ↔ (
        (k.proto ≡ l.proto)
        × Pair k.src_addr k.dst_addr l.src_addr l.dst_addr
        × Pair k.src_port k.dst_port l.src_port l.dst_port)
unfolding Pair
symmetric_iff k l =
    let sk = symmetric-fields k in
    let sl = symmetric-fields l in
    (
      λ e.
          let a = ap (λ (s : Key). s.src_addr) e in
          let b = ap (λ (s : Key). s.dst_addr) e in
          let c = ap (λ (s : Key). s.src_port) e in
          let d = ap (λ (s : Key). s.dst_port) e in
          let p = ap (λ (s : Key). s.proto) e in ground (arith, a, b, c, d, p, sk, sl),
      λ (p, addrs, ports).
          Key-ext (ground (arith, addrs, sk, sl)) (ground (arith, addrs, sk, sl))
            (ground (arith, ports, sk, sl)) (ground (arith, ports, sk, sl))
            (ground (arith, p, sk, sl)),
    )
