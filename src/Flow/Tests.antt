-- ===== src/Flow/Tests.antt =====
-- The theorems on flows (onvm/onvm_nflib/onvm_flow_table.h, onvm/onvm_nflib/onvm_flow_dir.c) at concrete keys.
use afxdp_path_manager.Common.{
  ℕ, ◌≡◌, ◌≢◌, ◌↔◌, refl, ap, Bool, true, false, ◌&&◌, [], ◌∷◌, Option, none, some, ◌==◌,
  if◌then◌else◌, pos, arith, Bool-cases, inl, inr,
}
use afxdp_path_manager.Flow.Key.{Key, symmetric}
use afxdp_path_manager.Flow.Key.Laws.{Pair, symmetric_iff}
use afxdp_path_manager.Flow.Dir.{HashLib, HashLaws, FlowDir, del_times}
use afxdp_path_manager.Flow.Dir.Laws.{del_times_lem}

abbrev flow : Key
flow = record { src_addr = 10; dst_addr = 20; src_port = 5; dst_port = 80; proto = 6 }

abbrev reply : Key
reply = record { src_addr = 20; dst_addr = 10; src_port = 80; dst_port = 5; proto = 6 }

symmetric_iff_example :
    (symmetric flow ≡ symmetric reply)
    ↔ ((flow.proto ≡ reply.proto) × Pair 10 20 20 10 × Pair 5 80 80 5)
symmetric_iff_example = symmetric_iff flow reply

abbrev same_key : Key → Key → Bool
same_key k l =
    (k.src_addr == l.src_addr)
    && (k.dst_addr == l.dst_addr)
    && (k.src_port == l.src_port)
    && (k.dst_port == l.dst_port)
    && (k.proto == l.proto)

-- A hash table as a function of the key, which puts each key at its source port
abbrev by_port : HashLib
by_port = record {
  Hash = Key → Option ℕ;
  add = λ h k sig. (some k.src_port, λ l. if same_key l k then some k.src_port else h l);
  find = λ h k sig. h k;
  del = λ h k sig. (h k, λ l. if same_key l k then none else h l);
  softrss = λ k. 0;
}

same_key_refl : (k : Key) → same_key k k ≡ true
same_key_refl k = ground arith

same_key_ne : (k l : Key) → k ≢ l → same_key l k ≡ false
same_key_ne k l p = elim (Bool-cases (same_key l k)) [
  | inr e ↦ e
  | inl e ↦
      let a : k.src_addr ≡ l.src_addr = ground (arith, e) in
      let b : k.dst_addr ≡ l.dst_addr = ground (arith, e) in
      let c : k.src_port ≡ l.src_port = ground (arith, e) in
      let d : k.dst_port ≡ l.dst_port = ground (arith, e) in
      let o : k.proto ≡ l.proto = ground (arith, e) in absurd (p (rw (a, b, c, d, o) refl))
]

by_port_laws : HashLaws by_port
by_port_laws = record {
  find_deleted = λ h k sig. rw (same_key_refl k) refl;
  find_other = λ h k l sig other p. rw (same_key_ne k l p) refl;
}

-- Two flows that share a chain
abbrev shared : FlowDir by_port
shared = record {
  hash = λ k. some k.src_port;
  entries = λ i. record { key = i; sc = 99 };
  ref_cnt = λ sc. pos 2;
  freed = [];
}

del_times_lem_example :
    let t = del_times 2 (some (flow, 0)) shared in
    let u = del_times 3 (some (flow, 0)) shared in
    (t.hash flow ≡ some 5)
    × (t.freed ≡ [])
    × (u.hash flow ≡ none)
    × (u.freed ≡ 99 ∷ 5 ∷ [])
    × (u.hash reply ≡ some 80)
    × (u.entries ≡ shared.entries)
del_times_lem_example =
    del_times_lem by_port_laws flow reply 0 0 5 2 shared
      (λ e. omega (arith, ap (λ (k : Key). k.src_addr) e)) (record { found = refl; count = refl })
