-- ===== src/Mgr/Services/Ids.antt =====
-- The ids that onvm_nf_next_instance_id hands out.
use afxdp_path_manager.Common.{
  ℕ, zero, suc, ◌+◌, ◌-◌, ◌≤◌, ◌<◌, ◌≡◌, refl, sym, ap, ◌∙◌, ◌⊎◌, inl, inr, true, false, none, some,
  arith, leb, ◌==◌, Bool-cases, Option-cases,
}
use afxdp_path_manager.Mgr.Services.{
  max_nfs, starting_instance_id, Nf, Mgr, is_valid, find_id, next_id,
}

-- A pass finds the first id in its range that no running NF has, if there is one.
find_id-some :
    (todo from : ℕ) (nfs : ℕ → Nf) (id : ℕ)
    → (find_id todo from nfs).0 ≡ some id
    → ((from ≤ id) × (id < from + todo))
      × (is_valid (nfs id) ≡ false)
      × ((find_id todo from nfs).1 ≡ suc id)
unfolding find_id
find_id-some zero from nfs id e = ground (arith, e)
find_id-some (suc todo) from nfs id e = elim (Bool-cases (is_valid (nfs from))) [
  | inl h ↦ ground (arith, h, e, find_id-some todo (suc from) nfs id)
  | inr h ↦
      let same : from ≡ id = ground (arith, h, e) in
      let free : is_valid (nfs id) ≡ false = ap (λ k. is_valid (nfs k)) (sym same) ∙ h in
      (omega (arith, same), free, ground (arith, h, same))
]

find_id-none :
    (todo from : ℕ) (nfs : ℕ → Nf) (i : ℕ)
    → (find_id todo from nfs).0 ≡ none
    → from ≤ i
    → i < from + todo
    → is_valid (nfs i) ≡ true
unfolding find_id
find_id-none zero from nfs i e a b = ground (arith, a, b)
find_id-none (suc todo) from nfs i e a b = elim (Bool-cases (is_valid (nfs from))) [
  | inl h ↦ elim (Bool-cases (from == i)) [
    | inl s ↦ let same : from ≡ i = ground (arith, s) in ap (λ k. is_valid (nfs k)) (sym same) ∙ h
    | inr s ↦
        find_id-none todo (suc from) nfs i (ground (arith, h, e)) (ground (arith, s, a))
          (omega (arith, b))
  ]
  | inr h ↦ ground (arith, h, e)
]

find_id-next : (todo from : ℕ) (nfs : ℕ → Nf) → from ≤ (find_id todo from nfs).1
unfolding find_id
find_id-next zero from nfs = omega arith
find_id-next (suc todo) from nfs = ground (arith, find_id-next todo (suc from) nfs)

-- The id is one that no running NF has, and not the reserved 0; or it is MAX_NFS, and then the count
-- of NFs is at its limit or each id from 1 on has a running NF. Nothing but the counter changes.
pub next_id_lem :
    (m : Mgr) (i : ℕ)
    → 1 ≤ m.next_instance_id
    → 1 ≤ i
    → i < max_nfs
    → ((((next_id m).0 ≡ max_nfs) × ((max_nfs ≤ m.num_nfs) ⊎ (is_valid (m.nfs i) ≡ true)))
        ⊎ (((1 ≤ (next_id m).0) × ((next_id m).0 < max_nfs))
            × (is_valid (m.nfs (next_id m).0) ≡ false)))
      × (1 ≤ (next_id m).1.next_instance_id)
      × ((next_id m).1 ≡ record m { next_instance_id = (next_id m).1.next_instance_id })
unfolding next_id
next_id_lem m i a b c =
    let n = m.next_instance_id in
    let f1 = find_id (max_nfs - n) n m.nfs in
    let f2 = find_id (max_nfs - starting_instance_id) starting_instance_id m.nfs in
    let p1 = find_id-next (max_nfs - n) n m.nfs in
    let p2 = find_id-next (max_nfs - starting_instance_id) starting_instance_id m.nfs in
    elim (Bool-cases (leb max_nfs m.num_nfs)) [
      | inl full ↦ rw full (inl (refl, inl (ground (arith, full))), a, refl)
      | inr below ↦ elim (Option-cases f1.0) [
        | inr (id, e) ↦
            let (bounds, free, later) = find_id-some (max_nfs - n) n m.nfs id e in
            rw (below, e) (inr (omega (arith, bounds, a), free), omega (arith, p1, a), refl)
        | inl e ↦ elim (Option-cases f2.0) [
          | inr (id, h) ↦
              let (bounds, free, later) =
                find_id-some (max_nfs - starting_instance_id) starting_instance_id m.nfs id h in
              rw (below, e, h) (inr (omega (arith, bounds), free), omega (arith, p2), refl)
          | inl h ↦
              rw (below, e, h)
                (
                  inl (
                    refl,
                    inr (
                        find_id-none (max_nfs - starting_instance_id) starting_instance_id m.nfs i h
                          b (omega (arith, c))),
                  ),
                  omega (arith, p2),
                  refl,
                )
        ]
      ]
    ]
