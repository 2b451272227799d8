-- ===== src/Mgr/Services/History.antt =====
-- Histories of the manager: sequences of starts, readiness messages and stops, as onvm_nf_check_status
-- serves them.
use native.Mathlib.Nat.{mod-lt}
use afxdp_path_manager.Common.{
  ℕ, ◌-◌, ◌%◌, ◌≤◌, ◌<◌, ◌≡◌, ◌≢◌, refl, sym, ap, ◌∙◌, subst, ◌⊎◌, inl, inr, ◌↔◌, Bool, true, false,
  List, [], ◌∷◌, Option, none, some, length, count, arith, ◌==◌, if◌then◌else◌, Bool-cases,
  Option-cases, get_or,
}
use afxdp_path_manager.Mgr.Cores.{get_core}
use afxdp_path_manager.Mgr.Services.{
  max_nfs_per_service, nf_starting, nf_no_id, nf_waiting_for_id, InitCfg, Mgr, next_id, Started,
  start_as, start, ready, map_nf, leave_core, unmap, find_nf_to_reassign_core, relocate, reassign,
  stop, service_to_nf_map,
}
use afxdp_path_manager.Mgr.Services.Row.{get_or-row}
use afxdp_path_manager.Mgr.Services.Map.{
  is_mapped, IsMapped, Same-IsMapped, Unmoved, unmoved, start_as-IsMapped, ready-IsMapped,
  leave_core-IsMapped, unmap-IsMapped,
}
use afxdp_path_manager.Mgr.Services.Ids.{next_id_lem}

-- The map is right, and the next id to try is not the reserved one.
pub record IsConsistent (m : Mgr) : Type 0 where
  pub mapped : IsMapped m
  pub ahead : 1 ≤ m.next_instance_id

-- A message that the manager serves. No NF asks for the reserved id 0.
pub data Step : Mgr → Mgr → Type 0 where
  starting_nf :
      (cfg : InitCfg) (m : Mgr) (r : Started)
      → cfg.instance_id ≢ 0
      → start cfg m ≡ some r
      → Step m r.mgr
  nf_ready : (id : ℕ) (ret : Bool) (m m' : Mgr) → ready id m ≡ some (ret, m') → Step m m'
  nf_stopping :
      (reassigns pool_found : Bool) (id : ℕ) (ret : Bool) (m m' : Mgr)
      → pool_found ≡ true
      → stop reassigns pool_found id m ≡ some (ret, m')
      → Step m m'

pub data Reach (m : Mgr) : Mgr → Type 0 where
  here : Reach m m
  next : {n k : Mgr} → Reach m n → Step n k → Reach m k

start_as-ahead :
    (id : ℕ) (cfg : InitCfg) (m : Mgr) (r : Started)
    → start_as id cfg m ≡ some r
    → r.mgr.next_instance_id ≡ m.next_instance_id
unfolding start_as
start_as-ahead id cfg m r e = elim (Option-cases (get_core cfg.core cfg.init_options m.cores)) [
  | inl n ↦ ground (arith, e, n)
  | inr (c, g) ↦ ground (arith, e, g)
]

start_as-IsConsistent :
    (id : ℕ) (cfg : InitCfg) (m : Mgr) (r : Started)
    → id ≢ 0
    → IsConsistent m
    → start_as id cfg m ≡ some r
    → IsConsistent r.mgr
start_as-IsConsistent id cfg m r p v e = record {
  mapped = start_as-IsMapped id cfg m r p v.mapped e;
  ahead = omega (arith, start_as-ahead id cfg m r e, v.ahead);
}

next_id-IsConsistent : (m : Mgr) → IsConsistent m → IsConsistent (next_id m).1 × ((next_id m).0 ≢ 0)
next_id-IsConsistent m v =
    let (which, ahead, same) = next_id_lem m 1 v.ahead (omega arith) (omega arith) in
    let moved : IsConsistent (record m { next_instance_id = (next_id m).1.next_instance_id }) =
      record {
        mapped = Same-IsMapped v.mapped (unmoved v.mapped (refl, refl, refl));
        ahead = ahead;
      } in
    (subst IsConsistent (sym same) moved, ground (arith, which))

start-IsConsistent :
    (cfg : InitCfg) (m : Mgr) (r : Started)
    → cfg.instance_id ≢ 0
    → IsConsistent m
    → start cfg m ≡ some r
    → IsConsistent r.mgr
unfolding start
start-IsConsistent cfg m r p v e = elim (Bool-cases (cfg.status == nf_waiting_for_id)) [
  | inl w ↦ elim (Bool-cases (cfg.instance_id == nf_no_id)) [
    | inl n ↦
        let (moved, nonzero) = next_id-IsConsistent m v in
        start_as-IsConsistent (next_id m).0 cfg (next_id m).1 r nonzero moved
          (ground (arith, e, w, n))
    | inr n ↦ start_as-IsConsistent cfg.instance_id cfg m r p v (ground (arith, e, w, n))
  ]
  | inr w ↦ let same : m ≡ r.mgr = ground (arith, e, w) in subst IsConsistent same v
]

reassign-Unmoved :
    (core : ℕ) (m m' : Mgr) (ret : Bool)
    → reassign core m ≡ some (ret, m')
    → Unmoved m m' × (m'.next_instance_id ≡ m.next_instance_id)
unfolding reassign relocate
reassign-Unmoved core m m' ret e = elim (Option-cases (find_nf_to_reassign_core core m)) [
  | inl n ↦ ground (arith, e, n)
  | inr (c, g) ↦ ground (arith, e, g)
]

leave_core-ahead : (id : ℕ) (m : Mgr) → (leave_core id m).next_instance_id ≡ m.next_instance_id
unfolding leave_core
leave_core-ahead id m = refl

-- An NF that is stopped before it is ready
stop_starting-IsConsistent :
    (id : ℕ) (m : Mgr)
    → IsConsistent m
    → (m.nfs id).status ≡ nf_starting
    → IsConsistent (leave_core id m)
stop_starting-IsConsistent id m v st = record {
  mapped = leave_core-IsMapped id m v.mapped st;
  ahead = omega (arith, leave_core-ahead id m, v.ahead);
}

-- An NF that is stopped after that
stop_mapped-IsConsistent :
    (id : ℕ) (m : Mgr)
    → IsConsistent m
    → is_mapped (m.nfs id) ≡ true
    → IsConsistent (unmap id (m.nfs id).service_id (leave_core id m))
unfolding unmap
stop_mapped-IsConsistent id m v st = record {
  mapped = unmap-IsMapped id m v.mapped st;
  ahead = omega (arith, leave_core-ahead id m, v.ahead);
}

answer-injective :
    {a b : Bool} {m m' : Mgr} → ◌≡◌ {A = Option (Bool × Mgr)} (some (a, m)) (some (b, m')) → m ≡ m'
answer-injective {m = m} e = ap (λ o. elim o [ none ↦ m | some p ↦ p.1 ]) e

stop-mapped :
    (reassigns : Bool) (id : ℕ) (m : Mgr)
    → is_mapped (m.nfs id) ≡ true
    → stop reassigns true id m ≡ (
        if reassigns
        then reassign (m.nfs id).core (unmap id (m.nfs id).service_id (leave_core id m))
        else some (true, unmap id (m.nfs id).service_id (leave_core id m)))
unfolding stop
stop-mapped reassigns id m r = elim (Bool-cases ((m.nfs id).status == nf_starting)) [
  | inl st ↦ rw (st, r) refl
  | inr st ↦ rw (st, r) refl
]

stop-starting :
    (reassigns : Bool) (id : ℕ) (m : Mgr)
    → is_mapped (m.nfs id) ≡ false
    → ((m.nfs id).status == nf_starting) ≡ true
    → stop reassigns true id m ≡ some (true, leave_core id m)
unfolding stop
stop-starting reassigns id m r st = rw (st, r) refl

stop-idle :
    (reassigns : Bool) (id : ℕ) (m : Mgr)
    → is_mapped (m.nfs id) ≡ false
    → ((m.nfs id).status == nf_starting) ≡ false
    → stop reassigns true id m ≡ some (false, m)
unfolding stop
stop-idle reassigns id m r st = rw (st, r) refl

stop-IsConsistent :
    (reassigns : Bool) (id : ℕ) (ret : Bool) (m m' : Mgr)
    → IsConsistent m
    → stop reassigns true id m ≡ some (ret, m')
    → IsConsistent m'
stop-IsConsistent reassigns id ret m m' v e = elim (Bool-cases (is_mapped (m.nfs id))) [
  | inl r ↦
      let w = stop_mapped-IsConsistent id m v r in
      let ran = sym (stop-mapped reassigns id m r) ∙ e in
      elim (Bool-cases reassigns) [
        | inl again ↦
            let ((a, b, c), d) =
              reassign-Unmoved (m.nfs id).core (unmap id (m.nfs id).service_id (leave_core id m)) m'
                ret (rw again at ran) in
            record {
              mapped = Same-IsMapped w.mapped (unmoved w.mapped (a, b, c));
              ahead = omega (arith, d, w.ahead);
            }
        | inr off ↦
            let same : unmap id (m.nfs id).service_id (leave_core id m) ≡ m' =
              answer-injective (rw off at ran) in
            subst IsConsistent same w
      ]
  | inr r ↦ elim (Bool-cases ((m.nfs id).status == nf_starting)) [
    | inl st ↦
        let same : leave_core id m ≡ m' =
          answer-injective (sym (stop-starting reassigns id m r st) ∙ e) in
        subst IsConsistent same (stop_starting-IsConsistent id m v (ground (arith, st)))
    | inr st ↦
        let same : m ≡ m' = answer-injective (sym (stop-idle reassigns id m r st) ∙ e) in
        subst IsConsistent same v
  ]
]

ready-ahead :
    (id : ℕ) (m m' : Mgr) (ret : Bool)
    → ready id m ≡ some (ret, m')
    → m'.next_instance_id ≡ m.next_instance_id
unfolding ready map_nf
ready-ahead id m m' ret e = ground (arith, e)

Step-IsConsistent : {m m' : Mgr} → IsConsistent m → Step m m' → IsConsistent m'
Step-IsConsistent v (starting_nf cfg m r p e) = start-IsConsistent cfg m r p v e
Step-IsConsistent v (nf_ready id ret m m' e) = record {
  mapped = ready-IsMapped id m m' ret v.mapped e;
  ahead = omega (arith, ready-ahead id m m' ret e, v.ahead);
}
Step-IsConsistent v (nf_stopping reassigns pool_found id ret m m' p e) =
    stop-IsConsistent reassigns id ret m m' v (rw p at e)

-- From a consistent manager, whatever NFs start, become ready and stop, in any order, where no NF asks for the
-- reserved id 0, no NF becomes ready past the end of the row of a full service, and the pool of NF records is
-- found: each row of the service
-- map lists the NFs of its service that are ready and not stopped, each once and without a gap, and the
-- count of the service is their number.
pub Reach-IsConsistent : {m m' : Mgr} → IsConsistent m → Reach m m' → IsConsistent m'
Reach-IsConsistent v here = v
Reach-IsConsistent v (next r s) = Step-IsConsistent (Reach-IsConsistent v r) s

count-empty : (a : ℕ) (xs : List ℕ) → length xs ≡ 0 → count a xs ≡ 0
count-empty a [] e = refl
count-empty a (x ∷ xs) e = ground (arith, e)

-- onvm_sc_service_to_nf_map sends a packet to an NF of its service that is ready and not stopped, whatever
-- its hash; it answers 0 just if the service has none.
pub service_to_nf_map-mapped :
    (m : Mgr) (s rss i : ℕ)
    → IsConsistent m
    → let id = service_to_nf_map s rss m in
      ((is_mapped (m.nfs id) ≡ true) × ((m.nfs id).service_id ≡ s) × (id ≢ 0))
      ⊎ ((id ≡ 0) × ((is_mapped (m.nfs i) ≡ false) ⊎ ((m.nfs i).service_id ≢ s)))
unfolding service_to_nf_map
service_to_nf_map-mapped m s rss i v =
    let ids = v.mapped.ids s in
    let n = m.nf_per_service_count s in
    let c = v.mapped.counts s in
    let idx = rss % n in
    elim (Bool-cases (n == 0)) [
      | inl e ↦
          let none_listed = count-empty i ids (ground (arith, e, c)) in
          rw e (inr (refl, ground (arith, none_listed, v.mapped.exact s i)))
      | inr e ↦
          let below : idx < length ids = omega (arith, mod-lt rss {m = n} (ground (arith, e)), c) in
          let id = get_or (m.services s) idx 0 in
          let listed : 0 < count id ids =
            rw (v.mapped.rows s).entries
              (get_or-row ids (max_nfs_per_service - length ids) idx below) in
          let nonzero : id ≢ 0 = λ z. omega (arith, rw z at listed, (v.mapped.rows s).nonzero) in
          rw e (
            inl (
              ground (arith, listed, v.mapped.exact s id),
              ground (arith, listed, v.mapped.exact s id),
              nonzero,
            ))
    ]

-- onvm_nf_ready writes behind the end of a row of the map just when the NF is starting and its service
-- already has MAX_NFS_PER_SERVICE NFs: onvm_nf_start has no count of the NFs that are not ready yet.
pub ready-none_iff :
    (id : ℕ) (m : Mgr)
    → IsConsistent m
    → (ready id m ≡ none) ↔ (
        ((m.nfs id).status ≡ nf_starting)
        × (m.nf_per_service_count (m.nfs id).service_id ≡ max_nfs_per_service))
unfolding ready
ready-none_iff id m v =
    let sid = (m.nfs id).service_id in ground (arith, v.mapped.counts sid, (v.mapped.rows sid).fits)
