-- ===== src/Mgr/Services/Map.antt =====
-- The service map and the table of NFs agree, whatever sequence of NFs starts, becomes ready and stops.
use afxdp_path_manager.Common.{
  ℕ, ◌<◌, ◌≡◌, ◌≢◌, refl, sym, ap, ◌∙◌, subst, ◌⊎◌, inl, inr, Bool, true, false, ◌&&◌, ◌||◌, List,
  [], ◌∷◌, ◌++◌, some, length, set, count, arith, ◌==◌, if◌then◌else◌, Bool-cases, Option-cases,
  count-append, length-append, sub_u16, update,
}
use afxdp_path_manager.Mgr.Cores.{get_core}
use afxdp_path_manager.Mgr.Services.{
  max_nfs, max_nfs_per_service, nf_starting, nf_running, nf_paused, nf_stopped, Nf, InitCfg, Mgr,
  is_valid, Started, starting, start_as, ready, map_nf, leave_core, unmap,
}
use afxdp_path_manager.Mgr.Services.Row.{
  IsRow, remove_first, count-remove_first, length-remove_first, remove_from_row-IsRow, set-IsRow,
}

-- An NF that has become ready and not stopped
abbrev pub is_mapped : Nf → Bool
is_mapped nf = (nf.status == nf_running) || (nf.status == nf_paused)

abbrev pub is_started : Nf → Bool
is_started nf = (nf.status == nf_starting) || is_mapped nf

-- The row of each service lists the NFs of the service that became ready, each once; each NF stands in
-- the slot of its id, slot 0 is empty, and so is all behind the table. The manager pauses no NF.
pub record IsMapped (m : Mgr) : Type 0 where
  pub ids : ℕ → List ℕ
  pub rows : (s : ℕ) → IsRow (ids s) (m.services s)
  pub counts : (s : ℕ) → m.nf_per_service_count s ≡ length (ids s)
  pub exact :
      (s i : ℕ)
      → count i (ids s) ≡ (if is_mapped (m.nfs i) && ((m.nfs i).service_id == s) then 1 else 0)
  pub slots : (i : ℕ) → (is_started (m.nfs i) ≡ false) ⊎ ((m.nfs i).instance_id ≡ i)
  pub reserved : is_started (m.nfs 0) ≡ false
  pub bounded : (i : ℕ) → (is_started (m.nfs i) ≡ false) ⊎ (i < max_nfs)
  pub unpaused : (i : ℕ) → ((m.nfs i).status == nf_paused) ≡ false

-- A change of the table that leaves alone which NFs are mapped, and to which service.
pub record Same (m m' : Mgr) : Type 0 where
  pub services : m'.services ≡ m.services
  pub counts : m'.nf_per_service_count ≡ m.nf_per_service_count
  pub mapped : (i : ℕ) → is_mapped (m'.nfs i) ≡ is_mapped (m.nfs i)
  pub service :
      (i : ℕ) → (is_mapped (m.nfs i) ≡ false) ⊎ ((m'.nfs i).service_id ≡ (m.nfs i).service_id)
  pub slots : (i : ℕ) → (is_started (m'.nfs i) ≡ false) ⊎ ((m'.nfs i).instance_id ≡ i)
  pub reserved : is_started (m'.nfs 0) ≡ false
  pub bounded : (i : ℕ) → (is_started (m'.nfs i) ≡ false) ⊎ (i < max_nfs)
  pub unpaused : (i : ℕ) → ((m'.nfs i).status == nf_paused) ≡ false

pub Same-IsMapped : {m m' : Mgr} → IsMapped m → Same m m' → IsMapped m'
Same-IsMapped {m} {m'} v e = record {
  ids = v.ids;
  rows = λ s. rw (ap (λ f. f s) e.services) (v.rows s);
  counts = λ s. rw (ap (λ f. f s) e.counts) (v.counts s);
  exact = λ s i. ground (arith, v.exact s i, e.mapped i, e.service i);
  slots = e.slots;
  reserved = e.reserved;
  bounded = e.bounded;
  unpaused = e.unpaused;
}

-- Nothing of the table and the map changed.
abbrev pub Unmoved : Mgr → Mgr → Type 0
Unmoved m m' =
    (m'.services ≡ m.services)
    × (m'.nf_per_service_count ≡ m.nf_per_service_count)
    × (m'.nfs ≡ m.nfs)

pub unmoved : {m m' : Mgr} → IsMapped m → Unmoved m m' → Same m m'
unmoved {m} {m'} v (s, c, n) = record {
  services = s;
  counts = c;
  mapped = λ i. ap (λ f. is_mapped (f i)) n;
  service = λ i. inr (ap (λ f. (f i).service_id) n);
  slots = λ i. rw n (v.slots i);
  reserved = rw n v.reserved;
  bounded = λ i. rw n (v.bounded i);
  unpaused = λ i. rw n (v.unpaused i);
}

-- Either a start is refused, or the NF's slot, where no NF runs, is filled.
pub start_as-cases :
    (id : ℕ) (cfg : InitCfg) (m : Mgr) (r : Started)
    → start_as id cfg m ≡ some r
    → Unmoved m r.mgr
      ⊎ ((is_valid (m.nfs id) ≡ false)
          × (id < max_nfs)
          × (core : ℕ) × (r.mgr.services ≡ m.services)
          × (r.mgr.nf_per_service_count ≡ m.nf_per_service_count)
          × (r.mgr.nfs ≡ update m.nfs id (starting id cfg core (m.nfs id))))
unfolding start_as
start_as-cases id cfg m r e = elim (Option-cases (get_core cfg.core cfg.init_options m.cores)) [
  | inl n ↦ inl (ground (arith, e, n))
  | inr (c, g) ↦
      let both : Unmoved m r.mgr
          ⊎ ((is_valid (m.nfs id) ≡ false)
              × (id < max_nfs)
              × (r.mgr.services ≡ m.services)
              × (r.mgr.nf_per_service_count ≡ m.nf_per_service_count)
              × (r.mgr.nfs ≡ update m.nfs id (starting id cfg c.core_value (m.nfs id)))) =
        ground (arith, e, g) in
      elim both [
        | inl same ↦ inl same
        | inr (free, room, s, n, f) ↦ inr (free, room, c.core_value, s, n, f)
      ]
]

-- The slot of a starting NF
pub start_as-IsMapped :
    (id : ℕ) (cfg : InitCfg) (m : Mgr) (r : Started)
    → id ≢ 0
    → IsMapped m
    → start_as id cfg m ≡ some r
    → IsMapped r.mgr
unfolding start_as
start_as-IsMapped id cfg m r p v e = elim (start_as-cases id cfg m r e) [
  | inl kept ↦ Same-IsMapped v (unmoved v kept)
  | inr (free, room, core, s, c, n) ↦ Same-IsMapped v (record {
    services = s;
    counts = c;
    mapped = λ i. ground (arith, ap (λ g. g i) n, free, v.unpaused id);
    service = λ i. ground (arith, ap (λ g. g i) n, free, v.unpaused id);
    slots = λ i. ground (arith, ap (λ g. g i) n, v.slots i);
    reserved = ground (arith, ap (λ g. g 0) n, p, v.reserved);
    bounded = λ i. ground (arith, ap (λ g. g i) n, v.bounded i, room);
    unpaused = λ i. ground (arith, ap (λ g. g i) n, v.unpaused i);
  })
]

-- The entry of a ready NF is behind the others of its row.
pub map_nf-IsMapped :
    (id : ℕ) (m : Mgr)
    → IsMapped m
    → (m.nfs id).status ≡ nf_starting
    → m.nf_per_service_count (m.nfs id).service_id < max_nfs_per_service
    → IsMapped (map_nf id m)
unfolding map_nf
map_nf-IsMapped id m v st room =
    let sid = (m.nfs id).service_id in
    let own : (m.nfs id).instance_id ≡ id = ground (arith, st, v.slots id) in
    let fits : length (v.ids sid) < max_nfs_per_service = ground (arith, room, v.counts sid) in
    let zero_status : (m.nfs 0).status ≢ nf_starting = ground (arith, v.reserved) in
    let nonzero : id ≢ 0 = λ z. zero_status (ap (λ k. (m.nfs k).status) (sym z) ∙ st) in
    let row : IsRow (v.ids sid ++ id ∷ [])
        (set (m.services sid) (m.nf_per_service_count sid) (m.nfs id).instance_id) =
      rw (own, v.counts sid)
        (set-IsRow id (v.ids sid) (m.services sid) (v.rows sid) nonzero fits) in
    record {
      ids = update v.ids sid (v.ids sid ++ id ∷ []);
      rows = λ s. elim (Bool-cases (s == sid)) [ inl e ↦ rw e row | inr e ↦ rw e (v.rows s) ];
      counts =
          λ s. ground (arith, v.counts s, v.counts sid, length-append (v.ids sid) (id ∷ []), fits);
      exact = λ s i. elim (Bool-cases (i == id)) [
        | inl e ↦
            let same : i ≡ id = ground (arith, e) in
            rw same (
              ground
                (arith, v.exact s id, v.exact sid id, st, count-append id (v.ids sid) (id ∷ [])))
        | inr e ↦
            ground (arith, v.exact s i, v.exact sid i, e, count-append i (v.ids sid) (id ∷ []))
      ];
      slots = λ i. ground (arith, v.slots i, st, own);
      reserved = ground (arith, v.reserved, nonzero);
      bounded = λ i. ground (arith, v.bounded i, st);
      unpaused = λ i. ground (arith, v.unpaused i);
    }

pub ready-IsMapped :
    (id : ℕ) (m m' : Mgr) (ret : Bool) → IsMapped m → ready id m ≡ some (ret, m') → IsMapped m'
unfolding ready
ready-IsMapped id m m' ret v e = elim (Bool-cases ret) [
  | inl t ↦
      let same : map_nf id m ≡ m' = ground (arith, e, t) in
      subst IsMapped same (map_nf-IsMapped id m v (ground (arith, e, t)) (ground (arith, e, t)))
  | inr f ↦ let same : m ≡ m' = ground (arith, e, f) in subst IsMapped same v
]

-- A write that leaves a field of the entry alone, where it takes place, leaves the field alone everywhere.
update-keeps :
    (g : Nf → ℕ) (c : Bool) (f : ℕ → Nf) (i j : ℕ) (v : Nf)
    → g v ≡ g (f i)
    → g ((if c then f else update f i v) j) ≡ g (f j)
update-keeps g true f i j v e = refl
update-keeps g false f i j v e = elim (Bool-cases (j == i)) [
  | inl h ↦ let same : j ≡ i = ground (arith, h) in rw h (e ∙ ap (λ k. g (f k)) (sym same))
  | inr h ↦ rw h refl
]

-- Behind the first part of onvm_nf_stop the NF is neither mapped nor starting; the others stay.
leave_core-nfs :
    (id i : ℕ) (m : Mgr)
    → let nf = (leave_core id m).nfs i in
      (nf.service_id ≡ (m.nfs i).service_id)
      × (nf.instance_id ≡ (m.nfs i).instance_id)
      × (nf.status ≡ (if i == id then nf_stopped else (m.nfs i).status))
unfolding leave_core
leave_core-nfs id i m =
    let nf = m.nfs id in
    let stopped = update m.nfs id (record nf { status = nf_stopped }) in
    let parent = record (stopped nf.parent) {
      children_cnt = sub_u16 (stopped nf.parent).children_cnt 1;
    } in
    let keeps : (g : Nf → ℕ)
        → g parent ≡ g (stopped nf.parent)
        → g ((leave_core id m).nfs i) ≡ g (stopped i) =
      λ g e. update-keeps g (nf.parent == 0) stopped nf.parent i parent e in
    (
      keeps (λ n. n.service_id) refl
          ∙ update-keeps (λ n. n.service_id) false m.nfs id i (record nf { status = nf_stopped })
              refl,
      keeps (λ n. n.instance_id) refl
          ∙ update-keeps (λ n. n.instance_id) false m.nfs id i (record nf { status = nf_stopped })
              refl,
      keeps (λ n. n.status) refl ∙ ground arith,
    )

leave_core-map :
    (id : ℕ) (m : Mgr)
    → ((leave_core id m).services ≡ m.services)
      × ((leave_core id m).nf_per_service_count ≡ m.nf_per_service_count)
unfolding leave_core
leave_core-map id m = (refl, refl)

leave_core-slots :
    (id i : ℕ) (m : Mgr)
    → IsMapped m
    → (is_started ((leave_core id m).nfs i) ≡ false) ⊎ (((leave_core id m).nfs i).instance_id ≡ i)
leave_core-slots id i m v = ground (arith, leave_core-nfs id i m, v.slots i)

pub leave_core-IsMapped :
    (id : ℕ) (m : Mgr) → IsMapped m → (m.nfs id).status ≡ nf_starting → IsMapped (leave_core id m)
leave_core-IsMapped id m v st = Same-IsMapped v (record {
  services = (leave_core-map id m).0;
  counts = (leave_core-map id m).1;
  mapped = λ i. elim (Bool-cases (i == id)) [
    | inl e ↦
        let same : i ≡ id = ground (arith, e) in
        rw same (ground (arith, leave_core-nfs id id m, st))
    | inr e ↦ ground (arith, leave_core-nfs id i m, e)
  ];
  service = λ i. inr (leave_core-nfs id i m).0;
  slots = λ i. leave_core-slots id i m v;
  reserved = ground (arith, leave_core-nfs id 0 m, v.reserved);
  bounded = λ i. ground (arith, leave_core-nfs id i m, v.bounded i);
  unpaused = λ i. ground (arith, leave_core-nfs id i m, v.unpaused i);
})

-- The row of the stopped NF loses it.
pub unmap-IsMapped :
    (id : ℕ) (m : Mgr)
    → IsMapped m
    → is_mapped (m.nfs id) ≡ true
    → IsMapped (unmap id (m.nfs id).service_id (leave_core id m))
unfolding unmap
unmap-IsMapped id m v st =
    let sid = (m.nfs id).service_id in
    let (same_rows, same_counts) = leave_core-map id m in
    let listed : 0 < count id (v.ids sid) = ground (arith, v.exact sid id, st) in
    let len = length-remove_first id (v.ids sid) listed in
    record {
      ids = update v.ids sid (remove_first id (v.ids sid));
      rows = λ s. rw same_rows (elim (Bool-cases (s == sid)) [
        | inl e ↦ rw e (remove_from_row-IsRow id (v.ids sid) (m.services sid) (v.rows sid) listed)
        | inr e ↦ rw e (v.rows s)
      ]);
      counts =
          λ s. rw same_counts (ground (arith, v.counts s, v.counts sid, len, (v.rows sid).fits));
      exact = λ s i. elim (Bool-cases (i == id)) [
        | inl e ↦
            let same : i ≡ id = ground (arith, e) in
            rw same (
              ground (
                arith,
                leave_core-nfs id id m,
                st,
                v.exact s id,
                v.exact sid id,
                count-remove_first id id (v.ids sid) listed,
              ))
        | inr e ↦ ground (
          arith,
          e,
          leave_core-nfs id i m,
          v.exact s i,
          v.exact sid i,
          count-remove_first id i (v.ids sid) listed,
        )
      ];
      slots = λ i. leave_core-slots id i m v;
      reserved = ground (arith, leave_core-nfs id 0 m, v.reserved);
      bounded = λ i. ground (arith, leave_core-nfs id i m, v.bounded i);
      unpaused = λ i. ground (arith, leave_core-nfs id i m, v.unpaused i);
    }
