-- ===== src/Mgr/Services.antt =====
-- The table of NFs and the service map of onvm/onvm_mgr/onvm_nf.c: onvm_nf_next_instance_id,
-- onvm_nf_start, onvm_nf_ready, onvm_nf_stop and onvm_nf_relocate_nf, and onvm_sc_service_to_nf_map of
-- onvm/onvm_nflib/onvm_sc_common.c. The DPDK rings and pools that an NF is given are not modelled. `nfs`
-- and the arrays by service are functions of the index; a row of the map is a list of its entries.
pub mod Row
pub mod Map
pub mod Ids
pub mod History
use afxdp_path_manager.Common.{
  ℕ, zero, suc, ◌-◌, ◌%◌, Bool, true, false, not, ◌&&◌, ◌||◌, List, [], ◌∷◌, Option, none, some,
  get_or, set, ltb, leb, ◌==◌, if◌then◌else◌, u16_mod, add_u16, sub_u16, update,
}
use afxdp_path_manager.Mgr.Cores.{Core, CoreFlags, get_core, most_used}

abbrev pub max_nfs : ℕ
max_nfs = 128

abbrev pub max_services : ℕ
max_services = 32

abbrev pub max_nfs_per_service : ℕ
max_nfs_per_service = 32

-- NF_WAITING_FOR_ID to NF_SERVICE_COUNT_MAX
abbrev pub nf_waiting_for_id : ℕ
nf_waiting_for_id = 0

abbrev pub nf_starting : ℕ
nf_starting = 1

abbrev pub nf_running : ℕ
nf_running = 2

abbrev pub nf_paused : ℕ
nf_paused = 3

abbrev pub nf_stopped : ℕ
nf_stopped = 4

abbrev pub nf_id_conflict : ℕ
nf_id_conflict = 5

abbrev pub nf_no_ids : ℕ
nf_no_ids = 6

abbrev pub nf_service_max : ℕ
nf_service_max = 7

abbrev pub nf_service_count_max : ℕ
nf_service_count_max = 8

-- `(uint16_t)NF_NO_ID`
abbrev pub nf_no_id : ℕ
nf_no_id = u16_mod - 1

-- `starting_instance_id`
abbrev pub starting_instance_id : ℕ
starting_instance_id = 1

-- The fields of `struct onvm_nf` that the manager's bookkeeping uses.
pub record Nf : Type 0 where
  pub instance_id : ℕ
  pub service_id : ℕ
  pub status : ℕ
  pub core : ℕ
  pub parent : ℕ
  pub children_cnt : ℕ
  pub time_to_live : ℕ
  pub pkt_limit : ℕ

-- `struct onvm_nf_init_cfg`
pub record InitCfg : Type 0 where
  pub instance_id : ℕ
  pub service_id : ℕ
  pub status : ℕ
  pub core : ℕ
  pub init_options : CoreFlags
  pub time_to_live : ℕ
  pub pkt_limit : ℕ

-- The manager's shared state: `nfs`, `nf_per_service_count` and `services`, the last two by service.
pub record Mgr : Type 0 where
  pub next_instance_id : ℕ
  pub num_nfs : ℕ
  pub nfs : ℕ → Nf
  pub nf_per_service_count : ℕ → ℕ
  pub services : ℕ → List ℕ
  pub cores : List Core

-- onvm_nf_is_valid
abbrev pub is_valid : Nf → Bool
is_valid nf = nf.status == nf_running

-- A pass of onvm_nf_next_instance_id: the ids from `from` on, `todo` many; the id found and the next one
-- to look at.
unfoldable pub find_id : ℕ → ℕ → (ℕ → Nf) → Option ℕ × ℕ
find_id zero from nfs = (none, from)
find_id (suc todo) from nfs =
    let later = find_id todo (suc from) nfs in
    if not (is_valid (nfs from)) then (some from, suc from) else later

-- onvm_nf_next_instance_id
unfoldable pub next_id : Mgr → ℕ × Mgr
unfolding find_id
next_id m =
    let (first, next1) = find_id (max_nfs - m.next_instance_id) m.next_instance_id m.nfs in
    let (second, next2) = find_id (max_nfs - starting_instance_id) starting_instance_id m.nfs in
    if leb max_nfs m.num_nfs then (max_nfs, m) else elim first [
      | some id ↦ (id, record m { next_instance_id = next1 })
      | none ↦ elim second [
        | some id ↦ (id, record m { next_instance_id = next2 })
        | none ↦ (max_nfs, record m { next_instance_id = next2 })
      ]
    ]

-- The return value of onvm_nf_start, the NF's request, which carries the answer, and the manager.
pub record Started : Type 0 where
  pub ret : ℕ
  pub cfg : InitCfg
  pub mgr : Mgr

-- The fields that onvm_nf_start fills in.
abbrev pub starting : ℕ → InitCfg → ℕ → Nf → Nf
starting nf_id cfg core nf = record nf {
  instance_id = nf_id;
  service_id = cfg.service_id;
  status = nf_starting;
  core = core;
  time_to_live = cfg.time_to_live;
  pkt_limit = cfg.pkt_limit;
}

-- The part behind the choice of the id; `none` is the read of `cores` out of bounds.
unfoldable pub start_as : ℕ → InitCfg → Mgr → Option Started
start_as nf_id cfg m =
    let refused : ℕ → Option Started =
      λ status. some (record { ret = 1; cfg = record cfg { status = status }; mgr = m }) in
    if leb max_nfs nf_id
    then refused nf_no_ids
    else if leb max_services cfg.service_id
    then refused nf_service_max
    else if leb max_nfs_per_service (m.nf_per_service_count cfg.service_id)
    then refused nf_service_count_max
    else if is_valid (m.nfs nf_id)
    then refused nf_id_conflict
    else elim (get_core cfg.core cfg.init_options m.cores) [
      | none ↦ none
      | some r ↦
          if not (r.ret == 0)
          then some (record {
            ret = 1;
            cfg = record cfg { instance_id = nf_id; core = r.core_value; status = r.ret };
            mgr = record m { cores = r.cores };
          })
          else some (record {
            ret = 0;
            cfg = record cfg { instance_id = nf_id; core = r.core_value; status = nf_starting };
            mgr = record m {
              cores = r.cores;
              nfs = update m.nfs nf_id (starting nf_id cfg r.core_value (m.nfs nf_id));
            };
          })
    ]

-- onvm_nf_start, for rings that can be created
unfoldable pub start : InitCfg → Mgr → Option Started
unfolding start_as next_id
start cfg m =
    let (id, m') = next_id m in
    if not (cfg.status == nf_waiting_for_id)
    then some (record { ret = 1; cfg = cfg; mgr = m })
    else if cfg.instance_id == nf_no_id
    then start_as id cfg m'
    else start_as cfg.instance_id cfg m

-- What onvm_nf_ready does to a starting NF.
pub map_nf : ℕ → Mgr → Mgr
map_nf id m =
    let nf = m.nfs id in
    let service_count = m.nf_per_service_count nf.service_id in
    record m {
      nf_per_service_count = update m.nf_per_service_count nf.service_id (add_u16 service_count 1);
      services =
          update m.services nf.service_id
            (set (m.services nf.service_id) service_count nf.instance_id);
      num_nfs = add_u16 m.num_nfs 1;
      nfs = update m.nfs id (record nf { status = nf_running });
    }

-- onvm_nf_ready for the NF in slot `id`: `false` is -1. `none` is a write behind the end of the service's
-- row of the map.
unfoldable pub ready : ℕ → Mgr → Option (Bool × Mgr)
unfolding map_nf
ready id m =
    let nf = m.nfs id in
    if not (nf.status == nf_starting)
    then some (false, m)
    else if leb max_nfs_per_service (m.nf_per_service_count nf.service_id)
    then none
    else some (true, map_nf id m)

-- The loop of onvm_nf_stop from the entry that was cleared: each entry moves one to the left, up to the first
-- empty one. `row` starts at the cleared entry.
pub shift_left : List ℕ → List ℕ
shift_left [] = []
shift_left (hole ∷ []) = hole ∷ []
shift_left (hole ∷ next ∷ row) =
    let moved = shift_left (0 ∷ row) in if next == 0 then hole ∷ next ∷ row else next ∷ moved

-- The search for the NF in a row of the map, and that loop; a row without the NF stays.
pub remove_from_row : ℕ → List ℕ → List ℕ
unfolding shift_left
remove_from_row nf_id [] = []
remove_from_row nf_id (x ∷ xs) =
    let later = remove_from_row nf_id xs in if x == nf_id then shift_left (0 ∷ xs) else x ∷ later

-- `cores[i]` changed in place
abbrev pub change : (Core → Core) → ℕ → List Core → List Core
change f i [] = []
change f zero (c ∷ cs) = f c ∷ cs
change f (suc i) (c ∷ cs) = c ∷ change f i cs

abbrev pub leave : Core → Core
leave c = record c { nf_count = sub_u16 c.nf_count 1 }

abbrev pub enter : Core → Core
enter c = record c { nf_count = add_u16 c.nf_count 1 }

-- `cores[i].nf_count`
abbrev pub count_on : ℕ → List Core → ℕ
count_on i [] = 0
count_on zero (c ∷ cs) = c.nf_count
count_on (suc i) (c ∷ cs) = count_on i cs

-- The first running NF on a core, among `todo` from `i` on
pub find_on_core : ℕ → ℕ → ℕ → (ℕ → Nf) → ℕ
find_on_core zero i core nfs = 0
find_on_core (suc todo) i core nfs =
    let later = find_on_core todo (suc i) core nfs in
    if is_valid (nfs i) && ((nfs i).core == core) then (nfs i).instance_id else later

-- onvm_threading_find_nf_to_reassign_core; `none` is its `rte_exit`.
pub find_nf_to_reassign_core : ℕ → Mgr → Option ℕ
unfolding find_on_core
find_nf_to_reassign_core candidate_core m =
    let (max_nfs_per_core, most_used_core) = most_used 0 m.cores (0, 0) in
    let candidate_nf_id = find_on_core max_nfs 0 most_used_core m.nfs in
    if (max_nfs_per_core == 1) || leb (max_nfs_per_core - 1) (count_on candidate_core m.cores)
    then some 0
    else if candidate_nf_id == 0
    then none
    else some candidate_nf_id

-- onvm_nf_relocate_nf, for what it does to `cores`; the NF itself is sent a message.
pub relocate : ℕ → ℕ → Mgr → Mgr
relocate dest new_core m = record m {
  cores = change enter new_core (change leave (m.nfs dest).core m.cores);
}

-- The end of onvm_nf_stop
pub reassign : ℕ → Mgr → Option (Bool × Mgr)
unfolding find_nf_to_reassign_core relocate
reassign candidate_core m = elim (find_nf_to_reassign_core candidate_core m) [
  | none ↦ none
  | some candidate_nf_id ↦
      some (true, if ltb 0 candidate_nf_id then relocate candidate_nf_id candidate_core m else m)
]

-- The part of onvm_nf_stop that each NF that has started gets: its status, its parent's count and its core
pub leave_core : ℕ → Mgr → Mgr
leave_core id m =
    let nf = m.nfs id in
    let stopped = update m.nfs id (record nf { status = nf_stopped }) in
    let parent = stopped nf.parent in
    record m {
      nfs =
          if nf.parent == 0
          then stopped
          else update stopped nf.parent
              (record parent { children_cnt = sub_u16 parent.children_cnt 1 });
      cores = change (λ c. record (leave c) { is_dedicated_core = false }) nf.core m.cores;
    }

-- The part for an NF that was running
pub unmap : ℕ → ℕ → Mgr → Mgr
unfolding remove_from_row
unmap id service_id m = record m {
  num_nfs = sub_u16 m.num_nfs 1;
  nf_per_service_count =
      update m.nf_per_service_count service_id (sub_u16 (m.nf_per_service_count service_id) 1);
  services = update m.services service_id (remove_from_row id (m.services service_id));
}

-- onvm_nf_stop for the NF in slot `id`, which is its instance id. `pool_found` says whether the pool of NF
-- records is found; `shutdown_core_reassignment` is the build's ONVM_NF_SHUTDOWN_CORE_REASSIGNMENT. `true`
-- is 0, `false` is 1, and `none` is an `rte_exit`.
pub stop : Bool → Bool → ℕ → Mgr → Option (Bool × Mgr)
unfolding leave_core unmap reassign
stop shutdown_core_reassignment pool_found id m =
    let nf = m.nfs id in
    let left = leave_core id m in
    let running = (nf.status == nf_running) || (nf.status == nf_paused) in
    if not ((nf.status == nf_starting) || running)
    then some (false, m)
    else if not pool_found
    then some (false, left)
    else if not running
    then some (true, left)
    else if shutdown_core_reassignment
    then reassign nf.core (unmap id nf.service_id left)
    else some (true, unmap id nf.service_id left)

-- onvm_sc_service_to_nf_map: the instance that takes a packet with the hash `rss`, or 0.
pub service_to_nf_map : ℕ → ℕ → Mgr → ℕ
service_to_nf_map service_id rss m =
    let available = m.nf_per_service_count service_id in
    if available == 0 then 0 else get_or (m.services service_id) (rss % available) 0
