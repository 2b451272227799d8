-- ===== src/Mgr/Cores.antt =====
-- onvm_threading_get_core and onvm_threading_find_nf_to_reassign_core of
-- onvm/onvm_nflib/onvm_threading.c. The array `cores` has an entry for each core that
-- onvm_threading_get_num_cores counts, so its length stands for that call.
pub mod Laws
use afxdp_path_manager.Common.{
  ℕ, suc, ◌-◌, Bool, true, not, ◌&&◌, List, [], ◌∷◌, Option, none, some, length, get_elem?, set,
  ltb, ◌==◌, if◌then◌else◌, u16_mod, add_u16,
}

-- `struct core_status`
pub record Core : Type 0 where
  pub enabled : Bool
  pub is_dedicated_core : Bool
  pub nf_count : ℕ

-- The return values: NF_NO_CORES, NF_NO_DEDICATED_CORES, NF_CORE_OUT_OF_RANGE and NF_CORE_BUSY
abbrev pub nf_no_cores : ℕ
nf_no_cores = 9

abbrev pub nf_no_dedicated_cores : ℕ
nf_no_dedicated_cores = 10

abbrev pub nf_core_out_of_range : ℕ
nf_core_out_of_range = 11

abbrev pub nf_core_busy : ℕ
nf_core_busy = 12

-- The two bits of `flags`
pub record CoreFlags : Type 0 where
  pub manual_core_assignment : Bool
  pub share_core : Bool

-- The return value, `*core_value` and the array afterwards.
pub record CoreResult : Type 0 where
  pub ret : ℕ
  pub core_value : ℕ
  pub cores : List Core

-- `(uint16_t)-1`
abbrev pub no_count : ℕ
no_count = u16_mod - 1

-- `cores[core].nf_count++`, and the reservation of a dedicated core before it
abbrev pub occupy : Bool → Core → Core
occupy dedicated c = record c {
  is_dedicated_core = if dedicated then true else c.is_dedicated_core;
  nf_count = add_u16 c.nf_count 1;
}

-- The search loop from core `i` on: the least count so far, and its core.
unfoldable pub find_best : ℕ → List Core → ℕ × ℕ → ℕ × ℕ
find_best i [] best = best
find_best i (c ∷ cs) best =
    let better = c.enabled && not c.is_dedicated_core && ltb c.nf_count best.0 in
    find_best (suc i) cs (if better then (c.nf_count, i) else best)

-- The preferred core; `none` is a read behind the end of `cores`.
pub get_manual : ℕ → CoreFlags → List Core → Option CoreResult
get_manual pref flags cores =
    let refused : ℕ → Option CoreResult =
      λ ret. some (record { ret = ret; core_value = pref; cores = cores }) in
    if ltb (length cores) pref then refused nf_core_out_of_range else elim (get_elem? cores pref) [
      | none ↦ none
      | some c ↦
          if not c.enabled
          then refused nf_core_out_of_range
          else if c.is_dedicated_core
          then refused nf_core_busy
          else if not flags.share_core && not (c.nf_count == 0)
          then refused nf_no_dedicated_cores
          else some (record {
            ret = 0;
            core_value = pref;
            cores = set cores pref (occupy (not flags.share_core) c);
          })
    ]

-- The core with the least NFs
unfoldable pub get_automatic : ℕ → CoreFlags → List Core → Option CoreResult
unfolding find_best
get_automatic pref flags cores =
    let (min_nf_count, best_core) = find_best 0 cores (no_count, 0) in
    if min_nf_count == no_count
    then some (record { ret = nf_no_cores; core_value = pref; cores = cores })
    else if not flags.share_core && not (min_nf_count == 0)
    then some (record { ret = nf_no_dedicated_cores; core_value = best_core; cores = cores })
    else elim (get_elem? cores best_core) [
      | none ↦ none
      | some c ↦ some (record {
        ret = 0;
        core_value = best_core;
        cores = set cores best_core (occupy (not flags.share_core) c);
      })
    ]

-- onvm_threading_get_core
unfoldable pub get_core : ℕ → CoreFlags → List Core → Option CoreResult
unfolding get_manual get_automatic
get_core core_value flags cores =
    if flags.manual_core_assignment
    then get_manual core_value flags cores
    else get_automatic core_value flags cores

-- The core with the most NFs, from core `i` on: its count, and its number.
pub most_used : ℕ → List Core → ℕ × ℕ → ℕ × ℕ
most_used i [] most = most
most_used i (c ∷ cs) most =
    most_used (suc i) cs (if ltb most.0 c.nf_count then (c.nf_count, i) else most)
