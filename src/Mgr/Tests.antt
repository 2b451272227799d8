-- ===== src/Mgr/Tests.antt =====
-- The theorems on cores and services (onvm/onvm_mgr/onvm_nf.c and onvm/onvm_nflib/onvm_threading.c) at concrete
-- tables.
use afxdp_path_manager.Common.{
  ℕ, ◌≡◌, ◌≢◌, refl, List, [], ◌∷◌, true, false, none, some, arith, ◌⊎◌, replicate,
}
use afxdp_path_manager.Mgr.Cores.{CoreFlags, get_core, get_automatic, find_best}
use afxdp_path_manager.Mgr.Cores.Laws.{Granted, get_core-Granted}
use afxdp_path_manager.Mgr.Services.{
  next_id, ready, remove_from_row, service_to_nf_map, start, start_as, find_id,
}
use afxdp_path_manager.Mgr.Services.Row.{IsRow, remove_from_row-IsRow}
use afxdp_path_manager.Mgr.Services.Map.{is_mapped}
use afxdp_path_manager.Mgr.Services.History.{
  IsConsistent, Reach-IsConsistent, service_to_nf_map-mapped,
}
use afxdp_path_manager.Mgr.Messages.{
  msg_nf_starting, msg_nf_ready, msg_nf_stopping, Served, serve, check_status,
}
use afxdp_path_manager.Mgr.Sample.{
  three_cores, alone, granted, empty, empty-IsConsistent, running, request, answer, history,
}

third_granted : get_core 0 alone three_cores ≡ some granted
unfolding get_core get_automatic find_best
third_granted = refl

get_core-Granted_example : Granted alone three_cores granted
get_core-Granted_example = get_core-Granted 0 alone three_cores granted third_granted refl

abbrev manual : CoreFlags
manual = record { manual_core_assignment = true; share_core = true }

-- A row of the map with three NFs, of which the second stops.
abbrev row : List ℕ
row = 5 ∷ 6 ∷ 7 ∷ replicate 29 0

remove_from_row-IsRow_example : IsRow (5 ∷ 7 ∷ []) (remove_from_row 6 row)
remove_from_row-IsRow_example =
    remove_from_row-IsRow 6 (5 ∷ 6 ∷ 7 ∷ []) row
      (record { nonzero = refl; fits = omega arith; entries = refl }) (omega arith)

Reach-IsConsistent_example : IsConsistent running
Reach-IsConsistent_example = Reach-IsConsistent empty-IsConsistent history

service_to_nf_map-mapped_example :
    let id = service_to_nf_map 4 77 running in
    ((is_mapped (running.nfs id) ≡ true) × ((running.nfs id).service_id ≡ 4) × (id ≢ 0))
    ⊎ ((id ≡ 0) × ((is_mapped (running.nfs 1) ≡ false) ⊎ ((running.nfs 1).service_id ≢ 4)))
service_to_nf_map-mapped_example =
    service_to_nf_map-mapped running 4 77 1 (Reach-IsConsistent empty-IsConsistent history)

-- An NF asks for its id, another message makes it ready, and a NULL is ignored.
abbrev started_up : Served
started_up = record { mgr = running; answers = answer.cfg ∷ [] }

served :
    check_status true true
      (msg_nf_starting request ∷ msg_nf_ready 1 ∷ msg_nf_stopping none ∷ [])
      (record { mgr = empty; answers = [] })
    ≡ some started_up
unfolding check_status serve start start_as next_id find_id ready get_core get_automatic find_best
served = refl
