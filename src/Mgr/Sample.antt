-- ===== src/Mgr/Sample.antt =====
-- A manager with one running NF, and a chain to its service, for the tests.
use afxdp_path_manager.Common.{
  ◌≡◌, refl, List, [], ◌∷◌, true, false, some, arith, if◌then◌else◌, inl, set, ◌==◌, replicate,
}
use afxdp_path_manager.Mgr.Chain.{Chain}
use afxdp_path_manager.Mgr.Cores.{Core, CoreFlags, CoreResult, get_core, get_automatic, find_best}
use afxdp_path_manager.Mgr.Services.{
  max_nfs_per_service, nf_stopped, nf_starting, nf_no_id, Nf, InitCfg, Mgr, next_id, Started, start,
  start_as, find_id, ready, map_nf,
}
use afxdp_path_manager.Mgr.Services.History.{IsConsistent, starting_nf, nf_ready, Reach, here, next}

-- The first core runs an NF, the second is reserved, the third is empty.
abbrev pub three_cores : List Core
three_cores =
    record { enabled = true; is_dedicated_core = false; nf_count = 1 }
    ∷ record { enabled = true; is_dedicated_core = true; nf_count = 1 }
    ∷ record { enabled = true; is_dedicated_core = false; nf_count = 0 }
    ∷ []

abbrev pub alone : CoreFlags
alone = record { manual_core_assignment = false; share_core = false }

abbrev pub granted : CoreResult
granted = record {
  ret = 0;
  core_value = 2;
  cores = set three_cores 2 (record { enabled = true; is_dedicated_core = true; nf_count = 1 });
}

-- The manager before the first NF
abbrev pub no_nf : Nf
no_nf = record {
  instance_id = 0;
  service_id = 0;
  status = nf_stopped;
  core = 0;
  parent = 0;
  children_cnt = 0;
  time_to_live = 0;
  pkt_limit = 0;
}

abbrev pub empty : Mgr
empty = record {
  next_instance_id = 1;
  num_nfs = 0;
  nfs = λ i. no_nf;
  nf_per_service_count = λ s. 0;
  services = λ s. replicate max_nfs_per_service 0;
  cores = three_cores;
}

pub empty-IsConsistent : IsConsistent empty
empty-IsConsistent = record {
  mapped = record {
    ids = λ s. [];
    rows = λ s. record { nonzero = refl; fits = omega arith; entries = refl };
    counts = λ s. refl;
    exact = λ s i. refl;
    slots = λ i. inl refl;
    reserved = refl;
    bounded = λ i. inl refl;
    unpaused = λ i. refl;
  };
  ahead = omega arith;
}

-- An NF of service 4 asks for an id and a core of its own, and becomes ready.
abbrev pub request : InitCfg
request = record {
  instance_id = nf_no_id;
  service_id = 4;
  status = 0;
  core = 0;
  init_options = alone;
  time_to_live = 0;
  pkt_limit = 0;
}

abbrev pub answer : Started
answer = record {
  ret = 0;
  cfg = record request { instance_id = 1; core = 2; status = nf_starting };
  mgr = record empty {
    next_instance_id = 2;
    cores = granted.cores;
    nfs = λ i.
        if i == 1
        then record no_nf { instance_id = 1; service_id = 4; status = nf_starting; core = 2 }
        else no_nf;
  };
}

pub answered : start request empty ≡ some answer
unfolding start start_as next_id find_id get_core get_automatic find_best
answered = refl

abbrev pub running : Mgr
running = map_nf 1 answer.mgr

pub became_ready : ready 1 answer.mgr ≡ some (true, running)
unfolding ready
became_ready = refl

pub history : Reach empty running
history =
    next (next here (starting_nf request empty answer (omega arith) answered))
      (nf_ready 1 true answer.mgr running became_ready)

-- A chain with one hop
abbrev pub one_hop : Chain
one_hop = record {
  sc =
      record { destination = 0; action = 0 }
      ∷ record { destination = 4; action = 2 }
      ∷ record { destination = 0; action = 0 }
      ∷ record { destination = 0; action = 0 }
      ∷ [];
  chain_length = 1;
}
