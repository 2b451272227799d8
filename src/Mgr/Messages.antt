-- ===== src/Mgr/Messages.antt =====
-- The messages that NFs send to the manager: onvm_nf_check_status of onvm/onvm_mgr/onvm_nf.c, for the messages that
-- were in the queue. A message carries the slot of its NF. What the requests for LPM tables and flow tables do
-- leaves the table of NFs alone. `none` is an exit or an access out of bounds.
use afxdp_path_manager.Common.{
  ℕ, ◌≡◌, ◌≢◌, refl, ap, subst, Bool, true, List, [], ◌∷◌, ◌++◌, Option, none, some, ◌>>=◌,
  bind-some,
}
use afxdp_path_manager.Mgr.Services.{InitCfg, Mgr, Started, start, ready, stop}
use afxdp_path_manager.Mgr.Services.History.{
  IsConsistent, starting_nf, nf_ready, nf_stopping, Reach, here, next, Reach-IsConsistent,
}

-- `msg_type` and `msg_data`
pub data Msg : Type 0 where
  msg_request_lpm_region : Msg
  msg_request_ft : Msg
  msg_nf_starting : InitCfg → Msg
  msg_nf_ready : ℕ → Msg
  -- `none` is NULL.
  msg_nf_stopping : Option ℕ → Msg

-- The manager, and what it has written into the requests of starting NFs, in order
pub record Served : Type 0 where
  pub mgr : Mgr
  pub answers : List InitCfg

module _ (shutdown_core_reassignment pool_found : Bool) where
  -- The body of the loop
  unfoldable pub serve : Msg → Served → Option Served
  serve msg_request_lpm_region s = some s
  serve msg_request_ft s = some s
  serve (msg_nf_starting cfg) s =
      start cfg s.mgr >>= λ r. some (record { mgr = r.mgr; answers = s.answers ++ r.cfg ∷ [] })
  serve (msg_nf_ready id) s = ready id s.mgr >>= λ r. some (record s { mgr = r.1 })
  serve (msg_nf_stopping none) s = some s
  serve (msg_nf_stopping (some id)) s =
      stop shutdown_core_reassignment pool_found id s.mgr >>= λ r. some (record s { mgr = r.1 })

  -- onvm_nf_check_status
  unfoldable pub check_status : List Msg → Served → Option Served
  unfolding serve
  check_status [] s = some s
  check_status (msg ∷ msgs) s = serve msg s >>= check_status msgs

-- No NF asks for the reserved id 0.
abbrev pub IsAllowed : Msg → Type 0
IsAllowed (msg_nf_starting cfg) = cfg.instance_id ≢ 0
IsAllowed msg = msg ≡ msg

pub data AllAllowed : List Msg → Type 0 where
  no_msg : AllAllowed []
  one_more :
      {msg : Msg} {msgs : List Msg} → IsAllowed msg → AllAllowed msgs → AllAllowed (msg ∷ msgs)

Reach-trans : {m n k : Mgr} → Reach m n → Reach n k → Reach m k
Reach-trans r here = r
Reach-trans r (next q t) = next (Reach-trans r q) t

same_mgr : {s t : Served} → some s ≡ some t → s.mgr ≡ t.mgr
same_mgr {s} {t} e = ap (λ o. elim o [ none ↦ s.mgr | some r ↦ r.mgr ]) e

module _ (reassigns : Bool) where
  serve-Reach :
      (msg : Msg) (s t : Served)
      → IsAllowed msg
      → serve reassigns true msg s ≡ some t
      → Reach s.mgr t.mgr
  unfolding serve
  serve-Reach msg_request_lpm_region s t a e = subst (Reach s.mgr) (same_mgr e) here
  serve-Reach msg_request_ft s t a e = subst (Reach s.mgr) (same_mgr e) here
  serve-Reach (msg_nf_starting cfg) s t a e =
      let (r, f, g) =
        bind-some (start cfg s.mgr)
          (λ (r : Started). some (record { mgr = r.mgr; answers = s.answers ++ r.cfg ∷ [] })) t e in
      subst (Reach s.mgr) (same_mgr g) (next here (starting_nf cfg s.mgr r a f))
  serve-Reach (msg_nf_ready id) s t a e =
      let ((ret, m), f, g) =
        bind-some (ready id s.mgr) (λ (r : Bool × Mgr). some (record s { mgr = r.1 })) t e in
      subst (Reach s.mgr) (same_mgr g) (next here (nf_ready id ret s.mgr m f))
  serve-Reach (msg_nf_stopping none) s t a e = subst (Reach s.mgr) (same_mgr e) here
  serve-Reach (msg_nf_stopping (some id)) s t a e =
      let ((ret, m), f, g) =
        bind-some (stop reassigns true id s.mgr) (λ (r : Bool × Mgr). some (record s { mgr = r.1 }))
          t e in
      subst (Reach s.mgr) (same_mgr g)
        (next here (nf_stopping reassigns true id ret s.mgr m refl f))

  check_status-Reach :
      (msgs : List Msg) (s t : Served)
      → AllAllowed msgs
      → check_status reassigns true msgs s ≡ some t
      → Reach s.mgr t.mgr
  unfolding check_status
  check_status-Reach [] s t a e = subst (Reach s.mgr) (same_mgr e) here
  check_status-Reach (msg ∷ msgs) s t (one_more a others) e =
      let (r, f, g) =
        bind-some (serve reassigns true msg s) (check_status reassigns true msgs) t e in
      Reach-trans (serve-Reach msg s r a f) (check_status-Reach msgs r t others g)

  -- From a consistent manager, whatever messages are in the queue: when onvm_nf_check_status has served them, each row
  -- of the service map still lists the NFs that are ready, each once, and the counts agree, unless it exits or
  -- writes out of bounds. No NF asks for the id 0, and the pool of NF records is found.
  pub check_status-IsConsistent :
      (msgs : List Msg) (s t : Served)
      → AllAllowed msgs
      → IsConsistent s.mgr
      → check_status reassigns true msgs s ≡ some t
      → IsConsistent t.mgr
  check_status-IsConsistent msgs s t a c e = Reach-IsConsistent c (check_status-Reach msgs s t a e)
