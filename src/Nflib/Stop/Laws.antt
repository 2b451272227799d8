-- ===== src/Nflib/Stop/Laws.antt =====
-- The memory of an NF from onvm_nflib_start_nf to onvm_nflib_stop of onvm/onvm_nflib/onvm_nflib.c.
use afxdp_path_manager.Common.{
  ℕ, ◌≡◌, refl, ap, ◌∙◌, Bool, true, false, [], ◌∷◌, ◌++◌, none, some, ◌==◌, ℤ, arith, update,
}
use afxdp_path_manager.Nflib.{NfSlot, LocalCtx, stopping, Process, returns, release, set_nf}
use afxdp_path_manager.Nflib.Stop.{
  free_tx_mgr, free_state_data, free_function_table, terminate_children, StopAnswers, cleanup, stop,
}
use afxdp_path_manager.Nflib.Stop.Children.{IsWoken, IsWoken-field, terminate_children-Waits}

-- Another block
abbrev pub IsOther : ℕ → ℕ → Type 0
IsOther a b = (a == b) ≡ false

pub update_self : (nfs : ℕ → NfSlot) (id : ℕ) (nf : NfSlot) → update nfs id nf id ≡ nf
update_self nfs id nf = let same : (id == id) ≡ true = ground arith in rw same refl

-- A step of the cleanup: it leaves alone what was sent and given back, `left` is the memory then, and another NF keeps its functions.
pub record Frees (p : Process) (id : ℕ) (left : ℕ → Bool) (q : Process) : Type 0 where
  pub to_mgr : q.to_mgr ≡ p.to_mgr
  pub cfgs_back : q.cfgs_back ≡ p.cfgs_back
  pub live : q.live ≡ left
  pub others : (j : ℕ) → IsOther j id → (q.nfs j).function_table ≡ (p.nfs j).function_table

pub free_state_data-none :
    (p : Process) (id : ℕ)
    → (p.nfs id).state_data ≡ none
    → (q : Process) × (free_state_data id p ≡ returns q)
      × Frees p id p.live q
      × ((q.nfs id).nf_tx_mgr ≡ (p.nfs id).nf_tx_mgr)
      × ((q.nfs id).function_table ≡ (p.nfs id).function_table)
unfolding free_state_data
free_state_data-none p id e =
    let nf : NfSlot = record (p.nfs id) { state_data = none } in
    let self = update_self p.nfs id nf in
    (
      set_nf id nf p,
      rw e refl,
      record { to_mgr = refl; cfgs_back = refl; live = refl; others = λ j h. rw h refl },
      ap (λ n. n.nf_tx_mgr) self,
      ap (λ n. n.function_table) self,
    )

-- The queue manager with its buffers
abbrev pub without_mgr : (ℕ → Bool) → ℕ → ℕ → ℕ → ℕ → Bool
without_mgr live m b bs = update (update (update live b false) bs false) m false

free_tx_mgr-some :
    (p : Process) (id m i b bs : ℕ)
    → (p.nfs id).nf_tx_mgr
      ≡ some (record { addr = m; id = i; to_tx_buf = some b; nf_rx_bufs = some bs })
    → p.live m ≡ true
    → p.live b ≡ true
    → p.live bs ≡ true
    → IsOther bs b
    → IsOther m b
    → IsOther m bs
    → (q : Process) × (free_tx_mgr id p ≡ returns q)
      × Frees p id (without_mgr p.live m b bs) q
      × ((q.nfs id).function_table ≡ (p.nfs id).function_table)
unfolding free_tx_mgr release
free_tx_mgr-some p id m i b bs e lm lb lbs bsb mb mbs =
    let nf : NfSlot = record (p.nfs id) { nf_tx_mgr = none } in
    (
      set_nf id nf (record p { live = without_mgr p.live m b bs }),
      rw (free_tx_mgr, e, lm, lb, bsb, lbs, mbs, mb, lm) refl,
      record { to_mgr = refl; cfgs_back = refl; live = refl; others = λ j h. rw h refl },
      ap (λ n. n.function_table) (update_self p.nfs id nf),
    )

free_function_table-some :
    (p : Process) (id t : ℕ) (h : Bool)
    → (p.nfs id).function_table ≡ some (record { addr = t; pkt_handler = h })
    → p.live t ≡ true
    → (q : Process) × (free_function_table id p ≡ returns q) × Frees p id (update p.live t false) q
unfolding free_function_table release
free_function_table-some p id t h e lt = (
  set_nf id (record (p.nfs id) { function_table = none })
      (record p { live = update p.live t false }),
  rw (free_function_table, e, lt) refl,
  record { to_mgr = refl; cfgs_back = refl; live = refl; others = λ j h. rw h refl },
)

-- What an NF owns when it stops: its queue manager `m` with the buffers `b` and `bs`, its function table `t`, and its
-- context `c`, all of them different blocks, and no state data
pub record Owns (p : Process) (id m b bs t c : ℕ) : Type 0 where
  pub no_data : (p.nfs id).state_data ≡ none
  pub own_id : ℕ
  pub handler : Bool
  pub manager :
      (p.nfs id).nf_tx_mgr
      ≡ some (record { addr = m; id = own_id; to_tx_buf = some b; nf_rx_bufs = some bs })
  pub table : (p.nfs id).function_table ≡ some (record { addr = t; pkt_handler = handler })
  pub live_m : p.live m ≡ true
  pub live_b : p.live b ≡ true
  pub live_bs : p.live bs ≡ true
  pub live_t : p.live t ≡ true
  pub live_c : p.live c ≡ true
  pub other_bs : IsOther bs b
  pub other_m : IsOther m b × IsOther m bs
  pub other_t : IsOther t b × IsOther t bs × IsOther t m
  pub other_c : IsOther c b × IsOther c bs × IsOther c m × IsOther c t

unfoldable pub IsGood : StopAnswers → Type 0
IsGood a = (a.queue_found ≡ true) × (a.msg_got ≡ true) × (a.enqueued ≡ true)

abbrev pub without_all : (ℕ → Bool) → ℕ → ℕ → ℕ → ℕ → ℕ → ℕ → Bool
without_all live m b bs t c = update (update (without_mgr live m b bs) t false) c false

pub cleanup-frees :
    (a : StopAnswers) (ctx : LocalCtx) (p : Process) (id m b bs t : ℕ)
    → IsGood a
    → ctx.nf_init_finished ≡ true
    → ctx.nf ≡ some id
    → Owns p id m b bs t ctx.addr
    → (z : Process) × (cleanup a ctx p ≡ returns z)
      × (z.to_mgr ≡ p.to_mgr ++ stopping id ∷ [])
      × (z.cfgs_back ≡ p.cfgs_back)
      × (z.live ≡ without_all p.live m b bs t ctx.addr)
      × ((j : ℕ) → IsOther j id → (z.nfs j).function_table ≡ (p.nfs j).function_table)
unfolding cleanup release IsGood
cleanup-frees a ctx p id m b bs t (found, got, queued) finished nf o =
    let (q, e, f, mgr, table) = free_state_data-none p id o.no_data in
    let (r, e', f', table') =
      free_tx_mgr-some q id m o.own_id b bs (mgr ∙ o.manager) (ap (λ l. l m) f.live ∙ o.live_m)
        (ap (λ l. l b) f.live ∙ o.live_b) (ap (λ l. l bs) f.live ∙ o.live_bs) o.other_bs o.other_m.0
        o.other_m.1 in
    let rest : r.live ≡ without_mgr p.live m b bs =
      f'.live ∙ ap (λ l. without_mgr l m b bs) f.live in
    let live_t : r.live t ≡ true =
      ap (λ l. l t) rest ∙ rw (o.other_t.2, o.other_t.1, o.other_t.0) o.live_t in
    let (s, e'', f'') =
      free_function_table-some r id t o.handler (table' ∙ table ∙ o.table) live_t in
    let all : s.live ≡ update (without_mgr p.live m b bs) t false =
      f''.live ∙ ap (λ l. update l t false) rest in
    let live_c : s.live ctx.addr ≡ true =
      ap (λ l. l ctx.addr) all ∙ rw (o.other_c.3, o.other_c.2, o.other_c.1, o.other_c.0) o.live_c in
    (
      record s { to_mgr = s.to_mgr ++ stopping id ∷ []; live = update s.live ctx.addr false },
      simp (finished, nf, e, e', e'', found, got, queued, live_c) refl,
      ap (λ l. l ++ stopping id ∷ []) (f''.to_mgr ∙ f'.to_mgr ∙ f.to_mgr),
      f''.cfgs_back ∙ f'.cfgs_back ∙ f.cfgs_back,
      ap (λ l. update l ctx.addr false) all,
      λ j h. f''.others j h ∙ f'.others j h ∙ f.others j h,
    )

-- Waking the children changes nothing of this.
Owns-same :
    {p q : Process} {which : ℕ → Bool} {id m b bs t c : ℕ}
    → IsWoken which p q
    → Owns p id m b bs t c
    → Owns q id m b bs t c
Owns-same {p} {q} {id} {m} {b} {bs} {t} {c} same o =
    let there : (x : ℕ) → p.live x ≡ true → q.live x ≡ true = λ x h. ap (λ l. l x) same.live ∙ h in
    record {
      no_data = IsWoken-field (λ nf. nf.state_data) same (λ nf. refl) id ∙ o.no_data;
      own_id = o.own_id;
      handler = o.handler;
      manager = IsWoken-field (λ nf. nf.nf_tx_mgr) same (λ nf. refl) id ∙ o.manager;
      table = IsWoken-field (λ nf. nf.function_table) same (λ nf. refl) id ∙ o.table;
      live_m = there m o.live_m;
      live_b = there b o.live_b;
      live_bs = there bs o.live_bs;
      live_t = there t o.live_t;
      live_c = there c o.live_c;
      other_bs = o.other_bs;
      other_m = o.other_m;
      other_t = o.other_t;
      other_c = o.other_c;
    }

pub stop-frees :
    (share_cores : Bool) (children : ℕ → ℤ) (a : StopAnswers) (ctx : LocalCtx) (p : Process)
    (id m b bs t : ℕ)
    → IsGood a
    → ctx.nf_init_finished ≡ true
    → ctx.nf_stopped ≡ false
    → ctx.nf ≡ some id
    → Owns p id m b bs t ctx.addr
    → (z : Process) × (stop share_cores children a ctx p ≡ returns z)
      × (z.to_mgr ≡ p.to_mgr ++ stopping id ∷ [])
      × (z.cfgs_back ≡ p.cfgs_back)
      × (z.live ≡ without_all p.live m b bs t ctx.addr)
      × ((j : ℕ) → IsOther j id → (z.nfs j).function_table ≡ (p.nfs j).function_table)
unfolding stop
stop-frees share_cores children a ctx p id m b bs t good finished fresh nf o =
    let q = (terminate_children share_cores id children p).0 in
    let (bound, why, same) = terminate_children-Waits share_cores id children p in
    let marked : LocalCtx = record ctx { nf = some id; nf_stopped = true } in
    let (z, e, sent, back, live, others) =
      cleanup-frees a marked q id m b bs t good finished refl (Owns-same same o) in
    (
      z,
      simp (o.live_c, nf, fresh) e,
      sent ∙ ap (λ l. l ++ stopping id ∷ []) same.to_mgr,
      back ∙ same.cfgs_back,
      live ∙ ap (λ l. without_all l m b bs t ctx.addr) same.live,
      λ j h. others j h ∙ IsWoken-field (λ nf. nf.function_table) same (λ nf. refl) j,
    )
