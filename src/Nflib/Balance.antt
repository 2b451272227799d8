-- ===== src/Nflib/Balance.antt =====
-- An NF from onvm_nflib_start_nf to onvm_nflib_stop of onvm/onvm_nflib/onvm_nflib.c: whether each block of memory is
-- freed once.
use afxdp_path_manager.Common.{
  ℕ, suc, ◌≡◌, ◌≢◌, refl, sym, ap, ◌∙◌, inl, inr, Bool, true, false, [], ◌∷◌, ◌++◌, append_assoc,
  none, some, ◌==◌, Bool-cases, ℤ, pos, if◌then◌else◌, arith, update, false≢true,
}
use afxdp_path_manager.Nflib.{FunctionTable, LocalCtx, starting, stopping, Process, returns}
use afxdp_path_manager.Nflib.Start.{
  Answers, NfStart, mark_finished, clear_nf, start_nf, save_function_table,
}
use afxdp_path_manager.Nflib.Start.Laws.{asked, HasShared}
use afxdp_path_manager.Nflib.Start.Memory.{equip, start_nf-equips}
use afxdp_path_manager.Nflib.Stop.{StopAnswers, stop}
use afxdp_path_manager.Nflib.Stop.Laws.{IsOther, Owns, IsGood, without_mgr, without_all, stop-frees}

-- The blocks that are allocated are new and different; the context `c` and the function table `t` are there.
pub record AreNew (p : Process) (m b bs t c : ℕ) : Type 0 where
  pub new_m : p.live m ≡ false
  pub new_b : p.live b ≡ false
  pub new_bs : p.live bs ≡ false
  pub old_t : p.live t ≡ true
  pub old_c : p.live c ≡ true
  pub bs_b : bs ≢ b
  pub m_b : m ≢ b
  pub m_bs : m ≢ bs
  pub c_t : c ≢ t

other : (a b : ℕ) → a ≢ b → IsOther a b
other a b h = ground (arith, h)

new_other : (live : ℕ → Bool) (a b : ℕ) → live a ≡ true → live b ≡ false → IsOther a b
new_other live a b h k = other a b (λ e. false≢true (sym k ∙ ap live (sym e) ∙ h))

old_other : (live : ℕ → Bool) (a b : ℕ) → live a ≡ false → live b ≡ true → IsOther a b
old_other live a b h k = other a b (λ e. false≢true (sym h ∙ ap live e ∙ k))

-- What the NF owns when it runs
equip-Owns :
    (p : Process) (id m b bs : ℕ) (table : FunctionTable) (c : ℕ)
    → (p.nfs id).state_data ≡ none
    → AreNew p m b bs table.addr c
    → Owns (save_function_table id table (clear_nf id (equip m b bs id p))) id m b bs table.addr c
equip-Owns p id m b bs table c e new =
    let t = table.addr in
    let self : (id == id) ≡ true = ground arith in
    let same_m : (m == m) ≡ true = ground arith in
    let same_b : (b == b) ≡ true = ground arith in
    let same_bs : (bs == bs) ≡ true = ground arith in
    let t_b = new_other p.live t b new.old_t new.new_b in
    let t_bs = new_other p.live t bs new.old_t new.new_bs in
    let t_m = new_other p.live t m new.old_t new.new_m in
    let c_b = new_other p.live c b new.old_c new.new_b in
    let c_bs = new_other p.live c bs new.old_c new.new_bs in
    let c_m = new_other p.live c m new.old_c new.new_m in
    let m_b = other m b new.m_b in
    let m_bs = other m bs new.m_bs in
    let bs_b = other bs b new.bs_b in
    let b_bs = other b bs (λ h. new.bs_b (sym h)) in
    record {
      no_data = rw self e;
      own_id = (p.nfs id).instance_id;
      handler = table.pkt_handler;
      manager = rw self refl;
      table = rw self refl;
      live_m = rw (m_bs, m_b, same_m) refl;
      live_b = rw (b_bs, same_b) refl;
      live_bs = rw same_bs refl;
      live_t = rw (t_bs, t_b, t_m) new.old_t;
      live_c = rw (c_bs, c_b, c_m) new.old_c;
      other_bs = bs_b;
      other_m = (m_b, m_bs);
      other_t = (t_b, t_bs, t_m);
      other_c = (c_b, c_bs, c_m, other c t new.c_t);
    }

-- Writing false where there was false, after writing true
rewritten :
    (live : ℕ → Bool) (a x : ℕ)
    → live a ≡ false
    → (value : Bool) → ((x == a) ≡ false → value ≡ live x)
    → (if x == a then false else value) ≡ live x
rewritten live a x h value e = elim (Bool-cases (x == a)) [
  | inl k ↦ let at : x ≡ a = ground (arith, k) in rw k (sym (ap live at ∙ h))
  | inr k ↦ rw k (e k)
]

-- What the NF allocated is gone.
mgr_gone :
    (live : ℕ → Bool) (m b bs x : ℕ)
    → live m ≡ false
    → live b ≡ false
    → live bs ≡ false
    → without_mgr (update (update (update live m true) b true) bs true) m b bs x ≡ live x
mgr_gone live m b bs x hm hb hbs =
    rewritten live m x hm _ (λ km.
      rewritten live bs x hbs _ (λ kbs. rewritten live b x hb _ (λ kb. rw (kbs, kb, km) refl)))

update_cong : (f g : ℕ → Bool) (a x : ℕ) (v : Bool) → f x ≡ g x → update f a v x ≡ update g a v x
update_cong f g a x v e = elim (Bool-cases (x == a)) [ inl k ↦ rw k refl | inr k ↦ rw k e ]

all_gone :
    (live : ℕ → Bool) (m b bs t c x : ℕ)
    → live m ≡ false
    → live b ≡ false
    → live bs ≡ false
    → without_all (update (update (update live m true) b true) bs true) m b bs t c x
      ≡ update (update live t false) c false x
all_gone live m b bs t c x hm hb hbs =
    let taken : ℕ → Bool = update (update (update live m true) b true) bs true in
    let rest : ℕ → Bool = without_mgr taken m b bs in
    update_cong (update rest t false) (update live t false) c x false
      (update_cong rest live t x false (mgr_gone live m b bs x hm hb hbs))

-- Let onvm_nflib_start_nf return 0 after all its allocations, each of a new block. Let the NF get its functions as in
-- onvm_nflib_init, have no state data when it stops, and let the shutdown message get through. Then onvm_nflib_stop frees
-- the function table, the context and all that the start allocated, each once, and nothing else. The manager
-- got one message for the start and one for the stop, and the start-up struct was given back once.
pub stop-start_nf :
    (seconds : ℕ) (a : Answers) (s : StopAnswers) (children : ℕ → ℤ) (ctx : LocalCtx) (p : Process)
    (r : NfStart) (table : FunctionTable) (m b bs : ℕ)
    → start_nf seconds a ctx p ≡ returns r
    → r.ret ≡ pos 0
    → HasShared a
    → a.tx_mgr ≡ some m
    → a.to_tx_buf ≡ some b
    → a.nf_rx_bufs ≡ some bs
    → AreNew p m b bs table.addr ctx.addr
    → ctx.nf_init_finished ≡ false
    → ctx.nf_stopped ≡ false
    → (p.nfs a.instance_id).state_data ≡ none
    → IsGood s
    → (z : Process) × (stop a.share_cores children s r.ctx
          (save_function_table a.instance_id table r.process)
        ≡ returns z)
      × (z.to_mgr ≡ p.to_mgr ++ starting ∷ stopping a.instance_id ∷ [])
      × (z.cfgs_back ≡ suc p.cfgs_back)
      × ((x : ℕ) → z.live x ≡ update (update p.live table.addr false) ctx.addr false x)
stop-start_nf seconds a s children ctx p r table m b bs e zero_ret shared em eb ebs new early fresh
      none_yet good =
    let id = a.instance_id in
    let given : Process = record (asked p) { cfgs_back = suc p.cfgs_back } in
    let (same_ctx, same_process) =
      start_nf-equips seconds a ctx p r m b bs e zero_ret shared em eb ebs in
    let running = save_function_table id table (clear_nf id (equip m b bs id given)) in
    let new' : AreNew given m b bs table.addr ctx.addr = record {
      new_m = new.new_m;
      new_b = new.new_b;
      new_bs = new.new_bs;
      old_t = new.old_t;
      old_c = new.old_c;
      bs_b = new.bs_b;
      m_b = new.m_b;
      m_bs = new.m_bs;
      c_t = new.c_t;
    } in
    let known : LocalCtx = record ctx { nf = some id; nf_init_finished = true } in
    let is_known : mark_finished id ctx ≡ known = rw early refl in
    let (z, is, sent, back, live, others) =
      stop-frees a.share_cores children s known running id m b bs table.addr good refl fresh refl
        (equip-Owns given id m b bs table ctx.addr none_yet new') in
    (
      z,
      ap (λ c. stop a.share_cores children s c (save_function_table id table r.process))
            (same_ctx ∙ is_known)
          ∙ ap (λ q. stop a.share_cores children s known (save_function_table id table q))
              same_process
          ∙ is,
      sent ∙ append_assoc p.to_mgr (starting ∷ []) (stopping id ∷ []),
      back,
      λ x.
          ap (λ l. l x) live
          ∙ all_gone p.live m b bs table.addr ctx.addr x new.new_m new.new_b new.new_bs,
    )
