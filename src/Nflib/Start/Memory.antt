-- ===== src/Nflib/Start/Memory.antt =====
-- The memory that an NF has when onvm_nflib_start_nf of onvm/onvm_nflib/onvm_nflib.c has returned 0.
use afxdp_path_manager.Common.{
  ℕ, suc, ◌≡◌, ◌≢◌, refl, sym, ap, ◌∙◌, inl, inr, true, false, some, ◌==◌, Bool-cases, pos, negsuc,
  false≢true,
}
use afxdp_path_manager.Nflib.{
  nf_starting, TxMgr, LocalCtx, Process, returns, returns-injective, and_then-returns,
  exits≢returns, acquire, set_nf,
}
use afxdp_path_manager.Nflib.Start.{
  Answers, WaitEnd, answered, terminated, wait_for_id, nf_tx_mgr_init, mark_finished, clear_nf,
  NfStart, finish_init, after_wait, start_nf,
}
use afxdp_path_manager.Nflib.Start.Laws.{asked, refusal≢zero, HasShared, clear_shared}

signal≢zero : {n m : ℕ} → negsuc n ≢ pos m
signal≢zero e = false≢true (ap (λ i. elim i [ pos n ↦ true | negsuc n ↦ false ]) e)

early≢zero :
    {n : ℕ} {ctx : LocalCtx} {p : Process} {r : NfStart}
    → returns (record { ret = negsuc n; ctx = ctx; process = p }) ≡ returns r
    → r.ret ≢ pos 0
early≢zero e z = signal≢zero (ap (λ (s : NfStart). s.ret) (returns-injective e) ∙ z)

-- A call that returns 0 has got to the end.
after_wait-finish :
    (a : Answers) (ctx : LocalCtx) (p : Process) (w : WaitEnd) (r : NfStart)
    → after_wait a ctx p w ≡ returns r
    → r.ret ≡ pos 0
    → finish_init a ctx p ≡ returns r
unfolding after_wait
after_wait-finish a ctx p (terminated now) r e z =
    absurd (signal≢zero (ap (λ (s : NfStart). s.ret) (returns-injective e) ∙ z))
after_wait-finish a ctx p (answered now) r e z = elim (Bool-cases (a.status now == nf_starting)) [
  | inl s ↦ simp s at e
  | inr s ↦ absurd (
      refusal≢zero (a.status now)
        (ap (λ (s : NfStart). s.ret) (returns-injective (simp s at e)) ∙ z))
]

pub start_nf-finish :
    (seconds : ℕ) (a : Answers) (ctx : LocalCtx) (p : Process) (r : NfStart)
    → start_nf seconds a ctx p ≡ returns r
    → r.ret ≡ pos 0
    → finish_init a ctx (asked p) ≡ returns r
unfolding start_nf
start_nf-finish seconds a ctx p r e z = elim (Bool-cases a.masked) [
  | inr m ↦ absurd (early≢zero (simp m at e) z)
  | inl m ↦ elim (Bool-cases (a.keep_running 0)) [
    | inr k ↦ absurd (early≢zero (simp (m, k) at e) z)
    | inl k ↦ elim (Bool-cases a.msg_got) [
      | inr g ↦ absurd (exits≢returns (simp (m, k, g) at e))
      | inl g ↦ elim (Bool-cases a.enqueued) [
        | inr q ↦ absurd (exits≢returns (simp (m, k, g, q) at e))
        | inl q ↦
            let (w, is, rest) =
              and_then-returns (wait_for_id seconds a.status a.keep_running 0)
                (after_wait a ctx (asked p)) r (simp (m, k, g, q) at e) in
            after_wait-finish a ctx (asked p) w r rest z
      ]
    ]
  ]
]

-- The queue manager with all its parts, in the NF's slot
abbrev pub equip : ℕ → ℕ → ℕ → ℕ → Process → Process
equip m b bs id p =
    let own_id = (p.nfs id).instance_id in
    let tx_mgr : TxMgr = record {
      addr = m;
      id = own_id;
      to_tx_buf = some b;
      nf_rx_bufs = some bs;
    } in
    acquire bs (acquire b (acquire m (set_nf id (record (p.nfs id) { nf_tx_mgr = some tx_mgr }) p)))

tx_mgr-equip :
    (a : Answers) (p : Process) (m b bs : ℕ)
    → a.tx_mgr ≡ some m
    → a.to_tx_buf ≡ some b
    → a.nf_rx_bufs ≡ some bs
    → nf_tx_mgr_init a.tx_mgr a.to_tx_buf a.nf_rx_bufs a.instance_id p
      ≡ returns (equip m b bs a.instance_id p)
unfolding nf_tx_mgr_init
tx_mgr-equip a p m b bs em eb ebs = simp (em, eb, ebs) refl

-- What is left when all three allocations succeed
pub start_nf-equips :
    (seconds : ℕ) (a : Answers) (ctx : LocalCtx) (p : Process) (r : NfStart) (m b bs : ℕ)
    → start_nf seconds a ctx p ≡ returns r
    → r.ret ≡ pos 0
    → HasShared a
    → a.tx_mgr ≡ some m
    → a.to_tx_buf ≡ some b
    → a.nf_rx_bufs ≡ some bs
    → let given = record (asked p) { cfgs_back = suc p.cfgs_back } in
      (r.ctx ≡ mark_finished a.instance_id ctx)
      × (r.process ≡ clear_nf a.instance_id (equip m b bs a.instance_id given))
unfolding finish_init
start_nf-equips seconds a ctx p r m b bs e z shared em eb ebs =
    let given : Process = record (asked p) { cfgs_back = suc p.cfgs_back } in
    let last : NfStart = record {
      ret = pos 0;
      ctx = mark_finished a.instance_id ctx;
      process = clear_nf a.instance_id (equip m b bs a.instance_id given);
    } in
    let got : finish_init a ctx (asked p) ≡ returns last =
      rw
        (
          tx_mgr-equip a given m b bs em eb ebs,
          clear_shared a (clear_nf a.instance_id (equip m b bs a.instance_id given)) shared,
        )
        refl in
    let same = returns-injective (sym got ∙ start_nf-finish seconds a ctx p r e z) in
    (sym (ap (λ (s : NfStart). s.ctx) same), sym (ap (λ (s : NfStart). s.process) same))
