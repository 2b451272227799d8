-- ===== src/Nflib/Start/Laws.antt =====
-- What onvm_nflib_start_nf of onvm/onvm_nflib/onvm_nflib.c returns, and what it leaves behind.
use afxdp_path_manager.Common.{
  ℕ, zero, suc, ◌+◌, ◌≤◌, ◌<◌, ◌≡◌, ◌≢◌, ◌⊎◌, refl, sym, ap, ◌∙◌, inl, inr, true, false, ◌&&◌, [],
  ◌∷◌, ◌++◌, Option, none, some, leb, ◌==◌, Bool-cases, pos, negsuc, if◌then◌else◌, arith,
  false≢true,
}
use afxdp_path_manager.Nflib.{
  nf_waiting_for_id, nf_starting, nf_id_conflict, nf_core_busy, onvm_signal_termination, LocalCtx,
  starting, Process, returns, release,
}
use afxdp_path_manager.Nflib.Start.{
  nf_term_init_iter_times, Answers, WaitEnd, nf_tx_mgr_init, init_shared_core_mode_info, refusal,
  NfStart, mark_finished, clear_nf, finish_init, after_wait, start_nf,
}
use afxdp_path_manager.Nflib.Start.Wait.{IsOver, Ended, by_answer, by_signal, wait_for_id-Ends}

refusal-neg : (status : ℕ) → (n : ℕ) × (refusal status ≡ negsuc n) × (n ≢ 998)
unfolding refusal
refusal-neg zero = (0, refl, ground arith)
refusal-neg (suc n) = elim (Bool-cases (leb nf_id_conflict (suc n) && leb (suc n) nf_core_busy)) [
  | inl e ↦ rw e (n, refl, ground (arith, e))
  | inr e ↦ rw e (0, refl, ground arith)
]

pub refusal≢zero : (status : ℕ) → refusal status ≢ pos 0
refusal≢zero status e =
    let (n, is, ne) = refusal-neg status in
    false≢true (ap (λ i. elim i [ pos n ↦ true | negsuc n ↦ false ]) (sym is ∙ e))

-- Two allocations have different addresses.
abbrev pub AreApart : Option ℕ → Option ℕ → Type 0
AreApart a b = (m n : ℕ) → a ≡ some m → b ≡ some n → m ≢ n

-- The queue manager's set-up returns, whatever the allocations answer, and sends and gives back nothing.
nf_tx_mgr_init-returns :
    (m b bs : Option ℕ) (id : ℕ) (p : Process)
    → AreApart m b
    → (q : Process) × (nf_tx_mgr_init m b bs id p ≡ returns q)
      × (q.to_mgr ≡ p.to_mgr)
      × (q.cfgs_back ≡ p.cfgs_back)
unfolding nf_tx_mgr_init release
nf_tx_mgr_init-returns none b bs id p apart = (_, refl, refl, refl)
nf_tx_mgr_init-returns (some m) none bs id p apart =
    let same : (m == m) ≡ true = ground arith in rw same (_, refl, refl, refl)
nf_tx_mgr_init-returns (some m) (some b) none id p apart =
    let ne = apart m b refl refl in
    let same : (b == b) ≡ true = ground arith in
    let other : (m == b) ≡ false = ground (arith, ne) in
    let own : (m == m) ≡ true = ground arith in rw (same, other, own) (_, refl, refl, refl)
nf_tx_mgr_init-returns (some m) (some b) (some bs) id p apart = (_, refl, refl, refl)

-- Without shared cores, or when the semaphore and the segment of the manager are found
abbrev pub HasShared : Answers → Type 0
HasShared a = (a.share_cores ≡ false) ⊎ (a.shared ≡ (true, true, true))

-- How an NF starts that the manager has accepted
pub record Accepted (a : Answers) (ctx : LocalCtx) (p : Process) (r : NfStart) : Type 0 where
  pub ret : r.ret ≡ pos 0
  pub finished : r.ctx.nf_init_finished ≡ true
  pub slot : ctx.nf_init_finished ≡ false → r.ctx.nf ≡ some a.instance_id
  pub sent : r.process.to_mgr ≡ p.to_mgr
  pub given_back : r.process.cfgs_back ≡ suc p.cfgs_back

pub clear_shared :
    (a : Answers) (q : Process)
    → HasShared a
    → (if a.share_cores then init_shared_core_mode_info a.shared q else returns q) ≡ returns q
unfolding init_shared_core_mode_info
clear_shared a q (inl e) = rw e refl
clear_shared a q (inr e) = elim (Bool-cases a.share_cores) [
  | inl s ↦ rw s (ap (λ t. init_shared_core_mode_info t q) e)
  | inr s ↦ rw s refl
]

mark_finished-slot :
    (id : ℕ) (ctx : LocalCtx)
    → ((mark_finished id ctx).nf_init_finished ≡ true)
      × (ctx.nf_init_finished ≡ false → (mark_finished id ctx).nf ≡ some id)
mark_finished-slot id ctx = elim (Bool-cases ctx.nf_init_finished) [
  | inl e ↦ rw e (refl, λ no. absurd (false≢true (sym no)))
  | inr e ↦ rw e (refl, λ _. refl)
]

finish_init-returns :
    (a : Answers) (ctx : LocalCtx) (p : Process)
    → AreApart a.tx_mgr a.to_tx_buf
    → HasShared a
    → (r : NfStart) × (finish_init a ctx p ≡ returns r) × Accepted a ctx p r
unfolding finish_init
finish_init-returns a ctx p apart shared =
    let (q, e, sent, back) =
      nf_tx_mgr_init-returns a.tx_mgr a.to_tx_buf a.nf_rx_bufs a.instance_id
        (record p { cfgs_back = suc p.cfgs_back }) apart in
    let (finished, slot) = mark_finished-slot a.instance_id ctx in
    rw (e, clear_shared a (clear_nf a.instance_id q) shared)
      (
        _,
        refl,
        record { ret = refl; finished = finished; slot = slot; sent = sent; given_back = back },
      )

-- The process when the manager has been asked
abbrev pub asked : Process → Process
asked p = record p { to_mgr = p.to_mgr ++ starting ∷ [] }

-- How the call ends when the wait is over at `limit`: the NF starts; the manager refuses it, and the call tells why;
-- or a signal came, and the context knows the NF if the manager has assigned an id within some seconds more. The
-- start-up struct is given back but for a signal.
pub data Result (a : Answers) (ctx : LocalCtx) (p : Process) (limit : ℕ) : NfStart → Type 0 where
  accepted :
      {r : NfStart} {now : ℕ}
      → now ≤ limit
      → a.status now ≡ nf_starting
      → Accepted a ctx (asked p) r
      → Result a ctx p limit r
  refused :
      {r : NfStart} {now : ℕ}
      → now ≤ limit
      → a.status now ≢ nf_waiting_for_id
      → a.status now ≢ nf_starting
      → r.ret ≡ refusal (a.status now)
      → r.ctx ≡ ctx
      → r.process ≡ record (asked p) { cfgs_back = suc p.cfgs_back }
      → Result a ctx p limit r
  signalled :
      {r : NfStart} {end : ℕ}
      → end ≤ limit + 1 + nf_term_init_iter_times
      → r.ret ≡ onvm_signal_termination
      → r.process ≡ asked p
      → ((a.status end ≡ nf_starting) × (r.ctx.nf ≡ some a.instance_id))
        ⊎ ((a.status end ≢ nf_starting) × (r.ctx ≡ ctx))
      → Result a ctx p limit r

module _ (a : Answers) (ctx : LocalCtx) (p : Process) (limit : ℕ) where
  after_wait-Result :
      {w : WaitEnd}
      → AreApart a.tx_mgr a.to_tx_buf
      → HasShared a
      → Ended a.status a.keep_running limit w
      → (r : NfStart) × (after_wait a ctx (asked p) w ≡ returns r) × Result a ctx p limit r
  unfolding after_wait
  after_wait-Result apart shared (by_answer {now} h s) =
      elim (Bool-cases (a.status now == nf_starting)) [
        | inl e ↦
            let (r, is, good) = finish_init-returns a ctx (asked p) apart shared in
            rw (e, is) (r, refl, accepted h (ground (arith, e)) good)
        | inr e ↦ rw e (_, refl, refused h s (λ f. ground (arith, e, f)) refl refl refl)
      ]
  after_wait-Result apart shared (by_signal {now} {end} h k late why) =
      elim (Bool-cases (a.status end == nf_starting)) [
        | inl e ↦ rw e (
          _,
          refl,
          signalled {end = end} (omega (arith, h, late)) refl refl (inl (ground (arith, e), refl)),
        )
        | inr e ↦ rw e (
          _,
          refl,
          signalled {end = end} (omega (arith, h, late)) refl refl
              (inr (λ f. ground (arith, e, f), refl)),
        )
      ]

  -- Let the library be able to ask the manager, let the wait be over at some time, be it by an answer or by a signal,
  -- and let the call be given more seconds than that. Then onvm_nflib_start_nf returns with a `Result`.
  pub start_nf-Result :
      (seconds : ℕ)
      → a.masked ≡ true
      → a.keep_running 0 ≡ true
      → a.msg_got ≡ true
      → a.enqueued ≡ true
      → AreApart a.tx_mgr a.to_tx_buf
      → HasShared a
      → IsOver a.status a.keep_running limit
      → limit < seconds
      → (r : NfStart) × (start_nf seconds a ctx p ≡ returns r) × Result a ctx p limit r
  unfolding start_nf
  start_nf-Result seconds m k g q apart shared over enough =
      let (w, is, ended) =
        wait_for_id-Ends a.status a.keep_running limit seconds 0 (omega arith)
          (omega (arith, enough)) over in
      simp (m, k, g, q, is) (after_wait-Result apart shared ended)
