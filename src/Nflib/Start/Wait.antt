-- ===== src/Nflib/Start/Wait.antt =====
-- How long onvm_nflib_start_nf of onvm/onvm_nflib/onvm_nflib.c waits for the manager.
use afxdp_path_manager.Common.{
  ℕ, zero, suc, ◌+◌, ◌≤◌, ◌<◌, ◌≡◌, ◌≢◌, ◌⊎◌, refl, sym, ap, ◌∙◌, inl, inr, Bool, true, false, ◌==◌,
  Bool-cases, arith, false≢true,
}
use afxdp_path_manager.Nflib.{nf_waiting_for_id, nf_starting, CallResult, returns}
use afxdp_path_manager.Nflib.Start.{
  nf_term_init_iter_times, wait_for_mgr, WaitEnd, answered, terminated, wait_for_id,
}

-- The inner loop gives the manager at most so many more rounds, and ends early just with an id.
pub wait_for_mgr-bound :
    (left : ℕ) (status : ℕ → ℕ) (now : ℕ)
    → let end = wait_for_mgr left status now in
      (now ≤ end) × (end ≤ now + left) × ((status end ≡ nf_starting) ⊎ (end ≡ now + left))
unfolding wait_for_mgr
wait_for_mgr-bound zero status now = (omega arith, omega arith, inr (omega arith))
wait_for_mgr-bound (suc left) status now = elim (Bool-cases (status now == nf_starting)) [
  | inl e ↦ rw e (omega arith, omega arith, inl (ground (arith, e)))
  | inr e ↦
      let (early, late, why) = wait_for_mgr-bound left status (now + 1) in
      rw e (
        omega (arith, early),
        omega (arith, late),
        elim why [ inl h ↦ inl h | inr h ↦ inr (omega (arith, h)) ],
      )
]

-- Either the manager has answered, or the flag is down.
abbrev pub IsOver : (ℕ → ℕ) → (ℕ → Bool) → ℕ → Type 0
IsOver status keep_running now = (status now ≢ nf_waiting_for_id) ⊎ (keep_running (now + 1) ≡ false)

-- When the wait ends, the manager has answered, or a signal came and the manager got its rounds.
pub data Ended (status : ℕ → ℕ) (keep_running : ℕ → Bool) (limit : ℕ) : WaitEnd → Type 0 where
  by_answer :
      {now : ℕ}
      → now ≤ limit
      → status now ≢ nf_waiting_for_id
      → Ended status keep_running limit (answered now)
  by_signal :
      {now end : ℕ}
      → now ≤ limit
      → keep_running (now + 1) ≡ false
      → end ≤ now + 1 + nf_term_init_iter_times
      → (status end ≡ nf_starting) ⊎ (end ≡ now + 1 + nf_term_init_iter_times)
      → Ended status keep_running limit (terminated end)

module _ (status : ℕ → ℕ) (keep_running : ℕ → Bool) (limit : ℕ) where
  abbrev pub Ends : CallResult WaitEnd → Type 0
  Ends o = (w : WaitEnd) × (o ≡ returns w) × Ended status keep_running limit w

  wait_for_id-step :
      (seconds now : ℕ)
      → now ≤ limit
      → (status now ≡ nf_waiting_for_id
          → keep_running (now + 1) ≡ true
          → Ends (wait_for_id seconds status keep_running (now + 1)))
      → Ends (wait_for_id (suc seconds) status keep_running now)
  unfolding wait_for_id
  wait_for_id-step seconds now h later = elim (Bool-cases (status now == nf_waiting_for_id)) [
    | inr e ↦ rw e (answered now, refl, by_answer h (λ s. ground (arith, e, s)))
    | inl e ↦ elim (Bool-cases (keep_running (now + 1))) [
      | inr k ↦
          let (early, late, why) = wait_for_mgr-bound nf_term_init_iter_times status (now + 1) in
          let end = wait_for_mgr nf_term_init_iter_times status (now + 1) in
          rw (e, k) (terminated end, refl, by_signal h k late why)
      | inl k ↦ rw (e, k) (later (ground (arith, e)) k)
    ]
  ]

  -- With more seconds than pass until the wait is over, it ends.
  pub wait_for_id-Ends :
      (seconds now : ℕ)
      → now ≤ limit
      → limit < now + seconds
      → IsOver status keep_running limit
      → Ends (wait_for_id seconds status keep_running now)
  wait_for_id-Ends zero now h l over = absurd (omega (arith, h, l))
  wait_for_id-Ends (suc seconds) now h l over = elim (Bool-cases (now == limit)) [
    | inl e ↦
        let here : now ≡ limit = ground (arith, e) in
        wait_for_id-step seconds now h (λ s k. elim over [
          | inl ne ↦ absurd (ne (ap status (sym here) ∙ s))
          | inr down ↦
              absurd (false≢true (sym down ∙ ap (λ t. keep_running (t + 1)) (sym here) ∙ k))
        ])
    | inr e ↦
        wait_for_id-step seconds now h
          (λ s k. wait_for_id-Ends seconds (now + 1) (ground (arith, e, h)) (omega (arith, l)) over)
  ]
