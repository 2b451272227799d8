-- ===== src/Nflib/Stop/Children.antt =====
-- How long onvm_nflib_terminate_children of onvm/onvm_nflib/onvm_nflib.c waits, whom it wakes, and what it leaves alone.
use afxdp_path_manager.Common.{
  ℕ, zero, suc, ◌+◌, ◌-◌, ◌≤◌, ◌≡◌, ◌⊎◌, refl, sym, ap, ◌∙◌, inl, inr, Bool, true, false, not, ◌&&◌,
  ◌==◌, ltb, lt→ltb, Bool-cases, ℤ, pos, leb_ℤ, if◌then◌else◌, arith,
}
use afxdp_path_manager.Mgr.Services.{max_nfs}
use afxdp_path_manager.Nflib.{nf_running, NfSlot, Process, set_nf}
use afxdp_path_manager.Nflib.Stop.{
  nf_term_stop_iter_times, wake_child, wake_children, terminate_rounds, terminate_children,
}

-- A running child that sleeps
abbrev pub is_due : Bool → ℕ → NfSlot → Bool
is_due share_cores own nf =
    (nf.parent == own) && ((nf.status == nf_running) && (share_cores && nf.sleep_state))

-- An NF that is woken, or left alone
abbrev pub woken_if : Bool → NfSlot → NfSlot
woken_if b nf = if b then record nf { sleep_state = false; nf_mutex = nf.nf_mutex + 1 } else nf

-- Just these NFs are woken, once each, and nothing else is changed.
pub record IsWoken (which : ℕ → Bool) (p q : Process) : Type 0 where
  pub live : q.live ≡ p.live
  pub to_mgr : q.to_mgr ≡ p.to_mgr
  pub cfgs_back : q.cfgs_back ≡ p.cfgs_back
  pub nfs : (j : ℕ) → q.nfs j ≡ woken_if (which j) (p.nfs j)

IsWoken-none : (which : ℕ → Bool) (p : Process) → ((j : ℕ) → which j ≡ false) → IsWoken which p p
IsWoken-none which p h = record {
  live = refl;
  to_mgr = refl;
  cfgs_back = refl;
  nfs = λ j. sym (ap (λ b. woken_if b (p.nfs j)) (h j));
}

IsWoken-trans :
    {v w x : ℕ → Bool} {p q r : Process}
    → IsWoken v p q
    → IsWoken w q r
    → ((j : ℕ) → woken_if (w j) (woken_if (v j) (p.nfs j)) ≡ woken_if (x j) (p.nfs j))
    → IsWoken x p r
IsWoken-trans {w} s t h = record {
  live = t.live ∙ s.live;
  to_mgr = t.to_mgr ∙ s.to_mgr;
  cfgs_back = t.cfgs_back ∙ s.cfgs_back;
  nfs = λ j. t.nfs j ∙ ap (woken_if (w j)) (s.nfs j) ∙ h j;
}

-- A field that waking leaves alone
pub IsWoken-field {ℓ} :
    {A : Type ℓ} {which : ℕ → Bool} {p q : Process} (field : NfSlot → A)
    → IsWoken which p q
    → ((nf : NfSlot)
        → field (record nf { sleep_state = false; nf_mutex = nf.nf_mutex + 1 }) ≡ field nf)
    → (j : ℕ) → field (q.nfs j) ≡ field (p.nfs j)
IsWoken-field {which} {p} field w e j =
    ap field (w.nfs j)
    ∙ elim (Bool-cases (which j)) [ inl h ↦ rw h (e (p.nfs j)) | inr h ↦ rw h refl ]

nested {ℓ} :
    {A : Type ℓ} (a b c : Bool) (x y : A)
    → (if not a then y else if not b then y else if c then x else y)
      ≡ (if a && (b && c) then x else y)
nested true true c x y = refl
nested true false c x y = refl
nested false b c x y = refl

awake : (a b c : Bool) → a && (b && (c && false)) ≡ false
awake true true true = refl
awake true true false = refl
awake true false c = refl
awake false b c = refl

and_false : (b : Bool) → b && false ≡ false
and_false true = refl
and_false false = refl

module _ (share_cores : Bool) (id : ℕ) where
  wake_child-is_due :
      (i : ℕ) (p : Process)
      → wake_child share_cores id i p ≡ (
          if is_due share_cores (p.nfs id).instance_id (p.nfs i)
          then set_nf i (woken_if true (p.nfs i)) p
          else p)
  unfolding wake_child
  wake_child-is_due i p =
      nested ((p.nfs i).parent == (p.nfs id).instance_id) ((p.nfs i).status == nf_running)
        (share_cores && (p.nfs i).sleep_state) (set_nf i (woken_if true (p.nfs i)) p) p

  wake_child-IsWoken :
      (own i : ℕ) (p : Process)
      → (p.nfs id).instance_id ≡ own
      → IsWoken
          (λ j. (j == i) && is_due share_cores own (p.nfs j))
          p
          (wake_child share_cores id i p)
  wake_child-IsWoken own i p o =
      let whole = wake_child-is_due i p in
      elim (Bool-cases (is_due share_cores own (p.nfs i))) [
        | inl e ↦
            rw (whole, o, e)
              (record {
                live = refl;
                to_mgr = refl;
                cfgs_back = refl;
                nfs = λ j. elim (Bool-cases (j == i)) [
                  | inl h ↦
                      let same : j ≡ i = ground (arith, h) in
                      let due : is_due share_cores own (p.nfs j) ≡ true =
                        ap (λ k. is_due share_cores own (p.nfs k)) same ∙ e in
                      simp (h, due) (ap (λ k. woken_if true (p.nfs k)) (sym same))
                  | inr h ↦ simp h refl
                ];
              })
        | inr e ↦
            rw (whole, o, e)
              (IsWoken-none _ p (λ j. elim (Bool-cases (j == i)) [
                | inl h ↦
                    let same : j ≡ i = ground (arith, h) in
                    simp h (ap (λ k. is_due share_cores own (p.nfs k)) same ∙ e)
                | inr h ↦ simp h refl
              ]))
      ]

  -- The NFs behind the first `max_nfs - n`
  abbrev in_last : ℕ → ℕ → Bool
  in_last n j = not (ltb j (max_nfs - n)) && ltb j max_nfs

  wake_children-IsWoken :
      (n own : ℕ) (p : Process)
      → n ≤ max_nfs
      → (p.nfs id).instance_id ≡ own
      → IsWoken
          (λ j. in_last n j && is_due share_cores own (p.nfs j))
          p
          (wake_children share_cores id n p)
  unfolding wake_children
  wake_children-IsWoken zero own p h o =
      IsWoken-none _ p (λ j. let out : in_last 0 j ≡ false = ground arith in simp out refl)
  wake_children-IsWoken (suc n) own p h o =
      let i = max_nfs - suc n in
      let q = wake_child share_cores id i p in
      let one = wake_child-IsWoken own i p o in
      let others =
        wake_children-IsWoken n own q (omega (arith, h))
          (IsWoken-field (λ nf. nf.instance_id) one (λ nf. refl) id ∙ o) in
      IsWoken-trans one others (λ j. elim (Bool-cases (j == i)) [
        | inl e ↦
            let gone : in_last n j ≡ false = ground (arith, e, h) in
            let now : in_last (suc n) j ≡ true = ground (arith, e, h) in simp (gone, now, e) refl
        | inr e ↦
            let same : in_last n j ≡ in_last (suc n) j = ground (arith, e, h) in
            let kept : q.nfs j ≡ p.nfs j = one.nfs j ∙ simp e refl in simp (same, kept, e) refl
      ])

  wake_children_all :
      (own : ℕ) (p : Process)
      → (p.nfs id).instance_id ≡ own
      → IsWoken
          (λ j. ltb j max_nfs && is_due share_cores own (p.nfs j))
          p
          (wake_children share_cores id max_nfs p)
  wake_children_all own p o =
      let w = wake_children-IsWoken max_nfs own p (omega arith) o in
      record {
        live = w.live;
        to_mgr = w.to_mgr;
        cfgs_back = w.cfgs_back;
        nfs = λ j.
            let from : not (ltb j 0) ≡ true = ground arith in
            w.nfs j
            ∙ ap
                (λ b. woken_if ((b && ltb j max_nfs) && is_due share_cores own (p.nfs j)) (p.nfs j))
                from;
      }

  due_and_woken : (own : ℕ) (nf : NfSlot) → is_due share_cores own (woken_if true nf) ≡ false
  due_and_woken own nf = awake (nf.parent == own) (nf.status == nf_running) share_cores

  -- What a call of onvm_nflib_terminate_children does, `left` rounds before its last and at the second `now`
  record Waits (children : ℕ → ℤ) (own left now : ℕ) (p : Process) (r : Process × ℕ) : Type 0 where
    early : now ≤ r.1
    late : r.1 ≤ now + left
    why : (leb_ℤ (children r.1) (pos 0) ≡ true) ⊎ (r.1 ≡ now + left)
    woken : IsWoken (λ j. ltb now r.1 && (ltb j max_nfs && is_due share_cores own (p.nfs j))) p r.0

  -- No round, and nobody is woken.
  no_round :
      (own now : ℕ) (p : Process)
      → IsWoken (λ j. ltb now now && (ltb j max_nfs && is_due share_cores own (p.nfs j))) p p
  no_round own now p =
      let never : ltb now now ≡ false = ground arith in IsWoken-none _ p (λ j. simp never refl)

  -- Whoever was woken in the first round is not due in the others.
  rested :
      (own : ℕ) (inside : Bool) (before : NfSlot)
      → (inside
          && is_due share_cores own (woken_if (inside && is_due share_cores own before) before))
        ≡ false
  rested own false before = refl
  rested own true before = elim (Bool-cases (is_due share_cores own before)) [
    | inl e ↦
        let it : woken_if (is_due share_cores own before) before ≡ woken_if true before =
          ap (λ b. woken_if b before) e in
        ap (is_due share_cores own) it ∙ due_and_woken own before
    | inr e ↦
        let it : woken_if (is_due share_cores own before) before ≡ before =
          ap (λ b. woken_if b before) e in
        ap (is_due share_cores own) it ∙ e
  ]

  woken_once :
      (own : ℕ) (more inside : Bool) (nf before : NfSlot)
      → nf ≡ woken_if (inside && is_due share_cores own before) before
      → woken_if
          (more && (inside && is_due share_cores own nf))
          (woken_if (inside && is_due share_cores own before) before)
        ≡ woken_if (inside && is_due share_cores own before) before
  woken_once own more inside nf before h =
      let after = woken_if (inside && is_due share_cores own before) before in
      let done : (inside && is_due share_cores own nf) ≡ false =
        ap (λ n. inside && is_due share_cores own n) h ∙ rested own inside before in
      ap (λ b. woken_if (more && b) after) done ∙ ap (λ b. woken_if b after) (and_false more)

  terminate_rounds-Waits :
      (children : ℕ → ℤ) (own left now : ℕ) (p : Process)
      → (p.nfs id).instance_id ≡ own
      → Waits children own left now p (terminate_rounds share_cores id children left now p)
  unfolding terminate_rounds
  terminate_rounds-Waits children own zero now p o = record {
    early = omega arith;
    late = omega arith;
    why = inr (omega arith);
    woken = no_round own now p;
  }
  terminate_rounds-Waits children own (suc left) now p o =
      let q = wake_children share_cores id max_nfs p in
      let one = wake_children_all own p o in
      let others =
        terminate_rounds-Waits children own left (now + 1) q
          (IsWoken-field (λ nf. nf.instance_id) one (λ nf. refl) id ∙ o) in
      let r = terminate_rounds share_cores id children left (now + 1) q in
      elim (Bool-cases (leb_ℤ (children now) (pos 0))) [
        | inl e ↦ rw e (record {
          early = omega arith;
          late = omega arith;
          why = inl e;
          woken = no_round own now p;
        })
        | inr e ↦
            let went : ltb now r.1 ≡ true = lt→ltb now r.1 (omega (arith, others.early)) in
            rw e (record {
              early = omega (arith, others.early);
              late = omega (arith, others.late);
              why = elim others.why [ inl done ↦ inl done | inr end ↦ inr (omega (arith, end)) ];
              woken = simp went (
                  IsWoken-trans one others.woken (λ j.
                    woken_once own (ltb (now + 1) r.1) (ltb j max_nfs) (q.nfs j) (p.nfs j)
                      (one.nfs j)));
            })
      ]

  -- onvm_nflib_terminate_children returns within ten rounds, either because no child is left or because the rounds are
  -- used up. If it went a round, it has woken just the running children of the NF that slept with shared cores:
  -- each has `sleep_state` cleared and its semaphore raised once. Otherwise it has woken none. Nothing else of any NF,
  -- and nothing of the memory and the messages, is changed.
  pub terminate_children-Waits :
      (children : ℕ → ℤ) (p : Process)
      → let (q, seconds) = terminate_children share_cores id children p in
        let own = (p.nfs id).instance_id in
        (seconds ≤ nf_term_stop_iter_times)
        × ((leb_ℤ (children seconds) (pos 0) ≡ true) ⊎ (seconds ≡ nf_term_stop_iter_times))
        × IsWoken (λ j. ltb 0 seconds && (ltb j max_nfs && is_due share_cores own (p.nfs j))) p q
  unfolding terminate_children
  terminate_children-Waits children p =
      let own = (p.nfs id).instance_id in
      let w = terminate_rounds-Waits children own nf_term_stop_iter_times 0 p refl in
      (omega (arith, w.late), w.why, w.woken)
