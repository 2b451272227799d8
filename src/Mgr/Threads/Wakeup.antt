-- ===== src/Mgr/Threads/Wakeup.antt =====
-- The wakeup thread of onvm/onvm_mgr/main.c wakes just the NFs that sleep with work to do.
use afxdp_path_manager.Common.{
  ℕ, zero, suc, ◌+◌, ◌-◌, ◌≤◌, ◌≡◌, refl, sym, subst, ap, ◌∙◌, true, false, ltb, leb, ◌&&◌, not,
  if◌then◌else◌, inl, inr, Bool, Bool-cases, arith, ◌==◌,
}
use afxdp_path_manager.Mgr.Services.{Mgr, is_valid}
use afxdp_path_manager.Mgr.Threads.{
  Range, WakeupInfo, whether_wakeup_client, wakeup_client, wakeup_nf, wakeup_nfs, wakeup_round,
}

module _ (m : Mgr) (pkts msgs : ℕ → ℕ) where
  -- A running NF sleeps, and has packets or messages.
  abbrev pub due : ℕ → WakeupInfo → Bool
  due id info = is_valid (m.nfs id) && not (info.shm_server == 0) && leb 1 (pkts id + msgs id)

  abbrev pub woken : ℕ → WakeupInfo → WakeupInfo
  woken id info = if due id info then wakeup_client info else info

  wakeup_nf_lem :
      (i : ℕ) (infos : ℕ → WakeupInfo) (id : ℕ)
      → wakeup_nf m pkts msgs i infos id ≡ (if id == i then woken id (infos id) else infos id)
  unfolding wakeup_nf whether_wakeup_client
  wakeup_nf_lem i infos id = ground arith

  wakeup_nfs_lem :
      (n i : ℕ) (infos : ℕ → WakeupInfo) (id : ℕ)
      → wakeup_nfs m pkts msgs n i infos id
        ≡ (if leb i id && ltb id (i + n) then woken id (infos id) else infos id)
  unfolding wakeup_nfs
  wakeup_nfs_lem zero i infos id = ground arith
  wakeup_nfs_lem (suc n) i infos id =
      let others = wakeup_nfs_lem n (i + 1) (wakeup_nf m pkts msgs i infos) id in
      let one = wakeup_nf_lem i infos id in
      let past : leb (i + 1) id ≡ leb i id && not (id == i) = ground arith in
      let same_end : ltb id (i + 1 + n) ≡ ltb id (i + suc n) = ground arith in
      others ∙ elim (Bool-cases (id == i)) [
        | inl e ↦
            let first : leb i id ≡ true = ground (arith, e) in
            let before_end : ltb id (i + suc n) ≡ true = ground (arith, e) in
            rw (one, past, e, first, before_end) refl
        | inr e ↦
            let later : leb (i + 1) id ≡ leb i id = ground (arith, e) in
            rw (one, later, same_end, e) refl
      ]

  wakeup_round-woken :
      (r : Range) (infos : ℕ → WakeupInfo) (id : ℕ)
      → r.first_nf ≤ r.last_nf
      → wakeup_round m pkts msgs r infos id
        ≡ (if leb r.first_nf id && ltb id r.last_nf then woken id (infos id) else infos id)
  unfolding wakeup_round
  wakeup_round-woken r infos id h =
      let ends : r.first_nf + (r.last_nf - r.first_nf) ≡ r.last_nf = omega arith in
      subst
        (λ e.
          wakeup_round m pkts msgs r infos id
          ≡ (if leb r.first_nf id && ltb id e then woken id (infos id) else infos id))
        ends (wakeup_nfs_lem (r.last_nf - r.first_nf) r.first_nf infos id)

  -- Who has been woken is awake.
  woken_twice : (id : ℕ) (info : WakeupInfo) → woken id (woken id info) ≡ woken id info
  unfolding wakeup_client
  woken_twice id info = elim (Bool-cases (due id info)) [
    | inl e ↦
        let one : woken id info ≡ wakeup_client info = rw e refl in
        let awake : due id (wakeup_client info) ≡ false =
          ground (arith, Bool-cases (is_valid (m.nfs id))) in
        let two : woken id (wakeup_client info) ≡ wakeup_client info = rw awake refl in
        ap (woken id) one ∙ two ∙ sym one
    | inr e ↦ rw (e, e) refl
  ]

  -- A round of wakeup_thread_main wakes each running NF of its range that sleeps and has packets or messages, and
  -- touches no other. A second round, before an NF sleeps again, changes nothing.
  pub wakeup_round_lem :
      (r : Range) (infos : ℕ → WakeupInfo) (id : ℕ)
      → r.first_nf ≤ r.last_nf
      → let after = wakeup_round m pkts msgs r infos in
        (after id ≡ (
          if (leb r.first_nf id && ltb id r.last_nf) && due id (infos id)
          then wakeup_client (infos id)
          else infos id))
        × (wakeup_round m pkts msgs r after id ≡ after id)
  wakeup_round_lem r infos id h =
      let first = wakeup_round-woken r infos id h in
      let second = wakeup_round-woken r (wakeup_round m pkts msgs r infos) id h in
      let after = wakeup_round m pkts msgs r infos in
      elim (Bool-cases (leb r.first_nf id && ltb id r.last_nf)) [
        | inl e ↦
            let one : after id ≡ woken id (infos id) = first ∙ rw e refl in
            let two : wakeup_round m pkts msgs r after id ≡ woken id (after id) =
              second ∙ rw e refl in
            (rw e one, two ∙ ap (woken id) one ∙ woken_twice id (infos id) ∙ sym one)
        | inr e ↦
            let one : after id ≡ infos id = first ∙ rw e refl in
            let two : wakeup_round m pkts msgs r after id ≡ after id = second ∙ rw e refl in
            (rw e one, two)
      ]
