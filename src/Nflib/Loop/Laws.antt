-- ===== src/Nflib/Loop/Laws.antt =====
-- When onvm_nflib_thread_main_loop of onvm/onvm_nflib/onvm_nflib.c ends.
use afxdp_path_manager.Common.{
  ℕ, zero, suc, ◌+◌, ◌<◌, ◌≡◌, refl, sym, ap, subst, ◌∙◌, inl, inr, Bool, true, false, ◌&&◌, List,
  ◌∷◌, ◌++◌, length, Option, none, some, ◌==◌, Bool-cases, arith,
}
use afxdp_path_manager.Routing.{Dpdk, Dequeue, Switch}
use afxdp_path_manager.Routing.NfLoop.{Dequeued, nf_pass}
use afxdp_path_manager.Nflib.{CallResult, returns}
use afxdp_path_manager.Nflib.Loop.{
  NfMsg, msg_noop, msg_stop, msg_scale, msg_from_nf, msg_change_core, Running, NfEnv, handle_msg,
  dequeue_messages, act, is_past_ttl, is_over_limit, check_limits, arrive, is_idle, after_packets,
  loop_round, thread_main_loop,
}

-- A message to stop stands in the queue behind so many others.
pub data StopsAfter : ℕ → List NfMsg → Type 0 where
  at_head : {msgs : List NfMsg} → StopsAfter 0 (msg_stop ∷ msgs)
  behind :
      {n : ℕ} {msg : NfMsg} {msgs : List NfMsg}
      → StopsAfter n msgs
      → StopsAfter (suc n) (msg ∷ msgs)

StopsAfter-append :
    {n : ℕ} {msgs : List NfMsg} (more : List NfMsg)
    → StopsAfter n msgs
    → StopsAfter n (msgs ++ more)
StopsAfter-append more at_head = at_head
StopsAfter-append more (behind s) = behind (StopsAfter-append more s)

StopsAfter-nonempty : {n : ℕ} {msgs : List NfMsg} → StopsAfter n msgs → (length msgs == 0) ≡ false
StopsAfter-nonempty at_head = ground arith
StopsAfter-nonempty (behind s) = ground arith

and-false : (a b : Bool) → a && (b && false) ≡ false
and-false true true = refl
and-false true false = refl
and-false false b = refl

module _ {D : Dpdk} where
  handle_msg-keeps :
      (e : NfEnv D) (msg : NfMsg) (r : Running D)
      → ((handle_msg e msg r).switch ≡ r.switch) × ((handle_msg e msg r).msg_q ≡ r.msg_q)
  unfolding handle_msg
  handle_msg-keeps e msg_noop r = (refl, refl)
  handle_msg-keeps e msg_stop r = (refl, refl)
  handle_msg-keeps e (msg_scale info created detached) r = (refl, refl)
  handle_msg-keeps e (msg_from_nf data_ptr) r = elim (Bool-cases e.has_msg_handler) [
    | inl h ↦ rw h (refl, refl)
    | inr h ↦ rw h (refl, refl)
  ]
  handle_msg-keeps e (msg_change_core data_ptr core) r = (refl, refl)

  -- A step that touches neither routing nor messages, and does not raise the flag again
  record Lowers (r s : Running D) : Type 0 where
    switch : s.switch ≡ r.switch
    msg_q : s.msg_q ≡ r.msg_q
    stays : r.keep_running ≡ false → s.keep_running ≡ false

  act-Lowers :
      (user_actions : Option (ℕ → Bool)) (n : ℕ) (r : Running D) → Lowers r (act user_actions n r)
  unfolding act
  act-Lowers none n r = record { switch = refl; msg_q = refl; stays = λ h. h }
  act-Lowers (some f) n r = record {
    switch = refl;
    msg_q = refl;
    stays = λ h. elim (Bool-cases (f n)) [ inl k ↦ rw (h, k) refl | inr k ↦ rw (h, k) refl ];
  }

  check_limits-Lowers : (e : NfEnv D) (n : ℕ) (r : Running D) → Lowers r (check_limits e n r)
  unfolding check_limits
  check_limits-Lowers e n r = elim (Bool-cases (is_past_ttl e n)) [
    | inl h ↦ elim (Bool-cases (is_over_limit e r)) [
      | inl k ↦ rw (h, k) (record { switch = refl; msg_q = refl; stays = λ _. refl })
      | inr k ↦ rw (h, k) (record { switch = refl; msg_q = refl; stays = λ _. refl })
    ]
    | inr h ↦ elim (Bool-cases (is_over_limit e r)) [
      | inl k ↦ rw (h, k) (record { switch = refl; msg_q = refl; stays = λ _. refl })
      | inr k ↦ rw (h, k) (record { switch = refl; msg_q = refl; stays = λ s. s })
    ]
  ]

  -- What is left of the queue after a round, and the flag when the round has taken the message
  abbrev Progress : ℕ → Running D → Type 0
  Progress zero s = s.keep_running ≡ false
  Progress (suc n) s = StopsAfter n s.msg_q

  dequeue_messages-Progress :
      {n : ℕ} {msgs : List NfMsg} (e : NfEnv D) (r : Running D)
      → StopsAfter n msgs
      → Progress n (dequeue_messages e msgs r) × ((dequeue_messages e msgs r).switch ≡ r.switch)
  unfolding dequeue_messages handle_msg
  dequeue_messages-Progress e r at_head = (refl, refl)
  dequeue_messages-Progress e r (behind {n} {msg} {msgs} s) =
      let taken : Running D = record r { msg_q = msgs } in
      let (same, left) = handle_msg-keeps e msg taken in (subst (StopsAfter n) (sym left) s, same)

  Progress-Lowers : (n : ℕ) {r s : Running D} → Lowers r s → Progress n r → Progress n s
  Progress-Lowers zero l h = l.stays h
  Progress-Lowers (suc n) l h = subst (StopsAfter n) (sym l.msg_q) h

  -- A property of the routing under which a pass over the packets is defined, and which the passes and the other
  -- threads keep
  pub record IsKept (Q : Dequeue D) (e : NfEnv D) (P : Switch D → Type 0) : Type 0 where
    pub pass :
        (s : Switch D) (tx_buffer : ℕ)
        → P s
        → (d : Dequeued D) × (nf_pass Q e.env e.nf e.pkt_handler tx_buffer s ≡ some d) × P d.switch
    pub others : (round : ℕ) (s : Switch D) → P s → P ((e.others round).1 s)

  module _ (Q : Dequeue D) (e : NfEnv D) (P : Switch D → Type 0) (keeps : IsKept Q e P) where
    loop_round-Progress :
        (n round : ℕ) (r : Running D)
        → P r.switch
        → StopsAfter n r.msg_q
        → (s : Running D) × (loop_round Q e round r ≡ returns s) × P s.switch × Progress n s
    unfolding loop_round after_packets
    loop_round-Progress n round r p stops =
        let arrived : Running D = arrive e round r in
        let there = StopsAfter-append (e.others round).0 stops in
        let (d, is, p') =
          keeps.pass arrived.switch arrived.tx_buffer (keeps.others round r.switch p) in
        let passed : Running D = record arrived { switch = d.switch; tx_buffer = d.tx_buffer } in
        let told = dequeue_messages e passed.msg_q passed in
        let (progress, same) = dequeue_messages-Progress e passed there in
        let acted = act e.user_actions round told in
        let one = act-Lowers e.user_actions round told in
        let two = check_limits-Lowers e round acted in
        let busy : is_idle e arrived ≡ false =
          ap (λ b. e.share_cores && (length (D.entries (arrived.switch.rx_q e.nf)) == 0 && b))
            (StopsAfter-nonempty there)
          ∙ and-false e.share_cores (length (D.entries (arrived.switch.rx_q e.nf)) == 0) in
        (
          check_limits e round acted,
          rw (busy, is) refl,
          subst P (sym (two.switch ∙ one.switch ∙ same)) p',
          Progress-Lowers n two (Progress-Lowers n one progress),
        )

    abbrev pub Ends : CallResult (Running D) → Type 0
    Ends o = (s : Running D) × (o ≡ returns s) × P s.switch

    thread_main_loop-step :
        (n round rounds : ℕ) (r : Running D)
        → P r.switch
        → StopsAfter n r.msg_q
        → ((s : Running D)
            → P s.switch
            → Progress n s
            → Ends (thread_main_loop Q rounds e (round + 1) s))
        → Ends (thread_main_loop Q (suc rounds) e round r)
    unfolding thread_main_loop
    thread_main_loop-step n round rounds r p stops rest =
        let (s, is, p', progress) = loop_round-Progress n round r p stops in
        elim (Bool-cases (r.keep_running && e.main_keep_running round)) [
          | inr down ↦ rw (thread_main_loop, down) (r, refl, p)
          | inl up ↦ rw (thread_main_loop, up, is) (rest s p' progress)
        ]

    thread_main_loop-down :
        (round rounds : ℕ) (s : Running D)
        → P s.switch
        → s.keep_running ≡ false
        → Ends (thread_main_loop Q (suc rounds) e round s)
    unfolding thread_main_loop
    thread_main_loop-down round rounds s p h = simp h (s, refl, p)

    -- Let the routing have a property under which a pass over the packets is defined, and which the passes and the
    -- other threads keep. Let a message to stop stand in the NF's queue behind `n` others. Then, whatever else is
    -- in the queue or comes into it, and also where an NF sleeps on an empty queue and nobody wakes it,
    -- onvm_nflib_thread_main_loop returns after at most `n + 1` rounds, and the routing has the property.
    pub thread_main_loop-stops :
        (n round rounds : ℕ) (r : Running D)
        → P r.switch
        → StopsAfter n r.msg_q
        → suc n < rounds
        → Ends (thread_main_loop Q rounds e round r)
    thread_main_loop-stops n round zero r p stops h = absurd (omega (arith, h))
    thread_main_loop-stops n round (suc zero) r p stops h = absurd (omega (arith, h))
    thread_main_loop-stops zero round (suc (suc rounds)) r p stops h =
        thread_main_loop-step zero round (suc rounds) r p stops
          (λ s p' down. thread_main_loop-down (round + 1) rounds s p' down)
    thread_main_loop-stops (suc n) round (suc (suc rounds)) r p stops h =
        thread_main_loop-step (suc n) round (suc rounds) r p stops (λ s p' left.
          thread_main_loop-stops n (round + 1) (suc rounds) s p' left (omega (arith, h)))
