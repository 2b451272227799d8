-- ===== src/Routing/Batch/Transmit/Packet.antt =====
-- What onvm_pkt_process_tx_batch does with one packet, and whether it loses it.
use afxdp_path_manager.Common.{
  ℕ, ◌+◌, ◌≡◌, ◌≢◌, ◌<◌, refl, sym, ap, ◌∙◌, subst, Bool, true, false, not, [], ◌∷◌, none, some,
  length, length-append, count, count-append, ◌==◌, if◌then◌else◌, Bool-cases, inl, inr, arith, leb,
  update,
}
use afxdp_path_manager.Mgr.Services.{max_nfs, max_services}
use afxdp_path_manager.Routing.{
  packet_read_size, onvm_nf_action_drop, onvm_nf_action_next, onvm_nf_action_tonf,
  onvm_nf_action_out, NfStats, Dpdk, DpdkLaws, Env, Switch,
}
use afxdp_path_manager.Routing.Queues.{
  change_at, count_in, drop_pkt, add_tx, enqueue_tx_thread, enqueue_port,
}
use afxdp_path_manager.Routing.Queues.Account.{HasRoom, held}
use afxdp_path_manager.Routing.Queues.Own.{enqueue_tx_thread-Takes}
use afxdp_path_manager.Routing.Queues.Labels.{enqueue_tx_thread-meta}
use afxdp_path_manager.Routing.Batch.{
  follow_chain, next_in_chain, set_meta, add_act_tonf, add_act_out, add_act_drop, add_act_next,
  add_to_own_buf, out_of_nf, process_next_action, is_action, tx_packet,
}
use afxdp_path_manager.Routing.Batch.Paths.{IsSound, follow_chain-defined}
use afxdp_path_manager.Routing.Batch.Transmit.{
  hop_loses, loses, MaySend, Passed, relabel-HasRoom, relabel-Takes, Takes-relabel, drop-Passed,
  enqueue_nf-Passed, enqueue_port-Passed, next_action_of-Passed,
}

pub update_other :
    {A : Type 0} (table : ℕ → A) (at q : ℕ) (entry : A) → q ≢ at → update table at entry q ≡ table q
update_other table at q entry p = let other : (q == at) ≡ false = ground (arith, p) in rw other refl

module _ {D : Dpdk} (L : DpdkLaws D) where
  -- The counters changed before
  relabel-Passed :
      (pkt : ℕ) (lossy : Bool) (stats : ℕ → NfStats) (s t : Switch D)
      → Passed pkt lossy (record s { stats = stats }) t
      → Passed pkt lossy s t
  relabel-Passed pkt lossy stats s t v = record {
    takes = relabel-Takes s.pkt_meta stats s t v.takes;
    others = v.others;
  }

  process_next_action-Passed :
      (env : Env) (pkt nf : ℕ) (s : Switch D)
      → IsSound env
      → env.is_mgr ≡ true
      → HasRoom s
      → (t : Switch D) × (process_next_action env pkt nf s ≡ some t)
        × Passed pkt
            (elim (follow_chain env pkt (s.pkt_meta pkt)) [
              | none ↦ false
              | some n ↦ hop_loses env n
            ])
            s
            t
  unfolding process_next_action
  process_next_action-Passed env pkt nf s v mg room =
      let (m, followed, known) = follow_chain-defined env pkt (s.pkt_meta pkt) v in
      let marked = set_meta pkt m s in
      let (t, e, passed) =
        next_action_of-Passed L env m pkt nf marked v mg known
          (relabel-HasRoom (update s.pkt_meta pkt m) s.stats s room) in
      let metas = update t.pkt_meta pkt (next_in_chain (t.pkt_meta pkt)) in
      (
        record t { pkt_meta = metas },
        rw (followed, e) refl,
        rw followed (record {
          takes =
              Takes-relabel metas t.stats s t
                (relabel-Takes (update s.pkt_meta pkt m) s.stats s t passed.takes);
          others = λ q p.
              update_other t.pkt_meta pkt q (next_in_chain (t.pkt_meta pkt)) p
              ∙ passed.others q p
              ∙ update_other s.pkt_meta pkt q m p;
        }),
      )

  out_of_nf-Passed :
      (pkt nf : ℕ) (s : Switch D)
      → nf < max_nfs
      → HasRoom s
      → (t : Switch D) × (out_of_nf pkt nf s ≡ some t) × Passed pkt false s t
  unfolding out_of_nf held
  out_of_nf-Passed pkt nf s h v =
      let added = add_to_own_buf pkt (count_in (add_act_out 1) (some nf) s) in
      let room : leb packet_read_size (length s.to_tx_buf) ≡ false = ground (arith, v.own_buf) in
      let sum : (a : ℕ) → held a added ≡ held a s + count a (pkt ∷ []) =
        λ a. omega (arith, count-append a s.to_tx_buf (pkt ∷ [])) in
      elim (Bool-cases (length added.to_tx_buf == packet_read_size)) [
        | inl e ↦
            let sent = enqueue_tx_thread-Takes L nf added h v.nf_bufs v.port_bufs in
            (
              enqueue_tx_thread nf added,
              rw (room, e) refl,
              record {
                takes = record {
                  account = λ a. omega (arith, sent.account a, sum a);
                  room = sent.room;
                };
                others = λ q p. ap (λ f. f q) (enqueue_tx_thread-meta nf added);
              },
            )
        | inr e ↦ (
          added,
          rw (room, e) refl,
          record {
            takes = record {
              account = sum;
              room = record {
                nf_bufs = v.nf_bufs;
                port_bufs = v.port_bufs;
                own_buf = ground (arith, e, v.own_buf, length-append s.to_tx_buf (pkt ∷ []));
              };
            };
            others = λ q p. refl;
          },
        )
      ]

  -- One packet of a batch, with one of the four actions
  pub tx_packet-Passed :
      (env : Env) (pkt nf : ℕ) (s : Switch D)
      → let m = s.pkt_meta pkt in
        IsSound env
        → nf < max_nfs
        → is_action m.action ≡ true
        → MaySend env m
        → m.destination < max_services
        → HasRoom s
        → (t : Switch D) × (tx_packet env m pkt nf s ≡ some t) × Passed pkt (loses env pkt m) s t
  unfolding tx_packet loses
  tx_packet-Passed env pkt nf s v n known may h room =
      let m = s.pkt_meta pkt in
      elim (Bool-cases (m.action == onvm_nf_action_drop)) [
        | inl e ↦
            let keeps : loses env pkt m ≡ false = ground (arith, e) in
            let counted = change_at (add_act_drop 1) (some nf) s.stats in
            let dropped =
              count_in (add_tx 0) (some nf)
                (drop_pkt pkt (count_in (add_act_drop 1) (some nf) s)) in
            (
              dropped,
              rw e refl,
              subst (λ b. Passed pkt b s dropped) (sym keeps)
                  (drop-Passed pkt (change_at (add_tx 0) (some nf) counted) s room),
            )
        | inr e ↦ elim (Bool-cases (m.action == onvm_nf_action_next)) [
          | inl f ↦
              let mg : env.is_mgr ≡ true = ground (arith, f, may) in
              let counted = change_at (add_act_next 1) (some nf) s.stats in
              let (t, g, passed) =
                process_next_action-Passed env pkt nf (record s { stats = counted }) v mg
                  (relabel-HasRoom s.pkt_meta counted s room) in
              (t, rw (e, f) g, rw (loses, f) (relabel-Passed pkt _ counted s t passed))
          | inr f ↦ elim (Bool-cases (m.action == onvm_nf_action_tonf)) [
            | inl g ↦
                let keeps : loses env pkt m ≡ false = ground (arith, g) in
                let (t, o, passed) =
                  enqueue_nf-Passed L env m.destination pkt nf
                    (change_at (add_act_tonf 1) (some nf) s.stats) s v h room in
                (t, rw (e, f, g) o, subst (λ b. Passed pkt b s t) (sym keeps) passed)
            | inr g ↦
                let out : (m.action == onvm_nf_action_out) ≡ true =
                  ground (arith, e, f, g, known) in
                let in_mgr = enqueue_port env m.destination pkt s in
                let in_nf = out_of_nf pkt nf s in
                let by_mode : (b : Bool)
                    → env.is_mgr ≡ b
                    → (if env.is_mgr then in_mgr else in_nf) ≡ (if b then in_mgr else in_nf) =
                  λ b k. ap (λ c. if c then in_mgr else in_nf) k in
                elim (Bool-cases env.is_mgr) [
                  | inl k ↦
                      let (t, o, passed) =
                        enqueue_port-Passed L env m.destination pkt s.stats s k h room in
                      let same : loses env pkt m ≡ not (env.port_init m.destination) =
                        rw (loses, f, out, k) refl in
                      (
                        t,
                        rw (e, f, g) (by_mode true k ∙ o),
                        subst (λ b. Passed pkt b s t) (sym same) passed,
                      )
                  | inr k ↦
                      let (t, o, passed) = out_of_nf-Passed pkt nf s n room in
                      let keeps : loses env pkt m ≡ false = rw (loses, f, out, k) refl in
                      (
                        t,
                        rw (e, f, g) (by_mode false k ∙ o),
                        subst (λ b. Passed pkt b s t) (sym keeps) passed,
                      )
                ]
          ]
        ]
      ]
