-- ===== src/Routing/Batch/Transmit.antt =====
-- onvm_pkt_process_tx_batch: what becomes of the packets of a batch, and which of them are lost.
pub mod Packet
pub mod Account
pub mod Aside
use afxdp_path_manager.Common.{
  ℕ, ◌≡◌, ◌≢◌, ◌<◌, refl, ap, subst, Bool, true, false, not, ◌&&◌, ◌||◌, List, [], ◌∷◌, ◌++◌, none,
  some, count-append, ◌==◌, if◌then◌else◌, Bool-cases, ◌⊎◌, inl, inr, arith,
}
use afxdp_path_manager.Mgr.Services.{max_services}
use afxdp_path_manager.Routing.{
  onvm_nf_action_drop, onvm_nf_action_next, onvm_nf_action_tonf, onvm_nf_action_out, Meta, NfStats,
  Dpdk, DpdkLaws, Env, Switch,
}
use afxdp_path_manager.Routing.Queues.{change_at, count_in, drop_pkt, enqueue_nf, enqueue_port}
use afxdp_path_manager.Routing.Queues.Account.{HasRoom, held}
use afxdp_path_manager.Routing.Queues.Returns.{
  Takes, Takes-none, enqueue_nf-Takes, enqueue_port-Takes,
}
use afxdp_path_manager.Routing.Queues.Labels.{enqueue_nf-meta, enqueue_port-meta}
use afxdp_path_manager.Routing.Batch.{
  follow_chain, add_act_tonf, add_act_out, add_act_drop, next_action_of, is_action,
}
use afxdp_path_manager.Routing.Batch.Paths.{IsSound}

-- Whether a packet with an action for the manager is neither passed on nor freed: the hop of a chain that says NEXT
-- or has an unknown action, and the port that is not set up
unfoldable pub hop_loses : Env → Meta → Bool
hop_loses env m =
    if (m.action == onvm_nf_action_drop) || (m.action == onvm_nf_action_tonf)
    then false
    else if m.action == onvm_nf_action_out
    then not (env.port_init m.destination)
    else true

-- Whether onvm_pkt_process_tx_batch loses a packet with the given meta data and one of the four actions
unfoldable pub loses : Env → ℕ → Meta → Bool
unfolding hop_loses
loses env pkt m =
    if m.action == onvm_nf_action_next
    then elim (follow_chain env pkt m) [ none ↦ false | some n ↦ hop_loses env n ]
    else if m.action == onvm_nf_action_out
    then env.is_mgr && not (env.port_init m.destination)
    else false

-- The packets of a batch that are lost: those, and all behind the first with an unknown action
unfoldable pub lost : Env → (ℕ → Meta) → List ℕ → List ℕ
unfolding loses
lost env metas [] = []
lost env metas (pkt ∷ pkts) =
    let others = lost env metas pkts in
    if is_action (metas pkt).action
    then (if loses env pkt (metas pkt) then pkt ∷ [] else []) ++ others
    else pkts

-- In the manager any packet may be sent; in an NF, where the queue manager has no ports, the actions of the chain
-- are left to the manager.
abbrev pub MaySend : Env → Meta → Type 0
MaySend env m = (env.is_mgr ≡ true) ⊎ (m.action ≢ onvm_nf_action_next)

-- The packet came in unless it is lost, and of the meta data only its own changed.
pub record Passed {D : Dpdk} (pkt : ℕ) (lossy : Bool) (s t : Switch D) : Type 0 where
  pub takes : Takes (if lossy then [] else pkt ∷ []) s t
  pub others : (q : ℕ) → q ≢ pkt → t.pkt_meta q ≡ s.pkt_meta q

flip_lem : (b : Bool) (xs : List ℕ) → (if b then xs else []) ≡ (if not b then [] else xs)
flip_lem true xs = refl
flip_lem false xs = refl

module _ {D : Dpdk} where
  -- The counters and the meta data say nothing of where the packets are.
  pub relabel-HasRoom :
      (metas : ℕ → Meta) (stats : ℕ → NfStats) (s : Switch D)
      → HasRoom s
      → HasRoom (record s { pkt_meta = metas; stats = stats })
  relabel-HasRoom metas stats s v = record {
    nf_bufs = v.nf_bufs;
    port_bufs = v.port_bufs;
    own_buf = v.own_buf;
  }

  pub relabel-Takes :
      {xs : List ℕ} (metas : ℕ → Meta) (stats : ℕ → NfStats) (s t : Switch D)
      → Takes xs (record s { pkt_meta = metas; stats = stats }) t
      → Takes xs s t
  unfolding held
  relabel-Takes metas stats s t v = record { account = v.account; room = v.room }

  pub Takes-relabel :
      {xs : List ℕ} (metas : ℕ → Meta) (stats : ℕ → NfStats) (s t : Switch D)
      → Takes xs s t
      → Takes xs s (record t { pkt_meta = metas; stats = stats })
  unfolding held
  Takes-relabel metas stats s t v = record {
    account = v.account;
    room = relabel-HasRoom metas stats t v.room;
  }

  pub drop-Passed :
      (pkt : ℕ) (stats : ℕ → NfStats) (s : Switch D)
      → HasRoom s
      → Passed pkt false s (record s { freed = s.freed ++ pkt ∷ []; stats = stats })
  unfolding held
  drop-Passed pkt stats s v = record {
    takes = record {
      account = λ a. omega (arith, count-append a s.freed (pkt ∷ []));
      room = record { nf_bufs = v.nf_bufs; port_bufs = v.port_bufs; own_buf = v.own_buf };
    };
    others = λ q p. refl;
  }

module _ {D : Dpdk} (L : DpdkLaws D) where
  pub enqueue_nf-Passed :
      (env : Env) (destination pkt nf : ℕ) (stats : ℕ → NfStats) (s : Switch D)
      → IsSound env
      → destination < max_services
      → HasRoom s
      → (t : Switch D) × (enqueue_nf env destination pkt (some nf) (record s { stats = stats })
          ≡ some t)
        × Passed pkt false s t
  enqueue_nf-Passed env destination pkt nf stats s v h room =
      let counted : Switch D = record s { stats = stats } in
      let (t, e, takes) =
        enqueue_nf-Takes L env destination pkt (some nf) counted v.consistent h
          (relabel-HasRoom s.pkt_meta stats s room) in
      (
        t,
        e,
        record {
          takes = relabel-Takes s.pkt_meta stats s t takes;
          others =
              λ q p. ap (λ f. f q) (enqueue_nf-meta L env destination pkt (some nf) counted t e);
        },
      )

  pub enqueue_port-Passed :
      (env : Env) (port pkt : ℕ) (stats : ℕ → NfStats) (s : Switch D)
      → env.is_mgr ≡ true
      → port < max_services
      → HasRoom s
      → (t : Switch D) × (enqueue_port env port pkt (record s { stats = stats }) ≡ some t)
        × Passed pkt (not (env.port_init port)) s t
  enqueue_port-Passed env port pkt stats s mg h room =
      let counted : Switch D = record s { stats = stats } in
      let (t, e, takes) =
        enqueue_port-Takes L env port pkt counted mg h (relabel-HasRoom s.pkt_meta stats s room) in
      (
        t,
        e,
        record {
          takes =
              relabel-Takes s.pkt_meta stats s t
                (subst (λ l. Takes l counted t) (flip_lem (env.port_init port) (pkt ∷ [])) takes);
          others = λ q p. ap (λ f. f q) (enqueue_port-meta env port pkt counted t e);
        },
      )

  pub next_action_of-Passed :
      (env : Env) (m : Meta) (pkt nf : ℕ) (s : Switch D)
      → IsSound env
      → env.is_mgr ≡ true
      → m.destination < max_services
      → HasRoom s
      → (t : Switch D) × (next_action_of env m pkt nf s ≡ some t) × Passed pkt (hop_loses env m) s t
  unfolding next_action_of hop_loses
  next_action_of-Passed env m pkt nf s v mg h room =
      elim (Bool-cases (m.action == onvm_nf_action_drop)) [
        | inl e ↦ (
          count_in (add_act_drop 0) (some nf) (drop_pkt pkt s),
          rw e refl,
          rw e (drop-Passed pkt (change_at (add_act_drop 0) (some nf) s.stats) s room),
        )
        | inr e ↦ elim (Bool-cases (m.action == onvm_nf_action_tonf)) [
          | inl f ↦
              let (t, g, passed) =
                enqueue_nf-Passed env m.destination pkt nf
                  (change_at (add_act_tonf 1) (some nf) s.stats) s v h room in
              (t, rw (e, f) g, rw (e, f) passed)
          | inr f ↦ elim (Bool-cases (m.action == onvm_nf_action_out)) [
            | inl o ↦
                let (t, g, passed) =
                  enqueue_port-Passed env m.destination pkt
                    (change_at (add_act_out 1) (some nf) s.stats) s mg h room in
                (t, rw (e, f, o) g, rw (e, f, o) passed)
            | inr o ↦ (
              s,
              rw (e, f, o) refl,
              rw (e, f, o) (record { takes = Takes-none room; others = λ q p. refl }),
            )
          ]
        ]
      ]
