-- ===== src/Routing/Batch/Transmit/Account.antt =====
-- onvm_pkt_process_tx_batch loses just the packets of `lost`: all others are in a buffer or ring, sent, or freed.
use afxdp_path_manager.Common.{
  ℕ, ◌+◌, ◌≡◌, ◌≢◌, ◌<◌, ◌≤◌, refl, sym, ap, ◌∙◌, Bool, true, false, List, [], ◌∷◌, ◌++◌, some,
  count, count-append, if◌then◌else◌, Bool-cases, Option-cases, inl, inr, arith, ◌>>=◌, update,
}
use afxdp_path_manager.Mgr.Services.{max_nfs, max_services}
use afxdp_path_manager.Routing.{Meta, Dpdk, DpdkLaws, Env, Switch}
use afxdp_path_manager.Mgr.Chain.{next_action, next_destination}
use afxdp_path_manager.Routing.Queues.{drop_pkt}
use afxdp_path_manager.Routing.Queues.Account.{HasRoom, held}
use afxdp_path_manager.Routing.Batch.{chain_of, is_action, tx_packet, process_tx_batch}
use afxdp_path_manager.Routing.Batch.Paths.{IsSound}
use afxdp_path_manager.Routing.Batch.Transmit.{
  hop_loses, loses, lost, MaySend, relabel-HasRoom, relabel-Takes, Takes-relabel, drop-Passed,
}
use afxdp_path_manager.Routing.Batch.Transmit.Packet.{update_other, tx_packet-Passed}

-- The field `src` has no part in it.
loses_src :
    (env : Env) (pkt src : ℕ) (m : Meta) → loses env pkt (record m { src = src }) ≡ loses env pkt m
unfolding loses
loses_src env pkt src m = elim (Option-cases (next_action (chain_of env pkt) m.chain_index)) [
  | inl e ↦ rw e refl
  | inr (a, e) ↦ elim (Option-cases (next_destination (chain_of env pkt) m.chain_index)) [
    | inl f ↦ rw (e, f) refl
    | inr (d, f) ↦ rw (e, f, hop_loses) refl
  ]
]

pub lost_agree :
    (env : Env) (metas metas' : ℕ → Meta) (pkts : List ℕ)
    → ((q : ℕ) → 0 < count q pkts → metas' q ≡ metas q)
    → lost env metas' pkts ≡ lost env metas pkts
unfolding lost
lost_agree env metas metas' [] h = refl
lost_agree env metas metas' (pkt ∷ pkts) h =
    let others = lost_agree env metas metas' pkts (λ q i. h q (ground (arith, i))) in
    rw (h pkt (ground arith), others) refl

-- A packet of a batch may be sent, and is for a service or a port that exists.
abbrev pub Sendable : Env → Meta → Type 0
Sendable env m = MaySend env m × (m.destination < max_services)

-- A packet is lost or not.
count-lossy :
    (a pkt : ℕ) (lossy : Bool)
    → count a (if lossy then [] else pkt ∷ []) + count a (if lossy then pkt ∷ [] else [])
      ≡ count a (pkt ∷ [])
count-lossy a pkt true = omega arith
count-lossy a pkt false = omega arith

module _ {D : Dpdk} (L : DpdkLaws D) where
  -- Let the batch hold no packet twice, and let each packet name a service or port that exists; in an NF let no
  -- action be NEXT. Then onvm_pkt_process_tx_batch accesses no array out of bounds, and loses just the packets of
  -- `lost`: each other packet of the batch, and each older one, is once in a buffer or ring, sent, or freed. No
  -- buffer is full.
  pub process_tx_batch-account :
      (env : Env) (pkts : List ℕ) (nf : ℕ) (s : Switch D)
      → IsSound env
      → nf < max_nfs
      → ((q : ℕ) → count q pkts ≤ 1)
      → ((q : ℕ) → 0 < count q pkts → Sendable env (s.pkt_meta q))
      → HasRoom s
      → (t : Switch D) × (process_tx_batch env pkts nf s ≡ some t)
        × HasRoom t
        × ((a : ℕ) → held a t + count a (lost env s.pkt_meta pkts) ≡ held a s + count a pkts)
  unfolding process_tx_batch lost
  process_tx_batch-account env [] nf s v n once may room = (s, refl, room, λ a. omega arith)
  process_tx_batch-account env (pkt ∷ pkts) nf s v n once may room =
      let own = s.pkt_meta pkt in
      let m : Meta = record own { src = (env.mgr.nfs nf).instance_id } in
      let metas = update s.pkt_meta pkt m in
      let marked : Switch D = record s { pkt_meta = metas } in
      let marked_room = relabel-HasRoom metas s.stats s room in
      let (sendable, known) = may pkt (ground arith) in
      let at_pkt : metas pkt ≡ m = ground arith in
      elim (Bool-cases (is_action own.action)) [
        | inl e ↦
            let (t, f, passed) =
              tx_packet-Passed L env pkt nf marked v n (rw at_pkt e) (rw at_pkt sendable)
                (rw at_pkt known) marked_room in
            let same : (q : ℕ) → 0 < count q pkts → t.pkt_meta q ≡ s.pkt_meta q = λ q i.
              let other : q ≢ pkt = λ z. ground (arith, i, once q, z) in
              passed.others q other ∙ update_other s.pkt_meta pkt q m other in
            let (u, g, last, account) =
              process_tx_batch-account env pkts nf t v n (λ q. ground (arith, once q))
                (λ q i. rw (same q i) (may q (ground (arith, i)))) passed.takes.room in
            let lossy = loses env pkt (metas pkt) in
            let same_loss : lossy ≡ loses env pkt own =
              ap (loses env pkt) at_pkt ∙ loses_src env pkt (env.mgr.nfs nf).instance_id own in
            let sent : tx_packet env m pkt nf marked ≡ some t =
              ap (λ k. tx_packet env k pkt nf marked) (sym at_pkt) ∙ f in
            let others = lost_agree env s.pkt_meta t.pkt_meta pkts same in
            (
              u,
              rw e (ap (λ o. o >>= process_tx_batch env pkts nf) sent ∙ g),
              last,
              λ a.
                  let one : held a t ≡ held a s + count a (if lossy then [] else pkt ∷ []) =
                    (relabel-Takes metas s.stats s t passed.takes).account a in
                  let here = if lossy then pkt ∷ [] else [] in
                  let front : count a (here ++ lost env s.pkt_meta pkts)
                      ≡ count a here + count a (lost env s.pkt_meta pkts) =
                    count-append a here (lost env s.pkt_meta pkts) in
                  rw (e, ← same_loss)
                    (omega (
                      arith,
                      one,
                      front,
                      rw others at (account a),
                      count-lossy a pkt lossy,
                      count-append a (pkt ∷ []) pkts,
                    )),
            )
        | inr e ↦
            let dropped = (drop-Passed pkt s.stats s room).takes in
            (
              drop_pkt pkt marked,
              rw e refl,
              relabel-HasRoom metas s.stats (drop_pkt pkt s) dropped.room,
              λ a.
                  let one : held a (drop_pkt pkt marked) ≡ held a s + count a (pkt ∷ []) =
                    (Takes-relabel metas s.stats s (drop_pkt pkt s) dropped).account a in
                  rw e (omega (arith, one, count-append a (pkt ∷ []) pkts)),
            )
      ]
