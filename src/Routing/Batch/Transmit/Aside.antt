-- ===== src/Routing/Batch/Transmit/Aside.antt =====
-- onvm_pkt_process_tx_batch in the manager touches neither the meta data of packets outside the batch nor the rings
-- that the NFs send by.
use afxdp_path_manager.Common.{
  ℕ, ◌≡◌, ◌≢◌, refl, ap, ◌∙◌, true, List, [], ◌∷◌, some, count, ◌==◌, Bool-cases, bind-some,
  some-injective, subst, inl, inr, arith,
}
use afxdp_path_manager.Routing.{onvm_nf_action_next, Meta, Dpdk, DpdkLaws, Env, Switch}
use afxdp_path_manager.Routing.Queues.{count_in, drop_pkt}
use afxdp_path_manager.Routing.Queues.Labels.{enqueue_nf-meta, enqueue_port-meta}
use afxdp_path_manager.Routing.Queues.Rings.{enqueue_nf-tx_q, enqueue_port-tx_q}
use afxdp_path_manager.Routing.Batch.{
  follow_chain, next_in_chain, set_meta, next_action_of, process_next_action, is_action, tx_packet,
  process_tx_batch, add_act_tonf, add_act_out, add_act_next,
}
use afxdp_path_manager.Routing.Batch.Transmit.Packet.{update_other}

-- The packets outside `pkts` keep their meta data, and the rings are the same.
pub record Aside {D : Dpdk} (pkts : List ℕ) (s t : Switch D) : Type 0 where
  pub metas : (q : ℕ) → count q pkts ≡ 0 → t.pkt_meta q ≡ s.pkt_meta q
  pub rings : t.tx_q ≡ s.tx_q

module _ {D : Dpdk} (L : DpdkLaws D) where
  next_action_of-same :
      (env : Env) (m : Meta) (pkt nf : ℕ) (s t : Switch D)
      → next_action_of env m pkt nf s ≡ some t
      → (t.pkt_meta ≡ s.pkt_meta) × (t.tx_q ≡ s.tx_q)
  unfolding next_action_of
  next_action_of-same env m pkt nf s t e =
      let to_nf = count_in (add_act_tonf 1) (some nf) s in
      let to_port = count_in (add_act_out 1) (some nf) s in
      let a = enqueue_nf-meta L env m.destination pkt (some nf) to_nf t in
      let b = enqueue_nf-tx_q L env m.destination pkt (some nf) to_nf t in
      let c = enqueue_port-meta env m.destination pkt to_port t in
      let d = enqueue_port-tx_q env m.destination pkt to_port t in ground (arith, e, a, b, c, d)

  process_next_action-Aside :
      (env : Env) (pkt nf : ℕ) (s t : Switch D)
      → process_next_action env pkt nf s ≡ some t
      → Aside (pkt ∷ []) s t
  unfolding process_next_action
  process_next_action-Aside env pkt nf s t e =
      let (m, followed, e) = bind-some (follow_chain env pkt (s.pkt_meta pkt)) _ t e in
      let (u, moved, e) = bind-some (next_action_of env m pkt nf (set_meta pkt m s)) _ t e in
      let (metas, rings) = next_action_of-same env m pkt nf (set_meta pkt m s) u moved in
      let last : Switch D = set_meta pkt (next_in_chain (u.pkt_meta pkt)) u in
      let done : last ≡ t = some-injective last t e in
      subst (Aside (pkt ∷ []) s) done (record {
        metas = λ q i.
            let other : q ≢ pkt = λ z. ground (arith, i, z) in
            update_other u.pkt_meta pkt q (next_in_chain (u.pkt_meta pkt)) other
            ∙ ap (λ f. f q) metas
            ∙ update_other s.pkt_meta pkt q m other;
        rings = rings;
      })

  tx_packet-Aside :
      (env : Env) (m : Meta) (pkt nf : ℕ) (s t : Switch D)
      → env.is_mgr ≡ true
      → tx_packet env m pkt nf s ≡ some t
      → Aside (pkt ∷ []) s t
  unfolding tx_packet
  tx_packet-Aside env m pkt nf s t mg e =
      let chained =
        process_next_action-Aside env pkt nf (count_in (add_act_next 1) (some nf) s) t in
      let to_nf = count_in (add_act_tonf 1) (some nf) s in
      let a = enqueue_nf-meta L env m.destination pkt (some nf) to_nf t in
      let b = enqueue_nf-tx_q L env m.destination pkt (some nf) to_nf t in
      let c = enqueue_port-meta env m.destination pkt s t in
      let d = enqueue_port-tx_q env m.destination pkt s t in
      elim (Bool-cases (m.action == onvm_nf_action_next)) [
        | inl n ↦
            let here : process_next_action env pkt nf (count_in (add_act_next 1) (some nf) s)
                ≡ some t =
              ground (arith, e, n) in
            let v = chained here in record { metas = v.metas; rings = v.rings }
        | inr n ↦
            let same : (t.pkt_meta ≡ s.pkt_meta) × (t.tx_q ≡ s.tx_q) =
              ground (arith, e, n, mg, a, b, c, d) in
            record { metas = λ q i. ap (λ f. f q) same.0; rings = same.1 }
      ]

  pub process_tx_batch-Aside :
      (env : Env) (pkts : List ℕ) (nf : ℕ) (s t : Switch D)
      → env.is_mgr ≡ true
      → process_tx_batch env pkts nf s ≡ some t
      → Aside pkts s t
  unfolding process_tx_batch
  process_tx_batch-Aside env [] nf s t mg e =
      subst (Aside [] s) (some-injective s t e) (record { metas = λ q i. refl; rings = refl })
  process_tx_batch-Aside env (pkt ∷ pkts) nf s t mg e =
      let m : Meta = record (s.pkt_meta pkt) { src = (env.mgr.nfs nf).instance_id } in
      let marked : Switch D = set_meta pkt m s in
      elim (Bool-cases (is_action (s.pkt_meta pkt).action)) [
        | inl k ↦
            let (u, f, g) =
              bind-some (tx_packet env m pkt nf marked) (process_tx_batch env pkts nf) t
                (rw k at e) in
            let one = tx_packet-Aside env m pkt nf marked u mg f in
            let others = process_tx_batch-Aside env pkts nf u t mg g in
            record {
              metas = λ q i.
                  others.metas q (ground (arith, i))
                  ∙ one.metas q (ground (arith, i))
                  ∙ update_other s.pkt_meta pkt q m (λ z. ground (arith, i, z));
              rings = others.rings ∙ one.rings;
            }
        | inr k ↦
            subst (Aside (pkt ∷ pkts) s) (some-injective (drop_pkt pkt marked) t (rw k at e))
              (record {
                metas = λ q i. update_other s.pkt_meta pkt q m (λ z. ground (arith, i, z));
                rings = refl;
              })
      ]
