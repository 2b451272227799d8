-- ===== src/Routing/Queues/Returns.antt =====
-- The operations on the buffers of onvm/onvm_nflib/onvm_pkt_common.c return, keep every packet, and leave room.
use afxdp_path_manager.Common.{
  ℕ, ◌+◌, ◌<◌, ◌≡◌, ◌≢◌, refl, ap, ◌∙◌, true, false, List, [], ◌∷◌, ◌++◌, Option, some, length,
  take, drop, count, count-append, length-append, update, total-update, ◌==◌, Bool-cases, ◌⊎◌, inl,
  inr, arith, ltb, leb, ◌>>=◌, if◌then◌else◌,
}
use afxdp_path_manager.Mgr.Services.{max_nfs, max_services, Mgr, is_valid, service_to_nf_map}
use afxdp_path_manager.Mgr.Services.History.{IsConsistent, service_to_nf_map-mapped}
use afxdp_path_manager.Routing.{packet_read_size, rte_max_ethports, Dpdk, DpdkLaws, Env, Switch}
use afxdp_path_manager.Routing.Queues.{
  drop_pkt, count_in, add_tx_drop, buffer_nf, enqueue_nf, send_port, flush_port_queue, flush_ports,
  enqueue_port, add_to_port_buf,
}
use afxdp_path_manager.Routing.Queues.Account.{
  drop_batch_lem, held, HasRoom, held-buffer_nf, held-send_port,
}
use afxdp_path_manager.Routing.Queues.Room.{buffer_nf-HasRoom}

-- The instance that the service map names for a service runs and stands in the table, or it is 0, and then the
-- service has no NF that is ready.
pub service_to_nf_map-runs :
    (m : Mgr) (service rss : ℕ)
    → IsConsistent m
    → let id = service_to_nf_map service rss m in
      ((is_valid (m.nfs id) ≡ true) × ((m.nfs id).service_id ≡ service) × (id ≢ 0) × (id < max_nfs))
      ⊎ (id ≡ 0)
service_to_nf_map-runs m service rss c =
    let id = service_to_nf_map service rss m in
    ground
      (arith, service_to_nf_map-mapped m service rss 0 c, c.mapped.unpaused id, c.mapped.bounded id)

module _ {D : Dpdk} where
  -- The packets `pkts` have come in and all others are where they were or further on, once each; no buffer
  -- is full.
  pub record Takes (pkts : List ℕ) (s t : Switch D) : Type 0 where
    pub account : (a : ℕ) → held a t ≡ held a s + count a pkts
    pub room : HasRoom t

  pub Takes-trans :
      {xs ys : List ℕ} {s t u : Switch D} → Takes xs s t → Takes ys t u → Takes (xs ++ ys) s u
  Takes-trans {xs} {ys} v w = record {
    account = λ a. omega (arith, v.account a, w.account a, count-append a xs ys);
    room = w.room;
  }

  pub Takes-none : {s : Switch D} → HasRoom s → Takes [] s s
  Takes-none v = record { account = λ a. omega arith; room = v }

  pub drop_pkt-Takes :
      (pkt : ℕ) (source : Option ℕ) (s : Switch D)
      → HasRoom s
      → Takes (pkt ∷ []) s (count_in (add_tx_drop 1) source (drop_pkt pkt s))
  unfolding held
  drop_pkt-Takes pkt source s v = record {
    account = λ a. omega (arith, count-append a s.freed (pkt ∷ []));
    room = record { nf_bufs = v.nf_bufs; port_bufs = v.port_bufs; own_buf = v.own_buf };
  }

  held-add_to_port_buf :
      (a port pkt : ℕ) (s : Switch D)
      → port < rte_max_ethports
      → held a (add_to_port_buf port pkt s) ≡ held a s + count a (pkt ∷ [])
  unfolding held
  held-add_to_port_buf a port pkt s h =
      let longer =
        total-update (count a) s.port_tx_bufs rte_max_ethports port
          (s.port_tx_bufs port ++ pkt ∷ []) h in
      omega (arith, longer, count-append a (s.port_tx_bufs port) (pkt ∷ []))

module _ {D : Dpdk} (L : DpdkLaws D) where
  -- onvm_pkt_enqueue_nf takes the packet, whatever NF the map names.
  pub enqueue_nf-Takes :
      (env : Env) (service pkt : ℕ) (source : Option ℕ) (s : Switch D)
      → IsConsistent env.mgr
      → service < max_services
      → HasRoom s
      → (t : Switch D) × (enqueue_nf env service pkt source s ≡ some t) × Takes (pkt ∷ []) s t
  unfolding enqueue_nf
  enqueue_nf-Takes env service pkt source s c h v =
      let id = service_to_nf_map service (env.rss pkt) env.mgr in
      let known : leb max_services service ≡ false = ground (arith, h) in
      elim (service_to_nf_map-runs env.mgr service (env.rss pkt) c) [
        | inl (valid, own, nonzero, below) ↦
            let z : (id == 0) ≡ false = ground (arith, nonzero) in
            let b : leb max_nfs id ≡ false = ground (arith, below) in
            let r : leb packet_read_size (length (s.nf_rx_bufs id)) ≡ false =
              ground (arith, v.nf_bufs id) in
            (
              buffer_nf env id pkt source s,
              rw (known, z, b, valid, r) refl,
              record {
                account = λ a. held-buffer_nf L env a id pkt source s below;
                room = buffer_nf-HasRoom env id pkt source s valid v;
              },
            )
        | inr nobody ↦
            let z : (id == 0) ≡ true = ground (arith, nobody) in
            (
              count_in (add_tx_drop 1) source (drop_pkt pkt s),
              rw (known, z) refl,
              drop_pkt-Takes pkt source s v,
            )
      ]

  send_port-Takes :
      (env : Env) (port : ℕ) (s : Switch D)
      → port < rte_max_ethports
      → ((i : ℕ) → i ≢ port → length (s.port_tx_bufs i) < packet_read_size)
      → ((i : ℕ) → length (s.nf_rx_bufs i) < packet_read_size)
      → length s.to_tx_buf < packet_read_size
      → Takes [] s (send_port env port s)
  unfolding send_port
  send_port-Takes env port s h others nfs own =
      let buf = s.port_tx_bufs port in
      let (n, nic) = D.tx_burst s.nic port env.queue_id buf in
      let out : Switch D = record s { nic = nic; sent = s.sent ++ take n buf } in
      let ports : (i : ℕ) → length (update s.port_tx_bufs port [] i) < packet_read_size =
        λ i. ground (arith, others i) in
      record {
        account = λ a. omega (arith, held-send_port L env a port s h);
        room = elim (Bool-cases (ltb n (length buf))) [
          | inl e ↦
              rw (e, drop_batch_lem (drop n buf) out)
                (record { nf_bufs = nfs; port_bufs = ports; own_buf = own })
          | inr e ↦ rw e (record { nf_bufs = nfs; port_bufs = ports; own_buf = own })
        ];
      }

  pub flush_port_queue-Takes :
      (env : Env) (port : ℕ) (s : Switch D)
      → port < rte_max_ethports
      → HasRoom s
      → (t : Switch D) × (flush_port_queue env port s ≡ some t) × Takes [] s t
  unfolding flush_port_queue
  flush_port_queue-Takes env port s h v =
      let known : leb rte_max_ethports port ≡ false = ground (arith, h) in
      elim (Bool-cases env.is_mgr) [
        | inr e ↦ (s, rw e refl, Takes-none v)
        | inl e ↦ elim (Bool-cases (length (s.port_tx_bufs port) == 0)) [
          | inl z ↦ (s, rw (e, known, z) refl, Takes-none v)
          | inr z ↦ (
            send_port env port s,
            rw (e, known, z) refl,
            send_port-Takes env port s h (λ i p. v.port_bufs i) v.nf_bufs v.own_buf,
          )
        ]
      ]

  -- onvm_pkt_flush_all_ports over ports that exist
  pub flush_ports-Takes :
      (env : Env) (ports : List ℕ) (s : Switch D)
      → ((port : ℕ) → 0 < count port ports → port < rte_max_ethports)
      → HasRoom s
      → (t : Switch D) × (flush_ports env ports s ≡ some t) × Takes [] s t
  unfolding flush_ports
  flush_ports-Takes env [] s h v = (s, refl, Takes-none v)
  flush_ports-Takes env (port ∷ ports) s h v =
      let first = flush_port_queue-Takes env port s (h port (ground arith)) v in
      let others =
        flush_ports-Takes env ports first.0 (λ p i. h p (ground (arith, i))) first.2.room in
      (
        others.0,
        ap (λ o. o >>= flush_ports env ports) first.1 ∙ others.1,
        Takes-trans first.2 others.2,
      )

  -- onvm_pkt_enqueue_port in the manager takes the packet if the port is set up, and otherwise nothing.
  pub enqueue_port-Takes :
      (env : Env) (port pkt : ℕ) (s : Switch D)
      → env.is_mgr ≡ true
      → port < rte_max_ethports
      → HasRoom s
      → (t : Switch D) × (enqueue_port env port pkt s ≡ some t)
        × Takes (if env.port_init port then pkt ∷ [] else []) s t
  unfolding enqueue_port
  enqueue_port-Takes env port pkt s m h v =
      let known : leb rte_max_ethports port ≡ false = ground (arith, h) in
      let added = add_to_port_buf port pkt s in
      let sum : (a : ℕ) → held a added ≡ held a s + count a (pkt ∷ []) =
        λ a. held-add_to_port_buf a port pkt s h in
      let room : leb packet_read_size (length (s.port_tx_bufs port)) ≡ false =
        ground (arith, v.port_bufs port) in
      elim (Bool-cases (env.port_init port)) [
        | inr e ↦ (s, rw (known, e) refl, rw e (Takes-none v))
        | inl e ↦ elim (Bool-cases (length (added.port_tx_bufs port) == packet_read_size)) [
          | inl full ↦
              let nonempty : (length (added.port_tx_bufs port) == 0) ≡ false =
                ground (arith, full) in
              let flushed =
                send_port-Takes env port added h (λ i p. ground (arith, v.port_bufs i, p)) v.nf_bufs
                  v.own_buf in
              let sent : Takes (pkt ∷ []) s (send_port env port added) = record {
                account = λ a. omega (arith, flushed.account a, sum a);
                room = flushed.room;
              } in
              (
                send_port env port added,
                rw (known, e, m, room, full, flush_port_queue, nonempty) refl,
                rw e sent,
              )
          | inr more ↦ (
            added,
            rw (known, e, m, room, more) refl,
            rw e (record {
              account = sum;
              room = record {
                nf_bufs = v.nf_bufs;
                port_bufs = λ i. ground (
                  arith,
                  more,
                  v.port_bufs i,
                  length-append (s.port_tx_bufs port) (pkt ∷ []),
                  room,
                );
                own_buf = v.own_buf;
              };
            }),
          )
        ]
      ]
