-- ===== src/Routing/Queues/Order.antt =====
-- Packets for one NF stay in order: in its ring, and behind it in the buffer in front of the ring.
use mathlib.Core.List.{Sublistᴰ}
use mathlib.Core.List.Sublistᴰ
use afxdp_path_manager.Common.{
  ℕ, zero, suc, ◌≡◌, refl, sym, ap, ◌∙◌, subst, true, false, List, [], ◌∷◌, ◌++◌, Option, some,
  length, length-append, ◌+◌, ◌≤◌, ◌≢◌, append_assoc, append-nil, ◌==◌, Bool-cases, inl, inr, ◌⊎◌,
  arith, if◌then◌else◌,
}
use afxdp_path_manager.Mgr.Services.{is_valid, service_to_nf_map}
use afxdp_path_manager.Routing.{packet_read_size, Dpdk, DpdkLaws, Env, Switch}
use afxdp_path_manager.Routing.Queues.{
  flush_nf_queue, flush_nfs, buffer_nf, enqueue_nf, add_to_nf_buf, count_in, add_tx_drop, drop_pkt,
}
use afxdp_path_manager.Routing.Queues.Account.{flush_nf_queue-cases}

module _ {D : Dpdk} where
  -- What the NF in slot `i` will get, oldest first
  abbrev pub stream : ℕ → Switch D → List ℕ
  stream i s = D.entries (s.rx_q i) ++ s.nf_rx_bufs i

  -- The new packets are behind the old ones; some may have been dropped, and the others keep their order. None
  -- is dropped if the NF runs and its ring has room for all.
  pub record InOrder (env : Env) (pkts : List ℕ) (i : ℕ) (s t : Switch D) : Type 0 where
    pub sub : Sublistᴰ (stream i t) (stream i s ++ pkts)
    pub exact :
        is_valid (env.mgr.nfs i) ≡ true
        → i ≢ 0
        → length (stream i s) + length pkts ≤ D.capacity
        → stream i t ≡ stream i s ++ pkts

  -- Nothing was added.
  pub InOrder-kept :
      (env : Env) (i : ℕ) (s t : Switch D) → stream i t ≡ stream i s → InOrder env [] i s t
  InOrder-kept env i s t e = record {
    sub = rw (append-nil (stream i s), e) (Sublistᴰ.refl (stream i s));
    exact = λ valid nonzero room. e ∙ sym (append-nil (stream i s));
  }

  pub InOrder-refl : (env : Env) (i : ℕ) (s : Switch D) → InOrder env [] i s s
  InOrder-refl env i s = InOrder-kept env i s s refl

  pub InOrder-trans :
      {env : Env} {xs ys : List ℕ} {i : ℕ} {s t u : Switch D}
      → InOrder env xs i s t
      → InOrder env ys i t u
      → InOrder env (xs ++ ys) i s u
  InOrder-trans {env} {xs} {ys} {i} {s} {t} {u} v w = record {
    sub = Sublistᴰ.trans w.sub (
        subst (Sublistᴰ (stream i t ++ ys)) (append_assoc (stream i s) xs ys)
          (Sublistᴰ.append v.sub (Sublistᴰ.refl ys)));
    exact = λ valid nonzero room.
        let first : stream i t ≡ stream i s ++ xs =
          v.exact valid nonzero (omega (arith, room, length-append xs ys)) in
        let fits : length (stream i t) + length ys ≤ D.capacity =
          rw first (omega (arith, room, length-append xs ys, length-append (stream i s) xs)) in
        w.exact valid nonzero fits ∙ ap (λ l. l ++ ys) first ∙ append_assoc (stream i s) xs ys;
  }

module _ {D : Dpdk} (L : DpdkLaws D) where
  -- A flush moves the buffer into the ring, or drops it.
  pub flush_nf_queue-InOrder :
      (env : Env) (id i : ℕ) (source : Option ℕ) (s : Switch D)
      → InOrder env [] i s (flush_nf_queue env id source s)
  flush_nf_queue-InOrder env id i source s =
      let buf = s.nf_rx_bufs id in
      let old = D.entries (s.rx_q id) in
      let ring = (D.enqueue_bulk (s.rx_q id) buf).1 in
      flush_nf_queue-cases env id source s (λ t. InOrder env [] i s t) (λ e. InOrder-refl env i s)
        (λ n v t. InOrder-kept env i s _ (elim (Bool-cases (i == id)) [
          | inl e ↦
              let same : i ≡ id = ground (arith, e) in
              let here : (id == id) ≡ true = ground arith in
              rw (same, here, L.enqueue_taken (s.rx_q id) buf t) (append-nil (old ++ buf))
          | inr e ↦ rw e refl
        ]))
        (λ n v f. elim (Bool-cases (i == id)) [
          | inl e ↦
              let same : i ≡ id = ground (arith, e) in
              let here : (id == id) ≡ true = ground arith in
              record {
                sub =
                    rw (same, here, L.enqueue_refused (s.rx_q id) buf f, append-nil (old ++ buf))
                      (Sublistᴰ.append (Sublistᴰ.refl old) (Sublistᴰ.nil-sublist buf));
                exact = λ valid nonzero room.
                    let fits : length old + length buf ≤ D.capacity =
                      omega (arith, rw same at room, length-append old buf) in
                    let room_left = L.enqueue_room (s.rx_q id) buf fits in
                    ground (arith, f, room_left);
              }
          | inr e ↦ InOrder-kept env i s _ (rw e refl)
        ])

  pub flush_nfs-InOrder :
      (env : Env) (i : ℕ) (source : Option ℕ) (todo from : ℕ) (s : Switch D)
      → InOrder env [] i s (flush_nfs env source todo from s)
  unfolding flush_nfs
  flush_nfs-InOrder env i source zero from s = InOrder-refl env i s
  flush_nfs-InOrder env i source (suc todo) from s =
      InOrder-trans (flush_nf_queue-InOrder env from i source s)
        (flush_nfs-InOrder env i source todo (suc from) (flush_nf_queue env from source s))

  add_to_nf_buf-InOrder :
      (env : Env) (id i pkt : ℕ) (s : Switch D)
      → InOrder env (if id == i then pkt ∷ [] else []) i s (add_to_nf_buf id pkt s)
  add_to_nf_buf-InOrder env id i pkt s =
      let longer : stream i (add_to_nf_buf id pkt s)
          ≡ stream i s ++ (if id == i then pkt ∷ [] else []) =
        elim (Bool-cases (i == id)) [
          | inl e ↦
              let same : i ≡ id = ground (arith, e) in
              let back : (id == id) ≡ true = ground arith in
              rw (same, back)
                (sym (append_assoc (D.entries (s.rx_q id)) (s.nf_rx_bufs id) (pkt ∷ [])))
          | inr e ↦
              let back : (id == i) ≡ false = ground (arith, e) in
              rw (e, back) (sym (append-nil (stream i s)))
        ] in
      record { sub = rw longer (Sublistᴰ.refl _); exact = λ valid nonzero room. longer }

  -- A packet goes to the end of the stream of its NF.
  pub buffer_nf-InOrder :
      (env : Env) (id i pkt : ℕ) (source : Option ℕ) (s : Switch D)
      → InOrder env (if id == i then pkt ∷ [] else []) i s (buffer_nf env id pkt source s)
  unfolding buffer_nf
  buffer_nf-InOrder env id i pkt source s =
      let added = add_to_nf_buf id pkt s in
      let put = add_to_nf_buf-InOrder env id i pkt s in
      elim (Bool-cases (length (added.nf_rx_bufs id) == packet_read_size)) [
        | inl e ↦ rw e (
            subst (λ l. InOrder env l i s (flush_nf_queue env id source added))
              (append-nil (if id == i then pkt ∷ [] else []))
              (InOrder-trans put (flush_nf_queue-InOrder env id i source added)))
        | inr e ↦ rw e put
      ]

  pub enqueue_nf-result :
      (env : Env) (service pkt : ℕ) (source : Option ℕ) (s t : Switch D)
      → enqueue_nf env service pkt source s ≡ some t
      → let id = service_to_nf_map service (env.rss pkt) env.mgr in
        ((t ≡ count_in (add_tx_drop 1) source (drop_pkt pkt s))
          × ((id ≡ 0) ⊎ (is_valid (env.mgr.nfs id) ≡ false)))
        ⊎ (t ≡ buffer_nf env id pkt source s)
  unfolding enqueue_nf
  enqueue_nf-result env service pkt source s t e = ground (arith, e)

  -- onvm_pkt_enqueue_nf puts the packet at the end of the stream of the NF that the service map names, or drops it.
  pub enqueue_nf-InOrder :
      (env : Env) (service pkt i : ℕ) (source : Option ℕ) (s t : Switch D)
      → enqueue_nf env service pkt source s ≡ some t
      → InOrder env
          (if service_to_nf_map service (env.rss pkt) env.mgr == i then pkt ∷ [] else [])
          i
          s
          t
  enqueue_nf-InOrder env service pkt i source s t e =
      let id = service_to_nf_map service (env.rss pkt) env.mgr in
      elim (enqueue_nf-result env service pkt source s t e) [
        | inl (d, why) ↦ rw d (record {
          sub =
              subst (λ l. Sublistᴰ l (stream i s ++ (if id == i then pkt ∷ [] else [])))
                (append-nil (stream i s))
                (Sublistᴰ.append (Sublistᴰ.refl (stream i s)) (Sublistᴰ.nil-sublist _));
          exact = λ valid nonzero room.
              let other : (id == i) ≡ false = elim (Bool-cases (id == i)) [
                | inr o ↦ o
                | inl o ↦
                    let same : id ≡ i = ground (arith, o) in
                    let why_i = rw same at why in ground (arith, why_i, valid, nonzero)
              ] in
              rw other (sym (append-nil (stream i s)));
        })
        | inr b ↦ rw b (buffer_nf-InOrder env id i pkt source s)
      ]
