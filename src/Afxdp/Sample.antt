-- ===== src/Afxdp/Sample.antt =====
-- Rings as plain lists: a kernel that keeps the promises of `Ring`, for the tests.
use afxdp_path_manager.Common.{
  ℕ, zero, suc, ◌+◌, ◌-◌, ◌≤◌, ◌<◌, ◌≡◌, refl, sym, ap, ◌∙◌, inl, inr, List, [], ◌∷◌, ◌++◌, length,
  take, drop, get_or, min, append-nil, append_assoc, arith, leb, if◌then◌else◌, Bool-cases, le→leb,
  leb→le, take_all, take-append-drop, length-map, length-take, length-drop, length-append, add_u32,
  u32_mod,
}
use afxdp_path_manager.Afxdp.Config.{rx_ring_size, tx_ring_size, fill_ring_size, comp_ring_size}
use afxdp_path_manager.Afxdp.Ring.{
  Desc, addrs, ProdRing, ConsRing, ProdLaws, ConsLaws, Xsk, XskLaws, write_all, read_all,
}

module _ {ℓ} {A : Type ℓ} where
  take-take : (k n : ℕ) (xs : List A) → k ≤ n → take k (take n xs) ≡ take k xs
  take-take zero n xs h = refl
  take-take (suc k) zero xs h = absurd (omega arith)
  take-take (suc k) (suc n) [] h = refl
  take-take (suc k) (suc n) (x ∷ xs) h = ap (◌∷◌ x) (take-take k n xs (omega arith))

  drop-cons :
      (i : ℕ) (xs : List A) (d : A) → i < length xs → drop i xs ≡ get_or xs i d ∷ drop (i + 1) xs
  drop-cons i [] d h = absurd (omega arith)
  drop-cons zero (x ∷ xs) d h = refl
  drop-cons (suc i) (x ∷ xs) d h =
      let e : suc i + 1 ≡ suc (i + 1) = omega arith in rw e (drop-cons i xs d (omega arith))

module _ (E : Type 0) (size : ℕ) (d : E) where
  abbrev pub cons_ring : ConsRing E
  cons_ring = record {
    Ring = List E;
    peek = λ r n. (min n (length (take size r)), 0, r);
    read = λ r i. get_or r i d;
    release = λ r n. drop n (take size r);
    entries = λ r. take size r;
  }

  read_all-eq-take :
      (r : List E) (i k : ℕ)
      → i + k ≤ length r
      → i + k < u32_mod
      → read_all cons_ring r i k ≡ take k (drop i r)
  unfolding read_all
  read_all-eq-take r i zero h w = refl
  read_all-eq-take r i (suc k) h w =
      let e : add_u32 i 1 ≡ i + 1 = omega arith in
      rw (drop-cons i r d (omega arith))
        (ap (◌∷◌ (get_or r i d)) (rw e (read_all-eq-take r (i + 1) k (omega arith) (omega arith))))

  pub cons_laws : size < u32_mod → ConsLaws cons_ring
  cons_laws small = record {
    peek_bound = λ r n. omega arith;
    peek_avail = λ r n. omega arith;
    read_peeked = λ r n.
        let k = min n (length (take size r)) in
        read_all-eq-take r 0 k (omega (arith, length-take size r))
          (omega (arith, length-take size r))
        ∙ sym (take-take k size r (omega (arith, length-take size r)));
    peek_keeps = λ r n. refl;
    release_peeked = λ r n.
        let k = min n (length (take size r)) in
        take_all size (drop k (take size r))
          (omega (arith, length-drop k (take size r), length-take size r));
  }

  pub record Prod : Type 0 where
    pub items : List E
    pub staged : List E

  abbrev pub prod_ring : ProdRing E
  prod_ring = record {
    Ring = Prod;
    nb_free = λ r n. size - length (take size r.items);
    reserve = λ r m.
        if leb m (size - length (take size r.items))
        then (m, 0, record r { staged = [] })
        else (0, 0, r);
    write = λ r i e. record r { staged = r.staged ++ e ∷ [] };
    submit = λ r n. record { items = take size r.items ++ r.staged; staged = [] };
    entries = λ r. take size r.items;
  }

  write_all-staged :
      (es : List E) (r : Prod) (i : ℕ)
      → write_all prod_ring r i es ≡ record r { staged = r.staged ++ es }
  unfolding write_all
  write_all-staged [] r i = λ j. record r { staged = sym (append-nil r.staged) j }
  write_all-staged (e ∷ es) r i =
      write_all-staged es (record r { staged = r.staged ++ e ∷ [] }) (add_u32 i 1) ∙ λ j. record r {
        staged = append_assoc r.staged (e ∷ []) es j;
      }

  prod_publish :
      (r : Prod) (es : List E)
      → let slots = prod_ring.reserve r (length es) in
        slots.0 ≡ length es
        → prod_ring.entries (prod_ring.submit (write_all prod_ring slots.2 slots.1 es) (length es))
          ≡ prod_ring.entries r ++ es
  prod_publish r es h = elim (Bool-cases (leb (length es) (size - length (take size r.items)))) [
    | inl e ↦
        let fits = leb→le _ _ e in
        rw (e, write_all-staged es (record r { staged = [] }) 0)
          (take_all size (take size r.items ++ es)
            (omega (arith, length-append (take size r.items) es, length-take size r.items)))
    | inr e ↦ let h' : 0 ≡ length es = rw e at h in absurd (ground arith)
  ]

  pub prod_laws : ProdLaws prod_ring size
  prod_laws = record {
    nb_free_bound = λ r n. omega (arith, length-take size r.items);
    nb_free_exact = λ r n. inr (omega (arith, length-take size r.items));
    reserve_granted = λ r n m h. rw (le→leb m (size - length (take size r.items)) h) refl;
    publish = prod_publish;
  }

abbrev no_desc : Desc
no_desc = record { addr = 0; len = 0 }

-- The kernel transmits as much as the completion ring has room for.
abbrev room : List ℕ → List Desc → ℕ
room c ds = min (length ds) (comp_ring_size - length c)

abbrev pub sample_xsk : Xsk
sample_xsk = record {
  rx = cons_ring Desc rx_ring_size no_desc;
  tx = prod_ring Desc tx_ring_size no_desc;
  fq = prod_ring ℕ fill_ring_size 0;
  cq = cons_ring ℕ comp_ring_size 0;
  sendto = λ t c.
      let ds = take tx_ring_size t.items in
      let done = take comp_ring_size c in
      let k = room done ds in
      (record { items = drop k ds; staged = [] }, done ++ addrs (take k ds));
}

sample_sendto :
    (t : Prod Desc tx_ring_size no_desc) (c : List ℕ)
    → (sent : List Desc) × (take tx_ring_size t.items
        ≡ sent ++ take tx_ring_size (sample_xsk.sendto t c).0.items)
      × (take comp_ring_size (sample_xsk.sendto t c).1 ≡ take comp_ring_size c ++ addrs sent)
sample_sendto t c =
    let ds = take tx_ring_size t.items in
    let done = take comp_ring_size c in
    let k = room done ds in
    let left : take tx_ring_size (drop k ds) ≡ drop k ds =
      take_all tx_ring_size (drop k ds)
        (omega (arith, length-drop k ds, length-take tx_ring_size t.items)) in
    (
      take k ds,
      sym (take-append-drop k ds) ∙ ap (λ xs. take k ds ++ xs) (sym left),
      take_all comp_ring_size (done ++ addrs (take k ds)) (
          omega (
            arith,
            length-append done (addrs (take k ds)),
            length-map (λ (d : Desc). d.addr) (take k ds),
            length-take k ds,
            length-take comp_ring_size c,
          )),
    )

pub sample_laws : XskLaws sample_xsk
sample_laws = record {
  rx = cons_laws Desc rx_ring_size no_desc (omega arith);
  tx = prod_laws Desc tx_ring_size no_desc;
  fq = prod_laws ℕ fill_ring_size 0;
  cq = cons_laws ℕ comp_ring_size 0 (omega arith);
  rx_bound = λ r. omega (arith, length-take rx_ring_size r);
  cq_bound = λ r. omega (arith, length-take comp_ring_size r);
  sendto_sent = sample_sendto;
}
