-- ===== src/Flow/Dir/Laws.antt =====
-- The reference counts of the flow director.
use afxdp_path_manager.Common.{
  ℕ, zero, suc, ◌≡◌, ◌≢◌, refl, ap, ◌∙◌, [], ◌∷◌, ◌++◌, none, some, ◌==◌, ℤ, pos, leb_ℤ, arith,
  true, false,
}
use afxdp_path_manager.Flow.Key.{Key}
use afxdp_path_manager.Flow.Dir.{HashLib, HashLaws, FlowDir, remove, del_and_free, del, del_times}

module _ {H : HashLib} (L : HashLaws H) where
  -- What a flow that is found is
  pub record Held (k : Key) (sig i : ℕ) (n : ℤ) (s : FlowDir H) : Type 0 where
    pub found : H.find s.hash k sig ≡ some i
    pub count : s.ref_cnt (s.entries i).sc ≡ n

  -- With a count above 0 a deletion only lowers it.
  del-lowers :
      (k : Key) (sig i n : ℕ) (s : FlowDir H)
      → Held k sig i (pos (suc n)) s
      → let t = (del (some (k, sig)) s).1 in
        Held k sig i (pos n) t × (t.freed ≡ s.freed) × (t.entries ≡ s.entries) × (t.hash ≡ s.hash)
  unfolding del
  del-lowers k sig i n s v =
      let here : ((s.entries i).sc == (s.entries i).sc) ≡ true = ground arith in
      let more : leb_ℤ (pos (suc n)) (pos 0) ≡ false = ground arith in
      rw (del, v.found, v.count, more)
        (record { found = v.found; count = rw here refl }, refl, refl, refl)

  -- With the count 0 a deletion frees the chain and the key, and removes the flow.
  del-frees :
      (k : Key) (sig i : ℕ) (s : FlowDir H)
      → Held k sig i (pos 0) s
      → let t = (del (some (k, sig)) s).1 in
        (H.find t.hash k sig ≡ none)
        × (t.freed ≡ s.freed ++ (s.entries i).sc ∷ (s.entries i).key ∷ [])
        × (t.entries ≡ s.entries)
        × ((l : Key) (other : ℕ) → k ≢ l → H.find t.hash l other ≡ H.find s.hash l other)
  unfolding del del_and_free remove
  del-frees k sig i s v =
      rw (del, v.found, v.count, del_and_free, v.found, remove)
        (L.find_deleted s.hash k sig, refl, refl, λ l other p. L.find_other s.hash k l sig other p)

  -- A flow whose chain has the reference count `n` survives `n` calls of onvm_flow_dir_del_pkt, which free nothing; the
  -- next one removes it and frees its chain and its key. Another flow stays, with the chain it had, even if
  -- that is the freed one.
  pub del_times_lem :
      (k l : Key) (sig other i n : ℕ) (s : FlowDir H)
      → k ≢ l
      → Held k sig i (pos n) s
      → let t = del_times n (some (k, sig)) s in
        let u = del_times (suc n) (some (k, sig)) s in
        (H.find t.hash k sig ≡ some i)
        × (t.freed ≡ s.freed)
        × (H.find u.hash k sig ≡ none)
        × (u.freed ≡ s.freed ++ (s.entries i).sc ∷ (s.entries i).key ∷ [])
        × (H.find u.hash l other ≡ H.find s.hash l other)
        × (u.entries ≡ s.entries)
  unfolding del_times
  del_times_lem k l sig other i zero s p v =
      let (gone, freed, same, others) = del-frees k sig i s v in
      (v.found, refl, gone, freed, others l other p, same)
  del_times_lem k l sig other i (suc n) s p v =
      let (held, none_freed, same, same_hash) = del-lowers k sig i n s v in
      let t = (del (some (k, sig)) s).1 in
      let (found, freed_t, gone, freed, others, same_u) =
        del_times_lem k l sig other i n (del (some (k, sig)) s).1 p held in
      (
        found,
        freed_t ∙ none_freed,
        gone,
        freed
            ∙ ap (λ l. l ++ (t.entries i).sc ∷ (t.entries i).key ∷ []) none_freed
            ∙ ap (λ e. s.freed ++ (e i).sc ∷ (e i).key ∷ []) same,
        others ∙ ap (λ h. H.find h l other) same_hash,
        same_u ∙ same,
      )
