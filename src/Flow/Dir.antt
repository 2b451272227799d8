-- ===== src/Flow/Dir.antt =====
-- The flow table over rte_hash (onvm/onvm_nflib/onvm_flow_table.c) and the flow director
-- (onvm/onvm_nflib/onvm_flow_dir.c). The functions for a packet and those for a key differ in where the key and its
-- signature come from. `none` as an index is a negative error; `int` does not overflow.
pub mod Laws
use afxdp_path_manager.Common.{
  ℕ, zero, suc, List, [], ◌∷◌, ◌++◌, Option, none, some, if◌then◌else◌, update, ℤ, pos, negsuc,
  leb_ℤ, ◌≡◌, ◌≢◌,
}
use afxdp_path_manager.Flow.Key.{Key, fill_key}

-- What is called of rte_hash, with the signature given
pub record HashLib : Type 1 where
  pub Hash : Type 0
  pub add : Hash → Key → ℕ → Option ℕ × Hash
  pub find : Hash → Key → ℕ → Option ℕ
  pub del : Hash → Key → ℕ → Option ℕ × Hash
  -- rte_softrss_be over the key's fields
  pub softrss : Key → ℕ

-- A key and its signature
abbrev pub Signed : Type 0
Signed = Key × ℕ

-- What is relied on: a key that was deleted is not found, and no other key moves.
pub record HashLaws (H : HashLib) : Type 0 where
  pub find_deleted : (h : H.Hash) (k : Key) (sig : ℕ) → H.find (H.del h k sig).1 k sig ≡ none
  pub find_other :
      (h : H.Hash) (k l : Key) (sig other : ℕ)
      → k ≢ l
      → H.find (H.del h k sig).1 l other ≡ H.find h l other

-- The pointers of `struct onvm_flow_entry`
pub record FlowEntry : Type 0 where
  pub key : ℕ
  pub sc : ℕ

-- The table, its data array, the reference counts of the chains by pointer, and the pointers given to rte_free
pub record FlowDir (H : HashLib) : Type 0 where
  pub hash : H.Hash
  pub entries : ℕ → FlowEntry
  pub ref_cnt : ℕ → ℤ
  pub freed : List ℕ

-- `x--`
abbrev pub decrement : ℤ → ℤ
decrement (pos zero) = negsuc 0
decrement (pos (suc n)) = pos n
decrement (negsuc n) = negsuc (suc n)

-- The key of a packet with the given hash; the inner `none` is -EPROTONOSUPPORT.
pub of_pkt : List ℕ → ℕ → Option (Option Signed)
unfolding fill_key
of_pkt bytes rss = elim (fill_key bytes) [
  | none ↦ none
  | some none ↦ some none
  | some (some key) ↦ some (some (key, rss))
]

module _ {H : HashLib} where
  -- onvm_ft_lookup_pkt and onvm_ft_lookup_key
  abbrev pub lookup : Option Signed → FlowDir H → Option ℕ
  lookup none s = none
  lookup (some (key, sig)) s = H.find s.hash key sig

  -- onvm_ft_add_pkt and onvm_ft_add_key, which onvm_flow_dir_add_pkt and onvm_flow_dir_add_key call
  unfoldable pub add : Option Signed → FlowDir H → Option ℕ × FlowDir H
  add none s = (none, s)
  add (some (key, sig)) s =
      let (index, hash) = H.add s.hash key sig in (index, record s { hash = hash })

  -- onvm_ft_remove_pkt and onvm_ft_remove_key
  unfoldable pub remove : Option Signed → FlowDir H → Option ℕ × FlowDir H
  remove none s = (none, s)
  remove (some (key, sig)) s =
      let (index, hash) = H.del s.hash key sig in (index, record s { hash = hash })

  -- onvm_flow_dir_del_and_free_pkt and onvm_flow_dir_del_and_free_key
  unfoldable pub del_and_free : Option Signed → FlowDir H → Option ℕ × FlowDir H
  unfolding remove
  del_and_free at s = elim (lookup at s) [
    | none ↦ (none, s)
    | some i ↦ remove at (record s { freed = s.freed ++ (s.entries i).sc ∷ (s.entries i).key ∷ [] })
  ]

  -- onvm_flow_dir_del_pkt and onvm_flow_dir_del_key
  unfoldable pub del : Option Signed → FlowDir H → Option ℕ × FlowDir H
  unfolding del_and_free
  del at s = elim (lookup at s) [
    | none ↦ (none, s)
    | some i ↦
        let sc = (s.entries i).sc in
        let ref_cnt = s.ref_cnt sc in
        let fewer = record s { ref_cnt = update s.ref_cnt sc (decrement ref_cnt) } in
        if leb_ℤ ref_cnt (pos 0) then del_and_free at fewer else (some i, fewer)
  ]

  -- So many calls of onvm_flow_dir_del_pkt or onvm_flow_dir_del_key
  pub del_times : ℕ → Option Signed → FlowDir H → FlowDir H
  unfolding del
  del_times zero at s = s
  del_times (suc n) at s = del_times n at (del at s).1
