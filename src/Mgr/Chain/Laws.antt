-- ===== src/Mgr/Chain/Laws.antt =====
-- A chain as the list of its hops.
use afxdp_path_manager.Common.{
  ℕ, zero, suc, ◌+◌, ◌≤◌, ◌<◌, ◌≡◌, ◌↔◌, refl, ◌∙◌, true, List, [], ◌∷◌, none, some, get_elem?, set,
  length, arith, length-set, ◌==◌, if◌then◌else◌, Bool-cases, leb, inl, inr,
}
use afxdp_path_manager.Mgr.Chain.{
  Entry, Chain, onvm_max_chain_length, append_entry, next_action, next_destination,
  onvm_nf_action_drop,
}

-- The array has its size, and the chain lies inside it.
pub record IsChain (c : Chain) : Type 0 where
  pub sized : length c.sc ≡ onvm_max_chain_length
  pub inside : c.chain_length < onvm_max_chain_length

-- onvm_sc_append_entry writes behind the end of the array just when the three hops that it has room for are
-- taken: the test for ENOSPC lets it pass.
pub append_entry-none_iff :
    (c : Chain) (action destination : ℕ)
    → length c.sc ≡ onvm_max_chain_length
    → (append_entry c action destination ≡ none) ↔ ((3 ≤ c.chain_length) × (c.chain_length ≤ 4))
unfolding append_entry
append_entry-none_iff c action destination s = ground (arith, s)

get_elem?-set :
    (es : List Entry) (i j : ℕ) (e : Entry)
    → i < length es
    → get_elem? (set es i e) j ≡ (if j == i then some e else get_elem? es j)
get_elem?-set [] i j e h = ground (arith, h)
get_elem?-set (d ∷ es) zero zero e h = refl
get_elem?-set (d ∷ es) zero (suc j) e h = ground arith
get_elem?-set (d ∷ es) (suc i) zero e h = ground arith
get_elem?-set (d ∷ es) (suc i) (suc j) e h = ground (arith, h, get_elem?-set es i j e)

-- With a hop free, onvm_sc_append_entry adds one: behind the old last hop the chain names the new action and
-- destination, and behind the new one it drops; what it says of the other hops stays.
pub append_entry_lem :
    (c : Chain) (action destination i : ℕ)
    → IsChain c
    → c.chain_length < 3
    → (d : Chain) × (append_entry c action destination ≡ some (true, d))
      × IsChain d
      × (next_action d i ≡ (if i == c.chain_length then some action else next_action c i))
      × (next_destination d i
          ≡ (if i == c.chain_length then some destination else next_destination c i))
unfolding append_entry next_action next_destination
append_entry_lem c action destination i v h =
    let e : Entry = record { destination = destination; action = action } in
    let n = c.chain_length + 1 in
    let d : Chain = record { sc = set c.sc n e; chain_length = n } in
    let found = get_elem?-set c.sc n (i + 1) e (omega (arith, v.sized, h)) in
    (
      d,
      ground (arith, v.sized, h),
      record { sized = length-set c.sc n e ∙ v.sized; inside = omega (arith, h) },
      ground (arith, found, h),
      ground (arith, found, h),
    )

-- A chain whose hops name one of the first `services` services or ports.
pub record IsRouted (services : ℕ) (c : Chain) : Type 0 where
  pub chain : IsChain c
  pub hops : (i : ℕ) (e : Entry) → get_elem? c.sc i ≡ some e → e.destination < services

get_elem?-inside :
    (es : List Entry) (i : ℕ) → i < length es → (e : Entry) × (get_elem? es i ≡ some e)
get_elem?-inside [] i h = absurd (omega arith)
get_elem?-inside (e ∷ es) zero h = (e, refl)
get_elem?-inside (d ∷ es) (suc i) h = get_elem?-inside es i (omega arith)

-- The next hop is defined at every index, and one of those.
pub next_hop_defined :
    (services : ℕ) (c : Chain) (i : ℕ)
    → 0 < services
    → IsRouted services c
    → (action : ℕ) × (destination : ℕ) × (next_action c i ≡ some action)
      × (next_destination c i ≡ some destination)
      × (destination < services)
unfolding next_action next_destination
next_hop_defined services c i p v = elim (Bool-cases (leb c.chain_length i)) [
  | inl e ↦
      (onvm_nf_action_drop, 0, rw (next_action, e) refl, rw (next_destination, e) refl, omega arith)
  | inr e ↦
      let found =
        get_elem?-inside c.sc (i + 1) (ground (arith, e, v.chain.sized, v.chain.inside)) in
      let entry = found.0 in
      (
        entry.action,
        entry.destination,
        rw (next_action, e, found.1) refl,
        rw (next_destination, e, found.1) refl,
        v.hops (i + 1) entry found.1,
      )
]
