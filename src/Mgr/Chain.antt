-- ===== src/Mgr/Chain.antt =====
-- Service chains: onvm_sc_append_entry and onvm_sc_set_entry of onvm/onvm_nflib/onvm_sc_common.c, and the
-- look-ups of onvm/onvm_nflib/onvm_sc_mgr.h.
pub mod Laws
use afxdp_path_manager.Common.{
  ℕ, ◌+◌, Bool, true, false, List, Option, none, some, get_elem?, set, length, ltb, leb,
  if◌then◌else◌,
}

abbrev pub onvm_max_chain_length : ℕ
onvm_max_chain_length = 4

abbrev pub onvm_nf_action_drop : ℕ
onvm_nf_action_drop = 0

-- `struct onvm_service_chain_entry`
pub record Entry : Type 0 where
  pub destination : ℕ
  pub action : ℕ

-- `struct onvm_service_chain`, whose first entry is reserved
pub record Chain : Type 0 where
  pub sc : List Entry
  pub chain_length : ℕ

-- A write to the array; `none` is one behind its end.
abbrev pub write : Chain → ℕ → Entry → Option Chain
write chain i e =
    if leb (length chain.sc) i then none else some (record chain { sc = set chain.sc i e })

-- onvm_sc_append_entry: `false` is ENOSPC.
pub append_entry : Chain → ℕ → ℕ → Option (Bool × Chain)
append_entry chain action destination =
    let longer : Chain = record chain { chain_length = chain.chain_length + 1 } in
    if ltb onvm_max_chain_length chain.chain_length
    then some (false, chain)
    else elim (write longer (chain.chain_length + 1)
        (record { destination = destination; action = action })) [
          | none ↦ none
          | some written ↦ some (true, written)
        ]

-- onvm_sc_set_entry for an index that is not negative: `false` is -1.
pub set_entry : Chain → ℕ → ℕ → ℕ → Option (Bool × Chain)
set_entry chain entry action destination =
    if ltb chain.chain_length entry
    then some (false, chain)
    else elim (write chain entry (record { destination = destination; action = action })) [
      | none ↦ none
      | some written ↦ some (true, written)
    ]

-- The entry behind `cur_nf`, where the chain has one; the outer `none` is a read behind the end of the array.
abbrev pub entry_behind : Chain → ℕ → Option (Option Entry)
entry_behind chain cur_nf =
    if leb chain.chain_length cur_nf
    then some none
    else elim (get_elem? chain.sc (cur_nf + 1)) [ none ↦ none | some e ↦ some (some e) ]

-- onvm_next_action
unfoldable pub next_action : Chain → ℕ → Option ℕ
next_action chain cur_nf = elim (entry_behind chain cur_nf) [
  | none ↦ none
  | some found ↦ some (elim found [ none ↦ onvm_nf_action_drop | some e ↦ e.action ])
]

-- onvm_next_destination
unfoldable pub next_destination : Chain → ℕ → Option ℕ
next_destination chain cur_nf = elim (entry_behind chain cur_nf) [
  | none ↦ none
  | some found ↦ some (elim found [ none ↦ 0 | some e ↦ e.destination ])
]
