-- ===== src/Nflib/Family.antt =====
-- A child that has its parent's functions by onvm_nflib_inherit_parent_config of onvm/onvm_nflib/onvm_nflib.c, when it
-- stops.
use afxdp_path_manager.Common.{
  ℕ, ◌≡◌, ◌≢◌, refl, ap, ◌∙◌, Bool, true, false, Option, none, some, ◌==◌, ℤ, arith,
}
use afxdp_path_manager.Nflib.{FunctionTable, LocalCtx, Process, returns}
use afxdp_path_manager.Nflib.Scale.{inherit_parent_config, adopt}
use afxdp_path_manager.Nflib.Stop.{StopAnswers, stop}
use afxdp_path_manager.Nflib.Stop.Laws.{IsOther, Owns, IsGood, without_all, stop-frees}

adopt-parent :
    (child parent : ℕ) (state_data : Option ℕ) (p : Process)
    → IsOther parent child
    → ((adopt child (inherit_parent_config parent state_data p) p).nfs parent).function_table
      ≡ (p.nfs parent).function_table
unfolding adopt inherit_parent_config
adopt-parent child parent state_data p h = rw h refl

gone : (live : ℕ → Bool) (m b bs t c : ℕ) → IsOther c t → without_all live m b bs t c t ≡ false
gone live m b bs t c h =
    let own : (t == t) ≡ true = ground arith in
    let other : (t == c) ≡ false = ground (arith, h) in rw (other, own) refl

-- Let a child start with what onvm_nflib_inherit_parent_config gives, without state data, and own its context and its
-- queue manager. When onvm_nflib_stop has stopped the child, the parent's functions are freed, and the parent's
-- pointer to them is what it was.
pub stop-inherited :
    (share_cores : Bool) (children : ℕ → ℤ) (a : StopAnswers) (ctx : LocalCtx) (p : Process)
    (parent child m b bs : ℕ) (table : FunctionTable)
    → parent ≢ child
    → (p.nfs parent).function_table ≡ some table
    → IsGood a
    → ctx.nf_init_finished ≡ true
    → ctx.nf_stopped ≡ false
    → ctx.nf ≡ some child
    → let q = adopt child (inherit_parent_config parent none p) p in
      Owns q child m b bs table.addr ctx.addr
      → (z : Process) × (stop share_cores children a ctx q ≡ returns z)
        × ((z.nfs parent).function_table ≡ some table)
        × (z.live table.addr ≡ false)
stop-inherited share_cores children a ctx p parent child m b bs table ne has good finished fresh nf
      o =
    let q = adopt child (inherit_parent_config parent none p) p in
    let other : IsOther parent child = ground (arith, ne) in
    let (z, is, sent, back, live, others) =
      stop-frees share_cores children a ctx q child m b bs table.addr good finished fresh nf o in
    (
      z,
      is,
      others parent other ∙ adopt-parent child parent none p other ∙ has,
      ap (λ l. l table.addr) live ∙ gone q.live m b bs table.addr ctx.addr o.other_c.3,
    )
