-- ===== src/Nflib/Scale.antt =====
-- onvm_nflib_scale of onvm/onvm_nflib/onvm_nflib.c: an NF wants another thread for a child. What pthread_create and
-- pthread_detach return are arguments. When no thread was
-- created, pthread_detach gets a handle that was never set: the answer of that call, if it returns, may be any.
pub mod Laws
use afxdp_path_manager.Common.{
  ℕ, zero, suc, Bool, false, not, ◌&&◌, Option, none, some, ◌==◌, ℤ, pos, negsuc, leb_ℤ,
  if◌then◌else◌,
}
use afxdp_path_manager.Nflib.{FunctionTable, Process, set_nf}

-- `struct onvm_nf_scale_info`: the service that the child asks for, its functions, its `data`, and the
-- parent's slot
pub record ScaleInfo : Type 0 where
  pub service_id : ℕ
  pub function_table : Option FunctionTable
  pub state_data : Option ℕ
  pub parent : ℕ

abbrev pub has_pkt_handler : Option FunctionTable → Bool
has_pkt_handler none = false
has_pkt_handler (some table) = table.pkt_handler

unfoldable pub is_scale_info_valid : ScaleInfo → ℤ
is_scale_info_valid info =
    if not (info.service_id == 0) && has_pkt_handler info.function_table then pos 1 else pos 0

-- rte_atomic16_inc and rte_atomic16_dec, on int16_t
abbrev pub inc_i16 : ℤ → ℤ
inc_i16 (pos n) = if n == 32767 then negsuc 32767 else pos (suc n)
inc_i16 (negsuc zero) = pos 0
inc_i16 (negsuc (suc n)) = negsuc n

abbrev pub dec_i16 : ℤ → ℤ
dec_i16 (pos zero) = negsuc 0
dec_i16 (pos (suc n)) = pos n
dec_i16 (negsuc n) = if n == 32767 then pos 32767 else negsuc (suc n)

abbrev pub set_children : ℕ → ℤ → Process → Process
set_children id n p = set_nf id (record (p.nfs id) { children_cnt = n }) p

-- `ret < 0`
abbrev pub is_negative : ℤ → Bool
is_negative ret = not (leb_ℤ (pos 0) ret)

unfoldable pub scale : ℤ → ℤ → ScaleInfo → Process → ℤ × Process
unfolding is_scale_info_valid
scale created detached info p =
    let id = (p.nfs info.parent).instance_id in
    let counted = set_children id (inc_i16 (p.nfs id).children_cnt) p in
    if is_negative (is_scale_info_valid info)
    then (negsuc 0, p)
    else if is_negative created
    then (negsuc 0, set_children id (dec_i16 (counted.nfs id).children_cnt) counted)
    else if is_negative detached
    then (negsuc 0, counted)
    else (pos 0, counted)

-- onvm_nflib_inherit_parent_config, for the parent's slot
unfoldable pub inherit_parent_config : ℕ → Option ℕ → Process → ScaleInfo
inherit_parent_config parent state_data p = record {
  service_id = (p.nfs parent).service_id;
  function_table = (p.nfs parent).function_table;
  state_data = state_data;
  parent = parent;
}

-- What onvm_nflib_start_child writes into the slot of a child that has started
unfoldable pub adopt : ℕ → ScaleInfo → Process → Process
adopt child info p =
    set_nf child
      (record (p.nfs child) {
        parent = (p.nfs info.parent).instance_id;
        function_table = info.function_table;
        state_data = info.state_data;
      })
      p
