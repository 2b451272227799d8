-- ===== src/Nflib/Scale/Laws.antt =====
-- onvm_nflib_scale of onvm/onvm_nflib/onvm_nflib.c does not refuse.
use afxdp_path_manager.Common.{
  ℕ, ◌≡◌, refl, inl, inr, false, not, ◌&&◌, ◌==◌, Bool-cases, pos, arith,
}
use afxdp_path_manager.Nflib.{Process}
use afxdp_path_manager.Nflib.Scale.{
  ScaleInfo, has_pkt_handler, is_scale_info_valid, inc_i16, set_children, is_negative, scale,
}

pos-is_negative : (n : ℕ) → is_negative (pos n) ≡ false
pos-is_negative n = ground arith

valid-is_negative : (info : ScaleInfo) → is_negative (is_scale_info_valid info) ≡ false
unfolding is_scale_info_valid
valid-is_negative info =
    elim (Bool-cases (not (info.service_id == 0) && has_pkt_handler info.function_table)) [
      | inl e ↦ rw e (pos-is_negative 1)
      | inr e ↦ rw e (pos-is_negative 0)
    ]

-- Let pthread_create and pthread_detach return, with 0 or a positive error number. Then onvm_nflib_scale returns 0 and counts
-- a child more, whether the scale info is valid or not, and whether a thread was created or not.
pub scale-accepts :
    (created detached : ℕ) (info : ScaleInfo) (p : Process)
    → let id = (p.nfs info.parent).instance_id in
      scale (pos created) (pos detached) info p
      ≡ (pos 0, set_children id (inc_i16 (p.nfs id).children_cnt) p)
unfolding scale
scale-accepts created detached info p =
    rw (valid-is_negative info, pos-is_negative created, pos-is_negative detached) refl
