-- ===== src/Afxdp/Args/Laws.antt =====
-- What a configuration that afxdp_parse_args accepts is like.
use afxdp_path_manager.Common.{
  ℕ, ℤ, pos, ◌<◌, ◌<ℤ◌, ◌≡◌, ◌≢◌, ◌⊎◌, Bool, true, false, List, [], ◌∷◌, some, length, arith,
  length-take, Option-cases, inl, inr, u32_mod, u64_mod, subst, ◌||◌,
}
use afxdp_path_manager.Afxdp.Args.{
  Config, skb, Opt, opt_d, opt_f, opt_P, default_xdp_obj, default_xdp_prog, defaults, apply_opt,
  apply_opts, finish, parse_args,
}

-- The bounds of the fields, and that generic mode comes with copy mode.
pub record IsSane (cfg : Config) : Type 0 where
  pub ifname_fits : length cfg.ifname < 16
  pub obj_fits : length cfg.xdp_obj_file < 512
  pub prog_fits : length cfg.xdp_prog_name < 64
  pub ttl_fits : cfg.time_to_live < u32_mod
  pub limit_fits : cfg.pkt_limit < u64_mod
  pub skb_copies : (cfg.attach_mode ≢ skb) ⊎ (cfg.bind_copy ≡ true)

defaults-IsSane : IsSane defaults
unfolding defaults
defaults-IsSane = record {
  ifname_fits = omega arith;
  obj_fits = omega arith;
  prog_fits = omega arith;
  ttl_fits = omega arith;
  limit_fits = omega arith;
  skb_copies = inl (λ e. absurd (cc e));
}

apply_opt-IsSane :
    (cfg : Config) (o : Opt) {out : Config} → IsSane cfg → apply_opt cfg o ≡ some out → IsSane out
unfolding apply_opt
apply_opt-IsSane cfg (opt_d arg) v e = ground (arith, length-take 15 arg)
apply_opt-IsSane cfg (opt_f arg) v e = ground (arith, length-take 511 arg)
apply_opt-IsSane cfg (opt_P arg) v e = ground (arith, length-take 63 arg)
apply_opt-IsSane cfg _ v e = ground arith

apply_opts-IsSane :
    (os : List Opt) (cfg : Config) {out : Config}
    → IsSane cfg
    → apply_opts cfg os ≡ some out
    → IsSane out
unfolding apply_opts
apply_opts-IsSane [] cfg v e = subst IsSane (ground arith) v
apply_opts-IsSane (o ∷ os) cfg v e = elim (Option-cases (apply_opt cfg o)) [
  | inl miss ↦ absurd (ground arith)
  | inr (next, hit) ↦ apply_opts-IsSane os next (apply_opt-IsSane cfg o v hit) (ground arith)
]

-- Does an option name a program file?
abbrev names_obj : Opt → Bool
names_obj (opt_f arg) = true
names_obj _ = false

abbrev pub any_obj : List Opt → Bool
any_obj [] = false
any_obj (o ∷ os) = names_obj o || any_obj os

apply_opt-custom :
    (cfg : Config) (o : Opt) {out : Config}
    → apply_opt cfg o ≡ some out
    → out.custom_xdp_prog ≡ (names_obj o || cfg.custom_xdp_prog)
unfolding apply_opt
apply_opt-custom cfg (opt_f arg) e = ground arith
apply_opt-custom cfg _ e = ground arith

apply_opts-custom :
    (os : List Opt) (cfg : Config) {out : Config}
    → apply_opts cfg os ≡ some out
    → out.custom_xdp_prog ≡ (any_obj os || cfg.custom_xdp_prog)
unfolding apply_opts
apply_opts-custom [] cfg e = ground arith
apply_opts-custom (o ∷ os) cfg {out} e = elim (Option-cases (apply_opt cfg o)) [
  | inl miss ↦ absurd (ground arith)
  | inr (next, hit) ↦
      ground (arith, apply_opt-custom cfg o hit, apply_opts-custom os next {out = out})
]

-- What afxdp_parse_args returns has its texts inside their arrays with room for the final zero and
-- its limits inside their words; the interface exists; generic mode comes with copy mode; and the
-- flag that a program is loaded by hand is set.
pub parse_args-IsSane :
    (if_nametoindex : List ℕ → ℤ) (os : List Opt) {cfg : Config}
    → parse_args if_nametoindex os ≡ some cfg
    → IsSane cfg × (pos 0 <ℤ cfg.ifindex) × (cfg.custom_xdp_prog ≡ true)
unfolding parse_args finish
parse_args-IsSane if_nametoindex os {cfg} e = elim (Option-cases (apply_opts defaults os)) [
  | inl miss ↦ absurd (ground arith)
  | inr (mid, hit) ↦
      let v = apply_opts-IsSane os defaults defaults-IsSane hit in
      ground (arith, v.ifname_fits, v.obj_fits, v.prog_fits, v.ttl_fits, v.limit_fits, v.skb_copies)
]

-- Without `-f` the default program is loaded, whatever `-P` names.
pub parse_args-default :
    (if_nametoindex : List ℕ → ℤ) (os : List Opt) {cfg : Config}
    → any_obj os ≡ false
    → parse_args if_nametoindex os ≡ some cfg
    → (cfg.xdp_obj_file ≡ default_xdp_obj) × (cfg.xdp_prog_name ≡ default_xdp_prog)
unfolding parse_args finish defaults
parse_args-default if_nametoindex os {cfg} h e = elim (Option-cases (apply_opts defaults os)) [
  | inl miss ↦ absurd (ground arith)
  | inr (mid, hit) ↦ ground (arith, apply_opts-custom os defaults hit)
]
