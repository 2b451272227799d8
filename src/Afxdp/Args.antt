-- ===== src/Afxdp/Args.antt =====
-- afxdp_parse_args of onvm/onvm_mgr/afxdp/onvm_afxdp.c. The options come from `getopt`, in order, with
-- the values that `atoi` and `atoll` read; texts are lists of bytes without the final zero.
pub mod Laws
use Prim.Native.String.{String}
use Prim.Native.Char.{code}
use afxdp_path_manager.Common.{
  ℕ, ◌-◌, ℤ, pos, negsuc, Bool, true, false, List, [], ◌∷◌, Option, none, some, take, leb_ℤ,
  to_word, u32_mod, u64_mod, if◌then◌else◌, ◌>>=◌,
}

abbrev pub bytes : String → List ℕ
bytes String.[] = []
bytes (String.◌∷◌ c s) = code c ∷ bytes s

-- `enum xdp_attach_mode`, the values that the program uses.
pub data AttachMode : Type 0 where
  unspec native skb : AttachMode

-- `struct afxdp_config`. Of `xsk_bind_flags` the program sets two bits, XDP_COPY and XDP_ZEROCOPY;
-- `xdp_flags` stays 0.
pub record Config : Type 0 where
  pub pkt_limit : ℕ
  pub ifname : List ℕ
  pub xdp_obj_file : List ℕ
  pub xdp_prog_name : List ℕ
  pub attach_mode : AttachMode
  pub time_to_live : ℕ
  pub ifindex : ℤ
  pub xsk_if_queue : ℤ
  pub stats_interval : ℤ
  pub bind_copy : Bool
  pub bind_zerocopy : Bool
  pub xsk_poll_mode : Bool
  pub custom_xdp_prog : Bool
  pub verbose : Bool

-- An option with its argument; `help` is `-h`, and each letter that `getopt` does not know.
pub data Opt : Type 0 where
  opt_d opt_f opt_P : List ℕ → Opt
  opt_Q opt_t opt_l : ℤ → Opt
  opt_S opt_N opt_c opt_z opt_p opt_v help : Opt

-- AFXDP_DEFAULT_XDP_OBJ and AFXDP_DEFAULT_XDP_PROG
abbrev pub default_xdp_obj : List ℕ
default_xdp_obj = bytes "afxdp/af_xdp_kern.o"

abbrev pub default_xdp_prog : List ℕ
default_xdp_prog = bytes "xdp_sock_prog"

-- `strncpy` into an array of `size` bytes whose last byte stays zero
abbrev pub copy_text : ℕ → List ℕ → List ℕ
copy_text size text = take (size - 1) text

abbrev pub if_namesize : ℕ
if_namesize = 16

unfoldable pub defaults : Config
defaults = record {
  pkt_limit = 0;
  ifname = copy_text if_namesize (bytes "eth0");
  xdp_obj_file = [];
  xdp_prog_name = [];
  attach_mode = unspec;
  time_to_live = 0;
  ifindex = negsuc 0;
  xsk_if_queue = pos 0;
  stats_interval = pos 2;
  bind_copy = false;
  bind_zerocopy = false;
  xsk_poll_mode = false;
  custom_xdp_prog = false;
  verbose = false;
}

-- A round of the option loop; `none` is `exit(EXIT_FAILURE)`.
unfoldable pub apply_opt : Config → Opt → Option Config
apply_opt cfg (opt_d arg) = some (record cfg { ifname = copy_text if_namesize arg })
apply_opt cfg (opt_f arg) =
    some (record cfg { xdp_obj_file = copy_text 512 arg; custom_xdp_prog = true })
apply_opt cfg (opt_P arg) = some (record cfg { xdp_prog_name = copy_text 64 arg })
apply_opt cfg (opt_Q n) = some (record cfg { xsk_if_queue = n })
apply_opt cfg (opt_t n) = some (record cfg { time_to_live = to_word u32_mod n })
apply_opt cfg (opt_l n) = some (record cfg { pkt_limit = to_word u64_mod n })
apply_opt cfg opt_S = some (record cfg { attach_mode = skb; bind_copy = true })
apply_opt cfg opt_N = some (record cfg { attach_mode = native })
apply_opt cfg opt_c = some (record cfg { bind_copy = true })
apply_opt cfg opt_z = some (record cfg { bind_zerocopy = true })
apply_opt cfg opt_p = some (record cfg { xsk_poll_mode = true })
apply_opt cfg opt_v = some (record cfg { verbose = true })
apply_opt cfg help = none

unfoldable pub apply_opts : Config → List Opt → Option Config
apply_opts cfg [] = some cfg
apply_opts cfg (o ∷ os) = apply_opt cfg o >>= λ cfg'. apply_opts cfg' os

-- The part behind the option loop: the interface, and the default program.
unfoldable pub finish : (List ℕ → ℤ) → Config → Option Config
finish if_nametoindex cfg =
    let ifindex = if_nametoindex cfg.ifname in
    if leb_ℤ ifindex (pos 0)
    then none
    else some (record cfg {
      ifindex = ifindex;
      xdp_obj_file =
          if cfg.custom_xdp_prog then cfg.xdp_obj_file else copy_text 512 default_xdp_obj;
      xdp_prog_name =
          if cfg.custom_xdp_prog then cfg.xdp_prog_name else copy_text 64 default_xdp_prog;
      custom_xdp_prog = true;
    })

-- afxdp_parse_args, with `if_nametoindex` of the C library.
unfoldable pub parse_args : (List ℕ → ℤ) → List Opt → Option Config
unfolding apply_opts finish defaults
parse_args if_nametoindex opts = apply_opts defaults opts >>= finish if_nametoindex
