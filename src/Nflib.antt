-- ===== src/Nflib.antt =====
-- How an NF starts, runs, scales and stops with onvm/onvm_nflib/onvm_nflib.c: the state of its process, its part of
-- the table of NFs in shared memory, and the messages to the manager. What the operating system and DPDK answer are
-- arguments. An address of a block of memory is a number; `none` is NULL.
pub mod Start
pub mod Stop
pub mod Loop
pub mod Scale
mod Messages
mod Balance
mod Family
mod Dangling
mod Sample
mod Tests
use afxdp_path_manager.Common.{
  ◌≡◌, ◌≢◌, refl, ap, false≢true, ℕ, Bool, true, false, List, Option, none, some, ℤ, negsuc, update,
  if◌then◌else◌,
}
pub use afxdp_path_manager.Mgr.Services.{nf_waiting_for_id, nf_starting, nf_running, nf_id_conflict}
pub use afxdp_path_manager.Mgr.Cores.{nf_core_busy}

-- ONVM_SIGNAL_TERMINATION
abbrev pub onvm_signal_termination : ℤ
onvm_signal_termination = negsuc 998

-- `struct queue_mgr` of an NF, at its address
pub record TxMgr : Type 0 where
  pub addr : ℕ
  pub id : ℕ
  pub to_tx_buf : Option ℕ
  pub nf_rx_bufs : Option ℕ

-- `struct onvm_nf_function_table`: its address, and whether the function for packets is there
pub record FunctionTable : Type 0 where
  pub addr : ℕ
  pub pkt_handler : Bool

-- What `struct onvm_nf` holds for the NF itself
pub record NfSlot : Type 0 where
  pub instance_id : ℕ
  pub service_id : ℕ
  pub status : ℕ
  pub core : ℕ
  pub parent : ℕ
  pub children_cnt : ℤ
  -- `data`
  pub state_data : Option ℕ
  pub nf_tx_mgr : Option TxMgr
  pub function_table : Option FunctionTable
  pub sleep_state : Bool
  -- the count of the semaphore behind `nf_mutex`
  pub nf_mutex : ℕ

-- `struct onvm_nf_local_ctx`, at its address; `nf` is the slot that the pointer points at.
pub record LocalCtx : Type 0 where
  pub addr : ℕ
  pub nf : Option ℕ
  pub nf_init_finished : Bool
  pub keep_running : Bool
  pub nf_stopped : Bool

-- The messages that the library puts on the manager's queue: MSG_NF_STARTING, MSG_NF_READY and MSG_NF_STOPPING
pub data ToMgr : Type 0 where
  starting : ToMgr
  ready : ℕ → ToMgr
  stopping : ℕ → ToMgr

-- The table of NFs, which addresses are allocated, what was sent to the manager, and how often the library gave a
-- start-up struct back
pub record Process : Type 0 where
  pub nfs : ℕ → NfSlot
  pub live : ℕ → Bool
  pub to_mgr : List ToMgr
  pub cfgs_back : ℕ

-- How a call ends: it returns, ends the process, does what C does not define, or still waits after the time given.
pub data CallResult {ℓ} (A : Type ℓ) : Type ℓ where
  returns : A → CallResult A
  exits : CallResult A
  undefined : CallResult A
  waits : CallResult A

infixl 5 ◌and_then◌
abbrev pub ◌and_then◌ {ℓ κ} :
    {A : Type ℓ} {B : Type κ} → CallResult A → (A → CallResult B) → CallResult B
returns a and_then f = f a
exits and_then f = exits
undefined and_then f = undefined
waits and_then f = waits

-- An allocation, for the address that it answers
abbrev pub acquire : ℕ → Process → Process
acquire addr p = record p { live = update p.live addr true }

-- rte_free and free: of an address that is not allocated the effect is not defined.
unfoldable pub release : ℕ → Process → CallResult Process
release addr p =
    if p.live addr then returns (record p { live = update p.live addr false }) else undefined

abbrev pub release_some : Option ℕ → Process → CallResult Process
release_some none p = returns p
release_some (some addr) p = release addr p

abbrev pub set_nf : ℕ → NfSlot → Process → Process
set_nf id nf p = record p { nfs = update p.nfs id nf }

abbrev from_returns {ℓ} : {A : Type ℓ} → A → CallResult A → A
from_returns d (returns a) = a
from_returns d exits = d
from_returns d undefined = d
from_returns d waits = d

pub returns-injective {ℓ} : {A : Type ℓ} {a b : A} → returns a ≡ returns b → a ≡ b
returns-injective {a} e = ap (from_returns a) e

abbrev is_returns {ℓ} : {A : Type ℓ} → CallResult A → Bool
is_returns (returns a) = true
is_returns exits = false
is_returns undefined = false
is_returns waits = false

-- When a chain returns, its first part does.
pub and_then-returns {ℓ κ} :
    {A : Type ℓ} {B : Type κ} (o : CallResult A) (f : A → CallResult B) (b : B)
    → (o and_then f) ≡ returns b
    → (a : A) × (o ≡ returns a) × (f a ≡ returns b)
and_then-returns (returns a) f b e = (a, refl, e)
and_then-returns exits f b e = absurd (false≢true (ap is_returns e))
and_then-returns undefined f b e = absurd (false≢true (ap is_returns e))
and_then-returns waits f b e = absurd (false≢true (ap is_returns e))

pub exits≢returns {ℓ} : {A : Type ℓ} {a : A} → exits ≢ returns a
exits≢returns e = false≢true (ap is_returns e)
