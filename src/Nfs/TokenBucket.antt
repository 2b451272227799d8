-- ===== src/Nfs/TokenBucket.antt =====
-- The NF examples/simple_fwd_tb/forward_tb.c: it forwards packets as far as its token bucket has tokens, one for each
-- byte. The cycle counter is the list of what rte_get_tsc_cycles answers, in order; `none` is a wait that has not
-- ended with it. `hz` is what rte_get_timer_hz answers.
mod Refill
mod Laws
mod Returns
mod Tests
use afxdp_path_manager.Common.{
  ℕ, ◌+◌, ◌*◌, ◌/◌, ◌%◌, List, [], ◌∷◌, Option, none, some, ltb, if◌then◌else◌, u64_mod, sub_u64,
  ◌>>=◌,
}
use afxdp_path_manager.Routing.{onvm_nf_action_drop, onvm_nf_action_tonf, Meta}

-- `struct tb_config`
pub record TbConfig : Type 0 where
  pub tb_rate : ℕ
  pub tb_depth : ℕ
  pub tb_tokens : ℕ
  pub last_cycle : ℕ
  pub cur_cycles : ℕ

-- `(((cur_cycles - last_cycle) * tb_rate * 1000000) / rte_get_timer_hz())`, on uint64_t
unfoldable pub produced : ℕ → TbConfig → ℕ → ℕ
produced hz tb cur = (sub_u64 cur tb.last_cycle * (tb.tb_rate * 1000000)) % u64_mod / hz

-- The waiting loop: the first reading with tokens enough, and the readings behind it
unfoldable pub await_tokens : ℕ → TbConfig → ℕ → List ℕ → Option (ℕ × List ℕ)
unfolding produced
await_tokens hz tb pkt_len [] = none
await_tokens hz tb pkt_len (cur ∷ clock) =
    let rest = await_tokens hz tb pkt_len clock in
    if ltb ((produced hz tb cur + tb.tb_tokens) % u64_mod) pkt_len then rest else some (cur, clock)

-- The tokens after a wait
unfoldable pub update_tokens : ℕ → TbConfig → ℕ → TbConfig
unfolding produced
update_tokens hz tb cur =
    let sum = (produced hz tb cur + tb.tb_tokens) % u64_mod in
    record tb {
      tb_tokens = if ltb tb.tb_depth sum then tb.tb_depth else sum;
      last_cycle = cur;
      cur_cycles = cur;
    }

-- The packet's meta data, the bucket, and the readings left
pub record Handling : Type 0 where
  pub meta : Meta
  pub tb : TbConfig
  pub clock : List ℕ

-- packet_handler_tb for a packet with `pkt_len` bytes, without the display
unfoldable pub packet_handler_tb : ℕ → ℕ → ℕ → Meta → TbConfig → List ℕ → Option Handling
unfolding await_tokens update_tokens
packet_handler_tb hz destination pkt_len meta tb clock =
    let ready : Option (TbConfig × List ℕ) =
      if ltb tb.tb_tokens pkt_len
      then (await_tokens hz tb pkt_len clock >>= λ (cur, rest).
          some (update_tokens hz tb cur, rest))
      else some (tb, clock) in
    if ltb tb.tb_depth pkt_len
    then some
        (record { meta = record meta { action = onvm_nf_action_drop }; tb = tb; clock = clock })
    else ready >>= λ (full, rest). some (record {
      meta = record meta { action = onvm_nf_action_tonf; destination = destination };
      tb = record full { tb_tokens = sub_u64 full.tb_tokens pkt_len };
      clock = rest;
    })

-- The packets one after the other, each with its length and meta data: the meta data after, the bucket, and the
-- readings left
unfoldable pub handle_packets :
    ℕ → ℕ → List (ℕ × Meta) → TbConfig → List ℕ → Option (List Meta × TbConfig × List ℕ)
unfolding packet_handler_tb
handle_packets hz destination [] tb clock = some ([], tb, clock)
handle_packets hz destination ((pkt_len, meta) ∷ pkts) tb clock =
    packet_handler_tb hz destination pkt_len meta tb clock >>= λ h.
    handle_packets hz destination pkts h.tb h.clock >>= λ (metas, last, rest).
    some (h.meta ∷ metas, last, rest)
