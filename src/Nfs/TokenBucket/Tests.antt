-- ===== src/Nfs/TokenBucket/Tests.antt =====
-- The theorems on examples/simple_fwd_tb/forward_tb.c, with a bucket of 100 bytes.
use afxdp_path_manager.Common.{
  ℕ, ◌+◌, ◌-◌, ◌*◌, ◌%◌, ◌≤◌, ◌≡◌, refl, List, [], ◌∷◌, ◌++◌, some, u64_mod, arith,
}
use afxdp_path_manager.Routing.{Meta}
use afxdp_path_manager.Nfs.TokenBucket.{
  TbConfig, produced, await_tokens, update_tokens, Handling, packet_handler_tb, handle_packets,
}
use afxdp_path_manager.Nfs.TokenBucket.Refill.{Ticks, stopped, tick}
use afxdp_path_manager.Nfs.TokenBucket.Laws.{forwarded, handle_packets-conforms}
use afxdp_path_manager.Nfs.TokenBucket.Returns.{verdict, packet_handler_tb-returns}

abbrev bucket : TbConfig
bucket = record { tb_rate = 1; tb_depth = 100; tb_tokens = 50; last_cycle = 5; cur_cycles = 5 }

abbrev meta : Meta
meta = record { action = 0; destination = 0; src = 0; chain_index = 0; flags = 0 }

-- The second packet has to wait for the second reading, and the third is too long.
abbrev pkts : List (ℕ × Meta)
pkts = (40, meta) ∷ (60, meta) ∷ (200, meta) ∷ []

abbrev to_seven : Meta
to_seven = record meta { action = 2; destination = 7 }

abbrev last : TbConfig
last = record bucket { tb_tokens = 40; last_cycle = 6; cur_cycles = 6 }

three_packets :
    handle_packets 1000 7 pkts bucket (5 ∷ 6 ∷ 9 ∷ [])
    ≡ some (to_seven ∷ to_seven ∷ meta ∷ [], last, 9 ∷ [])
unfolding handle_packets packet_handler_tb await_tokens update_tokens produced
three_packets = refl

ticking : Ticks 5 (5 ∷ 6 ∷ 9 ∷ [])
ticking =
    tick (omega arith) (omega arith)
      (tick (omega arith) (omega arith) (tick (omega arith) (omega arith) stopped))

handle_packets-conforms_example :
    (1000 * forwarded pkts (to_seven ∷ to_seven ∷ meta ∷ [])
      ≤ 1000 * bucket.tb_depth + (last.last_cycle - bucket.last_cycle) * (bucket.tb_rate * 1000000))
    × (last.tb_tokens ≤ last.tb_depth)
handle_packets-conforms_example =
    handle_packets-conforms 1000 7 pkts bucket last (5 ∷ 6 ∷ 9 ∷ []) (9 ∷ [])
      (to_seven ∷ to_seven ∷ meta ∷ []) three_packets (omega arith) (omega arith) ticking

enough : 60 ≤ (produced 1000 bucket 6 + bucket.tb_tokens) % u64_mod
unfolding produced
enough = omega arith

packet_handler_tb-returns_example :
    (h : Handling) × (packet_handler_tb 1000 7 60 meta bucket ((5 ∷ []) ++ 6 ∷ 9 ∷ []) ≡ some h)
    × (h.meta ≡ verdict 7 bucket.tb_depth 60 meta)
packet_handler_tb-returns_example =
    packet_handler_tb-returns 1000 7 60 6 meta bucket (5 ∷ []) (9 ∷ []) enough

-- With 1000 bytes a microsecond and 2.6 GHz, a pause of three seconds brings 3000000000 tokens, and one of eight seconds
-- fewer, since the product of the time and the rate wraps.
abbrev fast : TbConfig
fast = record bucket { tb_rate = 1000; last_cycle = 0 }

three_seconds : produced 2600000000 fast (3 * 2600000000) ≡ 3000000000
unfolding produced
three_seconds = refl

eight_seconds : produced 2600000000 fast (8 * 2600000000) ≡ 905098433
unfolding produced
eight_seconds = refl
