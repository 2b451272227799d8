-- ===== src/Nfs/TokenBucket/Returns.antt =====
-- packet_handler_tb of examples/simple_fwd_tb/forward_tb.c returns once the clock brings tokens enough.
use afxdp_path_manager.Common.{
  ℕ, ◌+◌, ◌%◌, ◌≤◌, ◌≡◌, refl, false, List, [], ◌∷◌, ◌++◌, some, ltb, if◌then◌else◌, Bool-cases,
  inl, inr, u64_mod, sub_u64, arith,
}
use afxdp_path_manager.Routing.{onvm_nf_action_drop, onvm_nf_action_tonf, Meta}
use afxdp_path_manager.Nfs.TokenBucket.{
  TbConfig, produced, await_tokens, update_tokens, Handling, packet_handler_tb,
}

-- What a packet is told, however many tokens there are
abbrev pub verdict : ℕ → ℕ → ℕ → Meta → Meta
verdict destination tb_depth pkt_len meta =
    if ltb tb_depth pkt_len
    then record meta { action = onvm_nf_action_drop }
    else record meta { action = onvm_nf_action_tonf; destination = destination }

await_tokens-returns :
    (hz : ℕ) (tb : TbConfig) (pkt_len cur : ℕ) (before after : List ℕ)
    → pkt_len ≤ (produced hz tb cur + tb.tb_tokens) % u64_mod
    → (r : ℕ × List ℕ) × (await_tokens hz tb pkt_len (before ++ cur ∷ after) ≡ some r)
unfolding await_tokens
await_tokens-returns hz tb pkt_len cur [] after enough =
    let stop : ltb ((produced hz tb cur + tb.tb_tokens) % u64_mod) pkt_len ≡ false =
      ground (arith, enough) in
    ((cur, after), rw stop refl)
await_tokens-returns hz tb pkt_len cur (next ∷ before) after enough =
    elim (Bool-cases (ltb ((produced hz tb next + tb.tb_tokens) % u64_mod) pkt_len)) [
      | inl k ↦
          let (r, e) = await_tokens-returns hz tb pkt_len cur before after enough in (r, rw k e)
      | inr k ↦ ((next, before ++ cur ∷ after), rw k refl)
    ]

-- Let some reading of the clock bring tokens enough for the packet. Then packet_handler_tb returns: it drops the packet if
-- it is longer than the bucket is deep, and forwards it otherwise.
pub packet_handler_tb-returns :
    (hz destination pkt_len cur : ℕ) (meta : Meta) (tb : TbConfig) (before after : List ℕ)
    → pkt_len ≤ (produced hz tb cur + tb.tb_tokens) % u64_mod
    → (h : Handling) × (packet_handler_tb hz destination pkt_len meta tb (before ++ cur ∷ after)
        ≡ some h)
      × (h.meta ≡ verdict destination tb.tb_depth pkt_len meta)
unfolding packet_handler_tb
packet_handler_tb-returns hz destination pkt_len cur meta tb before after enough =
    let told : Meta = record meta { action = onvm_nf_action_tonf; destination = destination } in
    let sent : TbConfig → List ℕ → Handling = λ full rest. record {
      meta = told;
      tb = record full { tb_tokens = sub_u64 full.tb_tokens pkt_len };
      clock = rest;
    } in
    let dropped : Handling = record {
      meta = record meta { action = onvm_nf_action_drop };
      tb = tb;
      clock = before ++ cur ∷ after;
    } in
    elim (Bool-cases (ltb tb.tb_depth pkt_len)) [
      | inl k ↦ (dropped, rw k refl, rw k refl)
      | inr k ↦ elim (Bool-cases (ltb tb.tb_tokens pkt_len)) [
        | inl l ↦
            let (r, e) = await_tokens-returns hz tb pkt_len cur before after enough in
            (sent (update_tokens hz tb r.0) r.1, rw (k, l, e) refl, rw k refl)
        | inr l ↦ (sent tb (before ++ cur ∷ after), rw (k, l) refl, rw k refl)
      ]
    ]
