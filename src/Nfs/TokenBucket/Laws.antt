-- ===== src/Nfs/TokenBucket/Laws.antt =====
-- The token bucket of examples/simple_fwd_tb/forward_tb.c forwards no more than its rate and its depth allow.
use afxdp_path_manager.Common.{
  ℕ, ◌+◌, ◌-◌, ◌*◌, ◌≤◌, ◌<◌, ◌≡◌, refl, ◌∙◌, List, [], ◌∷◌, some, some-injective, bind-some, subst,
  ltb, ◌==◌, if◌then◌else◌, Bool-cases, inl, inr, u64_mod, sub_u64, arith, ◌>>=◌,
}
use native.Mathlib.Nat.{mul-le-mul_left, mul-add, add-mul}
use afxdp_path_manager.Routing.{onvm_nf_action_tonf, Meta}
use afxdp_path_manager.Nfs.TokenBucket.{
  TbConfig, await_tokens, update_tokens, Handling, packet_handler_tb, handle_packets,
}
use afxdp_path_manager.Nfs.TokenBucket.Refill.{Ticks, Waited, await_tokens-Waited, refill_lem}

-- The bytes of a packet that is forwarded
abbrev pub spent : ℕ → Meta → ℕ
spent pkt_len meta = if meta.action == onvm_nf_action_tonf then pkt_len else 0

-- The bucket before and after some packets, `bytes` of which were forwarded
record Conforms (hz bytes : ℕ) (tb last : TbConfig) (clock : List ℕ) : Type 0 where
  ordered : tb.last_cycle ≤ last.last_cycle
  ticks : Ticks last.last_cycle clock
  capped : last.tb_tokens ≤ last.tb_depth
  rate : last.tb_rate ≡ tb.tb_rate
  depth : last.tb_depth ≡ tb.tb_depth
  account :
      hz * bytes + hz * last.tb_tokens + tb.last_cycle * (tb.tb_rate * 1000000)
      ≤ hz * tb.tb_tokens + last.last_cycle * (tb.tb_rate * 1000000)

update_tokens-Conforms :
    (hz pkt_len now : ℕ) (tb : TbConfig) (cur : ℕ) (rest : List ℕ)
    → tb.tb_tokens ≤ tb.tb_depth
    → pkt_len ≤ tb.tb_depth
    → tb.last_cycle ≤ now
    → Waited hz tb pkt_len now (cur, rest)
    → (pkt_len ≤ (update_tokens hz tb cur).tb_tokens)
      × Conforms hz 0 tb (update_tokens hz tb cur) rest
unfolding update_tokens Waited
update_tokens-Conforms hz pkt_len now tb cur rest capped fits since waited =
    let (enough, full, account) = refill_lem hz pkt_len now tb cur rest capped fits since waited in
    (
      enough,
      record {
        ordered = omega (arith, since, waited.0);
        ticks = waited.2;
        capped = full;
        rate = refl;
        depth = refl;
        account = omega (arith, account);
      },
    )

Conforms-trans :
    {hz a b : ℕ} {tb mid last : TbConfig} {clock rest : List ℕ}
    → Conforms hz a tb mid clock
    → Conforms hz b mid last rest
    → Conforms hz (a + b) tb last rest
Conforms-trans {hz} {a} {b} {tb} {mid} {last} v w = record {
  ordered = omega (arith, v.ordered, w.ordered);
  ticks = w.ticks;
  capped = w.capped;
  rate = w.rate ∙ v.rate;
  depth = w.depth ∙ v.depth;
  account = omega (arith, v.account, rw v.rate at w.account, mul-add hz a b);
}

-- Tokens enough, and the packet forwarded
forward-Conforms :
    (hz pkt_len : ℕ) (tb full : TbConfig) (rest : List ℕ)
    → Conforms hz 0 tb full rest
    → pkt_len ≤ full.tb_tokens
    → full.tb_depth < u64_mod
    → Conforms hz pkt_len tb (record full { tb_tokens = sub_u64 full.tb_tokens pkt_len }) rest
forward-Conforms hz pkt_len tb full rest v enough bound =
    let left : sub_u64 full.tb_tokens pkt_len ≡ full.tb_tokens - pkt_len =
      omega (arith, enough, bound, v.capped) in
    let parts : pkt_len + (full.tb_tokens - pkt_len) ≡ full.tb_tokens = omega (arith, enough) in
    let sum = mul-add hz pkt_len (full.tb_tokens - pkt_len) in
    record {
      ordered = v.ordered;
      ticks = v.ticks;
      capped = rw left (omega (arith, v.capped));
      rate = v.rate;
      depth = v.depth;
      account = rw left (omega (arith, v.account, rw parts at sum));
    }

packet_handler_tb-Conforms :
    (hz destination pkt_len : ℕ) (meta : Meta) (tb : TbConfig) (clock : List ℕ) (h : Handling)
    → packet_handler_tb hz destination pkt_len meta tb clock ≡ some h
    → tb.tb_tokens ≤ tb.tb_depth
    → tb.tb_depth < u64_mod
    → Ticks tb.last_cycle clock
    → Conforms hz (spent pkt_len h.meta) tb h.tb h.clock
unfolding packet_handler_tb
packet_handler_tb-Conforms hz destination pkt_len meta tb clock h e capped bound ticks =
    let same : Conforms hz 0 tb tb clock = record {
      ordered = omega arith;
      ticks = ticks;
      capped = capped;
      rate = refl;
      depth = refl;
      account = omega arith;
    } in
    elim (Bool-cases (ltb tb.tb_depth pkt_len)) [
      | inl k ↦
          let done = some-injective _ h (rw k at e) in
          subst (λ (g : Handling). Conforms hz (spent pkt_len g.meta) tb g.tb g.clock) done same
      | inr k ↦ elim (Bool-cases (ltb tb.tb_tokens pkt_len)) [
        | inl l ↦
            let (r, waited, g) =
              bind-some
                (await_tokens hz tb pkt_len clock >>= λ (cur, rest).
                  some (update_tokens hz tb cur, rest))
                _ h (rw (k, l) at e) in
            let (w, answered, q) =
              bind-some (await_tokens hz tb pkt_len clock)
                (λ (v : ℕ × List ℕ). some (update_tokens hz tb v.0, v.1)) r waited in
            let full = some-injective (update_tokens hz tb w.0, w.1) r q in
            let (enough, refilled) =
              update_tokens-Conforms hz pkt_len tb.last_cycle tb w.0 w.1 capped (ground (arith, k))
                (omega arith)
                (await_tokens-Waited hz tb pkt_len tb.last_cycle clock w answered ticks) in
            let done = some-injective _ h (rw (← full) at g) in
            subst (λ (g : Handling). Conforms hz (spent pkt_len g.meta) tb g.tb g.clock) done
              (forward-Conforms hz pkt_len tb (update_tokens hz tb w.0) w.1 refilled enough
                (rw refilled.depth bound))
        | inr l ↦
            let done = some-injective _ h (rw (k, l) at e) in
            subst (λ (g : Handling). Conforms hz (spent pkt_len g.meta) tb g.tb g.clock) done
              (forward-Conforms hz pkt_len tb tb clock same (ground (arith, l)) bound)
      ]
    ]

-- The bytes of all packets that are forwarded
unfoldable pub forwarded : List (ℕ × Meta) → List Meta → ℕ
forwarded [] metas = 0
forwarded (pkt ∷ pkts) [] = 0
forwarded (pkt ∷ pkts) (meta ∷ metas) = spent pkt.0 meta + forwarded pkts metas

handle_packets-Conforms :
    (hz destination : ℕ) (pkts : List (ℕ × Meta)) (tb last : TbConfig) (clock rest : List ℕ)
    (metas : List Meta)
    → handle_packets hz destination pkts tb clock ≡ some (metas, last, rest)
    → tb.tb_tokens ≤ tb.tb_depth
    → tb.tb_depth < u64_mod
    → Ticks tb.last_cycle clock
    → Conforms hz (forwarded pkts metas) tb last rest
unfolding handle_packets forwarded
handle_packets-Conforms hz destination [] tb last clock rest metas e capped bound ticks =
    let done = some-injective ([], tb, clock) (metas, last, rest) e in
    subst (λ (r : List Meta × TbConfig × List ℕ). Conforms hz 0 tb r.1 r.2) done
      (record {
        ordered = omega arith;
        ticks = ticks;
        capped = capped;
        rate = refl;
        depth = refl;
        account = omega arith;
      })
handle_packets-Conforms hz destination ((pkt_len, meta) ∷ pkts) tb last clock rest metas e capped
      bound ticks =
    let (h, f, g) =
      bind-some (packet_handler_tb hz destination pkt_len meta tb clock) _ (metas, last, rest) e in
    let (r, k, l) =
      bind-some (handle_packets hz destination pkts h.tb h.clock) _ (metas, last, rest) g in
    let one =
      packet_handler_tb-Conforms hz destination pkt_len meta tb clock h f capped bound ticks in
    let others =
      handle_packets-Conforms hz destination pkts h.tb r.1 h.clock r.2 r.0 k one.capped
        (rw one.depth bound) one.ticks in
    let done = some-injective (h.meta ∷ r.0, r.1, r.2) (metas, last, rest) l in
    subst
      (λ (r : List Meta × TbConfig × List ℕ).
        Conforms hz (forwarded ((pkt_len, meta) ∷ pkts) r.0) tb r.1 r.2)
      done (Conforms-trans one others)

-- Let the clock not run backwards, and let the bucket not be overfull. Whatever packets come in, the NF forwards at most
-- as many bytes as the bucket can hold and the rate brings in the time from the last refill before the first packet
-- to the last refill, although uint64_t wraps; and the bucket is not overfull after.
pub handle_packets-conforms :
    (hz destination : ℕ) (pkts : List (ℕ × Meta)) (tb last : TbConfig) (clock rest : List ℕ)
    (metas : List Meta)
    → handle_packets hz destination pkts tb clock ≡ some (metas, last, rest)
    → tb.tb_tokens ≤ tb.tb_depth
    → tb.tb_depth < u64_mod
    → Ticks tb.last_cycle clock
    → (hz * forwarded pkts metas
        ≤ hz * tb.tb_depth + (last.last_cycle - tb.last_cycle) * (tb.tb_rate * 1000000))
      × (last.tb_tokens ≤ last.tb_depth)
handle_packets-conforms hz destination pkts tb last clock rest metas e capped bound ticks =
    let v =
      handle_packets-Conforms hz destination pkts tb last clock rest metas e capped bound ticks in
    let rate = tb.tb_rate * 1000000 in
    let whole : tb.last_cycle + (last.last_cycle - tb.last_cycle) ≡ last.last_cycle =
      omega (arith, v.ordered) in
    let parts = add-mul tb.last_cycle (last.last_cycle - tb.last_cycle) rate in
    (omega (arith, v.account, rw whole at parts, mul-le-mul_left hz capped), v.capped)
