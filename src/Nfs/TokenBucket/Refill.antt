-- ===== src/Nfs/TokenBucket/Refill.antt =====
-- What a wait for tokens brings, in examples/simple_fwd_tb/forward_tb.c.
use afxdp_path_manager.Common.{
  ℕ, ◌+◌, ◌-◌, ◌*◌, ◌%◌, ◌≤◌, ◌<◌, ◌≡◌, List, [], ◌∷◌, some, some-injective, subst, ltb,
  if◌then◌else◌, Bool-cases, inl, inr, u64_mod, sub_u64, arith,
}
use native.Mathlib.Nat.{mul-div-le, mul-le-mul_left, mul-add, add-mul}
use afxdp_path_manager.Nfs.TokenBucket.{TbConfig, produced, await_tokens, update_tokens}

-- The clock does not run backwards, and has not come to its end.
pub data Ticks : ℕ → List ℕ → Type 0 where
  stopped : {now : ℕ} → Ticks now []
  tick :
      {now next : ℕ} {clock : List ℕ}
      → now ≤ next
      → next < u64_mod
      → Ticks next clock
      → Ticks now (next ∷ clock)

-- What the reading brings is at most the time times the rate.
produced_le :
    (hz : ℕ) (tb : TbConfig) (cur : ℕ)
    → tb.last_cycle ≤ cur
    → cur < u64_mod
    → hz * produced hz tb cur + tb.last_cycle * (tb.tb_rate * 1000000)
      ≤ cur * (tb.tb_rate * 1000000)
unfolding produced
produced_le hz tb cur h bound =
    let rate = tb.tb_rate * 1000000 in
    let time = cur - tb.last_cycle in
    let exact : sub_u64 cur tb.last_cycle ≡ time = omega (arith, h, bound) in
    let whole : tb.last_cycle + time ≡ cur = omega (arith, h) in
    let less : time * rate % u64_mod ≤ time * rate = omega arith in
    let parts : (tb.last_cycle + time) * rate ≡ tb.last_cycle * rate + time * rate =
      add-mul tb.last_cycle time rate in
    rw exact (omega (arith, mul-div-le (time * rate % u64_mod) hz, less, rw whole at parts))

-- A reading that brings tokens enough, and the readings behind it
unfoldable pub Waited : ℕ → TbConfig → ℕ → ℕ → ℕ × List ℕ → Type 0
Waited hz tb pkt_len now (cur, rest) =
    (now ≤ cur)
    × (cur < u64_mod)
    × Ticks cur rest
    × (pkt_len ≤ (produced hz tb cur + tb.tb_tokens) % u64_mod)

pub await_tokens-Waited :
    (hz : ℕ) (tb : TbConfig) (pkt_len now : ℕ) (clock : List ℕ) (r : ℕ × List ℕ)
    → await_tokens hz tb pkt_len clock ≡ some r
    → Ticks now clock
    → Waited hz tb pkt_len now r
unfolding await_tokens Waited
await_tokens-Waited hz tb pkt_len now [] r e t = ground (arith, e)
await_tokens-Waited hz tb pkt_len now (next ∷ clock) r e (tick later bound t) =
    elim (Bool-cases (ltb ((produced hz tb next + tb.tb_tokens) % u64_mod) pkt_len)) [
      | inl k ↦
          let (a, b, c, d) = await_tokens-Waited hz tb pkt_len next clock r (rw k at e) t in
          (omega (arith, later, a), b, c, d)
      | inr k ↦
          subst (Waited hz tb pkt_len now) (some-injective (next, clock) r (rw k at e))
            (later, bound, t, ground (arith, k))
    ]

-- After a wait there are tokens enough, not more than fit, and not more than the time has brought.
pub refill_lem :
    (hz pkt_len now : ℕ) (tb : TbConfig) (cur : ℕ) (rest : List ℕ)
    → tb.tb_tokens ≤ tb.tb_depth
    → pkt_len ≤ tb.tb_depth
    → tb.last_cycle ≤ now
    → Waited hz tb pkt_len now (cur, rest)
    → let full = update_tokens hz tb cur in
      (pkt_len ≤ full.tb_tokens)
      × (full.tb_tokens ≤ tb.tb_depth)
      × (hz * full.tb_tokens + tb.last_cycle * (tb.tb_rate * 1000000)
          ≤ hz * tb.tb_tokens + cur * (tb.tb_rate * 1000000))
unfolding update_tokens Waited
refill_lem hz pkt_len now tb cur rest capped fits since (later, bound, clock, enough) =
    let p = produced hz tb cur in
    let sum = (p + tb.tb_tokens) % u64_mod in
    let full = if ltb tb.tb_depth sum then tb.tb_depth else sum in
    let inside : (pkt_len ≤ full) × (full ≤ tb.tb_depth) × (full ≤ p + tb.tb_tokens) =
      ground (arith, enough, fits, capped) in
    let scaled = mul-le-mul_left hz inside.2 in
    (
      inside.0,
      inside.1,
      omega (
        arith,
        scaled,
        mul-add hz p tb.tb_tokens,
        produced_le hz tb cur (omega (arith, since, later)) bound,
      ),
    )
