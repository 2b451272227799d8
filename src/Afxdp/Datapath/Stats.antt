-- ===== src/Afxdp/Datapath/Stats.antt =====
-- The packet and byte counters of `struct afxdp_stats_record`.
use afxdp_path_manager.Common.{
  ℕ, ◌+◌, ◌%◌, ◌≡◌, refl, List, [], ◌∷◌, ◌++◌, length, take, drop, arith, add_u64, u64_mod,
  take-append-drop, ap, take-nil,
}
use afxdp_path_manager.Afxdp.Ring.{Desc}
use afxdp_path_manager.Afxdp.Datapath.{StatsRecord, count_all, count_bounced, count_dropped}

-- The bytes of a list of descriptors.
abbrev pub total_len : List Desc → ℕ
total_len [] = 0
total_len (d ∷ ds) = d.len + total_len ds

total_len-append : (xs ys : List Desc) → total_len (xs ++ ys) ≡ total_len xs + total_len ys
total_len-append [] ys = omega arith
total_len-append (x ∷ xs) ys = omega (arith, total_len-append xs ys)

-- Equal as 64-bit counters.
abbrev pub SameCounter : ℕ → ℕ → Type 0
SameCounter a b = a % u64_mod ≡ b % u64_mod

-- What a batch of which the first `n` descriptors are sent adds to the counters: all its packets and
-- bytes as received, the sent ones as sent. `rx_dropped` is never touched.
pub record Counted (st : StatsRecord) (ds : List Desc) (n : ℕ) (out : StatsRecord) : Type 0 where
  pub rx_packets : SameCounter out.rx_packets (st.rx_packets + length ds)
  pub rx_bytes : SameCounter out.rx_bytes (st.rx_bytes + total_len ds)
  pub tx_packets : SameCounter out.tx_packets (st.tx_packets + length (take n ds))
  pub tx_bytes : SameCounter out.tx_bytes (st.tx_bytes + total_len (take n ds))
  pub rx_dropped : out.rx_dropped ≡ st.rx_dropped

record Bumped (st out : StatsRecord) (rx tx packets : ℕ) : Type 0 where
  received : out.rx_packets ≡ st.rx_packets
  rx_bytes : SameCounter out.rx_bytes (st.rx_bytes + rx)
  tx_packets : SameCounter out.tx_packets (st.tx_packets + packets)
  tx_bytes : SameCounter out.tx_bytes (st.tx_bytes + tx)
  rx_dropped : out.rx_dropped ≡ st.rx_dropped

count_bounced-Bumped :
    (ds : List Desc) (st : StatsRecord)
    → Bumped st (count_all count_bounced st ds) (total_len ds) (total_len ds) (length ds)
unfolding count_all count_bounced
count_bounced-Bumped [] st = omega arith
count_bounced-Bumped (d ∷ ds) st = omega (arith, count_bounced-Bumped ds (count_bounced st d))

count_dropped-Bumped :
    (ds : List Desc) (st : StatsRecord)
    → Bumped st (count_all count_dropped st ds) (total_len ds) 0 0
unfolding count_all count_dropped
count_dropped-Bumped [] st = omega arith
count_dropped-Bumped (d ∷ ds) st = omega (arith, count_dropped-Bumped ds (count_dropped st d))

-- The counters behind the two loops and the final count of the batch.
abbrev pub tally : StatsRecord → List Desc → ℕ → ℕ → StatsRecord
tally st ds n rcvd =
    let both = count_all count_dropped (count_all count_bounced st (take n ds)) (drop n ds) in
    record both { rx_packets = add_u64 both.rx_packets rcvd }

pub tally-Counted :
    (st : StatsRecord) (ds : List Desc) (n rcvd : ℕ)
    → length ds ≡ rcvd
    → Counted st ds n (tally st ds n rcvd)
tally-Counted st ds n rcvd e =
    let a = count_bounced-Bumped (take n ds) st in
    let b = count_dropped-Bumped (drop n ds) (count_all count_bounced st (take n ds)) in
    let sum : total_len (take n ds) + total_len (drop n ds) ≡ total_len ds =
      omega
        (arith, total_len-append (take n ds) (drop n ds), ap total_len (take-append-drop n ds)) in
    record {
      rx_packets = omega (arith, a.received, b.received, e);
      rx_bytes = omega (arith, a.rx_bytes, b.rx_bytes, sum);
      tx_packets = omega (arith, a.tx_packets, b.tx_packets);
      tx_bytes = omega (arith, a.tx_bytes, b.tx_bytes);
      rx_dropped = omega (arith, a.rx_dropped, b.rx_dropped);
    }

pub idle-Counted : (st : StatsRecord) (n : ℕ) → Counted st [] n st
idle-Counted st n =
    let nothing = take-nil Desc n in
    record {
      rx_packets = omega arith;
      rx_bytes = omega arith;
      tx_packets = omega (arith, ap length nothing);
      tx_bytes = omega (arith, ap total_len nothing);
      rx_dropped = refl;
    }
