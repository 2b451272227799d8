-- ===== src/Afxdp/Datapath.antt =====
-- The receive path of onvm/onvm_mgr/afxdp/onvm_afxdp.c: completions, the refill of the fill ring,
-- and the bounce of received descriptors to the TX ring.
pub mod Complete
pub mod Refill
pub mod Stats
pub mod Receive
pub mod Handle
pub mod Packet
use afxdp_path_manager.Common.{
  ℕ, zero, suc, ◌-◌, List, [], ◌∷◌, Option, none, some, ltb, ◌==◌, Bool, true, false, if◌then◌else◌,
  add_u32, add_u64, ◌>>=◌,
}
use afxdp_path_manager.Afxdp.Config.{rx_batch_size, comp_ring_size}
use afxdp_path_manager.Afxdp.Frames.{Frames, alloc_frames, free_frames, umem_free_frames}
use afxdp_path_manager.Afxdp.Ring.{Desc, Xsk, addrs, write_all, read_all, advance}

-- `struct afxdp_stats_record`
pub record StatsRecord : Type 0 where
  pub timestamp : ℕ
  pub rx_packets : ℕ
  pub rx_bytes : ℕ
  pub tx_packets : ℕ
  pub tx_bytes : ℕ
  pub rx_dropped : ℕ

-- `struct afxdp_socket_info` with the rings of the UMEM that it points to.
pub record Socket (X : Xsk) : Type 0 where
  pub rx : X.rx.Ring
  pub tx : X.tx.Ring
  pub fq : X.fq.Ring
  pub cq : X.cq.Ring
  pub frames : Frames
  pub outstanding_tx : ℕ
  pub stats : StatsRecord

-- The loop body of the batch for one descriptor.
pub count_bounced : StatsRecord → Desc → StatsRecord
count_bounced st d = record st {
  rx_bytes = add_u64 st.rx_bytes d.len;
  tx_bytes = add_u64 st.tx_bytes d.len;
  tx_packets = add_u64 st.tx_packets 1;
}

-- The loop body for a descriptor that finds no slot on the TX ring.
pub count_dropped : StatsRecord → Desc → StatsRecord
count_dropped st d = record st { rx_bytes = add_u64 st.rx_bytes d.len }

-- `for (...) body`, over descriptors
pub count_all : (StatsRecord → Desc → StatsRecord) → StatsRecord → List Desc → StatsRecord
count_all body st [] = st
count_all body st (d ∷ ds) = count_all body (body st d) ds

module _ (X : Xsk) where
  -- The completions that the kernel reports go back to the free list.
  pub reclaim : Socket X → ℕ × ℕ × X.cq.Ring → Option (Socket X)
  reclaim s (completed, idx_cq, cq) =
      if ltb 0 completed
      then (free_frames s.frames (read_all X.cq cq idx_cq completed) >>= λ frames. some (record s {
        frames = frames;
        cq = X.cq.release cq completed;
        outstanding_tx =
            s.outstanding_tx
            - (if ltb completed s.outstanding_tx then completed else s.outstanding_tx);
      }))
      else some (record s { cq = cq })

  -- afxdp_complete_tx; `none` is a failing assertion.
  pub complete_tx : Socket X → Option (Socket X)
  unfolding reclaim
  complete_tx s =
      if s.outstanding_tx == 0
      then some s
      else (let (tx, cq) = X.sendto s.tx s.cq in
          reclaim (record s { tx = tx; cq = cq }) (X.cq.peek cq comp_ring_size))

  -- `ret = reserve(...); while (ret != stock_frames) ret = reserve(...);`, on fuel: the index of the
  -- first slot, and the ring.
  pub reserve_retry : ℕ → X.fq.Ring → ℕ → Option (ℕ × X.fq.Ring)
  reserve_retry zero r n = none
  reserve_retry (suc fuel) r n =
      let (ret, idx, r') = X.fq.reserve r n in
      let again = reserve_retry fuel r' n in if ret == n then some (idx, r') else again

  -- Step 3 of afxdp_handle_receive: the slots that `xsk_prod_nb_free` reports are all filled.
  pub refill : ℕ → Socket X → Option (Socket X)
  unfolding reserve_retry
  refill fuel s =
      let stock_frames = X.fq.nb_free s.fq (umem_free_frames s.frames) in
      if ltb 0 stock_frames
      then (reserve_retry fuel s.fq stock_frames >>= λ slot.
          let (addresses, frames) = alloc_frames stock_frames s.frames in
          some (record s {
            fq = X.fq.submit (write_all X.fq slot.1 slot.0 addresses) stock_frames;
            frames = frames;
          }))
      else some s

  -- `to_tx`: how many of `rcvd` descriptors find a slot
  pub to_tx : X.tx.Ring → ℕ → ℕ
  to_tx tx rcvd =
      let tx_avail = X.tx.nb_free tx rcvd in if ltb tx_avail rcvd then tx_avail else rcvd

  -- Step 4: the first `n` descriptors of the batch go to the TX ring in one go.
  pub bounce : Socket X → ℕ → ℕ → Socket X
  bounce s idx_rx n =
      if ltb 0 n
      then (let (_, idx_tx, tx) = X.tx.reserve s.tx n in
          let descs = read_all X.rx s.rx idx_rx n in
          record s {
            tx = X.tx.submit (write_all X.tx tx idx_tx descs) n;
            stats = count_all count_bounced s.stats descs;
            outstanding_tx = add_u32 s.outstanding_tx n;
          })
      else s

  -- The frames of the descriptors that are left go back to the free list.
  pub drop_rest : Socket X → ℕ → ℕ → Option (Socket X)
  drop_rest s idx_rx n =
      let descs = read_all X.rx s.rx idx_rx n in
      free_frames s.frames (addrs descs) >>= λ frames.
      some (record s { frames = frames; stats = count_all count_dropped s.stats descs })

  -- Step 5: the batch is released and counted.
  pub release_rx : Socket X → ℕ → Socket X
  release_rx s rcvd = record s {
    rx = X.rx.release s.rx rcvd;
    stats = record (s.stats) { rx_packets = add_u64 s.stats.rx_packets rcvd };
  }

  -- Steps 3 to 5, for a batch of `rcvd` descriptors from `idx_rx` on.
  pub process_batch : ℕ → Socket X → ℕ → ℕ → Option (Socket X)
  unfolding refill bounce drop_rest release_rx to_tx
  process_batch fuel s rcvd idx_rx = refill fuel s >>= λ s.
      let n = to_tx s.tx rcvd in
      drop_rest (bounce s idx_rx n) (advance idx_rx n) (rcvd - n) >>= λ s. some (release_rx s rcvd)

  -- afxdp_handle_receive; `none` is a failing assertion, or a reservation that is refused `fuel` times.
  pub handle_receive : ℕ → Socket X → Option (Socket X)
  unfolding complete_tx process_batch
  handle_receive fuel s = complete_tx s >>= λ s.
      let (rcvd, idx_rx, rx) = X.rx.peek s.rx rx_batch_size in
      if rcvd == 0
      then some (record s { rx = rx })
      else process_batch fuel (record s { rx = rx }) rcvd idx_rx

  -- afxdp_process_packet
  pub process_packet : Socket X → ℕ → ℕ → Bool × Socket X
  process_packet s addr len =
      let (ret, tx_idx, tx) = X.tx.reserve s.tx 1 in
      if ret == 1
      then (
        true,
        record s {
          tx = X.tx.submit (X.tx.write tx tx_idx (record { addr = addr; len = len })) 1;
          outstanding_tx = add_u32 s.outstanding_tx 1;
          stats = record (s.stats) {
            tx_bytes = add_u64 s.stats.tx_bytes len;
            tx_packets = add_u64 s.stats.tx_packets 1;
          };
        },
      )
      else (false, record s { tx = tx })
