-- ===== src/Afxdp/Datapath/Packet.antt =====
-- afxdp_process_packet: one descriptor onto the TX ring.
use afxdp_path_manager.Common.{
  ℕ, ◌≡◌, refl, [], ◌∷◌, ◌++◌, length, true, false, Bool-cases, inl, inr, ◌⊎◌, ◌==◌, ==_iff, arith,
  add_u32, add_u64,
}
use afxdp_path_manager.Afxdp.Config.{tx_ring_size}
use afxdp_path_manager.Afxdp.Ring.{Desc, Xsk, XskLaws, write_all}
use afxdp_path_manager.Afxdp.Datapath.{Socket, process_packet}

module _ {X : Xsk} where
  -- The descriptor is the newest of the TX ring, and counted.
  pub record Sent (s : Socket X) (d : Desc) (t : Socket X) : Type 0 where
    pub newest : X.tx.entries t.tx ≡ X.tx.entries s.tx ++ d ∷ []
    pub outstanding : t.outstanding_tx ≡ add_u32 s.outstanding_tx 1
    pub packets : t.stats.tx_packets ≡ add_u64 s.stats.tx_packets 1
    pub bytes : t.stats.tx_bytes ≡ add_u64 s.stats.tx_bytes d.len
    pub frames : t.frames ≡ s.frames

  -- The TX ring was full, and neither counters nor frames change.
  pub record Refused (s t : Socket X) : Type 0 where
    pub full : length (X.tx.entries s.tx) ≡ tx_ring_size
    pub outstanding : t.outstanding_tx ≡ s.outstanding_tx
    pub stats : t.stats ≡ s.stats
    pub frames : t.frames ≡ s.frames

module _ {X : Xsk} (L : XskLaws X) where
  -- afxdp_process_packet returns true, and then the packet is the newest of the TX ring and counted; or it
  -- returns false, and then the ring was full, and the caller still owns the frame.
  pub process_packet_cases :
      (s : Socket X) (addr len : ℕ)
      → let r = process_packet X s addr len in
        ((r.0 ≡ true) × Sent s (record { addr = addr; len = len }) r.1)
        ⊎ ((r.0 ≡ false) × Refused s r.1)
  unfolding process_packet write_all
  process_packet_cases s addr len =
      let d : Desc = record { addr = addr; len = len } in
      elim (Bool-cases ((X.tx.reserve s.tx 1).0 == 1)) [
        | inl e ↦
            let granted : (X.tx.reserve s.tx 1).0 ≡ 1 = (==_iff _ _).0 e in
            rw e (
              inl (
                refl,
                record {
                  newest = L.tx.publish s.tx (d ∷ []) granted;
                  outstanding = refl;
                  packets = refl;
                  bytes = refl;
                  frames = refl;
                },
              ))
        | inr e ↦
            let full : length (X.tx.entries s.tx) ≡ tx_ring_size =
              elim (L.tx.nb_free_exact s.tx 1) [
                | inl room ↦ ground (arith, e, L.tx.reserve_granted s.tx 1 1 room)
                | inr all ↦ ground (arith, all, e, L.tx.reserve_granted s.tx 1 1)
              ] in
            rw e
              (inr (refl, record { full = full; outstanding = refl; stats = refl; frames = refl }))
      ]
