-- ===== src/PktHelper/Generate/Laws.antt =====
-- A packet that is made has its headers in front of its payload.
use afxdp_path_manager.Common.{
  ℕ, ◌+◌, ◌-◌, ◌≤◌, ◌<◌, ◌≡◌, List, [], ◌∷◌, ◌++◌, Option, none, some, length, drop, ◌>>=◌,
}
use afxdp_path_manager.PktHelper.Checksum.{Mbuf}
use afxdp_path_manager.PktHelper.Generate.{Mbufs, push}

-- What is relied on of rte_pktmbuf_prepend: it succeeds if there is room, keeps what is behind, and else answers NULL.
pub record MbufLaws (M : Mbufs) : Type 0 where
  pub roomy :
      (pkt : Mbuf) (n : ℕ)
      → n ≤ pkt.headroom
      → (t : Mbuf) × (M.prepend pkt n ≡ some t)
        × (drop n t.bytes ≡ pkt.bytes)
        × (t.headroom ≡ pkt.headroom - n)
  pub tight : (pkt : Mbuf) (n : ℕ) → pkt.headroom < n → M.prepend pkt n ≡ none

stacked : List (List ℕ) → List ℕ → List ℕ
stacked [] bytes = bytes
stacked (part ∷ parts) bytes = stacked parts (part ++ bytes)

size_of : List (List ℕ) → ℕ
size_of [] = 0
size_of (part ∷ parts) = length part + size_of parts

module _ (M : Mbufs) (L : MbufLaws M) where
  -- Parts in front of one another, the last in the list in front of all
  push_onto : Option Mbuf → List (List ℕ) → Option Mbuf
  push_onto pkt [] = pkt
  push_onto pkt (part ∷ parts) = push_onto (pkt >>= push M part) parts
