-- ===== src/Afxdp/Ring.antt =====
-- The rings of libxdp (xdp/xsk.h), which the datapath calls and does not implement: what it calls,
-- and what the documentation of these calls promises. A descriptor index is a `__u32`.
use afxdp_path_manager.Common.{
  ℕ, zero, suc, ◌+◌, ◌≤◌, ◌≡◌, List, [], ◌∷◌, ◌++◌, length, take, drop, add_u32, refl, ap, ◌⊎◌,
  arith, map, sym, ◌∙◌, count, count-append, map-append, take-append-drop,
}
use afxdp_path_manager.Afxdp.Config.{tx_ring_size, fill_ring_size, rx_ring_size, comp_ring_size}

-- `struct xdp_desc`, the part that the datapath uses.
pub record Desc : Type 0 where
  pub addr : ℕ
  pub len : ℕ

-- `idx++` for each of `n` entries
pub advance : ℕ → ℕ → ℕ
advance idx zero = idx
advance idx (suc n) = advance (add_u32 idx 1) n

-- A ring that user space fills (`struct xsk_ring_prod`).
pub record ProdRing (E : Type 0) : Type 1 where
  pub Ring : Type 0
  pub nb_free : Ring → ℕ → ℕ
  -- the number of slots granted, the index of the first, and the ring
  pub reserve : Ring → ℕ → ℕ × ℕ × Ring
  pub write : Ring → ℕ → E → Ring
  pub submit : Ring → ℕ → Ring
  -- what is submitted and not yet taken by the kernel, oldest first
  pub entries : Ring → List E

-- A ring that the kernel fills (`struct xsk_ring_cons`).
pub record ConsRing (E : Type 0) : Type 1 where
  pub Ring : Type 0
  -- the number of entries that may be read, the index of the first, and the ring
  pub peek : Ring → ℕ → ℕ × ℕ × Ring
  pub read : Ring → ℕ → E
  pub release : Ring → ℕ → Ring
  -- what the kernel has put there and user space has not released, oldest first
  pub entries : Ring → List E

module _ {E : Type 0} (P : ProdRing E) where
  open P use {Ring, nb_free, reserve, write, submit, entries}

  -- `for (...) *slot(ring, idx++) = e;`
  unfoldable pub write_all : Ring → ℕ → List E → Ring
  write_all r idx [] = r
  write_all r idx (e ∷ es) = write_all (write r idx e) (add_u32 idx 1) es

  -- What the datapath relies on, for a ring of `size` entries.
  pub record ProdLaws (size : ℕ) : Type 0 where
    -- `xsk_prod_nb_free` never reports more than there is.
    pub nb_free_bound : (r : Ring) (n : ℕ) → nb_free r n + length (entries r) ≤ size
    -- It reports what was asked for, or all there is.
    pub nb_free_exact :
        (r : Ring) (n : ℕ) → (n ≤ nb_free r n) ⊎ (nb_free r n + length (entries r) ≡ size)
    -- `xsk_ring_prod__reserve` grants all that `xsk_prod_nb_free` has reported.
    pub reserve_granted : (r : Ring) (n m : ℕ) → m ≤ nb_free r n → (reserve r m).0 ≡ m
    -- Granted slots that are written and submitted go to the end of the ring, in order.
    pub publish :
        (r : Ring) (es : List E)
        → (reserve r (length es)).0 ≡ length es
        → entries
            (submit (write_all (reserve r (length es)).2 (reserve r (length es)).1 es) (length es))
          ≡ entries r ++ es

module _ {E : Type 0} (C : ConsRing E) where
  open C use {Ring, peek, read, release, entries}

  -- `for (i = 0; i < n; i++) ... *slot(ring, idx++) ...`: what the reads of a loop return.
  unfoldable pub read_all : Ring → ℕ → ℕ → List E
  read_all r idx zero = []
  read_all r idx (suc n) = read r idx ∷ read_all r (add_u32 idx 1) n

  pub record ConsLaws : Type 0 where
    -- `xsk_ring_cons__peek` reports as many entries as there are, and no more than asked for.
    pub peek_bound : (r : Ring) (n : ℕ) → (peek r n).0 ≤ n
    pub peek_avail : (r : Ring) (n : ℕ) → (peek r n).0 ≤ length (entries r)
    -- The reported entries are the oldest.
    pub read_peeked :
        (r : Ring) (n : ℕ)
        → read_all (peek r n).2 (peek r n).1 (peek r n).0 ≡ take (peek r n).0 (entries r)
    -- Looking alone takes nothing away; `xsk_ring_cons__release` takes the reported entries away.
    pub peek_keeps : (r : Ring) (n : ℕ) → entries (peek r n).2 ≡ entries r
    pub release_peeked :
        (r : Ring) (n : ℕ)
        → entries (release (peek r n).2 (peek r n).0) ≡ drop (peek r n).0 (entries r)

  -- The reads of one loop over `a + b` entries are those of two loops, one after the other.
  pub read_all-add :
      (r : Ring) (idx a b : ℕ)
      → read_all r idx (a + b) ≡ read_all r idx a ++ read_all r (advance idx a) b
  unfolding read_all advance
  read_all-add r idx zero b = ap (read_all r idx) (omega arith)
  read_all-add r idx (suc a) b =
      let e : suc a + b ≡ suc (a + b) = omega arith in
      rw e (ap (◌∷◌ (read r idx)) (read_all-add r (add_u32 idx 1) a b))

  pub length-read_all : (r : Ring) (idx n : ℕ) → length (read_all r idx n) ≡ n
  unfolding read_all
  length-read_all r idx zero = refl
  length-read_all r idx (suc n) = ap suc (length-read_all r (add_u32 idx 1) n)

-- The four rings of an AF_XDP socket, and `sendto`, by which user space wakes the kernel up.
pub record Xsk : Type 1 where
  pub rx : ConsRing Desc
  pub tx : ProdRing Desc
  pub fq : ProdRing ℕ
  pub cq : ConsRing ℕ
  pub sendto : tx.Ring → cq.Ring → tx.Ring × cq.Ring

-- The addresses of a list of descriptors.
abbrev pub addrs : List Desc → List ℕ
addrs = map λ d. d.addr

-- What the datapath relies on, for the ring sizes that it asks for.
pub record XskLaws (X : Xsk) : Type 0 where
  pub rx : ConsLaws X.rx
  pub tx : ProdLaws X.tx tx_ring_size
  pub fq : ProdLaws X.fq fill_ring_size
  pub cq : ConsLaws X.cq
  -- The kernel's rings hold no more than their size.
  pub rx_bound : (r : X.rx.Ring) → length (X.rx.entries r) ≤ rx_ring_size
  pub cq_bound : (r : X.cq.Ring) → length (X.cq.entries r) ≤ comp_ring_size
  -- The kernel transmits the oldest descriptors, and completes them in order.
  pub sendto_sent :
      (t : X.tx.Ring) (c : X.cq.Ring)
      → (sent : List Desc) × (X.tx.entries t ≡ sent ++ X.tx.entries (X.sendto t c).0)
        × (X.cq.entries (X.sendto t c).1 ≡ X.cq.entries c ++ addrs sent)

pub count-addrs-append :
    (a : ℕ) (xs ys : List Desc)
    → count a (addrs (xs ++ ys)) ≡ count a (addrs xs) + count a (addrs ys)
count-addrs-append a xs ys =
    ap (count a) (map-append (λ (d : Desc). d.addr) xs ys) ∙ count-append a (addrs xs) (addrs ys)

pub count-addrs-take-drop :
    (a n : ℕ) (ds : List Desc)
    → count a (addrs (take n ds)) + count a (addrs (drop n ds)) ≡ count a (addrs ds)
count-addrs-take-drop a n ds =
    sym (count-addrs-append a (take n ds) (drop n ds))
    ∙ ap (λ xs. count a (addrs xs)) (take-append-drop n ds)
