-- ===== src/Afxdp/System/Frames.antt =====
-- The frame of the UMEM that an address lies in, and how often a frame stands in a list of addresses: the kernel of
-- AF_XDP hands an address back that lies behind the frame's start.
use native.Mathlib.Nat.{le-div_iff_mul-le, div-lt_iff_lt-mul}
use afxdp_path_manager.Common.{
  ℕ, zero, suc, true, false, ◌⊎◌, ◌+◌, ◌*◌, ◌/◌, ◌%◌, ◌≤◌, ◌<◌, ◌≡◌, refl, ap, ◌∙◌, List, [], ◌∷◌,
  ◌++◌, map, map-append, count, count-append, ◌==◌, ==_iff, Bool-cases, inl, inr, arith, u32_mod,
}
use afxdp_path_manager.Afxdp.Config.{num_frames, invalid_umem_frame}
use afxdp_path_manager.Afxdp.Frames.{frame_addrs}
use afxdp_path_manager.Afxdp.Ring.{Desc, addrs}

-- How often an address of the frame `k` stands in the list, for frames of `z` bytes
unfoldable pub tally : ℕ → ℕ → List ℕ → ℕ
tally z k xs = count k (map (λ a. a / z) xs)

pub tally-append : (z k : ℕ) (xs ys : List ℕ) → tally z k (xs ++ ys) ≡ tally z k xs + tally z k ys
unfolding tally
tally-append z k xs ys =
    ap (count k) (map-append (λ a. a / z) xs ys)
    ∙ count-append k (map (λ a. a / z) xs) (map (λ a. a / z) ys)

-- An address of the same frame counts the same.
pub tally_agree : (z k a b : ℕ) → a / z ≡ b / z → tally z k (a ∷ []) ≡ tally z k (b ∷ [])
unfolding tally
tally_agree z k a b e = ap (λ f. count k (f ∷ [])) e

-- An address on top of a list
pub tally-cons : (z k x : ℕ) (xs : List ℕ) → tally z k (x ∷ xs) ≡ tally z k (x ∷ []) + tally z k xs
unfolding tally
tally-cons z k x xs = omega arith

-- An address taken out of a list
pub tally-moved :
    (z k a : ℕ) (front back ys : List ℕ)
    → ys ≡ front ++ a ∷ back
    → tally z k ys ≡ tally z k (a ∷ []) + tally z k (front ++ back)
tally-moved z k a front back ys e = omega (
  arith,
  ap (tally z k) e,
  tally-append z k front (a ∷ back),
  tally-append z k front back,
  tally-cons z k a back,
)

-- A descriptor at the end of a ring
pub tally-addrs-append :
    (z k : ℕ) (ds : List Desc) (d : Desc)
    → tally z k (addrs (ds ++ d ∷ [])) ≡ tally z k (addrs ds) + tally z k (d.addr ∷ [])
tally-addrs-append z k ds d =
    ap (tally z k) (map-append (λ (e : Desc). e.addr) ds (d ∷ []))
    ∙ tally-append z k (addrs ds) (d.addr ∷ [])

-- An address that stands in a list, and the list around it
split_at :
    (a : ℕ) (ys : List ℕ)
    → 0 < count a ys
    → (front : List ℕ) × (back : List ℕ) × (ys ≡ front ++ a ∷ back)
split_at a [] h = absurd (omega (arith, h))
split_at a (y ∷ ys) h = elim (Bool-cases (y == a)) [
  | inl e ↦ let same : y ≡ a = (==_iff y a).0 e in ([], ys, ap (λ b. b ∷ ys) same)
  | inr e ↦
      let (front, back, same) = split_at a ys (ground (arith, e, h)) in
      (y ∷ front, back, ap (◌∷◌ y) same)
]

-- Lists in which each address stands equally often hold each frame equally often.
pub tally_cong :
    (z k : ℕ) (xs ys : List ℕ) → ((a : ℕ) → count a xs ≡ count a ys) → tally z k xs ≡ tally z k ys
unfolding tally
tally_cong z k [] [] h = refl
tally_cong z k [] (y ∷ ys) h =
    let own : (y == y) ≡ true = ground arith in absurd (ground (arith, h y, own))
tally_cong z k (x ∷ xs) ys h =
    let own : (x == x) ≡ true = ground arith in
    let (front, back, same) = split_at x ys (ground (arith, h x, own)) in
    let rest = tally_cong z k xs (front ++ back) (λ a. omega (
      arith,
      h a,
      ap (count a) same,
      count-append a front (x ∷ back),
      count-append a front back,
    )) in
    omega (
      arith,
      rest,
      tally-cons z k x xs,
      tally-cons z k x back,
      ap (tally z k) same,
      tally-append z k front (x ∷ back),
      tally-append z k front back,
    )

-- An address counts for its frame.
pub count-le-tally : (z a : ℕ) (xs : List ℕ) → count a xs ≤ tally z (a / z) xs
unfolding tally
count-le-tally z a [] = omega arith
count-le-tally z a (x ∷ xs) = elim (Bool-cases (x == a)) [
  | inl e ↦
      let same : x / z ≡ a / z = ap (λ y. y / z) ((==_iff x a).0 e) in
      let it : (x / z == a / z) ≡ true = (==_iff (x / z) (a / z)).1 same in
      rw (e, it) (omega (arith, count-le-tally z a xs))
  | inr e ↦ rw e (omega (arith, count-le-tally z a xs))
]

module _ (z : ℕ) (p : 0 < z) where
  frame_of : (i : ℕ) → i * z < u32_mod → i * z % u32_mod / z ≡ i
  frame_of i h =
      let small : i * z % u32_mod ≡ i * z = omega (arith, h) in
      let low : i ≤ i * z / z = (le-div_iff_mul-le p).1 (omega arith) in
      let high : i * z / z < i + 1 = (div-lt_iff_lt-mul p).1 (omega (arith, p)) in
      rw small (omega (arith, low, high))

  -- The frames of the UMEM are different, and none behind the last is among them.
  tally-frame_addrs_outside :
      (k i n : ℕ)
      → (i + n) * z ≤ u32_mod
      → (k < i) ⊎ (i + n ≤ k)
      → tally z k (frame_addrs z i n) ≡ 0
  unfolding tally frame_addrs
  tally-frame_addrs_outside k i zero h o = refl
  tally-frame_addrs_outside k i (suc n) h o =
      let here = frame_of i (omega (arith, h, p)) in
      let rest =
        tally-frame_addrs_outside k (i + 1) n (omega (arith, h))
          (elim o [ inl l ↦ inl (omega (arith, l)) | inr l ↦ inr (omega (arith, l)) ]) in
      let other : (i == k) ≡ false = elim o [
        | inl l ↦ ground (arith, l)
        | inr l ↦ ground (arith, l)
      ] in
      rw (here, other) (omega (arith, rest))

  pub tally-frame_addrs-le : (k i n : ℕ) → (i + n) * z ≤ u32_mod → tally z k (frame_addrs z i n) ≤ 1
  unfolding tally frame_addrs
  tally-frame_addrs-le k i zero h = omega arith
  tally-frame_addrs-le k i (suc n) h =
      let here = frame_of i (omega (arith, h, p)) in
      elim (Bool-cases (i == k)) [
        | inl e ↦
            let same : i ≡ k = (==_iff i k).0 e in
            let rest =
              tally-frame_addrs_outside k (i + 1) n (omega (arith, h))
                (inl (omega (arith, same))) in
            rw (here, e) (omega (arith, rest))
        | inr e ↦ rw (here, e) (omega (arith, tally-frame_addrs-le k (i + 1) n (omega (arith, h))))
      ]

  -- The sentinel lies in no frame.
  pub tally-invalid :
      num_frames * z ≤ u32_mod → tally z (invalid_umem_frame / z) (frame_addrs z 0 num_frames) ≡ 0
  tally-invalid h =
      let far : num_frames ≤ invalid_umem_frame / z = (le-div_iff_mul-le p).1 (omega (arith, h)) in
      tally-frame_addrs_outside (invalid_umem_frame / z) 0 num_frames (omega (arith, h))
        (inr (omega (arith, far)))
