-- ===== src/Common/Tables.antt =====
-- Arrays as functions of the index: a write, and the sum of a measure of the entries.
use Prim.Native.Nat.{ℕ, zero, suc, ◌+◌, ◌≤◌, ◌<◌}
use mathlib.Core.Path.{◌≡◌, refl, ap}
use mathlib.Core.Logic.{◌≢◌, inl, inr}
use native.Mathlib.Omega.{arith}
use afxdp_path_manager.Common.Tests.{◌==◌, if◌then◌else◌, Bool-cases}

-- A write to an array
abbrev pub update {ℓ} : {Entry : Type ℓ} → (ℕ → Entry) → ℕ → Entry → ℕ → Entry
update table at entry i = if i == at then entry else table i

-- The sum of the first `n` values
unfoldable pub total : ℕ → (ℕ → ℕ) → ℕ
total zero f = 0
total (suc n) f = f n + total n f

module _ {ℓ} {Entry : Type ℓ} (measure : Entry → ℕ) (table : ℕ → Entry) where
  -- A write behind the part that is summed
  total-update_outside :
      (n at : ℕ) (entry : Entry)
      → n ≤ at
      → total n (λ i. measure (update table at entry i)) ≡ total n (λ i. measure (table i))
  unfolding total
  total-update_outside zero at entry h = refl
  total-update_outside (suc n) at entry h =
      ground (arith, total-update_outside n at entry (omega arith))

  -- A write takes the old entry out of the sum and puts the new one in.
  pub total-update :
      (n at : ℕ) (entry : Entry)
      → at < n
      → total n (λ i. measure (update table at entry i)) + measure (table at)
        ≡ total n (λ i. measure (table i)) + measure entry
  unfolding total
  total-update zero at entry h = absurd (omega arith)
  total-update (suc n) at entry h = elim (Bool-cases (n == at)) [
    | inl e ↦
        let same : n ≡ at = ground (arith, e) in
        ground (arith, e, ap table same, total-update_outside n at entry (omega arith))
    | inr e ↦ ground (arith, e, total-update n at entry (ground (arith, e)))
  ]

-- A part is at most the sum, and so are two.
pub le_total : (n : ℕ) (f : ℕ → ℕ) (i : ℕ) → i < n → f i ≤ total n f
unfolding total
le_total zero f i h = absurd (omega arith)
le_total (suc n) f i h = elim (Bool-cases (i == n)) [
  | inl e ↦ let same : i ≡ n = ground (arith, e) in rw same (omega arith)
  | inr e ↦ let less : i < n = ground (arith, e, h) in omega (arith, le_total n f i less)
]

pub two_le_total : (n : ℕ) (f : ℕ → ℕ) (i j : ℕ) → i < n → j < n → i ≢ j → f i + f j ≤ total n f
unfolding total
two_le_total zero f i j h k d = absurd (omega arith)
two_le_total (suc n) f i j h k d = elim (Bool-cases (i == n)) [
  | inl e ↦
      let same : i ≡ n = ground (arith, e) in
      let less : j < n = ground (arith, e, d, k) in rw same (omega (arith, le_total n f j less))
  | inr e ↦
      let less : i < n = ground (arith, e, h) in
      elim (Bool-cases (j == n)) [
        | inl e' ↦
            let same : j ≡ n = ground (arith, e') in rw same (omega (arith, le_total n f i less))
        | inr e' ↦
            let less' : j < n = ground (arith, e', k) in
            omega (arith, two_le_total n f i j less less' d)
      ]
]

-- A sum with one part
pub total-none : (n : ℕ) (f : ℕ → ℕ) → ((i : ℕ) → i < n → f i ≡ 0) → total n f ≡ 0
unfolding total
total-none zero f z = refl
total-none (suc n) f z =
    omega (arith, z n (omega arith), total-none n f (λ i k. z i (omega (arith, k))))

pub total-single :
    (n : ℕ) (f : ℕ → ℕ) (at : ℕ) → at < n → ((i : ℕ) → i ≢ at → f i ≡ 0) → total n f ≡ f at
unfolding total
total-single zero f at h z = absurd (omega arith)
total-single (suc n) f at h z = elim (Bool-cases (at == n)) [
  | inl e ↦
      let same : at ≡ n = ground (arith, e) in
      let others = total-none n f (λ i k. z i (ground (arith, k, e))) in
      rw same (omega (arith, others))
  | inr e ↦
      let less : at < n = ground (arith, e, h) in
      let other : n ≢ at = ground (arith, e) in omega (arith, z n other, total-single n f at less z)
]
