-- ===== src/Mgr/Threads/Ranges.antt =====
-- Each NF has one of the TX threads of onvm/onvm_mgr/main.c.
use afxdp_path_manager.Common.{
  ℕ, ◌+◌, ◌-◌, ◌*◌, ◌/◌, ◌%◌, ◌≤◌, ◌<◌, ◌≡◌, refl, sym, true, false, ltb, ◌↔◌, inl, inr, u32_mod,
  Bool, Bool-cases, none, some, arith, ◌==◌,
}
use native.Mathlib.Nat.{div-add-mod', mul-le-mul_right, div-eq_of_lt-le, div-mul-le_self, mod-lt}
use afxdp_path_manager.Mgr.Services.{max_nfs}
use afxdp_path_manager.Mgr.Threads.{tx_lcores, nfs_per, Range, nf_range}

-- The thread with this range serves the NF.
abbrev pub Serves : Range → ℕ → Type 0
Serves r id = (r.first_nf ≤ id) × (id < r.last_nf)

-- The shares of all threads together reach the end of the table, and not far behind it.
nfs_per-covers : (t : ℕ) → 0 < t → (128 ≤ t * nfs_per t) × (t * nfs_per t < 128 + t)
nfs_per-covers t pos =
    ground (arith, div-add-mod' (max_nfs + (t - 1)) t, mod-lt (max_nfs + (t - 1)) pos)

-- What is behind a thread's share starts within the words.
share_bound : (t i : ℕ) → i < t → (i + 1) * nfs_per t < 128 + t
share_bound t i h =
    let step : i + 1 ≤ t = omega arith in
    ground (arith, mul-le-mul_right (nfs_per t) step, nfs_per-covers t (ground (arith, h)))

-- No wrap-around
nf_range-exact :
    (t i : ℕ)
    → i < t
    → t < 4294967168
    → (((i * nfs_per t + 1) % u32_mod) ≡ i * nfs_per t + 1)
      × ((((i + 1) * nfs_per t + 1) % u32_mod) ≡ (i + 1) * nfs_per t + 1)
nf_range-exact t i h bound =
    let upper = share_bound t i h in
    let lower = mul-le-mul_right {m = i} {n = i + 1} (nfs_per t) (omega arith) in
    (omega arith, omega arith)

-- For an NF's slot this is the thread.
Serves-iff :
    (t i id : ℕ)
    → i < t
    → t < 4294967168
    → 1 ≤ id
    → id < max_nfs
    → Serves (nf_range (nfs_per t) i) id
      ↔ ((i * nfs_per t ≤ id - 1) × (id - 1 < (i + 1) * nfs_per t))
unfolding nf_range
Serves-iff t i id h bound low high =
    let (lower, upper) = nf_range-exact t i h bound in
    rw (lower, upper) (λ (a, b). (omega arith, omega arith), λ (a, b). (omega arith, omega arith))

served_once :
    (t id : ℕ)
    → 0 < t
    → t < 4294967168
    → 1 ≤ id
    → id < max_nfs
    → (i : ℕ) × (i < t)
      × Serves (nf_range (nfs_per t) i) id
      × ((j : ℕ) → j < t → Serves (nf_range (nfs_per t) j) id → j ≡ i)
served_once t id pos bound low high =
    let per = nfs_per t in
    let i = (id - 1) / per in
    let covers = nfs_per-covers t pos in
    let some_each : 0 < per = elim (Bool-cases (per == 0)) [
      | inl e ↦
          let none_each : per ≡ 0 = ground (arith, e) in
          absurd (ground (arith, rw none_each at covers))
      | inr e ↦ ground (arith, e)
    ] in
    let starts : i * per ≤ id - 1 = div-mul-le_self (id - 1) per in
    let ends : id - 1 < (i + 1) * per =
      ground (arith, div-add-mod' (id - 1) per, mod-lt (id - 1) some_each) in
    let inside : i < t = elim (Bool-cases (ltb i t)) [
      | inl e ↦ ground (arith, e)
      | inr e ↦
          let behind : t ≤ i = ground (arith, e) in
          absurd (ground (arith, mul-le-mul_right per behind, starts, covers))
    ] in
    (
      i,
      inside,
      (Serves-iff t i id inside bound low high).1 (starts, ends),
      λ j h serves.
          let (from, to) = (Serves-iff t j id h bound low high).0 serves in
          sym (div-eq_of_lt-le per from to),
    )

-- From three lcores on main either has too few for shared cores, or each NF has just one TX thread.
tx_lcores-positive :
    (share_cores : Bool) (lcores t : ℕ)
    → 3 ≤ lcores
    → lcores < u32_mod
    → tx_lcores share_cores lcores ≡ some t
    → (0 < t) × (t ≤ lcores)
unfolding tx_lcores
tx_lcores-positive true lcores t few bound e = ground (arith, e)
tx_lcores-positive false lcores t few bound e = ground (arith, e)

-- With shared cores and three lcores main exits for too few cores; with fewer lcores, or without shared cores, it goes
-- on.
pub tx_lcores-none_iff :
    (share_cores : Bool) (lcores : ℕ)
    → lcores < u32_mod
    → (tx_lcores share_cores lcores ≡ none) ↔ ((share_cores ≡ true) × (lcores ≡ 3))
unfolding tx_lcores
tx_lcores-none_iff true lcores h = (λ e. (refl, ground (arith, e)), λ (a, b). ground (arith, b))
tx_lcores-none_iff false lcores h = (λ e. ground (arith, e), λ (a, b). ground (arith, a))

-- From three lcores on main exits, for shared cores, or each NF is served by just one of the TX threads: the shares of
-- `nfs_per_tx` NFs leave no gap, and do not overlap.
pub tx_lcores-served_once :
    (share_cores : Bool) (lcores t id : ℕ)
    → 3 ≤ lcores
    → lcores < 4294967168
    → tx_lcores share_cores lcores ≡ some t
    → 1 ≤ id
    → id < max_nfs
    → (i : ℕ) × (i < t)
      × Serves (nf_range (nfs_per t) i) id
      × ((j : ℕ) → j < t → Serves (nf_range (nfs_per t) j) id → j ≡ i)
tx_lcores-served_once share_cores lcores t id few bound e low high =
    let (pos, most) = tx_lcores-positive share_cores lcores t few (omega arith) e in
    served_once t id pos (omega arith) low high
