-- ===== src/Mgr/Cores/Laws.antt =====
-- What onvm_threading_get_core grants.
use afxdp_path_manager.Common.{
  ℕ, zero, suc, ◌+◌, ◌≤◌, ◌≡◌, ◌≢◌, refl, ◌⊎◌, inl, inr, ◌↔◌, Bool, true, false, not, ◌&&◌, ◌||◌,
  List, [], ◌∷◌, none, some, length, get_elem?, set, arith, ltb, ◌==◌, Bool-cases, Option-cases,
}
use afxdp_path_manager.Mgr.Cores.{
  Core, CoreFlags, CoreResult, no_count, occupy, find_best, get_manual, get_automatic, get_core,
}

-- A core that an NF may be put on.
unfoldable pub is_free : Core → Bool
is_free c = c.enabled && not c.is_dedicated_core

-- What a granted core was, and is.
pub record Granted (flags : CoreFlags) (cores : List Core) (r : CoreResult) : Type 0 where
  pub core : Core
  pub found : get_elem? cores r.core_value ≡ some core
  pub free : is_free core ≡ true
  pub alone : (flags.share_core ≡ true) ⊎ (core.nf_count ≡ 0)
  pub taken : r.cores ≡ set cores r.core_value (occupy (not flags.share_core) core)

-- The winner of the search is the best so far or a free core of the list, and no free core has fewer NFs.
record Best (i : ℕ) (cs : List Core) (best r : ℕ × ℕ) : Type 0 where
  least : (j : ℕ) (c : Core) → get_elem? cs j ≡ some c → is_free c ≡ true → r.0 ≤ c.nf_count
  below : r.0 ≤ best.0
  origin :
      (r ≡ best)
      ⊎ ((j : ℕ) × (c : Core) × (get_elem? cs j ≡ some c)
          × (is_free c ≡ true)
          × (c.nf_count ≡ r.0)
          × (r.1 ≡ i + j))

cons_least :
    (c : Core) (cs : List Core) (m : ℕ)
    → (is_free c ≡ true → m ≤ c.nf_count)
    → ((j : ℕ) (d : Core) → get_elem? cs j ≡ some d → is_free d ≡ true → m ≤ d.nf_count)
    → (j : ℕ) (d : Core) → get_elem? (c ∷ cs) j ≡ some d
    → is_free d ≡ true
    → m ≤ d.nf_count
cons_least c cs m first others zero d e f = let same : c ≡ d = cc in rw same at first f
cons_least c cs m first others (suc j) d e f = others j d e f

find_best-Best : (i : ℕ) (cs : List Core) (best : ℕ × ℕ) → Best i cs best (find_best i cs best)
unfolding find_best is_free
find_best-Best i [] best = record {
  least = λ j c e. ground (arith, e);
  below = omega arith;
  origin = inl refl;
}
find_best-Best i (c ∷ cs) best = elim (Bool-cases (is_free c && ltb c.nf_count best.0)) [
  | inl e ↦
      let b = find_best-Best (suc i) cs (c.nf_count, i) in
      rw e (record {
        least = cons_least c cs _ (λ f. b.below) b.least;
        below = ground (arith, b.below, e);
        origin = elim b.origin [
          | inl same ↦
              inr (0, c, refl, ground (arith, e), ground (arith, same), ground (arith, same))
          | inr (j, d, f, h, n, w) ↦ inr (suc j, d, f, h, n, omega (arith, w))
        ];
      })
  | inr e ↦
      let b = find_best-Best (suc i) cs best in
      rw e (record {
        least = cons_least c cs _ (λ f. ground (arith, f, e, b.below)) b.least;
        below = b.below;
        origin = elim b.origin [
          | inl same ↦ inl same
          | inr (j, d, f, h, n, w) ↦ inr (suc j, d, f, h, n, omega (arith, w))
        ];
      })
]

get_elem?-none_iff : (cs : List Core) (i : ℕ) → (get_elem? cs i ≡ none) ↔ (length cs ≤ i)
get_elem?-none_iff [] i = ground arith
get_elem?-none_iff (c ∷ cs) zero = ground arith
get_elem?-none_iff (c ∷ cs) (suc i) = ground (arith, get_elem?-none_iff cs i)

get_automatic-some :
    (pref : ℕ) (flags : CoreFlags) (cores : List Core) → get_automatic pref flags cores ≢ none
unfolding get_automatic
get_automatic-some pref flags cores =
    let b = find_best-Best 0 cores (no_count, 0) in
    elim b.origin [
      | inl same ↦ ground (arith, same)
      | inr (j, c, f, h, n, w) ↦ ground (arith, f, n, w)
    ]

-- The preferred core is looked up behind the end of the array just when its number is the number of
-- cores: the range test admits it.
pub get_core-none_iff :
    (pref : ℕ) (flags : CoreFlags) (cores : List Core)
    → (get_core pref flags cores ≡ none)
      ↔ ((flags.manual_core_assignment ≡ true) × (pref ≡ length cores))
unfolding get_core get_manual
get_core-none_iff pref flags cores =
    ground (arith, get_automatic-some pref flags cores, get_elem?-none_iff cores pref)

get_manual-Granted :
    (pref : ℕ) (flags : CoreFlags) (cores : List Core) (r : CoreResult)
    → get_manual pref flags cores ≡ some r
    → r.ret ≡ 0
    → Granted flags cores r × (r.core_value ≡ pref)
unfolding get_manual is_free
get_manual-Granted pref flags cores r e z = elim (Option-cases (get_elem? cores pref)) [
  | inl n ↦ ground (arith, e, z, n)
  | inr (c, g) ↦
      let at : r.core_value ≡ pref = ground (arith, e, z, g) in
      (
        record {
          core = c;
          found = rw at g;
          free = ground (arith, e, z, g);
          alone = ground (arith, e, z, g);
          taken = ground (arith, e, z, g);
        },
        at,
      )
]

get_automatic-Granted :
    (pref : ℕ) (flags : CoreFlags) (cores : List Core) (r : CoreResult)
    → get_automatic pref flags cores ≡ some r
    → r.ret ≡ 0
    → (g : Granted flags cores r) × ((j : ℕ) (c : Core)
        → get_elem? cores j ≡ some c
        → is_free c ≡ true
        → g.core.nf_count ≤ c.nf_count)
unfolding get_automatic
get_automatic-Granted pref flags cores r e z =
    let b = find_best-Best 0 cores (no_count, 0) in
    let w = find_best 0 cores (no_count, 0) in
    elim b.origin [
      | inl same ↦ ground (arith, e, z, same)
      | inr (j, c, f, h, n, v) ↦
          let won : w.1 ≡ j = omega (arith, v) in
          let there : get_elem? cores w.1 ≡ some c = rw won f in
          let at : r.core_value ≡ w.1 = ground (arith, e, z, there) in
          (
            record {
              core = c;
              found = rw at there;
              free = h;
              alone = ground (arith, e, z, there, n);
              taken = ground (arith, e, z, there);
            },
            λ k d g i. omega (arith, n, b.least k d g i),
          )
    ]

-- An NF is only put on a core that is enabled and not reserved; if it wants the core for itself, no NF was
-- there, and the core is reserved then. Only this core's entry changes.
pub get_core-Granted :
    (pref : ℕ) (flags : CoreFlags) (cores : List Core) (r : CoreResult)
    → get_core pref flags cores ≡ some r
    → r.ret ≡ 0
    → Granted flags cores r
unfolding get_core
get_core-Granted pref flags cores r e z = elim (Bool-cases flags.manual_core_assignment) [
  | inl m ↦ (get_manual-Granted pref flags cores r (ground (arith, e, m)) z).0
  | inr m ↦ (get_automatic-Granted pref flags cores r (ground (arith, e, m)) z).0
]

-- Without a preferred core, no core that an NF may be put on has fewer NFs than the granted one.
pub get_core-least :
    (pref : ℕ) (flags : CoreFlags) (cores : List Core) (r : CoreResult) (j : ℕ) (c : Core)
    → flags.manual_core_assignment ≡ false
    → get_core pref flags cores ≡ some r
    → r.ret ≡ 0
    → get_elem? cores j ≡ some c
    → is_free c ≡ true
    → (g : Granted flags cores r) × (g.core.nf_count ≤ c.nf_count)
unfolding get_core
get_core-least pref flags cores r j c m e z f h =
    let (g, least) = get_automatic-Granted pref flags cores r (ground (arith, e, m)) z in
    (g, least j c f h)

-- A call that grants no core leaves all entries as they were.
pub get_core-refused :
    (pref : ℕ) (flags : CoreFlags) (cores : List Core) (r : CoreResult)
    → get_core pref flags cores ≡ some r
    → r.ret ≢ 0
    → r.cores ≡ cores
unfolding get_core get_manual get_automatic
get_core-refused pref flags cores r e z = ground (arith, e, z)

-- A reserved core runs one NF.
unfoldable pub is_exclusive : List Core → Bool
is_exclusive [] = true
is_exclusive (c ∷ cs) = (not c.is_dedicated_core || (c.nf_count == 1)) && is_exclusive cs

is_exclusive-occupy :
    (cs : List Core) (i : ℕ) (c : Core) (dedicated : Bool)
    → is_exclusive cs ≡ true
    → get_elem? cs i ≡ some c
    → is_free c ≡ true
    → (dedicated ≡ false) ⊎ (c.nf_count ≡ 0)
    → is_exclusive (set cs i (occupy dedicated c)) ≡ true
unfolding is_exclusive is_free
is_exclusive-occupy [] i c dedicated v e f a = v
is_exclusive-occupy (d ∷ cs) zero c dedicated v e f a = ground (arith, v, e, f, a)
is_exclusive-occupy (d ∷ cs) (suc i) c dedicated v e f a =
    ground (arith, v, is_exclusive-occupy cs i c dedicated (ground (arith, v)) e f a)

-- onvm_threading_get_core keeps it so that a reserved core runs one NF.
pub get_core-is_exclusive :
    (pref : ℕ) (flags : CoreFlags) (cores : List Core) (r : CoreResult)
    → is_exclusive cores ≡ true
    → get_core pref flags cores ≡ some r
    → is_exclusive r.cores ≡ true
get_core-is_exclusive pref flags cores r v e = elim (Bool-cases (r.ret == 0)) [
  | inl z ↦
      let g = get_core-Granted pref flags cores r e (ground (arith, z)) in
      rw g.taken (
        is_exclusive-occupy cores r.core_value g.core (not flags.share_core) v g.found g.free
          (ground (arith, g.alone)))
  | inr z ↦
      let same : r.cores ≡ cores = get_core-refused pref flags cores r e (ground (arith, z)) in
      rw same v
]
