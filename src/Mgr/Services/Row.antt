-- ===== src/Mgr/Services/Row.antt =====
-- A row of the service map: the ids of a service's NFs, in the order in which they became ready, and then
-- zeros.
use afxdp_path_manager.Common.{
  ℕ, zero, suc, ◌+◌, ◌-◌, ◌≤◌, ◌<◌, ◌≡◌, ◌≢◌, refl, sym, ap, ◌∙◌, List, [], ◌∷◌, ◌++◌, length,
  get_or, set, replicate, count, arith, ◌==◌, if◌then◌else◌, count-append, length-append,
  append_assoc,
}
use afxdp_path_manager.Mgr.Services.{max_nfs_per_service, shift_left, remove_from_row}

-- The row holds these ids.
pub record IsRow (ids row : List ℕ) : Type 0 where
  pub nonzero : count 0 ids ≡ 0
  pub fits : length ids ≤ max_nfs_per_service
  pub entries : row ≡ ids ++ replicate (max_nfs_per_service - length ids) 0

-- The list without the first occurrence of an id
abbrev pub remove_first : ℕ → List ℕ → List ℕ
remove_first id [] = []
remove_first id (x ∷ xs) = let later = remove_first id xs in if x == id then xs else x ∷ later

pub count-remove_first :
    (id a : ℕ) (xs : List ℕ)
    → 0 < count id xs
    → count a (remove_first id xs) + (if id == a then 1 else 0) ≡ count a xs
count-remove_first id a [] h = ground (arith, h)
count-remove_first id a (x ∷ xs) h = ground (arith, h, count-remove_first id a xs)

pub length-remove_first :
    (id : ℕ) (xs : List ℕ) → 0 < count id xs → suc (length (remove_first id xs)) ≡ length xs
length-remove_first id [] h = ground (arith, h)
length-remove_first id (x ∷ xs) h = ground (arith, h, length-remove_first id xs)

-- The loop closes the gap.
shift_left-closed :
    (ys : List ℕ) (k : ℕ)
    → count 0 ys ≡ 0
    → shift_left (0 ∷ (ys ++ replicate k 0)) ≡ ys ++ replicate (suc k) 0
unfolding shift_left
shift_left-closed [] zero h = refl
shift_left-closed [] (suc k) h = refl
shift_left-closed (y ∷ ys) k h = ground (arith, h, shift_left-closed ys k)

remove_from_row-removed :
    (id : ℕ) (ids : List ℕ) (k : ℕ)
    → count 0 ids ≡ 0
    → 0 < count id ids
    → remove_from_row id (ids ++ replicate k 0) ≡ remove_first id ids ++ replicate (suc k) 0
unfolding remove_from_row
remove_from_row-removed id [] k z h = ground (arith, h)
remove_from_row-removed id (x ∷ xs) k z h =
    ground (arith, z, h, shift_left-closed xs k, remove_from_row-removed id xs k)

-- The two loops of onvm_nf_stop take the NF off its row, and keep the order of the others without a gap.
pub remove_from_row-IsRow :
    (id : ℕ) (ids row : List ℕ)
    → IsRow ids row
    → 0 < count id ids
    → IsRow (remove_first id ids) (remove_from_row id row)
remove_from_row-IsRow id ids row v h =
    let len = length-remove_first id ids h in
    let zeros = count-remove_first id 0 ids h in
    let grown : suc (max_nfs_per_service - length ids)
        ≡ max_nfs_per_service - length (remove_first id ids) =
      omega (arith, len, v.fits) in
    record {
      nonzero = ground (arith, zeros, v.nonzero);
      fits = omega (arith, len, v.fits);
      entries =
          ap (remove_from_row id) v.entries
          ∙ remove_from_row-removed id ids (max_nfs_per_service - length ids) v.nonzero h
          ∙ ap (λ k. remove_first id ids ++ replicate k 0) grown;
    }

set-append :
    (ids : List ℕ) (k id : ℕ)
    → set (ids ++ replicate (suc k) 0) (length ids) id ≡ ids ++ (id ∷ replicate k 0)
set-append [] k id = refl
set-append (x ∷ xs) k id = ap (◌∷◌ x) (set-append xs k id)

-- onvm_nf_ready writes the new id behind the others.
pub set-IsRow :
    (id : ℕ) (ids row : List ℕ)
    → IsRow ids row
    → id ≢ 0
    → length ids < max_nfs_per_service
    → IsRow (ids ++ id ∷ []) (set row (length ids) id)
set-IsRow id ids row v p h =
    let k = max_nfs_per_service - suc (length ids) in
    let len = length-append ids (id ∷ []) in
    let room : max_nfs_per_service - length ids ≡ suc k = omega (arith, h) in
    let rest_len : k ≡ max_nfs_per_service - length (ids ++ id ∷ []) = omega (arith, len) in
    record {
      nonzero = ground (arith, count-append 0 ids (id ∷ []), v.nonzero, p);
      fits = omega (arith, len, h);
      entries =
          ap (λ r. set r (length ids) id) (v.entries ∙ ap (λ n. ids ++ replicate n 0) room)
          ∙ set-append ids k id
          ∙ sym (append_assoc ids (id ∷ []) (replicate k 0))
          ∙ ap (λ n. (ids ++ id ∷ []) ++ replicate n 0) rest_len;
    }

-- An entry of the row within the count is an id of the row.
pub get_or-row :
    (ids : List ℕ) (k i : ℕ) → i < length ids → 0 < count (get_or (ids ++ replicate k 0) i 0) ids
get_or-row [] k i h = ground (arith, h)
get_or-row (x ∷ xs) k zero h = ground arith
get_or-row (x ∷ xs) k (suc i) h = ground (arith, get_or-row xs k i)
