-- ===== src/PktHelper/Checksum/Words.antt =====
-- Fields in a packet's bytes, and the sum of its 16-bit words, of which the Internet checksum is the complement
-- modulo 65535.
use afxdp_path_manager.Common.{
  ℕ, zero, suc, ◌+◌, ◌*◌, ◌/◌, ◌%◌, ◌<◌, ◌≡◌, ◌≢◌, refl, ap, ◌∙◌, List, [], ◌∷◌, length, get_or,
  set, take, drop, length-set, get_or-set_ne, get_or-set_self, u8_mod, u16_mod, arith,
}
use afxdp_path_manager.PktHelper.Checksum.{Cksum, put_u16, load_u16}

-- The sum of the words; an odd last byte is a word of its own.
pub sum16 : List ℕ → ℕ
sum16 [] = 0
sum16 (a ∷ []) = a
sum16 (a ∷ b ∷ bytes) = a + u8_mod * b + sum16 bytes

-- What is relied on of rte_raw_cksum: it answers the one's complement sum of the words in 16 bits.
pub record CksumLaws (C : Cksum) : Type 0 where
  pub bound : (bytes : List ℕ) → C.raw_cksum bytes < u16_mod
  pub sum : (bytes : List ℕ) → C.raw_cksum bytes % 65535 ≡ sum16 bytes % 65535

pub length-put_u16 : (bytes : List ℕ) (at v : ℕ) → length (put_u16 bytes at v) ≡ length bytes
length-put_u16 bytes at v =
    length-set (set bytes at (v % u8_mod)) (at + 1) (v / u8_mod) ∙ length-set bytes at (v % u8_mod)

pub get_or-put_u16 :
    (bytes : List ℕ) (at v j : ℕ)
    → at ≢ j
    → at + 1 ≢ j
    → get_or (put_u16 bytes at v) j 0 ≡ get_or bytes j 0
get_or-put_u16 bytes at v j p q =
    get_or-set_ne (set bytes at (v % u8_mod)) (v / u8_mod) 0 q
    ∙ get_or-set_ne bytes (v % u8_mod) 0 p

get_or-put_low :
    (bytes : List ℕ) (at v : ℕ)
    → at + 1 < length bytes
    → get_or (put_u16 bytes at v) at 0 ≡ v % u8_mod
get_or-put_low bytes at v h =
    let other : at + 1 ≢ at = λ e. omega (arith, e) in
    get_or-set_ne (set bytes at (v % u8_mod)) (v / u8_mod) 0 other
    ∙ get_or-set_self bytes at (v % u8_mod) 0 (omega (arith, h))

get_or-put_high :
    (bytes : List ℕ) (at v : ℕ)
    → at + 1 < length bytes
    → get_or (put_u16 bytes at v) (at + 1) 0 ≡ v / u8_mod
get_or-put_high bytes at v h =
    get_or-set_self (set bytes at (v % u8_mod)) (at + 1) (v / u8_mod) 0
      (omega (arith, h, length-set bytes at (v % u8_mod)))

-- A field is loaded as it was stored.
pub load_u16-put_u16 :
    (bytes : List ℕ) (at v : ℕ) → at + 1 < length bytes → load_u16 (put_u16 bytes at v) at ≡ v
load_u16-put_u16 bytes at v h =
    omega (arith, get_or-put_low bytes at v h, get_or-put_high bytes at v h)

drop-set :
    (n i : ℕ) (bytes : List ℕ) (v : ℕ) → drop n (set bytes (n + i) v) ≡ set (drop n bytes) i v
drop-set zero i bytes v = ap (λ k. set bytes k v) (omega arith)
drop-set (suc n) i [] v = refl
drop-set (suc n) i (x ∷ bytes) v =
    let e : suc n + i ≡ suc (n + i) = omega arith in rw e (drop-set n i bytes v)

take-set_inside :
    (n i : ℕ) (bytes : List ℕ) (v : ℕ) → i < n → take n (set bytes i v) ≡ set (take n bytes) i v
take-set_inside zero i bytes v h = absurd (omega (arith, h))
take-set_inside (suc n) i [] v h = refl
take-set_inside (suc n) zero (x ∷ bytes) v h = refl
take-set_inside (suc n) (suc i) (x ∷ bytes) v h =
    ap (◌∷◌ x) (take-set_inside n i bytes v (omega (arith, h)))

-- The bytes of a header that starts at `from` and has `n` bytes
abbrev pub header : ℕ → ℕ → List ℕ → List ℕ
header n from bytes = take n (drop from bytes)

pub header-put_u16 :
    (n from i : ℕ) (bytes : List ℕ) (v : ℕ)
    → i + 1 < n
    → header n from (put_u16 bytes (from + i) v) ≡ put_u16 (header n from bytes) i v
header-put_u16 n from i bytes v h =
    let e : from + i + 1 ≡ from + (i + 1) = omega arith in
    let low = set bytes (from + i) (v % u8_mod) in
    rw e (
      ap (take n) (drop-set from (i + 1) low (v / u8_mod))
      ∙ take-set_inside n (i + 1) (drop from low) (v / u8_mod) h
      ∙ ap (λ l. set l (i + 1) (v / u8_mod))
          (ap (take n) (drop-set from i bytes (v % u8_mod))
            ∙ take-set_inside n i (drop from bytes) (v % u8_mod) (omega (arith, h))))

pub get_or-drop : (n i : ℕ) (bytes : List ℕ) → get_or (drop n bytes) i 0 ≡ get_or bytes (n + i) 0
get_or-drop zero i bytes = ap (λ k. get_or bytes k 0) (omega arith)
get_or-drop (suc n) i [] = refl
get_or-drop (suc n) i (x ∷ bytes) =
    let e : suc n + i ≡ suc (n + i) = omega arith in rw e (get_or-drop n i bytes)

get_or-take : (n i : ℕ) (bytes : List ℕ) → i < n → get_or (take n bytes) i 0 ≡ get_or bytes i 0
get_or-take zero i bytes h = absurd (omega (arith, h))
get_or-take (suc n) i [] h = refl
get_or-take (suc n) zero (x ∷ bytes) h = refl
get_or-take (suc n) (suc i) (x ∷ bytes) h = get_or-take n i bytes (omega (arith, h))

pub get_or-header :
    (n from i : ℕ) (bytes : List ℕ)
    → i < n
    → get_or (header n from bytes) i 0 ≡ get_or bytes (from + i) 0
get_or-header n from i bytes h = get_or-take n i (drop from bytes) h ∙ get_or-drop from i bytes

-- A store at an even place exchanges one word of the sum.
pub sum16-put_u16 :
    (k : ℕ) (bytes : List ℕ) (v : ℕ)
    → k + k + 1 < length bytes
    → sum16 (put_u16 bytes (k + k) v) + load_u16 bytes (k + k) ≡ sum16 bytes + v
unfolding sum16
sum16-put_u16 k [] v h = absurd (omega (arith, h))
sum16-put_u16 k (a ∷ []) v h = absurd (omega (arith, h))
sum16-put_u16 zero (a ∷ b ∷ bytes) v h = omega arith
sum16-put_u16 (suc k) (a ∷ b ∷ bytes) v h =
    let e : suc k + suc k ≡ suc (suc (k + k)) = omega arith in
    let f : suc (suc (k + k)) + 1 ≡ suc (suc (k + k + 1)) = omega arith in
    rw (e, f) (omega (arith, sum16-put_u16 k bytes v (omega (arith, h))))
