-- ===== src/Keys/Order.antt =====
-- Keys are ordered by their bytes, and a key comes before its extensions.
use cuckoo_trie_vectorized.Base.{
  ℕ, zero, suc, ◌^◌, ◌<◌, ◌≤◌, ◌≡◌, refl, arith, List, [], ◌∷◌, ◌==◌, ltb, if◌then◌else◌, take,
  length, sub64, ◌∙◌, ap, sym, Bool-cases, false, inl, inr,
}
use cuckoo_trie_vectorized.Keys.Defs.{
  Kv, Sign, less, equal, greater, memcmp, sign_of_int, kv_key_compare_to, kv_key_compare,
}

-- The order of words.
unfoldable pub lexicographic : List ℕ → List ℕ → Sign
lexicographic [] [] = equal
lexicographic [] (y ∷ ys) = less
lexicographic (x ∷ xs) [] = greater
lexicographic (x ∷ xs) (y ∷ ys) =
    if ltb x y then less else if ltb y x then greater else lexicographic xs ys

abbrev by_size : ℕ → ℕ → Sign
by_size m k = if m == k then equal else if ltb m k then less else greater

abbrev then_by : Sign → Sign → Sign
then_by less other = less
then_by equal other = other
then_by greater other = greater

abbrev smaller : ℕ → ℕ → ℕ
smaller m k = if ltb m k then m else k

sign_of_sizes : (m k : ℕ) → m < 2 ^ 31 → k < 2 ^ 31 → sign_of_int (sub64 m k) ≡ by_size m k
unfolding sign_of_int
sign_of_sizes m k hm hk = ground (arith, hm, hk)

memcmp-lexicographic :
    (m k : ℕ) (xs ys : List ℕ)
    → m ≤ length xs
    → k ≤ length ys
    → then_by (memcmp (smaller m k) xs ys) (by_size m k) ≡ lexicographic (take m xs) (take k ys)
unfolding memcmp lexicographic
memcmp-lexicographic zero zero xs ys hx hy = refl
memcmp-lexicographic zero (suc k) xs [] hx hy = absurd (omega (arith, hy))
memcmp-lexicographic zero (suc k) xs (y ∷ ys) hx hy =
    let shorter : smaller 0 (suc k) ≡ 0 = ground arith in
    let first : by_size 0 (suc k) ≡ less = ground arith in rw (shorter, first) refl
memcmp-lexicographic (suc m) k [] ys hx hy = absurd (omega (arith, hx))
memcmp-lexicographic (suc m) zero (x ∷ xs) ys hx hy =
    let shorter : smaller (suc m) 0 ≡ 0 = ground arith in
    let last : by_size (suc m) 0 ≡ greater = ground arith in rw (shorter, last) refl
memcmp-lexicographic (suc m) (suc k) (x ∷ xs) [] hx hy = absurd (omega (arith, hy))
memcmp-lexicographic (suc m) (suc k) (x ∷ xs) (y ∷ ys) hx hy =
    let shorter : smaller (suc m) (suc k) ≡ suc (smaller m k) = ground arith in
    let sizes : by_size (suc m) (suc k) ≡ by_size m k = ground arith in
    let rest = memcmp-lexicographic m k xs ys (omega (arith, hx)) (omega (arith, hy)) in
    elim (Bool-cases (ltb x y)) [
      | inl before ↦ rw (shorter, sizes, before) refl
      | inr not_before ↦ elim (Bool-cases (ltb y x)) [
        | inl behind ↦ rw (shorter, sizes, not_before, behind) refl
        | inr not_behind ↦ rw (shorter, sizes, not_before, not_behind) rest
      ]
    ]

-- The words of a key.
abbrev pub key_of : Kv → List ℕ
key_of kv = take kv.key_size kv.bytes

-- A key's size is an `int` that is not negative, and its bytes are there.
pub record IsKv (kv : Kv) : Type 0 where
  pub size_fits : kv.key_size < 2 ^ 31
  pub bytes_there : kv.key_size ≤ length kv.bytes

then_by_eq : (s t : Sign) → (elim s [ equal ↦ t | less ↦ less | greater ↦ greater ]) ≡ then_by s t
then_by_eq less t = refl
then_by_eq equal t = refl
then_by_eq greater t = refl

compare_lexicographic :
    (k1 k2 : Kv) → IsKv k1 → IsKv k2 → kv_key_compare k1 k2 ≡ lexicographic (key_of k1) (key_of k2)
unfolding kv_key_compare kv_key_compare_to
compare_lexicographic k1 k2 h1 h2 =
    then_by_eq (memcmp (smaller k1.key_size k2.key_size) k1.bytes k2.bytes)
      (sign_of_int (sub64 k1.key_size k2.key_size))
    ∙ ap (then_by (memcmp (smaller k1.key_size k2.key_size) k1.bytes k2.bytes))
        (sign_of_sizes k1.key_size k2.key_size h1.size_fits h2.size_fits)
    ∙ memcmp-lexicographic k1.key_size k2.key_size k1.bytes k2.bytes h1.bytes_there h2.bytes_there

lexicographic_same : (xs ys : List ℕ) → lexicographic xs ys ≡ equal → xs ≡ ys
unfolding lexicographic
lexicographic_same [] [] h = refl
lexicographic_same [] (y ∷ ys) h = absurd (ground (arith, h))
lexicographic_same (x ∷ xs) [] h = absurd (ground (arith, h))
lexicographic_same (x ∷ xs) (y ∷ ys) h = elim (Bool-cases (ltb x y)) [
  | inl before ↦ absurd (ground (arith, h, before))
  | inr not_before ↦ elim (Bool-cases (ltb y x)) [
    | inl behind ↦ absurd (ground (arith, h, not_before, behind))
    | inr not_behind ↦
        let heads : x ≡ y = ground (arith, not_before, not_behind) in
        ap (λ (z : ℕ). z ∷ xs) heads
        ∙ ap (λ (zs : List ℕ). y ∷ zs)
            (lexicographic_same xs ys (ground (arith, h, not_before, not_behind)))
  ]
]

abbrev pub opposite : Sign → Sign
opposite less = greater
opposite equal = equal
opposite greater = less

lexicographic-opposite : (xs ys : List ℕ) → lexicographic ys xs ≡ opposite (lexicographic xs ys)
unfolding lexicographic
lexicographic-opposite [] [] = refl
lexicographic-opposite [] (y ∷ ys) = refl
lexicographic-opposite (x ∷ xs) [] = refl
lexicographic-opposite (x ∷ xs) (y ∷ ys) = elim (Bool-cases (ltb x y)) [
  | inl before ↦
      let not_behind : ltb y x ≡ false = ground (arith, before) in rw (before, not_behind) refl
  | inr not_before ↦ elim (Bool-cases (ltb y x)) [
    | inl behind ↦ rw (not_before, behind) refl
    | inr not_behind ↦ rw (not_before, not_behind) (lexicographic-opposite xs ys)
  ]
]

-- For keys whose sizes fit an int and whose bytes are there, kv_key_compare gives the lexicographic
-- order of their bytes, where a key comes before its extensions. It reports equality only for keys
-- of the same bytes, and the opposite sign when the keys are exchanged.
pub kv_key_compare-lexicographic :
    (k1 k2 : Kv)
    → IsKv k1
    → IsKv k2
    → (kv_key_compare k1 k2 ≡ lexicographic (key_of k1) (key_of k2))
      × (kv_key_compare k1 k2 ≡ equal → key_of k1 ≡ key_of k2)
      × (kv_key_compare k2 k1 ≡ opposite (kv_key_compare k1 k2))
kv_key_compare-lexicographic k1 k2 h1 h2 =
    let order = compare_lexicographic k1 k2 h1 h2 in
    let back = compare_lexicographic k2 k1 h2 h1 in
    (
      order,
      λ q. lexicographic_same (key_of k1) (key_of k2) (sym order ∙ q),
      back ∙ lexicographic-opposite (key_of k1) (key_of k2) ∙ ap opposite (sym order),
    )
