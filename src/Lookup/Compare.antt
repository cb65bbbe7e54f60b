-- ===== src/Lookup/Compare.antt =====
-- Keys in memory against key objects: by their bytes, and by their symbols.
use cuckoo_trie_vectorized.Base.{
  ℕ, zero, suc, ◌+◌, ◌*◌, ◌/◌, ◌^◌, ◌<◌, ◌≤◌, ◌≡◌, refl, ap, ◌∙◌, sym, arith, List, [], ◌∷◌, length,
  take, get_or,
}
use cuckoo_trie_vectorized.Symbols.{Memory, get_string_symbol}
use cuckoo_trie_vectorized.Symbols.Key.{key_bytes}
use cuckoo_trie_vectorized.Prefetch.{symbol_count}
use cuckoo_trie_vectorized.Prefetch.Injective.{same_size, same_bytes}
use cuckoo_trie_vectorized.Keys.{Kv, equal, kv_key_compare_to, kv_key_compare}
use cuckoo_trie_vectorized.Keys.Order.{IsKv, key_of, lexicographic, kv_key_compare-lexicographic}
use cuckoo_trie_vectorized.Lookup.Defs.{Objects, bytes_at}
use cuckoo_trie_vectorized.Lookup.Tree.{kv_symbol}

length-bytes_at : (memory : Memory) (from n : ℕ) → length (bytes_at memory from n) ≡ n
unfolding bytes_at
length-bytes_at memory from zero = refl
length-bytes_at memory from (suc n) = ap suc (length-bytes_at memory (from + 1) n)

length-take : (n : ℕ) (xs : List ℕ) → n ≤ length xs → length (take n xs) ≡ n
length-take zero xs h = refl
length-take (suc n) [] h = absurd (omega (arith, h))
length-take (suc n) (x ∷ xs) h = ap suc (length-take n xs (omega (arith, h)))

-- The first bytes of a list, if they are those in memory.
take-bytes_at :
    (memory : Memory) (from n : ℕ) (xs : List ℕ)
    → n ≤ length xs
    → ((i : ℕ) → i < n → get_or xs i 0 ≡ memory (from + i))
    → take n xs ≡ bytes_at memory from n
unfolding bytes_at
take-bytes_at memory from zero xs h same = refl
take-bytes_at memory from (suc n) [] h same = absurd (omega (arith, h))
take-bytes_at memory from (suc n) (x ∷ xs) h same =
    let start : from + 0 ≡ from = omega arith in
    let head : x ≡ memory from = same 0 (omega arith) ∙ ap memory start in
    ap (λ (b : ℕ). b ∷ take n xs) head
    ∙ ap (λ (rest : List ℕ). memory from ∷ rest)
        (take-bytes_at memory (from + 1) n xs (omega (arith, h)) (λ i below.
          let moved : from + suc i ≡ from + 1 + i = omega arith in
          same (suc i) (omega (arith, below)) ∙ ap memory moved))

get_or-bytes_at :
    (memory : Memory) (from n : ℕ) (xs : List ℕ)
    → take n xs ≡ bytes_at memory from n
    → (i : ℕ) → i < n
    → get_or xs i 0 ≡ memory (from + i)
unfolding bytes_at
get_or-bytes_at memory from zero xs same i below = absurd (omega (arith, below))
get_or-bytes_at memory from (suc n) [] same i below = absurd (ground (arith, same))
get_or-bytes_at memory from (suc n) (x ∷ xs) same zero below =
    let start : from ≡ from + 0 = omega arith in
    let head : x ≡ memory from = cc (same) in head ∙ ap memory start
get_or-bytes_at memory from (suc n) (x ∷ xs) same (suc i) below =
    let rest : take n xs ≡ bytes_at memory (from + 1) n = cc (same) in
    let moved : from + 1 + i ≡ from + suc i = omega arith in
    get_or-bytes_at memory (from + 1) n xs rest i (omega (arith, below)) ∙ ap memory moved

-- The symbols of a key read its own bytes only.
symbol-same_bytes :
    (size : ℕ) (a b : Memory) (i : ℕ)
    → ((j : ℕ) → j < size → a j ≡ b j)
    → get_string_symbol size a i ≡ get_string_symbol size b i
unfolding get_string_symbol
symbol-same_bytes size a b i same = ground (arith, same (i * 5 / 8), same (i * 5 / 8 + 1))

pub lexicographic_refl : (xs : List ℕ) → lexicographic xs xs ≡ equal
unfolding lexicographic
lexicographic_refl [] = refl
lexicographic_refl (x ∷ xs) = ground (arith, lexicographic_refl xs)

take-bytes_at_self :
    (memory : Memory) (from n : ℕ) → take n (bytes_at memory from n) ≡ bytes_at memory from n
unfolding bytes_at
take-bytes_at_self memory from zero = refl
take-bytes_at_self memory from (suc n) =
    ap (λ (rest : List ℕ). memory from ∷ rest) (take-bytes_at_self memory (from + 1) n)

-- The object's key is the key in memory.
abbrev pub HasKey : Objects → Memory → ℕ → ℕ → ℕ → Type 0
HasKey kv_at memory size key kv = key_of (kv_at kv) ≡ bytes_at memory key size

module _ (kv_at : Objects) (memory : Memory) (size key : ℕ) (kv : ℕ) (is_kv : IsKv (kv_at kv)) where
  abbrev symbol : ℕ → ℕ
  symbol = get_string_symbol size (key_bytes memory key)

  module _ (size_fits : size < 2 ^ 31) where
    abbrev in_memory : Kv
    in_memory = record { key_size = size; value_size = 0; bytes = bytes_at memory key size }

    in_memory-IsKv : IsKv in_memory
    in_memory-IsKv = record {
      size_fits = size_fits;
      bytes_there = omega (arith, length-bytes_at memory key size);
    }

    pub compare-HasKey :
        kv_key_compare_to (kv_at kv) size (bytes_at memory key size) ≡ equal
        → HasKey kv_at memory size key kv
    unfolding kv_key_compare
    compare-HasKey q =
        (kv_key_compare-lexicographic (kv_at kv) in_memory is_kv in_memory-IsKv).1 q
        ∙ take-bytes_at_self memory key size

    pub HasKey-compare :
        HasKey kv_at memory size key kv
        → kv_key_compare_to (kv_at kv) size (bytes_at memory key size) ≡ equal
    unfolding kv_key_compare
    HasKey-compare same =
        (kv_key_compare-lexicographic (kv_at kv) in_memory is_kv in_memory-IsKv).0
        ∙ ap (λ (xs : List ℕ). lexicographic xs (take size (bytes_at memory key size))) same
        ∙ ap (lexicographic (bytes_at memory key size)) (take-bytes_at_self memory key size)
        ∙ lexicographic_refl (bytes_at memory key size)

  pub HasKey-symbols : HasKey kv_at memory size key kv → (i : ℕ) → kv_symbol kv_at kv i ≡ symbol i
  HasKey-symbols same i =
      ap (λ (n : ℕ). get_string_symbol n (λ j. get_or (kv_at kv).bytes j 0) i) sizes
      ∙ symbol-same_bytes size (λ j. get_or (kv_at kv).bytes j 0) (key_bytes memory key) i
          (get_or-bytes_at memory key size (kv_at kv).bytes
            (ap (λ (n : ℕ). take n (kv_at kv).bytes) (sym sizes) ∙ same))
    where
      sizes : (kv_at kv).key_size ≡ size
      sizes = omega (
        arith,
        length-take (kv_at kv).key_size (kv_at kv).bytes is_kv.bytes_there,
        ap (λ (xs : List ℕ). length xs) same,
        length-bytes_at memory key size,
      )

  pub symbols-HasKey :
      ((a : ℕ) → memory a < 256)
      → ((i : ℕ) → get_or (kv_at kv).bytes i 0 < 256)
      → ((i : ℕ) → i < symbol_count size → kv_symbol kv_at kv i ≡ symbol i)
      → HasKey kv_at memory size key kv
  symbols-HasKey are_bytes kv_bytes same =
      ap (λ (n : ℕ). take n (kv_at kv).bytes) sizes
      ∙ take-bytes_at memory key size (kv_at kv).bytes (omega (arith, sizes, is_kv.bytes_there)) (
          same_bytes (kv_at kv).key_size size (λ j. get_or (kv_at kv).bytes j 0)
            (key_bytes memory key) same kv_bytes (λ j. are_bytes (key + j)))
    where
      sizes : (kv_at kv).key_size ≡ size
      sizes =
          same_size (kv_at kv).key_size size (λ j. get_or (kv_at kv).bytes j 0)
            (key_bytes memory key) same
