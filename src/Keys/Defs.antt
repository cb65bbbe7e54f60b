-- ===== src/Keys/Defs.antt =====
-- `ct_kv` and the functions of key_object.h on it. The array `bytes` has the key's bytes, then the
-- value's. An `int` result counts by its sign only, as that of `memcmp`.
use cuckoo_trie_vectorized.Base.{
  ℕ, zero, suc, ◌+◌, ◌%◌, ◌^◌, List, [], ◌∷◌, ◌==◌, ltb, if◌then◌else◌, drop, u64, sub64,
}

pub record Kv : Type 0 where
  pub key_size : ℕ
  pub value_size : ℕ
  pub bytes : List ℕ

pub data Sign : Type 0 where
  less : Sign
  equal : Sign
  greater : Sign

-- Two `int`s stand before the bytes.
unfoldable pub kv_size : Kv → ℕ
kv_size kv = u64 (8 + kv.key_size + kv.value_size)

unfoldable pub kv_value_bytes : Kv → List ℕ
kv_value_bytes kv = drop kv.key_size kv.bytes

-- `memcmp` on `n` bytes, which both arrays have.
unfoldable pub memcmp : ℕ → List ℕ → List ℕ → Sign
memcmp zero xs ys = equal
memcmp (suc n) [] ys = equal
memcmp (suc n) (x ∷ xs) [] = equal
memcmp (suc n) (x ∷ xs) (y ∷ ys) =
    if ltb x y then less else if ltb y x then greater else memcmp n xs ys

-- A `uint64_t` that is returned as an `int`.
unfoldable pub sign_of_int : ℕ → Sign
sign_of_int w =
    if w % 2 ^ 32 == 0 then equal else if ltb (w % 2 ^ 32) (2 ^ 31) then greater else less

unfoldable pub kv_key_compare_to : Kv → ℕ → List ℕ → Sign
kv_key_compare_to kv size bytes =
    let min_size = if ltb kv.key_size size then kv.key_size else size in
    elim (memcmp min_size kv.bytes bytes) [
      | equal ↦ sign_of_int (sub64 kv.key_size size)
      | less ↦ less
      | greater ↦ greater
    ]

unfoldable pub kv_key_compare : Kv → Kv → Sign
kv_key_compare k1 k2 = kv_key_compare_to k1 k2.key_size k2.bytes
