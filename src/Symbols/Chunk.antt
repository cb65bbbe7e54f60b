-- ===== src/Symbols/Chunk.antt =====
-- One round of `key_to_symbols`: `read_qword_zfill` on each of its branches, and the deposit of five
-- bytes as eight symbols.
use cuckoo_trie_vectorized.Base.{
  ℕ, zero, suc, ◌+◌, ◌-◌, ◌*◌, ◌/◌, ◌%◌, ◌^◌, ◌<◌, ◌≡◌, ap, arith, ltb, if◌then◌else◌, ◌<<<◌,
}
use cuckoo_trie_vectorized.Symbols.Defs.{Memory, load_qword, pdep}

-- The next byte of a key, which is 0 from its end on.
abbrev pub byte_or_zero : Memory → ℕ → ℕ → ℕ → ℕ
byte_or_zero memory from size i = if ltb i size then memory (from + i) else 0

module _ (memory : Memory) (are_bytes : (a : ℕ) → memory a < 256) where
  abbrev pub zfilled : ℕ → ℕ → ℕ
  zfilled from size =
      let byte = byte_or_zero memory from size in
      byte 0
      + byte 1 <<< 8
      + byte 2 <<< 16
      + byte 3 <<< 24
      + byte 4 <<< 32
      + byte 5 <<< 40
      + byte 6 <<< 48
      + byte 7 <<< 56

  pub load_qword-mod :
      (from size : ℕ)
      → 0 < size
      → size < 8
      → load_qword memory from % 2 ^ (8 * size) ≡ zfilled from size
  unfolding load_qword
  load_qword-mod from zero lo hi = absurd (omega arith)
  load_qword-mod from (suc zero) lo hi = ground (arith, are_bytes from)
  load_qword-mod from (suc (suc zero)) lo hi = ground (arith, are_bytes from, are_bytes (from + 1))
  load_qword-mod from (suc (suc (suc zero))) lo hi =
      ground (arith, are_bytes from, are_bytes (from + 1), are_bytes (from + 2))
  load_qword-mod from (suc (suc (suc (suc zero)))) lo hi =
      ground
        (arith, are_bytes from, are_bytes (from + 1), are_bytes (from + 2), are_bytes (from + 3))
  load_qword-mod from (suc (suc (suc (suc (suc zero))))) lo hi = ground (
    arith,
    are_bytes from,
    are_bytes (from + 1),
    are_bytes (from + 2),
    are_bytes (from + 3),
    are_bytes (from + 4),
  )
  load_qword-mod from (suc (suc (suc (suc (suc (suc zero)))))) lo hi = ground (
    arith,
    are_bytes from,
    are_bytes (from + 1),
    are_bytes (from + 2),
    are_bytes (from + 3),
    are_bytes (from + 4),
    are_bytes (from + 5),
  )
  load_qword-mod from (suc (suc (suc (suc (suc (suc (suc zero))))))) lo hi = ground (
    arith,
    are_bytes from,
    are_bytes (from + 1),
    are_bytes (from + 2),
    are_bytes (from + 3),
    are_bytes (from + 4),
    are_bytes (from + 5),
    are_bytes (from + 6),
  )
  load_qword-mod from (suc (suc (suc (suc (suc (suc (suc (suc size)))))))) lo hi =
      absurd (omega arith)

  pub load_qword-shifted :
      (f size : ℕ)
      → 0 < size
      → size < 8
      → load_qword memory (f + size) / 2 ^ (64 - 8 * size) ≡ zfilled (f + 8) size
  unfolding load_qword
  load_qword-shifted f zero lo hi = absurd (omega arith)
  load_qword-shifted f (suc zero) lo hi = ground (
    arith,
    are_bytes (f + 1),
    are_bytes (f + 2),
    are_bytes (f + 3),
    are_bytes (f + 4),
    are_bytes (f + 5),
    are_bytes (f + 6),
    are_bytes (f + 7),
  )
  load_qword-shifted f (suc (suc zero)) lo hi = ground (
    arith,
    are_bytes (f + 2),
    are_bytes (f + 3),
    are_bytes (f + 4),
    are_bytes (f + 5),
    are_bytes (f + 6),
    are_bytes (f + 7),
  )
  load_qword-shifted f (suc (suc (suc zero))) lo hi = ground (
    arith,
    are_bytes (f + 3),
    are_bytes (f + 4),
    are_bytes (f + 5),
    are_bytes (f + 6),
    are_bytes (f + 7),
  )
  load_qword-shifted f (suc (suc (suc (suc zero)))) lo hi =
      ground (arith, are_bytes (f + 4), are_bytes (f + 5), are_bytes (f + 6), are_bytes (f + 7))
  load_qword-shifted f (suc (suc (suc (suc (suc zero))))) lo hi =
      ground (arith, are_bytes (f + 5), are_bytes (f + 6), are_bytes (f + 7))
  load_qword-shifted f (suc (suc (suc (suc (suc (suc zero)))))) lo hi =
      ground (arith, are_bytes (f + 6), are_bytes (f + 7))
  load_qword-shifted f (suc (suc (suc (suc (suc (suc (suc zero))))))) lo hi =
      ground (arith, are_bytes (f + 7))
  load_qword-shifted f (suc (suc (suc (suc (suc (suc (suc (suc size)))))))) lo hi =
      absurd (omega arith)

pdep_placed :
    (width x mask : ℕ)
    → mask % 2 ≡ 1
    → pdep (suc width) x mask ≡ x % 2 + 2 * pdep width (x / 2) (mask / 2)
unfolding pdep
pdep_placed width x mask odd = ground arith

pdep_skipped :
    (width x mask : ℕ) → mask % 2 ≡ 0 → pdep (suc width) x mask ≡ 2 * pdep width x (mask / 2)
unfolding pdep
pdep_skipped width x mask even = ground arith

pub pdep_symbol :
    (width x mask : ℕ)
    → pdep (suc (suc (suc (suc (suc (suc (suc (suc width)))))))) x (mask * 256 + 31)
      ≡ x % 32 + 256 * pdep width (x / 32) mask
pdep_symbol width x mask = omega (
  arith,
  pdep_placed (suc (suc (suc (suc (suc (suc (suc width))))))) x (mask * 256 + 31) (omega arith),
  pdep_placed (suc (suc (suc (suc (suc (suc width)))))) (x / 2) ((mask * 256 + 31) / 2)
      (omega arith),
  pdep_placed (suc (suc (suc (suc (suc width))))) ((x / 2) / 2) (((mask * 256 + 31) / 2) / 2)
      (omega arith),
  pdep_placed (suc (suc (suc (suc width)))) (((x / 2) / 2) / 2) ((((mask * 256 + 31) / 2) / 2) / 2)
      (omega arith),
  pdep_placed (suc (suc (suc width))) ((((x / 2) / 2) / 2) / 2)
      (((((mask * 256 + 31) / 2) / 2) / 2) / 2) (omega arith),
  pdep_skipped (suc (suc width)) (((((x / 2) / 2) / 2) / 2) / 2)
      ((((((mask * 256 + 31) / 2) / 2) / 2) / 2) / 2) (omega arith),
  pdep_skipped (suc width) (((((x / 2) / 2) / 2) / 2) / 2)
      (((((((mask * 256 + 31) / 2) / 2) / 2) / 2) / 2) / 2) (omega arith),
  pdep_skipped width (((((x / 2) / 2) / 2) / 2) / 2)
      ((((((((mask * 256 + 31) / 2) / 2) / 2) / 2) / 2) / 2) / 2) (omega arith),
  ap (λ (m : ℕ). pdep width (((((x / 2) / 2) / 2) / 2) / 2) m) mask_rest,
  ap (λ (y : ℕ). pdep width y mask) rest,
)
  where
    mask_rest : ((((((((mask * 256 + 31) / 2) / 2) / 2) / 2) / 2) / 2) / 2) / 2 ≡ mask
    mask_rest = omega arith

    rest : ((((x / 2) / 2) / 2) / 2) / 2 ≡ x / 32
    rest = omega arith
