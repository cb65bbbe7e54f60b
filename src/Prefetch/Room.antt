-- ===== src/Prefetch/Room.antt =====
-- The room that the symbols of a key take in the arrays of `key_prefetcher`, which have
-- MAX_KEY_SYMBOLS elements.
use cuckoo_trie_vectorized.Base.{
  ℕ, zero, suc, ◌+◌, ◌*◌, ◌/◌, ◌≤◌, ◌<◌, ◌≡◌, refl, arith, inl, inr, Bool-cases, ltb, length,
  length-append, ltb→lt, ◌-◌,
}
use cuckoo_trie_vectorized.Config.{max_key_symbols}
use cuckoo_trie_vectorized.Symbols.{
  Memory, key_to_symbols, key_to_symbols_from, symbols_of_chunk, qword_bytes,
}
use cuckoo_trie_vectorized.Prefetch.Defs.{symbol_count}

-- With a place to spare: the root stands on the path in front of the symbols.
pub symbol_count-fits : (size : ℕ) → size ≤ 255 → symbol_count size < max_key_symbols
unfolding symbol_count
symbol_count-fits size short = omega (arith, short)

length-chunk : (memory : Memory) (key left : ℕ) → length (symbols_of_chunk memory key left) ≡ 8
unfolding symbols_of_chunk qword_bytes
length-chunk memory key left = refl

length-from :
    (fuel : ℕ) (memory : Memory) (key left : ℕ)
    → length (key_to_symbols_from fuel memory key left) ≤ 8 * ((left + 4) / 5)
unfolding key_to_symbols_from
length-from zero memory key left = omega arith
length-from (suc fuel) memory key left = elim (Bool-cases (ltb 0 left)) [
  | inl more ↦
      let below : 0 < left = ltb→lt 0 left more in
      let chunk = length-chunk memory key left in
      let rest = length-from fuel memory (key + 5) (left - 5) in
      rw
        (
          more,
          length-append (symbols_of_chunk memory key left)
              (key_to_symbols_from fuel memory (key + 5) (left - 5)),
        )
        (omega (arith, below, chunk, rest))
  | inr done ↦ rw (done) (omega arith)
]

-- The whole chunks that key_to_symbols writes.
pub key_to_symbols-fits :
    (memory : Memory) (key size : ℕ)
    → size ≤ 255
    → length (key_to_symbols memory key size) ≤ max_key_symbols
unfolding key_to_symbols
key_to_symbols-fits memory key size short = omega (arith, short, length-from size memory key size)
