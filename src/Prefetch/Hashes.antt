-- ===== src/Prefetch/Hashes.antt =====
-- What the prefetcher has stored at each position.
use Prim.Native.Nat.{min}
use cuckoo_trie_vectorized.Base.{
  ℕ, suc, ◌+◌, ◌-◌, ◌<◌, ◌≤◌, length, ◌≡◌, refl, arith, dec_lt, ◌==◌, ==-ne, true, get_or,
}
use cuckoo_trie_vectorized.Config.{max_key_symbols}
use cuckoo_trie_vectorized.Trie.{Trie}
use cuckoo_trie_vectorized.Symbols.{Memory, get_string_symbol, key_to_symbols}
use cuckoo_trie_vectorized.Symbols.Key.{key_bytes, key_to_symbols_lem}
use cuckoo_trie_vectorized.Prefetch.Room.{symbol_count-fits, key_to_symbols-fits}
use cuckoo_trie_vectorized.Prefetch.Steps.{
  prefix_hash, IsPrefetcher, prefetch_first-IsPrefetcher, prefetcher_steps-IsPrefetcher, steps_pos,
  first_pos,
}
use cuckoo_trie_vectorized.Prefetch.Defs.{
  KeyPrefetcher, store, symbol_count, prefetcher_start, prefetcher_steps,
}

==→true : (a b : ℕ) → a ≡ b → (a == b) ≡ true
==→true a b e = ground arith

module _ (trie : Trie) (memory : Memory) (are_bytes : (a : ℕ) → memory a < 256) (size key : ℕ) where
  abbrev pub key_symbol : ℕ → ℕ
  key_symbol = get_string_symbol size (key_bytes memory key)

  pub last_symbol : (i : ℕ) → i ≡ symbol_count size - 1 → 0 ≡ key_symbol i
  unfolding symbol_count get_string_symbol
  last_symbol i e = ground arith

  filled_symbol :
      (i : ℕ)
      → i < symbol_count size
      → store (λ i. get_or (key_to_symbols memory key size) i 0) (symbol_count size - 1) 0 i
        ≡ key_symbol i
  unfolding symbol_count
  filled_symbol i below = elim (dec_lt i (symbol_count size - 1)) [
    | yes before ↦
        rw (==-ne i (symbol_count size - 1) (λ e. omega (arith, e, before)))
          (key_to_symbols_lem memory are_bytes key size i (omega arith))
    | no here ↦ last i (omega arith)
  ]
    where
      last :
          (i : ℕ)
          → i ≡ symbol_count size - 1
          → store (λ i. get_or (key_to_symbols memory key size) i 0) (symbol_count size - 1) 0 i
            ≡ key_symbol i
      last i e = rw (==→true i (symbol_count size - 1) e) (last_symbol i e)

  abbrev filled : KeyPrefetcher → KeyPrefetcher
  filled p = record {
    key_symbols =
        store (λ i. get_or (key_to_symbols memory key size) i 0) (symbol_count size - 1) 0;
    prefix_hashes = p.prefix_hashes;
    prefetch_prefix_hash = 0;
    prefetch_pos = 0;
    num_key_symbols = symbol_count size;
  }

  filled-IsPrefetcher :
      (p : KeyPrefetcher) → IsPrefetcher trie key_symbol (symbol_count size) (filled p)
  unfolding prefix_hash
  filled-IsPrefetcher p = record {
    counted = refl;
    symbols = filled_symbol;
    within = omega arith;
    ahead = refl;
    hashes = λ i none_yet. absurd (omega (arith, none_yet));
  }

  pub prefetcher_start-IsPrefetcher :
      (p : KeyPrefetcher)
      → IsPrefetcher trie key_symbol (symbol_count size) (prefetcher_start p trie memory size key)
  unfolding prefetcher_start
  prefetcher_start-IsPrefetcher p =
      prefetch_first-IsPrefetcher trie key_symbol (symbol_count size) 4 (filled p)
        (filled-IsPrefetcher p)

  pub start_pos :
      (p : KeyPrefetcher)
      → (prefetcher_start p trie memory size key).prefetch_pos ≡ min 4 (symbol_count size)
  unfolding prefetcher_start
  start_pos p = first_pos trie key_symbol (symbol_count size) 4 (filled p) (filled-IsPrefetcher p)

  -- For a key of at most 255 bytes in a memory of bytes, the symbols that key_to_symbols writes, and
  -- those of the key with its END symbol, fit in the MAX_KEY_SYMBOLS elements of the arrays. After
  -- `prefetcher_start` and any number `n` of steps, the prefetcher stands at symbol `4 + n`, or behind
  -- the END symbol if that comes first, and for each symbol of the key before that it holds the symbol
  -- and the hash of the prefix that ends with it.
  pub prefetcher-hashes :
      (p : KeyPrefetcher) (n i : ℕ)
      → size ≤ 255
      → i < 4 + n
      → i < symbol_count size
      → let ready = prefetcher_steps n (prefetcher_start p trie memory size key) trie in
        (length (key_to_symbols memory key size) ≤ max_key_symbols)
        × (ready.num_key_symbols ≤ max_key_symbols)
        × (ready.prefetch_pos ≡ min (4 + n) (symbol_count size))
        × (ready.key_symbols i ≡ key_symbol i)
        × (ready.prefix_hashes i ≡ prefix_hash trie key_symbol (suc i))
  prefetcher-hashes p n i short soon in_key = (
    key_to_symbols-fits memory key size short,
    omega (arith, final.counted, symbol_count-fits size short),
    position,
    final.symbols i in_key,
    final.hashes i (omega (arith, position)),
  )
    where
      started :
          IsPrefetcher trie key_symbol (symbol_count size) (prefetcher_start p trie memory size key)
      started = prefetcher_start-IsPrefetcher p

      final :
          IsPrefetcher trie key_symbol
            (symbol_count size)
            (prefetcher_steps n (prefetcher_start p trie memory size key) trie)
      final = prefetcher_steps-IsPrefetcher trie key_symbol (symbol_count size) n _ started

      position :
          (prefetcher_steps n (prefetcher_start p trie memory size key) trie).prefetch_pos
          ≡ min (4 + n) (symbol_count size)
      position =
          omega (arith, start_pos p, steps_pos trie key_symbol (symbol_count size) n _ started)
