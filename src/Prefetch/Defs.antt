-- ===== src/Prefetch/Defs.antt =====
-- `key_prefetcher` of main_vectorized.c. Its arrays are functions from an index: they are on the
-- stack and start with unknown contents. They have MAX_KEY_SYMBOLS = 410 elements, and nothing
-- checks an index into them: a longer key overruns the stack, which is not modelled, so these
-- functions are the arrays only for keys of at most 255 bytes.
use cuckoo_trie_vectorized.Base.{ℕ, zero, suc, ◌+◌, ◌-◌, ◌*◌, ◌/◌, ◌==◌, ltb, if◌then◌else◌, get_or}
use cuckoo_trie_vectorized.Config.{bits_per_symbol, symbol_end, hash_start_value}
use cuckoo_trie_vectorized.Trie.{Trie}
use cuckoo_trie_vectorized.Hash.{accumulate_hash}
use cuckoo_trie_vectorized.Symbols.{Memory, key_to_symbols}

pub record KeyPrefetcher : Type 0 where
  pub key_symbols : ℕ → ℕ
  pub prefix_hashes : ℕ → ℕ
  pub prefetch_prefix_hash : ℕ
  pub prefetch_pos : ℕ
  pub num_key_symbols : ℕ

abbrev pub store : (ℕ → ℕ) → ℕ → ℕ → ℕ → ℕ
store array i value j = if j == i then value else array j

-- The symbols of a key with its END symbol.
unfoldable pub symbol_count : ℕ → ℕ
symbol_count key_size = (key_size * 8 + bits_per_symbol - 1) / bits_per_symbol + 1

-- One symbol on. The hint to fetch the pair of buckets changes no state.
unfoldable pub prefetch_symbol : KeyPrefetcher → Trie → KeyPrefetcher
prefetch_symbol p trie =
    let hash = accumulate_hash trie p.prefetch_prefix_hash (p.key_symbols p.prefetch_pos) in
    record p {
      prefetch_prefix_hash = hash;
      prefix_hashes = store p.prefix_hashes p.prefetch_pos hash;
      prefetch_pos = p.prefetch_pos + 1;
    }

unfoldable pub prefetcher_step : KeyPrefetcher → Trie → KeyPrefetcher
prefetcher_step p trie = if ltb p.prefetch_pos p.num_key_symbols then prefetch_symbol p trie else p

-- The loop of `prefetcher_start`, by the rounds left; its counter is the position at its end.
unfoldable pub prefetch_first : ℕ → KeyPrefetcher → Trie → KeyPrefetcher
prefetch_first zero p trie = p
prefetch_first (suc rounds) p trie =
    let rest = prefetch_first rounds (prefetch_symbol p trie) trie in
    if ltb p.prefetch_pos p.num_key_symbols then rest else p

unfoldable pub prefetcher_start : KeyPrefetcher → Trie → Memory → ℕ → ℕ → KeyPrefetcher
prefetcher_start p trie memory key_size key_bytes =
    let symbols = key_to_symbols memory key_bytes key_size in
    let count = symbol_count key_size in
    let filled : KeyPrefetcher = record {
      key_symbols = store (λ i. get_or symbols i 0) (count - 1) symbol_end;
      prefix_hashes = p.prefix_hashes;
      prefetch_prefix_hash = hash_start_value;
      prefetch_pos = 0;
      num_key_symbols = count;
    } in
    prefetch_first 4 filled trie

-- `n` calls of `prefetcher_step`, as the loop of `descend` makes them.
unfoldable pub prefetcher_steps : ℕ → KeyPrefetcher → Trie → KeyPrefetcher
prefetcher_steps zero p trie = p
prefetcher_steps (suc n) p trie = prefetcher_steps n (prefetcher_step p trie) trie
