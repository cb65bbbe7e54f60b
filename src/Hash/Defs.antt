-- ===== src/Hash/Defs.antt =====
-- The hash functions of main_vectorized.c.
use cuckoo_trie_vectorized.Base.{
  ℕ, ◌+◌, ◌-◌, ◌*◌, ◌^◌, bit_and, bit_xor, Bool, if◌then◌else◌, leb, get_or, u64, sub64, ◌>>>◌,
}
use cuckoo_trie_vectorized.Config.{tag_bits, bits_per_symbol, fanout}
use cuckoo_trie_vectorized.Entry.{Entry, entry_is_secondary, entry_tag}
use cuckoo_trie_vectorized.Trie.{Trie}

unfoldable pub hash_to_bucket : ℕ → ℕ
hash_to_bucket x = x >>> tag_bits

unfoldable pub hash_to_tag : ℕ → ℕ
hash_to_tag x = bit_and x (2 ^ tag_bits - 1)

unfoldable pub accumulate_hash : Trie → ℕ → ℕ → ℕ
accumulate_hash trie x symbol =
    let x' = bit_xor x symbol in
    let block = x' >>> bits_per_symbol in
    let depth = bit_and x' (fanout - 1) in u64 (depth * trie.num_shuffle_blocks + block)

abbrev pub mix_value : Trie → ℕ → ℕ
mix_value trie tag = get_or trie.bucket_mix_table tag 0

-- An `int64_t` is its bit pattern: it is negative from `2 ^ 63` on.
abbrev pub is_negative : ℕ → Bool
is_negative w = leb (2 ^ 63) w

-- The secondary bucket of the pair.
unfoldable pub mix_bucket : Trie → ℕ → ℕ → ℕ
mix_bucket trie bucket_num tag =
    let result = sub64 bucket_num (mix_value trie tag) in
    u64 (result + bit_and trie.num_buckets (if is_negative result then 2 ^ 64 - 1 else 0))

-- The primary bucket of the pair. The comparison with `num_buckets` is unsigned.
unfoldable pub unmix_bucket : Trie → ℕ → ℕ → ℕ
unmix_bucket trie bucket_num tag =
    let result = u64 (bucket_num + mix_value trie tag) in
    if leb trie.num_buckets result then sub64 result trie.num_buckets else result

unfoldable pub alternate_bucket : Trie → Entry → ℕ → ℕ
alternate_bucket trie entry bucket_num =
    if entry_is_secondary entry
    then unmix_bucket trie bucket_num (entry_tag entry)
    else mix_bucket trie bucket_num (entry_tag entry)
