-- ===== src/Tests.antt =====
-- The theorems of the development at concrete inputs.
mod LockRuns
mod SearchRuns
mod PairRuns
mod RelocateRuns
mod KeyRuns
mod TwoKeys
mod TwoLeaves
mod LookupRuns
mod IterRuns
use Prim.Native.Nat.{min}
use cuckoo_trie_vectorized.Base.{
  ℕ, ◌+◌, ◌*◌, ◌/◌, length, get_or, ◌%◌, ◌≤◌, ◌<◌, ◌≡◌, refl, arith, true, false, bit_or, bit_xor,
  inl, List, [], ◌∷◌, ◌==◌, if◌then◌else◌, ◌<<<◌,
}
use cuckoo_trie_vectorized.Config.{flag_secondary_bucket, max_key_symbols}
use cuckoo_trie_vectorized.Entry.{
  Entry, Body, Locator, entry_dirty, entry_set_dirty, entry_set_clean, entry_color, entry_tag,
  entry_set_color_and_tag, entry_parent_color, entry_set_parent_color, entry_type,
  entry_is_secondary, entry_jump_size, entry_child_color, entry_set_jump_size,
  entry_set_child_color, entry_set_type, entry_kv, entry_set_kv, entry_set_next_leaf,
}
use cuckoo_trie_vectorized.Entry.Bytes.{IsEntry}
use cuckoo_trie_vectorized.Entry.Fields
use cuckoo_trie_vectorized.Entry.Nibbles
use cuckoo_trie_vectorized.Entry.Nibbles.{SameNode}
use cuckoo_trie_vectorized.Trie.{Trie}
use cuckoo_trie_vectorized.Hash.{
  hash_to_bucket, hash_to_tag, accumulate_hash, mix_bucket, unmix_bucket, alternate_bucket,
}
use cuckoo_trie_vectorized.Hash.Geometry.{IsGeometry}
use cuckoo_trie_vectorized.Hash.Bounds
use cuckoo_trie_vectorized.Hash.Injective
use cuckoo_trie_vectorized.Hash.Pair
use cuckoo_trie_vectorized.Alloc.{Host, fresh_table, init_buckets, ct_alloc}
use cuckoo_trie_vectorized.Alloc.Table
use cuckoo_trie_vectorized.Alloc.Table.{Allocated}
use cuckoo_trie_vectorized.BitString.{
  byte_at, get_bit, set_bit, last_bit_before, copy_bits, extract_bits,
}
use cuckoo_trie_vectorized.BitString.Marks
use cuckoo_trie_vectorized.BitString.Ranges
use cuckoo_trie_vectorized.BitString.Ranges.{LastBit}
use cuckoo_trie_vectorized.Symbols.{get_string_symbol, key_to_symbols}
use cuckoo_trie_vectorized.Symbols.Key
use cuckoo_trie_vectorized.Symbols.Key.{key_bytes}
use cuckoo_trie_vectorized.Prefetch.{
  KeyPrefetcher, symbol_count, prefetcher_start, prefetcher_steps,
}
use cuckoo_trie_vectorized.Prefetch.Steps.{prefix_hash}
use cuckoo_trie_vectorized.Prefetch.Hashes
use cuckoo_trie_vectorized.Prefetch.Hashes.{key_symbol}

abbrev small_table : Trie
small_table = fresh_table 64

small_table-IsGeometry : IsGeometry small_table
small_table-IsGeometry = (Table.fresh_table-IsFresh 64 (omega arith) refl (omega arith)).geometry

pairs_of_small_table : small_table.num_pairs ≡ 1024
unfolding fresh_table init_buckets
pairs_of_small_table = refl

buckets_of_small_table : small_table.num_buckets ≡ 64
unfolding fresh_table init_buckets
buckets_of_small_table = refl

abbrev leaf_body : Body
leaf_body = record { byte0 = 1; byte1 = 2; byte2 = 3; byte3 = 4; byte4 = 5; byte5 = 0x36 }

abbrev next : Locator
next = record { primary_bucket = 77; tag = 5; color = 2 }

-- A leaf in its secondary bucket, of colour 3 and tag 7.
abbrev leaf : Entry
leaf = record {
  parent_color_and_flags = 0x95;
  color_and_tag = 0x37;
  last_symbol = 12;
  body = leaf_body;
  link = next;
}

leaf-IsEntry : IsEntry leaf
leaf-IsEntry = omega arith

accumulate_hash_injective_example :
    (◌≡◌ {A = ℕ} 32 32 → ◌≡◌ {A = ℕ} 900 900) × (◌≡◌ {A = ℕ} 900 900 → ◌≡◌ {A = ℕ} 32 32)
accumulate_hash_injective_example =
    Injective.accumulate_hash_injective small_table 900 900 32 32 small_table-IsGeometry
      (omega (arith, pairs_of_small_table)) (omega (arith, pairs_of_small_table)) (omega arith)
      (omega arith) refl

accumulate_hash-lt_example :
    (accumulate_hash small_table 900 32 < small_table.num_pairs)
    × (hash_to_bucket (accumulate_hash small_table 900 32) < small_table.num_buckets)
    × (hash_to_tag (accumulate_hash small_table 900 32) < 16)
accumulate_hash-lt_example =
    Bounds.accumulate_hash-lt small_table small_table-IsGeometry 900 32
      (omega (arith, pairs_of_small_table)) (omega arith)

mix-unmix_inverse_example :
    (mix_bucket small_table 3 9 < small_table.num_buckets)
    × (unmix_bucket small_table (mix_bucket small_table 3 9) 9 ≡ 3)
    × (unmix_bucket small_table 3 9 < small_table.num_buckets)
    × (mix_bucket small_table (unmix_bucket small_table 3 9) 9 ≡ 3)
mix-unmix_inverse_example =
    Pair.mix-unmix_inverse small_table 3 9 small_table-IsGeometry
      (omega (arith, buckets_of_small_table))

alternate_bucket_twice_example :
    let moved = record leaf {
      parent_color_and_flags = bit_xor leaf.parent_color_and_flags flag_secondary_bucket;
    } in
    (alternate_bucket small_table leaf 3 < small_table.num_buckets)
    × (alternate_bucket small_table moved (alternate_bucket small_table leaf 3) ≡ 3)
alternate_bucket_twice_example =
    Pair.alternate_bucket_twice small_table leaf 3 small_table-IsGeometry leaf-IsEntry
      (omega (arith, buckets_of_small_table))

abbrev generous : Host
generous = record { mmap_succeeds = λ _. true; malloc_succeeds = true }

ct_alloc-Allocated_example : Allocated generous 1000 (ct_alloc generous 1000)
ct_alloc-Allocated_example = Table.ct_alloc-Allocated generous 1000 (omega arith) (omega arith)

abbrev marks : List ℕ
marks = 0x90 ∷ 0x01 ∷ 0x00 ∷ 0x00 ∷ 0x80 ∷ 0xff ∷ 0x12 ∷ 0x34 ∷ []

marks-bytes : (k : ℕ) → byte_at marks k < 256
marks-bytes k = ground arith

get_bit-set_bit_example :
    get_bit (set_bit marks 17 1) 15 ≡ (if 17 == 15 then 1 == 1 else get_bit marks 15)
get_bit-set_bit_example =
    Marks.get_bit-set_bit marks 17 15 1 marks-bytes (omega arith) (omega arith)

last_bit_before-LastBit_example : LastBit marks 32 (last_bit_before marks 32)
last_bit_before-LastBit_example = Ranges.last_bit_before-LastBit marks 32 marks-bytes (omega arith)

copy_bits_whole_bytes_example :
    (length (copy_bits marks 5 20) ≡ 20 / 8 + 1)
    × ((k : ℕ) → 8 * k ≤ 20 → byte_at (copy_bits marks 5 20) k ≡ extract_bits marks (5 + 8 * k) 8)
copy_bits_whole_bytes_example = Ranges.copy_bits_whole_bytes marks 5 20

entry_kv-entry_set_kv_example :
    (entry_kv (entry_set_kv leaf 0x7f12_3456_7890) ≡ 0x7f12_3456_7890)
    × (record (entry_set_kv leaf 0x7f12_3456_7890) { body = leaf.body } ≡ leaf)
entry_kv-entry_set_kv_example =
    Fields.entry_kv-entry_set_kv leaf 0x7f12_3456_7890 leaf-IsEntry (inl (omega arith))

entry_set_next_leaf_example : entry_set_next_leaf leaf next ≡ record leaf { link = next }
entry_set_next_leaf_example = Fields.entry_set_next_leaf_lem leaf leaf-IsEntry next (omega arith)

dirty_flag_example :
    (entry_dirty (entry_set_dirty leaf) ≡ true)
    × (entry_dirty (entry_set_clean leaf) ≡ false)
    × SameNode (entry_set_dirty leaf) leaf
    × SameNode (entry_set_clean leaf) leaf
dirty_flag_example = Nibbles.dirty_flag leaf leaf-IsEntry

color_and_tag_example :
    let e' = entry_set_color_and_tag leaf (bit_or (8 <<< 4) 6) in
    (entry_color e' ≡ 8)
    × (entry_tag e' ≡ 6)
    × (record e' { color_and_tag = leaf.color_and_tag } ≡ leaf)
color_and_tag_example = Nibbles.color_and_tag leaf leaf-IsEntry 8 6 (omega arith) (omega arith)

parent_color_example :
    let e' = entry_set_parent_color leaf 4 in
    (entry_parent_color e' ≡ 4)
    × (entry_type e' ≡ entry_type leaf)
    × (entry_is_secondary e' ≡ entry_is_secondary leaf)
    × (entry_dirty e' ≡ entry_dirty leaf)
    × (record e' { parent_color_and_flags = leaf.parent_color_and_flags } ≡ leaf)
parent_color_example = Nibbles.parent_color leaf leaf-IsEntry 4 (omega arith)

jump_size_and_child_color_example :
    (entry_jump_size (entry_set_jump_size leaf 5) ≡ 5)
    × (entry_child_color (entry_set_jump_size leaf 5) ≡ entry_child_color leaf)
    × (entry_child_color (entry_set_child_color leaf 8) ≡ 8)
    × (entry_jump_size (entry_set_child_color leaf 8) ≡ entry_jump_size leaf)
jump_size_and_child_color_example =
    Nibbles.jump_size_and_child_color leaf leaf-IsEntry 5 8 (omega arith) (omega arith)

set_type_example :
    let e' = entry_set_type leaf 2 in
    (entry_type e' ≡ 2)
    × (entry_is_secondary e' ≡ entry_is_secondary leaf)
    × (entry_dirty e' ≡ entry_dirty leaf)
    × (entry_parent_color e' ≡ entry_parent_color leaf)
set_type_example = Nibbles.set_type leaf leaf-IsEntry 2 (omega arith)

-- Each byte of this memory is its own address, and a key of seven bytes lies at 5.
abbrev counting_memory : ℕ → ℕ
counting_memory a = a % 256

key_to_symbols_example :
    get_or (key_to_symbols counting_memory 5 7) 9 0
    ≡ get_string_symbol 7 (key_bytes counting_memory 5) 9
key_to_symbols_example =
    Key.key_to_symbols_lem counting_memory (λ a. omega arith) 5 7 9 (omega arith)

abbrev counting-are_bytes : (a : ℕ) → counting_memory a < 256
counting-are_bytes a = omega arith

abbrev stack_garbage : KeyPrefetcher
stack_garbage = record {
  key_symbols = λ i. i;
  prefix_hashes = λ i. i;
  prefetch_prefix_hash = 17;
  prefetch_pos = 3;
  num_key_symbols = 1;
}

symbols_of_seven_bytes : symbol_count 7 ≡ 13
unfolding symbol_count
symbols_of_seven_bytes = refl

prefetcher-hashes_example :
    let ready =
      prefetcher_steps 3
        (prefetcher_start stack_garbage small_table counting_memory 7 5)
        small_table in
    let symbol = key_symbol small_table counting_memory counting-are_bytes 7 5 in
    (length (key_to_symbols counting_memory 5 7) ≤ max_key_symbols)
    × (ready.num_key_symbols ≤ max_key_symbols)
    × (ready.prefetch_pos ≡ min (4 + 3) (symbol_count 7))
    × (ready.key_symbols 6 ≡ symbol 6)
    × (ready.prefix_hashes 6 ≡ prefix_hash small_table symbol 7)
prefetcher-hashes_example =
    Hashes.prefetcher-hashes small_table counting_memory counting-are_bytes 7 5 stack_garbage 3 6
      (omega arith) (omega arith) (omega (arith, symbols_of_seven_bytes))
