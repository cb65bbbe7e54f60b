-- ===== src/Tests/TwoKeys.antt =====
-- A trie of two keys: the empty key and a key of one byte.
use cuckoo_trie_vectorized.Base.{
  ℕ, zero, suc, bit_and, ◌<◌, ◌≡◌, refl, subst, ◌∙◌, arith, Bool, true, false, not, ◌||◌, List, [],
  ◌∷◌, replicate, ◌++◌, ◌-◌, ◌^◌, get_or, ltb, ◌==◌, if◌then◌else◌,
}
use cuckoo_trie_vectorized.Base.Table.{every, every_sound}
use cuckoo_trie_vectorized.BitString.{get_bit}
use cuckoo_trie_vectorized.Entry.{
  Entry, Locator, entry_type, entry_kv, entry_color, entry_parent_color, entry_tag,
  entry_is_secondary, get_bits_uint128, entry_bits,
}
use cuckoo_trie_vectorized.Trie.{Trie, Bucket, Cell, unused_entry, zero_bucket, bucket_at, entry_at}
use cuckoo_trie_vectorized.Hash.{accumulate_hash, hash_to_bucket, hash_to_tag, mix_bucket}
use cuckoo_trie_vectorized.Hash.Geometry.{IsGeometry}
use cuckoo_trie_vectorized.Symbols.{Memory, get_string_symbol}
use cuckoo_trie_vectorized.Prefetch.{KeyPrefetcher}
use cuckoo_trie_vectorized.Pairs.{EntryCopy}
use cuckoo_trie_vectorized.Keys.Order.{IsKv}
use cuckoo_trie_vectorized.Search.Headers.{IsCell}
use cuckoo_trie_vectorized.Pairs.Returns.{IsBucket}
use cuckoo_trie_vectorized.Fingers.{child_bitmap}
use cuckoo_trie_vectorized.Lookup.{Objects}
use cuckoo_trie_vectorized.Lookup.Tree.{
  IsTrie, IsSubtree, IsOnly, IsBit, leaf, bitmap, path_hash, bitmap_test, place,
}

abbrev pub blank : Entry
blank = record unused_entry { parent_color_and_flags = 0x90; color_and_tag = 0x90 }

-- Its children are those of the symbols 0 and 1.
abbrev pub root_node : Entry
root_node = record unused_entry {
  parent_color_and_flags = 0x92;
  color_and_tag = 0;
  body = record { byte0 = 0xC0; byte1 = 0; byte2 = 0; byte3 = 0; byte4 = 0; byte5 = 1 };
}

abbrev leaf_at : ℕ → ℕ → ℕ → Locator → Entry
leaf_at symbol color kv next = record unused_entry {
  parent_color_and_flags = 0x01;
  color_and_tag = color;
  last_symbol = symbol;
  body = record { byte0 = kv; byte1 = 0; byte2 = 0; byte3 = 0; byte4 = 0; byte5 = 0 };
  link = next;
}

abbrev to_first : Locator
to_first = record { primary_bucket = 0; tag = 0; color = 1 }

abbrev to_second : Locator
to_second = record { primary_bucket = 2; tag = 0; color = 0 }

abbrev to_nothing : Locator
to_nothing = record { primary_bucket = 2 ^ 32 - 1; tag = 0; color = 0 }

abbrev first_leaf : Entry
first_leaf = leaf_at 0 0x10 100 to_second

abbrev second_leaf : Entry
second_leaf = leaf_at 1 0 200 to_nothing

abbrev head_of : Locator → Entry
head_of next = record unused_entry { parent_color_and_flags = 0x01; color_and_tag = 0; link = next }

abbrev bucket_of : Entry → Entry → Bucket
bucket_of a b = record { cells = a ∷ b ∷ blank ∷ blank ∷ []; write_lock_and_seq = 0 }

abbrev pub two_keys : Trie
two_keys = record {
  buckets =
      bucket_of root_node first_leaf
        ∷ bucket_of blank blank
        ∷ bucket_of second_leaf blank
        ∷ replicate 61 (bucket_of blank blank)
      ++ bucket_of (head_of to_first) blank ∷ [];
  num_buckets = 64;
  num_pairs = 1024;
  num_shuffle_blocks = 32;
  bucket_mix_table = replicate 16 1;
  is_empty = false;
}

abbrev pub key_at : Objects
key_at p =
    if p == 100
    then record { key_size = 0; value_size = 0; bytes = [] }
    else record { key_size = 1; value_size = 0; bytes = 0 ∷ [] }

replicated-lt : (n a i bound : ℕ) → 0 < bound → a < bound → get_or (replicate n a) i 0 < bound
replicated-lt zero a i bound positive h = positive
replicated-lt (suc n) a zero bound positive h = h
replicated-lt (suc n) a (suc i) bound positive h = replicated-lt n a i bound positive h

two_keys-IsGeometry : IsGeometry two_keys
two_keys-IsGeometry = record {
  some_buckets = omega arith;
  whole_blocks = refl;
  addressable = omega arith;
  pairs = refl;
  blocks = refl;
  mix_bound = λ tag. replicated-lt 16 1 tag 64 (omega arith) (omega arith);
}

two_cells-IsBucket : (a b : Entry) → IsCell a → IsCell b → IsBucket (bucket_of a b).cells
two_cells-IsBucket a b ha hb = record {
  e0 = a;
  e1 = b;
  e2 = blank;
  e3 = blank;
  cells_eq = refl;
  cell0 = ha;
  cell1 = hb;
  cell2 = (omega arith, λ e. omega arith);
  cell3 = (omega arith, λ e. omega arith);
}

pub blank-IsCell : IsCell blank
blank-IsCell = (omega arith, λ e. omega arith)

root-IsCell : IsCell root_node
unfolding entry_type
root-IsCell = (omega arith, λ e. absurd (omega (arith, e)))

first_leaf-IsCell : IsCell first_leaf
unfolding entry_type
first_leaf-IsCell = (omega arith, λ e. absurd (omega (arith, e)))

second_leaf-IsCell : IsCell second_leaf
unfolding entry_type
second_leaf-IsCell = (omega arith, λ e. absurd (omega (arith, e)))

replicated :
    (n i : ℕ) (rest : List Bucket)
    → i < n
    → get_or (replicate n (bucket_of blank blank) ++ rest) i zero_bucket ≡ bucket_of blank blank
replicated zero i rest h = absurd (omega (arith, h))
replicated (suc n) zero rest h = refl
replicated (suc n) (suc i) rest h = replicated n i rest (omega (arith, h))

two_keys-buckets :
    (b : ℕ)
    → b < 64
    → IsBucket (bucket_at two_keys b).cells
      × (bit_and (bucket_at two_keys b).write_lock_and_seq 256 ≡ 0)
unfolding bucket_at
two_keys-buckets zero h =
    (two_cells-IsBucket root_node first_leaf root-IsCell first_leaf-IsCell, refl)
two_keys-buckets (suc zero) h = (two_cells-IsBucket blank blank blank-IsCell blank-IsCell, refl)
two_keys-buckets (suc (suc zero)) h =
    (two_cells-IsBucket second_leaf blank second_leaf-IsCell blank-IsCell, refl)
two_keys-buckets (suc (suc (suc b))) h =
    rw (replicated 61 b (bucket_of (head_of to_first) blank ∷ []) (omega (arith, h)))
      (two_cells-IsBucket blank blank blank-IsCell blank-IsCell, refl)

abbrev child_of : ℕ → Cell
child_of zero = record { bucket = 0; index = 1 }
child_of (suc s) = record { bucket = 2; index = 0 }

only_bits : every 33 (λ s. not (get_bit (child_bitmap root_node) s) || ltb s 2) ≡ true
unfolding every get_bit
only_bits = refl

passing0 :
    (s : Bool) (i : ℕ)
    → i < 4
    → bitmap_test two_keys root_node [] 0 s
        (entry_at two_keys (place two_keys (path_hash two_keys (0 ∷ [])) s i))
      ≡ true
    → place two_keys (path_hash two_keys (0 ∷ [])) s i ≡ child_of 0
unfolding entry_at bucket_at path_hash accumulate_hash hash_to_bucket hash_to_tag mix_bucket
    entry_color entry_parent_color entry_tag entry_is_secondary
passing0 false zero fits e = absurd (ground (arith, e))
passing0 false (suc zero) fits e = refl
passing0 false (suc (suc zero)) fits e = absurd (ground (arith, e))
passing0 false (suc (suc (suc zero))) fits e = absurd (ground (arith, e))
passing0 false (suc (suc (suc (suc i)))) fits e = absurd (omega (arith, fits))
passing0 true zero fits e = absurd (ground (arith, e))
passing0 true (suc zero) fits e = absurd (ground (arith, e))
passing0 true (suc (suc zero)) fits e = absurd (ground (arith, e))
passing0 true (suc (suc (suc zero))) fits e = absurd (ground (arith, e))
passing0 true (suc (suc (suc (suc i)))) fits e = absurd (omega (arith, fits))

child-IsOnly0 :
    IsOnly two_keys (bitmap_test two_keys root_node [] 0) (path_hash two_keys (0 ∷ [])) (child_of 0)
unfolding entry_at bucket_at path_hash accumulate_hash hash_to_bucket hash_to_tag mix_bucket
    entry_color entry_parent_color entry_tag entry_is_secondary
child-IsOnly0 = record {
  placed = record { is_secondary = false; index_fits = omega arith; pos_eq = refl; passes = refl };
  alone = λ other p.
      p.pos_eq
      ∙ passing0 p.is_secondary other.index p.index_fits (
          subst
            (λ (c : Cell).
              bitmap_test two_keys root_node [] 0 p.is_secondary (entry_at two_keys c) ≡ true)
            p.pos_eq p.passes);
}

passing1 :
    (s : Bool) (i : ℕ)
    → i < 4
    → bitmap_test two_keys root_node [] 1 s
        (entry_at two_keys (place two_keys (path_hash two_keys (1 ∷ [])) s i))
      ≡ true
    → place two_keys (path_hash two_keys (1 ∷ [])) s i ≡ child_of 1
unfolding entry_at bucket_at path_hash accumulate_hash hash_to_bucket hash_to_tag mix_bucket
    entry_color entry_parent_color entry_tag entry_is_secondary
passing1 false zero fits e = refl
passing1 false (suc zero) fits e = absurd (ground (arith, e))
passing1 false (suc (suc zero)) fits e = absurd (ground (arith, e))
passing1 false (suc (suc (suc zero))) fits e = absurd (ground (arith, e))
passing1 false (suc (suc (suc (suc i)))) fits e = absurd (omega (arith, fits))
passing1 true zero fits e = absurd (ground (arith, e))
passing1 true (suc zero) fits e = absurd (ground (arith, e))
passing1 true (suc (suc zero)) fits e = absurd (ground (arith, e))
passing1 true (suc (suc (suc zero))) fits e = absurd (ground (arith, e))
passing1 true (suc (suc (suc (suc i)))) fits e = absurd (omega (arith, fits))

child-IsOnly1 :
    IsOnly two_keys (bitmap_test two_keys root_node [] 1) (path_hash two_keys (1 ∷ [])) (child_of 1)
unfolding entry_at bucket_at path_hash accumulate_hash hash_to_bucket hash_to_tag mix_bucket
    entry_color entry_parent_color entry_tag entry_is_secondary
child-IsOnly1 = record {
  placed = record { is_secondary = false; index_fits = omega arith; pos_eq = refl; passes = refl };
  alone = λ other p.
      p.pos_eq
      ∙ passing1 p.is_secondary other.index p.index_fits (
          subst
            (λ (c : Cell).
              bitmap_test two_keys root_node [] 1 p.is_secondary (entry_at two_keys c) ≡ true)
            p.pos_eq p.passes);
}

small-bit : (s : ℕ) → IsBit root_node s → s < 2
unfolding get_bit
small-bit s bit = ground (
  arith,
  bit.1,
  every_sound 33 (λ s. not (get_bit (child_bitmap root_node) s) || ltb s 2) s only_bits
      (omega (arith, bit.0)),
)

child-IsOnly :
    (s : ℕ)
    → IsBit root_node s
    → IsOnly two_keys
        (bitmap_test two_keys root_node [] s)
        (path_hash two_keys (s ∷ []))
        (child_of s)
child-IsOnly zero bit = child-IsOnly0
child-IsOnly (suc zero) bit = child-IsOnly1
child-IsOnly (suc (suc s)) bit = absurd (omega (arith, small-bit (suc (suc s)) bit))

empty-IsKv : IsKv (key_at 100)
empty-IsKv = record { size_fits = omega arith; bytes_there = omega arith }

pub one_byte : (i : ℕ) → get_or (key_at 200).bytes i 0 < 256
one_byte zero = omega arith
one_byte (suc i) = omega arith

child-IsSubtree :
    (s : ℕ)
    → IsBit root_node s
    → IsSubtree two_keys key_at (s ∷ []) (entry_at two_keys (child_of s))
unfolding entry_at bucket_at entry_type entry_kv entry_bits get_bits_uint128 get_string_symbol
child-IsSubtree zero bit = leaf {e = first_leaf} refl empty-IsKv (λ i. omega arith) (refl, tt)
child-IsSubtree (suc zero) bit =
    leaf {e = second_leaf} refl (record { size_fits = omega arith; bytes_there = omega arith })
      one_byte (refl, tt)
child-IsSubtree (suc (suc s)) bit = absurd (omega (arith, small-bit (suc (suc s)) bit))

pub two_keys-IsTrie : IsTrie key_at two_keys
unfolding entry_at bucket_at entry_type entry_color hash_to_bucket
two_keys-IsTrie = record {
  geometry = two_keys-IsGeometry;
  buckets = λ b below. (two_keys-buckets b below).0;
  quiet = λ b below. (two_keys-buckets b below).1;
  rooted = λ e. bitmap refl tt (omega arith) child_of child-IsOnly child-IsSubtree;
}

abbrev pub stack_garbage : KeyPrefetcher
stack_garbage = record {
  key_symbols = λ i. i;
  prefix_hashes = λ i. i;
  prefetch_prefix_hash = 17;
  prefetch_pos = 3;
  num_key_symbols = 1;
}

abbrev pub unread_entry : EntryCopy
unread_entry = record {
  value = blank;
  last_pos = record { bucket = 9; index = 3 };
  last_seq = 5;
  primary_bucket = 7;
}

-- The key of one byte stands at address 40.
abbrev pub zeros : Memory
zeros a = 0
