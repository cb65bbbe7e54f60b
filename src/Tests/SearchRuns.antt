-- ===== src/Tests/SearchRuns.antt =====
-- The theorems on the search of a bucket and on colours at concrete cells.
use cuckoo_trie_vectorized.Base.{ℕ, ◌≡◌, arith, true, [], ◌∷◌, some}
use cuckoo_trie_vectorized.Entry.{Entry, entry_type}
use cuckoo_trie_vectorized.Entry.Bytes.{IsEntry}
use cuckoo_trie_vectorized.Trie.{unused_entry}
use cuckoo_trie_vectorized.Search.{
  SeenBucket, find_entry_in_bucket_by_color, find_entry_in_bucket_by_parent,
  find_entry_in_bucket_by_color_vectorized, find_entry_in_bucket_by_parent_vectorized,
}
use cuckoo_trie_vectorized.Search.Headers.{IsCell, has_color, has_parent}
use cuckoo_trie_vectorized.Search.Buckets
use cuckoo_trie_vectorized.Search.Buckets.{seen_cells, first_match}
use cuckoo_trie_vectorized.Colors.{
  unused_color_in_pair_scalar, unused_color_in_pair_vectorized, unused_color_in_pair_avx512,
}
use cuckoo_trie_vectorized.Colors.Unused
use cuckoo_trie_vectorized.Colors.Words.{IsFirstUnused}
use cuckoo_trie_vectorized.Tests.{leaf, leaf-IsEntry}

abbrev blank : Entry
blank = record unused_entry { parent_color_and_flags = 0x90; color_and_tag = 0x90 }

blank-IsEntry : IsEntry blank
blank-IsEntry = omega arith

blank-IsCell : IsCell blank
blank-IsCell = (blank-IsEntry, λ e. omega arith)

leaf-IsCell : IsCell leaf
unfolding entry_type
leaf-IsCell = (leaf-IsEntry, λ e. absurd (omega (arith, e)))

-- Two blank cells, a leaf of colour 3 and tag 7 in its secondary bucket, and a blank one.
abbrev seen : SeenBucket
seen = seen_cells 512 blank blank leaf blank 512

find_by_color_example :
    (find_entry_in_bucket_by_color seen true 7 3 ≡ first_match (λ e. has_color e true 7 3) seen)
    × (find_entry_in_bucket_by_color_vectorized seen true 7 3
        ≡ first_match (λ e. has_color e true 7 3) seen)
find_by_color_example =
    Buckets.find_by_color_agree 512 512 blank blank leaf blank blank-IsCell blank-IsCell leaf-IsCell
      blank-IsCell true 7 (omega arith) 3 (omega arith)

-- An entry whose parent has colour 2.
abbrev child : Entry
child = record leaf { parent_color_and_flags = 0x25 }

child-IsCell : IsCell child
unfolding entry_type
child-IsCell = (omega arith, λ e. absurd (omega (arith, e)))

abbrev seen_child : SeenBucket
seen_child = seen_cells 512 blank child leaf blank 512

find_by_parent_example :
    (find_entry_in_bucket_by_parent seen_child true 7 12 2
      ≡ some (first_match (λ e. has_parent e true 7 12 2) seen_child))
    × (find_entry_in_bucket_by_parent_vectorized seen_child true 7 12 2
        ≡ first_match (λ e. has_parent e true 7 12 2) seen_child)
find_by_parent_example =
    Buckets.find_by_parent_agree 512 512 blank child leaf blank blank-IsCell child-IsCell
      leaf-IsCell blank-IsCell true 7 (omega arith) 12 2 (omega arith) (omega arith)

unused_colors_example :
    (c : ℕ) × (unused_color_in_pair_scalar
        (blank ∷ blank ∷ leaf ∷ blank ∷ [])
        (leaf ∷ blank ∷ blank ∷ blank ∷ [])
      ≡ some c)
    × (unused_color_in_pair_vectorized
          (blank ∷ blank ∷ leaf ∷ blank ∷ [])
          (leaf ∷ blank ∷ blank ∷ blank ∷ [])
        ≡ some c)
    × (unused_color_in_pair_avx512
          (blank ∷ blank ∷ leaf ∷ blank ∷ [])
          (leaf ∷ blank ∷ blank ∷ blank ∷ [])
        ≡ some c)
    × IsFirstUnused c (blank ∷ blank ∷ leaf ∷ blank ∷ leaf ∷ blank ∷ blank ∷ blank ∷ [])
unused_colors_example =
    Unused.unused_colors_agree blank blank leaf blank leaf blank blank blank blank-IsEntry
      blank-IsEntry leaf-IsEntry blank-IsEntry leaf-IsEntry blank-IsEntry blank-IsEntry
      blank-IsEntry
