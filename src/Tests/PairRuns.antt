-- ===== src/Tests/PairRuns.antt =====
-- The theorems on pairs of buckets at a table of two buckets.
use cuckoo_trie_vectorized.Base.{
  ℕ, zero, suc, ◌<◌, ap, ◌∙◌, subst, List, ◌≡◌, ◌↔◌, refl, arith, Bool, true, false, [], ◌∷◌, some,
  replicate, none, ◌⊎◌, ◌≢◌,
}
use cuckoo_trie_vectorized.Entry.{
  Entry, entry_type, entry_color, entry_parent_color, entry_tag, entry_is_secondary, header_qword,
}
use cuckoo_trie_vectorized.Trie.{Trie, Cell, cell_at, unused_entry, bucket_at, entry_at}
use cuckoo_trie_vectorized.Hash.{mix_bucket}
use cuckoo_trie_vectorized.Locks.{BucketWriteLock, masked_seq, find_write_lock}
use cuckoo_trie_vectorized.BitString.{count_trailing_zeros}
use cuckoo_trie_vectorized.Search.{
  find_entry_in_bucket_by_color_vectorized, match_pair, movemask_epi8, validated,
  color_header_values,
}
use cuckoo_trie_vectorized.Search.Headers.{IsCell, has_color, has_parent}
use cuckoo_trie_vectorized.Pairs.{
  EntryCopy, still, find_entry_in_pair_by_color, find_entry_in_pair_by_parent, validate_entry,
  search_pair, update_entry, entries_equal, write_entry, remove_entry_by_address,
}
use cuckoo_trie_vectorized.Pairs.Finds.{IsSeen, IsFromPair, pair_bucket}
use cuckoo_trie_vectorized.Pairs.Returns
use cuckoo_trie_vectorized.Pairs.Returns.{IsBucket, last_look}
use cuckoo_trie_vectorized.Pairs.Flags
use cuckoo_trie_vectorized.Pairs.Stale
use cuckoo_trie_vectorized.Pairs.Updates
use cuckoo_trie_vectorized.Pairs.Updates.{IsCopy, IsUpdated}
use cuckoo_trie_vectorized.Tests.{leaf}

abbrev blank : Entry
blank = record unused_entry { parent_color_and_flags = 0x90; color_and_tag = 0x90 }

blank-IsCell : IsCell blank
blank-IsCell = (omega arith, λ e. omega arith)

-- A leaf of colour 3 and tag 7 in its secondary bucket, whose parent has colour 3.
abbrev child : Entry
child = record leaf { parent_color_and_flags = 0x35 }

child-IsCell : IsCell child
unfolding entry_type
child-IsCell = (omega arith, λ e. absurd (omega (arith, e)))

-- The leaf stands in the secondary bucket, and both buckets are locked.
abbrev two_buckets : Trie
two_buckets = record {
  buckets =
      (record { cells = blank ∷ blank ∷ blank ∷ blank ∷ []; write_lock_and_seq = 1 })
      ∷ (record { cells = blank ∷ blank ∷ child ∷ blank ∷ []; write_lock_and_seq = 1 })
      ∷ [];
  num_buckets = 2;
  num_pairs = 32;
  num_shuffle_blocks = 1;
  bucket_mix_table = replicate 16 1;
  is_empty = false;
}

two_buckets-IsBucket :
    (s : Bool)
    → IsBucket (bucket_at two_buckets (pair_bucket 0 (mix_bucket two_buckets 0 7) s)).cells
unfolding bucket_at mix_bucket
two_buckets-IsBucket true = record {
  e0 = blank;
  e1 = blank;
  e2 = child;
  e3 = blank;
  cells_eq = refl;
  cell0 = blank-IsCell;
  cell1 = blank-IsCell;
  cell2 = child-IsCell;
  cell3 = blank-IsCell;
}
two_buckets-IsBucket false = record {
  e0 = blank;
  e1 = blank;
  e2 = blank;
  e3 = blank;
  cells_eq = refl;
  cell0 = blank-IsCell;
  cell1 = blank-IsCell;
  cell2 = blank-IsCell;
  cell3 = blank-IsCell;
}

child-IsSeen :
    IsSeen (λ e. has_color e true 7 3) (last_look two_buckets (still two_buckets) 0 7 4 true)
unfolding bucket_at mix_bucket entry_color entry_tag entry_is_secondary
child-IsSeen = record {
  quiet = record { not_written = refl; unchanged = refl };
  index = 2;
  below = omega arith;
  passes = refl;
}

find_entry_in_pair_by_color_example :
    (found : EntryCopy) × (find_entry_in_pair_by_color two_buckets (still two_buckets) 0 7 3
      ≡ some found)
    × IsFromPair (λ s e. has_color e s 7 3) (still two_buckets) 0 (mix_bucket two_buckets 0 7) found
find_entry_in_pair_by_color_example =
    Returns.find_entry_in_pair_by_color-returns two_buckets (still two_buckets) 0 7
      (λ t s. two_buckets-IsBucket s) (omega arith) 4 (omega arith) true 3 (omega arith)
      child-IsSeen

child-IsSeen_by_parent :
    IsSeen (λ e. has_parent e true 7 12 3) (last_look two_buckets (still two_buckets) 0 7 4 true)
unfolding bucket_at mix_bucket entry_parent_color entry_tag entry_is_secondary
child-IsSeen_by_parent = record {
  quiet = record { not_written = refl; unchanged = refl };
  index = 2;
  below = omega arith;
  passes = refl;
}

find_entry_in_pair_by_parent_example :
    (found : EntryCopy) × (find_entry_in_pair_by_parent two_buckets (still two_buckets) 0 7 12 3
      ≡ some found)
    × IsFromPair
        (λ s e. has_parent e s 7 12 3)
        (still two_buckets)
        0
        (mix_bucket two_buckets 0 7)
        found
find_entry_in_pair_by_parent_example =
    Returns.find_entry_in_pair_by_parent-returns two_buckets (still two_buckets) 0 7
      (λ t s. two_buckets-IsBucket s) (omega arith) 4 (omega arith) true 12 3 (omega arith)
      (omega arith) child-IsSeen_by_parent

entries_equal_example : (entries_equal child blank ≡ true) ↔ (child ≡ blank)
entries_equal_example = Flags.entries_equal_iff child blank child-IsCell.0 blank-IsCell.0

-- A copy that was read while the leaf stood in the primary bucket: its sequence is old.
abbrev moved_copy : EntryCopy
moved_copy = record {
  value = record child { parent_color_and_flags = 0x31 };
  last_pos = record { bucket = 0; index = 0 };
  last_seq = 0x100;
  primary_bucket = 0;
}

abbrev new_child : Entry
new_child = record child { parent_color_and_flags = 0x39 }

abbrev found_child : EntryCopy
found_child = record {
  value = child;
  last_pos = record { bucket = 1; index = 2 };
  last_seq = 1;
  primary_bucket = 0;
}

child-found : find_entry_in_pair_by_color two_buckets (still two_buckets) 0 7 3 ≡ some found_child
unfolding find_entry_in_pair_by_color search_pair find_entry_in_bucket_by_color_vectorized
    match_pair movemask_epi8 mix_bucket bucket_at validated count_trailing_zeros header_qword
    color_header_values
child-found = refl

moved_copy-IsCopy : IsCopy two_buckets moved_copy
unfolding mix_bucket bucket_at masked_seq validate_entry entry_tag entry_is_secondary
moved_copy-IsCopy = record {
  in_pair = refl;
  in_bucket = omega arith;
  stands = λ current. absurd (ground (arith, current));
}

abbrev pair_cell : Bool → ℕ → Cell
pair_cell s i = record { bucket = pair_bucket 0 (mix_bucket two_buckets 0 7) s; index = i }

-- No other cell of the pair has the colour 3 and the tag 7.
only_child :
    (s : Bool) (i : ℕ)
    → i < 4
    → has_color (entry_at two_buckets (pair_cell s i)) s 7 3 ≡ true
    → pair_cell s i ≡ record { bucket = 1; index = 2 }
unfolding entry_at cell_at bucket_at mix_bucket entry_color entry_tag entry_is_secondary
only_child true zero below e = absurd (ground (arith, e))
only_child true (suc zero) below e = absurd (ground (arith, e))
only_child true (suc (suc zero)) below e = refl
only_child true (suc (suc (suc zero))) below e = absurd (ground (arith, e))
only_child true (suc (suc (suc (suc i)))) below e = absurd (omega (arith, below))
only_child false zero below e = absurd (ground (arith, e))
only_child false (suc zero) below e = absurd (ground (arith, e))
only_child false (suc (suc zero)) below e = absurd (ground (arith, e))
only_child false (suc (suc (suc zero))) below e = absurd (ground (arith, e))
only_child false (suc (suc (suc (suc i)))) below e = absurd (omega (arith, below))

child-IsAlone :
    (s : Bool) (pos : Cell)
    → pos.bucket ≡ pair_bucket 0 (mix_bucket two_buckets 0 7) s
    → pos.index < 4
    → has_color (entry_at two_buckets pos) s 7 3 ≡ true
    → pos ≡ record { bucket = 1; index = 2 }
child-IsAlone s pos here below passes =
    let same : pos ≡ pair_cell s pos.index = ap (λ (b : ℕ). record pos { bucket = b }) here in
    same
    ∙ only_child s pos.index below
        (subst (λ (c : Cell). has_color (entry_at two_buckets c) s 7 3 ≡ true) same passes)

update_entry_example :
    (trie' : Trie) × (copy' : EntryCopy) × (update_entry two_buckets moved_copy new_child
      ≡ some (trie', copy'))
    × IsUpdated two_buckets (record { bucket = 1; index = 2 }) new_child trie' copy'
unfolding entry_tag entry_color mix_bucket bucket_at masked_seq validate_entry entry_type
    entry_is_secondary
update_entry_example =
    Updates.update_entry-IsUpdated two_buckets moved_copy new_child two_buckets-IsBucket
      (omega arith) (λ e. omega (arith, e)) (omega arith) (λ e. omega (arith, e)) found_child
      child-found (record { locked = refl; idle = refl }) (omega arith) refl refl refl
      moved_copy-IsCopy child-IsAlone

validate_entry_example :
    (result : Trie) × (new_seq : ℕ) × (write_entry two_buckets
        (record { bucket = 1; index = 0 })
        new_child
      ≡ some (result, new_seq))
    × ((copy : EntryCopy)
        → copy.last_pos.bucket ≡ 1
        → validate_entry two_buckets copy ≡ true
        → (validate_entry result copy ≡ false)
          × (validate_entry result (record copy { last_seq = new_seq }) ≡ true))
    × ((copy : EntryCopy)
        → copy.last_pos.bucket ≢ 1
        → validate_entry result copy ≡ validate_entry two_buckets copy)
unfolding bucket_at
validate_entry_example =
    Stale.validate_entry-write_entry two_buckets (record { bucket = 1; index = 0 }) new_child
      (record { locked = refl; idle = refl }) (omega arith) (omega arith)

abbrev own_locks : List BucketWriteLock
own_locks = (record { bucket = 1; entry_refcounts = 0 ∷ 0 ∷ 0 ∷ 0 ∷ []; total_refcount = 1 }) ∷ []

remove_entry_example :
    ((find_write_lock own_locks 1 ≡ none)
      × (remove_entry_by_address own_locks two_buckets (record { bucket = 1; index = 2 }) ≡ none))
    ⊎ ((k : ℕ) × (result : Trie) × (find_write_lock own_locks 1 ≡ some k)
        × (remove_entry_by_address own_locks two_buckets (record { bucket = 1; index = 2 })
            ≡ some result)
        × (entry_at result (record { bucket = 1; index = 2 }) ≡ unused_entry)
        × ((b i : ℕ)
            → (b ≡ 1 → i ≢ 2)
            → entry_at result (record { bucket = b; index = i })
              ≡ entry_at two_buckets (record { bucket = b; index = i })))
unfolding bucket_at
remove_entry_example =
    Stale.remove_entry_by_address-Outcome two_buckets (record { bucket = 1; index = 2 })
      (record { locked = refl; idle = refl }) (omega arith) (omega arith) own_locks
