-- ===== src/Pairs/Rewrites.antt =====
-- Over a table that nobody else changes, a search of the pair finds what was written over the entry
-- that it found before.
use cuckoo_trie_vectorized.Base.{
  ℕ, zero, suc, ◌<◌, ◌≤◌, ◌≡◌, ◌≢◌, refl, arith, Bool, true, false, Option, none, some, length, inl,
  inr, ◌∙◌, sym, subst, Option-cases,
}
use cuckoo_trie_vectorized.Config.{max_valid_color}
use cuckoo_trie_vectorized.Entry.{Entry, entry_color, entry_tag, entry_is_secondary}
use cuckoo_trie_vectorized.Trie.{Trie, Cell, bucket_at, set_bucket}
use cuckoo_trie_vectorized.Hash.{mix_bucket}
use cuckoo_trie_vectorized.Search.{SeenBucket, LocalCopy, find_entry_in_bucket_by_color_vectorized}
use cuckoo_trie_vectorized.Search.Headers.{IsCell, has_color}
use cuckoo_trie_vectorized.Search.Buckets.{first_match}
use cuckoo_trie_vectorized.Pairs.Defs.{
  EntryCopy, still, placed, search_pair, find_entry_in_pair_by_color,
}
use cuckoo_trie_vectorized.Pairs.Firsts.{index_passes}
use cuckoo_trie_vectorized.Pairs.Finds.{pair_bucket, first_match-IsCopy}
use cuckoo_trie_vectorized.Pairs.Returns.{IsBucket, search_by_color}
use cuckoo_trie_vectorized.Pairs.Writes.{
  IsWritable, next_seq, with_entry, written-IsBucket, bucket_at-with_entry, bucket_at-with_entry_ne,
  first_match-with_entry,
}

module _ (search : SeenBucket → Bool → Option LocalCopy) (trie : Trie) (primary secondary : ℕ) where
  -- The bucket that the search finds the entry in.
  pub data StillFound (found : EntryCopy) : Type 0 where
    in_primary :
        (copy : LocalCopy)
        → search (still trie 0 primary) false ≡ some copy
        → placed primary primary copy ≡ found
        → StillFound found
    in_secondary :
        search (still trie 0 primary) false ≡ none
        → (copy : LocalCopy) → search (still trie 0 secondary) true ≡ some copy
        → placed secondary primary copy ≡ found
        → StillFound found

  pub search_pair-StillFound :
      (rounds t : ℕ) (found : EntryCopy)
      → search_pair search (still trie) primary secondary rounds t ≡ some found
      → StillFound found
  unfolding search_pair
  search_pair-StillFound zero t found q = absurd (ground (arith, q))
  search_pair-StillFound (suc rounds) t found q =
      elim (Option-cases (search (still trie 0 primary) false)) [
        | inr (copy, here) ↦ in_primary copy here (ground (arith, q, here))
        | inl none_here ↦ elim (Option-cases (search (still trie 0 secondary) true)) [
          | inr (copy, there) ↦
              in_secondary none_here copy there (ground (arith, q, none_here, there))
          | inl none_there ↦
              search_pair-StillFound rounds (suc (suc t)) found
                (ground (arith, q, none_here, none_there))
        ]
      ]

  pub StillFound-search_pair :
      (rounds t : ℕ) (found : EntryCopy)
      → StillFound found
      → search_pair search (still trie) primary secondary (suc rounds) t ≡ some found
  unfolding search_pair
  StillFound-search_pair rounds t found (in_primary copy here q) = ground (arith, here, q)
  StillFound-search_pair rounds t found (in_secondary none_here copy there q) =
      ground (arith, none_here, there, q)

-- An entry with the tag, the colour and the flag of another passes its test.
pub has_color_of :
    (e : Entry) (is_secondary : Bool) (tag color : ℕ)
    → entry_color e ≡ color
    → entry_tag e ≡ tag
    → entry_is_secondary e ≡ is_secondary
    → has_color e is_secondary tag color ≡ true
has_color_of e is_secondary tag color c t s = ground (arith, c, t, s)

pub flag_of_color :
    (e : Entry) (is_secondary : Bool) (tag color : ℕ)
    → has_color e is_secondary tag color ≡ true
    → entry_is_secondary e ≡ is_secondary
flag_of_color e is_secondary tag color h = ground (arith, h)

-- The copy after a write over the entry that it is of.
abbrev pub rewritten : Trie → EntryCopy → Entry → EntryCopy
rewritten trie found e = record found {
  value = e;
  last_seq = next_seq (bucket_at trie found.last_pos.bucket).write_lock_and_seq;
}

module _ (trie : Trie) (primary tag color : ℕ)
    (cells : (s : Bool)
      → IsBucket (bucket_at trie (pair_bucket primary (mix_bucket trie primary tag) s)).cells)
    (tag_fits : tag < 16) (valid : color ≤ max_valid_color)
    (distinct : mix_bucket trie primary tag ≢ primary) where
  abbrev test : Bool → Entry → Bool
  test is_secondary e = has_color e is_secondary tag color

  abbrev search : SeenBucket → Bool → Option LocalCopy
  search seen is_secondary = find_entry_in_bucket_by_color_vectorized seen is_secondary tag color

  -- The claim on one copy that is found.
  abbrev IsRewritable : EntryCopy → Type 0
  IsRewritable found =
      IsWritable (bucket_at trie found.last_pos.bucket)
      → found.last_pos.bucket < length trie.buckets
      → (e : Entry) → IsCell e
      → entry_color e ≡ color
      → entry_tag e ≡ tag
      → entry_is_secondary e ≡ entry_is_secondary found.value
      → search_pair search (still (with_entry trie found.last_pos e)) primary
          (mix_bucket trie primary tag) 100 0
        ≡ some (rewritten trie found e)

  searched :
      (b : ℕ) (is_secondary : Bool)
      → IsBucket (bucket_at trie b).cells
      → search (still trie 0 b) is_secondary ≡ first_match (test is_secondary) (still trie 0 b)
  searched b is_secondary h =
      search_by_color (still trie 0 b) h is_secondary tag tag_fits color valid

  -- What the search sees of the bucket of the write.
  rewritten_bucket :
      (b : ℕ) (is_secondary : Bool) (copy : LocalCopy)
      → IsBucket (bucket_at trie b).cells
      → search (still trie 0 b) is_secondary ≡ some copy
      → IsWritable (bucket_at trie b)
      → b < length trie.buckets
      → (e : Entry) → IsCell e
      → entry_color e ≡ color
      → entry_tag e ≡ tag
      → entry_is_secondary e ≡ entry_is_secondary copy.value
      → search
          (still (with_entry trie (record { bucket = b; index = copy.index }) e) 0 b)
          is_secondary
        ≡ some (record {
          value = e;
          index = copy.index;
          last_seq = next_seq (bucket_at trie b).write_lock_and_seq;
        })
  rewritten_bucket b is_secondary copy h here w below e cell c t s =
      let here' = sym (searched b is_secondary h) ∙ here in
      let copied = first_match-IsCopy (test is_secondary) (still trie 0 b) copy here' in
      let trie' = with_entry trie (record { bucket = b; index = copy.index }) e in
      let after : IsBucket (bucket_at trie' b).cells =
        rw (bucket_at-with_entry trie (record { bucket = b; index = copy.index }) e below)
          (written-IsBucket (bucket_at trie b).cells copy.index e h cell) in
      search_by_color (still trie' 0 b) after is_secondary tag tag_fits color valid
      ∙ first_match-with_entry (test is_secondary) trie b w below e
          (has_color_of e is_secondary tag color c t (
            s
            ∙ flag_of_color copy.value is_secondary tag color (
                rw (copied.value_eq) (
                  index_passes (test is_secondary) (bucket_at trie b).cells copy.index
                    copied.first))))
          0 copy here'

  IsRewritable-primary :
      (copy : LocalCopy)
      → search (still trie 0 primary) false ≡ some copy
      → IsRewritable (placed primary primary copy)
  IsRewritable-primary copy here w below e cell c t s =
      StillFound-search_pair search
        (with_entry trie (record { bucket = primary; index = copy.index }) e) primary
        (mix_bucket trie primary tag) 99 0 (rewritten trie (placed primary primary copy) e)
        (in_primary _ (rewritten_bucket primary false copy (cells false) here w below e cell c t s)
          refl)

  IsRewritable-secondary :
      search (still trie 0 primary) false ≡ none
      → (copy : LocalCopy) → search (still trie 0 (mix_bucket trie primary tag)) true ≡ some copy
      → IsRewritable (placed (mix_bucket trie primary tag) primary copy)
  IsRewritable-secondary none_here copy there w below e cell c t s =
      let b = mix_bucket trie primary tag in
      let pos : Cell = record { bucket = b; index = copy.index } in
      StillFound-search_pair search (with_entry trie pos e) primary b 99 0
        (rewritten trie (placed b primary copy) e)
        (in_secondary (rw (bucket_at-with_entry_ne trie pos e primary distinct) none_here) _
          (rewritten_bucket b true copy (cells true) there w below e cell c t s) refl)

  IsRewritable-StillFound :
      (found : EntryCopy)
      → StillFound search trie primary (mix_bucket trie primary tag) found
      → IsRewritable found
  IsRewritable-StillFound found (in_primary copy here q) =
      subst IsRewritable q (IsRewritable-primary copy here)
  IsRewritable-StillFound found (in_secondary none_here copy there q) =
      subst IsRewritable q (IsRewritable-secondary none_here copy there)

  -- In a pair of two different buckets, an entry that is written over the one that the search found,
  -- with its tag, its colour and its flag, is what the search finds then.
  pub find_entry_in_pair_by_color-rewritten :
      (found : EntryCopy)
      → find_entry_in_pair_by_color trie (still trie) primary tag color ≡ some found
      → IsWritable (bucket_at trie found.last_pos.bucket)
      → found.last_pos.bucket < length trie.buckets
      → (e : Entry) → IsCell e
      → entry_color e ≡ color
      → entry_tag e ≡ tag
      → entry_is_secondary e ≡ entry_is_secondary found.value
      → find_entry_in_pair_by_color
          (with_entry trie found.last_pos e)
          (still (with_entry trie found.last_pos e))
          primary
          tag
          color
        ≡ some (rewritten trie found e)
  unfolding find_entry_in_pair_by_color set_bucket mix_bucket
  find_entry_in_pair_by_color-rewritten found q w below e cell c t s =
      IsRewritable-StillFound found
        (search_pair-StillFound search trie primary (mix_bucket trie primary tag) 100 0 found q) w
        below e cell c t s
