-- ===== src/Pairs/Finds.antt =====
-- The search of a pair of buckets while others write: what it returns, and when it returns.
use cuckoo_trie_vectorized.Base.{
  ℕ, zero, suc, ◌+◌, ◌*◌, ◌<◌, ◌≡◌, refl, arith, Bool, true, false, ◌==◌, Option, some, length, inl,
  inr, if◌then◌else◌, Option-cases, Bool-cases, ==_iff, ==_refl, ◌∙◌, sym,
}
use cuckoo_trie_vectorized.Entry.{Entry}
use cuckoo_trie_vectorized.Search.{SeenBucket, LocalCopy, seen_entry, being_written, validated}
use cuckoo_trie_vectorized.Search.Buckets.{first_cell, first_match}
use cuckoo_trie_vectorized.Pairs.Defs.{EntryCopy, View, placed, search_pair}
use cuckoo_trie_vectorized.Pairs.Firsts.{IsFirst, first_cell-IsFirst, first_cell-found}

-- A look at a bucket that nobody wrote in meanwhile.
pub record IsQuiet (seen : SeenBucket) : Type 0 where
  pub not_written : being_written seen ≡ false
  pub unchanged : seen.end_counter ≡ seen.start_counter

-- Such a look at a bucket with an entry that passes the test.
pub record IsSeen (test : Entry → Bool) (seen : SeenBucket) : Type 0 where
  pub quiet : IsQuiet seen
  pub index : ℕ
  pub below : index < length seen.cells
  pub passes : test (seen_entry seen index) ≡ true

-- The copy is of the first entry that passes, in a bucket that nobody wrote in.
pub record IsCopy (test : Entry → Bool) (seen : SeenBucket) (copy : LocalCopy) : Type 0 where
  pub quiet : IsQuiet seen
  pub first : IsFirst test seen.cells 0 copy.index
  pub value_eq : copy.value ≡ seen_entry seen copy.index
  pub seq_eq : copy.last_seq ≡ seen.start_counter

module _ (test : Entry → Bool) (seen : SeenBucket) where
  pub first_match-IsCopy :
      (copy : LocalCopy) → first_match test seen ≡ some copy → IsCopy test seen copy
  unfolding first_match validated
  first_match-IsCopy copy q = elim (Bool-cases (being_written seen)) [
    | inl written ↦ absurd (ground (arith, q, written))
    | inr free ↦ elim (Option-cases (first_cell test seen.cells 0)) [
      | inl missing ↦ absurd (ground (arith, q, missing, free))
      | inr (i, found) ↦ elim (Bool-cases (seen.end_counter == seen.start_counter)) [
        | inl same ↦ record {
          quiet = record {
            not_written = free;
            unchanged = (==_iff seen.end_counter seen.start_counter).0 same;
          };
          first =
              first_cell-IsFirst test seen.cells 0 copy.index
                (ground (arith, q, free, found, same));
          value_eq = ground (arith, q, free, found, same);
          seq_eq = ground (arith, q, free, found, same);
        }
        | inr differs ↦ absurd (ground (arith, q, free, found, differs))
      ]
    ]
  ]

  pub first_match-found :
      IsSeen test seen → (copy : LocalCopy) × (first_match test seen ≡ some copy)
  unfolding first_match validated
  first_match-found h =
      let i = first_cell-found test seen.cells 0 h.index h.below h.passes in
      (
        record { value = seen_entry seen i.0; index = i.0; last_seq = seen.start_counter },
        rw (h.quiet.not_written, i.1, h.quiet.unchanged, ==_refl seen.start_counter) refl,
      )

abbrev pub pair_bucket : ℕ → ℕ → Bool → ℕ
pair_bucket primary secondary is_secondary = if is_secondary then secondary else primary

-- The look of a round at the primary bucket comes before that at the secondary bucket.
abbrev pub look_at : ℕ → Bool → ℕ
look_at t is_secondary = if is_secondary then suc t else t

abbrev pub local_copy : EntryCopy → LocalCopy
local_copy found = record {
  value = found.value;
  index = found.last_pos.index;
  last_seq = found.last_seq;
}

module _ (test : Bool → Entry → Bool) (view : View) (primary secondary : ℕ) where
  -- What a search of the pair returns: a copy from one of its two buckets, as some look saw it.
  pub record IsFromPair (found : EntryCopy) : Type 0 where
    pub look : ℕ
    pub is_secondary : Bool
    pub bucket_eq : found.last_pos.bucket ≡ pair_bucket primary secondary is_secondary
    pub primary_eq : found.primary_bucket ≡ primary
    pub copied : IsCopy (test is_secondary) (view look found.last_pos.bucket) (local_copy found)

module _ (search : SeenBucket → Bool → Option LocalCopy) (test : Bool → Entry → Bool) (view : View)
    (primary secondary : ℕ)
    (agrees : (t : ℕ) (s : Bool)
      → search (view t (pair_bucket primary secondary s)) s
        ≡ first_match (test s) (view t (pair_bucket primary secondary s))) where
  placed-IsFromPair :
      (look : ℕ) (is_secondary : Bool) (copy : LocalCopy) (found : EntryCopy)
      → search (view look (pair_bucket primary secondary is_secondary)) is_secondary ≡ some copy
      → placed (pair_bucket primary secondary is_secondary) primary copy ≡ found
      → IsFromPair test view primary secondary found
  placed-IsFromPair look is_secondary copy found here q = rw (sym q) (record {
    look = look;
    is_secondary = is_secondary;
    bucket_eq = refl;
    primary_eq = refl;
    copied =
        first_match-IsCopy (test is_secondary)
          (view look (pair_bucket primary secondary is_secondary)) copy
          (sym (agrees look is_secondary) ∙ here);
  })

  search_finds :
      (look : ℕ) (s : Bool)
      → IsSeen (test s) (view look (pair_bucket primary secondary s))
      → (copy : LocalCopy) × (search (view look (pair_bucket primary secondary s)) s ≡ some copy)
  search_finds look s h =
      let copy = first_match-found (test s) (view look (pair_bucket primary secondary s)) h in
      (copy.0, agrees look s ∙ copy.1)

  pub search_pair-IsFromPair :
      (rounds t : ℕ) (found : EntryCopy)
      → search_pair search view primary secondary rounds t ≡ some found
      → IsFromPair test view primary secondary found
  unfolding search_pair
  search_pair-IsFromPair zero t found q = absurd (ground (arith, q))
  search_pair-IsFromPair (suc rounds) t found q =
      elim (Option-cases (search (view t primary) false)) [
        | inr (copy, here) ↦ placed-IsFromPair t false copy found here (ground (arith, q, here))
        | inl none_here ↦ elim (Option-cases (search (view (suc t) secondary) true)) [
          | inr (copy, there) ↦
              placed-IsFromPair (suc t) true copy found there (ground (arith, q, none_here, there))
          | inl none_there ↦
              search_pair-IsFromPair rounds (suc (suc t)) found
                (ground (arith, q, none_here, none_there))
        ]
      ]

  found_here :
      (rounds t : ℕ) (copy : LocalCopy)
      → search (view t primary) false ≡ some copy
      → (found : EntryCopy) × (search_pair search view primary secondary (suc rounds) t
          ≡ some found)
  unfolding search_pair
  found_here rounds t copy here = (placed primary primary copy, ground (arith, here))

  found_there :
      (rounds t : ℕ) (copy : LocalCopy)
      → search (view (suc t) secondary) true ≡ some copy
      → (found : EntryCopy) × (search_pair search view primary secondary (suc rounds) t
          ≡ some found)
  unfolding search_pair
  found_there rounds t copy there = elim (Option-cases (search (view t primary) false)) [
    | inr (first, here) ↦ found_here rounds t first here
    | inl none_here ↦ (placed secondary primary copy, ground (arith, none_here, there))
  ]

  found_later :
      (rounds t : ℕ) (found : EntryCopy)
      → search_pair search view primary secondary rounds (suc (suc t)) ≡ some found
      → (result : EntryCopy) × (search_pair search view primary secondary (suc rounds) t
          ≡ some result)
  unfolding search_pair
  found_later rounds t found later = elim (Option-cases (search (view t primary) false)) [
    | inr (copy, here) ↦ found_here rounds t copy here
    | inl none_here ↦ elim (Option-cases (search (view (suc t) secondary) true)) [
      | inr (copy, there) ↦ found_there rounds t copy there
      | inl none_there ↦ (found, ground (arith, none_here, none_there, later))
    ]
  ]

  search_pair-found :
      (n rounds t look : ℕ) (is_secondary : Bool)
      → n < rounds
      → look ≡ t + 2 * n
      → IsSeen
          (test is_secondary)
          (view (look_at look is_secondary) (pair_bucket primary secondary is_secondary))
      → (found : EntryCopy) × (search_pair search view primary secondary rounds t ≡ some found)
  unfolding search_pair
  search_pair-found n zero t look is_secondary below e h = absurd (omega (arith, below))
  search_pair-found zero (suc rounds) t look false below e h =
      let now : t ≡ look = omega (arith, e) in
      let copy = search_finds t false (rw (now) h) in found_here rounds t copy.0 copy.1
  search_pair-found zero (suc rounds) t look true below e h =
      let now : t ≡ look = omega (arith, e) in
      let copy = search_finds (suc t) true (rw (now) h) in found_there rounds t copy.0 copy.1
  search_pair-found (suc n) (suc rounds) t look is_secondary below e h =
      let later =
        search_pair-found n rounds (suc (suc t)) look is_secondary (omega (arith, below))
          (omega (arith, e)) h in
      found_later rounds t later.0 later.1

  pub returned :
      (n : ℕ)
      → n < 100
      → (is_secondary : Bool)
      → IsSeen
          (test is_secondary)
          (view (look_at (2 * n) is_secondary) (pair_bucket primary secondary is_secondary))
      → (found : EntryCopy) × (search_pair search view primary secondary 100 0 ≡ some found)
        × IsFromPair test view primary secondary found
  returned n n_fits is_secondary h =
      let found = search_pair-found n 100 0 (2 * n) is_secondary n_fits (omega arith) h in
      (found.0, found.1, search_pair-IsFromPair 100 0 found.0 found.1)
