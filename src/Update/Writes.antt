-- ===== src/Update/Writes.antt =====
-- The write of a key object into a leaf.
use cuckoo_trie_vectorized.Base.{
  ℕ, zero, suc, ◌<◌, ◌≤◌, ◌≡◌, ◌≢◌, refl, sym, ap, ◌∙◌, subst, arith, Bool, List, [], ◌∷◌, ◌⊎◌, inl,
  inr, length, get_or, ℕ_discrete, bit_and, dec_lt,
}
use cuckoo_trie_vectorized.Config.{type_leaf, seq_increment}
use cuckoo_trie_vectorized.Entry.{Entry, entry_type, entry_kv, entry_set_kv}
use cuckoo_trie_vectorized.Entry.Bytes.{IsEntry}
use cuckoo_trie_vectorized.Entry.Fields.{IsCanonical, entry_kv-entry_set_kv}
use cuckoo_trie_vectorized.Trie.{
  Trie, Bucket, Cell, bucket_at, set_bucket, cell_at, entry_at, zero_bucket, zero_entry,
}
use cuckoo_trie_vectorized.Alloc.{trie_min_leaf}
use cuckoo_trie_vectorized.Hash.{accumulate_hash, mix_bucket}
use cuckoo_trie_vectorized.Hash.Geometry.{IsGeometry}
use cuckoo_trie_vectorized.Search.Headers.{IsCell}
use cuckoo_trie_vectorized.Pairs.Returns.{IsBucket}
use cuckoo_trie_vectorized.Pairs.Writes.{written-IsBucket}
use cuckoo_trie_vectorized.Pairs.Flags.{IsBucket-IsEntry}
use cuckoo_trie_vectorized.Relocate.{set_entry}
use cuckoo_trie_vectorized.Relocate.Writes.{
  bucket_at-set_entry_ne, bucket_at-set_entry, entry_at-set_entry, entry_at-set_entry_ne,
}
use cuckoo_trie_vectorized.Lookup.{Objects}
use cuckoo_trie_vectorized.Lookup.Tree.{path_hash, place, IsTrie, InTable, root_cell}
use cuckoo_trie_vectorized.Update.Headers.{SameHeader, Differ}
use cuckoo_trie_vectorized.Update.Rewrites.{IsReplaced, IsSubtree-same}

get_or_beyond : (xs : List Bucket) (i : ℕ) (z : Bucket) → length xs ≤ i → get_or xs i z ≡ z
get_or_beyond [] i z h = refl
get_or_beyond (x ∷ xs) zero z h = absurd (omega (arith, h))
get_or_beyond (x ∷ xs) (suc i) z h = get_or_beyond xs i z (omega (arith, h))

-- The cells of a bucket that is missing would be unused ones without the colour of an unused cell.
zero-ne-IsBucket : ¬ IsBucket zero_bucket.cells
unfolding entry_type
zero-ne-IsBucket h =
    let first : zero_entry ≡ h.e0 = cc (h.cells_eq) in
    let flags = (subst IsCell (sym first) h.cell0).1 refl in omega (arith, flags.0)

pub Cell-cases : (a b : Cell) → (a ≡ b) ⊎ (a.bucket ≡ b.bucket → a.index ≢ b.index)
Cell-cases a b = elim (ℕ_discrete a.bucket b.bucket) [
  | no other ↦ inr (λ same. absurd (other same))
  | yes bucket ↦ elim (ℕ_discrete a.index b.index) [
    | no other ↦ inr (λ same. other)
    | yes index ↦ inl (cell_eq bucket index)
  ]
]
  where
    cell_eq : a.bucket ≡ b.bucket → a.index ≡ b.index → a ≡ b
    cell_eq bucket index = ground (arith, bucket, index)

module _ (kv_at : Objects) (trie : Trie) (t : IsTrie kv_at trie) (pos : Cell) (kv : ℕ)
    (in_table : InTable trie pos) where
  abbrev pub new_entry : Entry
  new_entry = entry_set_kv (entry_at trie pos) kv

  abbrev pub written : Trie
  written = set_entry trie pos new_entry

  pub below_length : pos.bucket < length trie.buckets
  unfolding bucket_at
  below_length = elim (dec_lt pos.bucket (length trie.buckets)) [
    | yes below ↦ below
    | no beyond ↦ absurd (
        zero-ne-IsBucket (
          subst (λ (b : Bucket). IsBucket b.cells)
            (get_or_beyond trie.buckets pos.bucket zero_bucket (omega (arith, beyond)))
            (t.buckets pos.bucket in_table.0)))
  ]

  pub index_below : pos.index < length (bucket_at trie pos.bucket).cells
  index_below =
      let four : length (bucket_at trie pos.bucket).cells ≡ 4 =
        rw ((t.buckets pos.bucket in_table.0).cells_eq) refl in
      omega (arith, four, in_table.1)

  pub there : entry_at written pos ≡ new_entry
  there = entry_at-set_entry trie pos new_entry below_length index_below

  elsewhere :
      (c : Cell)
      → (c.bucket ≡ pos.bucket → c.index ≢ pos.index)
      → entry_at written c ≡ entry_at trie c
  elsewhere c differs =
      entry_at-set_entry_ne trie pos new_entry below_length c.bucket c.index differs

  same_hashes : (path : List ℕ) → path_hash written path ≡ path_hash trie path
  unfolding path_hash set_entry set_bucket accumulate_hash
  same_hashes [] = refl
  same_hashes (s ∷ path) = ap (λ (hash : ℕ). accumulate_hash trie hash s) (same_hashes path)

  new-SameHeader : SameHeader (entry_at trie pos) new_entry
  unfolding entry_set_kv
  new-SameHeader = record { flags = refl; colors = refl; symbols = refl }

  same_headers : (c : Cell) → SameHeader (entry_at trie c) (entry_at written c)
  same_headers c = elim (Cell-cases c pos) [
    | inl same ↦
        subst (λ (x : Cell). SameHeader (entry_at trie x) (entry_at written x)) (sym same)
          (subst (SameHeader (entry_at trie pos)) (sym there) new-SameHeader)
    | inr differs ↦
        subst (SameHeader (entry_at trie c)) (sym (elsewhere c differs))
          (record { flags = refl; colors = refl; symbols = refl })
  ]

  pub same_links : (c : Cell) → (entry_at written c).link ≡ (entry_at trie c).link
  unfolding entry_set_kv
  same_links c = elim (Cell-cases c pos) [
    | inl same ↦
        subst (λ (x : Cell). (entry_at written x).link ≡ (entry_at trie x).link) (sym same)
          (ap (λ (e : Entry). e.link) there)
    | inr differs ↦ ap (λ (e : Entry). e.link) (elsewhere c differs)
  ]

  pub same_head : trie_min_leaf written ≡ trie_min_leaf trie
  unfolding set_entry set_bucket trie_min_leaf
  same_head = refl

  same_places : (hash : ℕ) (s : Bool) (i : ℕ) → place written hash s i ≡ place trie hash s i
  unfolding set_entry set_bucket mix_bucket
  same_places hash s i = refl

  pub written-Differ : entry_type (entry_at trie pos) ≡ type_leaf → Differ trie written pos
  written-Differ is_leaf = record {
    hashes = same_hashes;
    places = same_places;
    headers = same_headers;
    others = λ c. elim (Cell-cases c pos) [
      | inl same ↦ inr same
      | inr differs ↦ inl (elsewhere c differs)
    ];
    is_leaf = is_leaf;
  }

  stored : IsEntry (entry_at trie pos)
  unfolding entry_at cell_at
  stored =
      IsBucket-IsEntry (bucket_at trie pos.bucket).cells pos.index (t.buckets pos.bucket in_table.0)

  new-IsEntry : IsEntry new_entry
  unfolding entry_set_kv
  new-IsEntry = record {
    flags_fit = stored.flags_fit;
    color_and_tag_fits = stored.color_and_tag_fits;
    last_symbol_fits = stored.last_symbol_fits;
    body_fits = omega arith;
    link_fits = stored.link_fits;
  }

  pub new_kv : IsCanonical kv → entry_kv (entry_at written pos) ≡ kv
  new_kv canonical =
      ap entry_kv there ∙ (entry_kv-entry_set_kv (entry_at trie pos) kv stored canonical).0

  module _ (is_leaf : entry_type (entry_at trie pos) ≡ type_leaf) where
    new-IsCell : IsCell new_entry
    unfolding entry_set_kv entry_type
    new-IsCell = (new-IsEntry, λ unused. absurd (omega (arith, unused, is_leaf)))

    cells-IsBucket : (b : ℕ) → b < trie.num_buckets → IsBucket (bucket_at written b).cells
    cells-IsBucket b below = elim (ℕ_discrete b pos.bucket) [
      | yes same ↦
          subst (λ (x : ℕ). IsBucket (bucket_at written x).cells) (sym same)
            (rw (bucket_at-set_entry trie pos new_entry below_length) (
              written-IsBucket (bucket_at trie pos.bucket).cells pos.index new_entry
                (t.buckets pos.bucket in_table.0) new-IsCell))
      | no other ↦ rw (bucket_at-set_entry_ne trie pos new_entry b other) (t.buckets b below)
    ]

    same_word :
        (b : ℕ) → (bucket_at written b).write_lock_and_seq ≡ (bucket_at trie b).write_lock_and_seq
    same_word b = elim (ℕ_discrete b pos.bucket) [
      | yes same ↦
          subst
            (λ (x : ℕ).
              (bucket_at written x).write_lock_and_seq ≡ (bucket_at trie x).write_lock_and_seq)
            (sym same) (rw (bucket_at-set_entry trie pos new_entry below_length) refl)
      | no other ↦ rw (bucket_at-set_entry_ne trie pos new_entry b other) refl
    ]

    pub same_size : written.num_buckets ≡ trie.num_buckets
    unfolding set_entry set_bucket
    same_size = refl

    written-IsGeometry : IsGeometry written
    unfolding set_entry set_bucket
    written-IsGeometry = record {
      some_buckets = t.geometry.some_buckets;
      whole_blocks = t.geometry.whole_blocks;
      addressable = t.geometry.addressable;
      pairs = t.geometry.pairs;
      blocks = t.geometry.blocks;
      mix_bound = t.geometry.mix_bound;
    }

    pub still_rooted : written.is_empty ≡ trie.is_empty
    unfolding set_entry set_bucket
    still_rooted = refl

    pub written-IsTrie :
        IsReplaced kv_at trie written pos (written-Differ is_leaf) → IsTrie kv_at written
    written-IsTrie r = record {
      geometry = written-IsGeometry;
      buckets = λ b below. cells-IsBucket b (omega (arith, below, same_size));
      quiet = λ b below.
          ap (λ (w : ℕ). bit_and w seq_increment) (same_word b)
          ∙ t.quiet b (omega (arith, below, same_size));
      rooted = λ rooted.
          IsSubtree-same kv_at trie written pos (written-Differ is_leaf) r
            (t.rooted (sym still_rooted ∙ rooted)) root_cell refl;
    }
