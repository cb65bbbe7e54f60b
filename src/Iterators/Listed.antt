-- ===== src/Iterators/Listed.antt =====
-- The list of leaves, and what an iterator that walks it must return.
use cuckoo_trie_vectorized.Base.{
  ℕ, zero, suc, ◌<◌, ◌≤◌, ◌≡◌, true, false, List, [], ◌∷◌, Option, none, some,
}
use cuckoo_trie_vectorized.Config.{type_leaf, max_valid_color}
use cuckoo_trie_vectorized.Entry.{Entry, Locator, entry_type, entry_kv}
use cuckoo_trie_vectorized.Trie.{Trie, Cell, entry_at}
use cuckoo_trie_vectorized.Hash.{hash_to_bucket, hash_to_tag}
use cuckoo_trie_vectorized.Alloc.{trie_min_leaf}
use cuckoo_trie_vectorized.Lookup.Tree.{IsOnly, color_test}
use cuckoo_trie_vectorized.Iterators.Defs.{Iter, no_bucket, ct_iter_next}

-- The locator names one cell of the table.
pub record IsLink (trie : Trie) (link : Locator) (pos : Cell) : Type 0 where
  pub hash : ℕ
  pub bucket_eq : hash_to_bucket hash ≡ link.primary_bucket
  pub tag_eq : hash_to_tag hash ≡ link.tag
  pub in_range : hash_to_bucket hash < trie.num_buckets
  pub tag_fits : hash_to_tag hash < 16
  pub valid : link.color ≤ max_valid_color
  pub only : IsOnly trie (color_test (hash_to_tag hash) link.color) hash pos

-- The key objects of the leaves behind an entry of the list.
pub data LeafList (trie : Trie) : Entry → List ℕ → Type 0 where
  list_end : {e : Entry} → e.link.primary_bucket ≡ no_bucket → LeafList trie e []
  list_next :
      {e : Entry} {kv : ℕ} {kvs : List ℕ}
      → (pos : Cell) → IsLink trie e.link pos
      → entry_type (entry_at trie pos) ≡ type_leaf
      → entry_kv (entry_at trie pos) ≡ kv
      → LeafList trie (entry_at trie pos) kvs
      → LeafList trie e (kv ∷ kvs)

-- The whole list, from its head on. The head of an empty trie is not read.
pub record IsListed (trie : Trie) (kvs : List ℕ) : Type 0 where
  pub listed : trie.is_empty ≡ false → LeafList trie (entry_at trie (trie_min_leaf trie)) kvs
  pub nothing : trie.is_empty ≡ true → kvs ≡ []

-- What `n` calls of `ct_iter_next` return.
unfoldable pub iter_calls : ℕ → Trie → Iter → Option (List (Option ℕ))
iter_calls zero trie iter = some []
iter_calls (suc n) trie iter = elim (ct_iter_next trie iter) [
  | none ↦ none
  | some (result, iter') ↦ elim (iter_calls n trie iter') [
    | none ↦ none
    | some results ↦ some (result ∷ results)
  ]
]

-- The first `n` of the objects, and NULL behind the last one.
abbrev pub listing : ℕ → List ℕ → List (Option ℕ)
listing zero kvs = []
listing (suc n) [] = none ∷ listing n []
listing (suc n) (kv ∷ kvs) = some kv ∷ listing n kvs
