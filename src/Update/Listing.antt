-- ===== src/Update/Listing.antt =====
-- A leaf gets another key object of the same key: the list of leaves has the same keys.
use cuckoo_trie_vectorized.Base.{
  ℕ, ◌≡◌, refl, sym, ap, ◌∙◌, subst, arith, List, [], ◌∷◌, map, inl, inr,
}
use cuckoo_trie_vectorized.Entry.{Entry, Locator, entry_kv}
use cuckoo_trie_vectorized.Trie.{Trie, Cell, entry_at}
use cuckoo_trie_vectorized.Hash.{hash_to_tag}
use cuckoo_trie_vectorized.Keys.Order.{key_of}
use cuckoo_trie_vectorized.Lookup.{Objects}
use cuckoo_trie_vectorized.Lookup.Tree.{color_test}
use cuckoo_trie_vectorized.Iterators.Listed.{IsLink, LeafList, list_next, list_end}
use cuckoo_trie_vectorized.Update.Headers.{
  Differ, same_type, back, placed_same, color_test-OfHeader,
}
use cuckoo_trie_vectorized.Update.Rewrites.{IsOnly-same}

-- The keys of a list of objects.
abbrev pub keys_of : Objects → List ℕ → List (List ℕ)
keys_of kv_at kvs = map (λ (q : ℕ). key_of (kv_at q)) kvs

module _ (kv_at : Objects) (trie trie' : Trie) (pos : Cell) (d : Differ trie trie' pos)
    (same_size : trie'.num_buckets ≡ trie.num_buckets)
    (links : (c : Cell) → (entry_at trie' c).link ≡ (entry_at trie c).link)
    (same_key : key_of (kv_at (entry_kv (entry_at trie' pos)))
      ≡ key_of (kv_at (entry_kv (entry_at trie pos)))) where
  IsLink-same : (link : Locator) (c : Cell) → IsLink trie link c → IsLink trie' link c
  IsLink-same link c h = record {
    hash = h.hash;
    bucket_eq = h.bucket_eq;
    tag_eq = h.tag_eq;
    in_range = omega (arith, h.in_range, same_size);
    tag_fits = h.tag_fits;
    valid = h.valid;
    only =
        IsOnly-same kv_at trie trie' pos d _ _ h.hash h.hash c
          (λ x.
            placed_same trie trie' pos d (color_test (hash_to_tag h.hash) link.color) h.hash x
              (color_test-OfHeader (hash_to_tag h.hash) link.color))
          (λ x.
            placed_same trie' trie pos (back trie trie' pos d)
              (color_test (hash_to_tag h.hash) link.color) h.hash x
              (color_test-OfHeader (hash_to_tag h.hash) link.color))
          h.only;
  }

  key_at-same :
      (c : Cell)
      → key_of (kv_at (entry_kv (entry_at trie' c))) ≡ key_of (kv_at (entry_kv (entry_at trie c)))
  key_at-same c = elim (d.others c) [
    | inl same ↦ ap (λ (e : Entry). key_of (kv_at (entry_kv e))) same
    | inr at_pos ↦
        subst
          (λ (x : Cell).
            key_of (kv_at (entry_kv (entry_at trie' x)))
            ≡ key_of (kv_at (entry_kv (entry_at trie x))))
          (sym at_pos) same_key
  ]

  pub LeafList-same :
      {e : Entry} {kvs : List ℕ}
      → LeafList trie e kvs
      → (e' : Entry) → e'.link ≡ e.link
      → (kvs' : List ℕ) × LeafList trie' e' kvs' × (keys_of kv_at kvs' ≡ keys_of kv_at kvs)
  LeafList-same (list_end last) e' link =
      ([], list_end (ap (λ (l : Locator). l.primary_bucket) link ∙ last), refl)
  LeafList-same {e} (list_next {kv} {kvs} c h is_leaf same rest) e' link =
      let (kvs', rest', keys) = LeafList-same rest (entry_at trie' c) (links c) in
      (
        entry_kv (entry_at trie' c) ∷ kvs',
        list_next c (subst (λ (l : Locator). IsLink trie' l c) (sym link) (IsLink-same e.link c h))
            (same_type (entry_at trie c) (entry_at trie' c) (d.headers c) ∙ is_leaf) refl rest',
        ap (λ (k : List ℕ). k ∷ keys_of kv_at kvs')
              (key_at-same c ∙ ap (λ (q : ℕ). key_of (kv_at q)) same)
            ∙ ap (λ (ks : List (List ℕ)). key_of (kv_at kv) ∷ ks) keys,
      )
