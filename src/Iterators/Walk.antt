-- ===== src/Iterators/Walk.antt =====
-- The list of leaves, as an iterator walks it.
use cuckoo_trie_vectorized.Base.{
  ℕ, zero, suc, ◌≡◌, ◌≢◌, refl, sym, ap, ◌∙◌, arith, subst, Bool, true, false, ==-ne, ◌==◌, if_rule,
  List, [], ◌∷◌, Option, none, some,
}
use cuckoo_trie_vectorized.Config.{type_leaf}
use cuckoo_trie_vectorized.Entry.{Entry, Locator, entry_type, entry_kv}
use cuckoo_trie_vectorized.Trie.{Trie, Cell, entry_at}
use cuckoo_trie_vectorized.Symbols.{Memory}
use cuckoo_trie_vectorized.Alloc.{trie_min_leaf}
use cuckoo_trie_vectorized.Prefetch.{KeyPrefetcher}
use cuckoo_trie_vectorized.Locks.{si_ok}
use cuckoo_trie_vectorized.Pairs.{EntryCopy, find_root, read_min_leaf, read_entry_at}
use cuckoo_trie_vectorized.Fingers.{Finger, at_root, init_finger, store_path_entry}
use cuckoo_trie_vectorized.Lookup.{Objects}
use cuckoo_trie_vectorized.Lookup.Tree.{IsTrie}
use cuckoo_trie_vectorized.Lookup.Children.{find_by_color-child}
use cuckoo_trie_vectorized.Iterators.Predecessors.{locator_to_entry}
use cuckoo_trie_vectorized.Iterators.Defs.{
  Iter, no_bucket, ct_iter_next_internal, assert_ok, next_leaf, ct_iter_next, goto_from,
  goto_advanced, goto_finish, ct_iter_goto_internal, ct_iter_goto,
}
use cuckoo_trie_vectorized.Iterators.Listed.{
  IsLink, LeafList, list_next, list_end, IsListed, iter_calls, listing,
}

calls_after :
    (n : ℕ) (trie : Trie) (iter : Iter) (result : Option ℕ) (iter' : Iter)
    (results : List (Option ℕ))
    → ct_iter_next trie iter ≡ some (result, iter')
    → iter_calls n trie iter' ≡ some results
    → iter_calls (suc n) trie iter ≡ some (result ∷ results)
unfolding iter_calls
calls_after n trie iter result iter' results first rest = rw (iter_calls, first, rest) refl

-- An iterator with a leaf, and one at its end.
abbrev on_leaf : Bool → EntryCopy → Iter
on_leaf report_current leaf = record {
  is_exhausted = false;
  report_current = report_current;
  leaf = leaf;
}

abbrev exhausted : Bool → EntryCopy → Iter
exhausted report_current leaf = record {
  is_exhausted = true;
  report_current = report_current;
  leaf = leaf;
}

exhausted_calls :
    (n : ℕ) (trie : Trie) (r : Bool) (leaf : EntryCopy)
    → iter_calls n trie (exhausted r leaf) ≡ some (listing n [])
unfolding iter_calls ct_iter_next
exhausted_calls zero trie r leaf = refl
exhausted_calls (suc n) trie r leaf =
    calls_after n trie (exhausted r leaf) none (exhausted r leaf) (listing n []) refl
      (exhausted_calls n trie r leaf)

module _ (kv_at : Objects) (trie : Trie) (t : IsTrie kv_at trie) where
  -- The search follows a link.
  follow_link :
      (link : Locator) (pos : Cell)
      → IsLink trie link pos
      → (found : EntryCopy) × (locator_to_entry trie link ≡ some found)
        × (found.value ≡ entry_at trie pos)
  unfolding locator_to_entry
  follow_link link pos h =
      let (found, e, place, value, inside) =
        find_by_color-child kv_at trie t h.hash h.in_range h.tag_fits pos link.color h.valid
          h.only in
      (found, rw (← h.bucket_eq, ← h.tag_eq) e, value ∙ ap (entry_at trie) place)

  not_last : (link : Locator) (pos : Cell) → IsLink trie link pos → link.primary_bucket ≢ no_bucket
  not_last link pos h e = omega (arith, e, h.bucket_eq, h.in_range, t.geometry.addressable)

  internal_next :
      (r : Bool) (leaf : EntryCopy) (pos : Cell)
      → IsLink trie leaf.value.link pos
      → entry_type (entry_at trie pos) ≡ type_leaf
      → (found : EntryCopy) × (ct_iter_next_internal trie (on_leaf r leaf)
          ≡ some (si_ok, on_leaf r found))
        × (found.value ≡ entry_at trie pos)
  unfolding ct_iter_next_internal
  internal_next r leaf pos h is_leaf =
      let (found, e, value) = follow_link leaf.value.link pos h in
      (found, rw (ct_iter_next_internal, e, value, is_leaf) refl, value)

  next_end :
      (leaf : EntryCopy)
      → leaf.value.link.primary_bucket ≡ no_bucket
      → ct_iter_next trie (on_leaf false leaf) ≡ some (none, exhausted false leaf)
  unfolding ct_iter_next
  next_end leaf last = rw (last) refl

  next_step :
      (leaf : EntryCopy) (pos : Cell)
      → IsLink trie leaf.value.link pos
      → entry_type (entry_at trie pos) ≡ type_leaf
      → (found : EntryCopy) × (ct_iter_next trie (on_leaf false leaf)
          ≡ some (some (entry_kv (entry_at trie pos)), on_leaf false found))
        × (found.value ≡ entry_at trie pos)
  unfolding ct_iter_next next_leaf assert_ok
  next_step leaf pos h is_leaf =
      let (found, e, value) = internal_next false leaf pos h is_leaf in
      let inner : leaf.value.link.primary_bucket ≢ no_bucket = not_last leaf.value.link pos h in
      (
        found,
        rw (==-ne leaf.value.link.primary_bucket no_bucket inner, e)
            (ap (λ (x : Entry). some (some (entry_kv x), on_leaf false found)) value),
        value,
      )

  -- An iterator on a leaf that it has reported.
  walk_calls :
      (n : ℕ) (leaf : EntryCopy) (kvs : List ℕ)
      → (e : Entry) → leaf.value ≡ e
      → LeafList trie e kvs
      → iter_calls n trie (on_leaf false leaf) ≡ some (listing n kvs)
  unfolding iter_calls
  walk_calls zero leaf kvs e stands l = refl
  walk_calls (suc n) leaf [] e stands (list_end last) =
      calls_after n trie (on_leaf false leaf) none (exhausted false leaf) (listing n [])
        (next_end leaf (ap (λ (x : Entry). x.link.primary_bucket) stands ∙ last))
        (exhausted_calls n trie false leaf)
  walk_calls (suc n) leaf (kv ∷ kvs) e stands (list_next pos h is_leaf same rest) =
      let (found, first, value) =
        next_step leaf pos (subst (λ (x : Entry). IsLink trie x.link pos) (sym stands) h) is_leaf in
      calls_after n trie (on_leaf false leaf) (some kv) (on_leaf false found) (listing n kvs)
        (first ∙ ap (λ (x : ℕ). some (some x, on_leaf false found)) same)
        (walk_calls n found kvs (entry_at trie pos) value rest)

  -- An iterator that still has to report its leaf.
  report_calls :
      (n : ℕ) (leaf : EntryCopy) (kv : ℕ) (kvs : List ℕ)
      → (e : Entry) → leaf.value ≡ e
      → entry_kv e ≡ kv
      → LeafList trie e kvs
      → iter_calls n trie (on_leaf true leaf) ≡ some (listing n (kv ∷ kvs))
  unfolding iter_calls ct_iter_next
  report_calls zero leaf kv kvs e stands same rest = refl
  report_calls (suc n) leaf kv kvs e stands same rest =
      calls_after n trie (on_leaf true leaf) (some kv) (on_leaf false leaf) (listing n kvs)
        (ap (λ (x : ℕ). some (some x, on_leaf false leaf)) (ap entry_kv stands ∙ same))
        (walk_calls n leaf kvs e stands rest)

  -- An iterator that `ct_iter_goto` placed.
  abbrev IsPlacedAt : List ℕ → Option Iter → Type 0
  IsPlacedAt kvs placed =
      (iter : Iter) × (placed ≡ some iter)
      × ((n : ℕ) → iter_calls n trie iter ≡ some (listing n kvs))

  -- From the leaf before the first one to report.
  finish-IsPlacedAt :
      (r : Bool) (leaf : EntryCopy) (kvs : List ℕ)
      → (e : Entry) → leaf.value ≡ e
      → LeafList trie e kvs
      → IsPlacedAt kvs (goto_finish trie (some (on_leaf r leaf)))
  unfolding goto_finish goto_advanced assert_ok
  finish-IsPlacedAt r leaf [] e stands (list_end last) = (
    exhausted r leaf,
    rw (ap (λ (x : Entry). x.link.primary_bucket) stands ∙ last) refl,
    λ n. exhausted_calls n trie r leaf,
  )
  finish-IsPlacedAt r leaf (kv ∷ kvs) e stands (list_next pos h is_leaf same rest) =
      let link : IsLink trie leaf.value.link pos =
        subst (λ (x : Entry). IsLink trie x.link pos) (sym stands) h in
      let inner : leaf.value.link.primary_bucket ≢ no_bucket = not_last leaf.value.link pos link in
      let (found, e', value) = internal_next r leaf pos link is_leaf in
      (
        on_leaf true found,
        rw (==-ne leaf.value.link.primary_bucket no_bucket inner, e') refl,
        λ n. report_calls n found kv kvs (entry_at trie pos) value same rest,
      )

  -- Nothing to report, whatever leaf the iterator has.
  over-IsPlacedAt :
      (r : Bool) (leaf : EntryCopy) → IsPlacedAt [] (goto_finish trie (some (exhausted r leaf)))
  unfolding goto_finish
  over-IsPlacedAt r leaf =
      if_rule (λ (placed : Option Iter). IsPlacedAt [] placed)
        (leaf.value.link.primary_bucket == no_bucket) (some (exhausted r leaf))
        (some (exhausted r leaf))
        (λ last. (exhausted r leaf, refl, λ n. exhausted_calls n trie r leaf))
        (λ more. (exhausted r leaf, refl, λ n. exhausted_calls n trie r leaf))

-- In a trie that nobody writes in, whose leaves are linked in a list, ct_iter_goto with the empty key
-- returns from any state of the iterator, also in an empty trie, and any number of calls of
-- ct_iter_next after it return the key objects of the list in their order and then only NULL.
pub ct_iter_goto-iter_calls :
    (kv_at : Objects) (trie : Trie) (memory : Memory) (uninitialized : KeyPrefetcher)
    (unread : EntryCopy) (iter : Iter) (key_bytes : ℕ) (kvs : List ℕ)
    → IsTrie kv_at trie
    → IsListed trie kvs
    → (iter' : Iter) × (ct_iter_goto kv_at uninitialized unread trie memory iter 0 key_bytes
        ≡ some iter')
      × ((n : ℕ) → iter_calls n trie iter' ≡ some (listing n kvs))
unfolding ct_iter_goto ct_iter_goto_internal goto_from init_finger store_path_entry assert_ok
    read_min_leaf read_entry_at
ct_iter_goto-iter_calls kv_at trie memory uninitialized unread iter key_bytes kvs t l =
    if_rule
      (λ (start : Finger × Option Cell). IsPlacedAt kv_at trie t kvs (
        goto_finish trie (
          assert_ok (
            goto_from kv_at uninitialized trie memory (record iter { is_exhausted = false }) 0
              key_bytes start))))
      trie.is_empty (at_root unread, none)
      (at_root (find_root trie), some (find_root trie).last_pos)
      (λ empty.
        subst
          (λ (objects : List ℕ).
            IsPlacedAt kv_at trie t objects
              (goto_finish trie (some (exhausted iter.report_current iter.leaf))))
          (sym (l.nothing empty)) (over-IsPlacedAt kv_at trie t iter.report_current iter.leaf))
      (λ rooted.
        finish-IsPlacedAt kv_at trie t iter.report_current (read_min_leaf trie) kvs
          (entry_at trie (trie_min_leaf trie)) refl (l.listed rooted))
