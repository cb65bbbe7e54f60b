-- ===== src/Lookup/Refines.antt =====
-- `ct_lookup` against the map that a trie stands for.
use cuckoo_trie_vectorized.Base.{
  ℕ, ◌^◌, ◌<◌, ◌≤◌, ◌≡◌, ◌≢◌, ◌↔◌, refl, sym, ap, ◌∙◌, arith, subst, false, ==-ne, if_rule, [],
  Option, none, some, inl, inr,
}
use cuckoo_trie_vectorized.Config.{type_leaf}
use cuckoo_trie_vectorized.Entry.{Entry, entry_type, entry_kv}
use cuckoo_trie_vectorized.Trie.{Trie, Cell, entry_at}
use cuckoo_trie_vectorized.Symbols.{Memory}
use cuckoo_trie_vectorized.Prefetch.{KeyPrefetcher}
use cuckoo_trie_vectorized.Keys.{Sign, equal, less, greater, kv_key_compare_to}
use cuckoo_trie_vectorized.Keys.Order.{IsKv}
use cuckoo_trie_vectorized.Pairs.{EntryCopy, still, find_root}
use cuckoo_trie_vectorized.Fingers.{
  Finger, Descent, stopped, arrived, gave_up, out_of_fuel, store_path_entry, init_finger, at_root,
  descend,
}
use cuckoo_trie_vectorized.Lookup.Defs.{
  Objects, bytes_at, if_equal, lookup_result, lookup_from, ct_lookup,
}
use cuckoo_trie_vectorized.Lookup.Tree.{HasLeaf, IsTrie, Holds, root_cell}
use cuckoo_trie_vectorized.Lookup.Descents
use cuckoo_trie_vectorized.Lookup.Descents.{descend-Landed}
use cuckoo_trie_vectorized.Lookup.Compare.{HasKey, compare-HasKey, HasKey-compare}

module _ (kv_at : Objects) (trie : Trie) (t : IsTrie kv_at trie) (memory : Memory)
    (are_bytes : (a : ℕ) → memory a < 256) (size key : ℕ) (size_fits : size < 2 ^ 31) where
  abbrev root : Entry
  root = entry_at trie root_cell

  abbrev Landed : Descent → Type 0
  Landed = Descents.Landed kv_at trie t memory are_bytes size key size_fits

  abbrev Settled : Finger → Type 0
  Settled = Descents.Settled kv_at trie t memory are_bytes size key size_fits

  -- What a lookup of the key must return.
  abbrev pub IsAnswer : Option ℕ → Type 0
  IsAnswer r = (kv : ℕ) → (r ≡ some kv) ↔ (Holds trie kv × HasKey kv_at memory size key kv)

  abbrev pub Answered : Option (Option ℕ) → Type 0
  Answered result = (r : Option ℕ) × (result ≡ some r) × IsAnswer r

  module _ (rooted : trie.is_empty ≡ false) where
    abbrev is_key : (kv : ℕ) → HasLeaf trie [] root kv → IsKv (kv_at kv)
    is_key = Descents.is_key kv_at trie t memory are_bytes size key size_fits rooted

    some-IsAnswer :
        (kv : ℕ)
        → HasLeaf trie [] root kv
        → HasKey kv_at memory size key kv
        → ((other : ℕ)
            → HasLeaf trie [] root other
            → HasKey kv_at memory size key other
            → other ≡ kv)
        → IsAnswer (some kv)
    some-IsAnswer kv below has only other = (
      λ e.
          let same : kv ≡ other = cc (e) in
          (
            record { not_empty = rooted; leaf_below = subst (HasLeaf trie [] root) same below },
            subst (HasKey kv_at memory size key) same has,
          ),
      λ h. ap (λ (v : ℕ). some v) (sym (only other h.0.leaf_below h.1)),
    )

    none-IsAnswer :
        ((other : ℕ) → HasLeaf trie [] root other → ¬ HasKey kv_at memory size key other)
        → IsAnswer none
    none-IsAnswer missing other =
        (λ e. absurd (ground (arith, e)), λ h. absurd (missing other h.0.leaf_below h.1))

    only_key :
        (f : Finger)
        → Settled f
        → (other : ℕ) → HasLeaf trie [] root other
        → HasKey kv_at memory size key other
        → other ≡ entry_kv f.containing_entry.value
    only_key f h other below has =
        h.only other below
          (Descents.matches kv_at trie t memory are_bytes size key size_fits rooted other below has)

    -- The only leaf that can have the key has another one.
    other_key :
        (f : Finger) (sign : Sign)
        → Settled f
        → kv_key_compare_to
            (kv_at (entry_kv f.containing_entry.value))
            size
            (bytes_at memory key size)
          ≡ sign
        → sign ≢ equal
        → (other : ℕ) → HasLeaf trie [] root other
        → ¬ HasKey kv_at memory size key other
    other_key f sign h e differs other below has =
        let same = only_key f h other below has in
        differs (
          sym e
          ∙ ap (λ (kv : ℕ). kv_key_compare_to (kv_at kv) size (bytes_at memory key size)) (sym same)
          ∙ HasKey-compare kv_at memory size key other (is_key other below) size_fits has)

    Settled-IsAnswer :
        (f : Finger) (sign : Sign)
        → Settled f
        → kv_key_compare_to
            (kv_at (entry_kv f.containing_entry.value))
            size
            (bytes_at memory key size)
          ≡ sign
        → IsAnswer (if_equal sign (entry_kv f.containing_entry.value))
    Settled-IsAnswer f equal h e =
        some-IsAnswer (entry_kv f.containing_entry.value) h.reached
          (compare-HasKey kv_at memory size key (entry_kv f.containing_entry.value)
            (is_key (entry_kv f.containing_entry.value) h.reached) size_fits e)
          (only_key f h)
    Settled-IsAnswer f less h e = none-IsAnswer (other_key f less h e (λ q. ground (arith, q)))
    Settled-IsAnswer f greater h e =
        none-IsAnswer (other_key f greater h e (λ q. ground (arith, q)))

    Landed-Answered :
        (d : Descent) → Landed d → Answered (lookup_result kv_at size (bytes_at memory key size) d)
    unfolding lookup_result
    Landed-Answered (stopped s f) (inl h) = (
      if_equal
          (kv_key_compare_to (kv_at (entry_kv f.containing_entry.value)) size
            (bytes_at memory key size))
          (entry_kv f.containing_entry.value),
      rw (h.is_leaf) refl,
      Settled-IsAnswer f _ h refl,
    )
    Landed-Answered (stopped s f) (inr h) = (
      none,
      rw (==-ne (entry_type f.containing_entry.value) type_leaf h.is_inner) refl,
      none-IsAnswer (λ other below has. h.none_below other below (
          Descents.matches kv_at trie t memory are_bytes size key size_fits rooted other below
            has)),
    )
    Landed-Answered (arrived f) (h, has) = (
      some (entry_kv f.containing_entry.value),
      rw (h.is_leaf) refl,
      some-IsAnswer (entry_kv f.containing_entry.value) h.reached has (only_key f h),
    )
    Landed-Answered gave_up h = absurd h
    Landed-Answered out_of_fuel h = absurd h

-- In a trie that nobody writes in, for a key of at most 255 bytes in a memory of bytes, ct_lookup
-- always returns. It returns a key object exactly if the trie holds that object and it has the bytes
-- of the key, and NULL if there is none: the table is a map from keys to key objects.
pub ct_lookup-IsAnswer :
    (kv_at : Objects) (trie : Trie) (memory : Memory) (uninitialized : KeyPrefetcher)
    (unread : EntryCopy) (size key : ℕ)
    → IsTrie kv_at trie
    → ((a : ℕ) → memory a < 256)
    → size ≤ 255
    → (r : Option ℕ) × (ct_lookup kv_at uninitialized unread trie (λ i. still trie) memory size key
        ≡ some r)
      × ((kv : ℕ) → (r ≡ some kv) ↔ (Holds trie kv × HasKey kv_at memory size key kv))
unfolding ct_lookup lookup_from init_finger store_path_entry
ct_lookup-IsAnswer kv_at trie memory uninitialized unread size key t are_bytes short =
    let size_fits : size < 2 ^ 31 = omega (arith, short) in
    if_rule
      (λ (start : Finger × Option Cell).
        Answered kv_at trie t memory are_bytes size key size_fits
          (lookup_from kv_at uninitialized trie (λ i. still trie) memory size key start))
      trie.is_empty (at_root unread, none)
      (at_root (find_root trie), some (find_root trie).last_pos)
      (λ empty. (
        none,
        refl,
        λ kv. (λ e. absurd (ground (arith, e)), λ h. absurd (ground (arith, empty, h.0.not_empty))),
      ))
      (λ rooted.
        Landed-Answered kv_at trie t memory are_bytes size key size_fits rooted
          (descend uninitialized trie (λ i. still trie) memory (at_root (find_root trie)) size key
            false)
          (descend-Landed kv_at trie t memory are_bytes size key size_fits rooted uninitialized))
