-- ===== src/Update/Refines.antt =====
-- `ct_update` against the map that a trie stands for.
use cuckoo_trie_vectorized.Base.{
  ℕ, ◌/◌, ◌^◌, ◌<◌, ◌≡◌, ◌≢◌, ◌⊎◌, refl, sym, ap, ◌∙◌, arith, subst, true, false, ==-ne, ==_refl,
  if_rule, List, [], Option, none, some, inl, inr,
}
use cuckoo_trie_vectorized.Config.{type_leaf}
use cuckoo_trie_vectorized.Entry.{
  Entry, entry_type, entry_kv, entry_set_kv, entry_bits, header_qword,
}
use cuckoo_trie_vectorized.Trie.{Trie, Cell, entry_at}
use cuckoo_trie_vectorized.Symbols.{Memory}
use cuckoo_trie_vectorized.Keys.{Sign, less, equal, greater, kv_key_compare}
use cuckoo_trie_vectorized.Keys.Order.{IsKv, key_of, lexicographic, kv_key_compare-lexicographic}
use cuckoo_trie_vectorized.Prefetch.{KeyPrefetcher}
use cuckoo_trie_vectorized.Locks.{Status, si_ok, si_fail}
use cuckoo_trie_vectorized.Relocate.{set_entry}
use cuckoo_trie_vectorized.Pairs.{EntryCopy, still, entries_equal, find_root}
use cuckoo_trie_vectorized.Fingers.{
  Finger, Descent, stopped, arrived, gave_up, out_of_fuel, store_path_entry, at_root, init_finger,
  descend,
}
use cuckoo_trie_vectorized.Lookup.{Objects}
use cuckoo_trie_vectorized.Lookup.Tree.{HasLeaf, IsTrie, Holds, root_cell}
use cuckoo_trie_vectorized.Lookup.Compare.{lexicographic_refl}
use cuckoo_trie_vectorized.Lookup.Descents
use cuckoo_trie_vectorized.Lookup.Descents.{descend-Landed}
use cuckoo_trie_vectorized.Update.Defs.{
  s_ok, s_notfound, kv_key_bytes, update_entry_single_threaded, replace_kv, replace_if_equal,
  update_node, update_descent, update_from, ct_update_internal, update_reply, ct_update_rounds,
  ct_update,
}
use cuckoo_trie_vectorized.Iterators.Listed.{IsListed}
use cuckoo_trie_vectorized.Update.Outcome
use cuckoo_trie_vectorized.Update.Outcome.{
  SameKey, IsReplacement, IsNew, old-Holds, written-IsReplacement,
}

entries_equal_self : (e : Entry) → entries_equal e e ≡ true
unfolding entries_equal
entries_equal_self e = rw (==_refl (header_qword e), ==_refl (entry_bits e / 2 ^ 56)) refl

pub update_entry-still :
    (trie : Trie) (copy : EntryCopy) (v : Entry)
    → copy.value ≡ entry_at trie copy.last_pos
    → update_entry_single_threaded trie copy v
      ≡ some (set_entry trie copy.last_pos v, record copy { value = v; last_seq = 0 })
unfolding update_entry_single_threaded
update_entry-still trie copy v stands =
    let unchanged : entries_equal (entry_at trie copy.last_pos) copy.value ≡ true =
      subst (λ (e : Entry). entries_equal (entry_at trie copy.last_pos) e ≡ true) (sym stands)
        (entries_equal_self (entry_at trie copy.last_pos)) in
    rw (unchanged) refl

-- An unchanged leaf gets the new key object.
replace_kv-still :
    (trie : Trie) (copy : EntryCopy) (kv : ℕ)
    → copy.value ≡ entry_at trie copy.last_pos
    → replace_kv trie copy kv
      ≡ some (si_ok, set_entry trie copy.last_pos (entry_set_kv (entry_at trie copy.last_pos) kv))
unfolding replace_kv
replace_kv-still trie copy kv stands =
    rw (replace_kv, update_entry-still trie copy (entry_set_kv copy.value kv) stands)
      (ap (λ (e : Entry). some (si_ok, set_entry trie copy.last_pos (entry_set_kv e kv))) stands)

module _ (kv_at : Objects) (trie : Trie) (t : IsTrie kv_at trie) (memory : Memory)
    (are_bytes : (a : ℕ) → memory a < 256) (uninitialized : KeyPrefetcher) (unread : EntryCopy)
    (kv : ℕ) (new : IsNew kv_at memory kv) (kvs : List ℕ) (l : IsListed trie kvs) where
  abbrev size : ℕ
  size = (kv_at kv).key_size

  abbrev key : ℕ
  key = kv_key_bytes kv

  abbrev Landed : Descent → Type 0
  Landed = Descents.Landed kv_at trie t memory are_bytes size key new.is_kv.size_fits

  abbrev Settled : Finger → Type 0
  Settled = Descents.Settled kv_at trie t memory are_bytes size key new.is_kv.size_fits

  abbrev IsMissing : Type 0
  IsMissing = (q : ℕ) → Holds trie q → ¬ SameKey kv_at q kv

  -- What a round of `ct_update` must report.
  abbrev Reported : Option (Status × Trie) → Type 0
  Reported result =
      ((result ≡ some (si_fail, trie)) × IsMissing)
      ⊎ ((trie' : Trie) × (result ≡ some (si_ok, trie'))
          × IsReplacement kv_at trie kvs kv trie'
          × ((q : ℕ) × Holds trie q × SameKey kv_at q kv))

  module _ (rooted : trie.is_empty ≡ false) where
    abbrev is_key : (q : ℕ) → HasLeaf trie [] (entry_at trie root_cell) q → IsKv (kv_at q)
    is_key = Descents.is_key kv_at trie t memory are_bytes size key new.is_kv.size_fits rooted

    -- The only leaf that can have the key has another one.
    other_key :
        (f : Finger) (sign : Sign)
        → Settled f
        → kv_key_compare (kv_at (entry_kv f.containing_entry.value)) (kv_at kv) ≡ sign
        → sign ≢ equal
        → IsMissing
    other_key f sign h e differs q holds same =
        let held = h.only q holds.leaf_below (
          Descents.matches kv_at trie t memory are_bytes size key new.is_kv.size_fits rooted q
            holds.leaf_below (same ∙ new.in_memory)) in
        differs (
          sym e
          ∙ ap (λ (x : ℕ). kv_key_compare (kv_at x) (kv_at kv)) (sym held)
          ∙ (kv_key_compare-lexicographic (kv_at q) (kv_at kv) (is_key q holds.leaf_below)
              new.is_kv).0
          ∙ ap (λ (xs : List ℕ). lexicographic xs (key_of (kv_at kv))) same
          ∙ lexicographic_refl (key_of (kv_at kv)))

    SameKey-Reported :
        (f : Finger) (h : Settled f)
        → SameKey kv_at (entry_kv f.containing_entry.value) kv
        → Reported (replace_kv trie f.containing_entry kv)
    SameKey-Reported f h same = inr (
      Outcome.written kv_at trie t memory are_bytes uninitialized unread kv new kvs l rooted f h,
      replace_kv-still trie f.containing_entry kv h.stands,
      written-IsReplacement kv_at trie t memory are_bytes uninitialized unread kv new kvs l rooted f
          h same,
      (
        entry_kv f.containing_entry.value,
        old-Holds kv_at trie t memory are_bytes uninitialized unread kv new kvs l rooted f h,
        same,
      ),
    )

    compared-Reported :
        (f : Finger) (sign : Sign)
        → Settled f
        → kv_key_compare (kv_at (entry_kv f.containing_entry.value)) (kv_at kv) ≡ sign
        → Reported (replace_if_equal trie f.containing_entry kv sign)
    unfolding replace_if_equal
    compared-Reported f equal h e = SameKey-Reported f h (
        (kv_key_compare-lexicographic (kv_at (entry_kv f.containing_entry.value)) (kv_at kv)
            (is_key (entry_kv f.containing_entry.value) h.reached) new.is_kv).1
          e)
    compared-Reported f less h e = inl (refl, other_key f less h e (λ q. ground (arith, q)))
    compared-Reported f greater h e = inl (refl, other_key f greater h e (λ q. ground (arith, q)))

    Settled-Reported : (f : Finger) → Settled f → Reported (update_node kv_at trie kv f)
    unfolding update_node
    Settled-Reported f h = rw (h.is_leaf) (compared-Reported f _ h refl)

    Landed-Reported : (d : Descent) → Landed d → Reported (update_descent kv_at trie kv d)
    unfolding update_descent update_node
    Landed-Reported (stopped s f) (inl h) = Settled-Reported f h
    Landed-Reported (stopped s f) (inr h) = inl (
      rw (==-ne (entry_type f.containing_entry.value) type_leaf h.is_inner) refl,
      λ q holds same. h.none_below q holds.leaf_below (
          Descents.matches kv_at trie t memory are_bytes size key new.is_kv.size_fits rooted q
            holds.leaf_below (same ∙ new.in_memory)),
    )
    Landed-Reported (arrived f) (h, has) = Settled-Reported f h
    Landed-Reported gave_up h = absurd h
    Landed-Reported out_of_fuel h = absurd h

  internal-Reported : Reported (ct_update_internal kv_at uninitialized unread trie memory kv)
  unfolding ct_update_internal update_from init_finger store_path_entry
  internal-Reported =
      if_rule
        (λ (start : Finger × Option Cell).
          Reported (update_from kv_at uninitialized trie memory kv start))
        trie.is_empty (at_root unread, none)
        (at_root (find_root trie), some (find_root trie).last_pos)
        (λ empty. inl (refl, λ q holds same. absurd (ground (arith, empty, holds.not_empty))))
        (λ rooted.
          Landed-Reported rooted
            (descend uninitialized trie (λ i. still trie) memory (at_root (find_root trie)) size key
              false)
            (descend-Landed kv_at trie t memory are_bytes size key new.is_kv.size_fits rooted
              uninitialized))

-- In a trie that nobody else writes in, whose leaves are linked in a list, for a new key object of at
-- most 255 bytes, which are in memory, ct_update always returns. It reports S_NOTFOUND and leaves the trie as it was if no object of the trie has
-- the new one's key. Else it reports S_OK, and the new trie is well formed and holds the new object in
-- place of the object with its key, and every other object as before. Its leaves are linked in a
-- list of the same keys in the same order.
pub ct_update-IsReplacement :
    (kv_at : Objects) (trie : Trie) (memory : Memory) (uninitialized : KeyPrefetcher)
    (unread : EntryCopy) (kv : ℕ) (kvs : List ℕ)
    → IsTrie kv_at trie
    → IsListed trie kvs
    → ((a : ℕ) → memory a < 256)
    → IsNew kv_at memory kv
    → ((ct_update kv_at uninitialized unread trie memory kv ≡ some (s_notfound, trie))
        × ((q : ℕ) → Holds trie q → ¬ SameKey kv_at q kv))
      ⊎ ((trie' : Trie) × (ct_update kv_at uninitialized unread trie memory kv ≡ some (s_ok, trie'))
          × IsReplacement kv_at trie kvs kv trie'
          × ((q : ℕ) × Holds trie q × SameKey kv_at q kv))
unfolding ct_update ct_update_rounds update_reply
ct_update-IsReplacement kv_at trie memory uninitialized unread kv kvs t l are_bytes new =
    elim (internal-Reported kv_at trie t memory are_bytes uninitialized unread kv new kvs l) [
      | inl failed ↦ inl (rw (failed.0) refl, failed.1)
      | inr (trie', ok, replaced, held) ↦ inr (trie', rw (ok) refl, replaced, held)
    ]
