-- ===== src/Update/Outcome.antt =====
-- The map that a trie stands for, after a leaf got another key object of its key.
use cuckoo_trie_vectorized.Base.{
  ℕ, ◌<◌, ◌≤◌, ◌≡◌, ◌↔◌, ◌⊎◌, refl, sym, ap, ◌∙◌, arith, subst, false, List, get_or, inl, inr,
  ℕ_discrete,
}
use cuckoo_trie_vectorized.Config.{type_leaf}
use cuckoo_trie_vectorized.Entry.{entry_type, entry_kv}
use cuckoo_trie_vectorized.Entry.Fields.{IsCanonical}
use cuckoo_trie_vectorized.Trie.{Trie, Cell, entry_at}
use cuckoo_trie_vectorized.Symbols.{Memory}
use cuckoo_trie_vectorized.Keys.Order.{IsKv, key_of}
use cuckoo_trie_vectorized.Prefetch.{KeyPrefetcher}
use cuckoo_trie_vectorized.Pairs.{EntryCopy}
use cuckoo_trie_vectorized.Fingers.{Finger}
use cuckoo_trie_vectorized.Lookup.{Objects}
use cuckoo_trie_vectorized.Lookup.Tree.{here, kv_symbol, IsTrie, Holds, root_cell}
use cuckoo_trie_vectorized.Lookup.Walk.{HasLeaf-IsKey, Reaches-HasLeaf}
use cuckoo_trie_vectorized.Lookup.Compare.{HasKey, HasKey-symbols}
use cuckoo_trie_vectorized.Lookup.Descents
use cuckoo_trie_vectorized.Lookup.Descents.{descend-Landed}
use cuckoo_trie_vectorized.Lookup.Refines.{ct_lookup-IsAnswer}
use cuckoo_trie_vectorized.Update.Headers.{Differ, back, Reaches-same, HasLeaf-same}
use cuckoo_trie_vectorized.Update.Rewrites.{IsReplaced}
use cuckoo_trie_vectorized.Update.Writes
use cuckoo_trie_vectorized.Update.Listing.{keys_of, LeafList-same}
use cuckoo_trie_vectorized.Iterators.Listed.{IsListed}
use cuckoo_trie_vectorized.Alloc.{trie_min_leaf}
use cuckoo_trie_vectorized.Update.Writes.{
  same_size, same_links, same_head, written-Differ, written-IsTrie, new_kv, still_rooted,
}
use cuckoo_trie_vectorized.Update.Defs.{kv_key_bytes}

words_discrete : Discrete (List ℕ)
words_discrete = hlevel ℕ_discrete

-- Two key objects of the same key.
abbrev pub SameKey : Objects → ℕ → ℕ → Type 0
SameKey kv_at a b = key_of (kv_at a) ≡ key_of (kv_at b)

-- The map after `kv` took the place of the object with its key, and the list of leaves.
abbrev pub IsReplacement : Objects → Trie → List ℕ → ℕ → Trie → Type 0
IsReplacement kv_at trie kvs kv trie' =
    IsTrie kv_at trie'
    × ((q : ℕ) → Holds trie' q ↔ ((q ≡ kv) ⊎ (Holds trie q × ¬ SameKey kv_at q kv)))
    × ((kvs' : List ℕ) × IsListed trie' kvs' × (keys_of kv_at kvs' ≡ keys_of kv_at kvs))

-- A new key object of at most 255 bytes, which are in memory.
pub record IsNew (kv_at : Objects) (memory : Memory) (kv : ℕ) : Type 0 where
  pub is_kv : IsKv (kv_at kv)
  pub short : (kv_at kv).key_size ≤ 255
  pub bytes : (i : ℕ) → get_or (kv_at kv).bytes i 0 < 256
  pub in_memory : HasKey kv_at memory (kv_at kv).key_size (kv_key_bytes kv) kv
  pub canonical : IsCanonical kv

module _ (kv_at : Objects) (trie : Trie) (t : IsTrie kv_at trie) (memory : Memory)
    (are_bytes : (a : ℕ) → memory a < 256) (uninitialized : KeyPrefetcher) (unread : EntryCopy)
    (kv : ℕ) (new : IsNew kv_at memory kv) (kvs : List ℕ) (l : IsListed trie kvs) where
  abbrev pub size : ℕ
  size = (kv_at kv).key_size

  abbrev pub key : ℕ
  key = kv_key_bytes kv

  abbrev pub Settled : Finger → Type 0
  Settled = Descents.Settled kv_at trie t memory are_bytes size key new.is_kv.size_fits

  module _ (rooted : trie.is_empty ≡ false) (f : Finger) (h : Settled f) where
    abbrev pub pos : Cell
    pos = f.containing_entry.last_pos

    abbrev pub old : ℕ
    old = entry_kv f.containing_entry.value

    abbrev pub written : Trie
    written = Writes.written kv_at trie t pos kv h.in_table

    old_there : entry_kv (entry_at trie pos) ≡ old
    old_there = ap entry_kv (sym h.stands)

    leaf_there : entry_type (entry_at trie pos) ≡ type_leaf
    leaf_there = ap entry_type (sym h.stands) ∙ h.is_leaf

    pub old-Holds : Holds trie old
    old-Holds = record { not_empty = rooted; leaf_below = h.reached }

    module _ (same : SameKey kv_at old kv) where
      differ : Differ trie written pos
      differ = written-Differ kv_at trie t pos kv h.in_table leaf_there

      kv_there : entry_kv (entry_at written pos) ≡ kv
      kv_there = new_kv kv_at trie t pos kv h.in_table new.canonical

      replaced : IsReplaced kv_at trie written pos differ
      replaced = record {
        is_kv = subst (λ (q : ℕ). IsKv (kv_at q)) (sym kv_there) new.is_kv;
        bytes =
            subst (λ (q : ℕ). (i : ℕ) → get_or (kv_at q).bytes i 0 < 256) (sym kv_there) new.bytes;
        symbols = λ i.
            ap (λ (q : ℕ). kv_symbol kv_at q i) kv_there
            ∙ HasKey-symbols kv_at memory size key kv new.is_kv new.in_memory i
            ∙ sym (
                HasKey-symbols kv_at memory size key old
                  (HasLeaf-IsKey trie kv_at (t.rooted rooted) h.reached).is_kv
                  (same ∙ new.in_memory) i)
            ∙ ap (λ (q : ℕ). kv_symbol kv_at q i) (sym old_there);
      }

      replaced-IsTrie : IsTrie kv_at written
      unfolding differ
      replaced-IsTrie = written-IsTrie kv_at trie t pos kv h.in_table leaf_there replaced

      rooted' : written.is_empty ≡ false
      rooted' = still_rooted kv_at trie t pos kv h.in_table leaf_there ∙ rooted

      kv-Holds : Holds written kv
      kv-Holds = record {
        not_empty = rooted';
        leaf_below =
            Reaches-HasLeaf written (Reaches-same trie written pos differ h.reaches)
              (here (back trie written pos differ).is_leaf kv_there);
      }

      -- A trie holds one object of a key.
      only_new : (q : ℕ) → Holds written q → SameKey kv_at q kv → q ≡ kv
      only_new q holds same_q =
          let answer =
            ct_lookup-IsAnswer kv_at written memory uninitialized unread size key replaced-IsTrie
              are_bytes new.short in
          let found = (answer.2 q).1 (holds, same_q ∙ new.in_memory) in
          let found_new = (answer.2 kv).1 (kv-Holds, new.in_memory) in cc (found, found_new)

      others_stay : (q : ℕ) → Holds trie q → ¬ SameKey kv_at q kv → Holds written q
      others_stay q holds differs = record {
        not_empty = rooted';
        leaf_below =
            HasLeaf-same trie written pos differ holds.leaf_below root_cell refl
              (λ e. differs (subst (λ (x : ℕ). SameKey kv_at x kv) (sym old_there ∙ e) same));
      }

      from_before : (q : ℕ) → Holds written q → ¬ SameKey kv_at q kv → Holds trie q
      from_before q holds differs = record {
        not_empty = rooted;
        leaf_below =
            HasLeaf-same written trie pos (back trie written pos differ) holds.leaf_below root_cell
              refl (λ e. differs (ap (λ (x : ℕ). key_of (kv_at x)) (sym e ∙ kv_there)));
      }

      written-IsListed :
          (kvs' : List ℕ) × IsListed written kvs' × (keys_of kv_at kvs' ≡ keys_of kv_at kvs)
      unfolding differ
      written-IsListed =
          let (kvs', listed, keys) =
            LeafList-same kv_at trie written pos differ
              (same_size kv_at trie t pos kv h.in_table leaf_there)
              (same_links kv_at trie t pos kv h.in_table)
              (ap (λ (q : ℕ). key_of (kv_at q)) kv_there
                ∙ sym same
                ∙ ap (λ (q : ℕ). key_of (kv_at q)) (sym old_there))
              (l.listed rooted) (entry_at written (trie_min_leaf written))
              (same_links kv_at trie t pos kv h.in_table (trie_min_leaf written)
                ∙ ap (λ (c : Cell). (entry_at trie c).link)
                    (same_head kv_at trie t pos kv h.in_table)) in
          (
            kvs',
            record { listed = λ e. listed; nothing = λ e. absurd (ground (arith, e, rooted')) },
            keys,
          )

      pub written-IsReplacement : IsReplacement kv_at trie kvs kv written
      written-IsReplacement = (
        replaced-IsTrie,
        λ q. (
          λ holds. elim (words_discrete (key_of (kv_at q)) (key_of (kv_at kv))) [
            | yes same_q ↦ inl (only_new q holds same_q)
            | no differs ↦ inr (from_before q holds differs, differs)
          ],
          λ e. elim e [
            | inl is_kv ↦ subst (Holds written) (sym is_kv) kv-Holds
            | inr other ↦ others_stay q other.0 other.1
          ],
        ),
        written-IsListed,
      )
