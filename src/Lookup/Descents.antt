-- ===== src/Lookup/Descents.antt =====
-- Where a descent ends in a trie that nobody writes in.
use cuckoo_trie_vectorized.Base.{
  ℕ, zero, suc, ◌+◌, ◌-◌, ◌^◌, ◌<◌, ◌≡◌, refl, sym, ap, ◌∙◌, arith, subst, false, List, [], ◌∷◌,
  length, inl, inr,
}
use cuckoo_trie_vectorized.Entry.{Entry, entry_kv}
use cuckoo_trie_vectorized.Trie.{Trie, entry_at}
use cuckoo_trie_vectorized.Hash.{hash_to_bucket}
use cuckoo_trie_vectorized.Symbols.{Memory, get_string_symbol, get_jump_symbol}
use cuckoo_trie_vectorized.Symbols.Key.{key_bytes}
use cuckoo_trie_vectorized.Prefetch.{KeyPrefetcher, symbol_count}
use cuckoo_trie_vectorized.Prefetch.Injective.{get_string_symbol-le, end-symbol, count-pos}
use cuckoo_trie_vectorized.Keys.Order.{IsKv}
use cuckoo_trie_vectorized.Pairs.{still, find_root, read_entry_at}
use cuckoo_trie_vectorized.Fingers.{
  Finger, Descent, stopped, arrived, gave_up, out_of_fuel, store_path_entry, at_root, descend,
}
use cuckoo_trie_vectorized.Fingers.Steps.{Ends, descend-Ends}
use cuckoo_trie_vectorized.Lookup.Defs.{Objects}
use cuckoo_trie_vectorized.Lookup.Tree.{
  Follows, jump_path, IsOpen, HasLeaf, start, kv_symbol, IsTrie, root_cell,
}
use cuckoo_trie_vectorized.Lookup.Walk.{
  Follows-agree, HasLeaf-IsKey, length-jump_path, node_cases, IsLeaf,
}
use cuckoo_trie_vectorized.Lookup.Attempts.{
  IsSubtree-jump_size, leaf-IsSettled, IsOnPath, IsSettled, Stop,
}
use cuckoo_trie_vectorized.Lookup.Rounds.{try_descend-Onward}
use cuckoo_trie_vectorized.Lookup.Compare.{HasKey, HasKey-symbols, symbols-HasKey}

-- No inner node stands behind an END symbol.
not_open_behind_end :
    (k : ℕ → ℕ) (e : Entry) (d n : ℕ) (path : List ℕ)
    → Follows k (jump_path e d path)
    → length path + d ≡ suc n
    → k n ≡ 0
    → IsOpen path
    → ⊥
unfolding get_jump_symbol
not_open_behind_end k e zero n [] follows len end opened = omega (arith, len)
not_open_behind_end k e zero n (s ∷ path) follows len end opened =
    let same : length path ≡ n = omega (arith, len) in opened (sym follows.0 ∙ ap k same ∙ end)
not_open_behind_end k e (suc d) n path follows len end opened =
    let same : length (jump_path e d path) ≡ n = omega (arith, len, length-jump_path e d path) in
    omega (arith, follows.0, ap k same, end)

module _ (kv_at : Objects) (trie : Trie) (t : IsTrie kv_at trie) (memory : Memory)
    (are_bytes : (a : ℕ) → memory a < 256) (size key : ℕ) (size_fits : size < 2 ^ 31) where
  abbrev pub k : ℕ → ℕ
  k = get_string_symbol size (key_bytes memory key)

  abbrev pub root : Entry
  root = entry_at trie root_cell

  abbrev OnPath : Finger → Type 0
  OnPath =
      IsOnPath kv_at trie t k (get_string_symbol-le size (key_bytes memory key)) (symbol_count size)

  abbrev pub Stopped : Finger → Type 0
  Stopped =
      Stop kv_at trie t k (get_string_symbol-le size (key_bytes memory key)) (symbol_count size)

  abbrev pub Settled : Finger → Type 0
  Settled =
      IsSettled kv_at trie t k (get_string_symbol-le size (key_bytes memory key))
        (symbol_count size)

  -- At the only leaf that can have the key, or at an inner node where the key is missing. Behind the
  -- END symbol the leaf has the key.
  abbrev pub Landed : Descent → Type 0
  Landed (stopped s f) = Stopped f
  Landed (arrived f) = Settled f × HasKey kv_at memory size key (entry_kv f.containing_entry.value)
  Landed gave_up = ⊥
  Landed out_of_fuel = ⊥

  module _ (rooted : trie.is_empty ≡ false) where
    pub is_key : (kv : ℕ) → HasLeaf trie [] root kv → IsKv (kv_at kv)
    is_key kv below = (HasLeaf-IsKey trie kv_at (t.rooted rooted) below).is_kv

    pub matches :
        (kv : ℕ)
        → HasLeaf trie [] root kv
        → HasKey kv_at memory size key kv
        → (i : ℕ) → i < symbol_count size
        → kv_symbol kv_at kv i ≡ k i
    matches kv below has i in_key = HasKey-symbols kv_at memory size key kv (is_key kv below) has i

    start-OnPath : OnPath (at_root (find_root trie))
    unfolding find_root store_path_entry read_entry_at entry_at hash_to_bucket
    start-OnPath = record {
      path = [];
      len = omega arith;
      follows = tt;
      subtree = t.rooted rooted;
      inside = IsSubtree-jump_size (t.rooted rooted);
      on_top = λ other. refl;
      narrow = λ kv below same. below;
      stands = refl;
      reaches = start;
      in_table = (t.geometry.some_buckets, omega arith);
    }

    arrived-IsLeaf :
        (f : Finger)
        → (h : OnPath f) → f.prefix_len ≡ symbol_count size
        → IsLeaf trie kv_at h.path f.containing_entry.value
    arrived-IsLeaf f h len = elim (node_cases trie kv_at h.subtree) [
      | inl l ↦ l
      | inr inner ↦ elim inner [
        | inl j ↦ absurd (behind_end j.opened)
        | inr b ↦ absurd (behind_end b.opened)
      ]
    ]
      where
        behind_end : IsOpen h.path → ⊥
        behind_end opened =
            not_open_behind_end k f.containing_entry.value f.depth_in_jump (symbol_count size - 1)
              h.path h.follows (omega (arith, h.len, len, count-pos size))
              (end-symbol size (key_bytes memory key)) opened

    arrived-Landed : (f : Finger) → OnPath f → f.prefix_len ≡ symbol_count size → Landed (arrived f)
    arrived-Landed f h len = (
      leaf-IsSettled kv_at trie t k (get_string_symbol-le size (key_bytes memory key))
          (symbol_count size) f h l.is_leaf,
      has,
    )
      where
        l : IsLeaf trie kv_at h.path f.containing_entry.value
        l = arrived-IsLeaf f h len

        top : f.depth_in_jump ≡ 0
        top = h.on_top (λ e. omega (arith, e, l.is_leaf))

        has : HasKey kv_at memory size key (entry_kv f.containing_entry.value)
        has =
            symbols-HasKey kv_at memory size key (entry_kv f.containing_entry.value) l.is_kv
              are_bytes l.bytes
              (λ i in_key.
                Follows-agree (kv_symbol kv_at (entry_kv f.containing_entry.value)) k h.path i
                  l.follows
                  (subst (λ (n : ℕ). Follows k (jump_path f.containing_entry.value n h.path)) top
                    h.follows)
                  (omega (arith, in_key, len, h.len, top)))

    Ends-Landed :
        (d : Descent)
        → Ends trie (λ i. still trie) memory are_bytes size key false OnPath Stopped ⊥ d
        → Landed d
    Ends-Landed (stopped s f) h = h.0
    Ends-Landed (arrived f) h = arrived-Landed f h.0 h.1
    Ends-Landed gave_up h = h
    Ends-Landed out_of_fuel h = h

    pub descend-Landed :
        (uninitialized : KeyPrefetcher)
        → Landed (
            descend uninitialized trie
              (λ i. still trie)
              memory
              (at_root (find_root trie))
              size
              key
              false)
    unfolding store_path_entry
    descend-Landed uninitialized =
        Ends-Landed
          (descend uninitialized trie (λ i. still trie) memory (at_root (find_root trie)) size key
            false)
          (descend-Ends trie (λ i. still trie) memory are_bytes size key false OnPath Stopped ⊥
            (λ f h below.
              try_descend-Onward kv_at trie t k (get_string_symbol-le size (key_bytes memory key))
                (symbol_count size) f h below)
            uninitialized (at_root (find_root trie)) start-OnPath refl)
