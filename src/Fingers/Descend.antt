-- ===== src/Fingers/Descend.antt =====
-- The descent along a key while other threads write: it ends, and the finger knows where it is.
use cuckoo_trie_vectorized.Base.{
  ℕ, suc, ◌<◌, ◌≡◌, refl, ap, sym, ◌∙◌, if_rule, Bool, true, false, ◌==◌, List, [], ◌∷◌, ◌++◌,
  Option, none, some, length, length-append, ◌≤◌, arith,
}
use cuckoo_trie_vectorized.Config.{type_leaf, type_jump, max_key_symbols}
use cuckoo_trie_vectorized.Entry.{
  Entry, entry_type, entry_color, entry_jump_size, entry_child_color,
}
use cuckoo_trie_vectorized.Trie.{Trie, Cell}
use cuckoo_trie_vectorized.Hash.{hash_to_bucket, hash_to_tag}
use cuckoo_trie_vectorized.BitString.{get_bit}
use cuckoo_trie_vectorized.Symbols.{Memory, get_string_symbol, get_jump_symbol}
use cuckoo_trie_vectorized.Symbols.Key.{key_bytes}
use cuckoo_trie_vectorized.Prefetch.{KeyPrefetcher, symbol_count}
use cuckoo_trie_vectorized.Prefetch.Room.{symbol_count-fits}
use cuckoo_trie_vectorized.Prefetch.Steps.{prefix_hash}
use cuckoo_trie_vectorized.Pairs.{
  EntryCopy, View, find_root, find_entry_in_pair_by_color, find_entry_in_pair_by_parent,
}
use cuckoo_trie_vectorized.Fingers.Defs.{
  Finger, PathEntry, Attempt, refused, moved, lost, Descent, stopped, arrived, gave_up, out_of_fuel,
  finger_extend_prefix_known_hash, finger_node_changed, at_root, init_finger, arrive_at,
  child_bitmap, descend_jump, descend_bitmap, try_descend, descend,
}
use cuckoo_trie_vectorized.Fingers.Steps.{Ends, descend-Ends}

-- The last entry of the path is the copy of the node that holds the finger.
pub record IsTracked (f : Finger) : Type 0 where
  pub above : List PathEntry
  pub last_hash : ℕ
  pub path_eq :
      f.path ≡ above ++ (record { entry = f.containing_entry; prefix_hash = last_hash }) ∷ []

-- The finger has the hash of the prefix that it walked down, and its path has the root and at most
-- one node for each symbol of the prefix.
pub record IsWalked (trie : Trie) (symbol : ℕ → ℕ) (track : Bool) (f : Finger) : Type 0 where
  pub hash_eq : f.prefix_hash ≡ prefix_hash trie symbol f.prefix_len
  pub tracked : track ≡ true → IsTracked f
  pub path_len : length f.path ≤ suc f.prefix_len

-- How a descent may end: with a finger at the symbol that it could not descend, or behind the last
-- symbol, or with a search that gave up.
abbrev pub Walked : Trie → (ℕ → ℕ) → ℕ → Bool → Descent → Type 0
Walked trie symbol count track (stopped s f) =
    IsWalked trie symbol track f
    × (length f.path ≤ max_key_symbols)
    × (f.prefix_len < count)
    × (s ≡ symbol f.prefix_len)
Walked trie symbol count track (arrived f) =
    IsWalked trie symbol track f × (length f.path ≤ max_key_symbols) × (f.prefix_len ≡ count)
Walked trie symbol count track gave_up = Unit {0}
Walked trie symbol count track out_of_fuel = ⊥

node_changed-same :
    (f : Finger) (track : Bool)
    → ((finger_node_changed f track).prefix_hash ≡ f.prefix_hash)
      × ((finger_node_changed f track).prefix_len ≡ f.prefix_len)
      × (length (finger_node_changed f track).path ≤ suc (length f.path))
unfolding finger_node_changed
node_changed-same f true = (refl, refl, omega (arith, length-append f.path (_ ∷ [])))
node_changed-same f false = (refl, refl, omega arith)

node_changed-IsTracked : (f : Finger) → IsTracked (finger_node_changed f true)
unfolding finger_node_changed
node_changed-IsTracked f = record { above = f.path; last_hash = f.prefix_hash; path_eq = refl }

module _ (trie : Trie) (symbol : ℕ → ℕ) (track : Bool) (f : Finger)
    (h : IsWalked trie symbol track f) where
  -- One symbol on.
  abbrev Onward : Attempt → Type 0
  Onward refused = IsWalked trie symbol track f
  Onward (moved f') = IsWalked trie symbol track f' × (f'.prefix_len ≡ suc f.prefix_len)
  Onward lost = Unit {0}

  abbrev next_hash : ℕ
  next_hash = prefix_hash trie symbol (suc f.prefix_len)

  arrive_at-Onward :
      (deeper : Finger) (found : Option EntryCopy)
      → deeper.prefix_hash ≡ next_hash
      → deeper.prefix_len ≡ suc f.prefix_len
      → deeper.path ≡ f.path
      → Onward (arrive_at deeper track found)
  unfolding arrive_at
  arrive_at-Onward deeper none e len same_path = tt
  arrive_at-Onward deeper (some copy) e len same_path =
      let on = record deeper { containing_entry = copy } in
      let same = node_changed-same on track in
      let walked : IsWalked trie symbol track (finger_node_changed on track) = record {
        hash_eq = same.0 ∙ e ∙ ap (λ (n : ℕ). prefix_hash trie symbol n) (sym (same.1 ∙ len));
        tracked = λ t. rw (t) (node_changed-IsTracked on);
        path_len = omega (arith, same.1, same.2, len, ap length same_path, h.path_len);
      } in
      (walked, same.1 ∙ len)

  deeper-Onward :
      (deeper : Finger)
      → deeper.prefix_hash ≡ next_hash
      → deeper.prefix_len ≡ suc f.prefix_len
      → deeper.containing_entry ≡ f.containing_entry
      → deeper.path ≡ f.path
      → Onward (moved deeper)
  deeper-Onward deeper e len same_entry same_path =
      let walked : IsWalked trie symbol track deeper = record {
        hash_eq = e ∙ ap (λ (n : ℕ). prefix_hash trie symbol n) (sym len);
        tracked = λ t.
            let old = h.tracked t in
            record {
              above = old.above;
              last_hash = old.last_hash;
              path_eq = rw (same_entry, same_path) old.path_eq;
            };
        path_len = omega (arith, ap length same_path, len, h.path_len);
      } in
      (walked, len)

  module _ (view : View) where
    abbrev node : Entry
    node = f.containing_entry.value

    abbrev extended : Finger
    extended = finger_extend_prefix_known_hash f (symbol f.prefix_len) next_hash

    abbrev deeper : Finger
    deeper = record extended { depth_in_jump = suc f.depth_in_jump }

    abbrev jump_child : Option EntryCopy
    jump_child =
        find_entry_in_pair_by_color trie view (hash_to_bucket next_hash) (hash_to_tag next_hash)
          (entry_child_color node)

    abbrev bitmap_child : Option EntryCopy
    bitmap_child =
        find_entry_in_pair_by_parent trie view (hash_to_bucket next_hash) (hash_to_tag next_hash)
          (symbol f.prefix_len) (entry_color node)

    descend_jump-Onward : Onward (descend_jump trie view f (symbol f.prefix_len) track next_hash)
    unfolding descend_jump finger_extend_prefix_known_hash
    descend_jump-Onward =
        let in_jump =
          if_rule Onward (suc f.depth_in_jump == entry_jump_size node)
            (arrive_at deeper track jump_child) (moved deeper)
            (λ last. arrive_at-Onward deeper jump_child refl refl refl)
            (λ inside. deeper-Onward deeper refl refl refl refl) in
        if_rule Onward (get_jump_symbol node f.depth_in_jump == symbol f.prefix_len) _ refused
          (λ same. in_jump) (λ differs. h)

    descend_bitmap-Onward :
        Onward (descend_bitmap trie view f (symbol f.prefix_len) track next_hash)
    unfolding descend_bitmap finger_extend_prefix_known_hash
    descend_bitmap-Onward =
        if_rule Onward (get_bit (child_bitmap node) (symbol f.prefix_len))
          (arrive_at extended track bitmap_child) refused
          (λ has. arrive_at-Onward extended bitmap_child refl refl refl) (λ has_not. h)

    try_descend-Onward : Onward (try_descend trie view f (symbol f.prefix_len) track next_hash)
    unfolding try_descend
    try_descend-Onward =
        let inner =
          if_rule Onward (entry_type node == type_jump)
            (descend_jump trie view f (symbol f.prefix_len) track next_hash)
            (descend_bitmap trie view f (symbol f.prefix_len) track next_hash)
            (λ jump. descend_jump-Onward) (λ bitmap. descend_bitmap-Onward) in
        if_rule Onward (entry_type node == type_leaf) refused _ (λ leaf. h) (λ not_leaf. inner)

init_finger-IsWalked :
    (trie : Trie) (symbol : ℕ → ℕ) (track : Bool) (unread : EntryCopy) (now : Trie)
    → IsWalked trie symbol track (init_finger unread now).0
      × ((init_finger unread now).0.prefix_len ≡ 0)
unfolding init_finger prefix_hash
init_finger-IsWalked trie symbol track unread now =
    if_rule
      (λ (start : Finger × Option Cell).
        IsWalked trie symbol track start.0 × (start.0.prefix_len ≡ 0))
      now.is_empty (at_root unread, none) (at_root (find_root now), some (find_root now).last_pos)
      (λ empty. fresh unread) (λ rooted. fresh (find_root now))
  where
    fresh :
        (copy : EntryCopy)
        → IsWalked trie symbol track (at_root copy) × ((at_root copy).prefix_len ≡ 0)
    fresh copy = (
      record {
        hash_eq = refl;
        tracked = λ t. record { above = []; last_hash = 0; path_eq = refl };
        path_len = omega arith;
      },
      refl,
    )

Ends-Walked :
    (trie : Trie) (views : ℕ → View) (memory : Memory) (are_bytes : (a : ℕ) → memory a < 256)
    (size key : ℕ) (track : Bool)
    → size ≤ 255
    → (d : Descent)
    → Ends trie views memory are_bytes size key track
        (IsWalked trie (get_string_symbol size (key_bytes memory key)) track)
        (IsWalked trie (get_string_symbol size (key_bytes memory key)) track)
        (Unit {0})
        d
    → Walked trie (get_string_symbol size (key_bytes memory key)) (symbol_count size) track d
Ends-Walked trie views memory are_bytes size key track short (stopped s f) (h, below, e) =
    (h, omega (arith, symbol_count-fits size short, below, h.path_len), below, e)
Ends-Walked trie views memory are_bytes size key track short (arrived f) (h, e) =
    (h, omega (arith, symbol_count-fits size short, e, h.path_len), e)
Ends-Walked trie views memory are_bytes size key track short gave_up h = tt
Ends-Walked trie views memory are_bytes size key track short out_of_fuel h = absurd h

-- From a fresh finger, a descent along a key of at most 255 bytes in a memory of bytes ends after at
-- most as many rounds as the key has symbols, whatever other threads write meanwhile. If no search
-- gives up, the finger then has the hash of the prefix that it walked down, its path fits in the
-- MAX_KEY_SYMBOLS places of the array, and, where the path is tracked, it ends with the entry that
-- holds the finger. Either it stands behind the END symbol, or the symbol
-- returned is the one that follows the prefix.
pub descend-Walked :
    (trie now : Trie) (views : ℕ → View) (memory : Memory) (uninitialized : KeyPrefetcher)
    (unread : EntryCopy) (size key : ℕ) (track : Bool)
    → ((a : ℕ) → memory a < 256)
    → size ≤ 255
    → Walked trie
        (get_string_symbol size (key_bytes memory key))
        (symbol_count size)
        track
        (descend uninitialized trie views memory (init_finger unread now).0 size key track)
descend-Walked trie now views memory uninitialized unread size key track are_bytes short =
    Ends-Walked trie views memory are_bytes size key track short _ (
      descend-Ends trie views memory are_bytes size key track
        (IsWalked trie (get_string_symbol size (key_bytes memory key)) track)
        (IsWalked trie (get_string_symbol size (key_bytes memory key)) track) (Unit {0})
        (λ f h below.
          (try_descend-Onward trie (get_string_symbol size (key_bytes memory key)) track f h
            (views f.prefix_len)))
        uninitialized (init_finger unread now).0
        (init_finger-IsWalked trie (get_string_symbol size (key_bytes memory key)) track unread
          now).0
        (init_finger-IsWalked trie (get_string_symbol size (key_bytes memory key)) track unread
          now).1)
