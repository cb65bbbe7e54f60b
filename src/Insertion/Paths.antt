-- ===== src/Insertion/Paths.antt =====
-- Paths whose nodes stand in the table, and what a new `max_leaf` at their end must change.
use cuckoo_trie_vectorized.Base.{
  ℕ, suc, ◌<◌, ◌≤◌, ◌≡◌, ◌≢◌, arith, true, false, List, Option, some, length,
}
use cuckoo_trie_vectorized.Entry.{Entry, Locator, entry_type}
use cuckoo_trie_vectorized.Config.{type_bitmap}
use cuckoo_trie_vectorized.Trie.{Trie, Cell, entry_at}
use cuckoo_trie_vectorized.Fingers.{PathEntry}
use cuckoo_trie_vectorized.Iterators.{path_slot}
use cuckoo_trie_vectorized.Lookup.Tree.{InTable}
use cuckoo_trie_vectorized.Insertion.Defs.{max_child, comes_from_smaller}

abbrev pub node : List PathEntry → ℕ → Entry
node path i = (path_slot path i).entry.value

abbrev pub place_of : List PathEntry → ℕ → Cell
place_of path i = (path_slot path i).entry.last_pos

-- The nodes of a path above a position, as they stand in the table, each in a cell of its own.
pub record IsOnTable (trie : Trie) (path : List PathEntry) (n : ℕ) : Type 0 where
  pub inside : n < length path
  pub in_table : (i : ℕ) → i < n → InTable trie (place_of path i)
  pub stands : (i : ℕ) → i < n → node path i ≡ entry_at trie (place_of path i)
  pub distinct : (i j : ℕ) → i < j → j < n → place_of path i ≢ place_of path j

-- The child of a path is the last one of a bitmap, or another child of it.
abbrev pub IsLastChild : Entry → Entry → Type 0
IsLastChild parent child = entry_type parent ≡ type_bitmap → max_child parent ≤ child.last_symbol

abbrev pub IsSmallerChild : Entry → Entry → Type 0
IsSmallerChild parent child =
    (entry_type parent ≡ type_bitmap) × (child.last_symbol < max_child parent)

pub test-IsSmallerChild :
    (parent child : Entry)
    → (comes_from_smaller parent child ≡ true → IsSmallerChild parent child)
      × (IsSmallerChild parent child → ¬ (comes_from_smaller parent child ≡ false))
unfolding comes_from_smaller
test-IsSmallerChild parent child =
    (λ e. (ground (arith, e), ground (arith, e)), λ smaller e. ground (arith, smaller, e))

-- From position `i` down to `n` the path goes through the last child of each bitmap.
abbrev pub IsMaximalFrom : List PathEntry → ℕ → ℕ → Type 0
IsMaximalFrom path n i = (j : ℕ) → i ≤ j → j < n → IsLastChild (node path j) (node path (suc j))

-- The table in which these nodes, from the top one on, have another `max_leaf`.
pub record IsPropagated (trie : Trie) (path : List PathEntry) (top n : ℕ) (max_leaf : Locator)
    (trie' : Trie) : Type 0 where
  pub changed :
      (i : ℕ)
      → top ≤ i
      → i < n
      → IsMaximalFrom path n i
      → entry_at trie' (place_of path i) ≡ record (node path i) { link = max_leaf }
  pub stopped :
      (i j : ℕ)
      → top ≤ i
      → i ≤ j
      → j < n
      → IsSmallerChild (node path j) (node path (suc j))
      → entry_at trie' (place_of path i) ≡ node path i
  pub others :
      (c : Cell)
      → ((i : ℕ) → top ≤ i → i < n → c ≢ place_of path i)
      → entry_at trie' c ≡ entry_at trie c

abbrev pub Propagated :
    Trie → List PathEntry → ℕ → ℕ → Locator → Option (Trie × List PathEntry) → Type 0
Propagated trie path top n max_leaf result =
    (trie' : Trie) × (path' : List PathEntry) × (result ≡ some (trie', path'))
    × IsPropagated trie path top n max_leaf trie'
