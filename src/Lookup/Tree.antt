-- ===== src/Lookup/Tree.antt =====
-- The trie that a table holds: its nodes from the root on, and its leaves.
use cuckoo_trie_vectorized.Base.{
  ℕ, zero, suc, bit_and, ◌<◌, ◌≤◌, ◌≡◌, ◌≢◌, Bool, true, false, List, [], ◌∷◌, length, get_or,
}
use cuckoo_trie_vectorized.Config.{
  hash_start_value, symbol_end, type_leaf, type_bitmap, type_jump, max_valid_color, seq_increment,
}
use cuckoo_trie_vectorized.Entry.{
  Entry, entry_type, entry_kv, entry_color, entry_jump_size, entry_child_color,
}
use cuckoo_trie_vectorized.Trie.{Trie, Cell, bucket_at, entry_at}
use cuckoo_trie_vectorized.Hash.{accumulate_hash, hash_to_bucket, hash_to_tag, mix_bucket}
use cuckoo_trie_vectorized.Hash.Geometry.{IsGeometry}
use cuckoo_trie_vectorized.BitString.{get_bit}
use cuckoo_trie_vectorized.Symbols.{get_string_symbol, get_jump_symbol}
use cuckoo_trie_vectorized.Keys.Order.{IsKv}
use cuckoo_trie_vectorized.Search.Headers.{has_color, has_parent}
use cuckoo_trie_vectorized.Pairs.Finds.{pair_bucket}
use cuckoo_trie_vectorized.Pairs.Returns.{IsBucket}
use cuckoo_trie_vectorized.Fingers.{child_bitmap}
use cuckoo_trie_vectorized.Lookup.Defs.{Objects}

-- A path is the list of its symbols, the last one first.
unfoldable pub path_hash : Trie → List ℕ → ℕ
path_hash trie [] = hash_start_value
path_hash trie (s ∷ path) = accumulate_hash trie (path_hash trie path) s

-- The symbols of a key begin with those of the path.
abbrev pub Follows : (ℕ → ℕ) → List ℕ → Type 0
Follows symbol [] = Unit {0}
Follows symbol (s ∷ path) = (symbol (length path) ≡ s) × Follows symbol path

-- The path behind the first `n` symbols of a jump node.
abbrev pub jump_path : Entry → ℕ → List ℕ → List ℕ
jump_path e zero path = path
jump_path e (suc n) path = get_jump_symbol e n ∷ jump_path e n path

-- Only a leaf stands behind the END symbol.
abbrev pub IsOpen : List ℕ → Type 0
IsOpen [] = Unit {0}
IsOpen (s ∷ path) = s ≢ symbol_end

abbrev pub IsBit : Entry → ℕ → Type 0
IsBit e s = (s ≤ 32) × (get_bit (child_bitmap e) s ≡ true)

-- The tests of the two searches, for the flag of the bucket.
abbrev pub color_test : ℕ → ℕ → Bool → Entry → Bool
color_test tag color is_secondary e = has_color e is_secondary tag color

abbrev pub parent_test : ℕ → ℕ → ℕ → Bool → Entry → Bool
parent_test tag last_symbol parent_color is_secondary e =
    has_parent e is_secondary tag last_symbol parent_color

abbrev pub root_cell : Cell
root_cell = record { bucket = hash_to_bucket hash_start_value; index = 0 }

-- The symbols of the key of an object.
abbrev pub kv_symbol : Objects → ℕ → ℕ → ℕ
kv_symbol kv_at kv = get_string_symbol (kv_at kv).key_size (λ i. get_or (kv_at kv).bytes i 0)

module _ (trie : Trie) where
  abbrev pub place : ℕ → Bool → ℕ → Cell
  place hash is_secondary i =
      let primary = hash_to_bucket hash in
      record {
        bucket = pair_bucket primary (mix_bucket trie primary (hash_to_tag hash)) is_secondary;
        index = i;
      }

  abbrev pub InTable : Cell → Type 0
  InTable pos = (pos.bucket < trie.num_buckets) × (pos.index < 4)

  -- A cell of the pair of a hash, with an entry that passes the test of its bucket.
  pub record IsPlaced (test : Bool → Entry → Bool) (hash : ℕ) (pos : Cell) : Type 0 where
    pub is_secondary : Bool
    pub index_fits : pos.index < 4
    pub pos_eq : pos ≡ place hash is_secondary pos.index
    pub passes : test is_secondary (entry_at trie pos) ≡ true

  -- The only such cell.
  pub record IsOnly (test : Bool → Entry → Bool) (hash : ℕ) (pos : Cell) : Type 0 where
    pub placed : IsPlaced test hash pos
    pub alone : (other : Cell) → IsPlaced test hash other → other ≡ pos

  -- The child of a jump node, and that of a bitmap node.
  abbrev pub jump_test : Entry → List ℕ → Bool → Entry → Bool
  jump_test e path = color_test (hash_to_tag (path_hash trie path)) (entry_child_color e)

  abbrev pub bitmap_test : Entry → List ℕ → ℕ → Bool → Entry → Bool
  bitmap_test e path s = parent_test (hash_to_tag (path_hash trie (s ∷ path))) s (entry_color e)

  -- A leaf with the key object `kv` can be reached from an entry that stands behind a path.
  pub data HasLeaf : List ℕ → Entry → ℕ → Type 0 where
    here :
        {path : List ℕ} {e : Entry} {kv : ℕ}
        → entry_type e ≡ type_leaf
        → entry_kv e ≡ kv
        → HasLeaf path e kv
    in_jump :
        {path : List ℕ} {e : Entry} {kv : ℕ}
        → entry_type e ≡ type_jump
        → (pos : Cell)
        → IsPlaced
            (jump_test e (jump_path e (entry_jump_size e) path))
            (path_hash trie (jump_path e (entry_jump_size e) path))
            pos
        → HasLeaf (jump_path e (entry_jump_size e) path) (entry_at trie pos) kv
        → HasLeaf path e kv
    in_bitmap :
        {path : List ℕ} {e : Entry} {kv : ℕ}
        → entry_type e ≡ type_bitmap
        → (s : ℕ) → IsBit e s
        → (pos : Cell) → IsPlaced (bitmap_test e path s) (path_hash trie (s ∷ path)) pos
        → HasLeaf (s ∷ path) (entry_at trie pos) kv
        → HasLeaf path e kv

  -- A cell can be reached from the root along a path.
  pub data Reaches : List ℕ → Cell → Type 0 where
    start : Reaches [] root_cell
    by_jump :
        {path : List ℕ} {from : Cell} {e : Entry}
        → Reaches path from
        → e ≡ entry_at trie from
        → entry_type e ≡ type_jump
        → (pos : Cell)
        → IsPlaced
            (jump_test e (jump_path e (entry_jump_size e) path))
            (path_hash trie (jump_path e (entry_jump_size e) path))
            pos
        → Reaches (jump_path e (entry_jump_size e) path) pos
    by_bitmap :
        {path : List ℕ} {from : Cell} {e : Entry}
        → Reaches path from
        → e ≡ entry_at trie from
        → entry_type e ≡ type_bitmap
        → (s : ℕ) → IsBit e s
        → (pos : Cell) → IsPlaced (bitmap_test e path s) (path_hash trie (s ∷ path)) pos
        → Reaches (s ∷ path) pos

  module _ (kv_at : Objects) where
    -- The subtree of an entry behind a path: each child that a node announces stands in one cell of
    -- its pair, and each leaf has a key that goes along the path.
    pub data IsSubtree : List ℕ → Entry → Type 0 where
      leaf :
          {path : List ℕ} {e : Entry}
          → entry_type e ≡ type_leaf
          → IsKv (kv_at (entry_kv e))
          → ((i : ℕ) → get_or (kv_at (entry_kv e)).bytes i 0 < 256)
          → Follows (kv_symbol kv_at (entry_kv e)) path
          → IsSubtree path e
      jump :
          {path : List ℕ} {e : Entry}
          → entry_type e ≡ type_jump
          → IsOpen path
          → 0 < entry_jump_size e
          → entry_child_color e ≤ max_valid_color
          → (child : Cell)
          → IsOnly
              (jump_test e (jump_path e (entry_jump_size e) path))
              (path_hash trie (jump_path e (entry_jump_size e) path))
              child
          → IsSubtree (jump_path e (entry_jump_size e) path) (entry_at trie child)
          → IsSubtree path e
      bitmap :
          {path : List ℕ} {e : Entry}
          → entry_type e ≡ type_bitmap
          → IsOpen path
          → entry_color e ≤ max_valid_color
          → (child : ℕ → Cell)
          → ((s : ℕ)
              → IsBit e s
              → IsOnly (bitmap_test e path s) (path_hash trie (s ∷ path)) (child s))
          → ((s : ℕ) → IsBit e s → IsSubtree (s ∷ path) (entry_at trie (child s)))
          → IsSubtree path e

-- A table with a trie in it that nobody writes in.
pub record IsTrie (kv_at : Objects) (trie : Trie) : Type 0 where
  pub geometry : IsGeometry trie
  pub buckets : (b : ℕ) → b < trie.num_buckets → IsBucket (bucket_at trie b).cells
  pub quiet :
      (b : ℕ)
      → b < trie.num_buckets
      → bit_and (bucket_at trie b).write_lock_and_seq seq_increment ≡ 0
  pub rooted : trie.is_empty ≡ false → IsSubtree trie kv_at [] (entry_at trie root_cell)

-- A key object that the trie holds.
pub record Holds (trie : Trie) (kv : ℕ) : Type 0 where
  pub not_empty : trie.is_empty ≡ false
  pub leaf_below : HasLeaf trie [] (entry_at trie root_cell) kv
