-- ===== src/Lookup/Walk.antt =====
-- Paths and the leaves below them.
use cuckoo_trie_vectorized.Base.{
  ℕ, zero, suc, ◌+◌, ◌<◌, ◌≤◌, ◌≡◌, ◌⊎◌, inl, inr, get_or, refl, sym, ap, ◌∙◌, arith, subst, List,
  [], ◌∷◌, length, dec_lt,
}
use cuckoo_trie_vectorized.Config.{type_leaf, type_bitmap, type_jump, max_valid_color}
use cuckoo_trie_vectorized.Entry.{
  Entry, entry_type, entry_kv, entry_color, entry_jump_size, entry_child_color,
}
use cuckoo_trie_vectorized.Trie.{Trie, Cell, entry_at}
use cuckoo_trie_vectorized.Hash.{accumulate_hash}
use cuckoo_trie_vectorized.Symbols.{get_jump_symbol}
use cuckoo_trie_vectorized.Keys.Order.{IsKv}
use cuckoo_trie_vectorized.Prefetch.Steps.{prefix_hash}
use cuckoo_trie_vectorized.Lookup.Defs.{Objects}
use cuckoo_trie_vectorized.Lookup.Tree.{
  path_hash, Follows, jump_path, IsOpen, IsBit, IsOnly, jump_test, bitmap_test, HasLeaf, here,
  in_jump, in_bitmap, Reaches, start, by_jump, by_bitmap, root_cell, kv_symbol, IsSubtree, leaf,
  jump, bitmap,
}

module _ (k : ℕ → ℕ) where
  drop_jump : (e : Entry) (n : ℕ) (path : List ℕ) → Follows k (jump_path e n path) → Follows k path
  drop_jump e zero path f = f
  drop_jump e (suc n) path f = drop_jump e n path f.1

  pub Follows-path_hash :
      (trie : Trie) (path : List ℕ)
      → Follows k path
      → path_hash trie path ≡ prefix_hash trie k (length path)
  unfolding path_hash prefix_hash
  Follows-path_hash trie [] f = refl
  Follows-path_hash trie (s ∷ path) f =
      ap (λ (hash : ℕ). accumulate_hash trie hash s) (Follows-path_hash trie path f.1)
      ∙ ap (accumulate_hash trie (prefix_hash trie k (length path))) (sym f.0)

pub length-jump_path :
    (e : Entry) (n : ℕ) (path : List ℕ) → length (jump_path e n path) ≡ length path + n
length-jump_path e zero path = omega arith
length-jump_path e (suc n) path = omega (arith, length-jump_path e n path)

-- What a key that goes through a jump node has at one of the node's symbols.
pub Follows-jump_symbol :
    (k : ℕ → ℕ) (e : Entry) (n d : ℕ) (path : List ℕ)
    → Follows k (jump_path e n path)
    → d < n
    → k (length path + d) ≡ get_jump_symbol e d
Follows-jump_symbol k e zero d path f below = absurd (omega (arith, below))
Follows-jump_symbol k e (suc n) d path f below = elim (dec_lt d n) [
  | yes inner ↦ Follows-jump_symbol k e n d path f.1 inner
  | no last ↦
      let same : d ≡ n = omega (arith, below, last) in
      ap (λ (i : ℕ). k (length path + i)) same
      ∙ ap k (sym (length-jump_path e n path))
      ∙ f.0
      ∙ ap (get_jump_symbol e) (sym same)
]

pub Follows-agree :
    (a b : ℕ → ℕ) (path : List ℕ) (i : ℕ)
    → Follows a path
    → Follows b path
    → i < length path
    → a i ≡ b i
Follows-agree a b [] i f g below = absurd (omega (arith, below))
Follows-agree a b (s ∷ path) i f g below = elim (dec_lt i (length path)) [
  | yes inner ↦ Follows-agree a b path i f.1 g.1 inner
  | no last ↦
      let same : i ≡ length path = omega (arith, below, last) in
      ap a same ∙ f.0 ∙ sym g.0 ∙ ap b (sym same)
]

module _ (trie : Trie) where
  pub HasLeaf-of_leaf :
      {path : List ℕ} {e : Entry} {kv : ℕ}
      → HasLeaf trie path e kv
      → entry_type e ≡ type_leaf
      → entry_kv e ≡ kv
  HasLeaf-of_leaf (here _ same) t = same
  HasLeaf-of_leaf (in_jump u pos placed below) t = absurd (omega (arith, t, u))
  HasLeaf-of_leaf (in_bitmap u s bit pos placed below) t = absurd (omega (arith, t, u))

  pub HasLeaf-of_jump :
      {path : List ℕ} {e : Entry} {kv : ℕ} (child : Cell)
      → HasLeaf trie path e kv
      → entry_type e ≡ type_jump
      → IsOnly trie
          (jump_test trie e (jump_path e (entry_jump_size e) path))
          (path_hash trie (jump_path e (entry_jump_size e) path))
          child
      → HasLeaf trie (jump_path e (entry_jump_size e) path) (entry_at trie child) kv
  HasLeaf-of_jump child (here u same) t only = absurd (omega (arith, t, u))
  HasLeaf-of_jump {path} {e} {kv} child (in_jump u pos placed below) t only =
      subst (λ (c : Cell). HasLeaf trie (jump_path e (entry_jump_size e) path) (entry_at trie c) kv)
        (only.alone pos placed) below
  HasLeaf-of_jump child (in_bitmap u s bit pos placed below) t only = absurd (omega (arith, t, u))

  -- The symbol of the child below which the leaf stands.
  pub HasLeaf-of_bitmap :
      {path : List ℕ} {e : Entry} {kv : ℕ} (child : ℕ → Cell)
      → HasLeaf trie path e kv
      → entry_type e ≡ type_bitmap
      → ((s : ℕ)
          → IsBit e s
          → IsOnly trie (bitmap_test trie e path s) (path_hash trie (s ∷ path)) (child s))
      → (s : ℕ) × IsBit e s × HasLeaf trie (s ∷ path) (entry_at trie (child s)) kv
  HasLeaf-of_bitmap child (here u same) t only = absurd (omega (arith, t, u))
  HasLeaf-of_bitmap child (in_jump u pos placed below) t only = absurd (omega (arith, t, u))
  HasLeaf-of_bitmap {path} {e} {kv} child (in_bitmap u s bit pos placed below) t only = (
    s,
    bit,
    subst (λ (c : Cell). HasLeaf trie (s ∷ path) (entry_at trie c) kv)
        ((only s bit).alone pos placed) below,
  )

  -- What is below a cell that the root reaches is below the root.
  pub Reaches-HasLeaf :
      {path : List ℕ} {pos : Cell} {kv : ℕ}
      → Reaches trie path pos
      → HasLeaf trie path (entry_at trie pos) kv
      → HasLeaf trie [] (entry_at trie root_cell) kv
  Reaches-HasLeaf start below = below
  Reaches-HasLeaf {kv} (by_jump {path = from_path} {from} {e} r same t child placed) below =
      Reaches-HasLeaf r
        (subst (λ (x : Entry). HasLeaf trie from_path x kv) same (in_jump t child placed below))
  Reaches-HasLeaf {kv} (by_bitmap {path = from_path} {from} {e} r same t s bit child placed) below =
      Reaches-HasLeaf r (
        subst (λ (x : Entry). HasLeaf trie from_path x kv) same
          (in_bitmap t s bit child placed below))

  module _ (kv_at : Objects) where
    -- A key object whose key goes along a path.
    pub record IsKey (kv : ℕ) (path : List ℕ) : Type 0 where
      pub is_kv : IsKv (kv_at kv)
      pub bytes : (i : ℕ) → get_or (kv_at kv).bytes i 0 < 256
      pub follows : Follows (kv_symbol kv_at kv) path

    shorter_path :
        {kv : ℕ} (longer shorter : List ℕ)
        → (Follows (kv_symbol kv_at kv) longer → Follows (kv_symbol kv_at kv) shorter)
        → IsKey kv longer
        → IsKey kv shorter
    shorter_path longer shorter drop h = record {
      is_kv = h.is_kv;
      bytes = h.bytes;
      follows = drop h.follows;
    }

    -- The key of each leaf goes along the path to it.
    pub HasLeaf-IsKey :
        {path : List ℕ} {e : Entry} {kv : ℕ}
        → IsSubtree trie kv_at path e
        → HasLeaf trie path e kv
        → IsKey kv path
    HasLeaf-IsKey {path} (leaf t is_kv bytes follows) (here u same) =
        subst (λ (kv : ℕ). IsKey kv path) same
          (record { is_kv = is_kv; bytes = bytes; follows = follows })
    HasLeaf-IsKey (leaf t is_kv bytes follows) (in_jump u pos placed below) =
        absurd (omega (arith, t, u))
    HasLeaf-IsKey (leaf t is_kv bytes follows) (in_bitmap u s bit pos placed below) =
        absurd (omega (arith, t, u))
    HasLeaf-IsKey (jump t opened some_symbol valid child only sub) (here u same) =
        absurd (omega (arith, t, u))
    HasLeaf-IsKey {path} {e} {kv} (jump t opened some_symbol valid child only sub)
          (in_jump u pos placed below) =
        shorter_path (jump_path e (entry_jump_size e) path) path
          (drop_jump (kv_symbol kv_at kv) e (entry_jump_size e) path)
          (HasLeaf-IsKey
            (subst
              (λ (c : Cell).
                IsSubtree trie kv_at (jump_path e (entry_jump_size e) path) (entry_at trie c))
              (sym (only.alone pos placed)) sub)
            below)
    HasLeaf-IsKey (jump t opened some_symbol valid child only sub)
          (in_bitmap u s bit pos placed below) =
        absurd (omega (arith, t, u))
    HasLeaf-IsKey (bitmap t opened valid child only sub) (here u same) =
        absurd (omega (arith, t, u))
    HasLeaf-IsKey (bitmap t opened valid child only sub) (in_jump u pos placed below) =
        absurd (omega (arith, t, u))
    HasLeaf-IsKey {path} (bitmap t opened valid child only sub)
          (in_bitmap u s bit pos placed below) =
        shorter_path (s ∷ path) path (λ follows. follows.1)
          (HasLeaf-IsKey
            (subst (λ (c : Cell). IsSubtree trie kv_at (s ∷ path) (entry_at trie c))
              (sym ((only s bit).alone pos placed)) (sub s bit))
            below)

    pub HasLeaf-Follows :
        {path : List ℕ} {e : Entry} {kv : ℕ}
        → IsSubtree trie kv_at path e
        → HasLeaf trie path e kv
        → Follows (kv_symbol kv_at kv) path
    HasLeaf-Follows h below = (HasLeaf-IsKey h below).follows

    -- What a subtree says of its node.
    pub record IsJump (path : List ℕ) (e : Entry) : Type 0 where
      pub is_jump : entry_type e ≡ type_jump
      pub opened : IsOpen path
      pub valid : entry_child_color e ≤ max_valid_color
      pub child : Cell
      pub only :
          IsOnly trie
            (jump_test trie e (jump_path e (entry_jump_size e) path))
            (path_hash trie (jump_path e (entry_jump_size e) path))
            child
      pub sub : IsSubtree trie kv_at (jump_path e (entry_jump_size e) path) (entry_at trie child)

    pub record IsBitmap (path : List ℕ) (e : Entry) : Type 0 where
      pub is_bitmap : entry_type e ≡ type_bitmap
      pub opened : IsOpen path
      pub valid : entry_color e ≤ max_valid_color
      pub child : ℕ → Cell
      pub only :
          (s : ℕ)
          → IsBit e s
          → IsOnly trie (bitmap_test trie e path s) (path_hash trie (s ∷ path)) (child s)
      pub sub : (s : ℕ) → IsBit e s → IsSubtree trie kv_at (s ∷ path) (entry_at trie (child s))

    pub record IsLeaf (path : List ℕ) (e : Entry) : Type 0 where
      pub is_leaf : entry_type e ≡ type_leaf
      pub is_kv : IsKv (kv_at (entry_kv e))
      pub bytes : (i : ℕ) → get_or (kv_at (entry_kv e)).bytes i 0 < 256
      pub follows : Follows (kv_symbol kv_at (entry_kv e)) path

    pub node_cases :
        {path : List ℕ} {e : Entry}
        → IsSubtree trie kv_at path e
        → IsLeaf path e ⊎ (IsJump path e ⊎ IsBitmap path e)
    node_cases (leaf t is_kv bytes follows) =
        inl (record { is_leaf = t; is_kv = is_kv; bytes = bytes; follows = follows })
    node_cases (jump t opened some_symbol valid child only sub) = inr (
        inl (record {
          is_jump = t;
          opened = opened;
          valid = valid;
          child = child;
          only = only;
          sub = sub;
        }))
    node_cases (bitmap t opened valid child only sub) = inr (
        inr (record {
          is_bitmap = t;
          opened = opened;
          valid = valid;
          child = child;
          only = only;
          sub = sub;
        }))
