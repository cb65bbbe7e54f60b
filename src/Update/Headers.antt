-- ===== src/Update/Headers.antt =====
-- Two tables that differ in what a leaf holds.
use cuckoo_trie_vectorized.Base.{
  ℕ, ◌<◌, ◌≡◌, refl, sym, ap, ◌∙◌, subst, arith, Bool, List, ◌∷◌, ◌⊎◌, inl, inr,
}
use cuckoo_trie_vectorized.Config.{type_leaf, type_bitmap, type_jump}
use cuckoo_trie_vectorized.Entry.{
  Entry, entry_type, entry_kv, entry_color, entry_tag, entry_parent_color, entry_is_secondary,
  entry_jump_size,
}
use cuckoo_trie_vectorized.Trie.{Trie, Cell, entry_at}
use cuckoo_trie_vectorized.Lookup.Tree.{
  path_hash, jump_path, color_test, parent_test, place, IsPlaced, jump_test, bitmap_test, HasLeaf,
  here, in_jump, in_bitmap, Reaches, start, by_jump, by_bitmap,
}

-- Entries that stand in the same place of a trie.
pub record SameHeader (e e' : Entry) : Type 0 where
  pub flags : e'.parent_color_and_flags ≡ e.parent_color_and_flags
  pub colors : e'.color_and_tag ≡ e.color_and_tag
  pub symbols : e'.last_symbol ≡ e.last_symbol

pub same_type : (e e' : Entry) → SameHeader e e' → entry_type e' ≡ entry_type e
unfolding entry_type
same_type e e' h = rw (h.flags) refl

-- A test that looks at the header only.
abbrev pub OfHeader : (Bool → Entry → Bool) → Type 0
OfHeader test = (s : Bool) (e e' : Entry) → SameHeader e e' → test s e' ≡ test s e

pub color_test-OfHeader : (tag color : ℕ) → OfHeader (color_test tag color)
unfolding entry_color entry_tag entry_is_secondary
color_test-OfHeader tag color s e e' h = rw (h.flags, h.colors) refl

parent_test-OfHeader : (tag symbol color : ℕ) → OfHeader (parent_test tag symbol color)
unfolding entry_parent_color entry_tag entry_is_secondary
parent_test-OfHeader tag symbol color s e e' h = rw (h.flags, h.colors, h.symbols) refl

-- `trie'` is `trie` but for what the leaf at `pos` holds.
pub record Differ (trie trie' : Trie) (pos : Cell) : Type 0 where
  pub hashes : (path : List ℕ) → path_hash trie' path ≡ path_hash trie path
  pub places : (hash : ℕ) (s : Bool) (i : ℕ) → place trie' hash s i ≡ place trie hash s i
  pub headers : (c : Cell) → SameHeader (entry_at trie c) (entry_at trie' c)
  pub others : (c : Cell) → (entry_at trie' c ≡ entry_at trie c) ⊎ (c ≡ pos)
  pub is_leaf : entry_type (entry_at trie pos) ≡ type_leaf

module _ (trie trie' : Trie) (pos : Cell) (d : Differ trie trie' pos) where
  -- The relation is symmetric.
  pub back : Differ trie' trie pos
  back = record {
    hashes = λ path. sym (d.hashes path);
    places = λ hash s i. sym (d.places hash s i);
    headers = λ c. record {
      flags = sym (d.headers c).flags;
      colors = sym (d.headers c).colors;
      symbols = sym (d.headers c).symbols;
    };
    others = λ c. elim (d.others c) [ inl same ↦ inl (sym same) | inr at_pos ↦ inr at_pos ];
    is_leaf = same_type (entry_at trie pos) (entry_at trie' pos) (d.headers pos) ∙ d.is_leaf;
  }

  -- An inner node is the same.
  pub inner_same :
      (c : Cell) (t : ℕ)
      → entry_type (entry_at trie c) ≡ t
      → 1 < t
      → entry_at trie' c ≡ entry_at trie c
  inner_same c t e inner = elim (d.others c) [
    | inl same ↦ same
    | inr at_pos ↦
        absurd (
          omega
            (arith, e, inner, d.is_leaf, ap (λ (p : Cell). entry_type (entry_at trie p)) at_pos))
  ]

  pub placed_same :
      (test : Bool → Entry → Bool) (hash : ℕ) (c : Cell)
      → OfHeader test
      → IsPlaced trie test hash c
      → IsPlaced trie' test hash c
  placed_same test hash c of_header p = record {
    is_secondary = p.is_secondary;
    index_fits = p.index_fits;
    pos_eq = p.pos_eq ∙ sym (d.places hash p.is_secondary c.index);
    passes = of_header p.is_secondary (entry_at trie c) (entry_at trie' c) (d.headers c) ∙ p.passes;
  }

  pub jump_placed :
      (e : Entry) (path : List ℕ) (c : Cell)
      → IsPlaced trie (jump_test trie e path) (path_hash trie path) c
      → IsPlaced trie' (jump_test trie' e path) (path_hash trie' path) c
  jump_placed e path c p =
      rw (d.hashes path) (placed_same _ (path_hash trie path) c (color_test-OfHeader _ _) p)

  pub bitmap_placed :
      (e : Entry) (path : List ℕ) (s : ℕ) (c : Cell)
      → IsPlaced trie (bitmap_test trie e path s) (path_hash trie (s ∷ path)) c
      → IsPlaced trie' (bitmap_test trie' e path s) (path_hash trie' (s ∷ path)) c
  bitmap_placed e path s c p =
      rw (d.hashes (s ∷ path))
        (placed_same _ (path_hash trie (s ∷ path)) c (parent_test-OfHeader _ _ _) p)

  -- What the root reaches stays reached.
  pub Reaches-same : {path : List ℕ} {c : Cell} → Reaches trie path c → Reaches trie' path c
  Reaches-same start = start
  Reaches-same (by_jump {path} {from} {e} r same t child p) =
      by_jump (Reaches-same r)
        (same ∙ sym (inner_same from type_jump (ap entry_type (sym same) ∙ t) (omega arith))) t
        child (jump_placed e (jump_path e (entry_jump_size e) path) child p)
  Reaches-same (by_bitmap {path} {from} {e} r same t s bit child p) =
      by_bitmap (Reaches-same r)
        (same ∙ sym (inner_same from type_bitmap (ap entry_type (sym same) ∙ t) (omega arith))) t s
        bit child (bitmap_placed e path s child p)

  -- Other key objects stay where they are.
  pub HasLeaf-same :
      {path : List ℕ} {e : Entry} {kv : ℕ}
      → HasLeaf trie path e kv
      → (c : Cell) → e ≡ entry_at trie c
      → ¬ (entry_kv (entry_at trie pos) ≡ kv)
      → HasLeaf trie' path (entry_at trie' c) kv
  HasLeaf-same (here t same) c stands other = elim (d.others c) [
    | inl unchanged ↦
        here (ap entry_type (unchanged ∙ sym stands) ∙ t)
          (ap entry_kv (unchanged ∙ sym stands) ∙ same)
    | inr at_pos ↦ absurd (
        other (
          ap (λ (p : Cell). entry_kv (entry_at trie p)) (sym at_pos)
          ∙ ap entry_kv (sym stands)
          ∙ same))
  ]
  HasLeaf-same {path} {e} {kv} (in_jump t child p below) c stands other =
      subst (λ (x : Entry). HasLeaf trie' path x kv)
        (stands ∙ sym (inner_same c type_jump (ap entry_type (sym stands) ∙ t) (omega arith)))
        (in_jump t child (jump_placed e (jump_path e (entry_jump_size e) path) child p)
          (HasLeaf-same below child refl other))
  HasLeaf-same {path} {e} {kv} (in_bitmap t s bit child p below) c stands other =
      subst (λ (x : Entry). HasLeaf trie' path x kv)
        (stands ∙ sym (inner_same c type_bitmap (ap entry_type (sym stands) ∙ t) (omega arith)))
        (in_bitmap t s bit child (bitmap_placed e path s child p)
          (HasLeaf-same below child refl other))
