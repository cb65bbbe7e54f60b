-- ===== src/Update/Rewrites.antt =====
-- A leaf gets another key object of the same key: the table still holds a trie.
use cuckoo_trie_vectorized.Base.{
  ℕ, ◌<◌, ◌≡◌, refl, sym, ap, ◌∙◌, subst, arith, Bool, List, [], ◌∷◌, inl, inr, length, get_or,
}
use cuckoo_trie_vectorized.Config.{type_bitmap, type_jump}
use cuckoo_trie_vectorized.Entry.{Entry, entry_type, entry_kv, entry_jump_size}
use cuckoo_trie_vectorized.Trie.{Trie, Cell, entry_at}
use cuckoo_trie_vectorized.Keys.Order.{IsKv}
use cuckoo_trie_vectorized.Lookup.{Objects}
use cuckoo_trie_vectorized.Lookup.Tree.{
  Follows, jump_path, IsPlaced, IsOnly, kv_symbol, IsSubtree, leaf, jump, bitmap,
}
use cuckoo_trie_vectorized.Update.Headers.{Differ, back, inner_same, jump_placed, bitmap_placed}

module _ (kv_at : Objects) (trie trie' : Trie) (pos : Cell) (d : Differ trie trie' pos) where
  -- What the leaf holds afterwards has the symbols of what it held before.
  pub record IsReplaced : Type 0 where
    pub is_kv : IsKv (kv_at (entry_kv (entry_at trie' pos)))
    pub bytes : (i : ℕ) → get_or (kv_at (entry_kv (entry_at trie' pos))).bytes i 0 < 256
    pub symbols :
        (i : ℕ)
        → kv_symbol kv_at (entry_kv (entry_at trie' pos)) i
          ≡ kv_symbol kv_at (entry_kv (entry_at trie pos)) i

  Follows-same :
      (a b : ℕ → ℕ) (path : List ℕ) → ((i : ℕ) → b i ≡ a i) → Follows a path → Follows b path
  Follows-same a b [] same f = f
  Follows-same a b (s ∷ path) same f = (same (length path) ∙ f.0, Follows-same a b path same f.1)

  pub IsOnly-same :
      (test test' : Bool → Entry → Bool) (hash hash' : ℕ) (c : Cell)
      → ((x : Cell) → IsPlaced trie test hash x → IsPlaced trie' test' hash' x)
      → ((x : Cell) → IsPlaced trie' test' hash' x → IsPlaced trie test hash x)
      → IsOnly trie test hash c
      → IsOnly trie' test' hash' c
  IsOnly-same test test' hash hash' c to from only = record {
    placed = to c only.placed;
    alone = λ other p. only.alone other (from other p);
  }

  pub IsSubtree-same :
      IsReplaced
      → {path : List ℕ} {e : Entry} → IsSubtree trie kv_at path e
      → (c : Cell) → e ≡ entry_at trie c
      → IsSubtree trie' kv_at path (entry_at trie' c)
  IsSubtree-same r {path} {e} (leaf t is_kv bytes follows) c stands = elim (d.others c) [
    | inl unchanged ↦
        subst (IsSubtree trie' kv_at path) (stands ∙ sym unchanged) (leaf t is_kv bytes follows)
    | inr at_pos ↦
        subst (λ (x : Cell). IsSubtree trie' kv_at path (entry_at trie' x)) (sym at_pos)
          (leaf ((back trie trie' pos d).is_leaf) r.is_kv r.bytes (
            Follows-same (kv_symbol kv_at (entry_kv (entry_at trie pos)))
              (kv_symbol kv_at (entry_kv (entry_at trie' pos))) path r.symbols
              (subst (λ (x : Entry). Follows (kv_symbol kv_at (entry_kv x)) path)
                (stands ∙ ap (entry_at trie) at_pos) follows)))
  ]
  IsSubtree-same r {path} {e} (jump t opened some_symbol valid child only sub) c stands =
      subst (IsSubtree trie' kv_at path)
        (stands
          ∙ sym (
              inner_same trie trie' pos d c type_jump (ap entry_type (sym stands) ∙ t)
                (omega arith)))
        (jump t opened some_symbol valid child
          (IsOnly-same _ _ _ _ child
            (λ x. jump_placed trie trie' pos d e (jump_path e (entry_jump_size e) path) x)
            (λ x.
              jump_placed trie' trie pos (back trie trie' pos d) e
                (jump_path e (entry_jump_size e) path) x)
            only)
          (IsSubtree-same r sub child refl))
  IsSubtree-same r {path} {e} (bitmap t opened valid child only sub) c stands =
      subst (IsSubtree trie' kv_at path)
        (stands
          ∙ sym (
              inner_same trie trie' pos d c type_bitmap (ap entry_type (sym stands) ∙ t)
                (omega arith)))
        (bitmap t opened valid child
          (λ s bit.
            IsOnly-same _ _ _ _ (child s) (λ x. bitmap_placed trie trie' pos d e path s x)
              (λ x. bitmap_placed trie' trie pos (back trie trie' pos d) e path s x) (only s bit))
          (λ s bit. IsSubtree-same r (sub s bit) (child s) refl))
