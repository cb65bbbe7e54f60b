-- ===== src/Lookup/Attempts.antt =====
-- One attempt to descend in a trie that nobody writes in.
use cuckoo_trie_vectorized.Base.{
  ℕ, suc, ◌+◌, ◌<◌, ◌≤◌, ◌≡◌, ◌≢◌, refl, sym, ap, ◌∙◌, arith, subst, false, List, [], length, some,
  ◌⊎◌,
}
use cuckoo_trie_vectorized.Config.{type_leaf, type_jump, max_valid_color}
use cuckoo_trie_vectorized.Entry.{Entry, entry_type, entry_kv, entry_jump_size, entry_child_color}
use cuckoo_trie_vectorized.Trie.{Trie, Cell, entry_at}
use cuckoo_trie_vectorized.Hash.{hash_to_bucket, hash_to_tag}
use cuckoo_trie_vectorized.Hash.Bounds.{accumulate_hash-lt}
use cuckoo_trie_vectorized.Symbols.{get_jump_symbol}
use cuckoo_trie_vectorized.Prefetch.Steps.{prefix_hash}
use cuckoo_trie_vectorized.Pairs.{EntryCopy}
use cuckoo_trie_vectorized.Fingers.{
  Finger, Attempt, refused, moved, lost, arrive_at, finger_node_changed,
}
use cuckoo_trie_vectorized.Lookup.Defs.{Objects}
use cuckoo_trie_vectorized.Lookup.Tree.{
  path_hash, Follows, jump_path, IsOnly, jump_test, HasLeaf, here, kv_symbol, Reaches, InTable,
  root_cell, IsSubtree, leaf, jump, bitmap, IsTrie,
}
use cuckoo_trie_vectorized.Lookup.Children.{prefix_hash-lt}
use cuckoo_trie_vectorized.Lookup.Walk.{
  Follows-path_hash, length-jump_path, Follows-jump_symbol, Reaches-HasLeaf, HasLeaf-of_leaf,
  HasLeaf-of_jump, HasLeaf-Follows,
}

pub IsSubtree-jump_size :
    {trie : Trie} {kv_at : Objects} {path : List ℕ} {e : Entry}
    → IsSubtree trie kv_at path e
    → entry_type e ≡ type_jump
    → 0 < entry_jump_size e
IsSubtree-jump_size (leaf t is_kv bytes follows) u = absurd (omega (arith, t, u))
IsSubtree-jump_size (jump t opened some_symbol valid child only sub) u = some_symbol
IsSubtree-jump_size (bitmap t opened valid child only sub) u = absurd (omega (arith, t, u))

module _ (kv_at : Objects) (trie : Trie) (t : IsTrie kv_at trie) (k : ℕ → ℕ)
    (fits : (i : ℕ) → k i ≤ 32) (count : ℕ) where
  abbrev pub root : Entry
  root = entry_at trie root_cell

  abbrev pub node_of : Finger → Entry
  node_of f = f.containing_entry.value

  -- The key of an object has the symbols of the key that is looked for.
  abbrev pub Matches : ℕ → Type 0
  Matches kv = (i : ℕ) → i < count → kv_symbol kv_at kv i ≡ k i

  -- The finger stands in a node of the trie, and a leaf with the key can only be below.
  pub record IsOnPath (f : Finger) : Type 0 where
    pub path : List ℕ
    pub len : f.prefix_len ≡ length path + f.depth_in_jump
    pub follows : Follows k (jump_path (node_of f) f.depth_in_jump path)
    pub subtree : IsSubtree trie kv_at path (node_of f)
    pub inside : entry_type (node_of f) ≡ type_jump → f.depth_in_jump < entry_jump_size (node_of f)
    pub on_top : entry_type (node_of f) ≢ type_jump → f.depth_in_jump ≡ 0
    pub narrow : (kv : ℕ) → HasLeaf trie [] root kv → Matches kv → HasLeaf trie path (node_of f) kv
    pub stands : node_of f ≡ entry_at trie f.containing_entry.last_pos
    pub reaches : Reaches trie path f.containing_entry.last_pos
    pub in_table : InTable trie f.containing_entry.last_pos

  -- A leaf of the trie, and the only one that can have the key.
  pub record IsSettled (f : Finger) : Type 0 where
    pub is_leaf : entry_type (node_of f) ≡ type_leaf
    pub path : List ℕ
    pub stands : node_of f ≡ entry_at trie f.containing_entry.last_pos
    pub reaches : Reaches trie path f.containing_entry.last_pos
    pub in_table : InTable trie f.containing_entry.last_pos
    pub reached : HasLeaf trie [] root (entry_kv (node_of f))
    pub only : (kv : ℕ) → HasLeaf trie [] root kv → Matches kv → kv ≡ entry_kv (node_of f)

  -- An inner node where the key is missing.
  pub record IsMissing (f : Finger) : Type 0 where
    pub is_inner : entry_type (node_of f) ≢ type_leaf
    pub none_below : (kv : ℕ) → HasLeaf trie [] root kv → ¬ Matches kv

  abbrev pub Stop : Finger → Type 0
  Stop f = IsSettled f ⊎ IsMissing f

  widen :
      (f : Finger) (h : IsOnPath f) (kv : ℕ)
      → HasLeaf trie h.path (node_of f) kv
      → HasLeaf trie [] root kv
  widen f h kv below =
      Reaches-HasLeaf trie h.reaches
        (subst (λ (e : Entry). HasLeaf trie h.path e kv) h.stands below)

  pub leaf-IsSettled : (f : Finger) → IsOnPath f → entry_type (node_of f) ≡ type_leaf → IsSettled f
  leaf-IsSettled f h is_leaf = record {
    is_leaf = is_leaf;
    path = h.path;
    stands = h.stands;
    reaches = h.reaches;
    in_table = h.in_table;
    reached = widen f h (entry_kv (node_of f)) (here is_leaf refl);
    only = λ kv below same. sym (HasLeaf-of_leaf trie (h.narrow kv below same) is_leaf);
  }

  module _ (f : Finger) (h : IsOnPath f) (more : f.prefix_len < count) where
    abbrev pub node : Entry
    node = f.containing_entry.value

    abbrev pub next : ℕ
    next = k f.prefix_len

    abbrev pub next_hash : ℕ
    next_hash = prefix_hash trie k (suc f.prefix_len)

    -- What an attempt must lead to.
    abbrev pub Onward : Attempt → Type 0
    Onward refused = Stop f
    Onward (moved f') = IsOnPath f' × (f'.prefix_len ≡ suc f.prefix_len)
    Onward lost = ⊥

    pub in_range : (hash_to_bucket next_hash < trie.num_buckets) × (hash_to_tag next_hash < 16)
    unfolding prefix_hash
    in_range =
        let bounds =
          accumulate_hash-lt trie t.geometry (prefix_hash trie k f.prefix_len) next
            (prefix_hash-lt trie k f.prefix_len t.geometry fits) (fits f.prefix_len) in
        (bounds.1, bounds.2)

    -- The finger on a child that a search found.
    module _ (below : List ℕ) (child : Cell)
        (sub : IsSubtree trie kv_at below (entry_at trie child)) (follows : Follows k below)
        (len : length below ≡ suc f.prefix_len)
        (narrow : (kv : ℕ)
          → HasLeaf trie [] root kv
          → Matches kv
          → HasLeaf trie below (entry_at trie child) kv)
        (reaches : Reaches trie below child) where
      pub hash_eq : path_hash trie below ≡ next_hash
      hash_eq = Follows-path_hash k trie below follows ∙ ap (λ (n : ℕ). prefix_hash trie k n) len

      pub arrive_at-Onward :
          (g : Finger) (found : EntryCopy)
          → g.prefix_len ≡ suc f.prefix_len
          → found.last_pos ≡ child
          → found.value ≡ entry_at trie found.last_pos
          → InTable trie found.last_pos
          → Onward (arrive_at g false (some found))
      unfolding arrive_at finger_node_changed
      arrive_at-Onward g found g_len place stands in_table = (
        record {
          path = below;
          len = omega (arith, len, g_len);
          follows = follows;
          subtree =
              subst (IsSubtree trie kv_at below) (sym (stands ∙ ap (entry_at trie) place)) sub;
          inside =
              IsSubtree-jump_size
                (subst (IsSubtree trie kv_at below) (sym (stands ∙ ap (entry_at trie) place)) sub);
          on_top = λ other. refl;
          narrow = λ kv in_root same.
              subst (λ (e : Entry). HasLeaf trie below e kv)
                (sym (stands ∙ ap (entry_at trie) place)) (narrow kv in_root same);
          stands = stands;
          reaches = subst (Reaches trie below) (sym place) reaches;
          in_table = in_table;
        },
        g_len,
      )

    module _ (is_jump : entry_type node ≡ type_jump)
        (valid : entry_child_color node ≤ max_valid_color) (child : Cell)
        (only : IsOnly trie
          (jump_test trie node (jump_path node (entry_jump_size node) h.path))
          (path_hash trie (jump_path node (entry_jump_size node) h.path))
          child)
        (sub : IsSubtree trie kv_at
          (jump_path node (entry_jump_size node) h.path)
          (entry_at trie child)) where
      pub below_jump :
          (kv : ℕ)
          → HasLeaf trie [] root kv
          → Matches kv
          → HasLeaf trie (jump_path node (entry_jump_size node) h.path) (entry_at trie child) kv
      below_jump kv in_root same =
          HasLeaf-of_jump trie child (h.narrow kv in_root same) is_jump only

      pub jump-IsMissing : get_jump_symbol node f.depth_in_jump ≢ next → IsMissing f
      jump-IsMissing differs = record {
        is_inner = λ e. omega (arith, e, is_jump);
        none_below = λ kv in_root same. differs (
            sym (
              Follows-jump_symbol (kv_symbol kv_at kv) node (entry_jump_size node) f.depth_in_jump
                h.path (HasLeaf-Follows trie kv_at sub (below_jump kv in_root same))
                (h.inside is_jump))
            ∙ ap (kv_symbol kv_at kv) (sym h.len)
            ∙ same f.prefix_len more);
      }

      pub extended_path :
          get_jump_symbol node f.depth_in_jump ≡ next
          → Follows k (jump_path node (suc f.depth_in_jump) h.path)
      extended_path same =
          (ap k (length-jump_path node f.depth_in_jump h.path ∙ sym h.len) ∙ sym same, h.follows)

      pub deeper-Onward :
          (g : Finger)
          → get_jump_symbol node f.depth_in_jump ≡ next
          → suc f.depth_in_jump ≢ entry_jump_size node
          → g.prefix_len ≡ suc f.prefix_len
          → g.depth_in_jump ≡ suc f.depth_in_jump
          → g.containing_entry ≡ f.containing_entry
          → Onward (moved g)
      deeper-Onward g same more_symbols len depth entry = (
        record {
          path = h.path;
          len = omega (arith, len, depth, h.len);
          follows = rw (entry, depth) (extended_path same);
          subtree = rw (entry) h.subtree;
          inside = λ u. rw (entry) (omega (arith, depth, more_symbols, h.inside is_jump));
          on_top = λ other. absurd (other (rw (entry) is_jump));
          narrow = λ kv in_root matches. rw (entry) (h.narrow kv in_root matches);
          stands = rw (entry) h.stands;
          reaches = rw (entry) h.reaches;
          in_table = rw (entry) h.in_table;
        },
        len,
      )
