-- ===== src/Lookup/Rounds.antt =====
-- `try_descend` in a trie that nobody writes in, at each kind of node.
use cuckoo_trie_vectorized.Base.{
  ℕ, suc, ◌<◌, ◌≤◌, ◌≡◌, ◌≢◌, refl, sym, ap, ◌∙◌, arith, subst, true, false, ◌==◌, ==_iff, if_rule,
  List, [], ◌∷◌, length, inl, inr, ◌⊎◌, Option,
}
use cuckoo_trie_vectorized.Config.{type_bitmap, type_jump, max_valid_color}
use cuckoo_trie_vectorized.Entry.{
  Entry, entry_type, entry_color, entry_jump_size, entry_child_color,
}
use cuckoo_trie_vectorized.Trie.{Trie, Cell, entry_at}
use cuckoo_trie_vectorized.Hash.{hash_to_bucket, hash_to_tag}
use cuckoo_trie_vectorized.BitString.{get_bit}
use cuckoo_trie_vectorized.Symbols.{get_jump_symbol}
use cuckoo_trie_vectorized.Pairs.{
  EntryCopy, still, find_entry_in_pair_by_color, find_entry_in_pair_by_parent,
}
use cuckoo_trie_vectorized.Fingers.{
  Finger, Attempt, refused, moved, child_bitmap, arrive_at, descend_jump, descend_bitmap,
  try_descend, finger_extend_prefix_known_hash,
}
use cuckoo_trie_vectorized.Lookup.Defs.{Objects}
use cuckoo_trie_vectorized.Lookup.Tree.{
  path_hash, Follows, jump_path, IsBit, IsOnly, jump_test, bitmap_test, HasLeaf, Reaches, by_jump,
  by_bitmap, kv_symbol, IsSubtree, root_cell, IsTrie, color_test, parent_test,
}
use cuckoo_trie_vectorized.Lookup.Children.{find_by_color-child, find_by_parent-child}
use cuckoo_trie_vectorized.Lookup.Walk.{
  length-jump_path, HasLeaf-of_bitmap, HasLeaf-Follows, IsLeaf, IsJump, IsBitmap, node_cases,
}
use cuckoo_trie_vectorized.Lookup.Attempts
use cuckoo_trie_vectorized.Lookup.Attempts.{
  Matches, IsOnPath, IsSettled, IsMissing, Stop, leaf-IsSettled,
}

==_ne : (a b : ℕ) → (a == b) ≡ false → a ≢ b
==_ne a b h e = ground (arith, h, e)

module _ (kv_at : Objects) (trie : Trie) (t : IsTrie kv_at trie) (k : ℕ → ℕ)
    (fits : (i : ℕ) → k i ≤ 32) (count : ℕ) (f : Finger) (h : IsOnPath kv_at trie t k fits count f)
    (more : f.prefix_len < count) where
  abbrev node : Entry
  node = f.containing_entry.value

  abbrev next : ℕ
  next = k f.prefix_len

  abbrev next_hash : ℕ
  next_hash = Attempts.next_hash kv_at trie t k fits count f h more

  abbrev pub Onward : Attempt → Type 0
  Onward = Attempts.Onward kv_at trie t k fits count f h more

  abbrev extended : Finger
  extended = finger_extend_prefix_known_hash f next next_hash

  abbrev deeper : Finger
  deeper = record extended { depth_in_jump = suc f.depth_in_jump }

  in_range : (hash_to_bucket next_hash < trie.num_buckets) × (hash_to_tag next_hash < 16)
  in_range = Attempts.in_range kv_at trie t k fits count f h more

  module _ (is_jump : entry_type node ≡ type_jump)
      (valid : entry_child_color node ≤ max_valid_color) (child : Cell)
      (only : IsOnly trie
        (jump_test trie node (jump_path node (entry_jump_size node) h.path))
        (path_hash trie (jump_path node (entry_jump_size node) h.path))
        child)
      (sub : IsSubtree trie kv_at
        (jump_path node (entry_jump_size node) h.path)
        (entry_at trie child)) where
    abbrev below : List ℕ
    below = jump_path node (entry_jump_size node) h.path

    jump_child-Onward :
        get_jump_symbol node f.depth_in_jump ≡ next
        → suc f.depth_in_jump ≡ entry_jump_size node
        → Onward (
            arrive_at deeper false (
              find_entry_in_pair_by_color trie
                (still trie)
                (hash_to_bucket next_hash)
                (hash_to_tag next_hash)
                (entry_child_color node)))
    unfolding finger_extend_prefix_known_hash
    jump_child-Onward same last =
        let (found, e, place, stands, in_table) =
          find_by_color-child kv_at trie t next_hash in_range.0 in_range.1 child
            (entry_child_color node) valid
            (subst
              (λ (hash : ℕ).
                IsOnly trie (color_test (hash_to_tag hash) (entry_child_color node)) hash child)
              (Attempts.hash_eq kv_at trie t k fits count f h more below child sub follows len
                narrow reaches)
              only) in
        subst (λ (o : Option EntryCopy). Onward (arrive_at deeper false o)) (sym e)
          (Attempts.arrive_at-Onward kv_at trie t k fits count f h more below child sub follows len
            narrow reaches deeper found refl place stands in_table)
      where
        follows : Follows k below
        follows =
            subst (λ (n : ℕ). Follows k (jump_path node n h.path)) last
              (Attempts.extended_path kv_at trie t k fits count f h more is_jump valid child only
                sub same)

        len : length below ≡ suc f.prefix_len
        len = omega (arith, length-jump_path node (entry_jump_size node) h.path, last, h.len)

        narrow :
            (kv : ℕ)
            → HasLeaf trie [] (entry_at trie root_cell) kv
            → Matches kv_at trie t k fits count kv
            → HasLeaf trie below (entry_at trie child) kv
        narrow = Attempts.below_jump kv_at trie t k fits count f h more is_jump valid child only sub

        reaches : Reaches trie below child
        reaches = by_jump h.reaches h.stands is_jump child only.placed

    descend_jump-Onward : Onward (descend_jump trie (still trie) f next false next_hash)
    unfolding descend_jump finger_extend_prefix_known_hash
    descend_jump-Onward =
        if_rule Onward (get_jump_symbol node f.depth_in_jump == next) _ refused
          (λ same.
            let same_symbol = (==_iff (get_jump_symbol node f.depth_in_jump) next).0 same in
            if_rule Onward (suc f.depth_in_jump == entry_jump_size node)
              (arrive_at deeper false (
                find_entry_in_pair_by_color trie (still trie) (hash_to_bucket next_hash)
                  (hash_to_tag next_hash) (entry_child_color node)))
              (moved deeper)
              (λ last.
                jump_child-Onward same_symbol
                  ((==_iff (suc f.depth_in_jump) (entry_jump_size node)).0 last))
              (λ inside.
                Attempts.deeper-Onward kv_at trie t k fits count f h more is_jump valid child only
                  sub deeper same_symbol (==_ne (suc f.depth_in_jump) (entry_jump_size node) inside)
                  refl refl refl))
          (λ differs. inr (
            Attempts.jump-IsMissing kv_at trie t k fits count f h more is_jump valid child only sub
              (==_ne (get_jump_symbol node f.depth_in_jump) next differs)))

  module _ (is_bitmap : entry_type node ≡ type_bitmap) (valid : entry_color node ≤ max_valid_color)
      (child : ℕ → Cell)
      (only : (s : ℕ)
        → IsBit node s
        → IsOnly trie (bitmap_test trie node h.path s) (path_hash trie (s ∷ h.path)) (child s))
      (sub : (s : ℕ)
        → IsBit node s
        → IsSubtree trie kv_at (s ∷ h.path) (entry_at trie (child s))) where
    on_top : f.depth_in_jump ≡ 0
    on_top = h.on_top (λ e. omega (arith, e, is_bitmap))

    here_len : length h.path ≡ f.prefix_len
    here_len = omega (arith, on_top, h.len)

    below_bitmap :
        (kv : ℕ)
        → HasLeaf trie [] (entry_at trie root_cell) kv
        → Matches kv_at trie t k fits count kv
        → IsBit node next × HasLeaf trie (next ∷ h.path) (entry_at trie (child next)) kv
    below_bitmap kv in_root matches =
        let (s, bit, under) =
          HasLeaf-of_bitmap trie child (h.narrow kv in_root matches) is_bitmap only in
        let same : s ≡ next =
          sym (HasLeaf-Follows trie kv_at (sub s bit) under).0
          ∙ ap (kv_symbol kv_at kv) here_len
          ∙ matches f.prefix_len more in
        (
          subst (IsBit node) same bit,
          subst (λ (i : ℕ). HasLeaf trie (i ∷ h.path) (entry_at trie (child i)) kv) same under,
        )

    bitmap-IsMissing :
        get_bit (child_bitmap node) next ≡ false → IsMissing kv_at trie t k fits count f
    bitmap-IsMissing has_not = record {
      is_inner = λ e. omega (arith, e, is_bitmap);
      none_below = λ kv in_root matches. cc (has_not, (below_bitmap kv in_root matches).0.1);
    }

    bitmap_child-Onward :
        get_bit (child_bitmap node) next ≡ true
        → Onward (
            arrive_at extended false (
              find_entry_in_pair_by_parent trie
                (still trie)
                (hash_to_bucket next_hash)
                (hash_to_tag next_hash)
                next
                (entry_color node)))
    unfolding finger_extend_prefix_known_hash
    bitmap_child-Onward has =
        let (found, e, place, stands, in_table) =
          find_by_parent-child kv_at trie t next_hash in_range.0 in_range.1 (child next) next
            (entry_color node) (fits f.prefix_len) valid
            (subst
              (λ (hash : ℕ).
                IsOnly trie (parent_test (hash_to_tag hash) next (entry_color node)) hash
                  (child next))
              (Attempts.hash_eq kv_at trie t k fits count f h more below (child next) (sub next bit)
                follows len narrow reaches)
              (only next bit)) in
        subst (λ (o : Option EntryCopy). Onward (arrive_at extended false o)) (sym e)
          (Attempts.arrive_at-Onward kv_at trie t k fits count f h more below (child next)
            (sub next bit) follows len narrow reaches extended found refl place stands in_table)
      where
        bit : IsBit node next
        bit = (fits f.prefix_len, has)

        below : List ℕ
        below = next ∷ h.path

        len : length (next ∷ h.path) ≡ suc f.prefix_len
        len = ap suc here_len

        follows : Follows k (next ∷ h.path)
        follows =
            (ap k here_len, subst (λ (n : ℕ). Follows k (jump_path node n h.path)) on_top h.follows)

        narrow :
            (kv : ℕ)
            → HasLeaf trie [] (entry_at trie root_cell) kv
            → Matches kv_at trie t k fits count kv
            → HasLeaf trie (next ∷ h.path) (entry_at trie (child next)) kv
        narrow kv in_root matches = (below_bitmap kv in_root matches).1

        reaches : Reaches trie (next ∷ h.path) (child next)
        reaches =
            by_bitmap h.reaches h.stands is_bitmap next bit (child next) (only next bit).placed

    descend_bitmap-Onward : Onward (descend_bitmap trie (still trie) f next false next_hash)
    unfolding descend_bitmap finger_extend_prefix_known_hash
    descend_bitmap-Onward =
        if_rule Onward (get_bit (child_bitmap node) next)
          (arrive_at extended false (
            find_entry_in_pair_by_parent trie (still trie) (hash_to_bucket next_hash)
              (hash_to_tag next_hash) next (entry_color node)))
          refused (λ has. bitmap_child-Onward has) (λ has_not. inr (bitmap-IsMissing has_not))

  node-Onward :
      IsLeaf trie kv_at h.path node
        ⊎ (IsJump trie kv_at h.path node ⊎ IsBitmap trie kv_at h.path node)
      → Onward (try_descend trie (still trie) f next false next_hash)
  unfolding try_descend
  node-Onward (inl l) =
      rw (l.is_leaf) (inl (leaf-IsSettled kv_at trie t k fits count f h l.is_leaf))
  node-Onward (inr (inl j)) =
      rw (j.is_jump) (descend_jump-Onward j.is_jump j.valid j.child j.only j.sub)
  node-Onward (inr (inr b)) =
      rw (b.is_bitmap) (descend_bitmap-Onward b.is_bitmap b.valid b.child b.only b.sub)

  pub try_descend-Onward : Onward (try_descend trie (still trie) f next false next_hash)
  try_descend-Onward = node-Onward (node_cases trie kv_at h.subtree)
