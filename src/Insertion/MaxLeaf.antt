-- ===== src/Insertion/MaxLeaf.antt =====
-- A changed `max_leaf` reaches each node of which its leaf is the last one.
use cuckoo_trie_vectorized.Base.{
  ℕ, zero, suc, ◌-◌, ◌<◌, ◌≤◌, ◌≡◌, ◌≢◌, refl, sym, ap, ◌∙◌, subst, arith, true, false, if_rule,
  List, Option, none, some, length, set, length-set, get_or-set_self, get_or-set_ne, inl, inr,
  ℕ_discrete, ltb, if◌then◌else◌,
}
use cuckoo_trie_vectorized.Entry.{Entry, Locator}
use cuckoo_trie_vectorized.Entry.Bytes.{IsEntry, IsLocator}
use cuckoo_trie_vectorized.Trie.{Trie, Cell, entry_at, set_bucket}
use cuckoo_trie_vectorized.Relocate.{set_entry}
use cuckoo_trie_vectorized.Relocate.Queue.{IsTable}
use cuckoo_trie_vectorized.Relocate.Writes.{
  set_entry-IsTable, entry_at-set_entry, entry_at-set_entry_ne,
}
use cuckoo_trie_vectorized.Fingers.{PathEntry}
use cuckoo_trie_vectorized.Iterators.{path_slot}
use cuckoo_trie_vectorized.Lookup.Tree.{InTable}
use cuckoo_trie_vectorized.Update.{update_entry_single_threaded}
use cuckoo_trie_vectorized.Update.Writes.{Cell-cases}
use cuckoo_trie_vectorized.Update.Refines.{update_entry-still}
use cuckoo_trie_vectorized.Insertion.Defs.{comes_from_smaller, propagate_from, propagate_max_leaf}
use cuckoo_trie_vectorized.Insertion.Paths.{
  node, place_of, IsOnTable, IsSmallerChild, test-IsSmallerChild, IsPropagated, Propagated,
}

-- The loop over a path that was changed from position `n` on.
module _ (top : ℕ) (max_leaf : Locator) (fits : IsLocator max_leaf) (path0 : List PathEntry) where
  pub record IsBelow (trie : Trie) (path : List PathEntry) (n : ℕ) : Type 0 where
    pub table : IsTable trie
    pub on_table : IsOnTable trie path0 n
    pub same_length : length path ≡ length path0
    pub agree : (i : ℕ) → i < n → path_slot path i ≡ path_slot path0 i
    pub symbol : (node path n).last_symbol ≡ (node path0 n).last_symbol
    pub link : (node path n).link ≡ max_leaf

  abbrev IsDone : Trie → ℕ → Trie → Type 0
  IsDone trie n trie' = IsPropagated trie path0 top n max_leaf trie'

  -- The top is reached.
  nothing_above : (trie : Trie) (n : ℕ) → n ≤ top → IsDone trie n trie
  nothing_above trie n above = record {
    changed = λ i from below. absurd (omega (arith, from, below, above));
    stopped = λ i j from up below. absurd (omega (arith, from, up, below, above));
    others = λ c elsewhere. refl;
  }

  module _ (trie : Trie) (path : List PathEntry) (n : ℕ) (h : IsBelow trie path (suc n)) where
    abbrev slot : PathEntry
    slot = path_slot path0 n

    abbrev pos : Cell
    pos = place_of path0 n

    abbrev new_value : Entry
    new_value = record (node path0 n) { link = max_leaf }

    abbrev trie' : Trie
    trie' = set_entry trie pos new_value

    abbrev path' : List PathEntry
    path' =
        set path n (record slot { entry = record slot.entry { value = new_value; last_seq = 0 } })

    in_table : InTable trie pos
    in_table = h.on_table.in_table n (omega arith)

    below_length : pos.bucket < length trie.buckets
    below_length = omega (arith, in_table, h.table.enough_buckets)

    written : entry_at trie' pos ≡ new_value
    written =
        entry_at-set_entry trie pos new_value below_length
          (omega (arith, in_table, h.table.four_cells pos.bucket in_table.0))

    elsewhere : (c : Cell) → c ≢ pos → entry_at trie' c ≡ entry_at trie c
    elsewhere c other = elim (Cell-cases c pos) [
      | inl same ↦ absurd (other same)
      | inr differs ↦ entry_at-set_entry_ne trie pos new_value below_length c.bucket c.index differs
    ]

    same_size : trie'.num_buckets ≡ trie.num_buckets
    unfolding set_entry set_bucket
    same_size = refl

    new_value-IsEntry : IsEntry new_value
    new_value-IsEntry =
        let old : IsEntry (node path0 n) =
          subst IsEntry (sym (h.on_table.stands n (omega arith)))
            (h.table.stored pos.bucket pos.index in_table.0) in
        record {
          flags_fit = old.flags_fit;
          color_and_tag_fits = old.color_and_tag_fits;
          last_symbol_fits = old.last_symbol_fits;
          body_fits = old.body_fits;
          link_fits = fits;
        }

    path'-slot :
        path_slot path' n
        ≡ record slot { entry = record slot.entry { value = new_value; last_seq = 0 } }
    path'-slot = get_or-set_self path n _ _ (omega (arith, h.same_length, h.on_table.inside))

    next-IsBelow : IsBelow trie' path' n
    next-IsBelow = record {
      table = set_entry-IsTable trie pos new_value h.table in_table.0 in_table.1 new_value-IsEntry;
      on_table = record {
        inside = omega (arith, h.on_table.inside);
        in_table = λ i below.
            let old = h.on_table.in_table i (omega (arith, below)) in
            (omega (arith, old.0, same_size), old.1);
        stands = λ i below.
            h.on_table.stands i (omega (arith, below))
            ∙ sym (elsewhere (place_of path0 i) (h.on_table.distinct i n below (omega arith)));
        distinct = λ i j up below. h.on_table.distinct i j up (omega (arith, below));
      };
      same_length = length-set path n _ ∙ h.same_length;
      agree = λ i below.
          get_or-set_ne path n i _ _ (λ e. omega (arith, e, below))
          ∙ h.agree i (omega (arith, below));
      symbol = ap (λ (x : PathEntry). x.entry.value.last_symbol) path'-slot;
      link = ap (λ (x : PathEntry). x.entry.value.link) path'-slot;
    }

    extended :
        top ≤ n
        → comes_from_smaller (node path0 n) (node path0 (suc n)) ≡ false
        → (last : Trie) → IsDone trie' n last
        → IsDone trie (suc n) last
    extended reached maximal last done = record {
      changed = λ i from below all. elim (ℕ_discrete i n) [
        | yes same ↦
            subst
              (λ (k : ℕ).
                entry_at last (place_of path0 k) ≡ record (node path0 k) { link = max_leaf })
              (sym same)
              (done.others pos
                  (λ k up below' e. h.on_table.distinct k n below' (omega arith) (sym e))
                ∙ written)
        | no other ↦
            done.changed i from (omega (arith, below, other))
              (λ j up below'. all j up (omega (arith, below')))
      ];
      stopped = λ i j from up below smaller. elim (ℕ_discrete j n) [
        | yes same ↦ absurd (
            (test-IsSmallerChild (node path0 n) (node path0 (suc n))).1
              (subst (λ (k : ℕ). IsSmallerChild (node path0 k) (node path0 (suc k))) same smaller)
              maximal)
        | no other ↦ done.stopped i j from up (omega (arith, below, other)) smaller
      ];
      others = λ c away.
          done.others c (λ i up below. away i up (omega (arith, below)))
          ∙ elsewhere c (away n reached (omega arith));
    }

    -- A node that the path leaves by a child that is not its last one stops the change.
    stops : comes_from_smaller (node path0 n) (node path0 (suc n)) ≡ true → IsDone trie (suc n) trie
    stops smaller = record {
      changed = λ i from below all. absurd (
          let child = (test-IsSmallerChild (node path0 n) (node path0 (suc n))).0 smaller in
          let last = all n (omega (arith, below)) (omega arith) child.0 in
          omega (arith, child.1, last));
      stopped = λ i j from up below smaller'. sym (h.on_table.stands i (omega (arith, up, below)));
      others = λ c away. refl;
    }

    same_test :
        comes_from_smaller (node path n) (node path (suc n))
        ≡ comes_from_smaller (node path0 n) (node path0 (suc n))
    unfolding comes_from_smaller
    same_test = rw (h.symbol) (
        ap (λ (x : PathEntry). comes_from_smaller x.entry.value (node path0 (suc n)))
          (h.agree n (omega arith)))

    -- The loop behind the update of a node.
    continue : PathEntry → Locator → Option (Trie × List PathEntry)
    continue x l =
        elim (update_entry_single_threaded trie x.entry (record x.entry.value { link = l })) [
          | none ↦ none
          | some (t, copy) ↦ propagate_from top n t (set path n (record x { entry = copy }))
        ]

    continue-still :
        continue (path_slot path n) (node path (suc n)).link ≡ propagate_from top n trie' path'
    unfolding continue
    continue-still =
        ap (λ (x : PathEntry). continue x (node path (suc n)).link) (h.agree n (omega arith))
        ∙ ap (λ (l : Locator). continue slot l) h.link
        ∙ rw
            (
              continue,
              update_entry-still trie slot.entry new_value (h.on_table.stands n (omega arith)),
            )
            refl

    -- One node more than the rest of the loop.
    one_more :
        top ≤ n
        → comes_from_smaller (node path n) (node path (suc n)) ≡ false
        → Propagated trie' path0 top n max_leaf (propagate_from top n trie' path')
        → Propagated trie path0 top
            (suc n)
            max_leaf
            (continue (path_slot path n) (node path (suc n)).link)
    one_more reached maximal (last, last_path, e, done) =
        (last, last_path, continue-still ∙ e, extended reached (sym same_test ∙ maximal) last done)

  loop-Propagated :
      (n : ℕ) (trie : Trie) (path : List PathEntry)
      → IsBelow trie path n
      → Propagated trie path0 top n max_leaf (propagate_from top n trie path)
  unfolding propagate_from continue
  loop-Propagated zero trie path h = (trie, path, refl, nothing_above trie zero (omega arith))
  loop-Propagated (suc n) trie path h =
      if_rule (λ (r : Option (Trie × List PathEntry)). Propagated trie path0 top (suc n) max_leaf r)
        (ltb top (suc n))
        (if comes_from_smaller (node path n) (node path (suc n))
          then some (trie, path)
          else continue trie path n h (path_slot path n) (node path (suc n)).link)
        (some (trie, path))
        (λ below.
          if_rule
            (λ (r : Option (Trie × List PathEntry)). Propagated trie path0 top (suc n) max_leaf r)
            (comes_from_smaller (node path n) (node path (suc n))) (some (trie, path))
            (continue trie path n h (path_slot path n) (node path (suc n)).link)
            (λ smaller.
              (trie, path, refl, stops trie path n h (sym (same_test trie path n h) ∙ smaller)))
            (λ maximal. one_more trie path n h (ground (arith, below)) maximal (
              loop-Propagated n (trie' trie path n h) (path' trie path n h)
                (next-IsBelow trie path n h))))
        (λ above. (trie, path, refl, nothing_above trie (suc n) (ground (arith, above))))

-- On a path whose nodes above the last one stand in the table, each in a cell of its own, and for a
-- locator of stored bytes in the last node, propagate_max_leaf always returns. Each node from the top
-- on from which the path goes down through last children only has this locator as its max_leaf, each
-- node above a child that is not the last one of its bitmap is as it was, and so are all other cells.
pub propagate_max_leaf-Propagated :
    (trie : Trie) (path : List PathEntry) (top n : ℕ)
    → length path ≡ suc n
    → IsTable trie
    → IsOnTable trie path n
    → IsLocator (node path n).link
    → Propagated trie path top n (node path n).link (propagate_max_leaf trie path top)
unfolding propagate_max_leaf
propagate_max_leaf-Propagated trie path top n size table on_table fits =
    let last : length path - 1 ≡ n = omega (arith, size) in
    rw (last) (
      loop-Propagated top (node path n).link fits path n trie path (record {
        table = table;
        on_table = on_table;
        same_length = refl;
        agree = λ i below. refl;
        symbol = refl;
        link = refl;
      }))
