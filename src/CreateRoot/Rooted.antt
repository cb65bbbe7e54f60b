-- ===== src/CreateRoot/Rooted.antt =====
-- `create_root` against the map and the list that a trie stands for.
use cuckoo_trie_vectorized.Base.{
  ℕ, ◌<◌, ◌≡◌, ◌≢◌, ◌↔◌, refl, sym, ap, ◌∙◌, subst, arith, Bool, true, false, [], ◌∷◌, inl, inr,
  get_or,
}
use cuckoo_trie_vectorized.Config.{type_leaf, root_color}
use cuckoo_trie_vectorized.Entry.{
  Entry, entry_type, entry_kv, entry_color, entry_tag, entry_is_secondary,
}
use cuckoo_trie_vectorized.Entry.Bytes.{IsEntry}
use cuckoo_trie_vectorized.Entry.Fields.{IsCanonical}
use cuckoo_trie_vectorized.Trie.{Trie, Cell, entry_at, cell_at, bucket_at, set_bucket}
use cuckoo_trie_vectorized.Hash.{hash_to_bucket, hash_to_tag}
use cuckoo_trie_vectorized.Hash.Pair.{mix-unmix_inverse}
use cuckoo_trie_vectorized.Alloc.{trie_min_leaf}
use cuckoo_trie_vectorized.Locks.{si_ok, si_exists}
use cuckoo_trie_vectorized.Keys.Order.{IsKv}
use cuckoo_trie_vectorized.Pairs.Flags.{IsBucket-IsCell}
use cuckoo_trie_vectorized.Relocate.{set_entry}
use cuckoo_trie_vectorized.Lookup.{Objects}
use cuckoo_trie_vectorized.Lookup.Tree.{
  IsTrie, IsSubtree, leaf, HasLeaf, here, Holds, IsPlaced, IsOnly, color_test, root_cell, place,
}
use cuckoo_trie_vectorized.Lookup.Walk.{HasLeaf-of_leaf}
use cuckoo_trie_vectorized.Update.Writes.{Cell-cases}
use cuckoo_trie_vectorized.Iterators.Listed.{IsLink, LeafList, list_next, list_end, IsListed}
use cuckoo_trie_vectorized.CreateRoot.Defs.{root_leaf, create_root}
use cuckoo_trie_vectorized.Alloc.Table.{IsFresh}
use cuckoo_trie_vectorized.CreateRoot.Ready.{IsReady, IsFresh-IsReady}
use cuckoo_trie_vectorized.CreateRoot.Tables
use cuckoo_trie_vectorized.CreateRoot.Tables.{
  entry_kv-root_leaf, created-root, created-unused, created-head, created-IsBucket, created-quiet,
  created-IsGeometry,
}

-- A key object that an entry can name.
pub record IsObject (kv_at : Objects) (kv : ℕ) : Type 0 where
  pub is_kv : IsKv (kv_at kv)
  pub bytes : (i : ℕ) → get_or (kv_at kv).bytes i 0 < 256
  pub canonical : IsCanonical kv

module _ (kv_at : Objects) (trie : Trie) (fresh : IsReady kv_at trie) (unread : Entry)
    (stored : IsEntry unread) (kv : ℕ) (object : IsObject kv_at kv) where
  abbrev created : Trie
  created = Tables.created kv_at trie fresh unread kv stored

  abbrev root : Entry
  root = root_leaf unread kv

  at_root : entry_at created root_cell ≡ root
  at_root = created-root kv_at trie fresh unread kv stored

  root_kv : entry_kv root ≡ kv
  root_kv = entry_kv-root_leaf unread kv stored object.canonical

  root_type : entry_type root ≡ type_leaf
  unfolding root_leaf entry_type cuckoo_trie_vectorized.Entry.entry_set_kv
  root_type = refl

  root-IsSubtree : IsSubtree created kv_at [] root
  root-IsSubtree =
      leaf root_type (subst (λ (q : ℕ). IsKv (kv_at q)) (sym root_kv) object.is_kv)
        (subst (λ (q : ℕ). (i : ℕ) → get_or (kv_at q).bytes i 0 < 256) (sym root_kv) object.bytes)
        tt

  same_size : created.num_buckets ≡ trie.num_buckets
  unfolding set_entry set_bucket
  same_size = refl

  created-IsTrie : IsTrie kv_at created
  created-IsTrie = record {
    geometry = created-IsGeometry kv_at trie fresh unread kv stored;
    buckets = λ b below.
        created-IsBucket kv_at trie fresh unread kv stored b (omega (arith, below, same_size));
    quiet = λ b below.
        created-quiet kv_at trie fresh unread kv stored b (omega (arith, below, same_size));
    rooted = λ rooted. subst (IsSubtree created kv_at []) (sym at_root) root-IsSubtree;
  }

  created-Holds : (q : ℕ) → Holds created q ↔ (q ≡ kv)
  created-Holds q = (
    λ holds.
        sym (
          HasLeaf-of_leaf created
            (subst (λ (e : Entry). HasLeaf created [] e q) at_root holds.leaf_below) root_type)
        ∙ root_kv,
    λ same. record {
      not_empty = refl;
      leaf_below =
          here (ap entry_type at_root ∙ root_type) (ap entry_kv at_root ∙ root_kv ∙ sym same);
    },
  )

  place-lt : (s : Bool) (i : ℕ) → (place created 0 s i).bucket < created.num_buckets
  unfolding hash_to_bucket hash_to_tag
  place-lt false i = omega (arith, same_size, fresh.is_trie.geometry.some_buckets)
  place-lt true i =
      (mix-unmix_inverse created 0 0 (created-IsGeometry kv_at trie fresh unread kv stored)
        (omega (arith, same_size, fresh.is_trie.geometry.some_buckets))).0

  -- An unused cell does not pass the test for a colour.
  not_blank :
      (other : Cell)
      → IsPlaced created (color_test (hash_to_tag 0) root_color) 0 other
      → (other.bucket ≡ root_cell.bucket → other.index ≢ root_cell.index)
      → ⊥
  unfolding entry_at cell_at entry_color
  not_blank other p differs =
      let below : other.bucket < trie.num_buckets = omega (
        arith,
        same_size,
        ap (λ (c : Cell). c.bucket) p.pos_eq,
        place-lt p.is_secondary other.index,
      ) in
      let unused =
        created-unused kv_at trie fresh unread kv stored other (below, p.index_fits) differs in
      let cell =
        IsBucket-IsCell (bucket_at created other.bucket).cells other.index p.index_fits
          (created-IsBucket kv_at trie fresh unread kv stored other.bucket below) in
      ground (arith, p.passes, (cell.1 unused).1)

  -- Only the root has a valid colour.
  root-IsOnly : IsOnly created (color_test (hash_to_tag 0) root_color) 0 root_cell
  unfolding hash_to_bucket hash_to_tag entry_color entry_tag entry_is_secondary root_leaf
      cuckoo_trie_vectorized.Entry.entry_set_kv
  root-IsOnly = record {
    placed = record {
      is_secondary = false;
      index_fits = omega arith;
      pos_eq = refl;
      passes = rw (at_root) refl;
    };
    alone = λ other p. elim (Cell-cases other root_cell) [
      | inl same ↦ same
      | inr differs ↦ absurd (not_blank other p differs)
    ];
  }

  created-LeafList :
      (e : Entry)
      → e.link ≡ record { primary_bucket = 0; tag = 0; color = root_color }
      → LeafList created e (kv ∷ [])
  unfolding hash_to_bucket hash_to_tag root_leaf
  created-LeafList e link =
      list_next root_cell (subst (λ (l : _). IsLink created l root_cell) (sym link) root-IsLink)
        (ap entry_type at_root ∙ root_type) (ap entry_kv at_root ∙ root_kv)
        (list_end (ap (λ (x : Entry). x.link.primary_bucket) at_root))
    where
      root-IsLink :
          IsLink created (record { primary_bucket = 0; tag = 0; color = root_color }) root_cell
      root-IsLink = record {
        hash = 0;
        bucket_eq = refl;
        tag_eq = refl;
        in_range = omega (arith, same_size, fresh.is_trie.geometry.some_buckets);
        tag_fits = omega arith;
        valid = omega arith;
        only = root-IsOnly;
      }

  created-IsListed : IsListed created (kv ∷ [])
  created-IsListed = record {
    listed = λ rooted.
        created-LeafList (entry_at created (trie_min_leaf created))
          (created-head kv_at trie fresh unread kv stored);
    nothing = λ e. absurd (ground (arith, e));
  }

-- In a fresh table, such as ct_alloc returns, create_root succeeds for a key object whose pointer is
-- canonical, whatever the stack holds at the place of the root: the table then holds a well-formed
-- trie of this object alone, and the list of leaves has this object alone. In any table that has a
-- root already, it reports SI_EXISTS for any key object and leaves the table as it is.
pub create_root-IsTrie :
    (kv_at : Objects) (trie : Trie) (unread : Entry) (kv : ℕ)
    → IsFresh trie
    → IsEntry unread
    → IsObject kv_at kv
    → (trie' : Trie) × (create_root unread trie kv ≡ (si_ok, trie'))
      × IsTrie kv_at trie'
      × ((q : ℕ) → Holds trie' q ↔ (q ≡ kv))
      × IsListed trie' (kv ∷ [])
      × ((rooted : Trie) (garbage : Entry) (other : ℕ)
          → create_root garbage (record rooted { is_empty = false }) other
            ≡ (si_exists, record rooted { is_empty = false }))
unfolding create_root set_entry set_bucket trie_min_leaf
create_root-IsTrie kv_at trie unread kv fresh stored object =
    let ready = IsFresh-IsReady kv_at trie fresh in
    (
      Tables.created kv_at trie ready unread kv stored,
      rw (fresh.empty) refl,
      created-IsTrie kv_at trie ready unread stored kv object,
      created-Holds kv_at trie ready unread stored kv object,
      created-IsListed kv_at trie ready unread stored kv object,
      λ rooted garbage other. refl,
    )
