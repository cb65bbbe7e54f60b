-- ===== src/Relocate/Keeps.antt =====
-- What every write of `relocate_entry` keeps: the table stays well formed, and the entries that must
-- stay do so.
use cuckoo_trie_vectorized.Base.{ℕ, ◌<◌, ◌≡◌, ◌≢◌, arith, true, false, Option, ◌⊎◌, inl, inr, ◌∙◌}
use cuckoo_trie_vectorized.Bits.Bytes.{xor_secondary}
use cuckoo_trie_vectorized.Entry.{Entry, entry_type}
use cuckoo_trie_vectorized.Entry.Bytes.{IsEntry}
use cuckoo_trie_vectorized.Trie.{Trie, Cell, set_bucket, entry_at}
use cuckoo_trie_vectorized.Relocate.Defs.{set_entry, must_stay, moved, emptied}
use cuckoo_trie_vectorized.Relocate.Queue.{IsTable}
use cuckoo_trie_vectorized.Relocate.Writes.{entry_at-set_entry_ne, set_entry-IsTable}

pub moved-IsEntry : (e : Entry) → IsEntry e → IsEntry (moved e)
moved-IsEntry e h = record {
  flags_fit = omega (arith, xor_secondary e.parent_color_and_flags h.flags_fit, h.flags_fit);
  color_and_tag_fits = h.color_and_tag_fits;
  last_symbol_fits = h.last_symbol_fits;
  body_fits = h.body_fits;
  link_fits = h.link_fits;
}

pub emptied-IsEntry : (e : Entry) → IsEntry e → IsEntry (emptied e)
emptied-IsEntry e h = record {
  flags_fit = omega arith;
  color_and_tag_fits = omega arith;
  last_symbol_fits = h.last_symbol_fits;
  body_fits = h.body_fits;
  link_fits = h.link_fits;
}

module _ (trie : Trie) (immovable : Option Cell) where
  -- The root and the immovable entry are where they were, as far as they are in use.
  pub record IsKept (trie' : Trie) : Type 0 where
    pub same_size : trie'.num_buckets ≡ trie.num_buckets
    pub table_now : IsTable trie'
    pub stays :
        (b i : ℕ)
        → must_stay immovable (record { bucket = b; index = i }) ≡ true
        → entry_type (entry_at trie (record { bucket = b; index = i })) ≢ 0
        → entry_at trie' (record { bucket = b; index = i })
          ≡ entry_at trie (record { bucket = b; index = i })

  -- A cell that nothing must stay in.
  abbrev pub MayChange : Cell → Type 0
  MayChange cell = (must_stay immovable cell ≡ false) ⊎ (entry_type (entry_at trie cell) ≡ 0)

  stays_elsewhere :
      (cell : Cell) (b i : ℕ)
      → MayChange cell
      → must_stay immovable (record { bucket = b; index = i }) ≡ true
      → entry_type (entry_at trie (record { bucket = b; index = i })) ≢ 0
      → b ≡ cell.bucket
      → i ≢ cell.index
  stays_elsewhere cell b i (inl free) must used qb qi =
      let changes : must_stay immovable (record { bucket = b; index = i }) ≡ false =
        rw (qb, qi) free in
      absurd (ground (arith, must, changes))
  stays_elsewhere cell b i (inr unused) must used qb qi = used (rw (qb, qi) unused)

  pub set_entry-IsKept :
      (trie' : Trie) (cell : Cell) (e : Entry)
      → IsKept trie'
      → cell.bucket < trie.num_buckets
      → cell.index < 4
      → IsEntry e
      → MayChange cell
      → IsKept (set_entry trie' cell e)
  unfolding set_entry set_bucket
  set_entry-IsKept trie' cell e k in_range index_fits fits may = record {
    same_size = k.same_size;
    table_now =
        set_entry-IsTable trie' cell e k.table_now (omega (arith, in_range, k.same_size)) index_fits
          fits;
    stays = λ b i must used.
        entry_at-set_entry_ne trie' cell e
          (omega (arith, in_range, k.same_size, k.table_now.enough_buckets)) b i
          (λ q. stays_elsewhere cell b i may must used q)
        ∙ k.stays b i must used;
  }
