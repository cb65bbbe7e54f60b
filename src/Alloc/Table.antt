-- ===== src/Alloc/Table.antt =====
-- The table that `ct_alloc` hands out.
use native.Mathlib.Nat.{mod-eq_of_lt}
use cuckoo_trie_vectorized.Base.{
  ℕ, zero, suc, ◌+◌, ◌*◌, ◌%◌, ◌^◌, ◌≤◌, ◌<◌, ◌≡◌, refl, arith, true, false, List, get_or, set,
  length, replicate, length-set, length-replicate, get_or-set_self, get_or-set_ne, dec_lt, ◌⊎◌, inl,
  inr, ◌∙◌, ap, Bool-cases, ==-ne,
}
use cuckoo_trie_vectorized.Hash.Geometry.{IsGeometry}
use cuckoo_trie_vectorized.Trie.{Bucket, Trie, zero_bucket, bucket_at}
use cuckoo_trie_vectorized.Alloc.Defs.{
  Host, Allocation, no_table, division_trap, table, mix_table_from, init_bucket_mix_table,
  unused_bucket, init_buckets_from, init_buckets, min_leaf_bucket, fresh_table, ct_alloc, ct_free,
  num_buckets_for, mapping_bytes,
}
use cuckoo_trie_vectorized.Alloc.Sizes.{num_buckets_for_lem, mapping_bytes-add_one}

mix_table-lt : (left n s tag : ℕ) → 0 < n → get_or (mix_table_from left n s) tag 0 < n
unfolding mix_table_from
mix_table-lt zero n s tag pos = pos
mix_table-lt (suc left) n s zero pos = omega arith
mix_table-lt (suc left) n s (suc tag) pos = mix_table-lt left n _ tag pos

init_buckets_from-outside :
    (left from i : ℕ) (bs : List Bucket)
    → (i < from) ⊎ (from + left ≤ i)
    → get_or (init_buckets_from left from bs) i zero_bucket ≡ get_or bs i zero_bucket
unfolding init_buckets_from
init_buckets_from-outside zero from i bs h = refl
init_buckets_from-outside (suc left) from i bs h =
    init_buckets_from-outside left (suc from) i (set bs from unused_bucket) (omega arith)
    ∙ get_or-set_ne bs from i unused_bucket zero_bucket (omega arith)

init_buckets_from-inside :
    (left from i : ℕ) (bs : List Bucket)
    → from ≤ i
    → i < from + left
    → i < length bs
    → get_or (init_buckets_from left from bs) i zero_bucket ≡ unused_bucket
unfolding init_buckets_from
init_buckets_from-inside zero from i bs low high h = absurd (omega arith)
init_buckets_from-inside (suc left) from i bs low high h = elim (dec_lt from i) [
  | yes later ↦
      init_buckets_from-inside left (suc from) i (set bs from unused_bucket) later (omega arith)
        (omega (arith, length-set bs from unused_bucket))
  | no first ↦
      init_buckets_from-outside left (suc from) i (set bs from unused_bucket) (omega arith)
      ∙ ap (λ (j : ℕ). get_or (set bs from unused_bucket) j zero_bucket) (omega arith)
      ∙ get_or-set_self bs from unused_bucket zero_bucket (omega arith)
]

length-init_buckets_from :
    (left from : ℕ) (bs : List Bucket) → length (init_buckets_from left from bs) ≡ length bs
unfolding init_buckets_from
length-init_buckets_from zero from bs = refl
length-init_buckets_from (suc left) from bs =
    length-init_buckets_from left (suc from) (set bs from unused_bucket)
    ∙ length-set bs from unused_bucket

-- A table before its first key: its sizes, that all its cells are unused and unlocked, the head of
-- its list of leaves, and that it counts as empty.
pub record IsFresh (t : Trie) : Type 0 where
  pub geometry : IsGeometry t
  pub bucket_count : length t.buckets ≡ t.num_buckets + 1
  pub unused : (b : ℕ) → b < t.num_buckets → bucket_at t b ≡ unused_bucket
  pub head : bucket_at t t.num_buckets ≡ min_leaf_bucket
  pub empty : t.is_empty ≡ true

module _ (n : ℕ) (pos : 0 < n) (whole : n % 64 ≡ 0) (small : n < 2 ^ 32) where
  abbrev mapped_buckets : List Bucket
  mapped_buckets = set (replicate (n + 1) zero_bucket) n min_leaf_bucket

  length-mapped_buckets : length mapped_buckets ≡ n + 1
  length-mapped_buckets =
      length-set (replicate (n + 1) zero_bucket) n min_leaf_bucket
      ∙ length-replicate (n + 1) zero_bucket

  pub fresh_table-IsFresh : IsFresh (fresh_table n)
  unfolding fresh_table init_buckets bucket_at init_bucket_mix_table
  fresh_table-IsFresh = record {
    geometry = record {
      some_buckets = pos;
      whole_blocks = whole;
      addressable = small;
      pairs = omega arith;
      blocks = refl;
      mix_bound = λ tag. mix_table-lt 16 n _ tag pos;
    };
    bucket_count = length-init_buckets_from n 0 mapped_buckets ∙ length-mapped_buckets;
    unused = λ b h.
        init_buckets_from-inside n 0 b mapped_buckets (omega arith) (omega arith)
          (omega (arith, length-mapped_buckets));
    head =
        init_buckets_from-outside n 0 n mapped_buckets (inr (omega arith))
        ∙ get_or-set_self (replicate (n + 1) zero_bucket) n min_leaf_bucket zero_bucket
            (omega (arith, length-replicate {0} (n + 1) zero_bucket));
    empty = refl;
  }

-- What `ct_alloc` returns for a number of cells that asks for a table.
abbrev pub Allocated : Host → ℕ → Allocation → Type 0
Allocated host num_cells no_table =
    (host.mmap_succeeds (mapping_bytes (num_buckets_for num_cells)) ≡ false)
    ⊎ (host.malloc_succeeds ≡ false)
Allocated host num_cells division_trap = ⊥
Allocated host num_cells (table t mapped) =
    IsFresh t
    × (num_cells ≤ t.num_buckets * 4)
    × (t.num_buckets * 4 < num_cells + 256)
    × (ct_free t ≡ mapped)

-- For 1 to `2 ^ 33` cells `ct_alloc` never divides by zero. It returns NULL only when the host
-- refuses the mapping or the handle. Otherwise it returns a fresh table that has room for the
-- cells, with less than 256 to spare, and `ct_free` later unmaps exactly the bytes that were mapped,
-- though it leaves the bucket of the list's head out of its count.
pub ct_alloc-Allocated :
    (host : Host) (num_cells : ℕ)
    → 0 < num_cells
    → num_cells ≤ 2 ^ 33
    → Allocated host num_cells (ct_alloc host num_cells)
unfolding ct_alloc ct_free fresh_table init_buckets
ct_alloc-Allocated host num_cells pos small =
    elim (Bool-cases (host.mmap_succeeds (mapping_bytes (num_buckets_for num_cells)))) [
      | inl granted ↦ elim (Bool-cases host.malloc_succeeds) [
        | inl room ↦
            simp (size, granted, room, ==-ne (num_buckets_for num_cells) 0 (omega (arith, sizes)))
              (
                fresh_table-IsFresh (num_buckets_for num_cells) (omega (arith, sizes)) sizes.0
                    sizes.3,
                sizes.1,
                sizes.2,
                refl,
              )
        | inr full ↦ simp (size, granted, full) (inr refl)
      ]
      | inr refused ↦ simp (size, refused) (inl refl)
    ]
  where
    sizes :
        (num_buckets_for num_cells % 64 ≡ 0)
        × (num_cells ≤ num_buckets_for num_cells * 4)
        × (num_buckets_for num_cells * 4 < num_cells + 256)
        × (num_buckets_for num_cells < 2 ^ 32)
    sizes = num_buckets_for_lem num_cells pos small

    size :
        mapping_bytes ((num_buckets_for num_cells + 1) % 2 ^ 64)
        ≡ mapping_bytes (num_buckets_for num_cells)
    size =
        ap mapping_bytes (mod-eq_of_lt (omega (arith, sizes)))
        ∙ mapping_bytes-add_one (num_buckets_for num_cells) sizes.0 sizes.3
