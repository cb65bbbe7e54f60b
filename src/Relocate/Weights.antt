-- ===== src/Relocate/Weights.antt =====
-- How many entries of a table pass a test, where an entry counts by its primary bucket and by its
-- value without the secondary flag: a move to the alternate bucket does not change that.
use cuckoo_trie_vectorized.Base.{
  ℕ, zero, suc, ◌+◌, ◌-◌, ◌<◌, ◌≡◌, refl, arith, bit_and, bit_xor, Bool, ◌==◌, if◌then◌else◌, List,
  [], ◌∷◌, length, get_or, set, ap,
}
use cuckoo_trie_vectorized.Bits.{bit_and-low_mask}
use cuckoo_trie_vectorized.Bits.Bytes.{and_not_secondary, xor_secondary}
use cuckoo_trie_vectorized.Config.{flag_secondary_bucket}
use cuckoo_trie_vectorized.Entry.{Entry, entry_type, entry_tag, entry_is_secondary}
use cuckoo_trie_vectorized.Entry.Bytes.{IsEntry}
use cuckoo_trie_vectorized.Trie.{
  Trie, Bucket, Cell, bucket_at, set_bucket, cell_at, entry_at, zero_entry, zero_bucket,
}
use cuckoo_trie_vectorized.Hash.{unmix_bucket, alternate_bucket}
use cuckoo_trie_vectorized.Hash.Geometry.{IsGeometry}
use cuckoo_trie_vectorized.Hash.Pair.{mix-unmix_inverse, flipped_flag}
use cuckoo_trie_vectorized.Relocate.Defs.{set_entry, moved}

abbrev pub home_bucket : Trie → ℕ → Entry → ℕ
home_bucket trie bucket e =
    if entry_is_secondary e then unmix_bucket trie bucket (entry_tag e) else bucket

abbrev pub without_flag : Entry → Entry
without_flag e = record e {
  parent_color_and_flags = bit_and e.parent_color_and_flags (0xFF - flag_secondary_bucket);
}

-- 1 for an entry in use that passes.
unfoldable pub weight : Trie → (ℕ → Entry → Bool) → ℕ → Entry → ℕ
weight trie test bucket e =
    if entry_type e == 0
    then 0
    else if test (home_bucket trie bucket e) (without_flag e)
    then 1
    else 0

abbrev cells_total : (Entry → ℕ) → List Entry → ℕ
cells_total f [] = 0
cells_total f (e ∷ rest) = f e + cells_total f rest

-- Over the buckets from number `b` on.
unfoldable pub total : (ℕ → Entry → ℕ) → List Bucket → ℕ → ℕ
total f [] b = 0
total f (bucket ∷ rest) b = cells_total (f b) bucket.cells + total f rest (suc b)

cells_total-set :
    (f : Entry → ℕ) (cells : List Entry) (i : ℕ) (e : Entry)
    → i < length cells
    → cells_total f (set cells i e) + f (get_or cells i zero_entry) ≡ cells_total f cells + f e
cells_total-set f [] i e below = absurd (omega (arith, below))
cells_total-set f (d ∷ rest) zero e below = omega arith
cells_total-set f (d ∷ rest) (suc i) e below =
    omega (arith, cells_total-set f rest i e (omega (arith, below)))

total-set :
    (f : ℕ → Entry → ℕ) (buckets : List Bucket) (k b n : ℕ) (bucket : Bucket)
    → b < length buckets
    → k + b ≡ n
    → total f (set buckets b bucket) k + cells_total (f n) (get_or buckets b zero_bucket).cells
      ≡ total f buckets k + cells_total (f n) bucket.cells
unfolding total
total-set f [] k b n bucket below q = absurd (omega (arith, below))
total-set f (d ∷ rest) k zero n bucket below q =
    let here : k ≡ n = omega (arith, q) in rw (here) (omega arith)
total-set f (d ∷ rest) k (suc b) n bucket below q =
    omega (arith, total-set f rest (suc k) b n bucket (omega (arith, below)) (omega (arith, q)))

pub total-set_entry :
    (f : ℕ → Entry → ℕ) (trie : Trie) (pos : Cell) (e : Entry)
    → pos.bucket < length trie.buckets
    → pos.index < length (bucket_at trie pos.bucket).cells
    → total f (set_entry trie pos e).buckets 0 + f pos.bucket (entry_at trie pos)
      ≡ total f trie.buckets 0 + f pos.bucket e
unfolding set_entry set_bucket bucket_at entry_at cell_at
total-set_entry f trie pos e below index_below = omega (
  arith,
  total-set f trie.buckets 0 pos.bucket pos.bucket
      (record (bucket_at trie pos.bucket) {
        cells = set (bucket_at trie pos.bucket).cells pos.index e;
      })
      below (omega arith),
  cells_total-set (f pos.bucket) (bucket_at trie pos.bucket).cells pos.index e index_below,
)

module _ (trie : Trie) (g : IsGeometry trie) (b : ℕ) (below : b < trie.num_buckets) (e : Entry)
    (h : IsEntry e) where
  type_stays : entry_type (moved e) ≡ entry_type e
  unfolding entry_type
  type_stays = ground (
    arith,
    bit_and-low_mask 2 e.parent_color_and_flags,
    bit_and-low_mask 2 (bit_xor e.parent_color_and_flags 4),
    xor_secondary e.parent_color_and_flags h.flags_fit,
  )

  rest_stays : without_flag (moved e) ≡ without_flag e
  rest_stays =
      ap (λ (flags : ℕ). record e { parent_color_and_flags = flags })
        (ground (
          arith,
          xor_secondary e.parent_color_and_flags h.flags_fit,
          and_not_secondary e.parent_color_and_flags h.flags_fit,
          and_not_secondary (bit_xor e.parent_color_and_flags 4),
          h.flags_fit,
        ))

  home_stays : home_bucket trie (alternate_bucket trie e b) (moved e) ≡ home_bucket trie b e
  unfolding alternate_bucket entry_tag
  home_stays =
      ground
        (arith, flipped_flag e h, mix-unmix_inverse trie b (bit_and e.color_and_tag 15) g below)

  -- An entry that is moved counts as before.
  pub weight-moved :
      (test : ℕ → Entry → Bool)
      → weight trie test (alternate_bucket trie e b) (moved e) ≡ weight trie test b e
  unfolding weight
  weight-moved test = rw (type_stays, home_stays, rest_stays) refl
