-- ===== src/Hash/Pair.antt =====
-- The two buckets of a pair lead to one another.
use cuckoo_trie_vectorized.Base.{
  ℕ, ◌+◌, ◌-◌, ◌<◌, bit_and, bit_xor, ◌≡◌, arith, not, leb, if◌then◌else◌,
}
use cuckoo_trie_vectorized.Bits.{bit_and-zero, bit_and-low_mask}
use cuckoo_trie_vectorized.Bits.Bytes.{and_secondary, xor_secondary}
use cuckoo_trie_vectorized.Config.{flag_secondary_bucket}
use cuckoo_trie_vectorized.Entry.Bytes.{IsEntry}
use cuckoo_trie_vectorized.Trie.{Trie}
use cuckoo_trie_vectorized.Entry.{Entry, entry_is_secondary, entry_tag}
use cuckoo_trie_vectorized.Hash.Defs.{mix_value, mix_bucket, unmix_bucket, alternate_bucket}
use cuckoo_trie_vectorized.Hash.Geometry.{IsGeometry}

module _ (t : Trie) (g : IsGeometry t) (bucket tag : ℕ) (below : bucket < t.num_buckets) where
  abbrev mixed : ℕ
  mixed =
      if leb (mix_value t tag) bucket
      then bucket - mix_value t tag
      else bucket + t.num_buckets - mix_value t tag

  -- The arithmetic on `int64_t` is subtraction modulo the number of buckets.
  mix_bucket_lem : mix_bucket t bucket tag ≡ mixed
  unfolding mix_bucket
  mix_bucket_lem = ground (
    arith,
    g.addressable,
    g.mix_bound tag,
    bit_and-zero t.num_buckets,
    bit_and-low_mask 64 t.num_buckets,
  )

  unmixed : ℕ
  unmixed =
      if leb t.num_buckets (bucket + mix_value t tag)
      then bucket + mix_value t tag - t.num_buckets
      else bucket + mix_value t tag

  unmix_bucket_lem : unmix_bucket t bucket tag ≡ unmixed
  unfolding unmix_bucket unmixed
  unmix_bucket_lem = ground (arith, g.addressable, g.mix_bound tag)

  pub mix_bucket-lt : mix_bucket t bucket tag < t.num_buckets
  mix_bucket-lt = rw mix_bucket_lem (ground (arith, g.mix_bound tag))

  pub unmix_bucket-lt : unmix_bucket t bucket tag < t.num_buckets
  unfolding unmixed
  unmix_bucket-lt = rw unmix_bucket_lem (ground (arith, g.mix_bound tag))

-- `unmix_bucket` finds the primary bucket from the secondary one, and `mix_bucket` the secondary
-- from the primary, both in the table: for each tag they are inverse permutations of its buckets.
pub mix-unmix_inverse :
    (t : Trie) (bucket tag : ℕ)
    → IsGeometry t
    → bucket < t.num_buckets
    → (mix_bucket t bucket tag < t.num_buckets)
      × (unmix_bucket t (mix_bucket t bucket tag) tag ≡ bucket)
      × (unmix_bucket t bucket tag < t.num_buckets)
      × (mix_bucket t (unmix_bucket t bucket tag) tag ≡ bucket)
unfolding unmixed
mix-unmix_inverse t bucket tag g below = (
  there,
  ground (
    arith,
    mix_bucket_lem t g bucket tag below,
    unmix_bucket_lem t g (mix_bucket t bucket tag) tag there,
    g.mix_bound tag,
  ),
  back,
  ground (
    arith,
    unmix_bucket_lem t g bucket tag below,
    mix_bucket_lem t g (unmix_bucket t bucket tag) tag back,
    g.mix_bound tag,
  ),
)
  where
    there : mix_bucket t bucket tag < t.num_buckets
    there = mix_bucket-lt t g bucket tag below

    back : unmix_bucket t bucket tag < t.num_buckets
    back = unmix_bucket-lt t g bucket tag below

-- A flip of the secondary flag.
pub flipped_flag :
    (e : Entry)
    → IsEntry e
    → entry_is_secondary (record e { parent_color_and_flags = bit_xor e.parent_color_and_flags 4 })
      ≡ not (entry_is_secondary e)
unfolding entry_is_secondary
flipped_flag e h = ground (
  arith,
  and_secondary e.parent_color_and_flags,
  xor_secondary e.parent_color_and_flags,
  and_secondary (bit_xor e.parent_color_and_flags 4),
  h.flags_fit,
)

-- An entry that is moved to its alternate bucket, with the flag of the secondary bucket flipped as
-- `relocate_entry` does, can be moved back: the alternate of the alternate bucket is the first one.
pub alternate_bucket_twice :
    (t : Trie) (e : Entry) (bucket : ℕ)
    → IsGeometry t
    → IsEntry e
    → bucket < t.num_buckets
    → let moved = record e {
      parent_color_and_flags = bit_xor e.parent_color_and_flags flag_secondary_bucket;
    } in
      (alternate_bucket t e bucket < t.num_buckets)
      × (alternate_bucket t moved (alternate_bucket t e bucket) ≡ bucket)
unfolding alternate_bucket entry_tag
alternate_bucket_twice t e bucket g h below =
    ground
      (arith, flipped_flag e h, mix-unmix_inverse t bucket (bit_and e.color_and_tag 15) g below)
