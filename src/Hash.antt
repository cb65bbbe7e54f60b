-- ===== src/Hash.antt =====
-- The hash of a prefix and the two buckets that it stands for: `accumulate_hash`, `hash_to_bucket`,
-- `hash_to_tag`, `mix_bucket`, `unmix_bucket` and `alternate_bucket` of main_vectorized.c.
pub mod Bounds
pub mod Injective
pub mod Pair
pub mod Geometry
mod Defs
unfoldable pub use Defs.*
