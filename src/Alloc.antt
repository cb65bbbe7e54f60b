-- ===== src/Alloc.antt =====
-- `ct_alloc`, `ct_free`, `init_buckets` and `init_bucket_mix_table` of main_vectorized.c.
mod Defs
pub mod Table
pub mod Sizes
unfoldable pub use Defs.*
