-- ===== src/Lib.antt =====
-- The Cuckoo Trie, an ordered index in one cuckoo hash table.
--
-- The library stores the nodes of a trie over 5-bit symbols as entries of a hash table. A prefix has
-- a hash, which gives a primary bucket and a tag, and through a table of offsets a secondary bucket.
-- An entry of 15 bytes names its relatives by bucket, tag and colour, never by address.
--
-- The parts and the files that model them:
-- - Config: the constants of config.h, cuckoo_trie.h, cuckoo_trie_internal.h and atomics.h, at the
--   values that config.h sets (5-bit symbols, 4-bit tags, buckets of 4 cells, multithreading on).
-- - Entry (cuckoo_trie_internal.h): `ct_entry`, `ct_entry_locator` and the accessors `entry_*`.
-- - Trie (cuckoo_trie_internal.h): `ct_bucket` and `cuckoo_trie`. The bucket of the list's head,
--   which the source puts behind the table in the same mapping, is the last bucket of the list.
-- - Hash (main_vectorized.c): `accumulate_hash`, `mix_bucket`, `unmix_bucket`, `alternate_bucket`.
-- - Alloc (main_vectorized.c): `ct_alloc`, `ct_free`, and how they fill the table.
-- - Random (random.c): the generator behind the table of offsets, its state passed along.
-- - BitString (util.c): `get_bit`, `set_bit`, `last_bit_before`, `copy_bits` and their like.
-- - Symbols (main_vectorized.c): `get_string_symbol`, `key_to_symbols` and what it calls, and
--   `get_jump_symbol` and `extend_jump_node`. Memory is a function from addresses to bytes, since
--   `read_qword_zfill` may read before the key and behind it. The intrinsics are written out.
-- - Prefetch (main_vectorized.c): `key_prefetcher`, `prefetcher_start` and `prefetcher_step`. The
--   arrays are functions from an index, where the source has MAX_KEY_SYMBOLS = 410 elements that a
--   longer key overruns. The theorems that use them are about keys of at most 255 bytes, which have
--   at most 409 symbols.
-- - Locks (atomics.c, atomics.h): the lock manager. A thread's table of locks is a list, newest
--   first, and the words `write_lock_and_seq` of all buckets are a function. `Locks.Threads` has a
--   table for each thread; a step is one call by one thread.
-- - Seqlock (atomics.c, atomics.h): `read_entry` and `write_entry`, one atomic access at a time.
-- - Search (main.c, main_vectorized.c): `find_entry_in_bucket_by_color` and `_by_parent`, scalar and
--   vectorised. The SSE intrinsics are written out over two lanes.
-- - Colors (main_vectorized.c): the three versions of `unused_color_in_pair`.
-- - Pairs (main_vectorized.c): `find_entry_in_pair_by_color` and `_by_parent`, over what each look at a
--   bucket sees, and `update_entry`, `mark_entry_dirty`, `remove_entry_by_value` and their like, over a
--   table whose buckets the thread has locked.
-- - Relocate (main_vectorized.c): `relocate_entry` as it is built without MULTITHREADING, where the calls
--   of the lock manager do nothing.
-- - AddEntry (main_vectorized.c): `add_entry`, as it is built without MULTITHREADING.
-- - Fingers (main_vectorized.c, main.h): `ct_finger`, `init_finger`, `try_descend` and `descend`. A
--   finger's path is a list, the root first. For a key of at most 255 bytes it fits in the array.
-- - Lookup (main_vectorized.c): `ct_lookup`. `Lookup.Tree` says which trie a table holds, and `IsTrie`
--   that it is well formed; objects are a function from addresses to keys.
-- - Update (main_vectorized.c): `ct_update`, as it is built without MULTITHREADING.
-- - Iterators (main_vectorized.c, main.h): `ct_iter`, `ct_iter_goto` with the search of a predecessor,
--   and `ct_iter_next`, as they are built without MULTITHREADING. The trie of an iterator is passed
--   along, and its one leaf copy stands for `leaves`.
-- - CreateRoot (main_vectorized.c): `create_root`, as it is built without MULTITHREADING.
-- - Insertion (main_vectorized.c): `create_bitmap_child`, `mark_bitmap_child`, `linklist_insert` and
--   `propagate_max_leaf`, as they are built without MULTITHREADING.
-- - Keys (key_object.h): `ct_kv` and `kv_key_compare`. An `int` that is compared with 0 is its sign.
-- - Bits and Base: laws of the bitwise operations, lists, tests and words, shared by all.
-- Tests holds the theorems at concrete inputs.
--
-- Numbers: a machine word is a natural number, and each operation that can wrap has its modulus
-- written out. A signed 64-bit number is its bit pattern. Bytes are assumed below 256 where a
-- statement needs it (`IsEntry` and the like).
--
-- Fuel: `copy_bits` takes a round for each bit, and each round copies eight; `count_trailing_zeros`
-- takes one for each digit of the word. `search_pair` has the hundred rounds that the assertion in
-- its loop allows, `search_queue` one round for each place of the queue and one more, and
-- `move_path` one for the place where it starts and for each before it. `key_to_symbols` takes a
-- round for each byte of the key, and each round treats five. `descend_rounds` has a round for each
-- symbol of the key, since each that does not end the descent walks one. `ct_update` has one
-- round, since nothing makes it retry in the build without threads. `goto_rounds` has a round for each
-- symbol of the key, as the loop in the source.
--
-- Outside the model: the locks that `relocate_entry`, `add_entry`, `ct_update` and `create_root` take,
-- the retries of `ct_update` and of the iterators, `create_leaf` with its two splits and `ct_insert`,
-- the checker of verify_trie.c, and the programs that test and measure the library. The kernel and
-- the allocator are a `Host` that grants or refuses memory.
mod Base
mod Bits
mod Config
pub mod Entry
pub mod Fingers
pub mod Lookup
pub mod Update
pub mod Iterators
pub mod CreateRoot
pub mod Insertion
mod Random
mod Trie
pub mod Hash
pub mod Alloc
pub mod BitString
pub mod Symbols
pub mod Pairs
pub mod Relocate
pub mod AddEntry
pub mod Keys
pub mod Prefetch
pub mod Locks
pub mod Seqlock
pub mod Search
pub mod Colors
mod Tests
