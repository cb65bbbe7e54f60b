-- ===== src/Update/Defs.antt =====
-- `ct_update`, in the build without MULTITHREADING, where `upgrade_lock` reports SI_OK and
-- `write_entry` only writes. `none` is an assertion that fails.
use cuckoo_trie_vectorized.Base.{ℕ, zero, suc, ◌+◌, false, Option, none, some, ◌==◌, if◌then◌else◌}
use cuckoo_trie_vectorized.Config.{type_leaf}
use cuckoo_trie_vectorized.Entry.{Entry, entry_type, entry_kv, entry_set_kv, entry_tag, entry_color}
use cuckoo_trie_vectorized.Trie.{Trie, Cell, entry_at}
use cuckoo_trie_vectorized.Symbols.{Memory}
use cuckoo_trie_vectorized.Keys.{Sign, less, equal, greater, kv_key_compare}
use cuckoo_trie_vectorized.Prefetch.{KeyPrefetcher}
use cuckoo_trie_vectorized.Locks.{Status, si_ok, si_retry, si_exists, si_fail}
use cuckoo_trie_vectorized.Relocate.{set_entry}
use cuckoo_trie_vectorized.Pairs.{
  EntryCopy, still, entries_equal, adjusted, find_entry_in_pair_by_color,
}
use cuckoo_trie_vectorized.Fingers.{
  Finger, Descent, stopped, arrived, gave_up, out_of_fuel, init_finger, descend,
}
use cuckoo_trie_vectorized.Lookup.{Objects}

abbrev pub s_ok : ℕ
s_ok = 0

abbrev pub s_notfound : ℕ
s_notfound = 4

-- The address of the key's first byte.
unfoldable pub kv_key_bytes : ℕ → ℕ
kv_key_bytes kv = kv + 8

-- `update_entry`, which compares the entry's bytes in this build, with `update_entry_slow_path`.
unfoldable pub update_entry_single_threaded : Trie → EntryCopy → Entry → Option (Trie × EntryCopy)
update_entry_single_threaded trie local_copy new_value =
    let value = λ (found : EntryCopy). adjusted new_value (entry_at trie found.last_pos) in
    if entries_equal (entry_at trie local_copy.last_pos) local_copy.value
    then some (
      set_entry trie local_copy.last_pos new_value,
      record local_copy { value = new_value; last_seq = 0 },
    )
    else (elim (find_entry_in_pair_by_color trie (still trie) local_copy.primary_bucket
        (entry_tag local_copy.value) (entry_color local_copy.value)) [
          | none ↦ none
          | some found ↦ some (
            set_entry trie found.last_pos (value found),
            record local_copy { value = value found; last_pos = found.last_pos; last_seq = 0 },
          )
        ])

-- The key object `kv` in place of that of the leaf.
unfoldable pub replace_kv : Trie → EntryCopy → ℕ → Option (Status × Trie)
unfolding update_entry_single_threaded
replace_kv trie local_copy kv =
    elim (update_entry_single_threaded trie local_copy (entry_set_kv local_copy.value kv)) [
      | none ↦ none
      | some (trie', local_copy') ↦ some (si_ok, trie')
    ]

unfoldable pub replace_if_equal : Trie → EntryCopy → ℕ → Sign → Option (Status × Trie)
unfolding replace_kv
replace_if_equal trie local_copy kv equal = replace_kv trie local_copy kv
replace_if_equal trie local_copy kv less = some (si_fail, trie)
replace_if_equal trie local_copy kv greater = some (si_fail, trie)

-- What follows the descent, for the finger where it ended.
unfoldable pub update_node : Objects → Trie → ℕ → Finger → Option (Status × Trie)
unfolding replace_if_equal
update_node kv_at trie kv finger =
    let leaf_kv = entry_kv finger.containing_entry.value in
    if entry_type finger.containing_entry.value == type_leaf
    then replace_if_equal trie finger.containing_entry kv
        (kv_key_compare (kv_at leaf_kv) (kv_at kv))
    else some (si_fail, trie)

unfoldable pub update_descent : Objects → Trie → ℕ → Descent → Option (Status × Trie)
unfolding update_node
update_descent kv_at trie kv (stopped symbol finger) = update_node kv_at trie kv finger
update_descent kv_at trie kv (arrived finger) = update_node kv_at trie kv finger
update_descent kv_at trie kv gave_up = none
update_descent kv_at trie kv out_of_fuel = none

-- What follows `init_finger`.
unfoldable pub update_from :
    Objects → KeyPrefetcher → Trie → Memory → ℕ → Finger × Option Cell → Option (Status × Trie)
unfolding update_descent kv_key_bytes
update_from kv_at uninitialized trie memory kv (finger, none) = some (si_fail, trie)
update_from kv_at uninitialized trie memory kv (finger, some root) = update_descent kv_at trie kv (
    descend uninitialized trie (λ i. still trie) memory finger (kv_at kv).key_size (kv_key_bytes kv)
      false)

unfoldable pub ct_update_internal :
    Objects → KeyPrefetcher → EntryCopy → Trie → Memory → ℕ → Option (Status × Trie)
unfolding update_from
ct_update_internal kv_at uninitialized unread trie memory kv =
    update_from kv_at uninitialized trie memory kv (init_finger unread trie)

-- The end of a round of `ct_update`, with the rounds after it. No other status than these three is
-- expected: `assert(ret == SI_OK)`.
unfoldable pub update_reply :
    (Trie → Option (ℕ × Trie)) → Option (Status × Trie) → Option (ℕ × Trie)
update_reply again none = none
update_reply again (some (si_ok, trie)) = some (s_ok, trie)
update_reply again (some (si_fail, trie)) = some (s_notfound, trie)
update_reply again (some (si_retry, trie)) = again trie
update_reply again (some (si_exists, trie)) = none

unfoldable pub ct_update_rounds :
    ℕ → Objects → KeyPrefetcher → EntryCopy → Trie → Memory → ℕ → Option (ℕ × Trie)
unfolding update_reply
ct_update_rounds zero kv_at uninitialized unread trie memory kv = none
ct_update_rounds (suc rounds) kv_at uninitialized unread trie memory kv =
    update_reply (λ trie'. ct_update_rounds rounds kv_at uninitialized unread trie' memory kv)
      (ct_update_internal kv_at uninitialized unread trie memory kv)

-- Nothing reports SI_RETRY in this build, so one round is enough.
unfoldable pub ct_update :
    Objects → KeyPrefetcher → EntryCopy → Trie → Memory → ℕ → Option (ℕ × Trie)
unfolding ct_update_rounds
ct_update kv_at uninitialized unread trie memory kv =
    ct_update_rounds 1 kv_at uninitialized unread trie memory kv
