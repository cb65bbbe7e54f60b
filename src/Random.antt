-- ===== src/Random.antt =====
-- random.c: the generator that fills the table of bucket offsets. The state is passed along.
use cuckoo_trie_vectorized.Base.{ℕ, zero, suc, ◌+◌, ◌*◌, ◌%◌, List, [], ◌∷◌, u64, ◌<<<◌, ◌>>>◌}

-- A result with the generator's state behind it.
pub record Drawn (A : Type 0) : Type 0 where
  pub value : A
  pub state : ℕ

unfoldable pub rand_seed : ℕ → ℕ
rand_seed s = u64 s

unfoldable pub rand_dword : ℕ → Drawn ℕ
rand_dword rand_state =
    let next = u64 (6364136223846793005 * rand_state + 1) in
    record { value = next >>> 32; state = next }

-- The two calls stand in one expression of C, which leaves their order open; here the left one is
-- made first.
unfoldable pub rand_uint64 : ℕ → Drawn ℕ
rand_uint64 rand_state =
    let high = rand_dword rand_state in
    let low = rand_dword high.state in
    record { value = u64 (high.value <<< 32 + low.value); state = low.state }

unfoldable pub random_bytes : ℕ → ℕ → Drawn (List ℕ)
random_bytes zero rand_state = record { value = []; state = rand_state }
random_bytes (suc count) rand_state =
    let byte = rand_dword rand_state in
    let rest = random_bytes count byte.state in
    record { value = (byte.value % 256) ∷ rest.value; state = rest.state }
