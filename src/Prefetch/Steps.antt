-- ===== src/Prefetch/Steps.antt =====
-- What a prefetcher holds after any of its steps.
use Prim.Native.Nat.{min}
use cuckoo_trie_vectorized.Base.{
  ℕ, zero, suc, ◌+◌, ◌≤◌, ◌<◌, ◌≡◌, refl, ap, ◌∙◌, arith, dec_lt, ltb, lt→ltb, ==_refl, ==-ne,
  false,
}
use cuckoo_trie_vectorized.Config.{hash_start_value}
use cuckoo_trie_vectorized.Trie.{Trie}
use cuckoo_trie_vectorized.Hash.{accumulate_hash}
use cuckoo_trie_vectorized.Prefetch.Defs.{
  KeyPrefetcher, store, prefetch_symbol, prefetcher_step, prefetch_first, prefetcher_steps,
}

not_lt→ltb : (a b : ℕ) → ¬ (a < b) → ltb a b ≡ false
not_lt→ltb a b h = ground arith

-- The hash of the first `n` symbols.
unfoldable pub prefix_hash : Trie → (ℕ → ℕ) → ℕ → ℕ
prefix_hash trie symbol zero = hash_start_value
prefix_hash trie symbol (suc n) = accumulate_hash trie (prefix_hash trie symbol n) (symbol n)

module _ (trie : Trie) (symbol : ℕ → ℕ) (count : ℕ) where
  -- A prefetcher for the `count` symbols of `symbol`.
  pub record IsPrefetcher (p : KeyPrefetcher) : Type 0 where
    pub counted : p.num_key_symbols ≡ count
    pub symbols : (i : ℕ) → i < count → p.key_symbols i ≡ symbol i
    pub within : p.prefetch_pos ≤ count
    pub ahead : p.prefetch_prefix_hash ≡ prefix_hash trie symbol p.prefetch_pos
    pub hashes : (i : ℕ) → i < p.prefetch_pos → p.prefix_hashes i ≡ prefix_hash trie symbol (suc i)

  module _ (p : KeyPrefetcher) (h : IsPrefetcher p) (more : p.prefetch_pos < count) where
    next_hash :
        accumulate_hash trie p.prefetch_prefix_hash (p.key_symbols p.prefetch_pos)
        ≡ prefix_hash trie symbol (suc p.prefetch_pos)
    unfolding prefix_hash
    next_hash = rw (h.ahead, h.symbols p.prefetch_pos more) refl

    stored_hash :
        (i : ℕ)
        → i < suc p.prefetch_pos
        → store p.prefix_hashes p.prefetch_pos
            (accumulate_hash trie p.prefetch_prefix_hash (p.key_symbols p.prefetch_pos))
            i
          ≡ prefix_hash trie symbol (suc i)
    stored_hash i below = elim (dec_lt i p.prefetch_pos) [
      | yes before ↦ rw (==-ne i p.prefetch_pos (λ e. omega (arith, e, before))) (h.hashes i before)
      | no here ↦ last i (omega arith)
    ]
      where
        last :
            (i : ℕ)
            → i ≡ p.prefetch_pos
            → store p.prefix_hashes p.prefetch_pos
                (accumulate_hash trie p.prefetch_prefix_hash (p.key_symbols p.prefetch_pos))
                i
              ≡ prefix_hash trie symbol (suc i)
        last i e = rw (e, ==_refl p.prefetch_pos) next_hash

    prefetch_symbol-IsPrefetcher : IsPrefetcher (prefetch_symbol p trie)
    unfolding prefetch_symbol
    prefetch_symbol-IsPrefetcher = record {
      counted = h.counted;
      symbols = h.symbols;
      within = omega arith;
      ahead = next_hash ∙ ap (λ (n : ℕ). prefix_hash trie symbol n) (omega arith);
      hashes = λ i below. stored_hash i (omega arith);
    }

  pub prefetcher_step-IsPrefetcher :
      (p : KeyPrefetcher) → IsPrefetcher p → IsPrefetcher (prefetcher_step p trie)
  unfolding prefetcher_step
  prefetcher_step-IsPrefetcher p h = elim (dec_lt p.prefetch_pos p.num_key_symbols) [
    | yes more ↦
        rw (lt→ltb p.prefetch_pos p.num_key_symbols more)
          (prefetch_symbol-IsPrefetcher p h (omega (arith, more, h.counted)))
    | no done ↦ rw (not_lt→ltb p.prefetch_pos p.num_key_symbols done) h
  ]

  pub prefetch_first-IsPrefetcher :
      (rounds : ℕ) (p : KeyPrefetcher)
      → IsPrefetcher p
      → IsPrefetcher (prefetch_first rounds p trie)
  unfolding prefetch_first
  prefetch_first-IsPrefetcher zero p h = h
  prefetch_first-IsPrefetcher (suc rounds) p h = elim (dec_lt p.prefetch_pos p.num_key_symbols) [
    | yes more ↦ rw (lt→ltb p.prefetch_pos p.num_key_symbols more) (
        prefetch_first-IsPrefetcher rounds (prefetch_symbol p trie)
          (prefetch_symbol-IsPrefetcher p h (omega (arith, more, h.counted))))
    | no done ↦ rw (not_lt→ltb p.prefetch_pos p.num_key_symbols done) h
  ]

  pub prefetcher_steps-IsPrefetcher :
      (n : ℕ) (p : KeyPrefetcher) → IsPrefetcher p → IsPrefetcher (prefetcher_steps n p trie)
  unfolding prefetcher_steps
  prefetcher_steps-IsPrefetcher zero p h = h
  prefetcher_steps-IsPrefetcher (suc n) p h =
      prefetcher_steps-IsPrefetcher n (prefetcher_step p trie) (prefetcher_step-IsPrefetcher p h)

  -- Each step moves one symbol on, up to the last.
  pub step_pos :
      (p : KeyPrefetcher)
      → IsPrefetcher p
      → (prefetcher_step p trie).prefetch_pos ≡ min (p.prefetch_pos + 1) count
  unfolding prefetcher_step prefetch_symbol
  step_pos p h = elim (dec_lt p.prefetch_pos p.num_key_symbols) [
    | yes more ↦ rw (lt→ltb p.prefetch_pos p.num_key_symbols more) (omega (arith, more, h.counted))
    | no done ↦
        rw (not_lt→ltb p.prefetch_pos p.num_key_symbols done)
          (omega (arith, done, h.counted, h.within))
  ]

  pub steps_pos :
      (n : ℕ) (p : KeyPrefetcher)
      → IsPrefetcher p
      → (prefetcher_steps n p trie).prefetch_pos ≡ min (p.prefetch_pos + n) count
  unfolding prefetcher_steps
  steps_pos zero p h = omega (arith, h.within)
  steps_pos (suc n) p h = omega (
    arith,
    step_pos p h,
    h.within,
    steps_pos n (prefetcher_step p trie) (prefetcher_step-IsPrefetcher p h),
  )

  pub first_pos :
      (rounds : ℕ) (p : KeyPrefetcher)
      → IsPrefetcher p
      → (prefetch_first rounds p trie).prefetch_pos ≡ min (p.prefetch_pos + rounds) count
  unfolding prefetch_first prefetch_symbol
  first_pos zero p h = omega (arith, h.within)
  first_pos (suc rounds) p h = elim (dec_lt p.prefetch_pos p.num_key_symbols) [
    | yes more ↦ rw (lt→ltb p.prefetch_pos p.num_key_symbols more) (
        omega (
          arith,
          more,
          h.counted,
          first_pos rounds (prefetch_symbol p trie)
              (prefetch_symbol-IsPrefetcher p h (omega (arith, more, h.counted))),
        ))
    | no done ↦
        rw (not_lt→ltb p.prefetch_pos p.num_key_symbols done)
          (omega (arith, done, h.counted, h.within))
  ]
