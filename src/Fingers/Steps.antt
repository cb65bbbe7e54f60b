-- ===== src/Fingers/Steps.antt =====
-- The rule for the loop of `descend`: what a round keeps, while the prefetcher is ahead.
use Prim.Native.Nat.{min}
use cuckoo_trie_vectorized.Base.{
  ℕ, zero, suc, ◌+◌, ◌-◌, ◌<◌, ◌≤◌, ◌≡◌, ◌≢◌, refl, ap, sym, subst, ◌∙◌, arith, Bool, true, false,
  ◌==◌, inl, inr, Bool-cases, ==_iff, dec_lt,
}
use cuckoo_trie_vectorized.Config.{symbol_end}
use cuckoo_trie_vectorized.Trie.{Trie}
use cuckoo_trie_vectorized.Symbols.{Memory, get_string_symbol}
use cuckoo_trie_vectorized.Symbols.Key.{key_bytes}
use cuckoo_trie_vectorized.Prefetch.{KeyPrefetcher, prefetcher_start, prefetcher_step, symbol_count}
use cuckoo_trie_vectorized.Prefetch.Steps.{
  prefix_hash, IsPrefetcher, prefetcher_step-IsPrefetcher, step_pos,
}
use cuckoo_trie_vectorized.Prefetch.Hashes.{prefetcher_start-IsPrefetcher, start_pos}
use cuckoo_trie_vectorized.Prefetch.Injective.{end-symbol, symbol-pos, count-pos}
use cuckoo_trie_vectorized.Pairs.{View}
use cuckoo_trie_vectorized.Fingers.Defs.{
  Finger, Attempt, refused, moved, lost, Descent, stopped, arrived, gave_up, out_of_fuel, proceed,
  try_descend, descend_rounds, descend,
}

proceed_arrived :
    (rest : Finger → Descent) (f : Finger) (s : ℕ) (f' : Finger)
    → (s == symbol_end) ≡ true
    → proceed rest f s (moved f') ≡ arrived f'
unfolding proceed
proceed_arrived rest f s f' e = ground (arith, e)

proceed_on :
    (rest : Finger → Descent) (f : Finger) (s : ℕ) (f' : Finger)
    → (s == symbol_end) ≡ false
    → proceed rest f s (moved f') ≡ rest f'
unfolding proceed
proceed_on rest f s f' e = ground (arith, e)

module _ (trie : Trie) (views : ℕ → View) (memory : Memory) (are_bytes : (a : ℕ) → memory a < 256)
    (size key : ℕ) (track : Bool) (Inv Stop : Finger → Type 0) (Lost : Type 0) where
  abbrev symbol : ℕ → ℕ
  symbol = get_string_symbol size (key_bytes memory key)

  -- What an attempt from a finger may lead to.
  abbrev pub Tried : Finger → Attempt → Type 0
  Tried f refused = Stop f
  Tried f (moved f') = Inv f' × (f'.prefix_len ≡ suc f.prefix_len)
  Tried f lost = Lost

  -- What the descent may end in.
  abbrev pub Ends : Descent → Type 0
  Ends (stopped s f) = Stop f × (f.prefix_len < symbol_count size) × (s ≡ symbol f.prefix_len)
  Ends (arrived f) = Inv f × (f.prefix_len ≡ symbol_count size)
  Ends gave_up = Lost
  Ends out_of_fuel = ⊥

  not_last : (i : ℕ) → i < symbol_count size → symbol i ≢ 0 → suc i < symbol_count size
  not_last i below e = elim (dec_lt (suc i) (symbol_count size)) [
    | yes more ↦ more
    | no last ↦
        let here : i ≡ symbol_count size - 1 = omega (arith, below, last) in
        absurd (e (ap symbol here ∙ end-symbol size (key_bytes memory key)))
  ]

  at_end : (i : ℕ) → i < symbol_count size → symbol i ≡ 0 → suc i ≡ symbol_count size
  at_end i below e = elim (dec_lt (suc i) (symbol_count size)) [
    | yes more ↦ absurd (omega (arith, e, symbol-pos size (key_bytes memory key) i more))
    | no last ↦ omega (arith, below, last)
  ]

  proceed-Ends :
      (rest : Finger → Descent) (f : Finger) (attempt : Attempt)
      → f.prefix_len < symbol_count size
      → Tried f attempt
      → ((f' : Finger)
          → Inv f'
          → f'.prefix_len ≡ suc f.prefix_len
          → f'.prefix_len < symbol_count size
          → Ends (rest f'))
      → Ends (proceed rest f (symbol f.prefix_len) attempt)
  unfolding proceed
  proceed-Ends rest f refused below h next = (h, below, refl)
  proceed-Ends rest f lost below h next = h
  proceed-Ends rest f (moved f') below h next =
      elim (Bool-cases (symbol f.prefix_len == symbol_end)) [
        | inl end ↦
            subst Ends (sym (proceed_arrived rest f (symbol f.prefix_len) f' end))
              (h.0, h.1 ∙ at_end f.prefix_len below ((==_iff (symbol f.prefix_len) 0).0 end))
        | inr more ↦
            let later = not_last f.prefix_len below (λ e. ground (arith, e, more)) in
            subst Ends (sym (proceed_on rest f (symbol f.prefix_len) f' more))
              (next f' h.0 h.1 (omega (arith, h.1, later)))
      ]

  module _
      (step : (f : Finger)
        → Inv f
        → f.prefix_len < symbol_count size
        → Tried f (
            try_descend trie
              (views f.prefix_len)
              f
              (symbol f.prefix_len)
              track
              (prefix_hash trie symbol (suc f.prefix_len)))) where
    rounds-Ends :
        (fuel : ℕ) (p : KeyPrefetcher) (f : Finger)
        → Inv f
        → IsPrefetcher trie symbol (symbol_count size) p
        → p.prefetch_pos ≡ min (f.prefix_len + 4) (symbol_count size)
        → f.prefix_len < symbol_count size
        → symbol_count size ≤ f.prefix_len + fuel
        → Ends (descend_rounds fuel trie views p f track)
    unfolding descend_rounds
    rounds-Ends zero p f i h pos below enough = absurd (omega (arith, below, enough))
    rounds-Ends (suc fuel) p f i h pos below enough =
        rw
          (
            ready.symbols f.prefix_len below,
            ready.hashes f.prefix_len (omega (arith, next_pos, below)),
          )
          (proceed-Ends (λ f'. descend_rounds fuel trie views (prefetcher_step p trie) f' track) f
            (try_descend trie (views f.prefix_len) f (symbol f.prefix_len) track
              (prefix_hash trie symbol (suc f.prefix_len)))
            below (step f i below)
            (λ f' i' len below'.
              rounds-Ends fuel (prefetcher_step p trie) f' i' ready (omega (arith, len, next_pos))
                below' (omega (arith, len, enough))))
      where
        ready : IsPrefetcher trie symbol (symbol_count size) (prefetcher_step p trie)
        ready = prefetcher_step-IsPrefetcher trie symbol (symbol_count size) p h

        next_pos :
            (prefetcher_step p trie).prefetch_pos ≡ min (f.prefix_len + 5) (symbol_count size)
        next_pos = omega (arith, pos, step_pos trie symbol (symbol_count size) p h)

    -- An invariant that each attempt keeps holds where the descent ends, and it does end.
    pub descend-Ends :
        (p : KeyPrefetcher) (f : Finger)
        → Inv f
        → f.prefix_len ≡ 0
        → Ends (descend p trie views memory f size key track)
    unfolding descend
    descend-Ends p f i at_root =
        rounds-Ends (symbol_count size) (prefetcher_start p trie memory size key) f i
          (prefetcher_start-IsPrefetcher trie memory are_bytes size key p)
          (omega (arith, at_root, start_pos trie memory are_bytes size key p))
          (omega (arith, at_root, some_symbol)) (omega (arith, at_root))
      where
        some_symbol : 0 < symbol_count size
        some_symbol = count-pos size
