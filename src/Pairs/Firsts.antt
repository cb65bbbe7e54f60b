-- ===== src/Pairs/Firsts.antt =====
-- The first cell that passes a test: that it does pass, that it is found, and where it is after a
-- cell was written.
use cuckoo_trie_vectorized.Base.{
  ℕ, zero, suc, ◌+◌, ◌<◌, ◌≡◌, refl, arith, Bool, true, false, List, [], ◌∷◌, some, get_or, set,
  length, Bool-cases, inl, inr, ap, ◌∙◌,
}
use cuckoo_trie_vectorized.Entry.{Entry}
use cuckoo_trie_vectorized.Trie.{zero_entry}
use cuckoo_trie_vectorized.Search.Buckets.{first_cell}

module _ (test : Entry → Bool) where
  -- The first cell stands behind the start, passes the test, and still is the first one when another
  -- entry that passes takes its place.
  pub record IsFirst (cells : List Entry) (k j : ℕ) : Type 0 where
    pub place : ℕ
    pub place_eq : j ≡ k + place
    pub below : place < length cells
    pub passes : test (get_or cells place zero_entry) ≡ true
    pub replaced : (e : Entry) → test e ≡ true → first_cell test (set cells place e) k ≡ some j

  next-IsFirst :
      (e : Entry) (rest : List Entry) (k j : ℕ)
      → test e ≡ false
      → IsFirst rest (suc k) j
      → IsFirst (e ∷ rest) k j
  unfolding first_cell
  next-IsFirst e rest k j fails f = record {
    place = suc f.place;
    place_eq = omega (arith, f.place_eq);
    below = omega (arith, f.below);
    passes = f.passes;
    replaced = λ new h. rw (fails) (f.replaced new h);
  }

  pub first_cell-IsFirst :
      (cells : List Entry) (k j : ℕ) → first_cell test cells k ≡ some j → IsFirst cells k j
  unfolding first_cell
  first_cell-IsFirst [] k j q = absurd (ground (arith, q))
  first_cell-IsFirst (e ∷ rest) k j q = elim (Bool-cases (test e)) [
    | inl passes ↦ record {
      place = 0;
      place_eq = ground (arith, q, passes);
      below = omega arith;
      passes = passes;
      replaced = λ new h. ground (arith, q, passes, h);
    }
    | inr fails ↦
        next-IsFirst e rest k j fails (first_cell-IsFirst rest (suc k) j (ground (arith, q, fails)))
  ]

  pub first_cell-found :
      (cells : List Entry) (k i : ℕ)
      → i < length cells
      → test (get_or cells i zero_entry) ≡ true
      → (j : ℕ) × (first_cell test cells k ≡ some j)
  unfolding first_cell
  first_cell-found [] k i below passes = absurd (omega (arith, below))
  first_cell-found (e ∷ rest) k zero below passes = (k, rw (passes) refl)
  first_cell-found (e ∷ rest) k (suc i) below passes = elim (Bool-cases (test e)) [
    | inl now ↦ (k, rw (now) refl)
    | inr fails ↦
        let later = first_cell-found rest (suc k) i (omega (arith, below)) passes in
        (later.0, rw (fails) later.1)
  ]

  -- From the start of the cells the place is the index that is found.
  pub index_below : (cells : List Entry) (j : ℕ) → IsFirst cells 0 j → j < length cells
  index_below cells j f = omega (arith, f.place_eq, f.below)

  pub index_passes :
      (cells : List Entry) (j : ℕ) → IsFirst cells 0 j → test (get_or cells j zero_entry) ≡ true
  index_passes cells j f = let here : j ≡ f.place = omega (arith, f.place_eq) in rw (here) f.passes

  pub first_cell-replaced :
      (cells : List Entry) (j : ℕ) (e : Entry)
      → IsFirst cells 0 j
      → test e ≡ true
      → first_cell test (set cells j e) 0 ≡ some j
  first_cell-replaced cells j e f h =
      let here : j ≡ f.place = omega (arith, f.place_eq) in
      ap (λ (i : ℕ). first_cell test (set cells i e) 0) here ∙ f.replaced e h
