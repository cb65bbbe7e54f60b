-- ===== src/Colors/Unused.antt =====
-- All versions choose the lowest colour that no cell of the pair has.
use cuckoo_trie_vectorized.Base.{ℕ, ◌≡◌, ap, ◌∙◌, sym, arith, List, [], ◌∷◌, some, ◌++◌}
use cuckoo_trie_vectorized.Entry.{Entry}
use cuckoo_trie_vectorized.Entry.Bytes.{IsEntry}
use cuckoo_trie_vectorized.Colors.Defs.{
  used_colors_from, unused_color_in_pair_scalar, unused_color_in_pair_avx512,
  unused_color_in_pair_vectorized,
}
use cuckoo_trie_vectorized.Colors.Marks.{taken}
use cuckoo_trie_vectorized.Colors.Words.{
  IsFirstUnused, color_power, color_lane_lem, Covers-one, Covers-none, Covers-or, Covers-same,
  first_unique, free_color-IsFirstUnused, taken-interleave, interleave, taken-append,
}

module _ (e0 e1 e2 e3 f0 f1 f2 f3 : Entry) (v0 : IsEntry e0) (v1 : IsEntry e1) (v2 : IsEntry e2)
    (v3 : IsEntry e3) (w0 : IsEntry f0) (w1 : IsEntry f1) (w2 : IsEntry f2) (w3 : IsEntry f3) where
  abbrev pub cells1 : List Entry
  cells1 = e0 ∷ e1 ∷ e2 ∷ e3 ∷ []

  abbrev pub cells2 : List Entry
  cells2 = f0 ∷ f1 ∷ f2 ∷ f3 ∷ []

  in_turn_same : (c : ℕ) → taken c (interleave cells1 cells2) ≡ taken c (cells1 ++ cells2)
  in_turn_same c = taken-interleave c cells1 cells2 ∙ sym (taken-append c cells1 cells2)

  scalar :
      (c : ℕ) × (unused_color_in_pair_scalar cells1 cells2 ≡ some c)
      × IsFirstUnused c (cells1 ++ cells2)
  unfolding unused_color_in_pair_scalar used_colors_from
  scalar =
      rw
        (
          color_power e0 v0,
          color_power e1 v1,
          color_power e2 v2,
          color_power e3 v3,
          color_power f0 w0,
          color_power f1 w1,
          color_power f2 w2,
          color_power f3 w3,
        )
        (free_color-IsFirstUnused _ (cells1 ++ cells2)
          (Covers-same in_turn_same (
            Covers-or
              (Covers-or
                (Covers-or
                  (Covers-or
                    (Covers-or
                      (Covers-or
                        (Covers-or (Covers-or Covers-none (Covers-one e0 v0)) (Covers-one f0 w0))
                        (Covers-one e1 v1))
                      (Covers-one f1 w1))
                    (Covers-one e2 v2))
                  (Covers-one f2 w2))
                (Covers-one e3 v3))
              (Covers-one f3 w3)))
          (omega arith))

  avx512 :
      (c : ℕ) × (unused_color_in_pair_avx512 cells1 cells2 ≡ some c)
      × IsFirstUnused c (cells1 ++ cells2)
  unfolding unused_color_in_pair_avx512
  avx512 =
      rw
        (
          color_lane_lem e0 v0,
          color_lane_lem e1 v1,
          color_lane_lem e2 v2,
          color_lane_lem e3 v3,
          color_lane_lem f0 w0,
          color_lane_lem f1 w1,
          color_lane_lem f2 w2,
          color_lane_lem f3 w3,
        )
        (free_color-IsFirstUnused _ (cells1 ++ cells2)
          (Covers-or
            (Covers-or
              (Covers-or
                (Covers-or
                  (Covers-or
                    (Covers-or (Covers-or (Covers-one e0 v0) (Covers-one e1 v1)) (Covers-one e2 v2))
                    (Covers-one e3 v3))
                  (Covers-one f0 w0))
                (Covers-one f1 w1))
              (Covers-one f2 w2))
            (Covers-one f3 w3))
          (omega arith))

  avx2 :
      (c : ℕ) × (unused_color_in_pair_vectorized cells1 cells2 ≡ some c)
      × IsFirstUnused c (cells1 ++ cells2)
  unfolding unused_color_in_pair_vectorized
  avx2 =
      rw
        (
          color_lane_lem e0 v0,
          color_lane_lem e1 v1,
          color_lane_lem e2 v2,
          color_lane_lem e3 v3,
          color_lane_lem f0 w0,
          color_lane_lem f1 w1,
          color_lane_lem f2 w2,
          color_lane_lem f3 w3,
        )
        (free_color-IsFirstUnused _ (cells1 ++ cells2)
          (Covers-same in_turn_same (
            Covers-or
              (Covers-or
                (Covers-or (Covers-or (Covers-one e0 v0) (Covers-one f0 w0))
                  (Covers-or (Covers-one e1 v1) (Covers-one f1 w1)))
                (Covers-or (Covers-one e2 v2) (Covers-one f2 w2)))
              (Covers-or (Covers-one e3 v3) (Covers-one f3 w3))))
          (omega arith))

  -- For two buckets of four stored entries the scalar, the AVX2 and the AVX-512 version never meet
  -- their assertion, and all choose the same colour: a valid one that no entry of the pair has,
  -- while each lower colour is taken.
  pub unused_colors_agree :
      (c : ℕ) × (unused_color_in_pair_scalar cells1 cells2 ≡ some c)
      × (unused_color_in_pair_vectorized cells1 cells2 ≡ some c)
      × (unused_color_in_pair_avx512 cells1 cells2 ≡ some c)
      × IsFirstUnused c (cells1 ++ cells2)
  unused_colors_agree =
      let (c, chosen, first) = scalar in
      let (c2, chosen2, first2) = avx2 in
      let (c3, chosen3, first3) = avx512 in
      (
        c,
        chosen,
        chosen2 ∙ ap some (first_unique (cells1 ++ cells2) c2 c first2 first),
        chosen3 ∙ ap some (first_unique (cells1 ++ cells2) c3 c first3 first),
        first,
      )
