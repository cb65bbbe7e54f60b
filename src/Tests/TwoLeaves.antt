-- ===== src/Tests/TwoLeaves.antt =====
-- The list of the leaves of the trie of two keys.
use cuckoo_trie_vectorized.Base.{
  ℕ, zero, suc, ◌<◌, ◌≡◌, refl, subst, ◌∙◌, arith, Bool, true, false, [], ◌∷◌,
}
use cuckoo_trie_vectorized.Entry.{
  entry_type, entry_kv, entry_color, entry_tag, entry_is_secondary, get_bits_uint128, entry_bits,
}
use cuckoo_trie_vectorized.Trie.{Cell, bucket_at, entry_at}
use cuckoo_trie_vectorized.Hash.{hash_to_bucket, hash_to_tag, mix_bucket}
use cuckoo_trie_vectorized.Alloc.{trie_min_leaf}
use cuckoo_trie_vectorized.Lookup.Tree.{IsOnly, color_test, place}
use cuckoo_trie_vectorized.Iterators.Listed.{IsLink, list_next, list_end, IsListed}
use cuckoo_trie_vectorized.Tests.TwoKeys.{two_keys}

-- The cells that pass the test of a link, one by one.
first_alone :
    (s : Bool) (i : ℕ)
    → i < 4
    → color_test 0 1 s (entry_at two_keys (place two_keys 0 s i)) ≡ true
    → place two_keys 0 s i ≡ record { bucket = 0; index = 1 }
unfolding entry_at bucket_at hash_to_bucket hash_to_tag mix_bucket entry_color entry_tag
    entry_is_secondary
first_alone false zero fits e = absurd (ground (arith, e))
first_alone false (suc zero) fits e = refl
first_alone false (suc (suc zero)) fits e = absurd (ground (arith, e))
first_alone false (suc (suc (suc zero))) fits e = absurd (ground (arith, e))
first_alone false (suc (suc (suc (suc i)))) fits e = absurd (omega (arith, fits))
first_alone true zero fits e = absurd (ground (arith, e))
first_alone true (suc zero) fits e = absurd (ground (arith, e))
first_alone true (suc (suc zero)) fits e = absurd (ground (arith, e))
first_alone true (suc (suc (suc zero))) fits e = absurd (ground (arith, e))
first_alone true (suc (suc (suc (suc i)))) fits e = absurd (omega (arith, fits))

second_alone :
    (s : Bool) (i : ℕ)
    → i < 4
    → color_test 0 0 s (entry_at two_keys (place two_keys 32 s i)) ≡ true
    → place two_keys 32 s i ≡ record { bucket = 2; index = 0 }
unfolding entry_at bucket_at hash_to_bucket hash_to_tag mix_bucket entry_color entry_tag
    entry_is_secondary
second_alone false zero fits e = refl
second_alone false (suc zero) fits e = absurd (ground (arith, e))
second_alone false (suc (suc zero)) fits e = absurd (ground (arith, e))
second_alone false (suc (suc (suc zero))) fits e = absurd (ground (arith, e))
second_alone false (suc (suc (suc (suc i)))) fits e = absurd (omega (arith, fits))
second_alone true zero fits e = absurd (ground (arith, e))
second_alone true (suc zero) fits e = absurd (ground (arith, e))
second_alone true (suc (suc zero)) fits e = absurd (ground (arith, e))
second_alone true (suc (suc (suc zero))) fits e = absurd (ground (arith, e))
second_alone true (suc (suc (suc (suc i)))) fits e = absurd (omega (arith, fits))

-- A link to a cell that is alone.
named_cell :
    (hash color : ℕ) (pos : Cell)
    → IsOnly two_keys (color_test (hash_to_tag hash) color) hash pos
    → hash_to_bucket hash < 64
    → hash_to_tag hash < 16
    → color < 9
    → IsLink two_keys
        (record { primary_bucket = hash_to_bucket hash; tag = hash_to_tag hash; color = color })
        pos
named_cell hash color pos only in_range tag_fits valid = record {
  hash = hash;
  bucket_eq = refl;
  tag_eq = refl;
  in_range = in_range;
  tag_fits = tag_fits;
  valid = omega (arith, valid);
  only = only;
}

first-IsOnly : IsOnly two_keys (color_test 0 1) 0 (record { bucket = 0; index = 1 })
unfolding entry_at bucket_at hash_to_bucket hash_to_tag mix_bucket entry_color entry_tag
    entry_is_secondary
first-IsOnly = record {
  placed = record { is_secondary = false; index_fits = omega arith; pos_eq = refl; passes = refl };
  alone = λ other p.
      p.pos_eq
      ∙ first_alone p.is_secondary other.index p.index_fits (
          subst (λ (c : Cell). color_test 0 1 p.is_secondary (entry_at two_keys c) ≡ true) p.pos_eq
            p.passes);
}

second-IsOnly : IsOnly two_keys (color_test 0 0) 32 (record { bucket = 2; index = 0 })
unfolding entry_at bucket_at hash_to_bucket hash_to_tag mix_bucket entry_color entry_tag
    entry_is_secondary
second-IsOnly = record {
  placed = record { is_secondary = false; index_fits = omega arith; pos_eq = refl; passes = refl };
  alone = λ other p.
      p.pos_eq
      ∙ second_alone p.is_secondary other.index p.index_fits (
          subst (λ (c : Cell). color_test 0 0 p.is_secondary (entry_at two_keys c) ≡ true) p.pos_eq
            p.passes);
}

pub two_keys-IsListed : IsListed two_keys (100 ∷ 200 ∷ [])
unfolding entry_at bucket_at trie_min_leaf entry_type entry_kv entry_bits get_bits_uint128
    hash_to_bucket hash_to_tag
two_keys-IsListed = record {
  listed = λ rooted.
      list_next (record { bucket = 0; index = 1 })
        (named_cell 0 1 (record { bucket = 0; index = 1 }) first-IsOnly (omega arith) (omega arith)
          (omega arith))
        refl refl
        (list_next (record { bucket = 2; index = 0 })
          (named_cell 32 0 (record { bucket = 2; index = 0 }) second-IsOnly (omega arith)
            (omega arith) (omega arith))
          refl refl (list_end refl));
  nothing = λ e. absurd (ground (arith, e));
}
