-- ===== src/BitString/Marks.antt =====
-- Single bits: `get_bit` after `set_bit`.
use cuckoo_trie_vectorized.Base.{
  ℕ, ◌-◌, ◌*◌, ◌/◌, ◌%◌, ◌^◌, ◌<◌, bit_and, bit_or, ◌≡◌, refl, arith, Bool, true, not, List, ◌==◌,
  if◌then◌else◌, length, u8, ◌<<<◌, ◌>>>◌, ◌∙◌, ap, get_or-set_self, get_or-set_ne, ℕ_discrete,
  ==-ne, set, sym,
}
use cuckoo_trie_vectorized.Base.Table.{every, every_sound, same, same→eq}
use cuckoo_trie_vectorized.BitString.Defs.{byte_at, get_bit, set_bit}

abbrev read_bit : ℕ → ℕ → Bool
read_bit x r = not (bit_and (u8 (x <<< r)) 0x80 == 0)

abbrev write_bit : ℕ → ℕ → ℕ → ℕ
write_bit x r v = let mask = 0x80 >>> r in u8 (bit_or (bit_and x (2 ^ 8 - 1 - mask)) (mask * v))

-- Every byte, both values of a bit, and every pair of places in the byte.
write_table :
    every 8 (λ r. every 8 (λ q. every 2 (λ v.
      every 256
        (λ x. same (read_bit (write_bit x r v) q) (if r == q then v == 1 else read_bit x q)))))
    ≡ true
unfolding every
write_table = refl

read-write_bit :
    (x r q v : ℕ)
    → x < 256
    → r < 8
    → q < 8
    → v < 2
    → read_bit (write_bit x r v) q ≡ (if r == q then v == 1 else read_bit x q)
read-write_bit x r q v xs rs qs vs = same→eq _ _ (
    every_sound 256 _ x
      (every_sound 2 _ v (every_sound 8 _ q (every_sound 8 _ r write_table rs) qs) vs) xs)

-- Setting one bit to 0 or 1 within the string makes `get_bit` read that value there, and changes no
-- other bit.
pub get_bit-set_bit :
    (bs : List ℕ) (i j v : ℕ)
    → ((k : ℕ) → byte_at bs k < 256)
    → i / 8 < length bs
    → v < 2
    → get_bit (set_bit bs i v) j ≡ (if i == j then v == 1 else get_bit bs j)
unfolding get_bit set_bit
get_bit-set_bit bs i j v bytes inside vs = elim (ℕ_discrete (i / 8) (j / 8)) [
  | yes here ↦ rw (stored here) (
      read-write_bit (byte_at bs (i / 8)) (i % 8) (j % 8) v (bytes (i / 8)) (omega arith)
        (omega arith) vs
      ∙ rw (same_place here, ap (byte_at bs) here))
  | no elsewhere ↦ rw (
    get_or-set_ne bs (i / 8) (j / 8) (write_bit (byte_at bs (i / 8)) (i % 8) v) 0 elsewhere,
    ==-ne i j (λ e. elsewhere (ap (λ (k : ℕ). k / 8) e)),
  )
]
  where
    stored :
        i / 8 ≡ j / 8
        → byte_at (set bs (i / 8) (write_bit (byte_at bs (i / 8)) (i % 8) v)) (j / 8)
          ≡ write_bit (byte_at bs (i / 8)) (i % 8) v
    stored here =
        ap (byte_at (set bs (i / 8) (write_bit (byte_at bs (i / 8)) (i % 8) v))) (sym here)
        ∙ get_or-set_self bs (i / 8) (write_bit (byte_at bs (i / 8)) (i % 8) v) 0 inside

    same_place : i / 8 ≡ j / 8 → (i % 8 == j % 8) ≡ (i == j)
    same_place here = ground arith
