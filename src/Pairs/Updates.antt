-- ===== src/Pairs/Updates.antt =====
-- `update_entry` over a table that nobody else changes.
use cuckoo_trie_vectorized.Base.{
  ℕ, ◌<◌, ◌≤◌, ◌≡◌, ◌≢◌, refl, arith, Bool, true, some, length, inl, inr, ap, ◌∙◌, sym, subst,
  Bool-cases,
}
use cuckoo_trie_vectorized.Config.{max_valid_color}
use cuckoo_trie_vectorized.Bits.{bit_and-low_mask}
use cuckoo_trie_vectorized.Entry.{Entry, entry_color, entry_tag, entry_type, entry_is_secondary}
use cuckoo_trie_vectorized.Entry.Bytes.{IsEntry}
use cuckoo_trie_vectorized.Trie.{Trie, Cell, bucket_at, cell_at, entry_at}
use cuckoo_trie_vectorized.Hash.{mix_bucket}
use cuckoo_trie_vectorized.Search.Headers.{IsCell, has_color}
use cuckoo_trie_vectorized.Pairs.Flags.{
  IsButForFlag, same_color_and_tag, adjusted-IsButForFlag, adjusted-flag, adjusted-IsCell,
  IsBucket-IsEntry,
}
use cuckoo_trie_vectorized.Pairs.Finds.{pair_bucket, IsFromPair, search_pair-IsFromPair}
use cuckoo_trie_vectorized.Pairs.Returns.{IsBucket, search_by_color}
use cuckoo_trie_vectorized.Pairs.Writes.{
  IsWritable, next_seq, with_entry, write_entry_lem, entry_at-with_entry,
}
use cuckoo_trie_vectorized.Pairs.Rewrites.{rewritten, find_entry_in_pair_by_color-rewritten}
use cuckoo_trie_vectorized.Pairs.Defs.{
  EntryCopy, still, find_entry_in_pair_by_color, validate_entry, adjusted, update_entry_slow_path,
  update_entry,
}

-- A copy that was read in its pair of buckets, and has the entry as it stands while its sequence is
-- current.
pub record IsCopy (trie : Trie) (copy : EntryCopy) : Type 0 where
  pub in_pair :
      copy.last_pos.bucket
      ≡ pair_bucket copy.primary_bucket
          (mix_bucket trie copy.primary_bucket (entry_tag copy.value))
          (entry_is_secondary copy.value)
  pub in_bucket : copy.last_pos.index < 4
  pub stands : validate_entry trie copy ≡ true → copy.value ≡ entry_at trie copy.last_pos

-- The table and the copy after an update of the entry that stands at `pos`.
pub record IsUpdated (trie : Trie) (pos : Cell) (new_value : Entry) (trie' : Trie)
    (copy' : EntryCopy) : Type 0 where
  pub located : copy'.last_pos ≡ pos
  pub value_eq : IsButForFlag copy'.value new_value
  pub flag_eq : entry_is_secondary copy'.value ≡ entry_is_secondary (entry_at trie pos)
  pub found_again :
      find_entry_in_pair_by_color trie'
        (still trie')
        copy'.primary_bucket
        (entry_tag new_value)
        (entry_color new_value)
      ≡ some copy'
  pub others :
      (b i : ℕ)
      → (b ≡ pos.bucket → i ≢ pos.index)
      → entry_at trie' (record { bucket = b; index = i })
        ≡ entry_at trie (record { bucket = b; index = i })

has_color_refl :
    (e : Entry) (tag color : ℕ)
    → entry_tag e ≡ tag
    → entry_color e ≡ color
    → has_color e (entry_is_secondary e) tag color ≡ true
has_color_refl e tag color same_tag same_color = elim (Bool-cases (entry_is_secondary e)) [
  | inl second ↦ rw (second) (ground (arith, same_tag, same_color))
  | inr first ↦ rw (first) (ground (arith, same_tag, same_color))
]

module _ (trie : Trie) (copy : EntryCopy) (new_value : Entry)
    (cells : (s : Bool)
      → IsBucket
          (bucket_at trie (
            pair_bucket copy.primary_bucket
              (mix_bucket trie copy.primary_bucket (entry_tag new_value))
              s)).cells)
    (fits : IsEntry new_value) (used : entry_type new_value ≢ 0)
    (valid : entry_color new_value ≤ max_valid_color)
    (distinct : mix_bucket trie copy.primary_bucket (entry_tag new_value) ≢ copy.primary_bucket)
    (found : EntryCopy)
    (finds : find_entry_in_pair_by_color trie
        (still trie)
        copy.primary_bucket
        (entry_tag new_value)
        (entry_color new_value)
      ≡ some found)
    (writable : IsWritable (bucket_at trie found.last_pos.bucket))
    (below : found.last_pos.bucket < length trie.buckets) where
  tag_fits : entry_tag new_value < 16
  unfolding entry_tag
  tag_fits = ground (arith, bit_and-low_mask 4 new_value.color_and_tag)

  -- The copy that the search makes.
  from_pair :
      IsFromPair
        (λ s e. has_color e s (entry_tag new_value) (entry_color new_value))
        (still trie)
        copy.primary_bucket
        (mix_bucket trie copy.primary_bucket (entry_tag new_value))
        found
  unfolding find_entry_in_pair_by_color
  from_pair =
      let secondary = mix_bucket trie copy.primary_bucket (entry_tag new_value) in
      search_pair-IsFromPair _ (λ s e. has_color e s (entry_tag new_value) (entry_color new_value))
        (still trie) copy.primary_bucket secondary
        (λ t s.
          search_by_color (still trie t (pair_bucket copy.primary_bucket secondary s)) (cells s) s
            (entry_tag new_value) tag_fits (entry_color new_value) valid)
        100 0 found finds

  stands_there : found.value ≡ entry_at trie found.last_pos
  unfolding entry_at cell_at
  stands_there = from_pair.copied.value_eq

  cell_fits : IsEntry (entry_at trie found.last_pos)
  unfolding entry_at cell_at
  cell_fits =
      IsBucket-IsEntry (bucket_at trie found.last_pos.bucket).cells found.last_pos.index
        (rw (from_pair.bucket_eq) (cells from_pair.is_secondary))

  but_for_nothing : IsButForFlag new_value new_value
  but_for_nothing = record {
    color_and_tag_eq = refl;
    last_symbol_eq = refl;
    body_eq = refl;
    link_eq = refl;
    type_eq = refl;
    rest_eq = refl;
  }

  -- The copy that an update leaves is the one that a search would make.
  same_copy :
      (e : Entry) (pos : Cell)
      → pos ≡ found.last_pos
      → record copy {
        value = e;
        last_pos = pos;
        last_seq = next_seq (bucket_at trie found.last_pos.bucket).write_lock_and_seq;
      }
        ≡ rewritten trie found e
  same_copy e pos q =
      ap
        (λ (p : Cell). record copy {
          value = e;
          last_pos = p;
          last_seq = next_seq (bucket_at trie found.last_pos.bucket).write_lock_and_seq;
        })
        q
      ∙ ap (λ (primary : ℕ). record (rewritten trie found e) { primary_bucket = primary })
          (sym from_pair.primary_eq)

  write_over :
      (e : Entry)
      → IsCell e
      → IsButForFlag e new_value
      → entry_is_secondary e ≡ entry_is_secondary found.value
      → IsUpdated trie found.last_pos new_value
          (with_entry trie found.last_pos e)
          (rewritten trie found e)
  write_over e cell same flag = record {
    located = refl;
    value_eq = same;
    flag_eq = flag ∙ ap entry_is_secondary stands_there;
    found_again =
        ap
          (λ (primary : ℕ).
            find_entry_in_pair_by_color (with_entry trie found.last_pos e)
              (still (with_entry trie found.last_pos e)) primary (entry_tag new_value)
              (entry_color new_value))
          from_pair.primary_eq
        ∙ find_entry_in_pair_by_color-rewritten trie copy.primary_bucket (entry_tag new_value)
            (entry_color new_value) cells tag_fits valid distinct found finds writable below e cell
            (same_color_and_tag e new_value same.color_and_tag_eq).0
            (same_color_and_tag e new_value same.color_and_tag_eq).1 flag;
    others = λ b i h. entry_at-with_entry trie found.last_pos e b i below h;
  }

  module _ (same_tag : entry_tag copy.value ≡ entry_tag new_value)
      (same_color : entry_color copy.value ≡ entry_color new_value)
      (same_flag : entry_is_secondary copy.value ≡ entry_is_secondary new_value)
      (read : IsCopy trie copy)
      (alone : (s : Bool) (pos : Cell)
        → pos.bucket
          ≡ pair_bucket copy.primary_bucket
              (mix_bucket trie copy.primary_bucket (entry_tag new_value))
              s
        → pos.index < 4
        → has_color (entry_at trie pos) s (entry_tag new_value) (entry_color new_value) ≡ true
        → pos ≡ found.last_pos) where
    -- A copy whose sequence is current names the place that a search finds.
    current_place :
        validate_entry trie copy ≡ true
        → (copy.last_pos ≡ found.last_pos)
          × (entry_is_secondary new_value ≡ entry_is_secondary found.value)
    current_place current =
        let passes : has_color (entry_at trie copy.last_pos) (entry_is_secondary copy.value)
              (entry_tag new_value) (entry_color new_value)
            ≡ true =
          subst
            (λ (e : Entry).
              has_color e (entry_is_secondary copy.value) (entry_tag new_value)
                (entry_color new_value)
              ≡ true)
            (read.stands current)
            (has_color_refl copy.value (entry_tag new_value) (entry_color new_value) same_tag
              same_color) in
        let there : copy.last_pos ≡ found.last_pos =
          alone (entry_is_secondary copy.value) copy.last_pos
            (read.in_pair
              ∙ ap
                  (λ (tag : ℕ).
                    pair_bucket copy.primary_bucket (mix_bucket trie copy.primary_bucket tag)
                      (entry_is_secondary copy.value))
                  same_tag)
            read.in_bucket passes in
        (
          there,
          sym same_flag
              ∙ ap entry_is_secondary
                  (read.stands current ∙ ap (entry_at trie) there ∙ sym stands_there),
        )

    slow_path :
        (trie' : Trie) × (copy' : EntryCopy) × (update_entry_slow_path trie copy new_value
          ≡ some (trie', copy'))
        × IsUpdated trie found.last_pos new_value trie' copy'
    unfolding update_entry_slow_path
    slow_path =
        let finds' : find_entry_in_pair_by_color trie (still trie) copy.primary_bucket
              (entry_tag copy.value) (entry_color copy.value)
            ≡ some found =
          rw (same_tag, same_color) finds in
        let e = adjusted new_value (entry_at trie found.last_pos) in
        (
          with_entry trie found.last_pos e,
          rewritten trie found e,
          rw (update_entry_slow_path, finds', write_entry_lem trie found.last_pos e writable)
              (ap (λ (result : EntryCopy). some (with_entry trie found.last_pos e, result))
                (same_copy e found.last_pos refl)),
          write_over e (adjusted-IsCell new_value _ fits cell_fits used)
              (adjusted-IsButForFlag new_value _ fits cell_fits)
              (adjusted-flag new_value _ fits cell_fits ∙ sym (ap entry_is_secondary stands_there)),
        )

    -- Let the pair's two buckets differ and hold four cells each that are in use or blank, and let a
    -- search find an entry with the copy's tag and colour, the only such cell of the pair whose flag is
    -- that of its bucket, in a locked bucket of the table that nobody writes in. Let the copy be read from a cell of
    -- the pair with the flag that belongs there, and be the entry as it stands if its sequence is
    -- current. Then update_entry, with a new value of stored bytes, in use, that has the copy's tag, valid colour and
    -- flag, writes the new value where the entry was found, also where it was moved since the copy was
    -- read: then with the flag of that place, and otherwise unchanged. All other cells stay, and a
    -- search finds the entry again, as the copy that update_entry leaves.
    pub update_entry-IsUpdated :
        (trie' : Trie) × (copy' : EntryCopy) × (update_entry trie copy new_value
          ≡ some (trie', copy'))
        × IsUpdated trie found.last_pos new_value trie' copy'
    unfolding update_entry
    update_entry-IsUpdated = elim (Bool-cases (validate_entry trie copy)) [
      | inl current ↦
          let pos = current_place current in
          (
            with_entry trie found.last_pos new_value,
            rewritten trie found new_value,
            rw (current, pos.0, write_entry_lem trie found.last_pos new_value writable)
                (ap
                  (λ (result : EntryCopy). some (with_entry trie found.last_pos new_value, result))
                  (same_copy new_value copy.last_pos pos.0)),
            write_over new_value (fits, λ unused. absurd (used unused)) but_for_nothing pos.1,
          )
      | inr changed ↦ let slow = slow_path in (slow.0, slow.1, rw (changed) slow.2, slow.3)
    ]
