-- ===== src/Stats/Recent.antt =====
-- The history of src/libxbdev/stats.c holds the last samples.
use mathlib.Core.Path.{subst}
use native.Mathlib.Decide.{dec_lt, dec_le}
use nblock.Prelude.{
  ℕ, zero, suc, ◌+◌, ◌^◌, ◌<◌, ◌≤◌, List, [], ◌∷◌, get_or, set, take, take_all, length, length-set,
  length-take, length-replicate, get_or-set_self, get_or-set_ne, ◌≡◌, refl, sym, ap, ◌∙◌, arith,
}
use nblock.Stats.{History, start_history, record_sample, reset_history, copy_history, get_history}
use nblock.Stats.Slots.{
  slot, next, drop, mod-next, index_lem, slot-next_zero, slot-next-suc, slot_other, get_or-take,
  take-drop,
}

-- What happens to a history.
pub data Call (Sample : Type 0) : Type 0 where
  records : Sample → Call Sample
  resets : Call Sample

-- The samples since the last reset, at most as many as the capacity, the last one first.
unfoldable pub last_samples : {Sample : Type 0} → ℕ → List (Call Sample) → List Sample → List Sample
last_samples capacity [] xs = xs
last_samples capacity (records sample ∷ calls) xs =
    last_samples capacity calls (take capacity (sample ∷ xs))
last_samples capacity (resets ∷ calls) xs = last_samples capacity calls []

module _ {Sample : Type 0} (zero_sample : Sample) where
  -- The history holds the samples `xs`, the last one first.
  pub record Holds (h : History Sample) (xs : List Sample) : Type 0 where
    pub stored : length h.history ≡ h.history_capacity
    pub word : h.history_capacity ≤ 2 ^ 31
    pub in_range : h.history_index < h.history_capacity
    pub count : h.history_count ≡ length xs
    pub bounded : length xs ≤ h.history_capacity
    pub start : length xs < h.history_capacity → h.history_index ≡ length xs
    pub recent :
        (i : ℕ)
        → i < length xs
        → get_or h.history (slot h.history_capacity h.history_index i) zero_sample
          ≡ get_or xs i zero_sample

  -- The slots after a sample is stored.
  recent_after :
      (h : History Sample) (xs : List Sample) (sample : Sample)
      → Holds h xs
      → (i : ℕ) → i < h.history_capacity
      → i < suc (length xs)
      → get_or
          (set h.history h.history_index sample)
          (slot h.history_capacity (next h.history_capacity h.history_index) i)
          zero_sample
        ≡ get_or (sample ∷ xs) i zero_sample
  recent_after h xs sample v zero room near =
      let at = slot-next_zero h.history_capacity h.history_index v.in_range in
      ap (λ k. get_or (set h.history h.history_index sample) k zero_sample) at
      ∙ get_or-set_self h.history h.history_index sample zero_sample
          (omega (arith, v.stored, v.in_range))
  recent_after h xs sample v (suc j) room near =
      let at = slot-next-suc h.history_capacity h.history_index j v.in_range room in
      let other = slot_other h.history_capacity h.history_index j v.in_range room in
      ap (λ k. get_or (set h.history h.history_index sample) k zero_sample) at
      ∙ get_or-set_ne h.history h.history_index (slot h.history_capacity h.history_index j) sample
          zero_sample other
      ∙ v.recent j (omega arith)

  Holds-record_sample :
      (h : History Sample) (xs : List Sample) (sample : Sample)
      → Holds h xs
      → Holds (record_sample sample h) (take h.history_capacity (sample ∷ xs))
  unfolding record_sample
  Holds-record_sample h xs sample v =
      let at = mod-next h.history_capacity h.history_index v.in_range (omega (arith, v.word)) in
      let size = length-take h.history_capacity (sample ∷ xs) in
      record {
        stored = length-set h.history h.history_index sample ∙ v.stored;
        word = v.word;
        in_range = ground (arith, at, v.in_range);
        count = ground (arith, v.count, v.bounded, size);
        bounded = omega (arith, size);
        start = λ room. ground (arith, at, size, room, v.start, v.in_range);
        recent = λ i near.
            ap
              (λ k.
                get_or (set h.history h.history_index sample) (slot h.history_capacity k i)
                  zero_sample)
              at
            ∙ recent_after h xs sample v i (omega (arith, size, near)) (omega (arith, size, near))
            ∙ sym (
                get_or-take h.history_capacity (sample ∷ xs) i zero_sample
                  (omega (arith, size, near)));
      }

  Holds-start_history :
      (capacity : ℕ)
      → 1 ≤ capacity
      → capacity ≤ 2 ^ 31
      → Holds (start_history zero_sample capacity) []
  unfolding start_history
  Holds-start_history capacity some_room word = record {
    stored = length-replicate capacity zero_sample;
    word = word;
    in_range = omega arith;
    count = refl;
    bounded = omega arith;
    start = λ room. refl;
    recent = λ i near. absurd (omega (arith, near));
  }

  Holds-reset_history :
      (h : History Sample) (xs : List Sample) → Holds h xs → Holds (reset_history zero_sample h) []
  unfolding reset_history
  Holds-reset_history h xs v = record {
    stored = length-replicate h.history_capacity zero_sample;
    word = v.word;
    in_range = omega (arith, v.in_range);
    count = refl;
    bounded = omega arith;
    start = λ room. refl;
    recent = λ i near. absurd (omega (arith, near));
  }

  -- The loop reads the samples one by one.
  copy_history-Holds :
      (h : History Sample) (xs : List Sample) (i n : ℕ)
      → Holds h xs
      → i + n ≤ length xs
      → copy_history zero_sample h i n ≡ take n (drop i xs)
  unfolding copy_history
  copy_history-Holds h xs i zero v near = refl
  copy_history-Holds h xs i (suc n) v near =
      let rest = copy_history-Holds h xs (i + 1) n v (omega arith) in
      let inside : i < length xs = omega arith in
      let sample = v.recent i inside in
      let split = take-drop xs i n zero_sample inside in
      let next_drop : drop (i + 1) xs ≡ drop (suc i) xs =
        ap (λ k. drop k xs) {x = i + 1} {y = suc i} (omega arith) in
      elim (dec_le h.history_capacity h.history_count) [
        | yes full ↦
            let at =
              index_lem h.history_capacity h.history_index i v.in_range (omega (arith, v.bounded))
                v.word in
            let read = ap (λ k. get_or h.history k zero_sample) at ∙ sample in
            ground (arith, full, read, rest, split, next_drop)
        | no filling ↦
            let last = v.start (omega (arith, v.count)) in
            ground (arith, filling, last, inside, sample, rest, split, next_drop)
      ]

  get_history-Holds :
      (max_entries : ℕ) (h : History Sample) (xs : List Sample)
      → Holds h xs
      → get_history zero_sample max_entries h ≡ take max_entries xs
  unfolding get_history
  get_history-Holds max_entries h [] v =
      let empty : h.history_count ≡ 0 = v.count in
      let nothing : List Sample = [] in
      ground (arith, empty, take_all max_entries nothing (omega arith))
  get_history-Holds max_entries h (x ∷ xs) v = elim (dec_lt max_entries h.history_count) [
    | yes fewer ↦
        ground
          (arith, fewer, copy_history-Holds h (x ∷ xs) 0 max_entries v (omega (arith, v.count)))
    | no all ↦
        let copied = copy_history-Holds h (x ∷ xs) 0 h.history_count v (omega (arith, v.count)) in
        let counted = take_all h.history_count (x ∷ xs) (omega (arith, v.count)) in
        let asked = take_all max_entries (x ∷ xs) (omega (arith, v.count)) in
        ground (arith, all, copied, counted, asked, v.count)
  ]

  unfoldable pub run : List (Call Sample) → History Sample → History Sample
  run [] h = h
  run (records sample ∷ calls) h = run calls (record_sample sample h)
  run (resets ∷ calls) h = run calls (reset_history zero_sample h)

  capacity_kept :
      (sample : Sample) (h : History Sample)
      → ((record_sample sample h).history_capacity ≡ h.history_capacity)
        × ((reset_history zero_sample h).history_capacity ≡ h.history_capacity)
  unfolding record_sample reset_history
  capacity_kept sample h = (refl, refl)

  Holds-run :
      (calls : List (Call Sample)) (capacity : ℕ) (h : History Sample) (xs : List Sample)
      → h.history_capacity ≡ capacity
      → Holds h xs
      → Holds (run calls h) (last_samples capacity calls xs)
  unfolding run last_samples
  Holds-run [] capacity h xs at v = v
  Holds-run (records sample ∷ calls) capacity h xs at v =
      Holds-run calls capacity (record_sample sample h) (take capacity (sample ∷ xs))
        ((capacity_kept sample h).0 ∙ at)
        (subst (λ k. Holds (record_sample sample h) (take k (sample ∷ xs))) at
          (Holds-record_sample h xs sample v))
  Holds-run (resets ∷ calls) capacity h xs at v =
      Holds-run calls capacity (reset_history zero_sample h) []
        ((capacity_kept zero_sample h).1 ∙ at) (Holds-reset_history h xs v)

  -- From a start with a capacity of at least one and at most 2 ^ 31, after any sequence of samples and
  -- resets, the history that is given to the user is the samples since the last reset, the last one
  -- first: as many as the user has room for, the capacity allows and there are.
  pub get_history-run :
      (calls : List (Call Sample)) (capacity max_entries : ℕ)
      → 1 ≤ capacity
      → capacity ≤ 2 ^ 31
      → get_history zero_sample max_entries (run calls (start_history zero_sample capacity))
        ≡ take max_entries (last_samples capacity calls [])
  unfolding start_history
  get_history-run calls capacity max_entries some_room word =
      get_history-Holds max_entries (run calls (start_history zero_sample capacity))
        (last_samples capacity calls [])
        (Holds-run calls capacity (start_history zero_sample capacity) [] refl
          (Holds-start_history capacity some_room word))
