-- ===== src/Stats.antt =====
-- src/libxbdev/stats.c: the history of a device's samples, a circular array. A sample is only copied
-- there, and its type is a parameter. The rates, which are floats, the thresholds and the table of
-- devices are not modelled.
pub mod Slots
pub mod Recent
pub mod Collect
pub mod Report
pub mod Accounts
pub mod Pollers
pub mod Listed
pub mod Tests
use nblock.Prelude.{
  ℕ, zero, suc, ◌+◌, ◌-◌, ◌%◌, ◌^◌, ◌==◌, ltb, leb, if◌then◌else◌, Bool, true, false, List, [], ◌∷◌,
  get_or, set, replicate,
}

module _ (Sample : Type 0) where
  -- `history` and its three numbers, which are `uint32_t`.
  pub record History : Type 0 where
    pub history : List Sample
    pub history_count : ℕ
    pub history_index : ℕ
    pub history_capacity : ℕ

module _ {Sample : Type 0} where
  -- What the start of the collection allocates; `zero_sample` is what `calloc` leaves.
  unfoldable pub start_history : Sample → ℕ → History Sample
  start_history zero_sample history_size = record {
    history = replicate history_size zero_sample;
    history_count = 0;
    history_index = 0;
    history_capacity = history_size;
  }

  unfoldable pub record_sample : Sample → History Sample → History Sample
  record_sample sample h = record h {
    history = set h.history h.history_index sample;
    history_index = (h.history_index + 1) % 2 ^ 32 % h.history_capacity;
    history_count =
        if ltb h.history_count h.history_capacity then h.history_count + 1 else h.history_count;
  }

  unfoldable pub reset_history : Sample → History Sample → History Sample
  reset_history zero_sample h = record h {
    history = replicate h.history_capacity zero_sample;
    history_count = 0;
    history_index = 0;
  }

  -- `history_index - 1 - i + history_capacity` in `uint32_t` arithmetic.
  abbrev pub index_back : History Sample → ℕ → ℕ
  index_back h i = ((h.history_index + 2 ^ 32 - 1 - i) % 2 ^ 32 + h.history_capacity) % 2 ^ 32

  -- The loop of `xbdev_stats_get_history` from i on, for `n` more entries; the samples that are copied.
  unfoldable pub copy_history : Sample → History Sample → ℕ → ℕ → List Sample
  copy_history zero_sample h i zero = []
  copy_history zero_sample h i (suc n) =
      let rest = copy_history zero_sample h (i + 1) n in
      if leb h.history_capacity h.history_count
      then get_or h.history (index_back h i % h.history_capacity) zero_sample ∷ rest
      else (if ltb i h.history_index
          then get_or h.history (h.history_index - 1 - i) zero_sample ∷ rest
          else [])

  unfoldable pub get_history : Sample → ℕ → History Sample → List Sample
  get_history zero_sample max_entries h =
      let entries = if ltb max_entries h.history_count then max_entries else h.history_count in
      if h.history_count == 0 then [] else copy_history zero_sample h 0 entries
