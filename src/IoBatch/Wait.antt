-- ===== src/IoBatch/Wait.antt =====
-- The wait for a batch in src/libxbdev/io.c.
use nblock.Prelude.{ℕ, Bool, true, false, ◌||◌, List, [], ◌∷◌, ◌≡◌}
use nblock.IoBatch.{IoBatch, Round, is_expired}

-- No flag changes between the two looks at it.
unfoldable pub Steady : List (Bool × Bool) → Type 0
Steady [] = true ≡ true
Steady ((first, second) ∷ flags) = (first ≡ second) × Steady flags

unfoldable pub AllSteady : List Round → Type 0
AllSteady [] = true ≡ true
AllSteady (round ∷ rounds) = Steady round.flags × AllSteady rounds

-- Some round is past the time.
unfoldable pub times_out : ℕ → ℕ → ℕ → List Round → Bool
times_out hz timeout_us start [] = false
times_out hz timeout_us start (round ∷ rounds) =
    is_expired hz timeout_us start round.ticks || times_out hz timeout_us start rounds
