-- ===== src/Gateway/Runtimes/Gate.antt =====
-- Capabilities with a version suffix.
use aimeshchat.Base.{ℕ, ◌≡◌, refl, true, none, some, List, [], ◌∷◌, ◌++◌, all, arith}
use aimeshchat.Gateway.Runtimes.{rpartition, is_digit, is_version, normalize_capability}

rpartition_digits : (ds : List ℕ) → all is_digit ds ≡ true → rpartition ds ≡ none
unfolding rpartition all
rpartition_digits [] h = refl
rpartition_digits (d ∷ ds) h = ground (arith, rpartition_digits ds)

rpartition_suffix : (ds : List ℕ) → all is_digit ds ≡ true → rpartition (b'v' ∷ ds) ≡ none
unfolding rpartition
rpartition_suffix ds h = ground (arith, rpartition_digits ds h)

rpartition_last :
    (base suffix : List ℕ)
    → rpartition suffix ≡ none
    → rpartition (base ++ b'_' ∷ suffix) ≡ some (base, suffix)
unfolding rpartition
rpartition_last [] suffix h = ground arith
rpartition_last (c ∷ base) suffix h = ground (arith, rpartition_last base suffix h)

-- A capability whose name ends in `_v` and at least one digit counts as the one before the suffix, whatever
-- underscores and versions that has itself.
pub normalize_capability-version :
    (base : List ℕ) (d : ℕ) (ds : List ℕ)
    → all is_digit (d ∷ ds) ≡ true
    → normalize_capability (base ++ b'_' ∷ (b'v' ∷ (d ∷ ds))) ≡ base
unfolding normalize_capability is_version
normalize_capability-version base d ds h =
    ground (arith, rpartition_last base (b'v' ∷ (d ∷ ds)) (rpartition_suffix (d ∷ ds) h))
