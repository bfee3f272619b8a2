-- ===== src/Park/Registry/Selections.antt =====
-- What the stages of a sweep select: hot rows of the table, each once.
use aimeshchat.Base.{
  ℕ, zero, suc, ◌-◌, String, ◌≡◌, refl, Bool, true, false, ◌&&◌, none, some, [], ◌∷◌, ◌==◌, eq_iff,
  arith, length, length-take, count, take, All, Bool-cases, inl, inr, leb,
}
use aimeshchat.Base.Table.{Table, lookup, keep, IsKeyed, IsKeyed-keep, IsKeyed-lookup}
use aimeshchat.Park.Registry.{Lease, is_hot, hot_rows, place, by_activity, excess, max_hot_parked}
use aimeshchat.Park.Registry.Eviction.{AreHotIn, hot_count}

abbrev Found : Table Lease → String × Lease → Type 0
Found t (k, row) = lookup k t ≡ some row

keep-AreHotIn :
    (q : Lease → Bool) (t s : Table Lease)
    → All (λ (k, row). lookup k t ≡ some row) s
    → AreHotIn t (keep (λ row. is_hot row.lifecycle && q row) s)
unfolding keep
keep-AreHotIn q t [] h = tt
keep-AreHotIn q t ((k, row) ∷ s) h = elim (Bool-cases (is_hot row.lifecycle && q row)) [
  | inl e ↦ rw e ((h.0, ground arith), keep-AreHotIn q t s h.1)
  | inr e ↦ rw e (keep-AreHotIn q t s h.1)
]

pub selected-AreHotIn :
    (q : Lease → Bool) (t : Table Lease)
    → IsKeyed t
    → AreHotIn t (keep (λ row. is_hot row.lifecycle && q row) t)
selected-AreHotIn q t u = keep-AreHotIn q t t (IsKeyed-lookup t u)

hot-AreHotIn :
    (t s : Table Lease) → All (λ (k, row). lookup k t ≡ some row) s → AreHotIn t (hot_rows s)
unfolding hot_rows keep
hot-AreHotIn t [] h = tt
hot-AreHotIn t ((k, row) ∷ s) h = elim (Bool-cases (is_hot row.lifecycle)) [
  | inl e ↦ rw e ((h.0, e), hot-AreHotIn t s h.1)
  | inr e ↦ rw e (hot-AreHotIn t s h.1)
]

length-hot_rows : (t : Table Lease) → length (hot_rows t) ≡ hot_count t
unfolding hot_rows keep count
length-hot_rows [] = refl
length-hot_rows ((k, row) ∷ t) = ground (arith, length-hot_rows t)

-- Sorting keeps the rows.
length-place : (x : String × Lease) (t : Table Lease) → length (place x t) ≡ suc (length t)
unfolding place
length-place x [] = refl
length-place x (y ∷ ys) = ground (arith, length-place x ys)

length-by_activity : (t : Table Lease) → length (by_activity t) ≡ length t
unfolding by_activity
length-by_activity [] = refl
length-by_activity (x ∷ xs) = omega (arith, length-place x (by_activity xs), length-by_activity xs)

place-AreHotIn :
    (t : Table Lease) (k : String) (row : Lease) (s : Table Lease)
    → (lookup k t ≡ some row) × (is_hot row.lifecycle ≡ true)
    → AreHotIn t s
    → AreHotIn t (place (k, row) s)
unfolding place
place-AreHotIn t k row [] h a = (h, tt)
place-AreHotIn t k row ((j, r) ∷ s) h a =
    elim (Bool-cases (leb row.last_activity r.last_activity)) [
      | inl e ↦ rw e (h, a)
      | inr e ↦ rw e (a.0, place-AreHotIn t k row s h a.1)
    ]

by_activity-AreHotIn : (t s : Table Lease) → AreHotIn t s → AreHotIn t (by_activity s)
unfolding by_activity
by_activity-AreHotIn t [] a = tt
by_activity-AreHotIn t ((k, row) ∷ s) a =
    place-AreHotIn t k row (by_activity s) a.0 (by_activity-AreHotIn t s a.1)

lookup-place :
    (j k : String) (row : Lease) (t : Table Lease)
    → lookup j t ≡ none
    → (k == j) ≡ false
    → lookup j (place (k, row) t) ≡ none
unfolding place lookup
lookup-place j k row [] h e = ground arith
lookup-place j k row ((i, r) ∷ t) h e = ground (arith, lookup-place j k row t)

lookup-by_activity :
    (j : String) (t : Table Lease) → lookup j t ≡ none → lookup j (by_activity t) ≡ none
unfolding by_activity lookup
lookup-by_activity j [] h = refl
lookup-by_activity j ((k, row) ∷ t) h =
    lookup-place j k row (by_activity t) (lookup-by_activity j t (ground arith)) (ground arith)

IsKeyed-place :
    (k : String) (row : Lease) (t : Table Lease)
    → lookup k t ≡ none
    → IsKeyed t
    → IsKeyed (place (k, row) t)
unfolding place lookup
IsKeyed-place k row [] h u = (refl, tt)
IsKeyed-place k row ((j, r) ∷ t) h u = elim (Bool-cases (leb row.last_activity r.last_activity)) [
  | inl e ↦ rw e (h, u)
  | inr e ↦ rw e (
    lookup-place j k row t u.0 (ground (arith, eq_iff k j, eq_iff j k)),
    IsKeyed-place k row t (ground arith) u.1,
  )
]

IsKeyed-by_activity : (t : Table Lease) → IsKeyed t → IsKeyed (by_activity t)
unfolding by_activity
IsKeyed-by_activity [] u = tt
IsKeyed-by_activity ((k, row) ∷ t) u =
    IsKeyed-place k row (by_activity t) (lookup-by_activity k t u.0) (IsKeyed-by_activity t u.1)

take-AreHotIn : (t : Table Lease) (n : ℕ) (s : Table Lease) → AreHotIn t s → AreHotIn t (take n s)
take-AreHotIn t zero s a = tt
take-AreHotIn t (suc n) [] a = tt
take-AreHotIn t (suc n) ((k, row) ∷ s) a = (a.0, take-AreHotIn t n s a.1)

lookup-take :
    (j : String) (n : ℕ) (t : Table Lease) → lookup j t ≡ none → lookup j (take n t) ≡ none
unfolding lookup
lookup-take j zero t h = refl
lookup-take j (suc n) [] h = refl
lookup-take j (suc n) ((k, row) ∷ t) h = ground (arith, lookup-take j n t)

IsKeyed-take : (n : ℕ) (t : Table Lease) → IsKeyed t → IsKeyed (take n t)
IsKeyed-take zero t u = tt
IsKeyed-take (suc n) [] u = tt
IsKeyed-take (suc n) ((k, row) ∷ t) u = (lookup-take k n t u.0, IsKeyed-take n t u.1)

-- The rows above the limit are hot rows of the table, each once, and as many as are too many.
pub excess-AreHotIn :
    (t : Table Lease)
    → IsKeyed t
    → IsKeyed (excess t)
      × AreHotIn t (excess t)
      × (length (excess t) ≡ hot_count t - max_hot_parked)
unfolding excess hot_rows
excess-AreHotIn t u =
    let n = length (by_activity (hot_rows t)) - max_hot_parked in
    (
      IsKeyed-take n _ (IsKeyed-by_activity _ (IsKeyed-keep _ t u)),
      take-AreHotIn t n _ (by_activity-AreHotIn t _ (hot-AreHotIn t t (IsKeyed-lookup t u))),
      omega (
        arith,
        length-take n (by_activity (hot_rows t)),
        length-by_activity (hot_rows t),
        length-hot_rows t,
      ),
    )
