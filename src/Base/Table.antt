-- ===== src/Base/Table.antt =====
-- Tables keyed by text, in the order of insertion: Python's `dict`, and an SQL table with a text
-- primary key, whose statements name their rows by that key or by a test on the row.
use mathlib.Core.Path.{◌≡◌, refl, subst}
use mathlib.Core.Bool.{Bool}
use mathlib.Core.List.{List, [], ◌∷◌}
use mathlib.Core.Option
use mathlib.Core.Option.{Option, none, some}
use native.Mathlib.Omega.{arith}
use text.Mathlib.Text.{◌==◌}
use text.Mathlib.TextEquality.{eq_iff}
use Prim.Native.String.{String}
use mathlib.Core.Logic.{inl, inr}
use aimeshchat.Base.Tests.{if◌then◌else◌, Bool-cases}
use aimeshchat.Base.Lists.{All}

abbrev pub Table {ℓ} : Type ℓ → Type ℓ
Table V = List (String × V)

abbrev keep_if {ℓ} : {V : Type ℓ} → (V → Bool) → Option V → Option V
keep_if p none = none
keep_if p (some v) = if p v then some v else none

module _ {ℓ} {V : Type ℓ} where
  unfoldable pub lookup : String → Table V → Option V
  lookup k [] = none
  lookup k ((j, v) ∷ t) = if j == k then some v else lookup k t

  -- `d[k] = v`: in place if the key is there, else at the end.
  unfoldable pub insert : String → V → Table V → Table V
  insert k v [] = (k, v) ∷ []
  insert k v ((j, w) ∷ t) = if j == k then (j, v) ∷ t else (j, w) ∷ insert k v t

  -- `UPDATE … WHERE key = k`.
  unfoldable pub modify : String → (V → V) → Table V → Table V
  modify k f [] = []
  modify k f ((j, v) ∷ t) = (j, if j == k then f v else v) ∷ modify k f t

  -- `DELETE … WHERE key = k`, `d.pop(k, None)`.
  unfoldable pub remove : String → Table V → Table V
  remove k [] = []
  remove k ((j, v) ∷ t) = let rest = remove k t in if j == k then rest else (j, v) ∷ rest

  -- `DELETE … WHERE not (p row)`.
  unfoldable pub keep : (V → Bool) → Table V → Table V
  keep p [] = []
  keep p ((j, v) ∷ t) = let rest = keep p t in if p v then (j, v) ∷ rest else rest

  -- A primary key: no two rows have the same.
  abbrev pub IsKeyed : Table V → Type ℓ
  IsKeyed [] = Unit
  IsKeyed ((k, v) ∷ t) = (lookup k t ≡ none) × IsKeyed t

  pub lookup-insert :
      (k j : String) (v : V) (t : Table V)
      → lookup j (insert k v t) ≡ (if k == j then some v else lookup j t)
  unfolding lookup insert
  lookup-insert k j v [] = refl
  lookup-insert k j v ((i, w) ∷ t) =
      ground (arith, eq_iff k j, eq_iff i k, eq_iff i j, lookup-insert k j v t)

  pub lookup-modify :
      (k j : String) (f : V → V) (t : Table V)
      → lookup j (modify k f t) ≡ (if k == j then Option.map f (lookup j t) else lookup j t)
  unfolding lookup modify
  lookup-modify k j f [] = ground arith
  lookup-modify k j f ((i, w) ∷ t) =
      ground (arith, eq_iff k j, eq_iff i k, eq_iff i j, lookup-modify k j f t)

  pub lookup-remove :
      (k j : String) (t : Table V) → lookup j (remove k t) ≡ (if k == j then none else lookup j t)
  unfolding lookup remove
  lookup-remove k j [] = ground arith
  lookup-remove k j ((i, w) ∷ t) =
      ground (arith, eq_iff k j, eq_iff i k, eq_iff i j, lookup-remove k j t)

  pub lookup-keep_of_none :
      (k : String) (p : V → Bool) (t : Table V) → lookup k t ≡ none → lookup k (keep p t) ≡ none
  unfolding lookup keep
  lookup-keep_of_none k p [] h = refl
  lookup-keep_of_none k p ((j, v) ∷ t) h = ground (arith, lookup-keep_of_none k p t)

  pub lookup-keep :
      (k : String) (p : V → Bool) (t : Table V)
      → IsKeyed t
      → lookup k (keep p t) ≡ keep_if p (lookup k t)
  unfolding lookup keep
  lookup-keep k p [] u = refl
  lookup-keep k p ((j, v) ∷ t) u =
      ground (arith, eq_iff j k, lookup-keep_of_none k p t, lookup-keep k p t u.1)

  pub IsKeyed-insert : (k : String) (v : V) (t : Table V) → IsKeyed t → IsKeyed (insert k v t)
  unfolding insert lookup
  IsKeyed-insert k v [] u = (refl, tt)
  IsKeyed-insert k v ((j, w) ∷ t) u =
      ground (arith, lookup-insert k j v t, eq_iff j k, eq_iff k j, IsKeyed-insert k v t u.1)

  pub IsKeyed-modify : (k : String) (f : V → V) (t : Table V) → IsKeyed t → IsKeyed (modify k f t)
  unfolding modify lookup
  IsKeyed-modify k f [] u = tt
  IsKeyed-modify k f ((j, w) ∷ t) u =
      ground (arith, lookup-modify k j f t, IsKeyed-modify k f t u.1)

  pub IsKeyed-remove : (k : String) (t : Table V) → IsKeyed t → IsKeyed (remove k t)
  unfolding remove
  IsKeyed-remove k [] u = tt
  IsKeyed-remove k ((j, w) ∷ t) u = ground (arith, lookup-remove k j t, IsKeyed-remove k t u.1)

  pub IsKeyed-keep : (p : V → Bool) (t : Table V) → IsKeyed t → IsKeyed (keep p t)
  unfolding keep
  IsKeyed-keep p [] u = tt
  IsKeyed-keep p ((j, w) ∷ t) u =
      ground (arith, lookup-keep_of_none j p t u.0, IsKeyed-keep p t u.1)

-- Every row of a keyed table is the one that its key finds.
module _ {ℓ} {V : Type ℓ} where
  abbrev Found : Table V → String × V → Type ℓ
  Found t (k, v) = lookup k t ≡ some v

  Found-cons :
      (j : String) (w : V) (t s : Table V)
      → lookup j t ≡ none
      → All (Found t) s
      → All (Found ((j, w) ∷ t)) s
  unfolding lookup
  Found-cons j w t [] fresh h = tt
  Found-cons j w t ((k, v) ∷ s) fresh h = (ground (arith, eq_iff j k), Found-cons j w t s fresh h.1)

  pub IsKeyed-lookup : (t : Table V) → IsKeyed t → All (λ (k, v). lookup k t ≡ some v) t
  unfolding lookup
  IsKeyed-lookup [] u = tt
  IsKeyed-lookup ((k, v) ∷ t) u =
      (ground (arith, eq_iff k k), Found-cons k v t t u.0 (IsKeyed-lookup t u.1))

pub ruleset table_laws = (lookup-insert, lookup-modify, lookup-remove)

-- A property of the rows under the writes.
module _ {ℓ} {V : Type ℓ} (P : V → Type 0) where
  abbrev pub AllRows : Table V → Type 0
  AllRows t = All (λ (k, v). P v) t

  pub AllRows-insert : (k : String) (v : V) (t : Table V) → P v → AllRows t → AllRows (insert k v t)
  unfolding insert
  AllRows-insert k v [] h a = (h, tt)
  AllRows-insert k v ((j, w) ∷ t) h a = elim (Bool-cases (j == k)) [
    | inl e ↦ rw e (h, a.1)
    | inr e ↦ rw e (a.0, AllRows-insert k v t h a.1)
  ]

  pub AllRows-modify :
      (k : String) (f : V → V) (t : Table V)
      → ((v : V) → P v → P (f v))
      → AllRows t
      → AllRows (modify k f t)
  unfolding modify
  AllRows-modify k f [] h a = tt
  AllRows-modify k f ((j, w) ∷ t) h a = elim (Bool-cases (j == k)) [
    | inl e ↦ rw e (h w a.0, AllRows-modify k f t h a.1)
    | inr e ↦ rw e (a.0, AllRows-modify k f t h a.1)
  ]

  pub AllRows-remove : (k : String) (t : Table V) → AllRows t → AllRows (remove k t)
  unfolding remove
  AllRows-remove k [] a = tt
  AllRows-remove k ((j, w) ∷ t) a = elim (Bool-cases (j == k)) [
    | inl e ↦ rw e (AllRows-remove k t a.1)
    | inr e ↦ rw e (a.0, AllRows-remove k t a.1)
  ]

  pub AllRows-keep : (q : V → Bool) (t : Table V) → AllRows t → AllRows (keep q t)
  unfolding keep
  AllRows-keep q [] a = tt
  AllRows-keep q ((j, w) ∷ t) a = elim (Bool-cases (q w)) [
    | inl e ↦ rw e (a.0, AllRows-keep q t a.1)
    | inr e ↦ rw e (AllRows-keep q t a.1)
  ]

  pub AllRows-lookup : (k : String) (v : V) (t : Table V) → AllRows t → lookup k t ≡ some v → P v
  unfolding lookup
  AllRows-lookup k v [] a h = cc
  AllRows-lookup k v ((j, w) ∷ t) a h = elim (Bool-cases (j == k)) [
    | inl e ↦ subst P (ground arith) a.0
    | inr e ↦ AllRows-lookup k v t a.1 (ground arith)
  ]
