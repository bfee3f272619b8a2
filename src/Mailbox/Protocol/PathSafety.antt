-- ===== src/Mailbox/Protocol/PathSafety.antt =====
-- Which texts pass as one component of a path.
use aimeshchat.Base.{
  ℕ, String, ◌≡◌, ◌≢◌, inl, inr, true, List, [], ◌∷◌, eq_iff, arith, all, All, Bool-cases, eqb,
}
use aimeshchat.Mailbox.Protocol.{
  codes, is_path_safe, before_end, path_safe_match, path_component_ok,
}

-- Neither `/` nor `\` nor NUL.
abbrev pub IsPlain : ℕ → Type 0
IsPlain c = (c ≢ b'/') × (c ≢ 92) × (c ≢ 0)

is_path_safe-IsPlain : (c : ℕ) → is_path_safe c ≡ true → IsPlain c
unfolding is_path_safe
is_path_safe-IsPlain c h = ground arith

before_end-IsPlain : (cs : List ℕ) → all is_path_safe (before_end cs) ≡ true → All IsPlain cs
unfolding before_end all
before_end-IsPlain [] h = tt
before_end-IsPlain (c ∷ []) h = elim (Bool-cases (eqb c 10)) [
  | inl e ↦ ground arith
  | inr e ↦ ground (arith, is_path_safe-IsPlain c)
]
before_end-IsPlain (c ∷ (d ∷ cs)) h =
    ground (arith, is_path_safe-IsPlain c, before_end-IsPlain (d ∷ cs))

-- A request id that passes has no path separator and no NUL in it, and is neither `.` nor `..`.
pub path_component_ok-IsPlain :
    (value : String)
    → path_component_ok value ≡ true
    → All IsPlain (codes value) × (value ≢ ".") × (value ≢ "..")
unfolding path_component_ok path_safe_match
path_component_ok-IsPlain value h = (
  before_end-IsPlain (codes value) (ground arith),
  ground (arith, eq_iff value "."),
  ground (arith, eq_iff value ".."),
)
