-- ===== src/Mailbox/Store/Loop.antt =====
-- The loop of `read`: it ends, and what it ends in.
use aimeshchat.Base.{ℕ, zero, suc, ◌<◌, String, Option, some, List, ◌≡◌, refl, arith, subst}
use aimeshchat.Mailbox.Store.{Box}
use aimeshchat.Mailbox.Store.Read.{SessionMeta, Answer, Turn, returned, again, turn, read_loop}

module _ (clock : ℕ → ℕ) (session agent owner : String) (meta : Option SessionMeta)
    (skip : List String) (target : String) where
  -- One turn, then the rest.
  loop_on : ℕ → Turn → Option (Answer × Box)
  loop_on fuel (returned a b) = some (a, b)
  loop_on fuel (again b contested) =
      read_loop clock session agent owner meta fuel skip target b contested

  loop_on-turn :
      (fuel : ℕ) (b : Box) (contested : List String)
      → read_loop clock session agent owner meta (suc fuel) skip target b contested
        ≡ loop_on fuel (turn (clock fuel) session agent owner meta skip target b contested)
  unfolding loop_on read_loop
  loop_on-turn fuel b contested = refl

  -- A measure that falls with every turn that goes on.
  module _ (size : Box → List String → ℕ) where
    abbrev pub Falls : ℕ → Turn → Type 0
    Falls n (returned a b) = Unit
    Falls n (again b contested) = size b contested < n

    pub read_loop-ends :
        ((now : ℕ) (b : Box) (contested : List String)
          → Falls (size b contested) (turn now session agent owner meta skip target b contested))
        → (fuel : ℕ) (b : Box) (contested : List String) → size b contested < fuel
        → (r : Answer × Box) × (read_loop clock session agent owner meta fuel skip target b
              contested
            ≡ some r)
    unfolding loop_on
    read_loop-ends falls zero b contested h = absurd (omega arith)
    read_loop-ends falls (suc fuel) b contested h = rw (loop_on-turn fuel b contested) (
        ends (turn (clock fuel) session agent owner meta skip target b contested)
          (falls (clock fuel) b contested)
          (λ b' contested' k. read_loop-ends falls fuel b' contested' k))
      where
        ends :
            (t : Turn)
            → Falls (size b contested) t
            → ((b' : Box) (contested' : List String)
                → size b' contested' < fuel
                → (r : Answer × Box) × (read_loop clock session agent owner meta fuel skip target b'
                      contested'
                    ≡ some r))
            → (r : Answer × Box) × (loop_on fuel t ≡ some r)
        ends (returned a b') f rest = ((a, b'), refl)
        ends (again b' contested') f rest = rest b' contested' (omega (arith, f, h))

  -- What holds before every turn, and of what is returned.
  module _ (P : Box → Type 0) (Q : Answer → Box → Type 0) where
    abbrev pub Holds : Turn → Type 0
    Holds (returned a b) = Q a b
    Holds (again b contested) = P b

    pub read_loop-holds :
        ((n : ℕ) (b : Box) (contested : List String)
          → P b
          → Holds (turn (clock n) session agent owner meta skip target b contested))
        → (fuel : ℕ) (b : Box) (contested : List String) (r : Answer × Box) → P b
        → read_loop clock session agent owner meta fuel skip target b contested ≡ some r
        → Q r.0 r.1
    unfolding read_loop loop_on
    read_loop-holds step zero b contested r p h = absurd (ground arith)
    read_loop-holds step (suc fuel) b contested r p h =
        holds (turn (clock fuel) session agent owner meta skip target b contested)
          (step fuel b contested p) h
          (λ b' contested' q e. read_loop-holds step fuel b' contested' r q e)
      where
        holds :
            (t : Turn)
            → Holds t
            → loop_on fuel t ≡ some r
            → ((b' : Box) (contested' : List String)
                → P b'
                → read_loop clock session agent owner meta fuel skip target b' contested' ≡ some r
                → Q r.0 r.1)
            → Q r.0 r.1
        holds (returned a b') q e rest =
            let same : (a, b') ≡ r = cc in subst (λ (x : Answer × Box). Q x.0 x.1) same q
        holds (again b' contested') q e rest = rest b' contested' q e
