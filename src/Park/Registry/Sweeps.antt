-- ===== src/Park/Registry/Sweeps.antt =====
-- What a sweep leaves.
use aimeshchat.Base.{
  ℕ, ◌≤◌, ◌<◌, String, ◌≡◌, Bool, true, false, ◌&&◌, none, some, List, [], ◌∷◌, arith, count,
  Option-cases, inl, inr, leb,
}
use aimeshchat.Base.Table.{Table, lookup, keep, IsKeyed, lookup-keep, IsKeyed-keep}
use aimeshchat.Park.Registry.{
  Lease, Park, is_hot, cooled, evict_all, is_past, is_expired, excess, over_rounds, sweep_expired,
  purge_cold, sweep_excess, sweep_rounds, purge_released, sweep, max_hot_parked, max_rounds,
}
use aimeshchat.Park.Registry.Eviction.{hot_count, IsStage, evict_all-IsStage}
use aimeshchat.Park.Registry.Selections.{selected-AreHotIn, excess-AreHotIn}

-- A hot row under a key.
abbrev pub HotAt : Park → String → Lease → Type 0
HotAt p j row = (lookup j p.leases ≡ some row) × (is_hot row.lifecycle ≡ true)

-- A step of a sweep: hot rows that are left were there, as they are, and they are no more than before.
pub record Cools (p p' : Park) : Type 0 where
  pub keyed : IsKeyed p'.leases
  pub fewer : hot_count p'.leases ≤ hot_count p.leases
  pub same : (j : String) (row : Lease) → HotAt p' j row → HotAt p j row

Cools-trans : (p q r : Park) → Cools p q → Cools q r → Cools p r
Cools-trans p q r a b = record {
  keyed = b.keyed;
  fewer = omega (arith, a.fewer, b.fewer);
  same = λ j row h. a.same j row (b.same j row h);
}

stage_same :
    (rows : Table Lease) (p p' : Park) (keys : List String)
    → IsStage rows p p' keys
    → (j : String) (row : Lease) → HotAt p' j row
    → HotAt p j row × (lookup j rows ≡ none)
unfolding cooled
stage_same rows p p' keys stage j row (h, hot) = elim (Option-cases (lookup j rows)) [
  | inl e ↦ ((ground (arith, stage.reads j), hot), e)
  | inr (r, e) ↦ absurd (ground (arith, stage.reads j))
]

stage-Cools :
    (rows : Table Lease) (p p' : Park) (keys : List String) → IsStage rows p p' keys → Cools p p'
stage-Cools rows p p' keys stage = record {
  keyed = stage.keyed;
  fewer = omega (arith, stage.counted);
  same = λ j row h. (stage_same rows p p' keys stage j row h).0;
}

keep_count : (q : Lease → Bool) (t : Table Lease) → hot_count (keep q t) ≤ hot_count t
unfolding keep count
keep_count q [] = omega arith
keep_count q ((k, row) ∷ t) = ground (arith, keep_count q t)

keep-Cools :
    (q : Lease → Bool) (p : Park)
    → IsKeyed p.leases
    → Cools p (record p { leases = keep q p.leases })
keep-Cools q p u = record {
  keyed = IsKeyed-keep q p.leases u;
  fewer = keep_count q p.leases;
  same = λ j row h. (ground (arith, lookup-keep j q p.leases u), h.1);
}

-- A stage that evicts by a test leaves no hot row that passes it.
tested-Cools :
    (q : Lease → Bool) (saves : Bool) (p : Park)
    → IsKeyed p.leases
    → let rows = keep (λ row. is_hot row.lifecycle && q row) p.leases in
      let p' = (evict_all saves rows p).0 in
      Cools p p' × ((j : String) (row : Lease) → HotAt p' j row → q row ≡ false)
tested-Cools q saves p u =
    let test : Lease → Bool = λ row. is_hot row.lifecycle && q row in
    let rows = keep test p.leases in
    let stage =
      evict_all-IsStage saves rows p u (IsKeyed-keep test p.leases u)
        (selected-AreHotIn q p.leases u) in
    (
      stage-Cools rows p (evict_all saves rows p).0 (evict_all saves rows p).1 stage,
      λ j row h.
          let (was, free) = stage_same rows p _ _ stage j row h in
          ground (arith, lookup-keep j test p.leases u),
    )

excess-Cools :
    (saves : Bool) (p : Park)
    → IsKeyed p.leases
    → let p' = (sweep_excess saves p).0 in Cools p p' × (hot_count p'.leases ≤ max_hot_parked)
unfolding sweep_excess
excess-Cools saves p u =
    let (keyed, hot, size) = excess-AreHotIn p.leases u in
    let stage = evict_all-IsStage saves (excess p.leases) p u keyed hot in
    (stage-Cools (excess p.leases) p _ _ stage, omega (arith, stage.counted, size))

-- A row with neither its soft nor its hard time behind it; no time is 0.
abbrev pub IsInTime : ℕ → Lease → Type 0
IsInTime now row =
    (0 < row.soft_expires → now ≤ row.soft_expires)
    × (0 < row.hard_expires → now ≤ row.hard_expires)

IsInTime-of_test : (now : ℕ) (row : Lease) → is_expired now row ≡ false → IsInTime now row
unfolding is_expired is_past
IsInTime-of_test now row h = (λ a. ground arith, λ a. ground arith)

-- What a sweep promises of the rows, from before to after.
pub record IsSwept (now : ℕ) (p p' : Park) : Type 0 where
  pub cools : Cools p p'
  pub bounded : hot_count p'.leases ≤ max_hot_parked
  pub in_time : (j : String) (row : Lease) → HotAt p' j row → IsInTime now row
  pub rounds_left : (j : String) (row : Lease) → HotAt p' j row → row.manifest.round < max_rounds

-- After a sweep, at most `max_hot_parked` agents are hot, none past its soft or hard time, and none that
-- has had `max_rounds` rounds. Those that are hot were so before, with the same lease, and
-- each key has one row still.
pub sweep-IsSwept :
    (now : ℕ) (saves : Bool) (p : Park) → IsKeyed p.leases → IsSwept now p (sweep now saves p).0
unfolding sweep sweep_expired purge_cold sweep_rounds over_rounds purge_released
sweep-IsSwept now saves p u =
    let p1 = (sweep_expired now saves p).0 in
    let (c1, fresh) = tested-Cools (is_expired now) saves p u in
    let q = purge_cold now p1 in
    let cq = keep-Cools _ p1 c1.keyed in
    let p2 = (sweep_excess saves q).0 in
    let (c2, few) = excess-Cools saves q cq.keyed in
    let p3 = (sweep_rounds saves p2).0 in
    let (c3, young) = tested-Cools (λ row. leb max_rounds row.manifest.round) saves p2 c2.keyed in
    let c4 = keep-Cools _ p3 c3.keyed in
    let late = Cools-trans p2 p3 _ c3 c4 in
    let on = Cools-trans p1 q _ cq (Cools-trans q p2 _ c2 late) in
    record {
      cools = Cools-trans p p1 _ c1 on;
      bounded = omega (arith, few, late.fewer);
      in_time = λ j row h. IsInTime-of_test now row (fresh j row (on.same j row h));
      rounds_left = λ j row h. ground (arith, young j row (c4.same j row h));
    }
