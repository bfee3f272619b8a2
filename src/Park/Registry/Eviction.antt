-- ===== src/Park/Registry/Eviction.antt =====
-- One stage of a sweep: it evicts the rows that it has selected, and no others.
use mathlib.Core.Option
use aimeshchat.Base.{
  ℕ, suc, ◌+◌, String, ◌≡◌, refl, ap, Bool, true, Option, none, some, List, [], ◌∷◌, ◌==◌, eq_iff,
  map, arith, length, count, All, if◌then◌else◌,
}
use aimeshchat.Base.Table.{Table, lookup, modify, IsKeyed, lookup-modify, IsKeyed-modify}
use aimeshchat.Park.Registry.{Lease, Park, ParkManifest, is_hot, cooled, evict_one, evict_all}

-- The rows are hot, and in the table under their keys.
abbrev pub AreHotIn : Table Lease → Table Lease → Type 0
AreHotIn t rows = All (λ (k, row). (lookup k t ≡ some row) × (is_hot row.lifecycle ≡ true)) rows

abbrev pub hot_count : Table Lease → ℕ
hot_count t = count (λ (k, row). is_hot row.lifecycle) t

pub lookup-evict_one :
    (saves : Bool) (p : Park) (key : String) (m : ParkManifest) (j : String)
    → lookup j (evict_one saves p key m).0.leases
      ≡ (if key == j then Option.map (cooled m) (lookup j p.leases) else lookup j p.leases)
unfolding evict_one
lookup-evict_one saves p key m j = lookup-modify key j (cooled m) p.leases

hot_count-absent :
    (key : String) (m : ParkManifest) (t : Table Lease)
    → lookup key t ≡ none
    → hot_count (modify key (cooled m) t) ≡ hot_count t
unfolding lookup modify count cooled
hot_count-absent key m [] h = refl
hot_count-absent key m ((j, row) ∷ t) h = ground (arith, eq_iff j key, hot_count-absent key m t)

hot_count-present :
    (key : String) (m : ParkManifest) (t : Table Lease) (row : Lease)
    → IsKeyed t
    → lookup key t ≡ some row
    → is_hot row.lifecycle ≡ true
    → suc (hot_count (modify key (cooled m) t)) ≡ hot_count t
unfolding lookup modify count cooled
hot_count-present key m [] row u h hot = cc
hot_count-present key m ((j, r) ∷ t) row u h hot =
    ground (arith, eq_iff j key, hot_count-absent key m t, hot_count-present key m t row u.1, u.0)

AreHotIn-evict_one :
    (saves : Bool) (p : Park) (key : String) (m : ParkManifest) (rows : Table Lease)
    → lookup key rows ≡ none
    → AreHotIn p.leases rows
    → AreHotIn (evict_one saves p key m).0.leases rows
unfolding lookup
AreHotIn-evict_one saves p key m [] h a = tt
AreHotIn-evict_one saves p key m ((j, row) ∷ rows) h a = (
  (ground (arith, eq_iff j key, eq_iff key j, lookup-evict_one saves p key m j), a.0.1),
  AreHotIn-evict_one saves p key m rows (ground arith) a.1,
)

IsKeyed-evict_one :
    (saves : Bool) (p : Park) (key : String) (m : ParkManifest)
    → IsKeyed p.leases
    → IsKeyed (evict_one saves p key m).0.leases
unfolding evict_one
IsKeyed-evict_one saves p key m u = IsKeyed-modify key (cooled m) p.leases u

hot_count-evict_one :
    (saves : Bool) (p : Park) (key : String) (row : Lease)
    → IsKeyed p.leases
    → lookup key p.leases ≡ some row
    → is_hot row.lifecycle ≡ true
    → (suc (hot_count (evict_one saves p key row.manifest).0.leases) ≡ hot_count p.leases)
      × ((evict_one saves p key row.manifest).1 ≡ true)
unfolding evict_one
hot_count-evict_one saves p key row u h hot =
    (hot_count-present key row.manifest p.leases row u h hot, ground arith)

-- The row of a key after a stage: cooled if it was selected, else as it was.
abbrev pub after_stage : Option Lease → Option Lease → Option Lease
after_stage none old = old
after_stage (some row) old = some (cooled row.manifest row)

-- What a stage did to a table.
pub record IsStage (rows : Table Lease) (p p' : Park) (keys : List String) : Type 0 where
  pub keyed : IsKeyed p'.leases
  pub counted : hot_count p'.leases + length rows ≡ hot_count p.leases
  pub reads : (j : String) → lookup j p'.leases ≡ after_stage (lookup j rows) (lookup j p.leases)
  pub named : keys ≡ map (λ (k, row). k) rows

pub evict_all-IsStage :
    (saves : Bool) (rows : Table Lease) (p : Park)
    → IsKeyed p.leases
    → IsKeyed rows
    → AreHotIn p.leases rows
    → IsStage rows p (evict_all saves rows p).0 (evict_all saves rows p).1
unfolding evict_all lookup
evict_all-IsStage saves [] p u v a = record {
  keyed = u;
  counted = omega arith;
  reads = λ j. refl;
  named = refl;
}
evict_all-IsStage saves ((key, row) ∷ rows) p u v a =
    let next = (evict_one saves p key row.manifest).0 in
    let rest =
      evict_all-IsStage saves rows next (IsKeyed-evict_one saves p key row.manifest u) v.1
        (AreHotIn-evict_one saves p key row.manifest rows v.0 a.1) in
    let evicts = hot_count-evict_one saves p key row u a.0.0 a.0.1 in
    record {
      keyed = rest.keyed;
      counted = omega (arith, evicts.0, rest.counted);
      reads = λ j. ground (
        arith,
        rest.reads j,
        lookup-evict_one saves p key row.manifest j,
        eq_iff key j,
        v.0,
        a.0.0,
      );
      named = rw evicts.1 (ap (λ ks. key ∷ ks) rest.named);
    }
