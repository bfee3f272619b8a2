-- ===== src/Park/Registry/Leases.antt =====
-- Who holds a key, and what every call keeps.
use aimeshchat.Base.{
  ℕ, ◌+◌, String, ◌≡◌, ◌≢◌, refl, Bool, true, false, Option, none, some, List, [], ◌∷◌, ◌==◌,
  eq_iff, arith, if◌then◌else◌, Bool-cases, Option-cases, inl, inr,
}
use aimeshchat.Base.Table.{
  Table, lookup, modify, IsKeyed, lookup-insert, lookup-modify, IsKeyed-insert, IsKeyed-modify,
  IsKeyed-remove, AllRows, AllRows-insert, AllRows-modify, AllRows-remove, AllRows-keep,
}
use aimeshchat.Park.Registry.{
  Lifecycle, released_soft, ParkManifest, Lease, Park, ttl_seconds, hard_limit_seconds,
  is_released_soft, lease_of, acquire, renew, update, delete, soften, release, cooled, evict_one,
  evict_all, sweep, sweep_expired, purge_cold, sweep_excess, sweep_rounds, purge_released,
}
use aimeshchat.Park.Registry.Sweeps.{sweep-IsSwept}

-- The lease of a manifest that is written now: its times are the manifest's, or count from now where the
-- manifest has none.
pub record IsLeaseOf (now : ℕ) (m : ParkManifest) (row : Lease) : Type 0 where
  pub manifest : row.manifest ≡ m
  pub lifecycle : row.lifecycle ≡ m.lifecycle
  pub last_activity : row.last_activity ≡ now
  pub soft : m.soft_expires_at ≢ 0 → row.soft_expires ≡ m.soft_expires_at
  pub soft_default : m.soft_expires_at ≡ 0 → row.soft_expires ≡ now + ttl_seconds
  pub hard : m.hard_expires_at ≢ 0 → row.hard_expires ≡ m.hard_expires_at
  pub hard_default : m.hard_expires_at ≡ 0 → row.hard_expires ≡ now + hard_limit_seconds

-- The key has such a lease, and no other key is touched.
abbrev pub IsLeased : ℕ → Park → String → ParkManifest → Park × Bool → Type 0
IsLeased now p key m (p', got) =
    (got ≡ true)
    × (row : Lease) × IsLeaseOf now m row
    × ((j : String) → lookup j p'.leases ≡ (if key == j then some row else lookup j p.leases))

-- What an acquire did, from the row that the key had.
abbrev pub AcquireHolds : ℕ → Park → String → ParkManifest → Option Lease → Park × Bool → Type 0
AcquireHolds now p key m none o = IsLeased now p key m o
AcquireHolds now p key m (some row) (p', got) =
    (row.lifecycle ≡ released_soft → IsLeased now p key m (p', got))
    × (row.lifecycle ≢ released_soft → (got ≡ false) × (p' ≡ p))

lease_of-IsLeaseOf : (now : ℕ) (m : ParkManifest) → IsLeaseOf now m (lease_of now m)
lease_of-IsLeaseOf now m = record {
  manifest = refl;
  lifecycle = refl;
  last_activity = refl;
  soft = λ h. ground (arith, h);
  soft_default = λ h. ground (arith, h);
  hard = λ h. ground (arith, h);
  hard_default = λ h. ground (arith, h);
}

released_test : (s : Lifecycle) → is_released_soft s ≡ true → s ≡ released_soft
released_test s h = ground arith

acquire_cases :
    (now : ℕ) (p : Park) (key : String) (m : ParkManifest) (o : Option Lease)
    → lookup key p.leases ≡ o
    → AcquireHolds now p key m o (acquire now p key m)
unfolding acquire
acquire_cases now p key m none h =
    rw (h, acquire)
      (
        refl,
        lease_of now m,
        lease_of-IsLeaseOf now m,
        λ j. lookup-insert key j (lease_of now m) p.leases,
      )
acquire_cases now p key m (some row) h = (
  λ e. (
    ground arith,
    lease_of now m,
    lease_of-IsLeaseOf now m,
    λ j. ground (arith, eq_iff key j, lookup-modify key j (λ _. lease_of now m) p.leases),
  ),
  λ e. (ground arith, ground arith),
)

-- An acquire gets the key exactly if it has no row, or one that was released softly; then the key has the
-- manifest with its lifecycle, the manifest's times or the default ones from now, and no other key is
-- touched. Otherwise nothing changes.
pub acquire-AcquireHolds :
    (now : ℕ) (p : Park) (key : String) (m : ParkManifest)
    → AcquireHolds now p key m (lookup key p.leases) (acquire now p key m)
acquire-AcquireHolds now p key m = acquire_cases now p key m _ refl

-- The calls on a registry, each with its time.
pub data Call : Type 0 where
  acquires updates : ℕ → String → ParkManifest → Call
  renews : ℕ → String → Call
  releases : ℕ → String → Bool → Call
  sweeps : ℕ → Bool → Call

unfoldable pub step : Park → Call → Park
step p (acquires now key m) = (acquire now p key m).0
step p (updates now key m) = update now p key m
step p (renews now key) = renew now p key
step p (releases now key hard) = release now p key hard
step p (sweeps now saves) = (sweep now saves p).0

unfoldable pub run : Park → List Call → Park
run p [] = p
run p (c ∷ calls) = run (step p c) calls

-- The column `lifecycle` tells what the manifest tells.
abbrev pub IsLevel : Lease → Type 0
IsLevel row = row.lifecycle ≡ row.manifest.lifecycle

abbrev pub IsSound : Park → Type 0
IsSound p = IsKeyed p.leases × AllRows IsLevel p.leases

evict_all-IsLevel :
    (saves : Bool) (rows : Table Lease) (p : Park)
    → AllRows IsLevel p.leases
    → AllRows IsLevel (evict_all saves rows p).0.leases
unfolding evict_all evict_one cooled
evict_all-IsLevel saves [] p a = a
evict_all-IsLevel saves ((key, row) ∷ rows) p a =
    evict_all-IsLevel saves rows (evict_one saves p key row.manifest).0
      (AllRows-modify IsLevel key (cooled row.manifest) p.leases (λ v h. ground arith) a)

sweep-IsLevel :
    (now : ℕ) (saves : Bool) (p : Park)
    → AllRows IsLevel p.leases
    → AllRows IsLevel (sweep now saves p).0.leases
unfolding sweep sweep_expired purge_cold sweep_excess sweep_rounds purge_released
sweep-IsLevel now saves p a = AllRows-keep IsLevel _ _ (
    evict_all-IsLevel saves _ _
      (evict_all-IsLevel saves _ _ (AllRows-keep IsLevel _ _ (evict_all-IsLevel saves _ p a))))

write-IsSound :
    (now : ℕ) (key : String) (m : ParkManifest) (p : Park)
    → IsSound p
    → IsSound (record p { leases = modify key (λ _. lease_of now m) p.leases })
write-IsSound now key m p s =
    (IsKeyed-modify key _ p.leases s.0, AllRows-modify IsLevel key _ p.leases (λ v h. refl) s.1)

acquire-IsSound :
    (now : ℕ) (p : Park) (key : String) (m : ParkManifest)
    → IsSound p
    → IsSound (acquire now p key m).0
unfolding acquire
acquire-IsSound now p key m s = elim (Option-cases (lookup key p.leases)) [
  | inl e ↦
      rw (e, acquire)
        (
          IsKeyed-insert key _ p.leases s.0,
          AllRows-insert IsLevel key (lease_of now m) p.leases refl s.1,
        )
  | inr (row, e) ↦ elim (Bool-cases (is_released_soft row.lifecycle)) [
    | inl r ↦ rw (e, r, acquire) (write-IsSound now key m p s)
    | inr r ↦ rw (e, r, acquire) s
  ]
]

step-IsSound : (p : Park) (c : Call) → IsSound p → IsSound (step p c)
unfolding step update renew release delete soften
step-IsSound p (acquires now key m) s = acquire-IsSound now p key m s
step-IsSound p (updates now key m) s = elim (Option-cases (lookup key p.leases)) [
  | inl e ↦ rw (e, step, update) (acquire-IsSound now p key m s)
  | inr (row, e) ↦ rw (e, step, update) (write-IsSound now key m p s)
]
step-IsSound p (renews now key) s =
    (IsKeyed-modify key _ p.leases s.0, AllRows-modify IsLevel key _ p.leases (λ v h. h) s.1)
step-IsSound p (releases now key true) s =
    (IsKeyed-remove key p.leases s.0, AllRows-remove IsLevel key p.leases s.1)
step-IsSound p (releases now key false) s =
    (IsKeyed-modify key _ p.leases s.0, AllRows-modify IsLevel key _ p.leases (λ v h. refl) s.1)
step-IsSound p (sweeps now saves) s =
    ((sweep-IsSwept now saves p s.0).cools.keyed, sweep-IsLevel now saves p s.1)

-- Whatever calls are made on a registry, in whatever order, each key has one row, and its column
-- `lifecycle` agrees with the lifecycle in its manifest.
pub run-IsSound : (calls : List Call) (p : Park) → IsSound p → IsSound (run p calls)
unfolding run
run-IsSound [] p s = s
run-IsSound (c ∷ calls) p s = run-IsSound calls (step p c) (step-IsSound p c s)
