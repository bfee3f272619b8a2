-- ===== src/Park/Registry.antt =====
-- `ParkRegistry` of src/codeagent/park/registry.py, with the data of src/codeagent/domain/park.py and
-- the limits of src/codeagent/park/constants.py. A call is one step: it runs under the lock of
-- its key, and a sweep under its own, which in the source does not keep out calls for a key meanwhile. Times are whole seconds. The manifest keeps the fields that decide something and
-- the identifiers; its other texts are carried in `rest`.
pub mod Eviction
pub mod Selections
pub mod Sweeps
pub mod Leases
use aimeshchat.Base.{
  ℕ, ◌+◌, ◌-◌, String, Bool, true, false, not, ◌&&◌, ◌||◌, Option, none, some, List, [], ◌∷◌, ◌++◌,
  ◌==◌, any, map, ltb, leb, eqb, length, take, if◌then◌else◌,
}
use aimeshchat.Base.Table.{Table, lookup, insert, modify, remove, keep}

pub data Lifecycle : Type 0 where
  hot_parked cold_resumable released_soft released_hard broken : Lifecycle

pub data ReleaseMode : Type 0 where
  unreleased soft hard : ReleaseMode

pub record ParkManifest : Type 0 where
  pub review_key : String
  pub swarm_session_id : String
  pub lifecycle : Lifecycle
  pub peer_agent_id : String
  pub mailbox_agent_id : String
  pub backend_session_id : String
  pub soft_expires_at : ℕ
  pub hard_expires_at : ℕ
  pub round : ℕ
  pub release_mode : ReleaseMode
  pub rest : List String

-- A row of `park_leases`.
pub record Lease : Type 0 where
  pub manifest : ParkManifest
  pub lifecycle : Lifecycle
  pub soft_expires : ℕ
  pub hard_expires : ℕ
  pub last_activity : ℕ

-- `snapshots` has the keys that `latest_snapshot` finds one for.
pub record Park : Type 0 where
  pub leases : Table Lease
  pub snapshots : List String

abbrev pub max_hot_parked : ℕ
max_hot_parked = 3

abbrev pub ttl_seconds : ℕ
ttl_seconds = 3600

abbrev pub hard_limit_seconds : ℕ
hard_limit_seconds = 28800

abbrev pub max_rounds : ℕ
max_rounds = 5

abbrev pub is_hot : Lifecycle → Bool
is_hot hot_parked = true
is_hot _ = false

abbrev pub is_cold : Lifecycle → Bool
is_cold cold_resumable = true
is_cold _ = false

abbrev pub is_released_soft : Lifecycle → Bool
is_released_soft released_soft = true
is_released_soft _ = false

-- `a or b` on times.
abbrev or_time : ℕ → ℕ → ℕ
or_time a b = if eqb a 0 then b else a

abbrev pub lease_of : ℕ → ParkManifest → Lease
lease_of now m = record {
  manifest = m;
  lifecycle = m.lifecycle;
  soft_expires = or_time m.soft_expires_at (now + ttl_seconds);
  hard_expires = or_time m.hard_expires_at (now + hard_limit_seconds);
  last_activity = now;
}

unfoldable pub acquire : ℕ → Park → String → ParkManifest → Park × Bool
acquire now p key m = elim (lookup key p.leases) [
  | none ↦ (record p { leases = insert key (lease_of now m) p.leases }, true)
  | some row ↦
      if is_released_soft row.lifecycle
      then (record p { leases = modify key (λ _. lease_of now m) p.leases }, true)
      else (p, false)
]

unfoldable pub renew : ℕ → Park → String → Park
renew now p key = record p {
  leases =
      modify key (λ row. record row { last_activity = now; soft_expires = now + ttl_seconds })
        p.leases;
}

unfoldable pub update : ℕ → Park → String → ParkManifest → Park
update now p key m = elim (lookup key p.leases) [
  | none ↦ (acquire now p key m).0
  | some row ↦ record p { leases = modify key (λ _. lease_of now m) p.leases }
]

unfoldable pub delete : Park → String → Park
delete p key = record p { leases = remove key p.leases }

unfoldable pub soften : ℕ → Lease → Lease
soften now row = record row {
  manifest = record row.manifest { lifecycle = released_soft; release_mode = soft };
  lifecycle = released_soft;
  last_activity = now;
}

-- The release, whose mode is hard only for `"hard"`.
unfoldable pub release : ℕ → Park → String → Bool → Park
release now p key true = delete p key
release now p key false = record p { leases = modify key (soften now) p.leases }

unfoldable pub lookup_manifest : Park → String → Option ParkManifest
lookup_manifest p key = elim (lookup key p.leases) [ none ↦ none | some row ↦ some row.manifest ]

unfoldable pub hot_rows : Table Lease → Table Lease
hot_rows t = keep (λ row. is_hot row.lifecycle) t

unfoldable pub list_active : Park → List ParkManifest
list_active p = map (λ (k, row). row.manifest) (hot_rows p.leases)

-- What `_evict_one` writes to a row that is still hot: the manifest that was read, at its new
-- lifecycle.
unfoldable pub cooled : ParkManifest → Lease → Lease
cooled m row =
    if is_hot row.lifecycle
    then record row {
      manifest = record m { lifecycle = cold_resumable };
      lifecycle = cold_resumable;
    }
    else row

abbrev is_hot_row : Option Lease → Bool
is_hot_row none = false
is_hot_row (some row) = is_hot row.lifecycle

abbrev has_text : List String → String → Bool
has_text ks k = any (λ j. j == k) ks

-- `_evict_one` for `"cold_resumable"`. `saves` tells whether a snapshot can be written.
unfoldable pub evict_one : Bool → Park → String → ParkManifest → Park × Bool
evict_one saves p key m = (
  record {
    leases = modify key (cooled m) p.leases;
    snapshots = if saves && not (has_text p.snapshots key) then key ∷ p.snapshots else p.snapshots;
  },
  is_hot_row (lookup key p.leases),
)

-- One stage's loop, with the keys that it evicted.
unfoldable pub evict_all : Bool → Table Lease → Park → Park × List String
evict_all saves [] p = (p, [])
evict_all saves ((key, row) ∷ rows) p =
    let (p', done) = evict_one saves p key row.manifest in
    let (p'', keys) = evict_all saves rows p' in (p'', if done then key ∷ keys else keys)

unfoldable pub is_past : ℕ → ℕ → Bool
is_past now t = ltb 0 t && ltb t now

unfoldable pub is_expired : ℕ → Lease → Bool
is_expired now row = is_past now row.soft_expires || is_past now row.hard_expires

-- `ORDER BY last_activity`.
unfoldable pub place : String × Lease → Table Lease → Table Lease
place x [] = x ∷ []
place x (y ∷ ys) =
    let rest = place x ys in
    if leb (x.1).last_activity (y.1).last_activity then x ∷ (y ∷ ys) else y ∷ rest

unfoldable pub by_activity : Table Lease → Table Lease
by_activity [] = []
by_activity (x ∷ xs) = place x (by_activity xs)

unfoldable pub sweep_expired : ℕ → Bool → Park → Park × List String
sweep_expired now saves p =
    evict_all saves (keep (λ row. is_hot row.lifecycle && is_expired now row) p.leases) p

unfoldable pub purge_cold : ℕ → Park → Park
purge_cold now p = record p {
  leases = keep (λ row. not (is_cold row.lifecycle && is_past now row.hard_expires)) p.leases;
}

-- The least recently used of the hot rows that are too many.
unfoldable pub excess : Table Lease → Table Lease
excess t = let active = by_activity (hot_rows t) in take (length active - max_hot_parked) active

unfoldable pub sweep_excess : Bool → Park → Park × List String
sweep_excess saves p = evict_all saves (excess p.leases) p

unfoldable pub over_rounds : Table Lease → Table Lease
over_rounds t = keep (λ row. is_hot row.lifecycle && leb max_rounds row.manifest.round) t

unfoldable pub sweep_rounds : Bool → Park → Park × List String
sweep_rounds saves p = evict_all saves (over_rounds p.leases) p

unfoldable pub purge_released : ℕ → Park → Park
purge_released now p = record p {
  leases =
      keep
        (λ row.
          not (is_released_soft row.lifecycle && ltb (row.last_activity + hard_limit_seconds) now))
        p.leases;
}

-- `sweep`: the keys that were evicted are returned.
unfoldable pub sweep : ℕ → Bool → Park → Park × List String
sweep now saves p =
    let (p1, expired) = sweep_expired now saves p in
    let (p2, pushed) = sweep_excess saves (purge_cold now p1) in
    let (p3, worn) = sweep_rounds saves p2 in (purge_released now p3, expired ++ (pushed ++ worn))
