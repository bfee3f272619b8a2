-- ===== src/Park/Tests.antt =====
-- A registry with two leases.
use aimeshchat.Base.{ℕ, String, refl, true, false, List, [], ◌∷◌}
use aimeshchat.Base.Table.{lookup}
use aimeshchat.Park.Registry.{
  Lifecycle, hot_parked, released_soft, unreleased, ParkManifest, Park, acquire, lease_of, sweep,
}
use aimeshchat.Park.Registry.Sweeps.{IsSwept, sweep-IsSwept}
use aimeshchat.Park.Registry.Leases.{
  AcquireHolds, acquire-AcquireHolds, Call, acquires, updates, renews, releases, sweeps, run,
  IsSound, run-IsSound,
}

abbrev manifest : String → Lifecycle → ℕ → ParkManifest
manifest key lifecycle round = record {
  review_key = key;
  swarm_session_id = "s1";
  lifecycle = lifecycle;
  peer_agent_id = "p";
  mailbox_agent_id = "w1";
  backend_session_id = "b1";
  soft_expires_at = 0;
  hard_expires_at = 0;
  round = round;
  release_mode = unreleased;
  rest = [];
}

abbrev park : Park
park = record {
  leases =
      ("k1", lease_of 10 (manifest "k1" hot_parked 1))
      ∷ ("k2", lease_of 20 (manifest "k2" released_soft 1))
      ∷ [];
  snapshots = [];
}

park_IsSound : IsSound park
unfolding lookup
park_IsSound = ((refl, (refl, tt)), (refl, (refl, tt)))

sweep-IsSwept_example : IsSwept 5000 park (sweep 5000 true park).0
sweep-IsSwept_example = sweep-IsSwept 5000 true park park_IsSound.0

acquire-AcquireHolds_example :
    AcquireHolds 50 park "k2"
      (manifest "k2" hot_parked 0)
      (lookup "k2" park.leases)
      (acquire 50 park "k2" (manifest "k2" hot_parked 0))
acquire-AcquireHolds_example = acquire-AcquireHolds 50 park "k2" (manifest "k2" hot_parked 0)

abbrev calls : List Call
calls =
    acquires 50 "k2" (manifest "k2" hot_parked 0)
    ∷ renews 60 "k1"
    ∷ updates 70 "k3" (manifest "k3" hot_parked 5)
    ∷ sweeps 9000 true
    ∷ releases 9100 "k2" false
    ∷ releases 9100 "k1" true
    ∷ []

run-IsSound_example : IsSound (run park calls)
run-IsSound_example = run-IsSound calls park park_IsSound
