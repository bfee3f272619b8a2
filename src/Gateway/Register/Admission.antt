-- ===== src/Gateway/Register/Admission.antt =====
-- Who is admitted by `runtime_register`, and what an admission changes.
use aimeshchat.Base.{
  suc, ◌≤◌, String, ◌≡◌, ◌≢◌, ◌⊎◌, refl, eq_iff, eqb, ◌&&◌, Bool-cases, sym, ap, ◌∙◌, subst, true,
  ◌||◌, Option, none, some, ◌==◌, ne_of_test, test_of_ne, arith, any, if◌then◌else◌, Option-cases,
  inl, inr, ok, err,
}
use aimeshchat.Base.Table.{Table, lookup, insert, lookup-insert}
use aimeshchat.Gateway.Model.{Answer}
use aimeshchat.Gateway.Runtimes.{RuntimeRecord, active, alive, idle, pending, bound}
use aimeshchat.Gateway.Control.{upsert_review, upsert_generation}
use aimeshchat.Gateway.Events.{Draft, Event, EventStore, known_kind, validate, append_local}
use aimeshchat.Gateway.State.{Gateway, persist_control_state}
use aimeshchat.Gateway.Register.{
  Session, InboxMessage, Desk, Registration, Welcome, Clock, same_owner, check_owner, check_roster,
  admission, next_epoch, first_task, registered, mirror_review, sync_park, register_draft, welcome,
  tell_registered, enrol, runtime_register,
}

-- The plugin of a record: nobody's, or with the same process and nonce.
abbrev pub IsOwnedBy : Registration → RuntimeRecord → Type 0
IsOwnedBy p r =
    ((r.owner_pid ≡ 0) × (r.nonce ≡ "")) ⊎ ((r.owner_pid ≡ p.owner_pid) × (r.nonce ≡ p.nonce))

-- The runtime that is there before a registration, if one is, gives way to it.
abbrev pub GivesWay : Registration → Option RuntimeRecord → Type 0
GivesWay p none = Unit
GivesWay p (some r) = (r.generation ≤ p.generation) × (r.generation ≡ p.generation → IsOwnedBy p r)

abbrev pub InRoster : Desk → Registration → Type 0
InRoster desk p =
    (s : Session) × (lookup p.session_id desk.sessions ≡ some s)
    × ((s.manager == p.agent_id || any (λ a. a == p.agent_id) s.agents) ≡ true)

-- The binding epoch never falls, and a change of the backend session raises it.
abbrev pub EpochHolds : Registration → Option RuntimeRecord → RuntimeRecord → Type 0
EpochHolds p none r' = Unit
EpochHolds p (some r) r' =
    (r.binding_epoch ≤ r'.binding_epoch)
    × (p.backend_session_id ≢ ""
        → p.backend_session_id ≢ r.backend_session_id
        → r'.binding_epoch ≡ suc r.binding_epoch)

-- The record has what the plugin said of itself.
pub record IsPlugins (p : Registration) (r : RuntimeRecord) : Type 0 where
  pub runtime_id : r.runtime_id ≡ p.runtime_id
  pub session_id : r.session_id ≡ p.session_id
  pub agent_id : r.agent_id ≡ p.agent_id
  pub generation : r.generation ≡ p.generation
  pub review_key : r.review_key ≡ p.review_key
  pub backend_session_id : r.backend_session_id ≡ p.backend_session_id
  pub runtime : r.runtime ≡ p.runtime
  pub owner_pid : r.owner_pid ≡ p.owner_pid
  pub nonce : r.nonce ≡ p.nonce
  pub capabilities : r.capabilities ≡ p.capabilities

-- Active, alive and idle, and bound if there is a backend session.
abbrev pub IsLive : RuntimeRecord → Type 0
IsLive r =
    (r.status ≡ active)
    × (r.presence ≡ alive)
    × (r.agent_state ≡ idle)
    × (r.backend_session_id ≡ "" → r.binding ≡ pending)
    × (r.backend_session_id ≢ "" → r.binding ≡ bound)

-- What an admitted registration did.
pub record IsEnrolled (desk : Desk) (g : Gateway) (p : Registration) (g' : Gateway) : Type 0 where
  pub later : RuntimeRecord
  pub named : (p.session_id ≢ "") × (p.agent_id ≢ "") × (p.runtime_id ≢ "")
  pub gives_way : GivesWay p (lookup p.runtime_id g.runtimes)
  pub in_roster : InRoster desk p
  pub epoch : EpochHolds p (lookup p.runtime_id g.runtimes) later
  pub is_there :
      (j : String)
      → lookup j g'.runtimes ≡ (if p.runtime_id == j then some later else lookup j g.runtimes)
  pub speaks : IsPlugins p later
  pub lives : IsLive later
  pub keeps_commands : g'.control.commands ≡ g.control.commands
  pub keeps_sent : g'.sent ≡ g.sent
  pub keeps_claims : g'.claims ≡ g.claims

abbrev pub RegisterHolds : Desk → Gateway → Registration → Gateway × Answer Welcome → Type 0
RegisterHolds desk g p (g', err e) = g' ≡ g
RegisterHolds desk g p (g', ok w) = IsEnrolled desk g p g'

same_owner-IsOwnedBy :
    (r : RuntimeRecord) (p : Registration) → same_owner r p ≡ true → IsOwnedBy p r
unfolding same_owner
same_owner-IsOwnedBy r p h = elim (Bool-cases (eqb r.owner_pid 0 && r.nonce == "")) [
  | inl e ↦ inl (ground arith, ground (arith, eq_iff r.nonce ""))
  | inr e ↦ inr (ground arith, ground (arith, eq_iff r.nonce p.nonce))
]

owner-GivesWay :
    (p : Registration) (o : Option RuntimeRecord) → check_owner o p ≡ ok tt → GivesWay p o
unfolding check_owner
owner-GivesWay p none h = tt
owner-GivesWay p (some r) h = (ground arith, λ e. same_owner-IsOwnedBy r p (ground arith))

roster-InRoster :
    (desk : Desk) (p : Registration)
    → check_roster (lookup p.session_id desk.sessions) p.agent_id ≡ ok tt
    → InRoster desk p
unfolding check_roster
roster-InRoster desk p h = elim (Option-cases (lookup p.session_id desk.sessions)) [
  | inl e ↦ absurd (ground arith)
  | inr (s, e) ↦ (s, e, ground arith)
]

epoch-EpochHolds :
    (clock : Clock) (p : Registration) (task : Option InboxMessage) (o : Option RuntimeRecord)
    → EpochHolds p o (registered clock o p task)
unfolding registered next_epoch
epoch-EpochHolds clock p task none = tt
epoch-EpochHolds clock p task (some r) = (
  ground arith,
  λ a b. ground (
    arith,
    test_of_ne p.backend_session_id "" a,
    test_of_ne p.backend_session_id r.backend_session_id b,
  ),
)

-- What `enrol` leaves alone, and the runtime that it enters.
abbrev EnrolKeeps : Gateway → Gateway → Table RuntimeRecord → Type 0
EnrolKeeps g g' runtimes =
    (g'.runtimes ≡ runtimes)
    × (g'.control.commands ≡ g.control.commands)
    × (g'.sent ≡ g.sent)
    × (g'.claims ≡ g.claims)

enrol_keeps :
    (clock : Clock) (g : Gateway) (p : Registration) (task : Option InboxMessage)
    → EnrolKeeps g
        (enrol clock g p task)
        (insert p.runtime_id (registered clock (lookup p.runtime_id g.runtimes) p task) g.runtimes)
unfolding enrol sync_park mirror_review persist_control_state upsert_review upsert_generation
enrol_keeps clock g p task = (ground arith, ground arith, ground arith, ground arith)

-- The parts of an admission.
abbrev IsAdmitted : Gateway → Desk → Registration → Type 0
IsAdmitted g desk p =
    ((p.session_id ≢ "") × (p.agent_id ≢ "") × (p.runtime_id ≢ ""))
    × GivesWay p (lookup p.runtime_id g.runtimes)
    × InRoster desk p

admission-IsAdmitted :
    (g : Gateway) (desk : Desk) (p : Registration)
    → admission g desk p ≡ ok tt
    → IsAdmitted g desk p
unfolding admission
admission-IsAdmitted g desk p h = (
  (
    ne_of_test p.session_id "" (ground arith),
    ne_of_test p.agent_id "" (ground arith),
    ne_of_test p.runtime_id "" (ground arith),
  ),
  owner-GivesWay p (lookup p.runtime_id g.runtimes) (ground arith),
  roster-InRoster desk p (ground arith),
)

append_taken :
    (s : EventStore) (d : Draft)
    → validate d ≡ true
    → (x : EventStore × Event) × (append_local s d ≡ ok x)
unfolding append_local
append_taken s d h = rw h (_, refl)

draft_valid :
    (clock : Clock) (desk : Desk) (p : Registration)
    → p.session_id ≢ ""
    → p.runtime_id ≢ ""
    → validate (register_draft clock desk p) ≡ true
unfolding validate known_kind
draft_valid clock desk p a b =
    ground (arith, test_of_ne p.session_id "" a, test_of_ne p.runtime_id "" b)

-- The event of a registration is always taken: its kind is known and its identifiers are there.
tell_accepts :
    (clock : Clock) (desk : Desk) (g : Gateway) (p : Registration) (task : Option InboxMessage)
    → p.session_id ≢ ""
    → p.runtime_id ≢ ""
    → (events : EventStore) × (tell_registered clock desk g p task
        ≡ (record g { events = events }, ok (welcome p task)))
unfolding tell_registered
tell_accepts clock desk g p task a b =
    let (x, e) =
      append_taken g.events (register_draft clock desk p) (draft_valid clock desk p a b) in
    (x.0, ground arith)

plugins :
    (clock : Clock) (o : Option RuntimeRecord) (p : Registration) (task : Option InboxMessage)
    → IsPlugins p (registered clock o p task)
unfolding registered
plugins clock o p task = record {
  runtime_id = refl;
  session_id = refl;
  agent_id = refl;
  generation = refl;
  review_key = refl;
  backend_session_id = refl;
  runtime = refl;
  owner_pid = refl;
  nonce = refl;
  capabilities = refl;
}

registered-IsLive :
    (clock : Clock) (o : Option RuntimeRecord) (p : Registration) (task : Option InboxMessage)
    → IsLive (registered clock o p task)
unfolding registered
registered-IsLive clock o p task = (
  refl,
  refl,
  refl,
  λ e. ground (arith, eq_iff p.backend_session_id ""),
  λ n. ground (arith, test_of_ne p.backend_session_id "" n),
)

enrolled :
    (clock : Clock) (desk : Desk) (g : Gateway) (p : Registration) (task : Option InboxMessage)
    (events : EventStore)
    → IsAdmitted g desk p
    → IsEnrolled desk g p (record (enrol clock g p task) { events = events })
unfolding registered
enrolled clock desk g p task events (named, way, roster) =
    let (runtimes, commands, sent, claims) = enrol_keeps clock g p task in
    let r = registered clock (lookup p.runtime_id g.runtimes) p task in
    record {
      later = r;
      named = named;
      gives_way = way;
      in_roster = roster;
      epoch = epoch-EpochHolds clock p task (lookup p.runtime_id g.runtimes);
      is_there = λ j. ap (λ t. lookup j t) runtimes ∙ lookup-insert p.runtime_id j r g.runtimes;
      speaks = plugins clock (lookup p.runtime_id g.runtimes) p task;
      lives = registered-IsLive clock (lookup p.runtime_id g.runtimes) p task;
      keeps_commands = commands;
      keeps_sent = sent;
      keeps_claims = claims;
    }

register_cases :
    (clock : Clock) (desk : Desk) (g : Gateway) (p : Registration) (o : Answer (Unit {0}))
    → admission g desk p ≡ o
    → RegisterHolds desk g p (runtime_register clock desk g p)
unfolding runtime_register
register_cases clock desk g p (err e) h = rw (h, runtime_register) refl
register_cases clock desk g p (ok _) h =
    let admitted = admission-IsAdmitted g desk p h in
    let task = first_task (desk.inbox p.session_id p.agent_id) in
    let (events, told) =
      tell_accepts clock desk (enrol clock g p task) p task admitted.0.0 admitted.0.2 in
    rw (h, runtime_register)
      (subst (λ o. RegisterHolds desk g p o) (sym told)
        (enrolled clock desk g p task events admitted))

-- A registration that is refused changes nothing. One that is admitted names its session, agent and
-- runtime; the agent is in the session's roster; and a runtime that was there under the same name gives
-- way: its generation is not above the new one, and with the same generation it is nobody's or has the
-- plugin's process and nonce. Then the record has the plugin's ids, generation, process, nonce and
-- capabilities, is active, alive, idle and bound if there is a backend session, and has a binding epoch
-- that has not fallen and that a change of the backend session raised; no other runtime, no command,
-- claim or message is touched.
pub runtime_register-RegisterHolds :
    (clock : Clock) (desk : Desk) (g : Gateway) (p : Registration)
    → RegisterHolds desk g p (runtime_register clock desk g p)
runtime_register-RegisterHolds clock desk g p = register_cases clock desk g p _ refl
