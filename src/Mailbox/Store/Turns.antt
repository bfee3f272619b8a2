-- ===== src/Mailbox/Store/Turns.antt =====
-- The turns of the loop of `read`, case by case; a read is a sequence of steps of the protocol.
use aimeshchat.Base.{
  ℕ, zero, suc, String, Bool, true, Option, none, some, List, [], ◌∷◌, ◌==◌, ◌≡◌, refl, subst,
  arith, eq_iff, Result, ok, err, Option-cases, Bool-cases, inl, inr, if◌then◌else◌,
}
use aimeshchat.Base.Table.{Table, lookup}
use aimeshchat.Mailbox.Dicts.{Dict}
use aimeshchat.Mailbox.Validate.{Refusal, unhashable_kind, text_at}
use aimeshchat.Mailbox.Store.{
  File, Content, Claim, Box, garbled, json, in_inbox, in_processing, move, claim_name,
  reap_expired_claim,
}
use aimeshchat.Mailbox.Store.Read.{
  SessionMeta, Answer, Turn, returned, again, turn, take_file, judge, claim_message, read_loop,
  read, in_roster, first_where, may_take, list_messages, insert_by_age, enough, publish, message,
  nothing, type_error, quarantine,
}
use aimeshchat.Mailbox.Store.Finish.{is_there}
use aimeshchat.Mailbox.Store.Steps.{
  Steps, done, Steps-one, Steps-append, quarantined, taken, expired,
}
use aimeshchat.Mailbox.Store.Calls.{reap_expired_claim-cases}

-- What `first_where` finds in the sorted files is a file of the folder.
is_there-insert_by_age :
    (k n : String) (f : File) (t : Table File)
    → is_there k (insert_by_age (n, f) t) ≡ (if n == k then true else is_there k t)
unfolding insert_by_age lookup
is_there-insert_by_age k n f [] = ground (arith, eq_iff n k)
is_there-insert_by_age k n f ((m, g) ∷ t) =
    ground (arith, eq_iff n k, eq_iff m k, is_there-insert_by_age k n f t)

is_there-list_messages :
    (k : String) (t : Table File) → is_there k (list_messages t) ≡ true → is_there k t ≡ true
unfolding list_messages lookup
is_there-list_messages k [] h = h
is_there-list_messages k ((n, f) ∷ t) h =
    ground (
      arith,
      eq_iff n k,
      is_there-insert_by_age k n f (list_messages t),
      is_there-list_messages k t,
    )

is_there-first_where :
    (p : String → Bool) (n : String) (f : File) (t : Table File)
    → first_where p t ≡ some (n, f)
    → (is_there n t ≡ true) × (p n ≡ true)
unfolding first_where lookup
is_there-first_where p n f [] h = absurd (ground arith)
is_there-first_where p n f ((m, g) ∷ t) h = elim (Bool-cases (p m)) [
  | inl e ↦
      let same : m ≡ n = ground (arith, e, h) in (ground (arith, eq_iff m n, same), rw (← same) e)
  | inr e ↦ ground (arith, eq_iff m n, e, h, is_there-first_where p n f t)
]

-- What a turn is for a file of the inbox that may be taken: whatever holds of each outcome holds of
-- the turn.
pub record Outcomes {κ} (now : ℕ) (owner name : String) (b : Box) (contested : List String)
    (M : Turn → Type κ) : Type κ where
  pub refused : M (quarantine name b contested)
  pub raised : M (returned type_error b)
  pub claims :
      (d : Dict)
      → lookup (claim_name name owner) b.claims ≡ none
      → M (returned (message name d) (move name in_inbox in_processing (publish now owner name b)))
  pub reaps :
      (reap_expired_claim now (claim_name name owner) b).0 ≡ true
      → M (again (reap_expired_claim now (claim_name name owner) b).1 contested)
  pub contests :
      (c : Option Claim)
      → lookup (claim_name name owner) b.claims ≡ some c
      → M (again b (name ∷ contested))

module _ {κ} (now : ℕ) (session agent owner : String) (meta : Option SessionMeta)
    (M : Turn → Type κ) where
  module _ (name : String) (b : Box) (contested : List String)
      (o : Outcomes now owner name b contested M) where
    claim_message-cases :
        (d : Dict) → M (claim_message now session agent owner meta name d b contested)
    unfolding claim_message
    claim_message-cases d = elim (Option-cases (lookup (claim_name name owner) b.claims)) [
      | inl e ↦ rw (claim_message, e) (o.claims d e)
      | inr (c, e) ↦
          rw (claim_message, e)
            elim (Bool-cases (reap_expired_claim now (claim_name name owner) b).0) [
              | inl f ↦ rw f (o.reaps f)
              | inr f ↦ rw f (o.contests c e)
            ]
    ]

    judge-cases :
        (d : Dict) (r : Result Refusal (Unit {0}))
        → M (judge now session agent owner meta name d b contested r)
    unfolding judge
    judge-cases d (ok tt) = elim (Bool-cases (in_roster meta (text_at "from" d))) [
      | inl e ↦ rw (judge, e) (claim_message-cases d)
      | inr e ↦ rw (judge, e) o.refused
    ]
    judge-cases d (err unhashable_kind) = o.raised
    judge-cases d (err _) = o.refused

    take_file-cases : (c : Content) → M (take_file now session agent owner meta name c b contested)
    unfolding take_file
    take_file-cases garbled = o.refused
    take_file-cases (json none) = o.refused
    take_file-cases (json (some d)) = judge-cases d _

  pub turn-cases :
      (skip : List String) (target : String) (b : Box) (contested : List String)
      → M (returned nothing b)
      → ((name : String)
          → is_there name b.inbox ≡ true
          → may_take skip target contested name ≡ true
          → Outcomes now owner name b contested M)
      → M (turn now session agent owner meta skip target b contested)
  unfolding turn
  turn-cases skip target b contested empty found =
      chosen (first_where (may_take skip target contested) (list_messages b.inbox)) refl
    where
      chosen :
          (o : Option (String × File))
          → first_where (may_take skip target contested) (list_messages b.inbox) ≡ o
          → M (turn now session agent owner meta skip target b contested)
      chosen none h = rw (turn, h) empty
      chosen (some (n, f)) h =
          let p =
            is_there-first_where (may_take skip target contested) n f (list_messages b.inbox) h in
          rw (turn, h)
            (take_file-cases n b contested (found n (is_there-list_messages n b.inbox p.0) p.1)
              f.content)

module _ (now : ℕ) (session agent owner : String) (meta : Option SessionMeta) where
  -- The folders that a turn leaves.
  abbrev pub left : Turn → Box
  left (returned a b) = b
  left (again b contested) = b

  turn-Steps :
      (skip : List String) (target : String) (b : Box) (contested : List String)
      → Steps now owner b (left (turn now session agent owner meta skip target b contested))
  turn-Steps skip target b contested =
      turn-cases now session agent owner meta (λ t. Steps now owner b (left t)) skip target b
        contested (done b)
        λ name there may. record {
          refused = Steps-one now owner b _ (quarantined name b);
          raised = done b;
          claims = λ d e. Steps-one now owner b _ (taken name b there e);
          reaps = λ e.
              reap_expired_claim-cases (λ r. Steps now owner b r.1) now (claim_name name owner) b
                (done b)
                (λ c t f g k.
                  Steps-one now owner b _ (expired (claim_name name owner) c t b f g k));
          contests = λ c e. done b;
        }

  -- The folders after a read; a loop without fuel has not returned.
  abbrev pub after_read : Box → Option (Answer × Box) → Box
  after_read b none = b
  after_read b (some r) = r.1

  pub read_loop-Steps :
      (fuel : ℕ) (skip : List String) (target : String) (b : Box) (contested : List String)
      (r : Answer × Box)
      → read_loop (λ _. now) session agent owner meta fuel skip target b contested ≡ some r
      → Steps now owner b r.1
  unfolding read_loop
  read_loop-Steps zero skip target b contested r h = absurd (ground arith)
  read_loop-Steps (suc fuel) skip target b contested r h =
      loop_on (turn now session agent owner meta skip target b contested) h
        (turn-Steps skip target b contested)
        (λ b' contested' e. read_loop-Steps fuel skip target b' contested' r e)
    where
      loop_on :
          (t : Turn)
          → (elim t as (λ x. Option (Answer × Box)) [
            | returned a b' ↦ some (a, b')
            | again b' contested' ↦
                read_loop (λ _. now) session agent owner meta fuel skip target b' contested'
          ])
            ≡ some r
          → Steps now owner b (left t)
          → ((b' : Box) (contested' : List String)
              → read_loop (λ _. now) session agent owner meta fuel skip target b' contested'
                ≡ some r
              → Steps now owner b' r.1)
          → Steps now owner b r.1
      loop_on (returned a b') e s rest =
          let q : (a, b') ≡ r = cc in subst (λ (x : Answer × Box). Steps now owner b x.1) q s
      loop_on (again b' contested') e s rest =
          Steps-append now owner b b' r.1 s (rest b' contested' e)

  pub read-Steps :
      (skip : List String) (target : String) (b : Box)
      → Steps now owner b (after_read b (read (λ _. now) session agent owner meta skip target b))
  unfolding read
  read-Steps skip target b =
      elim (Option-cases
        (read_loop (λ _. now) session agent owner meta (enough b) skip target b [])) [
          | inl e ↦ rw (read, e) (done b)
          | inr (r, e) ↦ rw (read, e) (read_loop-Steps (enough b) skip target b [] r e)
        ]
