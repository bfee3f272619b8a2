-- ===== src/Mailbox/Sessions/Roster.antt =====
-- Who is in a session after `session_init`.
use aimeshchat.Base.{
  ℕ, ◌≤◌, String, Bool, true, false, not, ◌&&◌, ◌||◌, Option, none, some, List, [], ◌∷◌, ◌++◌, ◌==◌,
  ◌≡◌, refl, ◌∙◌, subst, eqb, length, all, any, select, Result, ok, arith, eq_iff, Bool-cases, inl,
  inr, ◌⊎◌,
}
use aimeshchat.Mailbox.Store.Read.{one_of}
use aimeshchat.Mailbox.Sessions.{
  Session, SessionInfo, Extras, InitError, insert_sorted, sorted_set, added_agents, merged_info,
  merge_session, new_session, session_init, agent_id_ok, no_extras, text_before,
}

one_of-insert_sorted :
    (n k : String) (ms : List String) → one_of (insert_sorted n ms) k ≡ (n == k || one_of ms k)
unfolding insert_sorted any
one_of-insert_sorted n k [] = ground arith
one_of-insert_sorted n k (m ∷ ms) = elim (Bool-cases (n == m)) [
  | inl e ↦ rw (insert_sorted, e) ground (arith, eq_iff n m, e)
  | inr e ↦ elim (Bool-cases (text_before n m)) [
    | inl f ↦ rw (insert_sorted, e, f) ground arith
    | inr f ↦ rw (insert_sorted, e, f) ground (arith, one_of-insert_sorted n k ms)
  ]
]

one_of-sorted_set : (k : String) (ns : List String) → one_of (sorted_set ns) k ≡ one_of ns k
unfolding sorted_set any
one_of-sorted_set k [] = refl
one_of-sorted_set k (n ∷ ns) =
    one_of-insert_sorted n k (sorted_set ns) ∙ ground (arith, one_of-sorted_set k ns)

one_of-append :
    (k : String) (xs ys : List String) → one_of (xs ++ ys) k ≡ (one_of xs k || one_of ys k)
unfolding any
one_of-append k [] ys = refl
one_of-append k (x ∷ xs) ys = ground (arith, one_of-append k xs ys)

one_of-select :
    (k : String) (p : String → Bool) (xs : List String)
    → one_of (select p xs) k ≡ (p k && one_of xs k)
unfolding any select
one_of-select k p [] = ground arith
one_of-select k p (x ∷ xs) = elim (Bool-cases (x == k)) [
  | inl e ↦
      let same : x ≡ k = (eq_iff x k).0 e in
      elim (Bool-cases (p k)) [
        | inl f ↦ let g : p x ≡ true = rw same f in ground (arith, e, f, g)
        | inr f ↦ let g : p x ≡ false = rw same f in ground (arith, e, f, g, one_of-select k p xs)
      ]
  | inr e ↦ ground (arith, e, one_of-select k p xs)
]

-- No element of a list.
empty_of-length : (xs : List String) (k : String) → eqb (length xs) 0 ≡ true → one_of xs k ≡ false
unfolding any
empty_of-length [] k h = refl
empty_of-length (x ∷ xs) k h = absurd (ground arith)

-- The agents of a session, none where there is no file.
abbrev pub agents_of : Session → List String
agents_of s = elim s.info [ none ↦ [] | some i ↦ i.agents ]

abbrev pub manager_of : Session → String
manager_of s = elim s.info [ none ↦ "" | some i ↦ i.manager ]

abbrev pub revision_of : Session → ℕ
revision_of s = elim s.info [ none ↦ 0 | some i ↦ i.manifest_revision ]

-- Every agent has folders.
abbrev pub IsHoused : Session → Type 0
IsHoused s = (k : String) → one_of (agents_of s) k ≡ true → one_of s.folders k ≡ true

-- What a call that returns has done to the session.
pub record InitHolds (s s' : Session) (manager : String) (agents : List String) : Type 0 where
  pub members : (k : String) → one_of (agents_of s') k ≡ (one_of (agents_of s) k || one_of agents k)
  pub led : (manager_of s' ≡ manager) ⊎ ((manager_of s ≡ "") × (manager_of s' ≡ ""))
  pub revised : revision_of s ≤ revision_of s'
  pub housed : IsHoused s → IsHoused s'

-- An agent that a call names is in the session or among those added.
named-added :
    (i : SessionInfo) (agents : List String) (k : String)
    → one_of (added_agents i agents) k ≡ (not (one_of i.agents k) && one_of agents k)
named-added i agents k =
    one_of-select k (λ n. not (one_of i.agents n)) (sorted_set agents)
    ∙ ground (arith, one_of-sorted_set k agents)

module _ (s : Session) (i : SessionInfo) (manager : String) (agents : List String) (x : Extras)
    (there : s.info ≡ some i)
    (led : (not (i.manager == "") && not (i.manager == manager)) ≡ false) where
  led-by : (manager_of s ≡ manager) ⊎ ((manager_of s ≡ "") × (manager_of s ≡ ""))
  led-by =
      rw (manager_of, there)
        elim (Bool-cases (i.manager == "")) [
          | inl e ↦
              inr (ground (arith, e, eq_iff i.manager ""), ground (arith, e, eq_iff i.manager ""))
          | inr e ↦ inl (ground (arith, e, led, eq_iff i.manager manager))
        ]

  same-InitHolds : eqb (length (added_agents i agents)) 0 ≡ true → InitHolds s s manager agents
  same-InitHolds e = record {
    members = λ k.
        rw (agents_of, there) ground
          (arith, named-added i agents k, empty_of-length (added_agents i agents) k e);
    led = led-by;
    revised = omega arith;
    housed = λ h. h;
  }

  merged-InitHolds :
      InitHolds s
        (record {
          info = some (merged_info i agents x);
          folders = s.folders ++ added_agents i agents;
        })
        manager
        agents
  unfolding merged_info
  merged-InitHolds = record {
    members = λ k.
        rw (agents_of, there)
          (one_of-sorted_set k (i.agents ++ agents) ∙ one_of-append k i.agents agents);
    led = elim led-by [
      | inl e ↦ inl (ground (arith, e, there))
      | inr e ↦ inr (e.0, ground (arith, e.0, there))
    ];
    revised = rw (revision_of, there) omega arith;
    housed = λ h k m. ground (
      arith,
      h k,
      there,
      m,
      one_of-append k s.folders (added_agents i agents),
      named-added i agents k,
      one_of-sorted_set k (i.agents ++ agents),
      one_of-append k i.agents agents,
    );
  }

ok_injective : {a b : Session} → ◌≡◌ {A = Result InitError Session} (ok a) (ok b) → a ≡ b
ok_injective h = cc

-- Of a call that has returned.
merge-InitHolds :
    (s s' : Session) (i : SessionInfo) (manager : String) (agents : List String) (x : Extras)
    → s.info ≡ some i
    → merge_session s i manager agents x ≡ ok s'
    → InitHolds s s' manager agents
unfolding merge_session
merge-InitHolds s s' i manager agents x there =
    elim (Bool-cases (not (i.manager == "") && not (i.manager == manager))) [
      | inl e ↦ rw (merge_session, e) (λ h. absurd (ground arith))
      | inr e ↦ elim (Bool-cases (eqb (length (added_agents i agents)) 0 && no_extras x)) [
        | inl f ↦
            rw (merge_session, e, f)
              (λ h.
                let same : s ≡ s' = cc in
                subst (λ t. InitHolds s t manager agents) same
                  (same-InitHolds s i manager agents x there e (ground (arith, f))))
        | inr f ↦
            rw (merge_session, e, f)
              (λ h.
                subst (λ t. InitHolds s t manager agents) (ok_injective h)
                  (merged-InitHolds s i manager agents x there e))
      ]
    ]

new-InitHolds :
    (s : Session) (manager : String) (agents : List String) (x : Extras)
    → s.info ≡ none
    → InitHolds s (new_session s manager agents x) manager agents
unfolding new_session any
new-InitHolds s manager agents x there = record {
  members = λ k. rw (agents_of, there) (one_of-sorted_set k agents);
  led = inl refl;
  revised = rw (revision_of, there) omega arith;
  housed = λ h k m. ground (
    arith,
    m,
    one_of-append k s.folders (sorted_set agents ++ manager ∷ []),
    one_of-append k (sorted_set agents) (manager ∷ []),
  );
}

init_found :
    (s s' : Session) (manager : String) (agents : List String) (x : Extras) (o : Option SessionInfo)
    → s.info ≡ o
    → (elim o as (λ y. Result InitError Session) [
      | none ↦ ok (new_session s manager agents x)
      | some i ↦ merge_session s i manager agents x
    ])
      ≡ ok s'
    → InitHolds s s' manager agents
init_found s s' manager agents x none f h =
    subst (λ t. InitHolds s t manager agents) (ok_injective h) (new-InitHolds s manager agents x f)
init_found s s' manager agents x (some i) f h = merge-InitHolds s s' i manager agents x f h

-- When `session_init` returns: the agents of the session are those it had and those that were named,
-- no other and none less; its manager is the one named, unless the file has none; its revision has
-- not gone down; and if every agent had folders, every agent has.
pub session_init-InitHolds :
    (s s' : Session) (session_id manager : String) (agents : List String) (x : Extras)
    → session_init s session_id manager agents x ≡ ok s'
    → InitHolds s s' manager agents
unfolding session_init
session_init-InitHolds s s' session_id manager agents x =
    elim (Bool-cases (agent_id_ok session_id && (agent_id_ok manager && all agent_id_ok agents))) [
      | inr e ↦ rw (session_init, e) (λ h. absurd (ground arith))
      | inl e ↦ rw (session_init, e) (init_found s s' manager agents x s.info refl)
    ]
