-- ===== src/Gateway/Events/Pages.antt =====
-- Reading the log page by page.
use Prim.Native.Nat.{min, max}
use aimeshchat.Base.{
  ℕ, zero, suc, ◌≤◌, ◌<◌, ◌≡◌, refl, ap, Bool, true, false, ◌&&◌, List, [], ◌∷◌, ◌++◌, arith,
  Bool-cases, inl, inr, ltb, select, take, Result, ok, err, length, length-take, ◌∙◌,
}
use native.Mathlib.Nat.{le_refl}
use aimeshchat.Gateway.Events.{
  Event, EventStore, StoreError, Query, matches, kinds_ok, wanted, last_id, list_after,
}
use aimeshchat.Gateway.Events.Sequences.{Rising}
use aimeshchat.Gateway.Events.Invariant.{IsStore}

module _ (p : Event → Bool) where
  past : ℕ → List Event → List Event
  past c es = select (λ e. ltb c e.event_id && p e) es

  -- Below the first id, the cursor excludes nothing.
  past_same :
      (c d lo hi : ℕ) (es : List Event) → c < lo → d < lo → Rising lo hi es → past c es ≡ past d es
  unfolding past select
  past_same c d lo hi [] h k r = refl
  past_same c d lo hi (e ∷ es) h k r =
      ground (arith, past_same c d (suc e.event_id) hi es (omega arith) (omega arith) r.1)

  last_id-ge : (c d n : ℕ) (es : List Event) → c ≤ d → c ≤ last_id d (take n (past c es))
  unfolding past select last_id
  last_id-ge c d zero es h = h
  last_id-ge c d (suc n) [] h = h
  last_id-ge c d (suc n) (e ∷ es) h = elim (Bool-cases (ltb c e.event_id && p e)) [
    | inl t ↦ rw t (last_id-ge c e.event_id n es (ground arith))
    | inr t ↦ rw t (last_id-ge c d (suc n) es h)
  ]

  past_skip : (c : ℕ) (e : Event) (es : List Event) → e.event_id ≤ c → past c (e ∷ es) ≡ past c es
  unfolding past select
  past_skip c e es h = ground arith

  past_taken :
      (c : ℕ) (e : Event) (es : List Event)
      → (ltb c e.event_id && p e) ≡ true
      → past c (e ∷ es) ≡ e ∷ past c es
  unfolding past select
  past_taken c e es t = rw t

  past_refused :
      (c d : ℕ) (e : Event) (es : List Event)
      → (ltb c e.event_id && p e) ≡ false
      → c ≤ d
      → past d (e ∷ es) ≡ past d es
  unfolding past select
  past_refused c d e es t h = ground arith

  -- A page and what is past its last id are all that was past the cursor.
  pages_complete :
      (c n lo hi : ℕ) (es : List Event)
      → Rising lo hi es
      → take n (past c es) ++ past (last_id c (take n (past c es))) es ≡ past c es
  unfolding last_id
  pages_complete c zero lo hi es r = refl
  pages_complete c (suc n) lo hi [] r = unfold past select in refl
  pages_complete c (suc n) lo hi (e ∷ es) r =
      let i = e.event_id in
      elim (Bool-cases (ltb c i && p e)) [
        | inl t ↦
            let same = past_same c i (suc i) hi es (ground arith) (omega arith) r.1 in
            rw (past_taken c e es t) (
              ap (λ xs. e ∷ xs)
                (rw same (
                  ap (λ xs. take n (past i es) ++ xs)
                    (past_skip (last_id i (take n (past i es))) e es
                      (last_id-ge i i n es (le_refl _)))
                  ∙ pages_complete i n (suc i) hi es r.1)))
        | inr t ↦ rw (past_refused c c e es t (le_refl c)) (
            ap (λ xs. take (suc n) (past c es) ++ xs)
              (past_refused c (last_id c (take (suc n) (past c es))) e es t
                (last_id-ge c c (suc n) es (le_refl _)))
            ∙ pages_complete c (suc n) (suc i) hi es r.1)
      ]

-- What one page promises about the events that match the query.
abbrev pub PageHolds : EventStore → Query → Result StoreError (List Event × ℕ) → Type 0
PageHolds s q (ok (page, next)) =
    (page ++ select (wanted next q) s.rows ≡ select (wanted q.cursor q) s.rows)
    × (length page ≤ 1000)
    × (q.cursor ≤ next)
PageHolds s q (err e) = kinds_ok q.filters ≡ false

page_of :
    (s : EventStore) (q : Query) (n : ℕ)
    → n ≤ 1000
    → IsStore s
    → (let page = take n (select (wanted q.cursor q) s.rows) in
        PageHolds s q (ok (page, last_id q.cursor page)))
unfolding wanted past
page_of s q n h v = (
  pages_complete (matches q) q.cursor n 0 s.next_id s.rows v.rising,
  omega (arith, length-take n (select (wanted q.cursor q) s.rows)),
  last_id-ge (matches q) q.cursor q.cursor n s.rows (le_refl q.cursor),
)

-- Reading on from the cursor that a page returns loses no event and repeats none: the page, followed
-- by all matching events past its cursor, is all matching events past the query's cursor. A page
-- has at most 1000 events, and the cursor never goes back. Only a filter of an unknown kind raises.
pub list_after-PageHolds : (s : EventStore) (q : Query) → IsStore s → PageHolds s q (list_after s q)
unfolding list_after
list_after-PageHolds s q v = elim (Bool-cases (kinds_ok q.filters)) [
  | inl e ↦ rw e (page_of s q (max 1 (min q.limit 1000)) (omega arith) v)
  | inr e ↦ rw e e
]
