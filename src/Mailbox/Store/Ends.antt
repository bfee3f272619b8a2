-- ===== src/Mailbox/Store/Ends.antt =====
-- A read without a target returns: its fuel is enough.
use aimeshchat.Base.{
  ℕ, suc, ◌+◌, ◌*◌, ◌≤◌, ◌<◌, String, Bool, true, false, not, Option, none, some, List, [], ◌∷◌,
  ◌==◌, ◌≡◌, refl, ◌≢◌, any, length, count, arith, eq_iff, Bool-cases, Option-cases, inl, inr,
  if◌then◌else◌,
}
use aimeshchat.Base.Table.{Table, lookup, insert, remove}
use aimeshchat.Mailbox.Store.{
  Box, in_inbox, in_processing, in_corrupt, move, drop_claim, claim_name, claim_id,
  reap_expired_claim,
}
use aimeshchat.Mailbox.Store.Read.{SessionMeta, Answer, turn, read, one_of, enough}
use aimeshchat.Mailbox.Store.Finish.{is_there}
use aimeshchat.Mailbox.Store.Turns.{turn-cases}
use aimeshchat.Mailbox.Store.Calls.{reap_expired_claim-cases}
use aimeshchat.Mailbox.Store.Loop.{Falls, read_loop-ends}

-- Rows counted by their names.
module _ {V : Type 0} where
  abbrev rows : (String → Bool) → Table V → ℕ
  rows q t = count (λ (n, v). q n) t

  rows-remove :
      (q : String → Bool) (name : String) (t : Table V) → rows q (remove name t) ≤ rows q t
  unfolding remove count
  rows-remove q name [] = omega arith
  rows-remove q name ((n, v) ∷ t) = ground (arith, rows-remove q name t)

  rows-remove_there :
      (q : String → Bool) (name : String) (t : Table V)
      → lookup name t ≢ none
      → q name ≡ true
      → rows q (remove name t) < rows q t
  unfolding remove count lookup
  rows-remove_there q name [] h e = absurd (h refl)
  rows-remove_there q name ((n, v) ∷ t) h e = elim (Bool-cases (n == name)) [
    | inl f ↦
        let same : n ≡ name = (eq_iff n name).0 f in
        let e' : q n ≡ true = rw same e in ground (arith, f, e', rows-remove q name t)
    | inr f ↦ ground (arith, f, h, rows-remove_there q name t)
  ]

  rows-insert :
      (q : String → Bool) (name : String) (v : V) (t : Table V)
      → rows q (insert name v t) ≤ suc (rows q t)
  unfolding insert count
  rows-insert q name v [] = ground arith
  rows-insert q name v ((n, w) ∷ t) = ground (arith, rows-insert q name v t)

  length-remove : (name : String) (t : Table V) → length (remove name t) ≤ length t
  unfolding remove
  length-remove name [] = omega arith
  length-remove name ((n, v) ∷ t) = ground (arith, length-remove name t)

  length-remove_there :
      (name : String) (t : Table V) → lookup name t ≢ none → length (remove name t) < length t
  unfolding remove lookup
  length-remove_there name [] h = absurd (h refl)
  length-remove_there name ((n, v) ∷ t) h =
      ground (arith, h, length-remove name t, length-remove_there name t)

  -- One name more that is passed over.
  rows-pass :
      (q q' : String → Bool) (name : String) (t : Table V)
      → ((n : String) → q' n ≡ (if name == n then false else q n))
      → rows q' t ≤ rows q t
  unfolding count
  rows-pass q q' name [] p = omega arith
  rows-pass q q' name ((n, v) ∷ t) p = ground (arith, p n, rows-pass q q' name t p)

  rows-pass_there :
      (q q' : String → Bool) (name : String) (t : Table V)
      → ((n : String) → q' n ≡ (if name == n then false else q n))
      → lookup name t ≢ none
      → q name ≡ true
      → rows q' t < rows q t
  unfolding count lookup
  rows-pass_there q q' name [] p h e = absurd (h refl)
  rows-pass_there q q' name ((n, v) ∷ t) p h e = elim (Bool-cases (n == name)) [
    | inl f ↦
        let same : n ≡ name = (eq_iff n name).0 f in
        let e' : q n ≡ true = rw same e in
        let k : q' n ≡ false = ground (arith, p n, same, eq_iff name n) in
        ground (arith, e', k, rows-pass q q' name t p)
    | inr f ↦ ground (arith, f, h, p n, eq_iff name n, eq_iff n name, rows-pass_there q q' name t p)
  ]

count-bound {ℓ} : {A : Type ℓ} (p : A → Bool) (xs : List A) → count p xs ≤ length xs
unfolding count
count-bound p [] = omega arith
count-bound p (x ∷ xs) = ground (arith, count-bound p xs)

abbrev open_rows : Box → List String → ℕ
open_rows b contested = rows (λ n. not (one_of contested n)) b.inbox

abbrev size : Box → List String → ℕ
size b contested = 2 * length b.claims + open_rows b contested

module _ (name : String) (b : Box) (contested : List String) (there : is_there name b.inbox ≡ true)
    (open_ : one_of contested name ≡ false) where
  found : lookup name b.inbox ≢ none
  found = λ e. ground (arith, there, e)

  refused-falls : size (move name in_inbox in_corrupt b) contested < size b contested
  unfolding move
  refused-falls = elim (Option-cases (lookup name b.inbox)) [
    | inl e ↦ absurd (found e)
    | inr (f, e) ↦
        rw (move, e) omega
          (
            arith,
            rows-remove_there (λ n. not (one_of contested n)) name b.inbox found (rw open_ refl),
          )
  ]

  contested-falls : size b (name ∷ contested) < size b contested
  unfolding any
  contested-falls =
      let passes : (n : String)
          → not (one_of (name ∷ contested) n)
            ≡ (if name == n then false else not (one_of contested n)) =
        λ n. ground arith in
      omega (
        arith,
        rows-pass_there (λ n. not (one_of contested n)) (λ n. not (one_of (name ∷ contested) n))
            name b.inbox passes found (rw open_ refl),
      )

-- A claim file that is reaped is gone, and at most one message came to the inbox.
returned-falls :
    (id name : String) (b : Box) (contested : List String)
    → lookup name b.claims ≢ none
    → size (drop_claim name (move id in_processing in_inbox b)) contested < size b contested
unfolding move
returned-falls id name b contested h = elim (Option-cases (lookup id b.processing)) [
  | inl e ↦ rw (move, e) omega (arith, length-remove_there name b.claims h)
  | inr (f, e) ↦
      rw (move, e) omega
        (
          arith,
          length-remove_there name b.claims h,
          rows-insert (λ n. not (one_of contested n)) id f b.inbox,
        )
]

reaped-falls :
    (now : ℕ) (name : String) (b : Box) (contested : List String)
    → (reap_expired_claim now name b).0 ≡ true
    → size (reap_expired_claim now name b).1 contested < size b contested
reaped-falls now name b contested =
    reap_expired_claim-cases (λ r. r.0 ≡ true → size r.1 contested < size b contested) now name b
      (λ h. absurd (ground arith))
      (λ c t e f g h. returned-falls (claim_id name c) name b contested (λ k. ground (arith, e, k)))

-- A read for any message returns, whatever the folders hold, whichever ids are to be skipped and whatever
-- the clock says on each turn: it never turns in its loop for ever.
pub read-returns :
    (clock : ℕ → ℕ) (session agent owner : String) (meta : Option SessionMeta) (skip : List String)
    (b : Box)
    → (r : Answer × Box) × (read clock session agent owner meta skip "" b ≡ some r)
unfolding read
read-returns clock session agent owner meta skip b =
    read_loop-ends clock session agent owner meta skip "" size falls (enough b) b []
      (omega (arith, all_open))
  where
    falls :
        (now : ℕ) (a : Box) (contested : List String)
        → Falls clock session agent owner meta skip "" size
            (size a contested)
            (turn now session agent owner meta skip "" a contested)
    falls now a contested =
        turn-cases now session agent owner meta
          (Falls clock session agent owner meta skip "" size (size a contested)) skip "" a contested
          tt
          λ name there may. record {
            refused = refused-falls name a contested there (ground (arith, may));
            raised = tt;
            claims = λ d e. tt;
            reaps = reaped-falls now (claim_name name owner) a contested;
            contests = λ c e. contested-falls name a contested there (ground (arith, may));
          }

    all_open : rows (λ n. not (one_of [] n)) b.inbox ≤ length b.inbox
    all_open = count-bound _ b.inbox
