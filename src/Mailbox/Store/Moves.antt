-- ===== src/Mailbox/Store/Moves.antt =====
-- The moves that the calls make between the folders.
use aimeshchat.Base.{
  ℕ, ◌+◌, ◌≤◌, String, true, false, none, some, ◌==◌, ◌≡◌, refl, ◌∙◌, arith, eq_iff, Option-cases,
  inl, inr, if◌then◌else◌,
}
use aimeshchat.Base.Table.{Table, lookup, insert, remove, lookup-insert, lookup-remove}
use aimeshchat.Mailbox.Store.{
  File, Box, Place, folder, in_inbox, in_processing, in_archive, in_corrupt, move,
}
use aimeshchat.Mailbox.Store.Finish.{is_there}

-- In how many of the four folders there is a file of the name.
abbrev pub holds : String → Table File → ℕ
holds k t = if is_there k t then 1 else 0

abbrev pub places : String → Box → ℕ
places k b = holds k b.inbox + holds k b.processing + holds k b.archive + holds k b.corrupt

abbrev pub Kept : Box → Box → Type 0
Kept b b' = (k : String) → places k b ≤ 1 → places k b' ≡ places k b

pub Kept-refl : (b : Box) → Kept b b
Kept-refl b k h = refl

pub Kept-trans : (a b c : Box) → Kept a b → Kept b c → Kept a c
Kept-trans a b c p q k h = q k (omega (arith, p k h)) ∙ p k h

-- The moves that the calls make.
pub data IsRoute : Place → Place → Type 0 where
  claimed : IsRoute in_inbox in_processing
  rejected : IsRoute in_inbox in_corrupt
  skipped : IsRoute in_inbox in_archive
  finished : IsRoute in_processing in_archive
  put_back : IsRoute in_processing in_inbox

-- A file that leaves one folder for another.
holds-remove :
    (name k : String) (t : Table File)
    → holds k (remove name t) ≡ (if name == k then 0 else holds k t)
holds-remove name k t = ground (arith, lookup-remove name k t)

holds-insert :
    (name k : String) (f : File) (t : Table File)
    → holds k (insert name f t) ≡ (if name == k then 1 else holds k t)
holds-insert name k f t = ground (arith, lookup-insert name k f t)

holds-found :
    (name k : String) (f : File) (t : Table File)
    → lookup name t ≡ some f
    → (name == k) ≡ true
    → holds k t ≡ 1
holds-found name k f t e h = ground (arith, e, eq_iff name k)

pub move-Kept :
    (src dest : Place) (name : String) (b : Box) → IsRoute src dest → Kept b (move name src dest b)
unfolding move
move-Kept in_inbox in_processing name b claimed k h = elim (Option-cases (lookup name b.inbox)) [
  | inl e ↦ rw (move, e) refl
  | inr (f, e) ↦
      rw (move, e) ground
        (
          arith,
          h,
          holds-remove name k b.inbox,
          holds-insert name k f b.processing,
          holds-found name k f b.inbox e,
        )
]
move-Kept in_inbox in_corrupt name b rejected k h = elim (Option-cases (lookup name b.inbox)) [
  | inl e ↦ rw (move, e) refl
  | inr (f, e) ↦
      rw (move, e) ground
        (
          arith,
          h,
          holds-remove name k b.inbox,
          holds-insert name k f b.corrupt,
          holds-found name k f b.inbox e,
        )
]
move-Kept in_inbox in_archive name b skipped k h = elim (Option-cases (lookup name b.inbox)) [
  | inl e ↦ rw (move, e) refl
  | inr (f, e) ↦
      rw (move, e) ground
        (
          arith,
          h,
          holds-remove name k b.inbox,
          holds-insert name k f b.archive,
          holds-found name k f b.inbox e,
        )
]
move-Kept in_processing in_archive name b finished k h =
    elim (Option-cases (lookup name b.processing)) [
      | inl e ↦ rw (move, e) refl
      | inr (f, e) ↦
          rw (move, e) ground
            (
              arith,
              h,
              holds-remove name k b.processing,
              holds-insert name k f b.archive,
              holds-found name k f b.processing e,
            )
    ]
move-Kept in_processing in_inbox name b put_back k h =
    elim (Option-cases (lookup name b.processing)) [
      | inl e ↦ rw (move, e) refl
      | inr (f, e) ↦
          rw (move, e) ground
            (
              arith,
              h,
              holds-remove name k b.processing,
              holds-insert name k f b.inbox,
              holds-found name k f b.processing e,
            )
    ]
move-Kept in_inbox in_inbox name b r k h = elim r [ ]
move-Kept in_processing in_processing name b r k h = elim r [ ]
move-Kept in_processing in_corrupt name b r k h = elim r [ ]
move-Kept in_archive dest name b r k h = elim r [ ]
move-Kept in_corrupt dest name b r k h = elim r [ ]

-- What a move leaves alone.
module _ (name : String) (b : Box) where
  pub move-claims : (src dest : Place) → IsRoute src dest → (move name src dest b).claims ≡ b.claims
  unfolding move
  move-claims in_inbox in_processing claimed = elim (Option-cases (lookup name b.inbox)) [
    | inl e ↦ rw (move, e) refl
    | inr (f, e) ↦ rw (move, e) refl
  ]
  move-claims in_inbox in_corrupt rejected = elim (Option-cases (lookup name b.inbox)) [
    | inl e ↦ rw (move, e) refl
    | inr (f, e) ↦ rw (move, e) refl
  ]
  move-claims in_inbox in_archive skipped = elim (Option-cases (lookup name b.inbox)) [
    | inl e ↦ rw (move, e) refl
    | inr (f, e) ↦ rw (move, e) refl
  ]
  move-claims in_processing in_archive finished = elim (Option-cases (lookup name b.processing)) [
    | inl e ↦ rw (move, e) refl
    | inr (f, e) ↦ rw (move, e) refl
  ]
  move-claims in_processing in_inbox put_back = elim (Option-cases (lookup name b.processing)) [
    | inl e ↦ rw (move, e) refl
    | inr (f, e) ↦ rw (move, e) refl
  ]
  move-claims in_inbox in_inbox r = elim r [ ]
  move-claims in_processing in_processing r = elim r [ ]
  move-claims in_processing in_corrupt r = elim r [ ]
  move-claims in_archive dest r = elim r [ ]
  move-claims in_corrupt dest r = elim r [ ]

  -- Other names stay where they are.
  abbrev pub SameAt : String → Box → Type 0
  SameAt k b' =
      (lookup k b'.inbox ≡ lookup k b.inbox) × (lookup k b'.processing ≡ lookup k b.processing)

  pub move_other :
      (src dest : Place) (k : String)
      → IsRoute src dest
      → (name == k) ≡ false
      → SameAt k (move name src dest b)
  unfolding move
  move_other in_inbox in_processing k claimed h = elim (Option-cases (lookup name b.inbox)) [
    | inl e ↦ rw (move, e) (refl, refl)
    | inr (f, e) ↦
        rw (move, e) ground
          (arith, h, lookup-remove name k b.inbox, lookup-insert name k f b.processing)
  ]
  move_other in_inbox in_corrupt k rejected h = elim (Option-cases (lookup name b.inbox)) [
    | inl e ↦ rw (move, e) (refl, refl)
    | inr (f, e) ↦ rw (move, e) ground (arith, h, lookup-remove name k b.inbox)
  ]
  move_other in_inbox in_archive k skipped h = elim (Option-cases (lookup name b.inbox)) [
    | inl e ↦ rw (move, e) (refl, refl)
    | inr (f, e) ↦ rw (move, e) ground (arith, h, lookup-remove name k b.inbox)
  ]
  move_other in_processing in_archive k finished h =
      elim (Option-cases (lookup name b.processing)) [
        | inl e ↦ rw (move, e) (refl, refl)
        | inr (f, e) ↦ rw (move, e) ground (arith, h, lookup-remove name k b.processing)
      ]
  move_other in_processing in_inbox k put_back h = elim (Option-cases (lookup name b.processing)) [
    | inl e ↦ rw (move, e) (refl, refl)
    | inr (f, e) ↦
        rw (move, e) ground
          (arith, h, lookup-insert name k f b.inbox, lookup-remove name k b.processing)
  ]
  move_other in_inbox in_inbox k r h = elim r [ ]
  move_other in_processing in_processing k r h = elim r [ ]
  move_other in_processing in_corrupt k r h = elim r [ ]
  move_other in_archive dest k r h = elim r [ ]
  move_other in_corrupt dest k r h = elim r [ ]

-- A file that is not there is not moved.
pub move_absent :
    (name : String) (src dest : Place) (b : Box)
    → lookup name (folder src b) ≡ none
    → move name src dest b ≡ b
unfolding move
move_absent name src dest b e = rw (move, e) refl
