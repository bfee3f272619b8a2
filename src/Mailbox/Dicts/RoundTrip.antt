-- ===== src/Mailbox/Dicts/RoundTrip.antt =====
-- Reading a message back from its dict.
use aimeshchat.Base.{
  String, ◌≡◌, refl, true, false, none, List, [], ◌∷◌, map, ◌==◌, all, ok, arith, eq_iff,
}
use aimeshchat.Base.Table.{lookup}
use aimeshchat.Mailbox.Protocol.{Message, AttachmentRef}
use aimeshchat.Mailbox.Dicts.{
  object, Dict, ref_to_dict, ref_of, ref_from_dict, truth, optional, attached, to_dict, plain_of,
  text_or, refs_of, attachment_items, message_of, from_dict, item_keys_ok,
}

lookup-optional_same :
    (k v : String) (rest : Dict)
    → lookup k rest ≡ none
    → text_or "" (plain_of (lookup k (optional k v rest))) ≡ ok v
unfolding lookup optional
lookup-optional_same k v rest h = ground (arith, eq_iff v "", eq_iff k k)

lookup-optional_other :
    (k j v : String) (rest : Dict) → (j == k) ≡ false → lookup k (optional j v rest) ≡ lookup k rest
unfolding lookup optional
lookup-optional_other k j v rest h = ground (arith, eq_iff v "")

-- An attachment reference is read back from its dict.
pub ref_from_dict-ref_to_dict : (a : AttachmentRef) → ref_from_dict (ref_to_dict a) ≡ ok a
unfolding ref_from_dict ref_to_dict ref_of lookup all
ref_from_dict-ref_to_dict a = refl

lookup-attached :
    (k : String) (as_ : List AttachmentRef)
    → ("attachments" == k) ≡ false
    → lookup k (attached as_) ≡ none
unfolding lookup attached
lookup-attached k [] h = refl
lookup-attached k (a ∷ as_) h = rw h refl

ruleset lookups = (lookup-optional_other, lookup-attached, lookup-optional_same)

refs_of-map : (as_ : List AttachmentRef) → refs_of (map (λ r. object (ref_to_dict r)) as_) ≡ ok as_
unfolding refs_of
refs_of-map [] = refl
refs_of-map (a ∷ as_) = simp (ref_from_dict-ref_to_dict a, refs_of-map as_)

all-item_keys :
    (as_ : List AttachmentRef) → all item_keys_ok (map (λ r. object (ref_to_dict r)) as_) ≡ true
unfolding all ref_to_dict lookup
all-item_keys [] = refl
all-item_keys (a ∷ as_) = all-item_keys as_

attachment_items-attached :
    (as_ : List AttachmentRef)
    → attachment_items (lookup "attachments" (attached as_))
      ≡ ok (map (λ r. object (ref_to_dict r)) as_)
unfolding attachment_items attached lookup
attachment_items-attached [] = refl
attachment_items-attached (a ∷ as_) = rw (all-item_keys (a ∷ as_)) refl

-- A message is read back from the dict that it is written as, whichever of its optional fields are
-- empty and left out.
pub from_dict-to_dict : (m : Message) → from_dict (to_dict m) ≡ ok m
unfolding from_dict message_of to_dict lookup all truth
from_dict-to_dict m =
    simp (lookups, attachment_items-attached m.attachments, refs_of-map m.attachments)
