-- ===== src/Mailbox/Validate/Safety.antt =====
-- Receipts that validation accepts, and the request ledger on accepted messages.
use aimeshchat.Base.{
  ℕ, String, Bool, true, false, ◌||◌, Option, none, some, ◌==◌, ◌≡◌, refl, ok, arith, eq_iff,
  Bool-cases, inl, inr, Result, if◌then◌else◌,
}
use aimeshchat.Base.Table.{lookup, Table}
use aimeshchat.Mailbox.Protocol.{Message, path_component_ok}
use aimeshchat.Mailbox.Dicts.{Dict, from_dict}
use aimeshchat.Mailbox.Validate.{
  validate_message, demands_ack, is_component, text_at, receipt_checks, component_checks, is_blank,
}
use aimeshchat.Mailbox.Validate.Accepted.{validate_message-Accepted}
use aimeshchat.Mailbox.Validate.Readable.{
  IsComponent, Returns, AreTexts, validate_message-from_dict,
}
use aimeshchat.Mailbox.Ledger.{
  has_running, Ledger, apply_message, apply_kind, record_event, noting, guarded, apply_progress,
  get_terminal,
}

-- A RECEIPT that is accepted never asks for a receipt, says READ, and names the message that it
-- acknowledges by a safe component that is not blank: receipts cannot loop.
pub validate_message-receipt :
    (d : Dict) (session agent stem : Option String)
    → validate_message (some d) session agent stem ≡ ok tt
    → text_at "kind" d ≡ "RECEIPT"
    → (demands_ack (lookup "require_ack" d) ≡ false)
      × (text_at "receipt_type" d ≡ "READ")
      × (is_blank (text_at "reply_to" d) ≡ false)
      × (is_component (lookup "reply_to" d) ≡ true)
unfolding receipt_checks component_checks
validate_message-receipt d session agent stem h k =
    let a = validate_message-Accepted d session agent stem h in
    let r = a.receipts in
    let c = a.components.1.1.1.1.1.0 in
    ground (
      arith,
      k,
      eq_iff (text_at "kind" d) "RECEIPT",
      eq_iff (text_at "receipt_type" d) "READ",
      r.0,
      r.1.0,
      r.1.1.0,
      c,
    )

Returns-if {ℓ} :
    {E : Type 0} {A : Type ℓ} {a b : Result E A} (t : Bool)
    → Returns a
    → Returns b
    → Returns (if t then a else b)
Returns-if true h k = h
Returns-if false h k = k

module _ (now : ℕ) (l : Ledger) (m : Message) (h : path_component_ok m.request_id ≡ true) where
  recorded :
      (name event : String) (meta : Table String)
      → Returns (noting name (record_event now l m.request_id m.run_id event meta))
  unfolding record_event noting
  recorded name event meta = rw h (_, refl)

  progressed : (o : Option String) → Returns (apply_progress now l m o)
  unfolding apply_progress
  progressed none =
      Returns-if (has_running l m.request_id m.run_id) ((l, ""), refl) (recorded _ _ _)
  progressed (some e) = ((l, ""), refl)

  guarded-progress :
      Returns (guarded m.request_id (apply_progress now l m (get_terminal l m.request_id m.run_id)))
  unfolding guarded
  guarded-progress = rw h (progressed (get_terminal l m.request_id m.run_id))

  apply_kind-Returns : Returns (apply_kind now l m)
  unfolding apply_kind
  apply_kind-Returns =
      Returns-if (m.kind == "RECEIPT")
        (Returns-if (m.receipt_type == "READ") (recorded _ _ _) ((l, ""), refl))
        (Returns-if (m.kind == "TASK" || m.kind == "INIT") (recorded _ _ _) (
          Returns-if (m.kind == "PROGRESS") guarded-progress (
            Returns-if (m.kind == "REPORT") (recorded _ _ _)
              (Returns-if (m.kind == "NOTICE") (recorded _ _ _) ((l, ""), refl)))))

apply_message-Returns :
    (now : ℕ) (l : Ledger) (m : Message)
    → IsComponent m.request_id
    → Returns (apply_message now l m)
unfolding apply_message
apply_message-Returns now l m h = elim (Bool-cases (m.request_id == "")) [
  | inl e ↦ rw e ((l, ""), refl)
  | inr e ↦
      let p : path_component_ok m.request_id ≡ true = ground (arith, e, h) in
      Returns-if (m.request_id == "" || m.run_id == "") ((l, ""), refl)
        (apply_kind-Returns now l m p)
]

-- The ledger takes every message that `validate_message` accepts, if its optional ids are texts:
-- `from_dict` reads the dict, and `apply_message` on what it reads raises nothing, at any time and
-- whatever the ledger holds.
pub validate_message-apply_message :
    (now : ℕ) (l : Ledger) (d : Dict) (session agent stem : Option String)
    → validate_message (some d) session agent stem ≡ ok tt
    → AreTexts d
    → (m : Message) × (from_dict d ≡ ok m) × Returns (apply_message now l m)
validate_message-apply_message now l d session agent stem h t =
    let m = validate_message-from_dict d session agent stem h t in
    (m.0, m.1, apply_message-Returns now l m.0 m.2)
