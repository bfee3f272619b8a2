-- ===== src/Mailbox/Validate/Accepted.antt =====
-- What a message holds that `validate_message` accepts, and that it can be read back.
use aimeshchat.Base.{
  String, true, false, Option, some, [], ◌∷◌, ◌++◌, ◌≡◌, refl, All, Result, ok, err,
}
use aimeshchat.Base.Table.{lookup}
use aimeshchat.Mailbox.Dicts.{Dict}
use aimeshchat.Mailbox.Validate.{
  Checks, Refusal, first_failure, checks, validate_message, then_attachments, type_checks,
  version_checks, kind_checks, receipt_checks, address_checks, component_checks, attachments_check,
}

module _ {E : Type 0} where
  -- Every test of a list is passed.
  abbrev pub Passed : Checks E → Type 0
  Passed cs = All (λ (passes, e). passes ≡ true) cs

  pub first_failure-Passed : (cs : Checks E) → first_failure cs ≡ ok tt → Passed cs
  unfolding first_failure
  first_failure-Passed [] h = tt
  first_failure-Passed ((true, e) ∷ cs) h = (refl, first_failure-Passed cs h)
  first_failure-Passed ((false, e) ∷ cs) h = cc

  Passed-append : (cs ds : Checks E) → Passed (cs ++ ds) → Passed cs × Passed ds
  Passed-append [] ds h = (tt, h)
  Passed-append (c ∷ cs) ds h =
      let r : Passed cs × Passed ds = Passed-append cs ds h.1 in ((h.0, r.0), r.1)

-- The groups of tests that an accepted dict has passed.
pub record Accepted (d : Dict) (session agent stem : Option String) : Type 0 where
  pub types : Passed (type_checks d)
  pub versions : Passed (version_checks d)
  pub kinds : Passed (kind_checks d)
  pub receipts : Passed (receipt_checks d)
  pub addresses : Passed (address_checks d session agent stem)
  pub components : Passed (component_checks d)
  pub attachments : attachments_check (lookup "attachments" d) ≡ ok tt

then_attachments-ok :
    (d : Dict) (r : Result Refusal (Unit {0}))
    → then_attachments d r ≡ ok tt
    → (r ≡ ok tt) × (attachments_check (lookup "attachments" d) ≡ ok tt)
unfolding then_attachments
then_attachments-ok d (ok tt) h = (refl, h)
then_attachments-ok d (err e) h = cc

module _ (d : Dict) (session agent stem : Option String) where
  pub validate_message-Accepted :
      validate_message (some d) session agent stem ≡ ok tt → Accepted d session agent stem
  unfolding validate_message
  validate_message-Accepted h =
      let s : (first_failure (checks d session agent stem) ≡ ok tt)
          × (attachments_check (lookup "attachments" d) ≡ ok tt) =
        then_attachments-ok d (first_failure (checks d session agent stem)) h in
      let p = first_failure-Passed (checks d session agent stem) s.0 in
      let a = Passed-append (type_checks d) _ p in
      let b = Passed-append (version_checks d) _ a.1 in
      let c = Passed-append (kind_checks d) _ b.1 in
      let e = Passed-append (receipt_checks d) _ c.1 in
      let f = Passed-append (address_checks d session agent stem) _ e.1 in
      record {
        types = a.0;
        versions = b.0;
        kinds = c.0;
        receipts = e.0;
        addresses = f.0;
        components = f.1;
        attachments = s.1;
      }
