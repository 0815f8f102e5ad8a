-- ===== src/Smtp/Delivery/Copies.antt =====
-- Which copies a run of `deliverJob` in internal/smtp/queue.go may leave, and whom they serve.
use mathlib.Core.List.{append_assoc}
use elec_postal.Base.{
  ◌≡◌, ◌≢◌, ◌⊎◌, ◌↔◌, inl, inr, sym, ◌∙◌, Bool, true, false, List, [], ◌∷◌, ◌++◌, arith, Bool-cases,
  All,
}
use elec_postal.Text.{Text, text_eq, text_eq_iff, nil-cases, member}
use elec_postal.Smtp.Delivery.{Recipient, Job, Received, skipped}
use elec_postal.Smtp.Delivery.Addresses.{IsPicked, HasIntake}

module _ {C A : Type 0} where
  -- The copy has the content of the job, all addresses of the job for its mailbox, and the intake
  -- flag that one of them asks for.
  pub record IsFor (job : Job C A) (d : Received C A) : Type 0 where
    pub addressed : d.mailbox_id ≢ []
    pub unchanged : d.content ≡ job.content
    pub addresses : IsPicked d.mailbox_id job.recipients d.delivered_to
    pub intake : (d.dmarc_intake ≡ true) ↔ HasIntake d.mailbox_id job.recipients

  -- The copies are for mailboxes that are not in `seen`, no two for the same.
  abbrev pub Fresh : List Text → List (Received C A) → Type 0
  Fresh seen [] = Unit
  Fresh seen (d ∷ ds) = (member d.mailbox_id seen ≡ false) × Fresh (d.mailbox_id ∷ seen) ds

  abbrev pub HasCopy : Text → List (Received C A) → Type 0
  HasCopy mailbox [] = ⊥
  HasCopy mailbox (d ∷ ds) = (d.mailbox_id ≡ mailbox) ⊎ HasCopy mailbox ds

  -- The mailbox is absent, was seen, or has a copy.
  abbrev pub Served : List Text → List (Received C A) → Recipient → Type 0
  Served seen new r =
      (r.mailbox_id ≡ []) ⊎ ((member r.mailbox_id seen ≡ true) ⊎ HasCopy r.mailbox_id new)

  Served-cons :
      (seen : List Text) (d : Received C A) (new : List (Received C A)) (r : Recipient)
      → Served (d.mailbox_id ∷ seen) new r
      → Served seen (d ∷ new) r
  unfolding member
  Served-cons seen d new r (inl h) = inl h
  Served-cons seen d new r (inr (inl h)) = elim (Bool-cases (text_eq r.mailbox_id d.mailbox_id)) [
    | inl e ↦ inr (inr (inl (sym ((text_eq_iff r.mailbox_id d.mailbox_id).0 e))))
    | inr e ↦ inr (inl (ground (arith, h, e)))
  ]
  Served-cons seen d new r (inr (inr h)) = inr (inr (inr h))

  All-Served-cons :
      (seen : List Text) (d : Received C A) (new : List (Received C A)) (rs : List Recipient)
      → All (Served (d.mailbox_id ∷ seen) new) rs
      → All (Served seen (d ∷ new)) rs
  All-Served-cons seen d new [] h = tt
  All-Served-cons seen d new (r ∷ rs) h =
      (Served-cons seen d new r h.0, All-Served-cons seen d new rs h.1)

  unseen :
      (new : List (Received C A)) (r : Recipient)
      → Served [] new r
      → (r.mailbox_id ≡ []) ⊎ HasCopy r.mailbox_id new
  unfolding member
  unseen new r (inl h) = inl h
  unseen new r (inr (inl h)) = cc h
  unseen new r (inr (inr h)) = inr h

  pub All-unseen :
      (new : List (Received C A)) (rs : List Recipient)
      → All (Served [] new) rs
      → All (λ (r : Recipient). (r.mailbox_id ≡ []) ⊎ HasCopy r.mailbox_id new) rs
  All-unseen new [] h = tt
  All-unseen new (r ∷ rs) h = (unseen new r h.0, All-unseen new rs h.1)

  -- What a loop has done: the copies that are new, and whom they serve if it ran to its end.
  pub record Outcome (job : Job C A) (seen : List Text) (rs : List Recipient)
      (old : List (Received C A)) (ok : Bool) (log : List (Received C A)) : Type 0 where
    pub new : List (Received C A)
    pub grows : log ≡ old ++ new
    pub right : All (IsFor job) new
    pub fresh : Fresh seen new
    pub served : ok ≡ true → All (Served seen new) rs

  -- a recipient that the loop passes over
  skipped-Served :
      (seen : List Text) (new : List (Received C A)) (r : Recipient)
      → skipped seen r ≡ true
      → Served seen new r
  skipped-Served seen new r e = elim (nil-cases r.mailbox_id) [
    | inl none_left ↦ inl none_left.0
    | inr not_nil ↦ inr (inl (ground (arith, e, not_nil.1)))
  ]

  pub Outcome-skip :
      (job : Job C A) (seen : List Text) (r : Recipient) (rs : List Recipient)
      (old : List (Received C A)) (ok : Bool) (log : List (Received C A))
      → skipped seen r ≡ true
      → Outcome job seen rs old ok log
      → Outcome job seen (r ∷ rs) old ok log
  Outcome-skip job seen r rs old ok log e o = record {
    new = o.new;
    grows = o.grows;
    right = o.right;
    fresh = o.fresh;
    served = λ h. (skipped-Served seen o.new r e, o.served h);
  }

  -- A loop goes on after the copy for its first recipient.
  pub Outcome-cons :
      (job : Job C A) (seen : List Text) (r : Recipient) (rs : List Recipient)
      (old : List (Received C A)) (ok : Bool) (log : List (Received C A)) (d : Received C A)
      → member d.mailbox_id seen ≡ false
      → d.mailbox_id ≡ r.mailbox_id
      → IsFor job d
      → Outcome job (d.mailbox_id ∷ seen) rs (old ++ d ∷ []) ok log
      → Outcome job seen (r ∷ rs) old ok log
  Outcome-cons job seen r rs old ok log d unseen same is_for o = record {
    new = d ∷ o.new;
    grows = o.grows ∙ append_assoc old (d ∷ []) o.new;
    right = (is_for, o.right);
    fresh = (unseen, o.fresh);
    served = λ h. (inr (inr (inl same)), All-Served-cons seen d o.new rs (o.served h));
  }
