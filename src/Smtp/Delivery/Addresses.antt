-- ===== src/Smtp/Delivery/Addresses.antt =====
-- Which recipients of a delivery job of internal/smtp/queue.go a copy stands for.
use elec_postal.Base.{
  ◌≡◌, ◌≢◌, ◌⊎◌, ◌↔◌, inl, inr, refl, true, ◌&&◌, List, [], ◌∷◌, arith, Bool-cases, Any,
}
use elec_postal.Text.{Text, text_eq, text_eq_iff}
use elec_postal.Smtp.Delivery.{Recipient, is_dmarc_recipient, delivered_to, dmarc_intake}

-- The texts are the addresses of the recipients with this mailbox, in their order.
abbrev pub IsPicked : Text → List Recipient → List Text → Type 0
IsPicked mailbox [] l = l ≡ []
IsPicked mailbox (r ∷ rs) l =
    ((r.mailbox_id ≡ mailbox)
      × ((later : List Text) × (l ≡ r.address ∷ later) × IsPicked mailbox rs later))
    ⊎ ((r.mailbox_id ≢ mailbox) × IsPicked mailbox rs l)

-- One of the recipients with this mailbox has a DMARC intake address.
abbrev pub HasIntake : Text → List Recipient → Type 0
HasIntake mailbox rs =
    Any (λ (r : Recipient). (r.mailbox_id ≡ mailbox) × (is_dmarc_recipient r.address ≡ true)) rs

pub delivered_to-IsPicked :
    (mailbox : Text) (rs : List Recipient) → IsPicked mailbox rs (delivered_to mailbox rs)
unfolding delivered_to
delivered_to-IsPicked mailbox [] = refl
delivered_to-IsPicked mailbox (r ∷ rs) =
    let same_iff = text_eq_iff r.mailbox_id mailbox in
    elim (Bool-cases (text_eq r.mailbox_id mailbox)) [
      | inl e ↦
          inl (same_iff.0 e, (delivered_to mailbox rs, rw e refl, delivered_to-IsPicked mailbox rs))
      | inr e ↦ inr ((λ h. cc (e, same_iff.1 h)), rw e (delivered_to-IsPicked mailbox rs))
    ]

pub dmarc_intake_iff :
    (mailbox : Text) (rs : List Recipient) → (dmarc_intake mailbox rs ≡ true) ↔ HasIntake mailbox rs
unfolding dmarc_intake
dmarc_intake_iff mailbox [] = ((λ h. cc h), (λ h. elim h [ ]))
dmarc_intake_iff mailbox (r ∷ rs) =
    let same_iff = text_eq_iff r.mailbox_id mailbox in
    elim (Bool-cases (text_eq r.mailbox_id mailbox && is_dmarc_recipient r.address)) [
      | inl e ↦
          ((λ h. inl (same_iff.0 (ground (arith, e)), ground (arith, e))), (λ h. ground (arith, e)))
      | inr e ↦ (
        (λ h. inr ((dmarc_intake_iff mailbox rs).0 (ground (arith, e, h)))),
        (λ h. elim h [
          | inl (same, asks) ↦ absurd (ground (arith, e, same_iff.1 same, asks))
          | inr later ↦ ground (arith, e, (dmarc_intake_iff mailbox rs).1 later)
        ]),
      )
    ]
