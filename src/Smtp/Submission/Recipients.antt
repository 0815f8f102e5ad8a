-- ===== src/Smtp/Submission/Recipients.antt =====
-- How a submission sorts its recipients.
use mathlib.Core.List.{Perm, perm_middle, perm-append_left_iff}
use mathlib.Core.List.Perm
use elec_postal.Base.{
  ◌≡◌, ◌↔◌, ap, ◌∙◌, inl, inr, refl, true, List, [], ◌∷◌, ◌++◌, arith, Bool-cases, if◌then◌else◌,
  All, Any,
}
use elec_postal.Text.{Text, text_eq, text_eq_iff, is_nil, to_lower, trim_space}
use elec_postal.Smtp.Delivery.{Recipient}
use elec_postal.Smtp.Submission.{Section, Sorted, named, put, classify_recipient, sort_recipients}

-- the recipients with a mailbox
pub with_mailbox : List Recipient → List Recipient
with_mailbox [] = []
with_mailbox (r ∷ rs) = let rest = with_mailbox rs in if is_nil r.mailbox_id then rest else r ∷ rest

-- the addresses of the others
pub without_mailbox : List Recipient → List Text
without_mailbox [] = []
without_mailbox (r ∷ rs) =
    let rest = without_mailbox rs in if is_nil r.mailbox_id then r.address ∷ rest else rest

abbrev pub all_of : Sorted → List Text
all_of s = s.to ++ (s.cc ++ s.bcc)

put-perm : (c : Section) (a : Text) (s : Sorted) → Perm (all_of (put c a s)) (a ∷ all_of s)
unfolding put
put-perm Section.to_list a s = Perm.refl _
put-perm Section.cc_list a s = perm_middle _ _
put-perm Section.bcc_list a s =
    Perm.trans ((perm-append_left_iff s.to).1 (perm_middle s.cc s.bcc))
      (perm_middle s.to (s.cc ++ s.bcc))

put-local : (c : Section) (a : Text) (s : Sorted) → (put c a s).local ≡ s.local
unfolding put
put-local Section.to_list a s = refl
put-local Section.cc_list a s = refl
put-local Section.bcc_list a s = refl

-- A submission delivers to exactly the recipients with a mailbox, in their order, and the message
-- for the relay names every other address as often as the envelope does, in one of To, Cc and Bcc.
pub sort_recipients-perm :
    (to cc : List (Text × Text)) (rs : List Recipient)
    → ((sort_recipients to cc rs).local ≡ with_mailbox rs)
      × Perm (all_of (sort_recipients to cc rs)) (without_mailbox rs)
unfolding sort_recipients with_mailbox without_mailbox
sort_recipients-perm to cc [] = (refl, Perm.refl [])
sort_recipients-perm to cc (r ∷ rs) =
    let (same, perm) = sort_recipients-perm to cc rs in
    let s = sort_recipients to cc rs in
    elim (Bool-cases (is_nil r.mailbox_id)) [
      | inl e ↦ rw e (
        put-local (classify_recipient r.address to cc) r.address s ∙ same,
        Perm.trans (put-perm (classify_recipient r.address to cc) r.address s)
            (Perm.cons r.address perm),
      )
      | inr e ↦ rw e (ap (λ l. r ∷ l) same, perm)
    ]

-- A header list names the address, up to case and the space around it.
abbrev pub IsNamed : Text → List (Text × Text) → Type 0
IsNamed address l = Any (λ h. to_lower (trim_space h.0) ≡ to_lower (trim_space address)) l

named_iff :
    (a : Text) (l : List (Text × Text)) → (named (to_lower (trim_space a)) l ≡ true) ↔ IsNamed a l
unfolding named
named_iff a [] = ((λ h. absurd (cc h)), (λ h. elim h [ ]))
named_iff a ((b, name) ∷ l) =
    let same_iff = text_eq_iff (to_lower (trim_space b)) (to_lower (trim_space a)) in
    elim (Bool-cases (text_eq (to_lower (trim_space b)) (to_lower (trim_space a)))) [
      | inl e ↦ ((λ h. inl (same_iff.0 e)), (λ h. ground (arith, e)))
      | inr e ↦ (
        (λ h. inr ((named_iff a l).0 (ground (arith, e, h)))),
        (λ h. elim h [
          | inl same ↦ absurd (cc (e, same_iff.1 same))
          | inr later ↦ ground (arith, e, (named_iff a l).1 later)
        ]),
      )
    ]

-- Every address stands where the headers name it, and in Bcc if they do not.
abbrev pub IsPlaced :
    List (Text × Text) → List (Text × Text) → List Text → List Text → List Text → Type 0
IsPlaced to cc in_to in_cc in_bcc =
    All (λ a. IsNamed a to) in_to
    × All (λ a. IsNamed a cc × ¬ IsNamed a to) in_cc
    × All (λ a. ¬ IsNamed a cc × ¬ IsNamed a to) in_bcc

put-IsPlaced :
    (to cc : List (Text × Text)) (a : Text) (s : Sorted)
    → IsPlaced to cc s.to s.cc s.bcc
    → let s' = put (classify_recipient a to cc) a s in IsPlaced to cc s'.to s'.cc s'.bcc
unfolding put classify_recipient
put-IsPlaced to copies a s (in_to, in_cc, in_bcc) =
    let to_iff = named_iff a to in
    let cc_iff = named_iff a copies in
    elim (Bool-cases (named (to_lower (trim_space a)) to)) [
      | inl e ↦ rw e ((to_iff.0 e, in_to), in_cc, in_bcc)
      | inr e ↦ elim (Bool-cases (named (to_lower (trim_space a)) copies)) [
        | inl q ↦ rw (e, q) (in_to, ((cc_iff.0 q, λ h. absurd (cc (e, to_iff.1 h))), in_cc), in_bcc)
        | inr q ↦
            rw (e, q)
              (
                in_to,
                in_cc,
                (((λ h. absurd (cc (q, cc_iff.1 h))), (λ h. absurd (cc (e, to_iff.1 h)))), in_bcc),
              )
      ]
    ]

pub sort_recipients-IsPlaced :
    (to cc : List (Text × Text)) (rs : List Recipient)
    → let s = sort_recipients to cc rs in IsPlaced to cc s.to s.cc s.bcc
unfolding sort_recipients
sort_recipients-IsPlaced to cc [] = (tt, tt, tt)
sort_recipients-IsPlaced to cc (r ∷ rs) =
    let placed = sort_recipients-IsPlaced to cc rs in
    elim (Bool-cases (is_nil r.mailbox_id)) [
      | inl e ↦ rw e (put-IsPlaced to cc r.address (sort_recipients to cc rs) placed)
      | inr e ↦ rw e placed
    ]
