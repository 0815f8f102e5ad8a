-- ===== src/SenderAuth/Dmarc/Policy.antt =====
-- When `verifyDMARC` of internal/senderauth/dmarc.go allows, and when it rejects.
use elec_postal.Base.{
  ◌≡◌, ◌≢◌, ◌↔◌, ◌⊎◌, inl, inr, refl, sym, ap, ◌∙◌, Bool, true, ◌&&◌, ◌||◌, Option, none, some,
  List, [], ◌∷◌, ◌++◌, arith, Bool-cases, Option-cases, if◌then◌else◌,
}
use elec_postal.Text.{Text, codes, trim_space, cut, split, nil-cases}
use elec_postal.SenderAuth.State.{
  Verdict, Disposition, allow, Answer, records, not_found, failed, Env,
}
use elec_postal.SenderAuth.Dmarc.Alignment.{Aligned, normal, aligned_domain_iff}
use elec_postal.SenderAuth.Dmarc.{
  Tags, no_tags, policy_of, set_tag, read_part, read_parts, parse_dmarc, dmarc_record,
  aligned_domain, is_aligned, passed, judge, verify_dmarc,
}

-- A policy is none, quarantine or reject.
abbrev NoAllow : Option Disposition → Type 0
NoAllow p = p ≢ some allow

policy_of-NoAllow : (val : Text) → NoAllow (policy_of val)
unfolding policy_of
policy_of-NoAllow val h = ground arith

set_tag-NoAllow :
    (tags : Tags) (tag val : Text) → NoAllow tags.policy → NoAllow (set_tag tags tag val).policy
unfolding set_tag
set_tag-NoAllow tags tag val h e = ground (arith, h, policy_of-NoAllow val)

read_part-NoAllow :
    (tags : Tags) (part : Text) → NoAllow tags.policy → NoAllow (read_part tags part).policy
unfolding read_part
read_part-NoAllow tags part h = elim (Option-cases (cut b'=' (trim_space part))) [
  | inl e ↦ rw e h
  | inr (parts, e) ↦ rw e (set_tag-NoAllow tags _ _ h)
]

read_parts-NoAllow :
    (tags : Tags) (parts : List Text) → NoAllow tags.policy → NoAllow (read_parts tags parts).policy
unfolding read_parts
read_parts-NoAllow tags [] h = h
read_parts-NoAllow tags (part ∷ parts) h =
    read_parts-NoAllow (read_part tags part) parts (read_part-NoAllow tags part h)

parse_dmarc-NoAllow : (r : Text) → NoAllow (parse_dmarc r).policy
unfolding parse_dmarc
parse_dmarc-NoAllow r = read_parts-NoAllow no_tags (split b';' r) (λ e. cc e)

-- SPF passed for a domain that is aligned with the From domain, or DKIM did.
abbrev pub Authenticated : Text → Text → Verdict → Verdict → Text → Tags → Type 0
Authenticated from_domain envelope_domain spf dkim dkim_d tags =
    ((spf ≡ Verdict.pass) × Aligned (normal envelope_domain) (normal from_domain) tags.aspf)
    ⊎ ((dkim ≡ Verdict.pass) × Aligned (normal dkim_d) (normal from_domain) tags.adkim)

or_iff : (a b : Bool) → ((a || b) ≡ true) ↔ ((a ≡ true) ⊎ (b ≡ true))
or_iff a b = ground arith

passed_iff : (v : Verdict) (b : Bool) → ((passed v && b) ≡ true) ↔ ((v ≡ Verdict.pass) × (b ≡ true))
passed_iff v b = ground arith

-- The records that the From domain publishes hold a DMARC record with a policy.
abbrev pub Publishes : List Text → Type 0
Publishes rs = (dmarc_record rs ≢ []) × ((parse_dmarc (dmarc_record rs)).policy ≢ none)

module _ (from_domain envelope_domain : Text) (spf dkim : Verdict) (dkim_d : Text) where
  is_aligned_iff :
      (tags : Tags)
      → (is_aligned from_domain envelope_domain spf dkim dkim_d tags ≡ true)
        ↔ Authenticated from_domain envelope_domain spf dkim dkim_d tags
  unfolding is_aligned
  is_aligned_iff tags =
      let a = aligned_domain_iff envelope_domain from_domain tags.aspf in
      let b = aligned_domain_iff dkim_d from_domain tags.adkim in
      let pa = passed_iff spf (aligned_domain envelope_domain from_domain tags.aspf) in
      let pb = passed_iff dkim (aligned_domain dkim_d from_domain tags.adkim) in
      let o =
        or_iff (passed spf && aligned_domain envelope_domain from_domain tags.aspf)
          (passed dkim && aligned_domain dkim_d from_domain tags.adkim) in
      (
        (λ h. elim (o.0 h) [
          | inl x ↦ inl ((pa.0 x).0, a.0 (pa.0 x).1)
          | inr x ↦ inr ((pb.0 x).0, b.0 (pb.0 x).1)
        ]),
        λ h. o.1 (elim h [ inl x ↦ inl (pa.1 (x.0, a.1 x.1)) | inr x ↦ inr (pb.1 (x.0, b.1 x.1)) ]),
      )

  -- a domain with a policy: what `aligned` makes of it
  judge-published :
      (rs : List Text) (p : Disposition)
      → dmarc_record rs ≢ []
      → (parse_dmarc (dmarc_record rs)).policy ≡ some p
      → judge from_domain envelope_domain spf dkim dkim_d (records rs) ≡ (
          if is_aligned from_domain envelope_domain spf dkim dkim_d (parse_dmarc (dmarc_record rs))
          then allow
          else p)
  unfolding judge
  judge-published rs p ne e = elim (nil-cases (dmarc_record rs)) [
    | inl (nil, t) ↦ absurd (ne nil)
    | inr (some_text, f) ↦ rw (f, e)
  ]

  judge-unpublished :
      (rs : List Text)
      → ¬ (Publishes rs)
      → judge from_domain envelope_domain spf dkim dkim_d (records rs) ≡ Disposition.none
  unfolding judge
  judge-unpublished rs h = elim (nil-cases (dmarc_record rs)) [
    | inl (nil, t) ↦ rw t
    | inr (some_text, f) ↦ rw f (elim (Option-cases (parse_dmarc (dmarc_record rs)).policy) [
      | inl e ↦ rw e
      | inr (p, e) ↦ absurd (h (some_text, λ x. cc (e, x)))
    ])
  ]

  published-cases :
      (rs : List Text)
      → ((p : Disposition) × (dmarc_record rs ≢ [])
          × ((parse_dmarc (dmarc_record rs)).policy ≡ some p))
        ⊎ (¬ (Publishes rs))
  published-cases rs = elim (nil-cases (dmarc_record rs)) [
    | inl (nil, t) ↦ inr (λ h. h.0 nil)
    | inr (some_text, f) ↦ elim (Option-cases (parse_dmarc (dmarc_record rs)).policy) [
      | inl e ↦ inr (λ h. h.1 e)
      | inr (p, e) ↦ inl (p, some_text, e)
    ]
  ]

  -- The lookup gave records with a policy, and the message is authenticated for the From domain.
  abbrev pub Allowed : Answer → Type 0
  Allowed answer =
      (rs : List Text) × (answer ≡ records rs)
      × Publishes rs
      × Authenticated from_domain envelope_domain spf dkim dkim_d (parse_dmarc (dmarc_record rs))

  -- The lookup gave records with this policy, and the message is not authenticated.
  abbrev pub Enforced : Disposition → Answer → Type 0
  Enforced p answer =
      (rs : List Text) × (answer ≡ records rs)
      × (dmarc_record rs ≢ [])
      × ((parse_dmarc (dmarc_record rs)).policy ≡ some p)
      × (¬ (
          Authenticated from_domain envelope_domain spf dkim dkim_d
            (parse_dmarc (dmarc_record rs))))

  allow-Allowed :
      (answer : Answer)
      → judge from_domain envelope_domain spf dkim dkim_d answer ≡ allow
      → Allowed answer
  unfolding judge
  allow-Allowed (records rs) e = elim (published-cases rs) [
    | inr h ↦ absurd (cc (e, judge-unpublished rs h))
    | inl (p, ne, q) ↦ (
      rs,
      refl,
      (ne, λ x. cc (q, x)),
      (is_aligned_iff (parse_dmarc (dmarc_record rs))).0
          (ground (arith, e, judge-published rs p ne q, q, parse_dmarc-NoAllow (dmarc_record rs))),
    )
  ]
  allow-Allowed not_found e = absurd (ground (arith, e))
  allow-Allowed failed e = absurd (ground (arith, e))

  Allowed-allow :
      (answer : Answer)
      → Allowed answer
      → judge from_domain envelope_domain spf dkim dkim_d answer ≡ allow
  Allowed-allow answer (rs, e, h, auth) = elim (published-cases rs) [
    | inr n ↦ absurd (n h)
    | inl (p, ne, q) ↦
        rw e
          (judge-published rs p ne q ∙ rw ((is_aligned_iff (parse_dmarc (dmarc_record rs))).1 auth))
  ]

  enforced :
      (answer : Answer) (p : Disposition)
      → p ≢ allow
      → p ≢ Disposition.none
      → judge from_domain envelope_domain spf dkim dkim_d answer ≡ p
      → Enforced p answer
  unfolding judge
  enforced (records rs) p na nn e = elim (published-cases rs) [
    | inr h ↦ absurd (nn (sym e ∙ judge-unpublished rs h))
    | inl (p', ne, q) ↦
        elim (Bool-cases (
          is_aligned from_domain envelope_domain spf dkim dkim_d (parse_dmarc (dmarc_record rs)))) [
            | inl yes' ↦ absurd (na (sym e ∙ judge-published rs p' ne q ∙ rw yes'))
            | inr no' ↦
                let same : p' ≡ p = sym (judge-published rs p' ne q ∙ rw no') ∙ e in
                (
                  rs,
                  refl,
                  ne,
                  q ∙ ap some same,
                  λ auth. cc (no', (is_aligned_iff (parse_dmarc (dmarc_record rs))).1 auth),
                )
          ]
  ]
  enforced not_found p na nn e = absurd (nn (sym e))
  enforced failed p na nn e = absurd (nn (sym e))

  Enforced-judge :
      (answer : Answer) (p : Disposition)
      → Enforced p answer
      → judge from_domain envelope_domain spf dkim dkim_d answer ≡ p
  Enforced-judge answer p (rs, e, ne, q, un) = rw e (
      judge-published rs p ne q
      ∙ (elim (Bool-cases (
          is_aligned from_domain envelope_domain spf dkim dkim_d (parse_dmarc (dmarc_record rs)))) [
            | inl yes' ↦ absurd (un ((is_aligned_iff (parse_dmarc (dmarc_record rs))).0 yes'))
            | inr no' ↦ rw no'
          ]))

  module _ {W : Type 0} (env : Env W) (w : W) (named : from_domain ≢ []) where
    -- what `_dmarc.` before the From domain resolves to
    abbrev pub answer_at : Answer
    answer_at = (env.lookup_txt (codes "_dmarc." ++ from_domain) w).0

    verify_dmarc-judge :
        (verify_dmarc from_domain envelope_domain spf dkim dkim_d env w).0
        ≡ judge from_domain envelope_domain spf dkim dkim_d answer_at
    unfolding verify_dmarc
    verify_dmarc-judge = elim (nil-cases from_domain) [
      | inl (nil, t) ↦ absurd (named nil)
      | inr (ne, f) ↦ rw f
    ]

    -- For a From domain that is not empty, `verifyDMARC` returns allow exactly when its records
    -- hold a policy, and SPF or DKIM passed for a domain aligned with it.
    pub verify_dmarc-allow_iff :
        ((verify_dmarc from_domain envelope_domain spf dkim dkim_d env w).0 ≡ allow)
        ↔ Allowed answer_at
    verify_dmarc-allow_iff =
        rw verify_dmarc-judge (allow-Allowed answer_at, Allowed-allow answer_at)

    -- For a From domain that is not empty, `verifyDMARC` returns quarantine or reject exactly when
    -- this is the published policy, and neither SPF nor DKIM passed for an aligned domain.
    pub verify_dmarc-enforce_iff :
        (p : Disposition)
        → p ≢ allow
        → p ≢ Disposition.none
        → ((verify_dmarc from_domain envelope_domain spf dkim dkim_d env w).0 ≡ p)
          ↔ Enforced p answer_at
    verify_dmarc-enforce_iff p na nn =
        rw verify_dmarc-judge (enforced answer_at p na nn, Enforced-judge answer_at p)
