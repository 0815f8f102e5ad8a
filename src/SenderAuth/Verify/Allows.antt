-- ===== src/SenderAuth/Verify/Allows.antt =====
-- What the allow of a whole `Verify` rests on.
use elec_postal.Base.{
  ◌≡◌, ◌≢◌, ◌⊎◌, inl, inr, refl, ◌∙◌, true, Option, none, some, List, [], ◌∷◌, ◌++◌, arith,
  Bool-cases,
}
use elec_postal.Text.{Text, codes, member}
use elec_postal.SenderAuth.State.{Verdict, pass, allow, records, Env}
use elec_postal.SenderAuth.Address.{domain_of}
use elec_postal.SenderAuth.Dmarc.Alignment.{Aligned, normal}
use elec_postal.SenderAuth.Dmarc.Policy.{Publishes, Authenticated, verify_dmarc-allow_iff}
use elec_postal.SenderAuth.Dmarc.{verify_dmarc, dmarc_record, parse_dmarc, Tags}
use elec_postal.SenderAuth.Dkim.Canonical.{Header, header_values}
use elec_postal.SenderAuth.Dkim.Keys.{Crypto}
use elec_postal.SenderAuth.Dkim.Sound.{Verifies, verify_dkim_sound}
use elec_postal.SenderAuth.Verify.{
  MailLibrary, from_domain_of, host_only, spf_stage, dkim_stage, dmarc_stage, verify,
}

verify_dmarc-named :
    (from_domain envelope_domain : Text) (spf dkim : Verdict) (dkim_d : Text) {W : Type 0}
    (env : Env W) (w : W)
    → (verify_dmarc from_domain envelope_domain spf dkim dkim_d env w).0 ≡ allow
    → from_domain ≢ []
unfolding verify_dmarc
verify_dmarc-named [] envelope_domain spf dkim dkim_d env w h = absurd (cc h)
verify_dmarc-named (c ∷ d) envelope_domain spf dkim dkim_d env w h = λ e. cc e

module _ (mail : MailLibrary) {K W : Type 0} (lib : Crypto K) (env : Env W) where
  -- SPF passed for the domain of the envelope sender, or a DKIM-Signature header verifies, and the
  -- domain is aligned with the From domain of the message.
  abbrev pub Authenticates : Text → Verdict → Header → Text → Tags → Type 0
  Authenticates envelope_from spf header body tags =
      ((spf ≡ pass)
        × Aligned (normal (domain_of envelope_from)) (normal (from_domain_of mail header))
            tags.aspf)
      ⊎ ((d : Text) × (value : Text) × (member value (header_values header (codes "DKIM-Signature"))
            ≡ true)
          × Verifies lib header body env value d
          × Aligned (normal d) (normal (from_domain_of mail header)) tags.adkim)

  -- What an allow says: the message could be read, its From domain publishes a policy, and one of
  -- the two methods authenticates it for that domain.
  abbrev pub Justified : Text → Text → Verdict → Type 0
  Justified raw envelope_from spf =
      (header : Header) × (body : Text) × (mail.parse_message raw ≡ some (header, body))
      × ((rs : List Text) × (w : W) × ((env.lookup_txt
              (codes "_dmarc." ++ from_domain_of mail header) w).0
            ≡ records rs)
          × Publishes rs
          × Authenticates envelope_from spf header body (parse_dmarc (dmarc_record rs)))

  dkim_stage_sound :
      (header : Header) (body d : Text) (w : W)
      → (dkim_stage mail lib env (some (header, body)) w).0 ≡ (pass, d)
      → (value : Text) × (member value (header_values header (codes "DKIM-Signature")) ≡ true)
        × Verifies lib header body env value d
  unfolding dkim_stage
  dkim_stage_sound header body d w h = elim (Bool-cases (env.expired w).0) [
    | inl e ↦ absurd (ground (arith, e, h))
    | inr e ↦ verify_dkim_sound lib header body env d (env.expired w).1 (ground (arith, e, h))
  ]

  authenticates :
      (header : Header) (body envelope_from : Text) (spf v : Verdict) (d : Text) (before : W)
      (tags : Tags)
      → (dkim_stage mail lib env (some (header, body)) before).0 ≡ (v, d)
      → Authenticated (from_domain_of mail header) (domain_of envelope_from) spf v d tags
      → Authenticates envelope_from spf header body tags
  authenticates header body envelope_from spf v d before tags e (inl by_spf) = inl by_spf
  authenticates header body envelope_from spf v d before tags e (inr (passes, near)) =
      let (value, here, verified) = dkim_stage_sound header body d before (e ∙ rw passes refl) in
      inr (d, value, here, verified, near)

  dmarc-allow :
      (header : Header) (body envelope_from : Text) (spf v : Verdict) (d : Text) (before w : W)
      → (dkim_stage mail lib env (some (header, body)) before).0 ≡ (v, d)
      → (verify_dmarc (from_domain_of mail header) (domain_of envelope_from) spf v d env w).0
        ≡ allow
      → (rs : List Text) × (u : W) × ((env.lookup_txt
            (codes "_dmarc." ++ from_domain_of mail header)
            u).0
          ≡ records rs)
        × Publishes rs
        × Authenticates envelope_from spf header body (parse_dmarc (dmarc_record rs))
  dmarc-allow header body envelope_from spf v d before w e h =
      let from = from_domain_of mail header in
      let named = verify_dmarc-named from (domain_of envelope_from) spf v d env w h in
      let (rs, answer, published, auth) =
        (verify_dmarc-allow_iff from (domain_of envelope_from) spf v d env w named).0 h in
      (
        rs,
        w,
        answer,
        published,
        authenticates header body envelope_from spf v d before (parse_dmarc (dmarc_record rs)) e
            auth,
      )

  dmarc_stage-allow :
      (raw envelope_from : Text) (spf : Verdict) (v : Verdict × Text)
      (message : Option (Header × Text)) (before w : W)
      → mail.parse_message raw ≡ message
      → (dkim_stage mail lib env message before).0 ≡ v
      → (dmarc_stage mail lib env envelope_from spf v message w).0 ≡ allow
      → Justified raw envelope_from spf
  unfolding dmarc_stage
  dmarc_stage-allow raw envelope_from spf v none before w parsed e h =
      elim (Bool-cases (env.expired w).0) [
        | inl late ↦ absurd (ground (arith, late, h))
        | inr live ↦ absurd (ground (arith, live, h))
      ]
  dmarc_stage-allow raw envelope_from spf (v, d) (some (header, body)) before w parsed e h =
      elim (Bool-cases (env.expired w).0) [
        | inl late ↦ absurd (ground (arith, late, h))
        | inr live ↦ (
          header,
          body,
          parsed,
          dmarc-allow header body envelope_from spf v d before (env.expired w).1 e
              (ground (arith, live, h)),
        )
      ]

  -- Whatever the lookups answer, Verify reports allow only for a message that it could read, whose
  -- From domain publishes a policy, and for which SPF passed with an aligned domain, or the body
  -- hash and signature of a DKIM-Signature header with an aligned domain were right for a published
  -- key.
  pub verify-allow :
      (raw envelope_from peer_ip : Text) (w : W)
      → let result = (verify mail lib env raw envelope_from peer_ip w).0 in
        result.dmarc ≡ allow → Justified raw envelope_from result.spf
  unfolding verify
  verify-allow raw envelope_from peer_ip w h =
      let (spf, w1) = spf_stage mail lib env envelope_from (host_only mail peer_ip) w in
      let (dkim, w2) = dkim_stage mail lib env (mail.parse_message raw) w1 in
      dmarc_stage-allow raw envelope_from spf dkim (mail.parse_message raw) w1 w2 refl refl h
