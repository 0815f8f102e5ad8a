-- ===== src/SenderAuth/Dkim/Sound.antt =====
-- Which DKIM results mean that a signature was verified, in internal/senderauth/dkim.go.
use elec_postal.Base.{
  ◌≡◌, ◌⊎◌, inl, inr, refl, sym, true, Option, none, some, List, [], ◌∷◌, arith, Bool-cases,
}
use elec_postal.Text.{Text, codes, text_eq_iff, text_eq_refl, member}
use elec_postal.SenderAuth.State.{pass, Env}
use elec_postal.SenderAuth.Dkim.Canonical.{Header, header_values}
use elec_postal.SenderAuth.Dkim.Parse.{Signature, parse_dkim_signature, supported_hash}
use elec_postal.SenderAuth.Dkim.Keys.{
  Key, Crypto, KeyAnswer, found, dns_error, missing, verify_signature,
}
use elec_postal.SenderAuth.Dkim.{
  Outcome, valid, dns_fail, verify_fail, skipped, Tally, note, aggregate, body_digest,
  header_digest, check_value, check_body, check_key, dkim_key, check_parsed, check_signature,
  verify_loop, verify_dkim, no_tally, verify_values,
}

aggregate-pass :
    (t : Tally) (d : Text) → aggregate t ≡ (pass, d) → (t.some_valid ≡ true) × (t.last_valid ≡ d)
unfolding aggregate
aggregate-pass t d h = ground arith

module _ {K : Type 0} (lib : Crypto K) (header : Header) (body : Text) where
  -- The body hash and the signature of a parsed header are right for a key.
  abbrev pub IsSigned : Signature → Key → Type 0
  IsSigned sig key =
      (lib.decode_base64 sig.body_hash ≡ some (body_digest lib header body sig))
      × ((bytes : Text) × (lib.decode_base64 sig.signature ≡ some bytes)
          × (verify_signature lib key sig.algo (header_digest lib header body sig) bytes ≡ true))

  check_value-valid :
      (sig : Signature) (key : Key) (o : Option Text) (d : Text)
      → check_value lib header body sig key o ≡ valid d
      → (sig.domain ≡ d)
        × ((bytes : Text) × (o ≡ some bytes)
            × (verify_signature lib key sig.algo (header_digest lib header body sig) bytes ≡ true))
  unfolding check_value
  check_value-valid sig key none d h = absurd (cc h)
  check_value-valid sig key (some bytes) d h =
      elim (Bool-cases
        (verify_signature lib key sig.algo (header_digest lib header body sig) bytes)) [
          | inl e ↦ (ground (arith, e, h), (bytes, refl, e))
          | inr e ↦ absurd (ground (arith, e, h))
        ]

  check_body-valid :
      (sig : Signature) (key : Key) (o : Option Text) (d : Text)
      → check_body lib header body sig key o ≡ valid d
      → lib.decode_base64 sig.body_hash ≡ o
      → (sig.domain ≡ d) × IsSigned sig key
  unfolding check_body
  check_body-valid sig key none d h e = absurd (cc h)
  check_body-valid sig key (some wanted) d h e = ground (
    arith,
    check_value-valid sig key (lib.decode_base64 sig.signature) d,
    text_eq_iff (body_digest lib header body sig) wanted,
  )

  check_key-valid :
      (sig : Signature) (answer : KeyAnswer) (d : Text)
      → check_key lib header body sig answer ≡ valid d
      → (sig.domain ≡ d) × ((key : Key) × (answer ≡ found key) × IsSigned sig key)
  unfolding check_key
  check_key-valid sig (found key) d h =
      let (same, signed) = check_body-valid sig key (lib.decode_base64 sig.body_hash) d h refl in
      (same, (key, refl, signed))
  check_key-valid sig dns_error d h = absurd (cc h)
  check_key-valid sig missing d h = absurd (cc h)

  module _ {W : Type 0} (env : Env W) where
    -- What a signature header has to be for a pass with this domain: its signature is right for a key
    -- that a lookup found for its selector and the domain.
    abbrev pub Verifies : Text → Text → Type 0
    Verifies value domain =
        (sig : Signature) × (parse_dkim_signature value ≡ some sig)
        × (sig.domain ≡ domain)
        × (supported_hash sig.algo ≡ true)
        × ((key : Key) × (w : W) × ((dkim_key lib header body env sig.selector sig.domain w).0
              ≡ found key)
            × IsSigned sig key)

    check_parsed-valid :
        (value : Text) (o : Option Signature) (d : Text) (w : W)
        → parse_dkim_signature value ≡ o
        → (check_parsed lib header body env o w).0 ≡ valid d
        → Verifies value d
    unfolding check_parsed
    check_parsed-valid value none d w e h = absurd (cc h)
    check_parsed-valid value (some sig) d w e h = elim (Bool-cases (supported_hash sig.algo)) [
      | inl s ↦
          let answer = (dkim_key lib header body env sig.selector sig.domain w).0 in
          let (same, (key, found_key, signed)) =
            check_key-valid sig answer d (ground (arith, s, h)) in
          (sig, e, same, s, (key, w, found_key, signed))
      | inr s ↦ absurd (ground (arith, s, h))
    ]

    check_signature-valid :
        (value : Text) (d : Text) (w : W)
        → (check_signature lib header body env value w).0 ≡ valid d
        → Verifies value d
    unfolding check_signature
    check_signature-valid value d w h =
        check_parsed-valid value (parse_dkim_signature value) d w refl h

    -- where a valid signature of the tally comes from
    abbrev Source : List Text → Tally → Tally → Type 0
    Source vs old new =
        (old.some_valid ≡ true) × (new.last_valid ≡ old.last_valid)
        ⊎ ((value : Text) × (member value vs ≡ true) × Verifies value new.last_valid)

    note-Source :
        (value : Text) (vs : List Text) (t new : Tally) (o : Outcome)
        → ((d : Text) → o ≡ valid d → Verifies value d)
        → Source vs (note t o) new
        → Source (value ∷ vs) t new
    unfolding member
    note-Source value vs t new o h (inr (v, here, verified)) =
        inr (v, ground (arith, here), verified)
    note-Source value vs t new (valid d) h (inl (some_valid, same)) =
        inr (value, ground (arith, text_eq_refl value), rw same (h d refl))
    note-Source value vs t new dns_fail h (inl old) = inl old
    note-Source value vs t new verify_fail h (inl old) = inl old
    note-Source value vs t new skipped h (inl old) = inl old

    verify_loop-Source :
        (vs : List Text) (t : Tally) (w : W)
        → (verify_loop lib header body env vs t w).0.some_valid ≡ true
        → Source vs t (verify_loop lib header body env vs t w).0
    unfolding verify_loop
    verify_loop-Source [] t w h = inl (h, refl)
    verify_loop-Source (value ∷ vs) t w h = elim (Bool-cases (env.expired w).0) [
      | inl e ↦ inl (ground (arith, e, h))
      | inr e ↦
          let (o, w') = check_signature lib header body env value (env.expired w).1 in
          rw (e, verify_loop)
            (note-Source value vs t (verify_loop lib header body env vs (note t o) w').0 o
              (λ d eq. check_signature-valid value d (env.expired w).1 eq)
              (verify_loop-Source vs (note t o) w' (ground (arith, e, h))))
    ]

    verify_values_sound :
        (vs : List Text) (d : Text) (w : W)
        → (verify_values lib header body env vs w).0 ≡ (pass, d)
        → (value : Text) × (member value vs ≡ true) × Verifies value d
    verify_values_sound [] d w h = absurd (cc h)
    verify_values_sound (value ∷ vs) d w h =
        let t = (verify_loop lib header body env (value ∷ vs) no_tally w).0 in
        let (some_valid, same) = aggregate-pass t d h in
        elim (verify_loop-Source (value ∷ vs) no_tally w some_valid) [
          | inl old ↦ absurd (cc old.0)
          | inr (v, here, verified) ↦ (v, here, rw (sym same) verified)
        ]

    -- verifyDKIM returns pass for a domain only if one of the DKIM-Signature headers names that
    -- domain, a lookup found a key for its selector and domain, and with that key its body hash and
    -- its signature are right.
    pub verify_dkim_sound :
        (d : Text) (w : W)
        → (verify_dkim lib header body env w).0 ≡ (pass, d)
        → (value : Text) × (member value (header_values header (codes "DKIM-Signature")) ≡ true)
          × Verifies value d
    unfolding verify_dkim
    verify_dkim_sound d w h =
        verify_values_sound (header_values header (codes "DKIM-Signature")) d w h
