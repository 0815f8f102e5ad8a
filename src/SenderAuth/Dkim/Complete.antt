-- ===== src/SenderAuth/Dkim/Complete.antt =====
-- When one DKIM signature is enough, in internal/senderauth/dkim.go.
use elec_postal.Base.{
  ◌≡◌, inl, inr, refl, sym, true, false, some, List, [], ◌∷◌, ◌++◌, arith, Bool-cases,
}
use elec_postal.Text.{Text, codes, text_eq, text_eq_iff, text_eq_refl, member}
use elec_postal.SenderAuth.State.{pass, Env}
use elec_postal.SenderAuth.Dkim.Canonical.{Header, header_values}
use elec_postal.SenderAuth.Dkim.Parse.{Signature, parse_dkim_signature, supported_hash}
use elec_postal.SenderAuth.Dkim.Keys.{Key, Crypto, found, key_answer}
use elec_postal.SenderAuth.Dkim.{
  Outcome, valid, dns_fail, verify_fail, skipped, Tally, note, aggregate, body_digest, check_value,
  check_body, check_key, dkim_key, check_parsed, check_signature, verify_loop, verify_dkim,
  no_tally, verify_values,
}
use elec_postal.SenderAuth.Dkim.Sound.{IsSigned}

note-keeps : (t : Tally) (o : Outcome) → t.some_valid ≡ true → (note t o).some_valid ≡ true
note-keeps t (valid d) h = refl
note-keeps t dns_fail h = h
note-keeps t verify_fail h = h
note-keeps t skipped h = h

note-valid : (t : Tally) (o : Outcome) (d : Text) → o ≡ valid d → (note t o).some_valid ≡ true
note-valid t (valid e) d h = refl
note-valid t dns_fail d h = absurd (cc h)
note-valid t verify_fail d h = absurd (cc h)
note-valid t skipped d h = absurd (cc h)

module _ {K : Type 0} (lib : Crypto K) (header : Header) (body : Text) where
  check_key-signed :
      (sig : Signature) (key : Key)
      → IsSigned lib header body sig key
      → check_key lib header body sig (found key) ≡ valid sig.domain
  unfolding check_key check_body check_value
  check_key-signed sig key (hash, (bytes, decoded, right)) =
      rw (hash, text_eq_refl (body_digest lib header body sig), decoded, right) refl

  module _ {W : Type 0} (env : Env W) where
    check_signature-signed :
        (value : Text) (sig : Signature) (key : Key) (w : W)
        → parse_dkim_signature value ≡ some sig
        → supported_hash sig.algo ≡ true
        → key_answer lib (env.lookup_txt (sig.selector ++ codes "._domainkey." ++ sig.domain) w).0
          ≡ found key
        → IsSigned lib header body sig key
        → (check_signature lib header body env value w).0 ≡ valid sig.domain
    unfolding check_signature check_parsed dkim_key
    check_signature-signed value sig key w parsed supported answer signed =
        rw (parsed, supported, answer) (check_key-signed sig key signed)

    verify_loop-keeps :
        (vs : List Text) (t : Tally) (w : W)
        → t.some_valid ≡ true
        → (verify_loop lib header body env vs t w).0.some_valid ≡ true
    unfolding verify_loop
    verify_loop-keeps [] t w h = h
    verify_loop-keeps (v ∷ vs) t w h = elim (Bool-cases (env.expired w).0) [
      | inl e ↦ rw (e, verify_loop) h
      | inr e ↦
          let (o, w') = check_signature lib header body env v (env.expired w).1 in
          rw (e, verify_loop) (verify_loop-keeps vs (note t o) w' (note-keeps t o h))
    ]

    verify_loop-finds :
        (value domain : Text) (vs : List Text) (t : Tally) (w : W)
        → ((u : W) → (env.expired u).0 ≡ false)
        → ((u : W) → (check_signature lib header body env value u).0 ≡ valid domain)
        → member value vs ≡ true
        → (verify_loop lib header body env vs t w).0.some_valid ≡ true
    unfolding verify_loop member
    verify_loop-finds value domain [] t w live right h = absurd (cc h)
    verify_loop-finds value domain (v ∷ vs) t w live right h =
        let (o, w') = check_signature lib header body env v (env.expired w).1 in
        elim (Bool-cases (text_eq value v)) [
          | inl e ↦
              rw (live w, verify_loop)
                (verify_loop-keeps vs (note t o) w' (
                  note-valid t o domain
                    (rw (sym ((text_eq_iff value v).0 e)) (right (env.expired w).1))))
          | inr e ↦
              rw (live w, verify_loop)
                (verify_loop-finds value domain vs (note t o) w' live right (ground (arith, e, h)))
        ]

    verify_values-finds :
        (value domain : Text) (vs : List Text) (w : W)
        → ((u : W) → (env.expired u).0 ≡ false)
        → ((u : W) → (check_signature lib header body env value u).0 ≡ valid domain)
        → member value vs ≡ true
        → (verify_values lib header body env vs w).0.0 ≡ pass
    unfolding aggregate member
    verify_values-finds value domain [] w live right h = absurd (cc h)
    verify_values-finds value domain (v ∷ vs) w live right h =
        rw (verify_loop-finds value domain (v ∷ vs) no_tally w live right h) refl

    -- Where the deadline does not pass, verifyDKIM returns pass if one of the DKIM-Signature headers
    -- parses, has a supported algorithm, every lookup finds the key for its selector and domain, and
    -- with that key its body hash and its signature are right, whatever the other headers are.
    pub verify_dkim_complete :
        (value : Text) (sig : Signature) (key : Key) (w : W)
        → ((u : W) → (env.expired u).0 ≡ false)
        → member value (header_values header (codes "DKIM-Signature")) ≡ true
        → parse_dkim_signature value ≡ some sig
        → supported_hash sig.algo ≡ true
        → ((u : W)
            → key_answer lib
                (env.lookup_txt (sig.selector ++ codes "._domainkey." ++ sig.domain) u).0
              ≡ found key)
        → IsSigned lib header body sig key
        → (verify_dkim lib header body env w).0.0 ≡ pass
    unfolding verify_dkim
    verify_dkim_complete value sig key w live here parsed supported answers signed =
        verify_values-finds value sig.domain (header_values header (codes "DKIM-Signature")) w live
          (λ u. check_signature-signed value sig key u parsed supported (answers u) signed) here
