-- ===== src/SenderAuth/Dkim.antt =====
-- internal/senderauth/dkim.go: the verification of DKIM signatures.
pub mod Canonical
pub mod Parse
pub mod Keys
pub mod Sound
pub mod Complete
use elec_postal.Text.{Text, codes, text_eq}
use elec_postal.Base.{Bool, true, false, Option, none, some, List, [], ◌∷◌, ◌++◌, if◌then◌else◌}
use elec_postal.SenderAuth.State.{
  Verdict, pass, fail, temperror, permerror, State, ◌>>=◌, pure, Env,
}
use elec_postal.SenderAuth.Dkim.Canonical.{
  Header, header_values, header_relaxed, body_relaxed, canonicalize_body,
  canonicalize_signed_headers,
}
use elec_postal.SenderAuth.Dkim.Parse.{Signature, parse_dkim_signature, supported_hash, hash_func}
use elec_postal.SenderAuth.Dkim.Keys.{
  Key, Crypto, KeyAnswer, found, dns_error, missing, key_answer, verify_signature,
}

-- What the body of the loop of `verifyDKIM` does with one signature.
pub data Outcome : Type 0 where
  valid : Text → Outcome
  dns_fail : Outcome
  verify_fail : Outcome
  skipped : Outcome

pub record Tally : Type 0 where
  pub some_valid : Bool
  pub last_valid : Text
  pub some_dns_fail : Bool
  pub some_verify_fail : Bool

abbrev pub no_tally : Tally
no_tally = record {
  some_valid = false;
  last_valid = [];
  some_dns_fail = false;
  some_verify_fail = false;
}

abbrev pub note : Tally → Outcome → Tally
note t (valid domain) = record t { some_valid = true; last_valid = domain }
note t dns_fail = record t { some_dns_fail = true }
note t verify_fail = record t { some_verify_fail = true }
note t skipped = t

unfoldable pub aggregate : Tally → Verdict × Text
aggregate t =
    if t.some_valid
    then (pass, t.last_valid)
    else if t.some_dns_fail
    then (temperror, [])
    else if t.some_verify_fail
    then (fail, [])
    else (permerror, [])

module _ {K : Type 0} (lib : Crypto K) (header : Header) (body : Text) where
  unfoldable pub body_digest : Signature → Text
  body_digest sig =
      lib.digest (hash_func sig.algo) (canonicalize_body body (body_relaxed sig.canon))

  unfoldable pub header_digest : Signature → Text
  header_digest sig =
      lib.digest (hash_func sig.algo)
        (canonicalize_signed_headers header sig.headers (header_relaxed sig.canon))

  unfoldable pub check_value : Signature → Key → Option Text → Outcome
  unfolding header_digest verify_signature
  check_value sig key none = skipped
  check_value sig key (some bytes) =
      if verify_signature lib key sig.algo (header_digest sig) bytes
      then valid sig.domain
      else verify_fail

  unfoldable pub check_body : Signature → Key → Option Text → Outcome
  unfolding check_value body_digest
  check_body sig key none = skipped
  check_body sig key (some wanted) =
      if text_eq (body_digest sig) wanted
      then check_value sig key (lib.decode_base64 sig.signature)
      else verify_fail

  unfoldable pub check_key : Signature → KeyAnswer → Outcome
  unfolding check_body
  check_key sig (found key) = check_body sig key (lib.decode_base64 sig.body_hash)
  check_key sig dns_error = dns_fail
  check_key sig missing = skipped

  module _ {W : Type 0} (env : Env W) where
    unfoldable pub dkim_key : Text → Text → State W KeyAnswer
    unfolding key_answer
    dkim_key selector domain = do
      answer ← env.lookup_txt (selector ++ codes "._domainkey." ++ domain)
      pure (key_answer lib answer)

    unfoldable pub check_parsed : Option Signature → State W Outcome
    unfolding supported_hash dkim_key check_key
    check_parsed none = pure skipped
    check_parsed (some sig) =
        if supported_hash sig.algo
        then (do key ← dkim_key sig.selector sig.domain; pure (check_key sig key))
        else pure skipped

    unfoldable pub check_signature : Text → State W Outcome
    unfolding check_parsed parse_dkim_signature
    check_signature value = check_parsed (parse_dkim_signature value)

    unfoldable pub verify_loop : List Text → Tally → State W Tally
    unfolding check_signature
    verify_loop [] t = pure t
    verify_loop (value ∷ vs) t = do
      late ← env.expired
      if late
          then pure (record t { some_dns_fail = true })
          else (do outcome ← check_signature value; verify_loop vs (note t outcome))

    abbrev pub verify_values : List Text → State W (Verdict × Text)
    verify_values [] = pure (Verdict.none, [])
    verify_values (value ∷ vs) = (do t ← verify_loop (value ∷ vs) no_tally; pure (aggregate t))

    unfoldable pub verify_dkim : State W (Verdict × Text)
    unfolding verify_loop aggregate
    verify_dkim = verify_values (header_values header (codes "DKIM-Signature"))
