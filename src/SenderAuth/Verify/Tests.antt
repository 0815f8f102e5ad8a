-- ===== src/SenderAuth/Verify/Tests.antt =====
-- DKIM and the whole verification at a concrete message. The digest of a text is its first three
-- codes, base64 leaves a text as it is, and a signature is right if it is the digest.
use elec_postal.Base.{
  ℕ, ◌+◌, ◌≡◌, refl, sym, true, false, none, some, List, [], ◌∷◌, ◌++◌, take, if◌then◌else◌,
}
use elec_postal.Text.{
  Text, codes, text_eq, text_eq_ne, equal_fold, has_prefix, to_lower, trim_space, trim_right,
  fields, cut, cut_last, split, join, member,
}
use elec_postal.SenderAuth.State.{pass, Answer, records, not_found, Env}
use elec_postal.SenderAuth.Address.{domain_of}
use elec_postal.SenderAuth.Dmarc.{dmarc_record, parse_dmarc, is_aligned, aligned_domain}
use elec_postal.SenderAuth.Dkim.Canonical.{
  Header, crlf, header_values, strip_dkim_b, canonicalize_header, canonicalize_signed_headers,
  header_relaxed, body_relaxed, simple_body, relaxed_body, canonicalize_body,
}
use elec_postal.SenderAuth.Dkim.Canonical.Laws.{canonicalize_signed_headers-unsigned}
use elec_postal.SenderAuth.Dkim.Parse.{Signature, parse_dkim_signature, supported_hash}
use elec_postal.SenderAuth.Dkim.Keys.{Key, Crypto, key_answer, verify_signature}
use elec_postal.SenderAuth.Dkim.Sound.{Verifies, verify_dkim_sound}
use elec_postal.SenderAuth.Dkim.Complete.{verify_dkim_complete}
use elec_postal.SenderAuth.Dkim.{body_digest, header_digest, verify_dkim}
use elec_postal.SenderAuth.Verify.{MailLibrary, verify}
use elec_postal.SenderAuth.Verify.Allows.{Justified, verify-allow}

relaxed_body_test : relaxed_body (codes "a  b " ++ 10 ∷ 10 ∷ []) ≡ codes "a b" ++ crlf
unfolding relaxed_body
relaxed_body_test = refl

simple_body_test : simple_body (codes "a  b " ++ 10 ∷ 10 ∷ []) ≡ codes "a  b " ++ crlf
unfolding simple_body trim_right
simple_body_test = refl

strip_dkim_b_test : strip_dkim_b (codes "v=1; b=abc; h=From") ≡ codes "v=1; b=; h=From"
unfolding strip_dkim_b
strip_dkim_b_test = refl

canonicalize_header_test :
    canonicalize_header (codes "Subject") (codes "  a   b ") true ≡ codes "subject:a b" ++ crlf
unfolding canonicalize_header
canonicalize_header_test = refl

abbrev lib : Crypto Text
lib = record {
  decode_base64 = λ t. some t;
  digest = λ hash t. take 3 t;
  verify_ed25519 = λ key digest sig. false;
  parse_pkcs1 = λ der. some der;
  parse_pkix = λ der. none;
  verify_pkcs1v15 = λ key hash digest sig. text_eq digest sig;
}

abbrev signature_text : Text
signature_text = codes "v=1; a=rsa-sha256; d=A.test; s=k; h=From; bh=hel; b=Fro"

abbrev broken_text : Text
broken_text = codes "v=1; a=rsa-sha256; d=a.test"

abbrev values : Text → List Text
values name =
    if text_eq name (codes "dkim-signature")
    then broken_text ∷ signature_text ∷ []
    else if text_eq name (codes "from")
    then codes "Ann <ann@a.test>" ∷ []
    else []

abbrev header : Header
header = record { canonical = to_lower; values = values }

abbrev body : Text
body = codes "hello"

abbrev zone : Text → Answer
zone name =
    if text_eq name (codes "k._domainkey.a.test")
    then records (codes "v=DKIM1; p=QUJD" ∷ [])
    else if text_eq name (codes "_dmarc.a.test")
    then records (codes "v=DMARC1; p=reject" ∷ [])
    else not_found

-- the surroundings count the lookups
abbrev net : Env ℕ
net = record {
  expired = λ n. (false, n);
  lookup_txt = λ name n. (zone name, n + 1);
  lookup_ip = λ name n. (none, n);
  lookup_mx = λ name n. (none, n);
  parse_ip = λ s. none;
}

verify_dkim_test : verify_dkim lib header body net 0 ≡ ((pass, codes "a.test"), 1)
unfolding verify_dkim text_eq to_lower split cut trim_space cut_last equal_fold join fields
    canonicalize_body body_relaxed canonicalize_signed_headers header_relaxed
verify_dkim_test = refl

verify_dkim_sound_example :
    (value : Text) × (member value (header_values header (codes "DKIM-Signature")) ≡ true)
    × Verifies lib header body net value (codes "a.test")
unfolding verify_dkim text_eq to_lower split cut trim_space cut_last equal_fold join fields
    canonicalize_body body_relaxed canonicalize_signed_headers header_relaxed
verify_dkim_sound_example = verify_dkim_sound lib header body net (codes "a.test") 0 refl

abbrev signed : Signature
signed = record {
  algo = codes "rsa-sha256";
  domain = codes "a.test";
  selector = codes "k";
  canon = [];
  headers = codes "From";
  body_hash = codes "hel";
  signature = codes "Fro";
}

abbrev key : Key
key = record { kind = codes "rsa"; data_p = codes "QUJD" }

verify_dkim_complete_example : (verify_dkim lib header body net 0).0.0 ≡ pass
unfolding parse_dkim_signature supported_hash key_answer body_digest header_digest verify_signature
    member text_eq to_lower split cut trim_space cut_last equal_fold join fields canonicalize_body
    body_relaxed canonicalize_signed_headers header_relaxed
verify_dkim_complete_example =
    verify_dkim_complete lib header body net signature_text signed key 0 (λ u. refl) refl refl refl
      (λ u. refl) (refl, (codes "Fro", refl, refl))

abbrev unsigned : Text → List Text
unsigned name = if text_eq name (codes "dkim-signature") then [] else values name

canonicalize_signed_headers-unsigned_example :
    canonicalize_signed_headers header (codes "From") true
    ≡ canonicalize_signed_headers
        (record { canonical = to_lower; values = unsigned })
        (codes "From")
        true
unfolding to_lower trim_space split
canonicalize_signed_headers-unsigned_example =
    canonicalize_signed_headers-unsigned to_lower values unsigned true (codes "From")
      (λ name ne. sym (rw (text_eq_ne name (codes "dkim-signature") ne) refl)) ((λ e. cc e), tt)

abbrev mail : MailLibrary
mail = record {
  parse_message = λ raw. some (header, body);
  from_addresses = λ h. some (codes "ann@a.test" ∷ []);
  split_host_port = λ s. none;
}

verify-allow_example :
    Justified mail lib net
      (codes "raw")
      (codes "ann@b.test")
      (verify mail lib net (codes "raw") (codes "ann@b.test") (codes "10.1.2.3") 0).0.spf
unfolding verify text_eq to_lower domain_of has_prefix dmarc_record parse_dmarc is_aligned
    aligned_domain split cut trim_space cut_last equal_fold join fields canonicalize_body
    body_relaxed canonicalize_signed_headers header_relaxed
verify-allow_example =
    verify-allow mail lib net (codes "raw") (codes "ann@b.test") (codes "10.1.2.3") 0 refl
