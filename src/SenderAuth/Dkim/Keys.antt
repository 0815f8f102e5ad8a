-- ===== src/SenderAuth/Dkim/Keys.antt =====
-- Keys and the verification of one signature in internal/senderauth/dkim.go.
use elec_postal.Text.{
  Text, codes, text_eq, is_nil, equal_fold, to_lower, trim_space, fields, cut, split, join,
}
use elec_postal.Base.{
  Bool, false, ◌&&◌, Option, none, some, List, [], ◌∷◌, length, ◌==◌, if◌then◌else◌,
}
use elec_postal.SenderAuth.State.{Answer, records, not_found, failed}
use elec_postal.SenderAuth.Dkim.Parse.{Hash, hash_func}

pub record Key : Type 0 where
  pub kind : Text
  pub data_p : Text

abbrev pub empty_key : Key
empty_key = record { kind = []; data_p = [] }

-- The packages crypto and encoding/base64; none is an error. `parse_pkix` finds a key that may be of
-- another kind than RSA.
pub record Crypto (K : Type 0) : Type 0 where
  pub decode_base64 : Text → Option Text
  pub digest : Hash → Text → Text
  pub verify_ed25519 : Text → Text → Text → Bool
  pub parse_pkcs1 : Text → Option K
  pub parse_pkix : Text → Option (Option K)
  pub verify_pkcs1v15 : K → Hash → Text → Text → Bool

-- what a tag of a key record does: a return from the function, or the key so far
pub data KeyStep : Type 0 where
  returns : Option Key → KeyStep
  goes_on : Key → KeyStep

-- What `dkimKey` returns.
pub data KeyAnswer : Type 0 where
  found : Key → KeyAnswer
  dns_error : KeyAnswer
  missing : KeyAnswer

module _ {K : Type 0} (lib : Crypto K) where
  abbrev decoded : Key → Option Text → KeyStep
  decoded key none = returns (some empty_key)
  decoded key (some p) = goes_on (record key { data_p = p })

  pub key_tag : Key → Text → Text → KeyStep
  key_tag key tag val =
      if text_eq tag (codes "v")
      then if equal_fold val (codes "DKIM1") then goes_on key else returns none
      else if text_eq tag (codes "k")
      then goes_on (record key { kind = to_lower val })
      else if text_eq tag (codes "p")
      then decoded key (lib.decode_base64 (join [] (fields val)))
      else goes_on key

  abbrev key_part : Key → Option (Text × Text) → KeyStep
  key_part key none = goes_on key
  key_part key (some (tag, val)) = key_tag key (to_lower (trim_space tag)) (trim_space val)

  abbrev then_key_parts : (Key → Option Key) → KeyStep → Option Key
  then_key_parts rest (returns answer) = answer
  then_key_parts rest (goes_on key) = rest key

  abbrev pub finish_key : Key → Key
  finish_key key =
      if is_nil key.data_p
      then empty_key
      else if is_nil key.kind
      then record key { kind = codes "rsa" }
      else key

  pub key_parts : List Text → Key → Option Key
  unfolding key_tag
  key_parts [] key = some (finish_key key)
  key_parts (part ∷ parts) key =
      then_key_parts (key_parts parts) (key_part key (cut b'=' (trim_space part)))

  unfoldable pub parse_dkim_key : List Text → Option Key
  unfolding key_parts
  parse_dkim_key [] = none
  parse_dkim_key (r ∷ rs) =
      let rest = parse_dkim_key rs in
      let text = trim_space r in if is_nil text then rest else key_parts (split b';' text) empty_key

  abbrev usable : Option Key → KeyAnswer
  usable none = missing
  usable (some key) = if is_nil key.data_p then missing else found key

  unfoldable pub key_answer : Answer → KeyAnswer
  unfolding parse_dkim_key
  key_answer (records rs) = usable (parse_dkim_key rs)
  key_answer not_found = missing
  key_answer failed = dns_error

  abbrev or_pkix : Option K → Option (Option K) → Option K
  or_pkix (some k) other = some k
  or_pkix none (some (some k)) = some k
  or_pkix none _ = none

  unfoldable pub parse_rsa_public_key : Text → Option K
  parse_rsa_public_key der = or_pkix (lib.parse_pkcs1 der) (lib.parse_pkix der)

  abbrev verify_rsa : Option K → Hash → Text → Text → Bool
  verify_rsa none hash digest sig = false
  verify_rsa (some k) hash digest sig = lib.verify_pkcs1v15 k hash digest sig

  unfoldable pub verify_signature : Key → Text → Text → Text → Bool
  unfolding parse_rsa_public_key hash_func
  verify_signature key algo digest sig =
      if text_eq key.kind (codes "ed25519")
      then length key.data_p == 32 && lib.verify_ed25519 key.data_p digest sig
      else verify_rsa (parse_rsa_public_key key.data_p) (hash_func algo) digest sig
