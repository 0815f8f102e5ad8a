-- ===== src/SenderAuth/Dkim/Parse.antt =====
-- `parseDKIMSignature` and the hash algorithms of internal/senderauth/dkim.go.
use elec_postal.Text.{Text, codes, text_eq, is_nil, to_lower, trim_space, cut, cut_last, split}
use elec_postal.Base.{Bool, ◌||◌, Option, none, some, List, [], ◌∷◌, if◌then◌else◌}

pub record Signature : Type 0 where
  pub algo : Text
  pub domain : Text
  pub selector : Text
  pub canon : Text
  pub headers : Text
  pub body_hash : Text
  pub signature : Text

abbrev no_signature : Signature
no_signature = record {
  algo = [];
  domain = [];
  selector = [];
  canon = [];
  headers = [];
  body_hash = [];
  signature = [];
}

-- the switch over the tags; none is the early return
pub signature_tag : Signature → Text → Text → Option Signature
signature_tag sig tag val =
    if text_eq tag (codes "v")
    then if text_eq val (codes "1") then some sig else none
    else if text_eq tag (codes "a")
    then some (record sig { algo = to_lower val })
    else if text_eq tag (codes "d")
    then some (record sig { domain = to_lower val })
    else if text_eq tag (codes "s")
    then some (record sig { selector = val })
    else if text_eq tag (codes "c")
    then some (record sig { canon = to_lower val })
    else if text_eq tag (codes "h")
    then some (record sig { headers = val })
    else if text_eq tag (codes "bh")
    then some (record sig { body_hash = val })
    else if text_eq tag (codes "b")
    then some (record sig { signature = val })
    else some sig

-- one part between semicolons; a part with no `=`, as an empty one, is passed over
abbrev pub signature_part : Signature → Option (Text × Text) → Option Signature
signature_part sig none = some sig
signature_part sig (some (tag, val)) =
    signature_tag sig (to_lower (trim_space tag)) (trim_space val)

abbrev then_parts : (Signature → Option Signature) → Option Signature → Option Signature
then_parts rest none = none
then_parts rest (some sig) = rest sig

pub signature_parts : List Text → Signature → Option Signature
unfolding signature_tag
signature_parts [] sig = some sig
signature_parts (part ∷ parts) sig =
    then_parts (signature_parts parts) (signature_part sig (cut b'=' (trim_space part)))

-- the check of the tags that have to be there
abbrev required : Option Signature → Option Signature
required none = none
required (some sig) =
    if is_nil sig.domain
      || is_nil sig.selector
      || is_nil sig.headers
      || is_nil sig.body_hash
      || is_nil sig.signature
    then none
    else some sig

unfoldable pub parse_dkim_signature : Text → Option Signature
unfolding signature_parts
parse_dkim_signature value = required (signature_parts (split b';' value) no_signature)

pub data Hash : Type 0 where
  sha1 sha256 : Hash

abbrev after_dash : Text → Option (Text × Text) → Text
after_dash algo none = algo
after_dash algo (some (before, after)) = after

unfoldable pub hash_algo : Text → Text
hash_algo algo =
    let name = to_lower (trim_space algo) in
    if is_nil name then codes "sha256" else after_dash name (cut_last b'-' name)

unfoldable pub supported_hash : Text → Bool
unfolding hash_algo
supported_hash algo =
    text_eq (hash_algo algo) (codes "sha1") || text_eq (hash_algo algo) (codes "sha256")

unfoldable pub hash_func : Text → Hash
unfolding hash_algo
hash_func algo = if text_eq (hash_algo algo) (codes "sha1") then sha1 else sha256
