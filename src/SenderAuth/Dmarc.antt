-- ===== src/SenderAuth/Dmarc.antt =====
-- internal/senderauth/dmarc.go: the policy of the From domain.
pub mod Alignment
pub mod Policy
use elec_postal.Base.{
  Bool, true, false, ◌&&◌, ◌||◌, Option, none, some, List, [], ◌∷◌, ◌++◌, if◌then◌else◌,
}
use elec_postal.Text.{
  Text, codes, text_eq, is_nil, has_prefix, has_suffix, to_lower, trim_space, cut, split,
}
use elec_postal.SenderAuth.State.{
  Verdict, Disposition, allow, quarantine, reject, Answer, records, not_found, failed, State, ◌>>=◌,
  pure, Env,
}

-- the first v=DMARC1 record, or the empty text
unfoldable pub dmarc_record : List Text → Text
dmarc_record [] = []
dmarc_record (r ∷ rs) =
    if has_prefix (to_lower (trim_space r)) (codes "v=dmarc1")
    then trim_space r
    else dmarc_record rs

-- The results of `parseDMARC`; no policy is the empty text.
pub record Tags : Type 0 where
  pub policy : Option Disposition
  pub aspf : Text
  pub adkim : Text

abbrev pub no_tags : Tags
no_tags = record { policy = none; aspf = []; adkim = [] }

-- the policies that are accepted
unfoldable pub policy_of : Text → Option Disposition
policy_of val =
    if text_eq val (codes "none")
    then some Disposition.none
    else if text_eq val (codes "quarantine")
    then some quarantine
    else if text_eq val (codes "reject")
    then some reject
    else none

abbrev or_old : Option Disposition → Option Disposition → Option Disposition
or_old none old = old
or_old (some p) old = some p

-- the switch over the tags
pub set_tag : Tags → Text → Text → Tags
unfolding policy_of
set_tag tags tag val =
    if text_eq tag (codes "p")
    then record tags { policy = or_old (policy_of val) tags.policy }
    else if text_eq tag (codes "aspf")
    then record tags { aspf = val }
    else if text_eq tag (codes "adkim")
    then record tags { adkim = val }
    else tags

abbrev set_part : Tags → Option (Text × Text) → Tags
set_part tags none = tags
set_part tags (some (tag, val)) =
    set_tag tags (to_lower (trim_space tag)) (to_lower (trim_space val))

-- one part between semicolons; a part with no `=` is passed over
pub read_part : Tags → Text → Tags
unfolding set_tag
read_part tags part = set_part tags (cut b'=' (trim_space part))

pub read_parts : Tags → List Text → Tags
unfolding read_part
read_parts tags [] = tags
read_parts tags (part ∷ parts) = read_parts (read_part tags part) parts

unfoldable pub parse_dmarc : Text → Tags
unfolding read_parts
parse_dmarc record_text = read_parts no_tags (split b';' record_text)

-- `alignedDomain` behind its trimming
pub aligned : Text → Text → Text → Bool
aligned d from mode =
    if is_nil d || is_nil from
    then false
    else if text_eq d from
    then true
    else if text_eq mode (codes "strict")
    then false
    else has_suffix d (b'.' ∷ from)

unfoldable pub aligned_domain : Text → Text → Text → Bool
unfolding aligned
aligned_domain d from mode = aligned (to_lower (trim_space d)) (to_lower (trim_space from)) mode

abbrev pub passed : Verdict → Bool
passed Verdict.pass = true
passed _ = false

-- `aligned`, from SPF or else from DKIM
unfoldable pub is_aligned : Text → Text → Verdict → Verdict → Text → Tags → Bool
unfolding aligned_domain
is_aligned from_domain envelope_domain spf dkim dkim_d tags =
    (passed spf && aligned_domain envelope_domain from_domain tags.aspf)
    || (passed dkim && aligned_domain dkim_d from_domain tags.adkim)

module _ (from_domain envelope_domain : Text) (spf dkim : Verdict) (dkim_d : Text) where
  apply_policy : Tags → Option Disposition → Disposition
  apply_policy tags none = Disposition.none
  apply_policy tags (some policy) =
      if is_aligned from_domain envelope_domain spf dkim dkim_d tags then allow else policy

  -- `verifyDMARC` behind its lookup
  pub judge : Answer → Disposition
  unfolding apply_policy
  judge (records rs) =
      let record_text = dmarc_record rs in
      let tags = parse_dmarc record_text in
      if is_nil record_text then Disposition.none else apply_policy tags tags.policy
  judge not_found = Disposition.none
  judge failed = Disposition.none

  unfoldable pub verify_dmarc : {W : Type 0} → Env W → State W Disposition
  unfolding judge
  verify_dmarc env =
      if is_nil from_domain
      then pure Disposition.none
      else (do answer ← env.lookup_txt (codes "_dmarc." ++ from_domain); pure (judge answer))
