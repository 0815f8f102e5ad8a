-- ===== src/MailStore/Keywords.antt =====
-- Tags as keywords: internal/service/keywords.go on the tables of labels and their mappings.
pub mod Laws
use elec_postal.Base.{
  ℕ, Bool, true, false, not, ◌&&◌, ◌||◌, Option, none, some, List, [], ◌∷◌, ◌++◌, map, length, ltb,
  ◌==◌, if◌then◌else◌,
}
use elec_postal.Text.{Text, codes, text_eq, is_nil, has_prefix, to_lower, trim_space, member}

-- `EmailLabel`, without color and time stamps
pub record Label : Type 0 where
  pub label_id : Text
  pub owner : Text
  pub label_name : Text
  pub is_deleted : Bool

-- a row of `EmailLabelMapping`: the message and the label
abbrev pub Mapping : Type 0
Mapping = Text × Text

pub record Tags : Type 0 where
  pub labels : List Label
  pub mappings : List Mapping

-- the codes that an atom of IMAP must not hold
abbrev is_special : ℕ → Bool
is_special c =
    c == b'('
    || c == b')'
    || c == b'{'
    || c == b' '
    || c == b'%'
    || c == b'*'
    || c == 34
    || c == 92
    || c == b']'

unfoldable pub all_atom : Text → Bool
all_atom [] = true
all_atom (c ∷ s) = if ltb c 32 || c == 127 || is_special c then false else all_atom s

unfoldable pub is_imap_keyword : Text → Bool
unfolding all_atom
is_imap_keyword name = if is_nil name || ltb 255 (length name) then false else all_atom name

-- the loop of `normalizeKeywords`, with the names seen in lower case
unfoldable pub normalize_from : List Text → List Text → List Text
unfolding trim_space has_prefix to_lower member
normalize_from seen [] = []
normalize_from seen (raw ∷ keywords) =
    let keyword = trim_space raw in
    let lower = to_lower keyword in
    let skipped = normalize_from seen keywords in
    let added = normalize_from (lower ∷ seen) keywords in
    if is_nil keyword || has_prefix keyword (codes "\\") || has_prefix keyword (codes "$")
    then skipped
    else if member lower seen
    then skipped
    else keyword ∷ added

unfoldable pub normalize_keywords : List Text → List Text
unfolding normalize_from
normalize_keywords = normalize_from []

-- `account_id = ? AND LOWER(name) = ?` on labels that are not deleted
abbrev pub names_label : Text → Text → Label → Bool
names_label account lower l =
    not l.is_deleted && (text_eq l.owner account && text_eq (to_lower l.label_name) lower)

unfoldable pub find_label : Text → Text → List Label → Option Label
unfolding text_eq to_lower
find_label account lower [] = none
find_label account lower (l ∷ ls) =
    let rest = find_label account lower ls in if names_label account lower l then some l else rest

-- `labelIDsTx`, for names in lower case
unfoldable pub label_ids : Text → List Text → List Label → List Text
unfolding text_eq to_lower member
label_ids account lowered [] = []
label_ids account lowered (l ∷ ls) =
    let rest = label_ids account lowered ls in
    if not l.is_deleted && (text_eq l.owner account && member (to_lower l.label_name) lowered)
    then l.label_id ∷ rest
    else rest

unfoldable pub carries : List Mapping → Text → Text → Bool
carries [] email id = false
carries ((e, l) ∷ ms) email id = (text_eq e email && text_eq l id) || carries ms email id

-- `FirstOrCreate` of the mappings of a label
unfoldable pub attach_members : Text → List Text → List Mapping → List Mapping
unfolding carries
attach_members id [] ms = ms
attach_members id (email ∷ members) ms =
    attach_members id members (if carries ms email id then ms else (email, id) ∷ ms)

unfoldable pub drop_mappings : List Text → List Text → List Mapping → List Mapping
unfolding member
drop_mappings members ids [] = []
drop_mappings members ids ((e, l) ∷ ms) =
    let rest = drop_mappings members ids ms in
    if member e members && member l ids then rest else (e, l) ∷ rest

-- the labels that `releaseKeywordsTx` drops: those that a listed message carries, whose name IMAP can
-- carry and the caller did not list
abbrev any_carries : List Mapping → List Text → Text → Bool
any_carries ms [] id = false
any_carries ms (e ∷ members) id = carries ms e id || any_carries ms members id

unfoldable pub released : Text → List Text → List Text → List Mapping → List Label → List Text
unfolding text_eq to_lower member carries is_imap_keyword
released account members lowered ms [] = []
released account members lowered ms (l ∷ ls) =
    let rest = released account members lowered ms ls in
    if not l.is_deleted
      && text_eq l.owner account
      && any_carries ms members l.label_id
      && is_imap_keyword l.label_name
      && not (member (to_lower l.label_name) lowered)
    then l.label_id ∷ rest
    else rest

-- Identifiers of new labels are given by a function of their name.
module _ (label_key : Text → Text) (account : Text) (members : List Text) where
  abbrev new_label : Text → Label
  new_label name = record {
    label_id = label_key name;
    owner = account;
    label_name = name;
    is_deleted = false;
  }

  -- a name that found a label, or did not
  abbrev pub attach_found : Tags → Text → Option Label → Tags
  attach_found t name (some l) = record t {
    mappings = attach_members l.label_id members t.mappings;
  }
  attach_found t name none = record t {
    labels = t.labels ++ new_label name ∷ [];
    mappings = attach_members (label_key name) members t.mappings;
  }

  unfoldable pub attach_keywords : List Text → Tags → Tags
  unfolding find_label attach_members to_lower
  attach_keywords [] t = t
  attach_keywords (name ∷ names) t =
      attach_keywords names (attach_found t name (find_label account (to_lower name) t.labels))

  unfoldable pub detach_keywords : List Text → Tags → Tags
  unfolding label_ids drop_mappings to_lower
  detach_keywords names t = record t {
    mappings = drop_mappings members (label_ids account (map to_lower names) t.labels) t.mappings;
  }

  unfoldable pub release_keywords : List Text → Tags → Tags
  unfolding released drop_mappings to_lower
  release_keywords names t = record t {
    mappings =
        drop_mappings members (released account members (map to_lower names) t.mappings t.labels)
          t.mappings;
  }

  -- `setProtocolKeywordsTx`
  unfoldable pub set_protocol_keywords : List Text → Text → Tags → Tags
  unfolding attach_keywords detach_keywords release_keywords
  set_protocol_keywords names mode t =
      if text_eq mode (codes "remove")
      then detach_keywords names t
      else if text_eq mode (codes "replace")
      then attach_keywords names (release_keywords names t)
      else attach_keywords names t
