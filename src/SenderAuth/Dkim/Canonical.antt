-- ===== src/SenderAuth/Dkim/Canonical.antt =====
-- The canonical forms of internal/senderauth/dkim.go: signed headers and bodies.
pub mod Laws
use elec_postal.Base.{
  ℕ, ◌-◌, Bool, true, false, ◌&&◌, ◌||◌, none, some, List, [], ◌∷◌, ◌++◌, map, length, take, ◌==◌,
  if◌then◌else◌,
}
use elec_postal.Text.{
  Text, codes, text_eq, is_nil, has_prefix, equal_fold, to_lower, trim_space, trim_left, trim_right,
  trim_suffix, cut, split, join,
}

abbrev pub crlf : Text
crlf = 13 ∷ 10 ∷ []

abbrev pub is_wsp : ℕ → Bool
is_wsp c = c == 32 || c == 9

-- the loop of `collapseWSP`, with `pendingSpace`
unfoldable pub collapse_from : Bool → Text → Text
collapse_from pending [] = []
collapse_from pending (c ∷ s) =
    let inside = collapse_from true s in
    let after = collapse_from false s in
    if is_wsp c then inside else if pending then 32 ∷ c ∷ after else c ∷ after

unfoldable pub collapse_wsp : Text → Text
unfolding collapse_from
collapse_wsp = collapse_from false

-- A header is a Go map from names in canonical spelling, and `canonical` is the spelling that
-- `textproto` gives to a name.
pub record Header : Type 0 where
  pub canonical : Text → Text
  pub values : Text → List Text

abbrev pub header_values : Header → Text → List Text
header_values header name = header.values (header.canonical name)

-- one part of `stripDKIMB`
pub strip_part : Text → Text
unfolding trim_left has_prefix to_lower
strip_part part =
    let trimmed = trim_left is_wsp part in
    if has_prefix (to_lower trimmed) (codes "b=")
    then take (length part - length trimmed) part ++ codes "b="
    else part

unfoldable pub strip_dkim_b : Text → Text
unfolding strip_part split join
strip_dkim_b value = join (codes ";") (map strip_part (split b';' value))

unfoldable pub canonicalize_header : Text → Text → Bool → Text
unfolding to_lower collapse_wsp trim_space
canonicalize_header name value false = name ++ codes ":" ++ value ++ crlf
canonicalize_header name value true =
    to_lower name ++ codes ":" ++ collapse_wsp (trim_space value) ++ crlf

-- the instances of one listed header
pub signed_values : Text → List Text → Bool → Text
unfolding canonicalize_header strip_dkim_b equal_fold
signed_values name [] relaxed = []
signed_values name (value ∷ vs) relaxed =
    let signed = if equal_fold name (codes "dkim-signature") then strip_dkim_b value else value in
    canonicalize_header name signed relaxed ++ signed_values name vs relaxed

-- the listed headers, whose names are still to be trimmed
unfoldable pub signed_names : Header → List Text → Bool → Text
unfolding signed_values trim_space
signed_names header [] relaxed = []
signed_names header (raw ∷ names) relaxed =
    let rest = signed_names header names relaxed in
    let name = trim_space raw in
    if is_nil name then rest else signed_values name (header_values header name) relaxed ++ rest

unfoldable pub canonicalize_signed_headers : Header → Text → Bool → Text
unfolding signed_names split
canonicalize_signed_headers header listed relaxed = signed_names header (split b':' listed) relaxed

unfoldable pub header_relaxed : Text → Bool
unfolding to_lower cut text_eq
header_relaxed canon = elim (cut b'/' (to_lower canon)) [
  | none ↦ text_eq (to_lower canon) (codes "relaxed")
  | some (first, second) ↦ text_eq first (codes "relaxed")
]

unfoldable pub body_relaxed : Text → Bool
unfolding to_lower cut text_eq
body_relaxed canon = elim (cut b'/' (to_lower canon)) [
  | none ↦ false
  | some (first, second) ↦ text_eq second (codes "relaxed")
]

abbrev pub is_line_end : ℕ → Bool
is_line_end c = c == 13 || c == 10

abbrev pub end_line : Text → Text
end_line [] = []
end_line (c ∷ s) = (c ∷ s) ++ crlf

unfoldable pub simple_body : Text → Text
unfolding trim_right
simple_body body = end_line (trim_right is_line_end body)

unfoldable pub split_lines : Text → List Text
unfolding split trim_suffix
split_lines body = map (trim_suffix 13) (split 10 body)

abbrev no_lines : List Text → Bool
no_lines [] = true
no_lines (l ∷ ls) = false

unfoldable pub drop_empty_lines : List Text → List Text
drop_empty_lines [] = []
drop_empty_lines (l ∷ ls) =
    let rest = drop_empty_lines ls in if is_nil l && no_lines rest then [] else l ∷ rest

abbrev pub relaxed_line : Text → Text
relaxed_line line = collapse_wsp (trim_right is_wsp line)

abbrev pub join_lines : List Text → Text
join_lines [] = []
join_lines (l ∷ ls) = join crlf (map relaxed_line (l ∷ ls)) ++ crlf

unfoldable pub relaxed_body : Text → Text
unfolding split_lines drop_empty_lines collapse_wsp trim_right join
relaxed_body body = join_lines (drop_empty_lines (split_lines body))

unfoldable pub canonicalize_body : Text → Bool → Text
unfolding relaxed_body simple_body
canonicalize_body body true = relaxed_body body
canonicalize_body body false = simple_body body
