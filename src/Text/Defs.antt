-- ===== src/Text/Defs.antt =====
-- The functions of Go's `strings` and `strconv` that the program calls, on ASCII codes.
use Prim.Native.Char.{code}
use elec_postal.Base.{
  ℕ, ◌+◌, ◌-◌, String, Bool, true, false, ◌&&◌, ◌||◌, Option, none, some, List, [], ◌∷◌, ◌++◌, map,
  leb, ◌==◌, if◌then◌else◌,
}

abbrev pub Text : Type 0
Text = List ℕ

-- The codes of a literal.
abbrev pub codes : String → Text
codes String.[] = []
codes (String.◌∷◌ c s) = code c ∷ codes s

-- `a == b` on strings
unfoldable pub text_eq : Text → Text → Bool
text_eq [] [] = true
text_eq (x ∷ xs) (y ∷ ys) = x == y && text_eq xs ys
text_eq _ _ = false

abbrev pub is_nil : Text → Bool
is_nil [] = true
is_nil (c ∷ s) = false

-- `unicode.IsSpace` on ASCII: tab, line feed, vertical tab, form feed, carriage return, space
unfoldable pub is_space : ℕ → Bool
is_space c = (leb 9 c && leb c 13) || c == 32

unfoldable pub lower_code : ℕ → ℕ
lower_code c = if leb b'A' c && leb c b'Z' then c + 32 else c

-- `strings.ToLower`
unfoldable pub to_lower : Text → Text
unfolding lower_code
to_lower = map lower_code

abbrev upper_code : ℕ → ℕ
upper_code c = if leb b'a' c && leb c b'z' then c - 32 else c

-- `strings.ToUpper`
unfoldable pub to_upper : Text → Text
to_upper = map upper_code

abbrev starts_line_feed : Text → Bool
starts_line_feed [] = false
starts_line_feed (c ∷ s) = c == 10

-- `strings.ReplaceAll(s, "\r\n", "\n")`: a carriage return before a line feed is dropped
unfoldable pub replace_crlf : Text → Text
replace_crlf [] = []
replace_crlf (c ∷ s) =
    let rest = replace_crlf s in if c == 13 && starts_line_feed s then rest else c ∷ rest

-- `strings.EqualFold`
unfoldable pub equal_fold : Text → Text → Bool
unfolding text_eq to_lower
equal_fold a b = text_eq (to_lower a) (to_lower b)

-- `strings.TrimLeftFunc` and `strings.TrimRightFunc`
unfoldable pub trim_left : (ℕ → Bool) → Text → Text
trim_left p [] = []
trim_left p (c ∷ s) = let rest = trim_left p s in if p c then rest else c ∷ s

unfoldable pub trim_right : (ℕ → Bool) → Text → Text
trim_right p [] = []
trim_right p (c ∷ s) = let rest = trim_right p s in if p c && is_nil rest then [] else c ∷ rest

-- `strings.TrimSpace`
unfoldable pub trim_space : Text → Text
unfolding trim_left trim_right is_space
trim_space s = trim_right is_space (trim_left is_space s)

-- `strings.HasPrefix`
unfoldable pub has_prefix : Text → Text → Bool
has_prefix s [] = true
has_prefix [] (p ∷ ps) = false
has_prefix (c ∷ s) (p ∷ ps) = c == p && has_prefix s ps

-- `strings.HasSuffix`
unfoldable pub has_suffix : Text → Text → Bool
unfolding text_eq
has_suffix [] p = text_eq [] p
has_suffix (c ∷ s) p = text_eq (c ∷ s) p || has_suffix s p

-- `strings.TrimSuffix` with a suffix of one code
unfoldable pub trim_suffix : ℕ → Text → Text
trim_suffix p [] = []
trim_suffix p (c ∷ []) = if c == p then [] else c ∷ []
trim_suffix p (c ∷ d ∷ s) = c ∷ trim_suffix p (d ∷ s)

abbrev pub onto_left : ℕ → Option (Text × Text) → Option (Text × Text)
onto_left c none = none
onto_left c (some (a, b)) = some (c ∷ a, b)

-- `i := strings.Index(s, sep)`: the parts `s[:i]` and `s[i+1:]`, or none where `i < 0`
unfoldable pub cut : ℕ → Text → Option (Text × Text)
cut sep [] = none
cut sep (c ∷ s) = let later = onto_left c (cut sep s) in if c == sep then some ([], s) else later

abbrev or_here : ℕ → ℕ → Text → Option (Text × Text) → Option (Text × Text)
or_here c sep s none = if c == sep then some ([], s) else none
or_here c sep s (some (a, b)) = some (c ∷ a, b)

-- the same with `strings.LastIndex`
unfoldable pub cut_last : ℕ → Text → Option (Text × Text)
cut_last sep [] = none
cut_last sep (c ∷ s) = or_here c sep s (cut_last sep s)

-- what a code does to the pieces found behind it
abbrev pub onto_first : ℕ → List Text → List Text
onto_first c [] = (c ∷ []) ∷ []
onto_first c (piece ∷ pieces) = (c ∷ piece) ∷ pieces

-- `strings.Split` at one code: never empty
unfoldable pub split : ℕ → Text → List Text
split sep [] = [] ∷ []
split sep (c ∷ s) =
    let pieces = split sep s in if c == sep then [] ∷ pieces else onto_first c pieces

abbrev pub push_field : Text → List Text → List Text
push_field [] out = out
push_field word out = word ∷ out

-- the pieces of `split` at white space that are not empty
pub fields_from : Text → List Text
unfolding is_space
fields_from [] = [] ∷ []
fields_from (c ∷ s) =
    let pieces = fields_from s in if is_space c then [] ∷ pieces else onto_first c pieces

abbrev pub non_empty : List Text → List Text
non_empty [] = []
non_empty (word ∷ words) = push_field word (non_empty words)

-- `strings.Fields`
unfoldable pub fields : Text → List Text
unfolding fields_from
fields s = non_empty (fields_from s)

-- `strings.Join`
unfoldable pub join : Text → List Text → Text
join sep [] = []
join sep (piece ∷ []) = piece
join sep (piece ∷ next ∷ pieces) = piece ++ (sep ++ join sep (next ∷ pieces))

-- `strings.Contains`
unfoldable pub contains_text : Text → Text → Bool
unfolding has_prefix
contains_text [] p = has_prefix [] p
contains_text (c ∷ s) p = has_prefix (c ∷ s) p || contains_text s p

-- membership in a list of texts, by `==`
unfoldable pub member : Text → List Text → Bool
unfolding text_eq
member t [] = false
member t (u ∷ us) = text_eq t u || member t us
