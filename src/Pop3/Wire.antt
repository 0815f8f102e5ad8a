-- ===== src/Pop3/Wire.antt =====
-- `dotStuff` and `top` of internal/pop3/server.go.
pub mod Framing
use elec_postal.Base.{ℕ, Option, none, some, List, [], ◌∷◌, ◌++◌, map, take, if◌then◌else◌}
use elec_postal.Text.{Text, codes, has_prefix, split, join, replace_crlf}
use elec_postal.Text.Number.{ℤ, pos, negsuc, value, atoi}

pub stuff : Text → Text
stuff line = if has_prefix line (codes ".") then b'.' ∷ line else line

-- the lines that are sent, up to the terminating one
unfoldable pub dot_stuff : Text → List Text
unfolding stuff
dot_stuff raw = map stuff (split 10 (replace_crlf raw)) ++ codes "." ∷ []

-- a negative number of lines is none
abbrev pub at_least_zero : ℤ → ℕ
at_least_zero (pos n) = n
at_least_zero (negsuc n) = 0

abbrev pub crlf : Text
crlf = 13 ∷ 10 ∷ []

pub header_lines : List (Text × Text) → Text
header_lines [] = []
header_lines ((key, val) ∷ headers) = key ++ (codes ": " ++ (val ++ (crlf ++ header_lines headers)))

abbrev top_of : Text → ℕ → Option (List (Text × Text) × Text) → Text
top_of raw n none = raw
top_of raw n (some (headers, body)) =
    header_lines headers ++ (crlf ++ join crlf (take n (split 10 (replace_crlf body))))

-- `read` is `mail.ReadMessage` with `topText` of the body.
unfoldable pub top : (Text → Option (List (Text × Text) × Text)) → Text → Text → Text
unfolding header_lines
top read raw lines = top_of raw (at_least_zero (value (atoi lines))) (read raw)
