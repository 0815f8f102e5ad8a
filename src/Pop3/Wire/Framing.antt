-- ===== src/Pop3/Wire/Framing.antt =====
-- What a client reads of a multi-line reply.
use elec_postal.Base.{
  ◌≡◌, refl, false, Option, none, some, List, [], ◌∷◌, ◌++◌, map, arith, if◌then◌else◌, ◌==◌,
}
use elec_postal.Text.{Text, codes, has_prefix, split, replace_crlf, text_eq}
use elec_postal.Pop3.Wire.{stuff, dot_stuff}

-- A client's side of RFC 1939: it drops the first dot of a line that starts with one.
abbrev pub unstuff : Text → Text
unstuff [] = []
unstuff (c ∷ line) = if c == b'.' then line else c ∷ line

abbrev pub with_line : Text → Option (List Text × List Text) → Option (List Text × List Text)
with_line line none = none
with_line line (some (lines, rest)) = some (line ∷ lines, rest)

-- It reads up to the line that is a dot alone, and returns the lines and what follows.
unfoldable pub read_lines : List Text → Option (List Text × List Text)
read_lines [] = none
read_lines (line ∷ lines) =
    let more = with_line (unstuff line) (read_lines lines) in
    if text_eq line (codes ".") then some ([], lines) else more

stuff-ne-dot : (line : Text) → text_eq (stuff line) (codes ".") ≡ false
unfolding stuff text_eq has_prefix
stuff-ne-dot [] = refl
stuff-ne-dot (c ∷ []) = ground arith
stuff-ne-dot (c ∷ d ∷ line) = ground arith

unstuff-stuff : (line : Text) → unstuff (stuff line) ≡ line
unfolding stuff has_prefix
unstuff-stuff [] = refl
unstuff-stuff (c ∷ line) = ground arith

read_lines-stuff :
    (lines rest : List Text)
    → read_lines ((map stuff lines ++ codes "." ∷ []) ++ rest) ≡ some (lines, rest)
unfolding read_lines text_eq
read_lines-stuff [] rest = refl
read_lines-stuff (line ∷ lines) rest =
    rw (stuff-ne-dot line, unstuff-stuff line, read_lines-stuff lines rest)

-- Whatever the message holds, a client that reads the lines of a reply up to the first lone dot
-- gets the lines of the message and stops exactly at the end of the reply.
pub read_lines-dot_stuff :
    (raw : Text) (rest : List Text)
    → read_lines (dot_stuff raw ++ rest) ≡ some (split 10 (replace_crlf raw), rest)
unfolding dot_stuff
read_lines-dot_stuff raw rest = read_lines-stuff (split 10 (replace_crlf raw)) rest
