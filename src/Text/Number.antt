-- ===== src/Text/Number.antt =====
-- `strconv.Atoi` with a 64-bit `int`.
use elec_postal.Base.{
  ℕ, ◌+◌, ◌-◌, ◌*◌, ◌^◌, Bool, not, ◌&&◌, Option, none, some, [], ◌∷◌, ◌≡◌, refl, leb, ◌==◌,
  if◌then◌else◌,
}
use elec_postal.Text.Defs.{Text, codes}

-- `negsuc n` is -(n + 1).
pub data ℤ : Type 0 where
  pos : ℕ → ℤ
  negsuc : ℕ → ℤ

pub data Parsed : Type 0 where
  number : ℤ → Parsed
  -- `ErrRange`, with the nearest value that fits
  range_error : ℤ → Parsed
  syntax_error : Parsed

abbrev is_digit : ℕ → Bool
is_digit c = leb b'0' c && leb c b'9'

abbrev max_uint : ℕ
max_uint = 2 ^ 64 - 1

-- the loop of `ParseUint`: it ends with the largest number where the next one is too large, and does
-- not look at what follows
pub digits_from : ℕ → Text → Option ℕ
digits_from n [] = some n
digits_from n (c ∷ s) =
    let next = n * 10 + (c - b'0') in
    let rest = digits_from next s in
    if not (is_digit c) then none else if leb next max_uint then rest else some max_uint

abbrev max_int : ℕ
max_int = 2 ^ 63 - 1

abbrev positive : Option ℕ → Parsed
positive none = syntax_error
positive (some n) = if leb n max_int then number (pos n) else range_error (pos max_int)

abbrev negative : Option ℕ → Parsed
negative none = syntax_error
negative (some n) =
    if n == 0
    then number (pos 0)
    else if leb n (max_int + 1)
    then number (negsuc (n - 1))
    else range_error (negsuc max_int)

-- at least one digit
abbrev digits : Text → Option ℕ
digits [] = none
digits (c ∷ s) = digits_from 0 (c ∷ s)

unfoldable pub atoi : Text → Parsed
unfolding digits_from
atoi [] = syntax_error
atoi (c ∷ s) =
    if c == b'-'
    then negative (digits s)
    else if c == b'+'
    then positive (digits s)
    else positive (digits (c ∷ s))

-- `n, _ := strconv.Atoi(s)`
abbrev pub value : Parsed → ℤ
value (number n) = n
value (range_error n) = n
value syntax_error = pos 0

atoi_test : atoi (codes "-12") ≡ number (negsuc 11)
unfolding atoi
atoi_test = refl

range_test : atoi (codes "99999999999999999999x") ≡ range_error (pos (2 ^ 63 - 1))
unfolding atoi
range_test = refl

junk_test : atoi (codes "9999999999999999999x") ≡ syntax_error
unfolding atoi
junk_test = refl
