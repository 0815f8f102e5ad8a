-- ===== src/SenderAuth/State.antt =====
-- The results of internal/senderauth as data types, and what the verifier asks of its surroundings.
use elec_postal.Base.{ℕ, Bool, Option, List}
use elec_postal.Text.{Text}

-- The texts of `Result.SPF` and `Result.DKIM`.
pub data Verdict : Type 0 where
  pass fail softfail neutral none temperror permerror : Verdict

-- The texts of `Result.DMARC`.
pub data Disposition : Type 0 where
  allow none quarantine reject temperror : Disposition

-- What `lookupTXT` returns: the records, an error with `IsNotFound`, or another error.
pub data Answer : Type 0 where
  records : List Text → Answer
  not_found : Answer
  failed : Answer

-- A computation that reads and changes the surroundings `W`.
abbrev pub State : Type 0 → Type 0 → Type 0
State W A = W → A × W

infixl 10 ◌>>=◌
abbrev pub ◌>>=◌ : {W A B : Type 0} → State W A → (A → State W B) → State W B
◌>>=◌ m f w = let (a, w') = m w in f a w'

abbrev pub pure : {W A : Type 0} → A → State W A
pure a w = (a, w)

-- An address as `net.IP` holds it: the number that its sixteen bytes spell. An IPv4 address is
-- the number below 2 ^ 32 behind the prefix ::ffff:0:0/96.
abbrev pub Ip : Type 0
Ip = ℕ

-- The surroundings of one `Verify`: the context's deadline, the name lookups, and the parser of
-- addresses of package `net`. A lookup may change `W` (caches, clocks, servers).
pub record Env (W : Type 0) : Type 0 where
  -- `ctx.Err() != nil`
  pub expired : State W Bool
  -- `v.lookupTXT`
  pub lookup_txt : Text → State W Answer
  -- `v.ipResolver.LookupIP` and `LookupMX`; none is an error
  pub lookup_ip : Text → State W (Option (List Ip))
  pub lookup_mx : Text → State W (Option (List Text))
  -- `net.ParseIP`
  pub parse_ip : Text → Option Ip
