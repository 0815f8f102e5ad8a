-- ===== src/SenderAuth/Spf/Terms.antt =====
-- `evalSPF` and what it calls. `evalInclude` and `evalSPF` call one another; here the loop over the
-- terms takes the include as a function, and `eval_spf` ties the knot on fuel.
pub mod Laws
use elec_postal.Base.{
  ℕ, ◌+◌, Bool, true, false, ◌||◌, Option, none, some, List, [], ◌∷◌, ◌==◌, if◌then◌else◌,
}
use elec_postal.Text.{Text, codes, has_prefix, to_lower, trim_space, cut}
use elec_postal.SenderAuth.State.{
  Verdict, pass, fail, softfail, neutral, temperror, State, ◌>>=◌, pure, Ip, Env,
}
use elec_postal.SenderAuth.Spf.Ip.{split_cidr, ip_match_network}

abbrev pub max_spf_dns_mechanisms : ℕ
max_spf_dns_mechanisms = 10

abbrev pub max_spf_include_depth : ℕ
max_spf_include_depth = 10

-- the first v=spf1 record, or the empty text
unfoldable pub spf_record : List Text → Text
spf_record [] = []
spf_record (r ∷ rs) =
    if has_prefix (to_lower (trim_space r)) (codes "v=spf1") then trim_space r else spf_record rs

-- `matched` with no error, or the result that ends the evaluation
pub data Match : Type 0 where
  matched : Bool → Match
  level : Verdict → Match

abbrev pub is_qualifier : ℕ → Bool
is_qualifier c = c == b'+' || c == b'-' || c == b'~' || c == b'?'

-- the qualifier of a term, `+` where it has none, and the term behind it
unfoldable pub qualifier : Text → ℕ × Text
qualifier [] = (b'+', [])
qualifier (c ∷ term) = if is_qualifier c then (c, term) else (b'+', c ∷ term)

abbrev name_and_arg : Text → Option (Text × Text) → Text × Text
name_and_arg term none = (term, [])
name_and_arg term (some parts) = parts

-- the name of a mechanism and its argument
unfoldable pub mechanism : Text → Text × Text
unfolding cut
mechanism term = name_and_arg term (cut b':' term)

abbrev pub is_modifier : Text → Bool
is_modifier term = has_prefix term (codes "redirect=") || has_prefix term (codes "exp=")

-- the result of a mechanism that matched
abbrev pub qualified : ℕ → Verdict
qualified q =
    if q == b'-' then fail else if q == b'~' then softfail else if q == b'?' then neutral else pass

abbrev or_domain : Text → Text → Text
or_domain [] spf_domain = spf_domain
or_domain domain spf_domain = domain

pub any_in : List Ip → Ip → Text → Bool
any_in [] peer cidr = false
any_in (a ∷ addrs) peer cidr = ip_match_network a peer cidr || any_in addrs peer cidr

abbrev pub matched_or_error : Option (List Ip) → Ip → Text → Match
matched_or_error none peer cidr = level temperror
matched_or_error (some addrs) peer cidr = matched (any_in addrs peer cidr)

module _ {W : Type 0} (env : Env W) where
  open env use {expired, lookup_txt, lookup_ip, lookup_mx, parse_ip}

  -- `matchHost` behind `net.ParseIP(peerIP)`
  host_at : Text → Text → Option Ip → State W Match
  host_at domain cidr none = pure (matched false)
  host_at domain cidr (some peer) = do
    addrs ← lookup_ip domain
    pure (matched_or_error addrs peer cidr)

  pub match_host : Text → Text → Text → State W Match
  unfolding host_at any_in
  match_host arg spf_domain peer_ip =
      let (domain, cidr) = split_cidr arg in
      host_at (or_domain domain spf_domain) cidr (parse_ip peer_ip)

  -- the loop of `matchMX`: a host whose lookup fails is passed over
  mx_loop : Ip → Text → List Text → State W Match
  mx_loop peer cidr [] w = (matched false, w)
  mx_loop peer cidr (host ∷ hosts) w =
      let (addrs, w') = lookup_ip host w in
      let rest = mx_loop peer cidr hosts w' in
      elim addrs [
        | none ↦ rest
        | some as' ↦ if any_in as' peer cidr then (matched true, w') else rest
      ]

  mx_found : Ip → Text → Option (List Text) → State W Match
  mx_found peer cidr none = pure (level temperror)
  mx_found peer cidr (some hosts) = mx_loop peer cidr hosts

  mx_at : Text → Text → Option Ip → State W Match
  mx_at domain cidr none = pure (matched false)
  mx_at domain cidr (some peer) = do mxs ← lookup_mx domain; mx_found peer cidr mxs

  pub match_mx : Text → Text → Text → State W Match
  unfolding mx_at mx_found mx_loop any_in
  match_mx arg spf_domain peer_ip =
      let (domain, cidr) = split_cidr arg in
      mx_at (or_domain domain spf_domain) cidr (parse_ip peer_ip)
