-- ===== src/SenderAuth/Spf.antt =====
-- `evalSPF`, `evalInclude` and `verifySPF` of internal/senderauth/spf.go. `evalSPF` and
-- `evalInclude` call one another: here the loop over the terms takes the include as a function, and
-- `eval_spf` ties the knot on fuel.
pub mod Ip
pub mod Terms
pub mod Fuel
pub mod All
pub mod Cost
use elec_postal.Base.{ℕ, zero, suc, ◌+◌, Bool, true, false, ◌||◌, List, [], ◌∷◌, ltb, if◌then◌else◌}
use elec_postal.Text.{Text, codes, text_eq, is_nil, fields}
use elec_postal.SenderAuth.State.{
  Verdict, pass, neutral, temperror, permerror, Answer, records, not_found, failed, State, ◌>>=◌,
  pure, Env,
}
use elec_postal.SenderAuth.Address.{domain_of}
use Ip.{ip_match}
use Terms.{
  max_spf_dns_mechanisms, max_spf_include_depth, spf_record, Match, matched, level, qualifier,
  mechanism, is_modifier, qualified, match_host, match_mx,
}

-- A term ends the evaluation, or the loop goes on with a count of DNS mechanisms.
pub data Step : Type 0 where
  stop : Verdict → Step
  next : ℕ → Step

-- the mechanisms that count against the limit
abbrev pub is_dns : Text → Bool
is_dns name =
    text_eq name (codes "a") || text_eq name (codes "mx") || text_eq name (codes "include")

-- the result of an included record, as the match of the mechanism
abbrev pub included : Verdict → Match
included permerror = level permerror
included temperror = level temperror
included pass = matched true
included _ = matched false

abbrev pub after_match : ℕ → ℕ → Match → Step
after_match q count (level v) = stop v
after_match q count (matched true) = stop (qualified q)
after_match q count (matched false) = next count

-- what the loop does with a step; `loop` is the rest of the terms
abbrev pub proceed : {W : Type 0} → (ℕ → State W Verdict) → Step → State W Verdict
proceed loop (stop v) w = (v, w)
proceed loop (next n) w = loop n w

abbrev pub tail_of : List Text → List Text
tail_of [] = []
tail_of (t ∷ ts) = ts

module _ {W : Type 0} (env : Env W) where
  open env use {expired, lookup_txt, parse_ip}

  module _ (evaluate : Text → Text → State W Verdict) where
    -- `evalInclude` behind its lookup
    included_record : Text → Answer → State W Verdict
    included_record domain (records rs) =
        let record_text = spf_record rs in
        if is_nil record_text then pure neutral else evaluate record_text domain
    included_record domain not_found = pure neutral
    included_record domain failed = pure temperror

    -- `evaluate` is `evalSPF` at the depth of the include
    pub eval_include : Text → State W Verdict
    unfolding included_record
    eval_include [] = pure permerror
    eval_include (c ∷ domain) = do
      answer ← lookup_txt (c ∷ domain)
      included_record (c ∷ domain) answer

  module _ (include : Text → State W Verdict) (depth : ℕ) (domain peer_ip : Text) where
    -- the switch over the names, with the count of the mechanisms that this one belongs to
    run_mechanism : ℕ → Text → Text → State W Match
    run_mechanism count name arg =
        if text_eq name (codes "all")
        then pure (matched true)
        else if text_eq name (codes "ip4")
        then pure (matched (ip_match parse_ip arg peer_ip 32))
        else if text_eq name (codes "ip6")
        then pure (matched (ip_match parse_ip arg peer_ip 128))
        else if text_eq name (codes "a")
        then (if ltb max_spf_dns_mechanisms count
            then pure (level permerror)
            else match_host env arg domain peer_ip)
        else if text_eq name (codes "mx")
        then (if ltb max_spf_dns_mechanisms count
            then pure (level permerror)
            else match_mx env arg domain peer_ip)
        else if text_eq name (codes "include")
        then (if ltb max_spf_dns_mechanisms count || ltb max_spf_include_depth (depth + 1)
            then pure (level permerror)
            else (do v ← include arg; pure (included v)))
        else pure (matched false)

    -- a term with its qualifier taken off
    pub bare_step : ℕ → ℕ → Text → State W Step
    unfolding run_mechanism
    bare_step count q term =
        let (name, arg) = mechanism term in
        let count' = if is_dns name then count + 1 else count in
        if is_modifier term
        then pure (next count)
        else (do m ← run_mechanism count' name arg; pure (after_match q count' m))

    -- one round of the loop of `evalSPF`
    pub term_step : ℕ → Text → State W Step
    term_step count term w =
        let (late, w') = expired w in
        let (q, bare) = qualifier term in
        if late
        then (stop temperror, w')
        else if is_nil term
        then (next count, w')
        else bare_step count q bare w'

    pub eval_terms : ℕ → List Text → State W Verdict
    eval_terms count [] w = (neutral, w)
    eval_terms count (term ∷ terms) w =
        let (step, w') = term_step count term w in proceed (λ n v. eval_terms n terms v) step w'

  unfoldable pub eval_spf : ℕ → Text → Text → Text → ℕ → ℕ → State W Verdict
  unfolding eval_terms
  eval_spf zero record_text domain peer_ip count depth =
      eval_terms (λ arg. pure permerror) depth domain peer_ip count (tail_of (fields record_text))
  eval_spf (suc fuel) record_text domain peer_ip count depth =
      eval_terms
        (eval_include (λ included_text included_domain.
          eval_spf fuel included_text included_domain peer_ip zero (depth + 1)))
        depth domain peer_ip count (tail_of (fields record_text))

  -- `verifySPF` behind its lookup
  pub verify_record : Text → Text → Answer → State W Verdict
  verify_record domain peer_ip (records rs) =
      let record_text = spf_record rs in
      if is_nil record_text
      then pure Verdict.none
      else eval_spf max_spf_include_depth record_text domain peer_ip 0 0
  verify_record domain peer_ip not_found = pure Verdict.none
  verify_record domain peer_ip failed = pure temperror

  pub verify_domain : Text → Text → State W Verdict
  verify_domain [] peer_ip = pure Verdict.none
  verify_domain (c ∷ domain) peer_ip = do
    answer ← lookup_txt (c ∷ domain)
    verify_record (c ∷ domain) peer_ip answer

  unfoldable pub verify_spf : Text → Text → State W Verdict
  unfolding verify_record verify_domain eval_spf term_step bare_step run_mechanism eval_include
  verify_spf envelope_from peer_ip = verify_domain (domain_of envelope_from) peer_ip
