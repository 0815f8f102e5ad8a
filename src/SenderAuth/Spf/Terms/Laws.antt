-- ===== src/SenderAuth/Spf/Terms/Laws.antt =====
-- What the address mechanisms of internal/senderauth/spf.go can return, and what they look up.
use elec_postal.Base.{
  ◌≤◌, ◌≡◌, arith, Option-cases, inl, inr, ℕ, ◌+◌, Option, none, some, List, [], ◌∷◌,
}
use elec_postal.Text.{Text}
use elec_postal.SenderAuth.State.{Verdict, temperror, Ip, Env}
use elec_postal.SenderAuth.Spf.Ip.{split_cidr}
use elec_postal.SenderAuth.Spf.Terms.{
  level, match_host, match_mx, mx_loop, mx_at, mx_found, host_at, or_domain,
}

module _ {W : Type 0} (env : Env W) where
  open env use {lookup_ip, lookup_mx, parse_ip}

  -- a lookup that fails gives temperror, and nothing else does
  pub match_host-level :
      (arg spf_domain peer_ip : Text) (w : W) (v : Verdict)
      → (match_host env arg spf_domain peer_ip w).0 ≡ level v
      → v ≡ temperror
  unfolding match_host
  match_host-level arg spf_domain peer_ip w v h = ground arith

  mx_loop-level :
      (peer : Ip) (cidr : Text) (hosts : List Text) (w : W) (v : Verdict)
      → (mx_loop env peer cidr hosts w).0 ≡ level v
      → v ≡ temperror
  unfolding mx_loop
  mx_loop-level peer cidr [] w v h = ground arith
  mx_loop-level peer cidr (host ∷ hosts) w v h =
      ground (arith, mx_loop-level peer cidr hosts (lookup_ip host w).1 v)

  mx_at-level :
      (domain cidr : Text) (peer : Option Ip) (w : W) (v : Verdict)
      → (mx_at env domain cidr peer w).0 ≡ level v
      → v ≡ temperror
  unfolding mx_at mx_found
  mx_at-level domain cidr none w v h = ground arith
  mx_at-level domain cidr (some peer) w v h = elim (Option-cases (lookup_mx domain w).0) [
    | inl e ↦ ground arith
    | inr (hosts, e) ↦ ground (arith, mx_loop-level peer cidr hosts (lookup_mx domain w).1 v)
  ]

  pub match_mx-level :
      (arg spf_domain peer_ip : Text) (w : W) (v : Verdict)
      → (match_mx env arg spf_domain peer_ip w).0 ≡ level v
      → v ≡ temperror
  unfolding match_mx
  match_mx-level arg spf_domain peer_ip w v h =
      let d = or_domain (split_cidr arg).0 spf_domain in
      mx_at-level d (split_cidr arg).1 (parse_ip peer_ip) w v h

-- A count kept in the surroundings that a TXT lookup raises by one at most, and nothing else does.
pub record Counts {W : Type 0} (env : Env W) (cost : W → ℕ) : Type 0 where
  pub txt : (name : Text) (w : W) → cost (env.lookup_txt name w).1 ≤ cost w + 1
  pub ip : (name : Text) (w : W) → cost (env.lookup_ip name w).1 ≤ cost w
  pub mx : (name : Text) (w : W) → cost (env.lookup_mx name w).1 ≤ cost w
  pub clock : (w : W) → cost (env.expired w).1 ≤ cost w

module _ {W : Type 0} {env : Env W} {cost : W → ℕ} (h : Counts env cost) where
  open env use {lookup_ip, lookup_mx, parse_ip}

  -- addresses are looked up, and no TXT record
  pub match_host-cost :
      (arg spf_domain peer_ip : Text) (w : W)
      → cost (match_host env arg spf_domain peer_ip w).1 ≤ cost w
  unfolding match_host
  match_host-cost arg spf_domain peer_ip w = elim (Option-cases (parse_ip peer_ip)) [
    | inl e ↦ rw (e, host_at) (omega arith)
    | inr (peer, e) ↦ rw (e, host_at) (h.ip (or_domain (split_cidr arg).0 spf_domain) w)
  ]

  mx_loop-cost :
      (peer : Ip) (cidr : Text) (hosts : List Text) (w : W)
      → cost (mx_loop env peer cidr hosts w).1 ≤ cost w
  unfolding mx_loop
  mx_loop-cost peer cidr [] w = omega arith
  mx_loop-cost peer cidr (host ∷ hosts) w =
      ground (arith, mx_loop-cost peer cidr hosts (lookup_ip host w).1, h.ip host w)

  mx_at-cost :
      (domain cidr : Text) (peer : Option Ip) (w : W)
      → cost (mx_at env domain cidr peer w).1 ≤ cost w
  unfolding mx_at mx_found
  mx_at-cost domain cidr none w = omega arith
  mx_at-cost domain cidr (some peer) w = elim (Option-cases (lookup_mx domain w).0) [
    | inl e ↦ rw e (h.mx domain w)
    | inr (hosts, e) ↦
        rw e (omega (arith, mx_loop-cost peer cidr hosts (lookup_mx domain w).1, h.mx domain w))
  ]

  pub match_mx-cost :
      (arg spf_domain peer_ip : Text) (w : W)
      → cost (match_mx env arg spf_domain peer_ip w).1 ≤ cost w
  unfolding match_mx
  match_mx-cost arg spf_domain peer_ip w =
      mx_at-cost (or_domain (split_cidr arg).0 spf_domain) (split_cidr arg).1 (parse_ip peer_ip) w
